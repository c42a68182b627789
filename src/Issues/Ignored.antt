-- ===== src/Issues/Ignored.antt =====
-- An issue that is ignored, over a sequence of digests.
use mathlib.Core.Option.{some-injective}
use thermite_rs.Event.Basic.{str_field}
use thermite_rs.Digest.Numbered.{IsNumbered, digest_reading-IsNumbered, resolve_given-IsNumbered}
use thermite_rs.Digest.Recurrence.{
  advance_all-queues, notify_issues, resolve_given-queues, resolved_issues, store_event-same,
}
use thermite_rs.Prelude.{
  Bool, Bool-cases, List, Option, Text, [], ap, arith, codes, false, filter, inl, inr, none, refl,
  some, subst, sym, text_eq, true, ℕ, ◌==◌, ◌∙◌, ◌∷◌, ◌≡◌, ◌≢◌, ◌⊎◌,
}
use thermite_rs.Digest.Store.{
  Issue, Queued, Store, Trigger, new_issue, record_regression, regression, resolve_given,
}
use thermite_rs.Digest.Steps.{
  OpenedIssue, Reading, advance_all, digest_reading, find_issue, finish, notify, open_found,
  open_issue, reopens_for, store_event, trigger_of,
}
use thermite_rs.Digest.Counts.{Below}
use thermite_rs.Issues.NextRelease.{find_issue-id}
use thermite_rs.Issues.Status.{find_issue_id}
use thermite_rs.Issues.Stays.{
  IsIgnored, advance_all-IsIgnored, find_issue_id-Below, ignored, open_found-IsIgnored,
}

-- What is queued for an issue.
abbrev pub queued_for : ℕ → Store → List Queued
queued_for id st = filter (λ (q : Queued). q.issue_id == id) st.notifications

open_found-notifications :
    (o : Option Issue) (p : ℕ) (r : Reading) (st : Store)
    → (open_found o p r st).1.notifications ≡ st.notifications
unfolding open_found
open_found-notifications none p r st = refl
open_found-notifications (some i) p r st = refl

-- A notification is none, or one of another issue.
abbrev Quiet : ℕ → Option Trigger → OpenedIssue → Type 0
Quiet id t o = (t ≡ none) ⊎ (o.id ≢ id)

notify-Quiet :
    (t : Option Trigger) (p id : ℕ) (rel : Option ℕ) (o : OpenedIssue) (st : Store)
    → Quiet id t o
    → queued_for id (notify t p rel o st) ≡ queued_for id st
unfolding notify record_regression
notify-Quiet none p id rel o st q = refl
notify-Quiet (some new_issue) p id rel o st q = ground arith
notify-Quiet (some regression) p id rel o st q = ground arith

trigger_of_stays :
    (stored : Bool) (status : Text) (reopens : Bool)
    → status ≡ ignored
    → trigger_of stored false status reopens ≡ none
unfolding trigger_of text_eq
trigger_of_stays true status reopens h = rw h refl
trigger_of_stays false status reopens h = refl

opened-Quiet :
    (o : Option Issue) (p id : ℕ) (r : Reading) (stored reopens : Bool) (st : Store)
    → Below st.next_issue st.issues
    → find_issue p r.grouping.hash st.issues ≡ o
    → IsIgnored id st.issues
    → let opened = (open_found o p r st).0 in
      Quiet id (trigger_of stored opened.new_issue opened.status reopens) opened
unfolding open_found
opened-Quiet none p id r stored reopens st b e (i, there, ig) =
    inr (ground (arith, find_issue_id-Below st.next_issue id st.issues i b there))
opened-Quiet (some j) p id r stored reopens st b e (i, there, ig) = elim (Bool-cases (j.id == id)) [
  | inr other ↦ inr (ground arith)
  | inl same ↦
      let found = (find_issue-id st.next_issue p r.grouping.hash st.issues j b e).1 in
      inl (
        trigger_of_stays stored j.status reopens (
          ap (λ (x : Issue). x.status)
            (some-injective j i
              (sym (subst (λ k. find_issue_id k st.issues ≡ some j) (ground arith) found) ∙ there))
          ∙ ig))
]

digest_reading-IsIgnored :
    (p id : ℕ) (c : Option Text) (r : Reading) (st : Store)
    → IsNumbered st
    → IsIgnored id st.issues
    → let st' = (digest_reading p c r st).0 in
      IsIgnored id st'.issues × (queued_for id st' ≡ queued_for id st)
unfolding digest_reading finish open_issue
digest_reading-IsIgnored p id c r st h ig =
    let v = str_field r.payload (codes "release") in
    let release = resolve_given p v st in
    let s = release.1 in
    let hs = resolve_given-IsNumbered p v st h in
    let igs = subst (IsIgnored id) (sym (resolved_issues p v st).0) ig in
    let found = find_issue p r.grouping.hash s.issues in
    let opened = open_found found p r s in
    let kept = store_event p opened.0.id r opened.1 in
    let same = store_event-same p opened.0.id r opened.1 in
    let reopens = reopens_for opened.0.resolved_in_release_id release.0 in
    let after = advance_all p c r opened.0 reopens kept.0 kept.1 in
    let notified = trigger_of kept.0 opened.0.new_issue opened.0.status reopens in
    let rows : after.notifications ≡ st.notifications =
      (advance_all-queues kept.0 p c r opened.0 reopens kept.1).0
      ∙ same.1
      ∙ open_found-notifications found p r s
      ∙ (resolve_given-queues p v st).0 in
    (
      subst (IsIgnored id) (sym (notify_issues notified p release.0 opened.0 after)) (
          advance_all-IsIgnored kept.0 p id c r opened.0 reopens kept.1
            (subst (IsIgnored id) (sym same.0) (open_found-IsIgnored found p id r s hs igs))),
      notify-Quiet notified p id release.0 opened.0 after
            (opened-Quiet found p id r kept.0 reopens s hs refl igs)
          ∙ ap (filter (λ (q : Queued). q.issue_id == id)) rows,
    )

-- The digests of several events, one after another: the project, the component and what is read of each.
abbrev pub digest_all : List (ℕ × Option Text × Reading) → Store → Store
digest_all [] st = st
digest_all (e ∷ es) st = digest_all es (digest_reading e.0 e.1 e.2 st).0

-- An ignored issue stays ignored, whatever events are digested, and none of them queues anything for it:
-- in every database whose issue ids are below the sequence they are taken from.
pub no_event_reopens_it :
    (id : ℕ) (events : List (ℕ × Option Text × Reading)) (st : Store)
    → IsNumbered st
    → IsIgnored id st.issues
    → IsIgnored id (digest_all events st).issues
      × (queued_for id (digest_all events st) ≡ queued_for id st)
no_event_reopens_it id [] st h ig = (ig, refl)
no_event_reopens_it id (e ∷ es) st h ig =
    let one = digest_reading-IsIgnored e.0 id e.1 e.2 st h ig in
    let rest =
      no_event_reopens_it id es (digest_reading e.0 e.1 e.2 st).0
        (digest_reading-IsNumbered e.0 e.1 e.2 st h) one.0 in
    (rest.0, rest.1 ∙ one.1)
