-- ===== src/Digest/Consistent.antt =====
-- The digest keeps the counters of the issues exact.
use thermite_rs.Prelude.{
  Bool, Bool-cases, List, Option, Text, [], arith, codes, false, if_keeps, if◌then◌else◌, inl, inr,
  none, refl, some, subst, sym, true, ℕ, ◌<◌, ◌∷◌, ◌≡◌,
}
use thermite_rs.Event.Basic.{hour_of, str_field}
use thermite_rs.Digest.Store.{
  Issue, Store, Stored, Trigger, known_or_mint, mint, new_issue, record_regression, regression,
  resolve, resolve_given,
}
use thermite_rs.Digest.Steps.{
  OpenedIssue, Reading, advance_all, advance_issue, advanced, affect, bump_event_counts,
  digest_reading, find_issue, finish, has_key, inserted_issue, is_stored, notify, open_found,
  open_issue, reopens_for, roll_up_tags, store_event, trigger_of, update_issue,
}
use thermite_rs.Digest.Retries.{picked}
use thermite_rs.Digest.Counts.{
  All-update_issue, Below, Below-update_issue, IsConsistent, IsExact, counted_of-count_up,
}

known_or_mint-IsConsistent :
    (o : Option ℕ) (p : ℕ) (v : Text) (st : Store)
    → IsConsistent st
    → IsConsistent (known_or_mint o p v st).1
unfolding known_or_mint mint
known_or_mint-IsConsistent (some id) p v st h = h
known_or_mint-IsConsistent none p v st h =
    let (issue_ids, release_ids, exact, no_events, no_counts) = h in
    if_keeps (λ (m : Option ℕ × Store). IsConsistent m.1) _ _ _
      (issue_ids, (omega arith, release_ids), exact, no_events, no_counts) h

pub resolve_given-IsConsistent :
    (p : ℕ) (v : Option Text) (st : Store) → IsConsistent st → IsConsistent (resolve_given p v st).1
unfolding resolve_given resolve
resolve_given-IsConsistent p none st h = h
resolve_given-IsConsistent p (some v) st h = known_or_mint-IsConsistent _ p v st h

pub resolve_given-next_issue :
    (p : ℕ) (v : Option Text) (st : Store) → (resolve_given p v st).1.next_issue ≡ st.next_issue
unfolding resolve_given resolve known_or_mint mint
resolve_given-next_issue p none st = refl
resolve_given-next_issue p (some v) st = ground arith

open_found-IsConsistent :
    (o : Option Issue) (p : ℕ) (r : Reading) (st : Store)
    → IsConsistent st
    → IsConsistent (open_found o p r st).1
unfolding open_found inserted_issue
open_found-IsConsistent (some i) p r st h = h
open_found-IsConsistent none p r st (issue_ids, release_ids, exact, no_events, no_counts) = (
  (omega arith, issue_ids),
  release_ids,
  (
    (sym (no_events st.next_issue (omega arith)), sym (no_counts st.next_issue (omega arith))),
    exact,
  ),
  λ id le. no_events id (omega (arith, le)),
  λ id le. no_counts id (omega (arith, le)),
)

find_issue-Below :
    (n p : ℕ) (hash : List ℕ) (is : List Issue) (i : Issue)
    → Below n is
    → find_issue p hash is ≡ some i
    → i.id < n
unfolding find_issue
find_issue-Below n p hash [] i h e = ground arith
find_issue-Below n p hash (j ∷ is) i h e = elim (Bool-cases (has_key p hash j)) [
  | inl here ↦ subst (λ (k : Issue). k.id < n) ((picked _ j i _ e).0 here) h.0
  | inr there ↦
      omega (arith, h.0, find_issue-Below j.id p hash is i h.1 ((picked _ j i _ e).1 there))
]

open_found_in_range :
    (o : Option Issue) (p : ℕ) (r : Reading) (st : Store)
    → Below st.next_issue st.issues
    → find_issue p r.grouping.hash st.issues ≡ o
    → (open_found o p r st).0.id < (open_found o p r st).1.next_issue
unfolding open_found
open_found_in_range (some i) p r st h e =
    find_issue-Below st.next_issue p r.grouping.hash st.issues i h e
open_found_in_range none p r st h e = omega arith

-- The three writes of an event that is new, and the event's own row.
counted-IsConsistent :
    (p id : ℕ) (r : Reading) (reopens : Bool) (e : Stored) (st : Store)
    → IsConsistent st
    → id < st.next_issue
    → e.issue_id ≡ id
    → IsConsistent (
        bump_event_counts p id r
          (advance_issue id r reopens (record st { events = e ∷ st.events })))
unfolding bump_event_counts advance_issue advanced
counted-IsConsistent p id r reopens e st (issue_ids, release_ids, exact, no_events, no_counts) below
      same =
    (
      Below-update_issue st.next_issue id (advanced r reopens) st.issues (λ i. refl) issue_ids,
      release_ids,
      All-update_issue (IsExact st.events st.event_counts) _ id (advanced r reopens) st.issues
          (λ i ex here. (
            ground (arith, ex, here, same),
            ground (
              arith,
              ex,
              here,
              counted_of-count_up i.id p id (hour_of r.timestamp) r.level st.event_counts,
            ),
          ))
          (λ i ex there. (
            ground (arith, ex, there, same),
            ground (
              arith,
              ex,
              there,
              counted_of-count_up i.id p id (hour_of r.timestamp) r.level st.event_counts,
            ),
          ))
          exact,
      λ k le. ground (arith, no_events k le, same),
      λ k le. ground (
        arith,
        no_counts k le,
        counted_of-count_up k p id (hour_of r.timestamp) r.level st.event_counts,
      ),
    )

affected-IsConsistent :
    (b : Bool) (id n : ℕ) (st : Store)
    → IsConsistent st
    → IsConsistent
        (record st { issues = if b then update_issue id (affect n) st.issues else st.issues })
affected-IsConsistent false id n st h = h
affected-IsConsistent true id n st (issue_ids, release_ids, exact, no_events, no_counts) = (
  Below-update_issue st.next_issue id (affect n) st.issues (λ i. refl) issue_ids,
  release_ids,
  All-update_issue (IsExact st.events st.event_counts) (IsExact st.events st.event_counts) id
      (affect n) st.issues (λ i ex here. ex) (λ i ex there. ex) exact,
  no_events,
  no_counts,
)

roll_up_tags-IsConsistent :
    (p id : ℕ) (c : Option Text) (r : Reading) (st : Store)
    → IsConsistent st
    → IsConsistent (roll_up_tags p id c r st)
unfolding roll_up_tags
roll_up_tags-IsConsistent p id c r st h = affected-IsConsistent _ id _ st h

notify-IsConsistent :
    (t : Option Trigger) (p : ℕ) (rel : Option ℕ) (o : OpenedIssue) (st : Store)
    → IsConsistent st
    → IsConsistent (notify t p rel o st)
unfolding notify record_regression
notify-IsConsistent none p rel o st h = h
notify-IsConsistent (some new_issue) p rel o st h = h
notify-IsConsistent (some regression) p rel o st h = h

-- The counters are advanced exactly if the event's row is written.
recorded-IsConsistent :
    (b : Bool) (p id : ℕ) (c : Option Text) (r : Reading) (reopens : Bool) (e : Stored)
    (o : OpenedIssue) (st : Store)
    → IsConsistent st
    → o.id < st.next_issue
    → e.issue_id ≡ o.id
    → let kept : Bool × Store =
        if b then (false, st) else (true, record st { events = e ∷ st.events }) in
      IsConsistent (advance_all p c r o reopens kept.0 kept.1)
unfolding advance_all
recorded-IsConsistent true p id c r reopens e o st h below same = h
recorded-IsConsistent false p id c r reopens e o st h below same =
    let counted =
      bump_event_counts p o.id r
        (advance_issue o.id r reopens (record st { events = e ∷ st.events })) in
    roll_up_tags-IsConsistent p o.id c r counted
      (counted-IsConsistent p o.id r reopens e st h below same)

-- Every digest leaves each issue with a count that is the number of its stored events and the sum of its
-- hourly buckets, with ids below the sequence of each table.
pub digest_reading-IsConsistent :
    (p : ℕ) (c : Option Text) (r : Reading) (st : Store)
    → IsConsistent st
    → IsConsistent (digest_reading p c r st).0
unfolding digest_reading store_event finish open_issue
digest_reading-IsConsistent p c r st h =
    let release = resolve_given p (str_field r.payload (codes "release")) st in
    let s = release.1 in
    let hs = resolve_given-IsConsistent p (str_field r.payload (codes "release")) st h in
    let found = find_issue p r.grouping.hash s.issues in
    let opened = open_found found p r s in
    let kept = store_event p opened.0.id r opened.1 in
    let reopens = reopens_for opened.0.resolved_in_release_id release.0 in
    notify-IsConsistent (trigger_of kept.0 opened.0.new_issue opened.0.status reopens) p release.0
      opened.0 (advance_all p c r opened.0 reopens kept.0 kept.1)
      (recorded-IsConsistent (is_stored p r.event_id opened.1.events) p opened.0.id c r reopens _
        opened.0 opened.1 (open_found-IsConsistent found p r s hs)
        (open_found_in_range found p r s hs.0 refl) refl)
