-- ===== src/Digest/Redelivery.antt =====
-- An event that is delivered again.
use thermite_rs.Prelude.{
  Bool, Bytes, List, Option, Text, ap, arith, codes, false, if◌then◌else◌, none, refl, some, subst,
  sym, true, ℕ, ◌∙◌, ◌≡◌,
}
use thermite_rs.Event.Basic.{TimeParser, str_field}
use thermite_rs.Json.{Value}
use thermite_rs.Grouping.{Engine}
use thermite_rs.Digest.Store.{Issue, Store, Trigger, new_issue, regression, resolve_given}
use thermite_rs.Digest.Steps.{
  OpenedIssue, Reading, advance_all, advance_issue, advanced, affect, bump_event_counts, digest,
  digest_reading, find_issue, finish, is_stored, notify, open_found, open_issue, read, reopens_for,
  roll_up_tags, store_event, trigger_of, update_issue,
}
use thermite_rs.Digest.Retries.{
  Has, Has-update_issue, KeepsKey, Settled, open_found-Has, open_issue-again, resolve_given-Settled,
  resolve_given-again, store_event-again, store_event-is_stored,
}

abbrev release_of : Reading → Option Text
release_of r = str_field r.payload (codes "release")

-- Of the store `before`, the parts that a redelivery looks at are in `after`.
pub record Keeps (p : ℕ) (hash : Bytes) (id : ℕ) (before after : Store) : Type 0 where
  pub same_releases : after.releases ≡ before.releases
  pub same_events : after.events ≡ before.events
  pub same_issue : Has p hash id before.issues → Has p hash id after.issues

pub notify-Keeps :
    (t : Option Trigger) (p q id : ℕ) (hash : Bytes) (rel : Option ℕ) (o : OpenedIssue) (st : Store)
    → Keeps q hash id st (notify t p rel o st)
unfolding notify
notify-Keeps none p q id hash rel o st = record {
  same_releases = refl;
  same_events = refl;
  same_issue = λ h. h;
}
notify-Keeps (some new_issue) p q id hash rel o st = record {
  same_releases = refl;
  same_events = refl;
  same_issue = λ h. h;
}
notify-Keeps (some regression) p q id hash rel o st = record {
  same_releases = refl;
  same_events = refl;
  same_issue = λ h. h;
}

affected-Has :
    (b : Bool) (p id k n : ℕ) (hash : Bytes) (is : List Issue)
    → Has p hash id is
    → Has p hash id (if b then update_issue k (affect n) is else is)
affected-Has true p id k n hash is h =
    Has-update_issue p id k hash (affect n) is (λ i. (refl, refl, refl)) h
affected-Has false p id k n hash is h = h

advanced-KeepsKey : (r : Reading) (reopens : Bool) → KeepsKey (advanced r reopens)
unfolding advanced
advanced-KeepsKey r reopens i = (refl, refl, refl)

pub advance_all-Keeps :
    (stored : Bool) (p q id : ℕ) (hash : Bytes) (c : Option Text) (r : Reading) (o : OpenedIssue)
    (reopens : Bool) (st : Store)
    → Keeps q hash id st (advance_all p c r o reopens stored st)
unfolding advance_all roll_up_tags bump_event_counts advance_issue
advance_all-Keeps false p q id hash c r o reopens st = record {
  same_releases = refl;
  same_events = refl;
  same_issue = λ h. h;
}
advance_all-Keeps true p q id hash c r o reopens st = record {
  same_releases = refl;
  same_events = refl;
  same_issue = λ h. affected-Has _ q id o.id _ hash _ (
      Has-update_issue q id o.id hash (advanced r reopens) st.issues (advanced-KeepsKey r reopens)
        h);
}

finish-again :
    (p id : ℕ) (c : Option Text) (r : Reading) (rel : Option ℕ) (o : OpenedIssue) (st : Store)
    → o.id ≡ id
    → o.new_issue ≡ false
    → finish p c r rel o false st ≡ (
      st,
      record {
        event_id = r.event_id;
        issue_id = id;
        stored = false;
        new_issue = false;
        notified = none;
      },
    )
unfolding finish advance_all trigger_of notify
finish-again p id c r rel o st e n = rw (e, n) refl

digest_reading-known :
    (p id : ℕ) (c : Option Text) (r : Reading) (st : Store)
    → Settled p (release_of r) st.releases
    → Has p r.grouping.hash id st.issues
    → is_stored p r.event_id st.events ≡ true
    → digest_reading p c r st ≡ (
      st,
      record {
        event_id = r.event_id;
        issue_id = id;
        stored = false;
        new_issue = false;
        notified = none;
      },
    )
unfolding digest_reading
digest_reading-known p id c r st s h k =
    let opened = open_issue-again p id r st h in
    rw
      (
        resolve_given-again p (release_of r) st s,
        opened.0,
        store_event-again p (open_issue p r st).0.id r st k,
      )
      (finish-again p id c r (resolve_given p (release_of r) st).0 (open_issue p r st).0 st opened.1
        opened.2)

-- The releases and the events that a statement does not write.
opened_releases :
    (o : Option Issue) (p : ℕ) (r : Reading) (st : Store)
    → (open_found o p r st).1.releases ≡ st.releases
unfolding open_found
opened_releases (some i) p r st = refl
opened_releases none p r st = refl

stored_rest :
    (p id : ℕ) (r : Reading) (st : Store)
    → ((store_event p id r st).1.releases ≡ st.releases)
      × ((store_event p id r st).1.issues ≡ st.issues)
unfolding store_event
stored_rest p id r st = ground arith

digest_reading-leaves :
    (p : ℕ) (c : Option Text) (r : Reading) (st : Store)
    → let done = digest_reading p c r st in
      Settled p (release_of r) done.0.releases
      × Has p r.grouping.hash done.1.issue_id done.0.issues
      × (is_stored p r.event_id done.0.events ≡ true)
unfolding digest_reading finish open_issue
digest_reading-leaves p c r st =
    let resolved = resolve_given p (release_of r) st in
    let found = find_issue p r.grouping.hash resolved.1.issues in
    let opened = open_found found p r resolved.1 in
    let kept = store_event p opened.0.id r opened.1 in
    let reopens = reopens_for opened.0.resolved_in_release_id resolved.0 in
    let id = opened.0.id in
    let hash = r.grouping.hash in
    let all = advance_all p c r opened.0 reopens kept.0 kept.1 in
    let a = advance_all-Keeps kept.0 p p id hash c r opened.0 reopens kept.1 in
    let n =
      notify-Keeps (trigger_of kept.0 opened.0.new_issue opened.0.status reopens) p p id hash
        resolved.0 opened.0 all in
    let rest = stored_rest p id r opened.1 in
    (
      subst (Settled p (release_of r))
          (sym (n.same_releases ∙ a.same_releases ∙ rest.0 ∙ opened_releases found p r resolved.1))
          (resolve_given-Settled p (release_of r) st),
      n.same_issue (
          a.same_issue
            (subst (Has p hash id) (sym rest.1) (open_found-Has found p r resolved.1 refl))),
      ap (is_stored p r.event_id) (n.same_events ∙ a.same_events)
          ∙ store_event-is_stored p id r opened.1,
    )

-- When an event that was digested is delivered again, at whatever later time and through whatever key
-- of the project, nothing changes: every table is as the first delivery left it, no notification is
-- queued, and the answer names the same event and issue, neither stored nor new.
pub redelivery_changes_nothing :
    (times : TimeParser) (engine : Engine) (p : ℕ) (c c' : Option Text) (event_id : Text)
    (payload : Value) (received_at again_at : ℕ) (st : Store)
    → let first = digest times engine p c event_id payload received_at st in
      digest times engine p c' event_id payload again_at first.0 ≡ (
        first.0,
        record {
          event_id = event_id;
          issue_id = first.1.issue_id;
          stored = false;
          new_issue = false;
          notified = none;
        },
      )
unfolding digest read
redelivery_changes_nothing times engine p c c' event_id payload received_at again_at st =
    let r = read times engine event_id payload received_at in
    let left = digest_reading-leaves p c r st in
    digest_reading-known p (digest_reading p c r st).1.issue_id c'
      (read times engine event_id payload again_at) (digest_reading p c r st).0 left.0 left.1 left.2
