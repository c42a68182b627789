-- ===== src/Issues/History.antt =====
-- Digests and status changes, one after another.
use thermite_rs.Prelude.{
  All, Bool, Option, Result, Text, [], err, if_keeps, none, not, ok, refl, some, text_eq, ℕ, ◌&&◌,
  ◌≡◌,
}
use thermite_rs.Outbox.Triage.{AppError, release}
use thermite_rs.Digest.Store.{Issue, Store}
use thermite_rs.Digest.Steps.{Reading, digest_reading, update_issue}
use thermite_rs.Digest.Counts.{
  All-update_issue, Below-update_issue, IsConsistent, IsExact, counted_of, stored_of,
}
use thermite_rs.Digest.Consistent.{digest_reading-IsConsistent}
use thermite_rs.Issues.Status.{
  change_anchored, change_found, find_issue_id, record_status, update_status, with_status,
}

-- What happens to the tables.
pub data Step : Store → Store → Type 0 where
  digests :
      (project_id : ℕ) (component : Option Text) (r : Reading) (st : Store)
      → Step st (digest_reading project_id component r st).0
  changes :
      (id : ℕ) (status : Text) (in_next_release : Bool) (actor : Option Text) (st : Store)
      → Step st (update_status id status in_next_release actor st).1

pub data Run (st : Store) : Store → Type 0 where
  here : Run st st
  next : {u v : Store} → Run st u → Step u v → Run st v

-- The tables of a new installation.
abbrev pub no_rows : Store
no_rows = record {
  releases = [];
  next_release = 1;
  issues = [];
  next_issue = 1;
  events = [];
  event_counts = [];
  issue_tags = [];
  notifications = [];
  activity = [];
}

record_status-IsConsistent :
    (id : ℕ) (actor : Option Text) (before status : Text) (n : Bool) (release : Option Text)
    (st : Store)
    → IsConsistent st
    → IsConsistent (record_status id actor before status n release st)
unfolding record_status
record_status-IsConsistent id actor before status n release st h =
    if_keeps IsConsistent (text_eq before status && not n) _ _ h h

change_found-IsConsistent :
    (o : Option Issue) (id : ℕ) (status : Text) (n : Bool) (actor : Option Text) (anchor : Option ℕ)
    (st : Store)
    → IsConsistent st
    → IsConsistent (change_found o id status n actor anchor st).1
unfolding change_found
change_found-IsConsistent none id status n actor anchor st h = h
change_found-IsConsistent (some i) id status n actor anchor st
      (issue_ids, release_ids, exact, more_events, more_counts) =
    let f = with_status status anchor in
    record_status-IsConsistent id actor i.status status n _
      (record st { issues = update_issue id f st.issues })
      (
        Below-update_issue st.next_issue id f st.issues (λ j. refl) issue_ids,
        release_ids,
        All-update_issue (IsExact st.events st.event_counts) (IsExact st.events st.event_counts) id
            f st.issues (λ j ex here. ex) (λ j ex there. ex) exact,
        more_events,
        more_counts,
      )

change_anchored-IsConsistent :
    (a : Result AppError (Option ℕ)) (id : ℕ) (status : Text) (n : Bool) (actor : Option Text)
    (st : Store)
    → IsConsistent st
    → IsConsistent (change_anchored a id status n actor st).1
unfolding change_anchored
change_anchored-IsConsistent (err e) id status n actor st h = h
change_anchored-IsConsistent (ok anchor) id status n actor st h =
    change_found-IsConsistent (find_issue_id id st.issues) id status n actor anchor st h

Step-IsConsistent : {st st' : Store} → Step st st' → IsConsistent st → IsConsistent st'
unfolding update_status
Step-IsConsistent (digests p c r st) h = digest_reading-IsConsistent p c r st h
Step-IsConsistent (changes id status n actor st) h =
    if_keeps (λ (x : Result AppError Issue × Store). IsConsistent x.1) _ _ _ h
      (change_anchored-IsConsistent _ id status n actor st h)

pub Run-IsConsistent : {st st' : Store} → Run st st' → IsConsistent st → IsConsistent st'
Run-IsConsistent here h = h
Run-IsConsistent (next run step) h = Step-IsConsistent step (Run-IsConsistent run h)

no_rows-IsConsistent : IsConsistent no_rows
no_rows-IsConsistent = (tt, tt, tt, λ id le. refl, λ id le. refl)

-- Whatever digests and status changes come after one another, beginning with empty tables, each issue
-- has a count that is both the number of its stored events and the sum of its hourly buckets.
pub counts_are_exact :
    {st : Store}
    → Run no_rows st
    → All
        (λ (i : Issue).
          (i.times_seen ≡ stored_of i.id st.events)
          × (i.times_seen ≡ counted_of i.id st.event_counts))
        st.issues
counts_are_exact run = (Run-IsConsistent run no_rows-IsConsistent).2
