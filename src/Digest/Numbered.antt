-- ===== src/Digest/Numbered.antt =====
-- The digest keeps the ids of the issues below their sequence.
use thermite_rs.Prelude.{
  Bool, Option, Text, arith, codes, false, if_keeps, none, refl, some, subst, sym, true, ℕ, ◌≡◌,
}
use thermite_rs.Event.Basic.{str_field}
use thermite_rs.Digest.Store.{
  Issue, Store, Trigger, new_issue, record_regression, regression, resolve_given,
}
use thermite_rs.Digest.Steps.{
  OpenedIssue, Reading, advance_all, advance_issue, advanced, affect, bump_event_counts,
  digest_reading, find_issue, finish, inserted_issue, notify, open_found, open_issue, reopens_for,
  roll_up_tags, store_event, trigger_of,
}
use thermite_rs.Digest.Store.{
  Issue, Store, Trigger, new_issue, record_regression, regression, resolve_given,
}
use thermite_rs.Digest.Counts.{Below, Below-update_issue}
use thermite_rs.Digest.Consistent.{resolve_given-next_issue}
use thermite_rs.Digest.Recurrence.{resolved_issues, store_event-same}

-- The ids fall along the table, which is listed with the newest issue first, and the sequence is ahead.
abbrev pub IsNumbered : Store → Type 0
IsNumbered st = Below st.next_issue st.issues

same_numbers :
    (st u : Store)
    → u.issues ≡ st.issues
    → u.next_issue ≡ st.next_issue
    → IsNumbered st
    → IsNumbered u
same_numbers st u e f h =
    subst (λ n. Below n u.issues) (sym f) (subst (Below st.next_issue) (sym e) h)

pub resolve_given-IsNumbered :
    (p : ℕ) (v : Option Text) (st : Store) → IsNumbered st → IsNumbered (resolve_given p v st).1
resolve_given-IsNumbered p v st h =
    same_numbers st (resolve_given p v st).1 (resolved_issues p v st).0
      (resolve_given-next_issue p v st) h

open_found-IsNumbered :
    (o : Option Issue) (p : ℕ) (r : Reading) (st : Store)
    → IsNumbered st
    → IsNumbered (open_found o p r st).1
unfolding open_found inserted_issue
open_found-IsNumbered (some i) p r st h = h
open_found-IsNumbered none p r st h = (omega arith, h)

advance_all-IsNumbered :
    (stored : Bool) (p : ℕ) (c : Option Text) (r : Reading) (o : OpenedIssue) (reopens : Bool)
    (st : Store)
    → IsNumbered st
    → IsNumbered (advance_all p c r o reopens stored st)
unfolding advance_all roll_up_tags bump_event_counts advance_issue advanced
advance_all-IsNumbered false p c r o reopens st h = h
advance_all-IsNumbered true p c r o reopens st h =
    let once = Below-update_issue st.next_issue o.id (advanced r reopens) st.issues (λ i. refl) h in
    if_keeps (Below st.next_issue) _ _ _
      (Below-update_issue st.next_issue o.id (affect _) _ (λ i. refl) once) once

notify-IsNumbered :
    (t : Option Trigger) (p : ℕ) (rel : Option ℕ) (o : OpenedIssue) (st : Store)
    → IsNumbered st
    → IsNumbered (notify t p rel o st)
unfolding notify record_regression
notify-IsNumbered none p rel o st h = h
notify-IsNumbered (some new_issue) p rel o st h = h
notify-IsNumbered (some regression) p rel o st h = h

pub digest_reading-IsNumbered :
    (p : ℕ) (c : Option Text) (r : Reading) (st : Store)
    → IsNumbered st
    → IsNumbered (digest_reading p c r st).0
unfolding digest_reading finish open_issue
digest_reading-IsNumbered p c r st h =
    let release = resolve_given p (str_field r.payload (codes "release")) st in
    let s = release.1 in
    let found = find_issue p r.grouping.hash s.issues in
    let opened = open_found found p r s in
    let kept = store_event p opened.0.id r opened.1 in
    let same = store_event-same p opened.0.id r opened.1 in
    let reopens = reopens_for opened.0.resolved_in_release_id release.0 in
    notify-IsNumbered (trigger_of kept.0 opened.0.new_issue opened.0.status reopens) p release.0
      opened.0 (advance_all p c r opened.0 reopens kept.0 kept.1)
      (advance_all-IsNumbered kept.0 p c r opened.0 reopens kept.1 (
        same_numbers opened.1 kept.1 same.0 same.3 (
          open_found-IsNumbered found p r s
            (resolve_given-IsNumbered p (str_field r.payload (codes "release")) st h))))
