-- ===== src/Digest/Recurrence.antt =====
-- A further event of an issue that exists.
use thermite_rs.Prelude.{
  Bool, Bool-cases, Bytes, List, Option, Text, [], ap, arith, codes, false, if_keeps, if◌then◌else◌,
  inl, inr, leb, max, min, none, not, refl, some, subst, sym, text_eq, true, ℕ, ◌&&◌, ◌+◌, ◌==◌,
  ◌∙◌, ◌∷◌, ◌≡◌,
}
use thermite_rs.Event.Basic.{str_field}
use thermite_rs.Digest.Store.{
  Activity, Issue, Store, Trigger, known_or_mint, mint, new_issue, record_regression, regression,
  regression_detail, resolve, resolve_given,
}
use thermite_rs.Digest.Steps.{
  OpenedIssue, Reading, advance_all, advance_issue, advanced, affect, bump_event_counts,
  digest_reading, find_issue, finish, has_key, is_stored, notify, open_found, open_issue,
  reopens_for, resolved, roll_up_tags, store_event, trigger_of, update_issue,
}
use thermite_rs.Digest.Retries.{KeepsKey, picked, updated-key}

==-refl : (n : ℕ) → (n == n) ≡ true
==-refl n = ground arith

found_here :
    (p : ℕ) (hash : Bytes) (f : Issue → Issue) (i : Issue) (later : Option Issue)
    → KeepsKey f
    → has_key p hash i ≡ true
    → (if has_key p hash (if i.id == i.id then f i else i)
        then some (if i.id == i.id then f i else i)
        else later)
      ≡ some (f i)
found_here p hash f i later h e =
    let keeps = updated-key (i.id == i.id) p hash f i h in
    rw (keeps.1 ∙ e) (ap some (ap (λ b. if b then f i else i) (==-refl i.id)))

pub find_issue-update_issue :
    (p : ℕ) (hash : Bytes) (f : Issue → Issue) (is : List Issue) (i : Issue)
    → KeepsKey f
    → find_issue p hash is ≡ some i
    → find_issue p hash (update_issue i.id f is) ≡ some (f i)
unfolding find_issue update_issue
find_issue-update_issue p hash f [] i h e = ground arith
find_issue-update_issue p hash f (j ∷ is) i h e =
    let pick = picked (has_key p hash j) j i (find_issue p hash is) e in
    elim (Bool-cases (has_key p hash j)) [
      | inl here ↦
          subst
            (λ z.
              (if has_key p hash (if z.id == i.id then f z else z)
                then some (if z.id == i.id then f z else z)
                else find_issue p hash (update_issue i.id f is))
              ≡ some (f i))
            (sym (pick.0 here))
            (found_here p hash f i _ h (subst (λ z. has_key p hash z ≡ true) (pick.0 here) here))
      | inr there ↦
          rw ((updated-key (j.id == i.id) p hash f j h).1 ∙ there)
            (find_issue-update_issue p hash f is i h (pick.1 there))
    ]

pub resolved_issues :
    (p : ℕ) (v : Option Text) (st : Store)
    → ((resolve_given p v st).1.issues ≡ st.issues) × ((resolve_given p v st).1.events ≡ st.events)
unfolding resolve_given resolve known_or_mint mint
resolved_issues p none st = (refl, refl)
resolved_issues p (some v) st = ground arith

-- The issue as the statements on a further event leave it: `advanced`, and perhaps with more users.
abbrev pub Advanced : Reading → Bool → Issue → Issue → Type 0
Advanced r reopens i left =
    (left.times_seen ≡ i.times_seen + 1)
    × (left.last_seen ≡ max i.last_seen r.timestamp)
    × (left.first_seen ≡ min i.first_seen r.timestamp)
    × (left.status
        ≡ (if text_eq i.status resolved && reopens then codes "unresolved" else i.status))
    × (left.regressed_from_release_id ≡ (
        if text_eq i.status resolved && reopens
        then i.resolved_in_release_id
        else i.regressed_from_release_id))

affected_found :
    (b : Bool) (p n : ℕ) (hash : Bytes) (r : Reading) (reopens : Bool) (is : List Issue)
    (i k : Issue)
    → Advanced r reopens i k
    → find_issue p hash is ≡ some k
    → (left : Issue) × (find_issue p hash (if b then update_issue k.id (affect n) is else is)
        ≡ some left)
      × Advanced r reopens i left
affected_found true p n hash r reopens is i k a e =
    (affect n k, find_issue-update_issue p hash (affect n) is k (λ j. (refl, refl, refl)) e, a)
affected_found false p n hash r reopens is i k a e = (k, e, a)

advance_all-found :
    (p : ℕ) (c : Option Text) (r : Reading) (o : OpenedIssue) (reopens : Bool) (st : Store)
    (i : Issue)
    → o.id ≡ i.id
    → find_issue p r.grouping.hash st.issues ≡ some i
    → (left : Issue) × (find_issue p r.grouping.hash (advance_all p c r o reopens true st).issues
        ≡ some left)
      × Advanced r reopens i left
unfolding advance_all roll_up_tags bump_event_counts advance_issue advanced
advance_all-found p c r o reopens st i q e = rw q (
    affected_found _ p _ r.grouping.hash r reopens _ i (advanced r reopens i)
      (refl, refl, refl, refl, refl)
      (find_issue-update_issue p r.grouping.hash (advanced r reopens) st.issues i
        (λ j. (refl, refl, refl)) e))

pub notify_issues :
    (t : Option Trigger) (p : ℕ) (rel : Option ℕ) (o : OpenedIssue) (st : Store)
    → (notify t p rel o st).issues ≡ st.issues
unfolding notify
notify_issues none p rel o st = refl
notify_issues (some new_issue) p rel o st = refl
notify_issues (some regression) p rel o st = refl

-- The row of an issue that exists, as `open_issue` answers it.
abbrev opened_as : Issue → OpenedIssue
opened_as i = record {
  id = i.id;
  new_issue = false;
  status = i.status;
  resolved_in_release_id = i.resolved_in_release_id;
}

open_known :
    (p : ℕ) (r : Reading) (st : Store) (i : Issue)
    → find_issue p r.grouping.hash st.issues ≡ some i
    → open_issue p r st ≡ (opened_as i, st)
unfolding open_issue open_found
open_known p r st i e = rw e refl

store_new :
    (p id : ℕ) (r : Reading) (st : Store)
    → is_stored p r.event_id st.events ≡ false
    → ((store_event p id r st).0 ≡ true) × ((store_event p id r st).1.issues ≡ st.issues)
unfolding store_event
store_new p id r st k = rw k (refl, refl)

pub store_event-same :
    (p id : ℕ) (r : Reading) (st : Store)
    → ((store_event p id r st).1.issues ≡ st.issues)
      × ((store_event p id r st).1.notifications ≡ st.notifications)
      × ((store_event p id r st).1.activity ≡ st.activity)
      × ((store_event p id r st).1.next_issue ≡ st.next_issue)
unfolding store_event
store_event-same p id r st =
    if_keeps
      (λ (x : Bool × Store).
        (x.1.issues ≡ st.issues)
        × (x.1.notifications ≡ st.notifications)
        × (x.1.activity ≡ st.activity)
        × (x.1.next_issue ≡ st.next_issue))
      _ _ _ (refl, refl, refl, refl) (refl, refl, refl, refl)

pub resolve_given-queues :
    (p : ℕ) (v : Option Text) (st : Store)
    → ((resolve_given p v st).1.notifications ≡ st.notifications)
      × ((resolve_given p v st).1.activity ≡ st.activity)
unfolding resolve_given resolve known_or_mint mint
resolve_given-queues p none st = (refl, refl)
resolve_given-queues p (some v) st = ground arith

pub advance_all-queues :
    (stored : Bool) (p : ℕ) (c : Option Text) (r : Reading) (o : OpenedIssue) (reopens : Bool)
    (st : Store)
    → ((advance_all p c r o reopens stored st).notifications ≡ st.notifications)
      × ((advance_all p c r o reopens stored st).activity ≡ st.activity)
unfolding advance_all roll_up_tags bump_event_counts advance_issue
advance_all-queues true p c r o reopens st = (refl, refl)
advance_all-queues false p c r o reopens st = (refl, refl)

-- The outbox has one row more, a regression of the issue, and its history one line; or neither.
abbrev pub Queues : Bool → ℕ → ℕ → Store → Store → Type 0
Queues reopened p id st left =
    (left.notifications ≡ (
      if reopened
      then record { project_id = p; issue_id = id; kind = codes "regression" } ∷ st.notifications
      else st.notifications))
    × (line : Activity) × (line.issue_id ≡ id)
    × (left.activity ≡ (if reopened then line ∷ st.activity else st.activity))

notify-Queues :
    (b : Bool) (p : ℕ) (rel : Option ℕ) (o : OpenedIssue) (st : Store)
    → Queues b p o.id st (notify (if b then some regression else none) p rel o st)
unfolding notify record_regression
notify-Queues true p rel o st = (refl, _, refl, refl)
notify-Queues false p rel o st = (
  refl,
  record { issue_id = o.id; actor = none; detail = regression_detail none none },
  refl,
  refl,
)

Queues-same :
    (b : Bool) (p id : ℕ) (u st left : Store)
    → u.notifications ≡ st.notifications
    → u.activity ≡ st.activity
    → Queues b p id u left
    → Queues b p id st left
Queues-same b p id u st left e f (rows, line, of_issue, lines) = (
  rows
      ∙ ap
          (λ ns.
            if b
            then record { project_id = p; issue_id = id; kind = codes "regression" } ∷ ns
            else ns)
          e,
  line,
  of_issue,
  lines ∙ ap (λ ls. if b then line ∷ ls else ls) f,
)

-- Whether an event comes from a release that is known, and no later than the one that an issue was
-- resolved in.
abbrev pub is_held_back : Option ℕ → Option ℕ → Bool
is_held_back (some anchor) (some release) = leb release anchor
is_held_back (some anchor) none = false
is_held_back none release = false

pub reopens_for-is_held_back :
    (anchor release : Option ℕ) → reopens_for anchor release ≡ not (is_held_back anchor release)
reopens_for-is_held_back none release = refl
reopens_for-is_held_back (some anchor) none = refl
reopens_for-is_held_back (some anchor) (some release) = ground arith

finished :
    (p : ℕ) (c : Option Text) (r : Reading) (rel : Option ℕ) (i : Issue) (st : Store)
    → find_issue p r.grouping.hash st.issues ≡ some i
    → let reopens = reopens_for i.resolved_in_release_id rel in
      let done = finish p c r rel (opened_as i) true st in
      (done.1 ≡ record {
        event_id = r.event_id;
        issue_id = i.id;
        stored = true;
        new_issue = false;
        notified = if text_eq i.status resolved && reopens then some regression else none;
      })
      × (left : Issue) × (find_issue p r.grouping.hash done.0.issues ≡ some left)
      × Advanced r reopens i left
      × Queues (text_eq i.status resolved && reopens) p i.id st done.0
unfolding finish trigger_of
finished p c r rel i st e =
    let reopens = reopens_for i.resolved_in_release_id rel in
    let all = advance_all-found p c r (opened_as i) reopens st i refl e in
    let after = advance_all p c r (opened_as i) reopens true st in
    let same = advance_all-queues true p c r (opened_as i) reopens st in
    (
      refl,
      all.0,
      ap (find_issue p r.grouping.hash) (notify_issues _ p rel (opened_as i) _) ∙ all.1,
      all.2,
      Queues-same (text_eq i.status resolved && reopens) p i.id after st
          (notify (if text_eq i.status resolved && reopens then some regression else none) p rel
            (opened_as i) after)
          same.0 same.1
          (notify-Queues (text_eq i.status resolved && reopens) p rel (opened_as i) after),
    )

-- A new event of an issue that exists counts once, widens the span of its sightings, and reopens it
-- exactly if it was resolved and is not held back: it is held back if it was resolved in a release and
-- the event comes from a known one that was first reported no later. A reopened issue remembers the
-- release it was resolved in. Exactly a reopening puts a row into the outbox, a regression of the
-- issue, and a line into its history; the answer says stored and not new, and names the regression.
pub recurrence_lem :
    (p : ℕ) (c : Option Text) (r : Reading) (st : Store) (i : Issue)
    → find_issue p r.grouping.hash st.issues ≡ some i
    → is_stored p r.event_id st.events ≡ false
    → let reopens = not (
        is_held_back i.resolved_in_release_id
          (resolve_given p (str_field r.payload (codes "release")) st).0) in
      let done = digest_reading p c r st in
      (done.1 ≡ record {
        event_id = r.event_id;
        issue_id = i.id;
        stored = true;
        new_issue = false;
        notified = if text_eq i.status resolved && reopens then some regression else none;
      })
      × (left : Issue) × (find_issue p r.grouping.hash done.0.issues ≡ some left)
      × Advanced r reopens i left
      × Queues (text_eq i.status resolved && reopens) p i.id st done.0
unfolding digest_reading
recurrence_lem p c r st i e k =
    let v = str_field r.payload (codes "release") in
    let release = resolve_given p v st in
    let s = release.1 in
    let same = resolved_issues p v st in
    let found = ap (find_issue p r.grouping.hash) same.0 ∙ e in
    let fresh = store_new p i.id r s (ap (is_stored p r.event_id) same.1 ∙ k) in
    let kept = (store_event p i.id r s).1 in
    let before = resolve_given-queues p v st in
    let queues = store_event-same p i.id r s in
    let (answer, left, there, advanced, rows) =
      finished p c r release.0 i kept (ap (find_issue p r.grouping.hash) fresh.1 ∙ found) in
    let done = finish p c r release.0 (opened_as i) true kept in
    let reopened = text_eq i.status resolved && reopens_for i.resolved_in_release_id release.0 in
    let rows' =
      Queues-same reopened p i.id kept st done.0 (queues.1 ∙ before.0) (queues.2 ∙ before.1) rows in
    rw
      (
        open_known p r s i found,
        fresh.0,
        sym (reopens_for-is_held_back i.resolved_in_release_id release.0),
      )
      (answer, left, there, advanced, rows')
