-- ===== src/Issues/NextRelease.antt =====
-- An issue that is resolved until the next release.
use thermite_rs.Digest.Recurrence.{
  find_issue-update_issue, is_held_back, recurrence_lem, reopens_for-is_held_back,
}
use thermite_rs.Prelude.{
  Bool, Bool-cases, Bytes, List, Option, Text, [], ap, arith, codes, false, filter, if_keeps,
  if◌then◌else◌, inl, inr, is_some, none, not, refl, some, subst, sym, text_eq, true, ℕ, ◌&&◌, ◌<◌,
  ◌==◌, ◌∙◌, ◌∷◌, ◌≡◌,
}
use thermite_rs.Event.Basic.{str_field}
use thermite_rs.Digest.Store.{
  Issue, Queued, Store, find_release, of_project, regression, resolve_given,
}
use thermite_rs.Digest.Steps.{
  Digested, Reading, advanced, digest_reading, find_issue, has_key, is_stored, reopens_for,
  resolved, update_issue,
}
use thermite_rs.Digest.Retries.{picked}
use thermite_rs.Digest.Counts.{Below, BelowReleases}
use thermite_rs.Issues.Releases.{reopens-resolve}
use thermite_rs.Issues.Status.{
  anchor_of, change_anchored, change_found, find_issue_id, is_status, newest, newest_for,
  record_status, update_status, with_status,
}

pub find_issue-id :
    (n p : ℕ) (hash : Bytes) (is : List Issue) (i : Issue)
    → Below n is
    → find_issue p hash is ≡ some i
    → (i.id < n) × (find_issue_id i.id is ≡ some i)
unfolding find_issue find_issue_id
find_issue-id n p hash [] i h e = ground arith
find_issue-id n p hash (j ∷ is) i h e = elim (Bool-cases (has_key p hash j)) [
  | inl here ↦
      let same : j ≡ i = (picked _ j i _ e).0 here in
      (
        subst (λ (k : Issue). k.id < n) same h.0,
        subst (λ (k : Issue). (if j.id == k.id then some j else find_issue_id k.id is) ≡ some k)
            same (ground arith),
      )
  | inr there ↦
      let rest = find_issue-id j.id p hash is i h.1 ((picked _ j i _ e).1 there) in
      (omega (arith, h.0, rest.0), ground (arith, rest.0, rest.1))
]

-- Two stores that differ in their history lines at most.
abbrev SameTables : Store → Store → Type 0
SameTables st st' =
    (st'.issues ≡ st.issues)
    × (st'.releases ≡ st.releases)
    × (st'.next_release ≡ st.next_release)
    × (st'.events ≡ st.events)
    × (st'.notifications ≡ st.notifications)

record_status-SameTables :
    (id : ℕ) (actor : Option Text) (before status : Text) (b : Bool) (release : Option Text)
    (st : Store)
    → SameTables st (record_status id actor before status b release st)
unfolding record_status
record_status-SameTables id actor before status b release st =
    if_keeps (SameTables st) (text_eq before status && not b) _ _ (refl, refl, refl, refl, refl)
      (refl, refl, refl, refl, refl)

-- The tables after a resolution until the next release.
resolved_tables :
    (actor : Option Text) (st : Store) (i : Issue) (n : ℕ)
    → find_issue_id i.id st.issues ≡ some i
    → newest (filter (of_project i.project_id) st.releases) ≡ some n
    → SameTables
        (record st { issues = update_issue i.id (with_status resolved (some n)) st.issues })
        (update_status i.id resolved true actor st).1
unfolding update_status is_status anchor_of newest_for change_anchored change_found
resolved_tables actor st i n found e =
    rw (found, e, found) (record_status-SameTables i.id actor i.status resolved true _ _)

flipped {ℓ} : {A : Type ℓ} (b : Bool) (x y : A) → (if not b then x else y) ≡ (if b then y else x)
flipped true x y = refl
flipped false x y = refl

has_key-project :
    (p : ℕ) (hash : Bytes) (is : List Issue) (i : Issue)
    → find_issue p hash is ≡ some i
    → i.project_id ≡ p
unfolding find_issue
has_key-project p hash [] i e = ground arith
has_key-project p hash (j ∷ is) i e = elim (Bool-cases (has_key p hash j)) [
  | inl here ↦ subst (λ (k : Issue). k.project_id ≡ p) ((picked _ j i _ e).0 here) (ground arith)
  | inr there ↦ has_key-project p hash is i ((picked _ j i _ e).1 there)
]

-- When an issue of a project with releases is resolved until the next release, the event that comes next,
-- a new one that groups into it and names a release, decides: from a release that was reported before it
-- leaves the issue resolved and queues nothing; from any other it reopens the issue, puts a regression
-- into the outbox, and the issue remembers the newest release at the time of the resolution as the last
-- one that was good. The ids of issues and releases are to be below the sequences they are taken from.
pub resolved_until_next_release :
    (p : ℕ) (c actor : Option Text) (r : Reading) (v : Text) (st : Store) (i : Issue) (n : ℕ)
    → Below st.next_issue st.issues
    → BelowReleases st.next_release st.releases
    → find_issue p r.grouping.hash st.issues ≡ some i
    → newest (filter (of_project p) st.releases) ≡ some n
    → is_stored p r.event_id st.events ≡ false
    → str_field r.payload (codes "release") ≡ some v
    → let known = is_some (find_release p v st.releases) in
      let done = digest_reading p c r (update_status i.id resolved true actor st).1 in
      (done.1.notified ≡ (if known then none else some regression))
      × (left : Issue) × (find_issue p r.grouping.hash done.0.issues ≡ some left)
      × (left.status ≡ (if known then resolved else codes "unresolved"))
      × (left.regressed_from_release_id ≡ (if known then i.regressed_from_release_id else some n))
      × (done.0.notifications ≡ (
          if known
          then st.notifications
          else record { project_id = p; issue_id = i.id; kind = codes "regression" }
            ∷ st.notifications))
unfolding text_eq
resolved_until_next_release p c actor r v st i n h hr found e fresh release =
    let j = with_status resolved (some n) i in
    let st' = (update_status i.id resolved true actor st).1 in
    let ours = has_key-project p r.grouping.hash st.issues i found in
    let tables =
      resolved_tables actor st i n
        (find_issue-id st.next_issue p r.grouping.hash st.issues i h found).1
        (subst (λ q. newest (filter (of_project q) st.releases) ≡ some n) (sym ours) e) in
    let found' : find_issue p r.grouping.hash st'.issues ≡ some j =
      ap (find_issue p r.grouping.hash) tables.0
      ∙ find_issue-update_issue p r.grouping.hash (with_status resolved (some n)) st.issues i
          (λ k. (refl, refl, refl)) found in
    let fresh' : is_stored p r.event_id st'.events ≡ false =
      ap (is_stored p r.event_id) tables.3 ∙ fresh in
    let reopens : not
          (is_held_back (some n) (resolve_given p (str_field r.payload (codes "release")) st').0)
        ≡ not (is_some (find_release p v st.releases)) =
      sym (
        reopens_for-is_held_back (some n)
          (resolve_given p (str_field r.payload (codes "release")) st').0)
      ∙ ap (λ (w : Option Text). reopens_for (some n) (resolve_given p w st').0) release
      ∙ reopens-resolve p v n st' (rw (tables.1, tables.2) hr)
          (ap (λ rs. newest (filter (of_project p) rs)) tables.1 ∙ e)
      ∙ ap (λ rs. not (is_some (find_release p v rs))) tables.1 in
    let (answer, left, there, advanced, queues) = recurrence_lem p c r st' j found' fresh' in
    let known = is_some (find_release p v st.releases) in
    let row : Queued = record { project_id = p; issue_id = i.id; kind = codes "regression" } in
    (
      ap (λ (d : Digested). d.notified) answer
          ∙ ap (λ b. if b then some regression else none) reopens
          ∙ flipped known (some regression) none,
      left,
      there,
      advanced.3
          ∙ ap (λ b. if b then codes "unresolved" else resolved) reopens
          ∙ flipped known (codes "unresolved") resolved,
      advanced.4
          ∙ ap (λ b. if b then some n else i.regressed_from_release_id) reopens
          ∙ flipped known (some n) i.regressed_from_release_id,
      queues.0
          ∙ ap (λ b. if b then row ∷ st'.notifications else st'.notifications) reopens
          ∙ flipped known (row ∷ st'.notifications) st'.notifications
          ∙ ap (λ ns. if known then ns else row ∷ ns) tables.4,
    )
