-- ===== src/Issues/Stays.antt =====
-- The status of an ignored issue, at each statement of the digest.
use thermite_rs.Prelude.{
  Bool, Bool-cases, List, Option, Text, [], ap, arith, codes, false, if_keeps, if◌then◌else◌, inl,
  inr, none, refl, some, subst, text_eq, true, ℕ, ◌<◌, ◌==◌, ◌∙◌, ◌∷◌, ◌≡◌,
}
use thermite_rs.Digest.Store.{Issue, Store}
use thermite_rs.Digest.Steps.{
  OpenedIssue, Reading, advance_all, advance_issue, advanced, affect, bump_event_counts,
  inserted_issue, open_found, roll_up_tags, update_issue,
}
use thermite_rs.Digest.Retries.{picked}
use thermite_rs.Digest.Counts.{Below, KeepsId, kept_id}
use thermite_rs.Issues.Status.{find_issue_id}

abbrev pub ignored : Text
ignored = codes "ignored"

-- The issue of an id is there and ignored.
abbrev pub IsIgnored : ℕ → List Issue → Type 0
IsIgnored id is = (i : Issue) × (find_issue_id id is ≡ some i) × (i.status ≡ ignored)

find_issue_id-id : (id : ℕ) (is : List Issue) (i : Issue) → find_issue_id id is ≡ some i → i.id ≡ id
unfolding find_issue_id
find_issue_id-id id [] i e = ground arith
find_issue_id-id id (j ∷ is) i e = elim (Bool-cases (j.id == id)) [
  | inl here ↦ subst (λ (k : Issue). k.id ≡ id) ((picked _ j i _ e).0 here) (ground arith)
  | inr there ↦ find_issue_id-id id is i ((picked _ j i _ e).1 there)
]

pub find_issue_id-Below :
    (n id : ℕ) (is : List Issue) (i : Issue) → Below n is → find_issue_id id is ≡ some i → id < n
unfolding find_issue_id
find_issue_id-Below n id [] i h e = ground arith
find_issue_id-Below n id (j ∷ is) i h e = elim (Bool-cases (j.id == id)) [
  | inl here ↦ ground (arith, h.0)
  | inr there ↦
      omega (arith, h.0, find_issue_id-Below j.id id is i h.1 ((picked _ j i _ e).1 there))
]

-- An update that keeps the ids and no ignored row's status from being so.
IsIgnored-update_issue :
    (id k : ℕ) (f : Issue → Issue) (is : List Issue)
    → KeepsId f
    → ((i : Issue) → i.status ≡ ignored → (f i).status ≡ ignored)
    → IsIgnored id is
    → IsIgnored id (update_issue k f is)
unfolding find_issue_id update_issue
IsIgnored-update_issue id k f [] keeps stays h = h
IsIgnored-update_issue id k f (j ∷ is) keeps stays (i, e, ig) =
    let row = if j.id == k then f j else j in
    let same : row.id ≡ j.id = kept_id (j.id == k) f j keeps in
    elim (Bool-cases (j.id == id)) [
      | inl here ↦
          let still : j.status ≡ ignored =
            ap (λ (x : Issue). x.status) ((picked _ j i _ e).0 here) ∙ ig in
          (
            row,
            rw (same, here) refl,
            if_keeps (λ (x : Issue). x.status ≡ ignored) _ _ _ (stays j still) still,
          )
      | inr there ↦
          let rest =
            IsIgnored-update_issue id k f is keeps stays (i, (picked _ j i _ e).1 there, ig) in
          (rest.0, rw (same, there) rest.1, rest.2)
    ]

keeps_id : (r : Reading) (reopens : Bool) → KeepsId (advanced r reopens)
unfolding advanced
keeps_id r reopens i = refl

advanced_stays :
    (r : Reading) (reopens : Bool) (i : Issue)
    → i.status ≡ ignored
    → (advanced r reopens i).status ≡ ignored
unfolding advanced text_eq
advanced_stays r reopens i h = rw h refl

affected-IsIgnored :
    (b : Bool) (id k n : ℕ) (is : List Issue)
    → IsIgnored id is
    → IsIgnored id (if b then update_issue k (affect n) is else is)
affected-IsIgnored true id k n is h =
    IsIgnored-update_issue id k (affect n) is (λ i. refl) (λ i same. same) h
affected-IsIgnored false id k n is h = h

pub advance_all-IsIgnored :
    (stored : Bool) (p id : ℕ) (c : Option Text) (r : Reading) (o : OpenedIssue) (reopens : Bool)
    (st : Store)
    → IsIgnored id st.issues
    → IsIgnored id (advance_all p c r o reopens stored st).issues
unfolding advance_all roll_up_tags bump_event_counts advance_issue
advance_all-IsIgnored false p id c r o reopens st h = h
advance_all-IsIgnored true p id c r o reopens st h = affected-IsIgnored _ id o.id _ _ (
    IsIgnored-update_issue id o.id (advanced r reopens) st.issues (keeps_id r reopens)
      (advanced_stays r reopens) h)

pub open_found-IsIgnored :
    (o : Option Issue) (p id : ℕ) (r : Reading) (st : Store)
    → Below st.next_issue st.issues
    → IsIgnored id st.issues
    → IsIgnored id (open_found o p r st).1.issues
unfolding open_found inserted_issue find_issue_id
open_found-IsIgnored (some i) p id r st b h = h
open_found-IsIgnored none p id r st b (i, e, ig) =
    let other : (st.next_issue == id) ≡ false =
      ground (arith, find_issue_id-Below st.next_issue id st.issues i b e) in
    (i, rw other e, ig)
