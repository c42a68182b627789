-- ===== src/Digest/Retries.antt =====
-- What each statement of the digest leaves for a repetition of it.
use thermite_rs.Prelude.{
  Bool, Bool-cases, Bytes, List, Option, Text, [], ap, arith, false, filter, if◌then◌else◌, inl,
  inr, is_some, length, ltb, none, refl, some, text_eq, text_eq_iff, true, ℕ, ◌==◌, ◌∙◌, ◌∷◌, ◌≡◌,
  ◌⊎◌,
}
use thermite_rs.Digest.Store.{
  Issue, Release, Store, find_release, known_or_mint, max_releases_per_project, mint, of_project,
  resolve, resolve_given,
}
use thermite_rs.Json.{unwrap_or}
use thermite_rs.Digest.Steps.{
  Reading, find_issue, has_key, inserted_issue, is_stored, open_found, open_issue, store_event,
  update_issue,
}

-- Nothing is left to insert for the release.
abbrev pub Settled : ℕ → Option Text → List Release → Type 0
Settled p none rs = Unit
Settled p (some v) rs =
    (is_some (find_release p v rs) ≡ true)
    ⊎ (ltb (length (filter (of_project p) rs)) max_releases_per_project ≡ false)

text_eq_refl : (t : Text) → text_eq t t ≡ true
text_eq_refl t = (text_eq_iff t t).1 refl

minted-Settled :
    (p n : ℕ) (v : Text) (st : Store)
    → ltb (length (filter (of_project p) st.releases)) n ≡ true
    → is_some (
        find_release p v
          (record { id = st.next_release; project_id = p; version = v } ∷ st.releases))
      ≡ true
unfolding find_release
minted-Settled p n v st h = ground (arith, text_eq_refl v)

known_or_mint-Settled :
    (o : Option ℕ) (p : ℕ) (v : Text) (st : Store)
    → find_release p v st.releases ≡ o
    → Settled p (some v) (known_or_mint o p v st).1.releases
unfolding known_or_mint mint
known_or_mint-Settled (some id) p v st e = inl (ap is_some e)
known_or_mint-Settled none p v st e =
    elim (Bool-cases (ltb (length (filter (of_project p) st.releases)) max_releases_per_project)) [
      | inl h ↦ rw h (inl (minted-Settled p max_releases_per_project v st h))
      | inr h ↦ rw h (inr h)
    ]

pub resolve_given-Settled :
    (p : ℕ) (v : Option Text) (st : Store) → Settled p v (resolve_given p v st).1.releases
unfolding resolve_given resolve
resolve_given-Settled p none st = tt
resolve_given-Settled p (some v) st = known_or_mint-Settled _ p v st refl

Settled-known :
    (o : Option ℕ) (p : ℕ) (v : Text) (st : Store)
    → (is_some o ≡ true)
      ⊎ (ltb (length (filter (of_project p) st.releases)) max_releases_per_project ≡ false)
    → (known_or_mint o p v st).1 ≡ st
unfolding known_or_mint mint
Settled-known (some id) p v st h = refl
Settled-known none p v st (inl h) = ground arith
Settled-known none p v st (inr h) = rw h refl

pub resolve_given-again :
    (p : ℕ) (v : Option Text) (st : Store) → Settled p v st.releases → (resolve_given p v st).1 ≡ st
unfolding resolve_given resolve
resolve_given-again p none st h = refl
resolve_given-again p (some v) st h = Settled-known _ p v st h

-- The issue of a key is there, with its id.
abbrev pub Has : ℕ → Bytes → ℕ → List Issue → Type 0
Has p hash id is = (i : Issue) × (find_issue p hash is ≡ some i) × (i.id ≡ id)

inserted_first :
    (p : ℕ) (r : Reading) (st : Store)
    → find_issue p r.grouping.hash (inserted_issue p r st ∷ st.issues)
      ≡ some (inserted_issue p r st)
unfolding find_issue inserted_issue
inserted_first p r st = ground (arith, text_eq_refl r.grouping.hash)

pub open_found-Has :
    (o : Option Issue) (p : ℕ) (r : Reading) (st : Store)
    → find_issue p r.grouping.hash st.issues ≡ o
    → Has p r.grouping.hash (open_found o p r st).0.id (open_found o p r st).1.issues
unfolding open_found
open_found-Has (some i) p r st e = (i, e, refl)
open_found-Has none p r st e = (inserted_issue p r st, inserted_first p r st, refl)

abbrev pub KeepsKey : (Issue → Issue) → Type 0
KeepsKey f =
    (i : Issue)
    → ((f i).id ≡ i.id)
      × ((f i).project_id ≡ i.project_id)
      × ((f i).fingerprint_hash ≡ i.fingerprint_hash)

pub picked :
    (b : Bool) (j i : Issue) (o : Option Issue)
    → (if b then some j else o) ≡ some i
    → (b ≡ true → j ≡ i) × (b ≡ false → o ≡ some i)
picked true j i o e = (λ _. ap (λ x. unwrap_or x i) e, λ h. ground arith)
picked false j i o e = (λ h. ground arith, λ _. e)

pub updated-key :
    (b : Bool) (p : ℕ) (hash : Bytes) (f : Issue → Issue) (j : Issue)
    → KeepsKey f
    → ((if b then f j else j).id ≡ j.id)
      × (has_key p hash (if b then f j else j) ≡ has_key p hash j)
updated-key true p hash f j h = ((h j).0, rw ((h j).1, (h j).2) refl)
updated-key false p hash f j h = (refl, refl)

pub Has-update_issue :
    (p id k : ℕ) (hash : Bytes) (f : Issue → Issue) (is : List Issue)
    → KeepsKey f
    → Has p hash id is
    → Has p hash id (update_issue k f is)
unfolding update_issue find_issue
Has-update_issue p id k hash f [] h (i, e, q) = ground arith
Has-update_issue p id k hash f (j ∷ is) h (i, e, q) =
    let keeps = updated-key (j.id == k) p hash f j h in
    elim (Bool-cases (has_key p hash j)) [
      | inl here ↦ (
        if j.id == k then f j else j,
        rw (keeps.1 ∙ here) refl,
        keeps.0 ∙ ap (λ (x : Issue). x.id) ((picked _ j i _ e).0 here) ∙ q,
      )
      | inr there ↦
          let rest = Has-update_issue p id k hash f is h (i, (picked _ j i _ e).1 there, q) in
          (rest.0, rw (keeps.1 ∙ there) rest.1, rest.2)
    ]

pub open_issue-again :
    (p id : ℕ) (r : Reading) (st : Store)
    → Has p r.grouping.hash id st.issues
    → ((open_issue p r st).1 ≡ st)
      × ((open_issue p r st).0.id ≡ id)
      × ((open_issue p r st).0.new_issue ≡ false)
unfolding open_issue open_found
open_issue-again p id r st (i, e, q) = rw e (refl, q, refl)

pub store_event-is_stored :
    (p id : ℕ) (r : Reading) (st : Store)
    → is_stored p r.event_id (store_event p id r st).1.events ≡ true
unfolding store_event is_stored
store_event-is_stored p id r st = ground (arith, text_eq_refl r.event_id)

pub store_event-again :
    (p id : ℕ) (r : Reading) (st : Store)
    → is_stored p r.event_id st.events ≡ true
    → store_event p id r st ≡ (false, st)
unfolding store_event
store_event-again p id r st h = rw h refl
