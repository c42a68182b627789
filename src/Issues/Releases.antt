-- ===== src/Issues/Releases.antt =====
-- The newest release of a project, and the events that reopen for it.

use thermite_rs.Prelude.{
  Bool-cases, List, Option, Option-cases, Text, [], arith, filter, inl, inr, is_some, length, ltb,
  lt→ltb, none, not, refl, some, text_eq, true, ℕ, ◌<◌, ◌∷◌, ◌≡◌, ◌≤◌,
}
use thermite_rs.Digest.Store.{
  Release, Store, find_release, known_or_mint, max_releases_per_project, mint, of_project, resolve,
  resolve_given,
}
use thermite_rs.Digest.Steps.{reopens_for}
use thermite_rs.Digest.Counts.{BelowReleases}
use thermite_rs.Issues.Status.{later_of, newest}

later_of-le : (id : ℕ) (o : Option ℕ) → id ≤ later_of id o
later_of-le id none = omega arith
later_of-le id (some other) = ground arith

later_of-other : (id m : ℕ) (o : Option ℕ) → o ≡ some m → m ≤ later_of id o
later_of-other id m none e = ground arith
later_of-other id m (some other) e = ground arith

-- A release that is known was first reported no later than the newest one.
find_release-newest :
    (p : ℕ) (v : Text) (rs : List Release) (k : ℕ)
    → find_release p v rs ≡ some k
    → (n : ℕ) × (newest (filter (of_project p) rs) ≡ some n) × (k ≤ n)
unfolding find_release newest
find_release-newest p v [] k e = ground arith
find_release-newest p v (r ∷ rs) k e =
    let rest = newest (filter (of_project p) rs) in
    elim (Bool-cases (of_project p r)) [
      | inr other ↦ rw other (find_release-newest p v rs k (ground arith))
      | inl ours ↦ rw ours (elim (Bool-cases (text_eq r.version v)) [
        | inl same ↦ (later_of r.id rest, refl, ground (arith, later_of-le r.id rest))
        | inr differs ↦
            let (m, found, le) = find_release-newest p v rs k (ground arith) in
            (later_of r.id rest, refl, omega (arith, le, later_of-other r.id m rest found))
      ])
    ]

later_of-lt :
    (b id : ℕ) (o : Option ℕ) → id < b → ((m : ℕ) → o ≡ some m → m < b) → later_of id o < b
later_of-lt b id none h rest = h
later_of-lt b id (some other) h rest = ground (arith, rest other refl)

newest-Below :
    (b p n : ℕ) (rs : List Release)
    → BelowReleases b rs
    → newest (filter (of_project p) rs) ≡ some n
    → n < b
unfolding newest
newest-Below b p n [] h e = ground arith
newest-Below b p n (r ∷ rs) h e = elim (Bool-cases (of_project p r)) [
  | inr other ↦ omega (arith, h.0, newest-Below r.id p n rs h.1 (ground arith))
  | inl ours ↦
      let lt =
        later_of-lt b r.id (newest (filter (of_project p) rs)) h.0
          (λ m found. omega (arith, h.0, newest-Below r.id p m rs h.1 found)) in
      ground (arith, lt)
]

-- A release that is recorded is newer, and one that cannot be counts as none.
minted_reopens :
    (p : ℕ) (v : Text) (n : ℕ) (st : Store)
    → n < st.next_release
    → reopens_for (some n) (mint p v st).0 ≡ true
unfolding mint
minted_reopens p v n st newer =
    elim (Bool-cases (ltb (length (filter (of_project p) st.releases)) max_releases_per_project)) [
      | inl room ↦ rw room (lt→ltb n st.next_release newer)
      | inr full ↦ rw full refl
    ]

-- An event of a release reopens an issue that was resolved until the next release exactly if its release
-- was not known.
pub reopens-resolve :
    (p : ℕ) (v : Text) (n : ℕ) (st : Store)
    → BelowReleases st.next_release st.releases
    → newest (filter (of_project p) st.releases) ≡ some n
    → reopens_for (some n) (resolve_given p (some v) st).0
      ≡ not (is_some (find_release p v st.releases))
unfolding resolve_given resolve known_or_mint
reopens-resolve p v n st h e = elim (Option-cases (find_release p v st.releases)) [
  | inl unknown ↦
      rw unknown (minted_reopens p v n st (newest-Below st.next_release p n st.releases h e))
  | inr (k, known) ↦
      let (m, found, le) = find_release-newest p v st.releases k known in
      rw known (ground (arith, found, le, e))
]
