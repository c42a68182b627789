-- ===== src/Digest/Counts.antt =====
-- The counters of an issue, and what each statement of the digest does to them.
use thermite_rs.Prelude.{
  All, Bool, Bool-cases, List, Text, [], arith, false, if◌then◌else◌, inl, inr, refl, true, ℕ, ◌+◌,
  ◌<◌, ◌==◌, ◌∷◌, ◌≡◌, ◌≢◌, ◌≤◌,
}
use thermite_rs.Digest.Store.{EventCount, Issue, Release, Store, Stored}
use thermite_rs.Digest.Steps.{count_up, update_issue}

-- The ids fall along the list, below a bound.
abbrev pub Below : ℕ → List Issue → Type 0
Below n [] = Unit
Below n (i ∷ is) = (i.id < n) × Below i.id is

abbrev pub BelowReleases : ℕ → List Release → Type 0
BelowReleases n [] = Unit
BelowReleases n (r ∷ rs) = (r.id < n) × BelowReleases r.id rs

-- How many stored events an issue has.
abbrev pub stored_of : ℕ → List Stored → ℕ
stored_of id [] = 0
stored_of id (e ∷ es) = (if e.issue_id == id then 1 else 0) + stored_of id es

-- What the hourly buckets of an issue hold together.
abbrev pub counted_of : ℕ → List EventCount → ℕ
counted_of id [] = 0
counted_of id (c ∷ cs) = (if c.issue_id == id then c.count else 0) + counted_of id cs

abbrev pub IsExact : List Stored → List EventCount → Issue → Type 0
IsExact events counts i =
    (i.times_seen ≡ stored_of i.id events) × (i.times_seen ≡ counted_of i.id counts)

-- The sequences are ahead of their tables, and every issue counts its events.
abbrev pub IsConsistent : Store → Type 0
IsConsistent st =
    Below st.next_issue st.issues
    × BelowReleases st.next_release st.releases
    × All (IsExact st.events st.event_counts) st.issues
    × ((id : ℕ) → st.next_issue ≤ id → stored_of id st.events ≡ 0)
    × ((id : ℕ) → st.next_issue ≤ id → counted_of id st.event_counts ≡ 0)

pub Below-le : (n m : ℕ) (is : List Issue) → Below n is → n ≤ m → Below m is
Below-le n m [] h le = tt
Below-le n m (i ∷ is) h le = (omega (arith, h.0), h.1)

abbrev pub KeepsId : (Issue → Issue) → Type 0
KeepsId f = (i : Issue) → (f i).id ≡ i.id

pub kept_id :
    (b : Bool) (f : Issue → Issue) (i : Issue) → KeepsId f → (if b then f i else i).id ≡ i.id
kept_id true f i keeps = keeps i
kept_id false f i keeps = refl

pub Below-update_issue :
    (n id : ℕ) (f : Issue → Issue) (is : List Issue)
    → KeepsId f
    → Below n is
    → Below n (update_issue id f is)
unfolding update_issue
Below-update_issue n id f [] keeps h = tt
Below-update_issue n id f (i ∷ is) keeps h =
    let same = kept_id (i.id == id) f i keeps in
    (rw same h.0, rw same (Below-update_issue i.id id f is keeps h.1))

-- What holds of every row, by whether the row is the updated one.
pub All-update_issue :
    (P Q : Issue → Type 0) (id : ℕ) (f : Issue → Issue) (is : List Issue)
    → ((i : Issue) → P i → i.id ≡ id → Q (f i))
    → ((i : Issue) → P i → i.id ≢ id → Q i)
    → All P is
    → All Q (update_issue id f is)
unfolding update_issue
All-update_issue P Q id f [] here there h = tt
All-update_issue P Q id f (i ∷ is) here there h = elim (Bool-cases (i.id == id)) [
  | inl e ↦ rw e (here i h.0 (ground arith), All-update_issue P Q id f is here there h.1)
  | inr e ↦ rw e (there i h.0 (ground arith), All-update_issue P Q id f is here there h.1)
]

pub All-imp :
    (P Q : Issue → Type 0) (is : List Issue) → ((i : Issue) → P i → Q i) → All P is → All Q is
All-imp P Q [] imp h = tt
All-imp P Q (i ∷ is) imp h = (imp i h.0, All-imp P Q is imp h.1)

pub counted_of-count_up :
    (k p id bucket : ℕ) (level : Text) (cs : List EventCount)
    → counted_of k (count_up p id bucket level cs) ≡ (if id == k then 1 else 0) + counted_of k cs
unfolding count_up
counted_of-count_up k p id bucket level [] = ground arith
counted_of-count_up k p id bucket level (c ∷ cs) =
    ground (arith, counted_of-count_up k p id bucket level cs)
