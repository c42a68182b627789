-- ===== src/Issues/Pages.antt =====
-- The pages of an issue list, put together.
use native.Mathlib.Nat.{suc-mul}
use thermite_rs.Outbox.Triage.{AppError, page_size}
use thermite_rs.Prelude.{
  Bool, Bool-cases, List, Option, Result, Text, [], ap, arith, drop, err, false, filter, if_keeps,
  if◌then◌else◌, inl, inr, ok, refl, some, suc, sym, take, true, zero, ℕ, ◌*◌, ◌++◌, ◌+◌, ◌∙◌, ◌∷◌,
  ◌≡◌, ◌≢◌, ◌≤◌,
}
use thermite_rs.Digest.Store.{Issue, Store}
use thermite_rs.Digest.Counts.{Below}
use thermite_rs.Issues.Listing.{
  IssueListQuery, Sort, by_events, by_last_seen, by_users, find_project, for_project,
  insert_ordered, is_given_status, is_listed, keys_of, not_after, order_by, ordered, parsed_tag,
  select_page, with_order, with_tag,
}

take-nil : (n : ℕ) → take {A = Issue} n [] ≡ []
take-nil zero = refl
take-nil (suc n) = refl

take-append-drop : (m n : ℕ) (xs : List Issue) → take m xs ++ take n (drop m xs) ≡ take (m + n) xs
take-append-drop zero n xs = ap (λ k. take k xs) (omega arith)
take-append-drop (suc m) n [] = take-nil n ∙ sym (take-nil (suc m + n))
take-append-drop (suc m) n (x ∷ xs) =
    let one_more : suc m + n ≡ suc (m + n) = omega arith in
    rw one_more (ap (◌∷◌ x) (take-append-drop m n xs))

not_after-total : (xs ys : List ℕ) → not_after xs ys ≡ false → not_after ys xs ≡ true
unfolding not_after
not_after-total [] ys h = ground arith
not_after-total (x ∷ xs) [] h = ground arith
not_after-total (x ∷ xs) (y ∷ ys) h = ground (arith, not_after-total xs ys)

-- Every row stands before the next one in the order.
abbrev pub IsOrdered : Sort → List Issue → Type 0
IsOrdered sort [] = Unit
IsOrdered sort (i ∷ []) = Unit
IsOrdered sort (i ∷ j ∷ is) =
    (not_after (keys_of sort i) (keys_of sort j) ≡ true) × IsOrdered sort (j ∷ is)

insert_ordered-IsOrdered :
    (sort : Sort) (i : Issue) (is : List Issue)
    → IsOrdered sort is
    → IsOrdered sort (insert_ordered sort i is)
unfolding insert_ordered
insert_ordered-IsOrdered sort i [] h = tt
insert_ordered-IsOrdered sort i (j ∷ []) h =
    ground (arith, not_after-total (keys_of sort i) (keys_of sort j))
insert_ordered-IsOrdered sort i (j ∷ k ∷ is) h = ground (
  arith,
  not_after-total (keys_of sort i) (keys_of sort j),
  insert_ordered-IsOrdered sort i (k ∷ is) h.1,
)

ordered-IsOrdered : (sort : Sort) (is : List Issue) → IsOrdered sort (ordered sort is)
unfolding ordered
ordered-IsOrdered sort [] = tt
ordered-IsOrdered sort (i ∷ is) =
    insert_ordered-IsOrdered sort i (ordered sort is) (ordered-IsOrdered sort is)

-- Every row stands strictly before the next one: no two tie, so only one list of them is in the order.
abbrev pub IsStrict : Sort → List Issue → Type 0
IsStrict sort [] = Unit
IsStrict sort (i ∷ []) = Unit
IsStrict sort (i ∷ j ∷ is) =
    (not_after (keys_of sort j) (keys_of sort i) ≡ false) × IsStrict sort (j ∷ is)

-- Rows that tie are one row: the id is the last key of every order.
tied_ids :
    (sort : Sort) (i j : Issue)
    → not_after (keys_of sort i) (keys_of sort j) ≡ true
    → not_after (keys_of sort j) (keys_of sort i) ≡ true
    → i.id ≡ j.id
unfolding not_after
tied_ids by_last_seen i j h k = ground (arith, h, k)
tied_ids by_events i j h k = ground (arith, h, k)
tied_ids by_users i j h k = ground (arith, h, k)

-- No row of the list has the id.
abbrev Apart : ℕ → List Issue → Type 0
Apart id [] = Unit
Apart id (i ∷ is) = (id ≢ i.id) × Apart id is

-- The ids are different.
abbrev Unlike : List Issue → Type 0
Unlike [] = Unit
Unlike (i ∷ is) = Apart i.id is × Unlike is

strictly :
    (sort : Sort) (i j : Issue)
    → i.id ≢ j.id
    → not_after (keys_of sort i) (keys_of sort j) ≡ true
    → not_after (keys_of sort j) (keys_of sort i) ≡ false
strictly sort i j apart h = elim (Bool-cases (not_after (keys_of sort j) (keys_of sort i))) [
  | inl e ↦ elim (apart (tied_ids sort i j h e)) [ ]
  | inr e ↦ e
]

insert_ordered-Apart :
    (sort : Sort) (id : ℕ) (i : Issue) (is : List Issue)
    → id ≢ i.id
    → Apart id is
    → Apart id (insert_ordered sort i is)
unfolding insert_ordered
insert_ordered-Apart sort id i [] h a = (h, tt)
insert_ordered-Apart sort id i (j ∷ is) h a =
    if_keeps (Apart id) (not_after (keys_of sort i) (keys_of sort j)) _ _ (h, a)
      (a.0, insert_ordered-Apart sort id i is h a.1)

ordered-Apart : (sort : Sort) (id : ℕ) (is : List Issue) → Apart id is → Apart id (ordered sort is)
unfolding ordered
ordered-Apart sort id [] a = tt
ordered-Apart sort id (i ∷ is) a =
    insert_ordered-Apart sort id i (ordered sort is) a.0 (ordered-Apart sort id is a.1)

insert_ordered-IsStrict :
    (sort : Sort) (i : Issue) (is : List Issue)
    → Apart i.id is
    → IsStrict sort is
    → IsStrict sort (insert_ordered sort i is)
unfolding insert_ordered
insert_ordered-IsStrict sort i [] a h = tt
insert_ordered-IsStrict sort i (j ∷ []) a h =
    elim (Bool-cases (not_after (keys_of sort i) (keys_of sort j))) [
      | inl e ↦ rw e (strictly sort i j a.0 e, tt)
      | inr e ↦ rw e (e, tt)
    ]
insert_ordered-IsStrict sort i (j ∷ k ∷ is) a h =
    elim (Bool-cases (not_after (keys_of sort i) (keys_of sort j))) [
      | inl e ↦ rw e (strictly sort i j a.0 e, h)
      | inr e ↦ rw e (
          behind (not_after (keys_of sort i) (keys_of sort k)) e h.0
            (insert_ordered-IsStrict sort i (k ∷ is) a.1 h.1))
    ]
  where
    behind :
        (b : Bool)
        → not_after (keys_of sort i) (keys_of sort j) ≡ false
        → not_after (keys_of sort k) (keys_of sort j) ≡ false
        → IsStrict sort (if b then i ∷ k ∷ is else k ∷ insert_ordered sort i is)
        → IsStrict sort (j ∷ (if b then i ∷ k ∷ is else k ∷ insert_ordered sort i is))
    behind true e f g = (e, g)
    behind false e f g = (f, g)

ordered-IsStrict : (sort : Sort) (is : List Issue) → Unlike is → IsStrict sort (ordered sort is)
unfolding ordered
ordered-IsStrict sort [] u = tt
ordered-IsStrict sort (i ∷ is) u =
    insert_ordered-IsStrict sort i (ordered sort is) (ordered-Apart sort i.id is u.0)
      (ordered-IsStrict sort is u.1)

Below-Apart : (n id : ℕ) (is : List Issue) → n ≤ id → Below n is → Apart id is
Below-Apart n id [] le h = tt
Below-Apart n id (i ∷ is) le h =
    (λ e. omega (arith, le, h.0, e), Below-Apart i.id id is (omega (arith, le, h.0)) h.1)

filter-Apart : (p : Issue → Bool) (id : ℕ) (is : List Issue) → Apart id is → Apart id (filter p is)
filter-Apart p id [] a = tt
filter-Apart p id (i ∷ is) a =
    if_keeps (Apart id) (p i) _ _ (a.0, filter-Apart p id is a.1) (filter-Apart p id is a.1)

filter-Unlike : (p : Issue → Bool) (n : ℕ) (is : List Issue) → Below n is → Unlike (filter p is)
filter-Unlike p n [] h = tt
filter-Unlike p n (i ∷ is) h =
    let rest = filter-Unlike p i.id is h.1 in
    if_keeps Unlike (p i) _ _
      (filter-Apart p i.id is (Below-Apart i.id i.id is (omega arith) h.1), rest) rest

-- How many rows pass a test.
abbrev pub count : (Issue → Bool) → List Issue → ℕ
count p [] = 0
count p (i ∷ is) = (if p i then 1 else 0) + count p is

count-insert_ordered :
    (sort : Sort) (p : Issue → Bool) (i : Issue) (is : List Issue)
    → count p (insert_ordered sort i is) ≡ (if p i then 1 else 0) + count p is
unfolding insert_ordered
count-insert_ordered sort p i [] = refl
count-insert_ordered sort p i (j ∷ is) =
    elim (Bool-cases (not_after (keys_of sort i) (keys_of sort j))) [
      | inl first ↦ rw first refl
      | inr later ↦ rw later (omega (arith, count-insert_ordered sort p i is))
    ]

count-ordered :
    (sort : Sort) (p : Issue → Bool) (is : List Issue) → count p (ordered sort is) ≡ count p is
unfolding ordered
count-ordered sort p [] = refl
count-ordered sort p (i ∷ is) =
    count-insert_ordered sort p i (ordered sort is)
    ∙ ap (λ n. (if p i then 1 else 0) + n) (count-ordered sort p is)

abbrev pub at_offset : ℕ → IssueListQuery → IssueListQuery
at_offset o query = record query { offset = some o }

-- The rows of two answers after each other.
abbrev joined :
    Result AppError (List Issue) → Result AppError (List Issue) → Result AppError (List Issue)
joined (ok is) (ok js) = ok (is ++ js)
joined (ok is) (err e) = err e
joined (err e) _ = err e

-- The first pages, each from where the one before it ended.
abbrev pub walk : (ℕ → Result AppError (List Issue)) → ℕ → ℕ → Result AppError (List Issue)
walk page size zero = ok []
walk page size (suc k) = joined (walk page size k) (page (k * size))

walk_rows :
    (page : ℕ → Result AppError (List Issue)) (size : ℕ) (rows : List Issue) (k : ℕ)
    → ((o : ℕ) → page o ≡ ok (take size (drop o rows)))
    → walk page size k ≡ ok (take (k * size) rows)
walk_rows page size rows zero h = let nothing : 0 * size ≡ 0 = omega arith in rw nothing refl
walk_rows page size rows (suc k) h =
    let more : k * size + size ≡ suc k * size = sym (suc-mul k size) in
    rw (walk_rows page size rows k h, h (k * size))
      (ap ok (take-append-drop (k * size) size rows ∙ ap (λ n. take n rows) more))

for_project-page :
    (ilike : Text → Text → Bool) (projects : List (Text × ℕ)) (slug : Text) (query : IssueListQuery)
    (st : Store) (project : ℕ) (sort : Sort) (tag : Option (Text × Text)) (o : ℕ)
    → is_given_status query.status ≡ true
    → order_by query.sort ≡ ok sort
    → parsed_tag query.tag ≡ ok tag
    → find_project slug projects ≡ some project
    → for_project ilike projects slug (at_offset o query) st
      ≡ ok (
          take
            (page_size query.limit)
            (drop o (ordered sort (filter (is_listed ilike project query tag st) st.issues))))
unfolding for_project with_order with_tag select_page is_listed
for_project-page ilike projects slug query st project sort tag o status order parsed found =
    rw (status, order, parsed, found) refl

-- With filters that are accepted, the first pages of any number, one after the other, are the first rows
-- of one list: it has each matching issue of the project as often as the table has it, and no other
-- row, and is in the order that was asked for. No two of its rows tie in that order, so that the database
-- has no choice between lists. The ids of the issues are to be below the sequence they are taken from.
pub pages_lem :
    (ilike : Text → Text → Bool) (projects : List (Text × ℕ)) (slug : Text) (query : IssueListQuery)
    (st : Store) (project : ℕ) (sort : Sort) (tag : Option (Text × Text)) (k : ℕ)
    → is_given_status query.status ≡ true
    → order_by query.sort ≡ ok sort
    → parsed_tag query.tag ≡ ok tag
    → find_project slug projects ≡ some project
    → Below st.next_issue st.issues
    → let size = page_size query.limit in
      let matching = filter (is_listed ilike project query tag st) st.issues in
      (rows : List Issue) × (walk
          (λ o. for_project ilike projects slug (at_offset o query) st)
          size
          k
        ≡ ok (take (k * size) rows))
      × ((p : Issue → Bool) → count p rows ≡ count p matching)
      × IsOrdered sort rows
      × IsStrict sort rows
pages_lem ilike projects slug query st project sort tag k status order parsed found below =
    let matching = filter (is_listed ilike project query tag st) st.issues in
    (
      ordered sort matching,
      walk_rows _ (page_size query.limit) (ordered sort matching) k (λ o.
          for_project-page ilike projects slug query st project sort tag o status order parsed
            found),
      λ p. count-ordered sort p matching,
      ordered-IsOrdered sort matching,
      ordered-IsStrict sort matching
          (filter-Unlike (is_listed ilike project query tag st) st.next_issue st.issues below),
    )
