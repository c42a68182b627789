-- ===== src/Issues/Listing.antt =====
-- The issues of a project: `for_project` of api/issues.rs, as far as the page of rows that it selects.
use thermite_rs.Prelude.{
  Bool, List, Option, Result, Text, [], any, codes, drop, err, filter, if◌then◌else◌, ltb, none,
  not, ok, some, take, text_eq, true, ℕ, ◌&&◌, ◌++◌, ◌==◌, ◌||◌, ◌∷◌,
}
use thermite_rs.Json.{is_empty, unwrap_or}
use thermite_rs.Strings.{str_trim}
use thermite_rs.Strings.Split.{split_once}
use thermite_rs.Outbox.Triage.{AppError, bad_request, matches_filter, not_found, page_size}
use thermite_rs.Digest.Store.{Issue, IssueTag, Store}
use thermite_rs.Issues.Status.{is_status}

-- A limit and an offset are i64 in the source; a limit below 1 and an offset below 0 are clamped, so ℕ
-- loses nothing.
pub record IssueListQuery : Type 0 where
  pub status : Option Text
  pub q : Option Text
  pub environment : Option Text
  pub tag : Option Text
  pub sort : Option Text
  pub limit : Option ℕ
  pub offset : Option ℕ

unfoldable pub given_tag : Text × Text → Result AppError (Text × Text)
unfolding str_trim
given_tag (key, value) =
    if not (is_empty (str_trim key)) && not (is_empty (str_trim value))
    then ok (str_trim key, str_trim value)
    else err bad_request

unfoldable pub split_tag : Option (Text × Text) → Result AppError (Text × Text)
unfolding given_tag
split_tag none = err bad_request
split_tag (some parts) = given_tag parts

unfoldable pub parse_tag : Text → Result AppError (Text × Text)
unfolding split_once split_tag
parse_tag tag = split_tag (split_once (codes ":") tag)

pub data Sort : Type 0 where
  by_last_seen by_events by_users : Sort

-- The source's text of each order is the order itself here.
unfoldable pub order_by : Option Text → Result AppError Sort
unfolding text_eq
order_by sort =
    let name = unwrap_or sort (codes "last_seen") in
    if text_eq name (codes "last_seen")
    then ok by_last_seen
    else if text_eq name (codes "events")
    then ok by_events
    else if text_eq name (codes "users")
    then ok by_users
    else err bad_request

-- The columns of an order; each is descending.
abbrev pub keys_of : Sort → Issue → List ℕ
keys_of by_last_seen i = i.last_seen ∷ i.id ∷ []
keys_of by_events i = i.times_seen ∷ i.last_seen ∷ i.id ∷ []
keys_of by_users i = i.users_affected ∷ i.times_seen ∷ i.last_seen ∷ i.id ∷ []

unfoldable pub not_after : List ℕ → List ℕ → Bool
not_after [] ys = true
not_after (x ∷ xs) [] = true
not_after (x ∷ xs) (y ∷ ys) = ltb y x || (x == y && not_after xs ys)

unfoldable pub insert_ordered : Sort → Issue → List Issue → List Issue
unfolding not_after
insert_ordered sort i [] = i ∷ []
insert_ordered sort i (j ∷ is) =
    let later = insert_ordered sort i is in
    if not_after (keys_of sort i) (keys_of sort j) then i ∷ j ∷ is else j ∷ later

unfoldable pub ordered : Sort → List Issue → List Issue
unfolding insert_ordered
ordered sort [] = []
ordered sort (i ∷ is) = insert_ordered sort i (ordered sort is)

-- `$4 is null or exists (..)` over the tags of the issue.
unfoldable pub has_given_tag : Option (Text × Text) → ℕ → List IssueTag → Bool
unfolding text_eq
has_given_tag none id tags = true
has_given_tag (some (key, value)) id tags =
    any (λ (t : IssueTag). t.issue_id == id && (text_eq t.key key && text_eq t.value value)) tags

abbrev pub has_given_title : (Text → Text → Bool) → Option Text → Text → Bool
has_given_title ilike none title = true
has_given_title ilike (some q) title = ilike title (codes "%" ++ (q ++ codes "%"))

abbrev environment_tag : Option Text → Option (Text × Text)
environment_tag none = none
environment_tag (some value) = some (codes "environment", value)

-- The `where` of the select. `ilike` is the database's: whether a text matches a pattern, whatever the
-- case of the letters.
unfoldable pub is_listed :
    (Text → Text → Bool) → ℕ → IssueListQuery → Option (Text × Text) → Store → Issue → Bool
unfolding matches_filter has_given_tag
is_listed ilike project_id query tag st i =
    i.project_id == project_id
    && (matches_filter query.status i.status
        && (has_given_title ilike query.q i.title
            && (has_given_tag (environment_tag query.environment) i.id st.issue_tags
                && has_given_tag tag i.id st.issue_tags)))

unfoldable pub find_project : Text → List (Text × ℕ) → Option ℕ
unfolding text_eq
find_project slug [] = none
find_project slug ((s, id) ∷ projects) =
    let later = find_project slug projects in if text_eq s slug then some id else later

unfoldable pub select_page :
    (Text → Text → Bool)
    → Option ℕ
    → IssueListQuery
    → Sort
    → Option (Text × Text)
    → Store
    → Result AppError (List Issue)
unfolding is_listed ordered page_size
select_page ilike none query sort tag st = err not_found
select_page ilike (some project_id) query sort tag st = ok (
    take (page_size query.limit) (
      drop (unwrap_or query.offset 0)
        (ordered sort (filter (is_listed ilike project_id query tag st) st.issues))))

unfoldable pub found_tag : Result AppError (Text × Text) → Result AppError (Option (Text × Text))
found_tag (err e) = err e
found_tag (ok tag) = ok (some tag)

unfoldable pub parsed_tag : Option Text → Result AppError (Option (Text × Text))
unfolding parse_tag found_tag
parsed_tag none = ok none
parsed_tag (some tag) = found_tag (parse_tag tag)

unfoldable pub is_given_status : Option Text → Bool
unfolding is_status
is_given_status none = true
is_given_status (some status) = is_status status

unfoldable pub with_tag :
    (Text → Text → Bool)
    → Option ℕ
    → IssueListQuery
    → Sort
    → Result AppError (Option (Text × Text))
    → Store
    → Result AppError (List Issue)
unfolding select_page
with_tag ilike project query sort (err e) st = err e
with_tag ilike project query sort (ok tag) st = select_page ilike project query sort tag st

unfoldable pub with_order :
    (Text → Text → Bool)
    → Option ℕ
    → IssueListQuery
    → Result AppError Sort
    → Store
    → Result AppError (List Issue)
unfolding with_tag parsed_tag
with_order ilike project query (err e) st = err e
with_order ilike project query (ok sort) st =
    with_tag ilike project query sort (parsed_tag query.tag) st

unfoldable pub for_project :
    (Text → Text → Bool)
    → List (Text × ℕ)
    → Text
    → IssueListQuery
    → Store
    → Result AppError (List Issue)
unfolding is_given_status with_order order_by find_project
for_project ilike projects slug query st =
    if not (is_given_status query.status)
    then err bad_request
    else with_order ilike (find_project slug projects) query (order_by query.sort) st
