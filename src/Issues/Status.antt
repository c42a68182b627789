-- ===== src/Issues/Status.antt =====
-- `update_status` of api/issues.rs and `record_status` of api/activity.rs.
use thermite_rs.Prelude.{
  Bool, List, Option, Result, Text, [], any, codes, err, false, filter, if◌then◌else◌, ltb, none,
  not, ok, some, text_eq, true, ℕ, ◌&&◌, ◌==◌, ◌||◌, ◌∷◌,
}
use thermite_rs.Outbox.Triage.{AppError, bad_request, not_found, release}
use thermite_rs.Digest.Store.{Issue, Release, Store, of_project, status_detail, version_of}
use thermite_rs.Digest.Steps.{resolved, update_issue}

abbrev pub statuses : List Text
statuses = codes "unresolved" ∷ resolved ∷ codes "ignored" ∷ []

unfoldable pub is_status : Text → Bool
unfolding text_eq
is_status status = any (λ s. text_eq s status) statuses

unfoldable pub find_issue_id : ℕ → List Issue → Option Issue
find_issue_id id [] = none
find_issue_id id (i ∷ is) = let later = find_issue_id id is in if i.id == id then some i else later

-- `order by r.id desc limit 1`.
abbrev pub later_of : ℕ → Option ℕ → ℕ
later_of id none = id
later_of id (some other) = if ltb id other then other else id

unfoldable pub newest : List Release → Option ℕ
newest [] = none
newest (r ∷ rs) = some (later_of r.id (newest rs))

unfoldable pub newest_for : Option Issue → List Release → Option ℕ
unfolding newest
newest_for none rs = none
newest_for (some i) rs = newest (filter (of_project i.project_id) rs)

abbrev pub anchored : Option ℕ → Result AppError (Option ℕ)
anchored none = err bad_request
anchored (some release_id) = ok (some release_id)

-- The release that a resolution until the next one is bound to, if any is asked for.
unfoldable pub anchor_of : Bool → ℕ → Store → Result AppError (Option ℕ)
unfolding find_issue_id newest_for
anchor_of false id st = ok none
anchor_of true id st = anchored (newest_for (find_issue_id id st.issues) st.releases)

-- `record_status`: nothing is written when nothing changed.
unfoldable pub record_status : ℕ → Option Text → Text → Text → Bool → Option Text → Store → Store
unfolding text_eq
record_status issue_id actor before status in_next_release release st =
    if text_eq before status && not in_next_release then st else record st {
      activity =
          record {
            issue_id = issue_id;
            actor = actor;
            detail = status_detail before status in_next_release release;
          }
          ∷ st.activity;
    }

abbrev pub with_status : Text → Option ℕ → Issue → Issue
with_status status resolved_in i = record i {
  status = status;
  resolved_in_release_id = resolved_in;
}

-- The transaction, behind the look at the row's status.
unfoldable pub change_found :
    Option Issue → ℕ → Text → Bool → Option Text → Option ℕ → Store → Result AppError Issue × Store
unfolding update_issue record_status version_of
change_found none id status in_next_release actor resolved_in st = (err not_found, st)
change_found (some i) id status in_next_release actor resolved_in st = (
  ok (with_status status resolved_in i),
  record_status id actor i.status status in_next_release (version_of resolved_in st.releases)
      (record st { issues = update_issue id (with_status status resolved_in) st.issues }),
)

unfoldable pub change_anchored :
    Result AppError (Option ℕ)
    → ℕ
    → Text
    → Bool
    → Option Text
    → Store
    → Result AppError Issue × Store
unfolding change_found find_issue_id
change_anchored (err e) id status in_next_release actor st = (err e, st)
change_anchored (ok resolved_in) id status in_next_release actor st =
    change_found (find_issue_id id st.issues) id status in_next_release actor resolved_in st

-- The answer is the row, of which the API shows a part.
unfoldable pub update_status : ℕ → Text → Bool → Option Text → Store → Result AppError Issue × Store
unfolding is_status anchor_of change_anchored text_eq
update_status id status in_next_release actor st =
    if not (is_status status) || (in_next_release && not (text_eq status resolved))
    then (err bad_request, st)
    else change_anchored (anchor_of in_next_release id st) id status in_next_release actor st
