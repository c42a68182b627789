-- ===== src/Digest/Store.antt =====
-- The tables that the digest writes, and `releases::resolve`.
use thermite_rs.Prelude.{
  Bool, Bytes, List, Option, Text, [], filter, if◌then◌else◌, length, ltb, none, some, text_eq, ℕ,
  ◌&&◌, ◌+◌, ◌==◌, ◌∷◌,
}
use thermite_rs.Json.{Value}

pub record Release : Type 0 where
  pub id : ℕ
  pub project_id : ℕ
  pub version : Text

pub record Issue : Type 0 where
  pub id : ℕ
  pub project_id : ℕ
  pub fingerprint_hash : Bytes
  pub title : Text
  pub culprit : Option Text
  pub exception_type : Text
  pub exception_value : Text
  pub level : Text
  pub platform : Option Text
  pub first_seen : ℕ
  pub last_seen : ℕ
  pub times_seen : ℕ
  pub users_affected : ℕ
  pub status : Text
  pub resolved_in_release_id : Option ℕ
  pub regressed_from_release_id : Option ℕ

pub record Stored : Type 0 where
  pub event_id : Text
  pub project_id : ℕ
  pub issue_id : ℕ
  pub timestamp : ℕ
  pub received_at : ℕ
  pub level : Text
  pub platform : Option Text
  pub environment : Option Text
  pub release : Option Text
  pub transaction : Option Text
  pub server_name : Option Text
  pub message : Text
  pub payload : Value

pub record EventCount : Type 0 where
  pub project_id : ℕ
  pub issue_id : ℕ
  pub bucket : ℕ
  pub level : Text
  pub count : ℕ

pub record IssueTag : Type 0 where
  pub project_id : ℕ
  pub issue_id : ℕ
  pub key : Text
  pub value : Text
  pub times_seen : ℕ
  pub last_seen : ℕ

pub data Trigger : Type 0 where
  new_issue regression : Trigger

-- A row of `notifications`, as it is inserted.
pub record Queued : Type 0 where
  pub project_id : ℕ
  pub issue_id : ℕ
  pub kind : Text

-- The detail of a history line: a status that somebody set, or an issue that ingest reopened.
pub data Detail : Type 0 where
  status_detail : Text → Text → Bool → Option Text → Detail
  regression_detail : Option Text → Option Text → Detail

-- A row of `issue_activity`; the detail tells its kind.
pub record Activity : Type 0 where
  pub issue_id : ℕ
  pub actor : Option Text
  pub detail : Detail

-- The two sequences give the ids of the next rows.
pub record Store : Type 0 where
  pub releases : List Release
  pub next_release : ℕ
  pub issues : List Issue
  pub next_issue : ℕ
  pub events : List Stored
  pub event_counts : List EventCount
  pub issue_tags : List IssueTag
  pub notifications : List Queued
  pub activity : List Activity

abbrev pub max_releases_per_project : ℕ
max_releases_per_project = 10000

unfoldable pub find_release : ℕ → Text → List Release → Option ℕ
find_release project_id version [] = none
find_release project_id version (r ∷ rs) =
    let later = find_release project_id version rs in
    if r.project_id == project_id && text_eq r.version version then some r.id else later

abbrev pub of_project : ℕ → Release → Bool
of_project project_id r = r.project_id == project_id

-- The insert, under the cap.
unfoldable pub mint : ℕ → Text → Store → Option ℕ × Store
mint project_id version st =
    if ltb (length (filter (of_project project_id) st.releases)) max_releases_per_project
    then (
      some st.next_release,
      record st {
        releases =
            record { id = st.next_release; project_id = project_id; version = version }
            ∷ st.releases;
        next_release = st.next_release + 1;
      },
    )
    else (none, st)

unfoldable pub known_or_mint : Option ℕ → ℕ → Text → Store → Option ℕ × Store
known_or_mint (some id) project_id version st = (some id, st)
known_or_mint none project_id version st = mint project_id version st

unfoldable pub resolve : ℕ → Text → Store → Option ℕ × Store
resolve project_id version st =
    known_or_mint (find_release project_id version st.releases) project_id version st

unfoldable pub resolve_given : ℕ → Option Text → Store → Option ℕ × Store
resolve_given project_id none st = (none, st)
resolve_given project_id (some version) st = resolve project_id version st

-- `select version from releases where id = ..`, of an id that may be null.
unfoldable pub version_of : Option ℕ → List Release → Option Text
version_of id [] = none
version_of none (r ∷ rs) = none
version_of (some id) (r ∷ rs) =
    let later = version_of (some id) rs in if r.id == id then some r.version else later

-- `activity::record_regression`.
unfoldable pub record_regression : ℕ → Option ℕ → Option ℕ → Store → Store
unfolding version_of
record_regression issue_id release_id regressed_from_release_id st = record st {
  activity =
      record {
        issue_id = issue_id;
        actor = none;
        detail =
            regression_detail (version_of release_id st.releases)
              (version_of regressed_from_release_id st.releases);
      }
      ∷ st.activity;
}
