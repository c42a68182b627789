-- ===== src/Digest/Steps.antt =====
-- `digest` and its statements. A transaction runs alone and commits; database errors, which roll it
-- back, are left out.
use thermite_rs.Prelude.{
  Bool, Bytes, List, Option, Text, [], any, codes, false, filter, if◌then◌else◌, leb, length, ltb,
  max, min, none, some, text_eq, true, ℕ, ◌&&◌, ◌++◌, ◌+◌, ◌==◌, ◌||◌, ◌∷◌,
}
use thermite_rs.Json.{Value}
use thermite_rs.Event.Basic.{TimeParser, hour_of, level, str_field, timestamp}
use thermite_rs.Event.Tags.{Tag, tags}
use thermite_rs.Grouping.{Engine, Grouping, group}
use thermite_rs.Digest.Store.{
  EventCount, Issue, IssueTag, Store, Stored, Trigger, new_issue, record_regression, regression,
  resolve_given,
}

-- What the digest reads of the payload.
pub record Reading : Type 0 where
  pub event_id : Text
  pub received_at : ℕ
  pub timestamp : ℕ
  pub level : Text
  pub grouping : Grouping
  pub payload : Value

pub record OpenedIssue : Type 0 where
  pub id : ℕ
  pub new_issue : Bool
  pub status : Text
  pub resolved_in_release_id : Option ℕ

pub record Digested : Type 0 where
  pub event_id : Text
  pub issue_id : ℕ
  pub stored : Bool
  pub new_issue : Bool
  pub notified : Option Trigger

abbrev pub has_key : ℕ → Bytes → Issue → Bool
has_key project_id hash i = i.project_id == project_id && text_eq i.fingerprint_hash hash

unfoldable pub find_issue : ℕ → Bytes → List Issue → Option Issue
find_issue project_id hash [] = none
find_issue project_id hash (i ∷ is) =
    let later = find_issue project_id hash is in if has_key project_id hash i then some i else later

unfoldable pub inserted_issue : ℕ → Reading → Store → Issue
inserted_issue project_id r st = record {
  id = st.next_issue;
  project_id = project_id;
  fingerprint_hash = r.grouping.hash;
  title = r.grouping.shown_title;
  culprit = r.grouping.shown_culprit;
  exception_type = r.grouping.exception_type;
  exception_value = r.grouping.exception_value;
  level = r.level;
  platform = str_field r.payload (codes "platform");
  first_seen = r.timestamp;
  last_seen = r.timestamp;
  times_seen = 0;
  users_affected = 0;
  status = codes "unresolved";
  resolved_in_release_id = none;
  regressed_from_release_id = none;
}

unfoldable pub open_found : Option Issue → ℕ → Reading → Store → OpenedIssue × Store
unfolding inserted_issue
open_found (some i) project_id r st = (
  record {
    id = i.id;
    new_issue = false;
    status = i.status;
    resolved_in_release_id = i.resolved_in_release_id;
  },
  st,
)
open_found none project_id r st = (
  record {
    id = st.next_issue;
    new_issue = true;
    status = codes "unresolved";
    resolved_in_release_id = none;
  },
  record st { issues = inserted_issue project_id r st ∷ st.issues; next_issue = st.next_issue + 1 },
)

unfoldable pub open_issue : ℕ → Reading → Store → OpenedIssue × Store
open_issue project_id r st =
    open_found (find_issue project_id r.grouping.hash st.issues) project_id r st

unfoldable pub is_stored : ℕ → Text → List Stored → Bool
is_stored project_id event_id events =
    any (λ (e : Stored). e.project_id == project_id && text_eq e.event_id event_id) events

unfoldable pub store_event : ℕ → ℕ → Reading → Store → Bool × Store
store_event project_id issue_id r st =
    if is_stored project_id r.event_id st.events then (false, st) else (
      true,
      record st {
        events =
            record {
              event_id = r.event_id;
              project_id = project_id;
              issue_id = issue_id;
              timestamp = r.timestamp;
              received_at = r.received_at;
              level = r.level;
              platform = str_field r.payload (codes "platform");
              environment = str_field r.payload (codes "environment");
              release = str_field r.payload (codes "release");
              transaction = str_field r.payload (codes "transaction");
              server_name = str_field r.payload (codes "server_name");
              message = r.grouping.shown_title;
              payload = r.payload;
            }
            ∷ st.events;
      },
    )

abbrev pub reopens_for : Option ℕ → Option ℕ → Bool
reopens_for none event_release = true
reopens_for (some resolved_in) none = true
reopens_for (some resolved_in) (some event_release) = ltb resolved_in event_release

unfoldable pub update_issue : ℕ → (Issue → Issue) → List Issue → List Issue
update_issue id f [] = []
update_issue id f (i ∷ is) = (if i.id == id then f i else i) ∷ update_issue id f is

abbrev pub resolved : Text
resolved = codes "resolved"

-- Every right-hand side reads the old row.
unfoldable pub advanced : Reading → Bool → Issue → Issue
unfolding text_eq
advanced r reopens i =
    let reopened = text_eq i.status resolved && reopens in
    let newest = leb i.last_seen r.timestamp in
    record i {
      times_seen = i.times_seen + 1;
      first_seen = min i.first_seen r.timestamp;
      last_seen = max i.last_seen r.timestamp;
      status = if reopened then codes "unresolved" else i.status;
      regressed_from_release_id =
          if reopened then i.resolved_in_release_id else i.regressed_from_release_id;
      resolved_in_release_id = if reopened then none else i.resolved_in_release_id;
      title = if newest then r.grouping.shown_title else i.title;
      culprit = if newest then r.grouping.shown_culprit else i.culprit;
      exception_type = if newest then r.grouping.exception_type else i.exception_type;
      exception_value = if newest then r.grouping.exception_value else i.exception_value;
      level = if newest then r.level else i.level;
    }

unfoldable pub advance_issue : ℕ → Reading → Bool → Store → Store
unfolding update_issue advanced
advance_issue issue_id r reopens st = record st {
  issues = update_issue issue_id (advanced r reopens) st.issues;
}

abbrev is_count : ℕ → ℕ → Text → EventCount → Bool
is_count issue_id bucket level c =
    c.issue_id == issue_id && (c.bucket == bucket && text_eq c.level level)

unfoldable pub count_up : ℕ → ℕ → ℕ → Text → List EventCount → List EventCount
unfolding text_eq
count_up project_id issue_id bucket level [] =
    record {
      project_id = project_id;
      issue_id = issue_id;
      bucket = bucket;
      level = level;
      count = 1;
    }
    ∷ []
count_up project_id issue_id bucket level (c ∷ cs) =
    let later = count_up project_id issue_id bucket level cs in
    if is_count issue_id bucket level c then record c { count = c.count + 1 } ∷ cs else c ∷ later

unfoldable pub bump_event_counts : ℕ → ℕ → Reading → Store → Store
unfolding count_up
bump_event_counts project_id issue_id r st = record st {
  event_counts = count_up project_id issue_id (hour_of r.timestamp) r.level st.event_counts;
}

abbrev max_tag_values_per_key : ℕ
max_tag_values_per_key = 1000

abbrev component_key : Text
component_key = codes "component"

-- The component of the DSN key, unless the SDK sent a tag of that name.
with_component : Option Text → List Tag → List Tag
unfolding text_eq
with_component none ts = ts
with_component (some c) ts =
    if any (λ (t : Tag). text_eq t.0 component_key) ts then ts else ts ++ (component_key, c) ∷ []

abbrev has_tag : ℕ → Text → Text → IssueTag → Bool
has_tag issue_id key value t =
    t.issue_id == issue_id && (text_eq t.key key && text_eq t.value value)

abbrev has_tag_key : ℕ → Text → IssueTag → Bool
has_tag_key issue_id key t = t.issue_id == issue_id && text_eq t.key key

-- The `where` of the insert, over the table as it was before the statement.
admits_tag : ℕ → List IssueTag → Tag → Bool
unfolding text_eq
admits_tag issue_id before t =
    any (has_tag issue_id t.0 t.1) before
    || ltb (length (filter (has_tag_key issue_id t.0) before)) max_tag_values_per_key

-- The upsert of one tag, and whether the row is new.
upsert_tag : ℕ → ℕ → ℕ → Tag → List IssueTag → List IssueTag × Bool
unfolding text_eq
upsert_tag project_id issue_id timestamp t [] = (
  record {
    project_id = project_id;
    issue_id = issue_id;
    key = t.0;
    value = t.1;
    times_seen = 1;
    last_seen = timestamp;
  }
      ∷ [],
  true,
)
upsert_tag project_id issue_id timestamp t (c ∷ cs) =
    let (cs', inserted) = upsert_tag project_id issue_id timestamp t cs in
    if has_tag issue_id t.0 t.1 c
    then (
      record c { times_seen = c.times_seen + 1; last_seen = max c.last_seen timestamp } ∷ cs,
      false,
    )
    else (c ∷ cs', inserted)

-- The statement over all tags, with the number of new `user` rows.
upsert_tags : ℕ → ℕ → ℕ → List IssueTag → List Tag → List IssueTag → List IssueTag × ℕ
unfolding admits_tag upsert_tag text_eq
upsert_tags project_id issue_id timestamp before [] rows = (rows, 0)
upsert_tags project_id issue_id timestamp before (t ∷ ts) rows =
    let (with_t, inserted) = upsert_tag project_id issue_id timestamp t rows in
    let with_rest = upsert_tags project_id issue_id timestamp before ts with_t in
    let rest = upsert_tags project_id issue_id timestamp before ts rows in
    if admits_tag issue_id before t
    then (with_rest.0, (if inserted && text_eq t.0 (codes "user") then 1 else 0) + with_rest.1)
    else rest

abbrev pub affect : ℕ → Issue → Issue
affect new_users i = record i { users_affected = i.users_affected + new_users }

-- Adding no users, as the source does not, and adding none of them, are the same.
unfoldable pub roll_up_tags : ℕ → ℕ → Option Text → Reading → Store → Store
unfolding with_component upsert_tags tags update_issue
roll_up_tags project_id issue_id component r st =
    let ts = with_component component (tags r.payload) in
    let rolled = upsert_tags project_id issue_id r.timestamp st.issue_tags ts st.issue_tags in
    record st {
      issue_tags = rolled.0;
      issues =
          if ltb 0 rolled.1 then update_issue issue_id (affect rolled.1) st.issues else st.issues;
    }

unfoldable pub trigger_of : Bool → Bool → Text → Bool → Option Trigger
unfolding text_eq
trigger_of stored new status reopens =
    if stored && new
    then some new_issue
    else if stored && (text_eq status resolved && reopens)
    then some regression
    else none

abbrev kind_of : Trigger → Text
kind_of new_issue = codes "new_issue"
kind_of regression = codes "regression"

-- The rows that a notification writes.
unfoldable pub notify : Option Trigger → ℕ → Option ℕ → OpenedIssue → Store → Store
unfolding record_regression
notify none project_id release_id issue st = st
notify (some new_issue) project_id release_id issue st = record st {
  notifications =
      record { project_id = project_id; issue_id = issue.id; kind = kind_of new_issue }
      ∷ st.notifications;
}
notify (some regression) project_id release_id issue st =
    record_regression issue.id release_id issue.resolved_in_release_id (record st {
      notifications =
          record { project_id = project_id; issue_id = issue.id; kind = kind_of regression }
          ∷ st.notifications;
    })

-- The three writes that an event not stored before makes.
unfoldable pub advance_all : ℕ → Option Text → Reading → OpenedIssue → Bool → Bool → Store → Store
unfolding advance_issue bump_event_counts roll_up_tags
advance_all project_id component r issue reopens stored st =
    if stored
    then roll_up_tags project_id issue.id component r
        (bump_event_counts project_id issue.id r (advance_issue issue.id r reopens st))
    else st

-- After the release is resolved, the issue open and the event stored.
unfoldable pub finish :
    ℕ → Option Text → Reading → Option ℕ → OpenedIssue → Bool → Store → Store × Digested
unfolding advance_all trigger_of notify
finish project_id component r release_id issue stored st =
    let reopens = reopens_for issue.resolved_in_release_id release_id in
    let notified = trigger_of stored issue.new_issue issue.status reopens in
    (
      notify notified project_id release_id issue
          (advance_all project_id component r issue reopens stored st),
      record {
        event_id = r.event_id;
        issue_id = issue.id;
        stored = stored;
        new_issue = issue.new_issue;
        notified = notified;
      },
    )

unfoldable pub digest_reading : ℕ → Option Text → Reading → Store → Store × Digested
unfolding resolve_given open_issue store_event finish
digest_reading project_id component r st =
    let resolved_release = resolve_given project_id (str_field r.payload (codes "release")) st in
    let opened = open_issue project_id r resolved_release.1 in
    let kept = store_event project_id opened.0.id r opened.1 in
    finish project_id component r resolved_release.0 opened.0 kept.0 kept.1

-- The event id is an argument: `event::event_id` parses a UUID, or makes one.
unfoldable pub read : TimeParser → Engine → Text → Value → ℕ → Reading
unfolding timestamp level group
read times engine event_id payload received_at = record {
  event_id = event_id;
  received_at = received_at;
  timestamp = timestamp times payload received_at;
  level = level payload;
  grouping = group engine payload;
  payload = payload;
}

unfoldable pub digest :
    TimeParser → Engine → ℕ → Option Text → Text → Value → ℕ → Store → Store × Digested
unfolding digest_reading read
digest times engine project_id component event_id payload received_at st =
    digest_reading project_id component (read times engine event_id payload received_at) st
