-- ===== src/Tests/Digests.antt =====
-- The digest, at a concrete event.
use thermite_rs.Prelude.{
  [], codes, false, if◌then◌else◌, none, not, refl, some, text_eq, true, ◌&&◌, ◌∷◌, ◌≡◌,
}
use thermite_rs.Json.{Value, end, field, object, string}
use thermite_rs.Event.Basic.{TimeParser, str_field}
use thermite_rs.Grouping.{Engine}
use thermite_rs.Digest.Store.{Issue, Store, regression, resolve_given}
use thermite_rs.Digest.Steps.{Reading, digest, digest_reading, find_issue, is_stored, resolved}
use thermite_rs.Digest.Recurrence.{Advanced, Queues, is_held_back, recurrence_lem}
use thermite_rs.Event.Basic.{TimeParser, str_field}
use thermite_rs.Digest.Redelivery.{redelivery_changes_nothing}

abbrev no_times : TimeParser
no_times = record {
  parse_from_rfc3339 = λ _. none;
  parse_naive = λ _ _. none;
  epoch_of_number = λ _. none;
  epoch_of_text = λ _. none;
}

abbrev plain_engine : Engine
plain_engine = record { parameterize = λ t. t; sha256 = λ t. t }

abbrev pub crash_report : Value
crash_report = object (
    field (codes "message") (string (codes "boom")) (
      field (codes "release") (string (codes "app@2"))
        (field (codes "user") (object (field (codes "id") (string (codes "u1")) end)) end)))

abbrev pub empty_store : Store
empty_store = record {
  releases = [];
  next_release = 1;
  issues = [];
  next_issue = 1;
  events = [];
  event_counts = [];
  issue_tags = [];
  notifications = [];
  activity = [];
}

redelivery_changes_nothing_example :
    let first = digest no_times plain_engine 7 none (codes "e1") crash_report 5000 empty_store in
    digest no_times plain_engine 7 (some (codes "web")) (codes "e1") crash_report 5060 first.0 ≡ (
      first.0,
      record {
        event_id = codes "e1";
        issue_id = first.1.issue_id;
        stored = false;
        new_issue = false;
        notified = none;
      },
    )
redelivery_changes_nothing_example =
    redelivery_changes_nothing no_times plain_engine 7 none (some (codes "web")) (codes "e1")
      crash_report 5000 5060 empty_store

abbrev pub reading : Reading
reading = record {
  event_id = codes "e2";
  received_at = 9000;
  timestamp = 8000;
  level = codes "error";
  grouping = record {
    key = codes "k";
    hash = codes "h";
    shown_title = codes "boom";
    shown_culprit = none;
    exception_type = codes "E";
    exception_value = codes "boom";
  };
  payload = crash_report;
}

-- Resolved in release 1, and last seen at 7000.
abbrev pub resolved_issue : Issue
resolved_issue = record {
  id = 4;
  project_id = 7;
  fingerprint_hash = codes "h";
  title = codes "boom";
  culprit = none;
  exception_type = codes "E";
  exception_value = codes "boom";
  level = codes "error";
  platform = none;
  first_seen = 6000;
  last_seen = 7000;
  times_seen = 3;
  users_affected = 0;
  status = codes "resolved";
  resolved_in_release_id = some 1;
  regressed_from_release_id = none;
}

abbrev resolved_store : Store
resolved_store = record empty_store {
  releases = record { id = 1; project_id = 7; version = codes "app@1" } ∷ [];
  next_release = 2;
  issues = resolved_issue ∷ [];
  next_issue = 5;
}

issue_found : find_issue 7 (codes "h") (resolved_issue ∷ []) ≡ some resolved_issue
unfolding find_issue text_eq
issue_found = refl

not_stored : is_stored 7 (codes "e2") [] ≡ false
unfolding is_stored
not_stored = refl

recurrence_lem_example :
    let reopens = not (
      is_held_back
        (some 1)
        (resolve_given 7 (str_field crash_report (codes "release")) resolved_store).0) in
    let done = digest_reading 7 none reading resolved_store in
    (done.1 ≡ record {
      event_id = codes "e2";
      issue_id = 4;
      stored = true;
      new_issue = false;
      notified = if text_eq (codes "resolved") resolved && reopens then some regression else none;
    })
    × (left : Issue) × (find_issue 7 (codes "h") done.0.issues ≡ some left)
    × Advanced reading reopens resolved_issue left
    × Queues (text_eq (codes "resolved") resolved && reopens) 7 4 resolved_store done.0
recurrence_lem_example =
    recurrence_lem 7 none reading resolved_store resolved_issue issue_found not_stored
