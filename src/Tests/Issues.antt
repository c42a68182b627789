-- ===== src/Tests/Issues.antt =====
-- The issues of the read API, at a project with one issue and one release.
use thermite_rs.Prelude.{
  All, Bool, List, Text, [], arith, codes, false, filter, if◌then◌else◌, is_some, none, ok, refl,
  some, take, text_eq, true, ℕ, ◌*◌, ◌∷◌, ◌≡◌,
}
use thermite_rs.Event.Basic.{str_field}
use thermite_rs.Outbox.Triage.{page_size}
use thermite_rs.Digest.Store.{Issue, Store, find_release, of_project, regression}
use thermite_rs.Digest.Steps.{digest_reading, find_issue, is_stored, resolved}
use thermite_rs.Digest.Counts.{counted_of, stored_of}
use thermite_rs.Issues.Status.{find_issue_id, newest, update_status}
use thermite_rs.Issues.History.{changes, counts_are_exact, digests, here, next, no_rows}
use thermite_rs.Issues.NextRelease.{resolved_until_next_release}
use thermite_rs.Issues.Stays.{IsIgnored}
use thermite_rs.Issues.Ignored.{digest_all, no_event_reopens_it, queued_for}
use thermite_rs.Issues.Listing.{
  IssueListQuery, by_last_seen, find_project, for_project, is_given_status, is_listed, order_by,
  parsed_tag,
}
use thermite_rs.Issues.Pages.{IsOrdered, IsStrict, at_offset, count, pages_lem, walk}
use thermite_rs.Tests.Digests.{crash_report, empty_store, reading, resolved_issue}

abbrev seen_once : Issue
seen_once = record resolved_issue {
  times_seen = 1;
  status = codes "ignored";
  resolved_in_release_id = none;
}

abbrev one_issue : Store
one_issue = record empty_store {
  releases = record { id = 1; project_id = 7; version = codes "app@2" } ∷ [];
  next_release = 2;
  issues = seen_once ∷ [];
  next_issue = 5;
  events =
      record {
        event_id = codes "e1";
        project_id = 7;
        issue_id = 4;
        timestamp = 7000;
        received_at = 7000;
        level = codes "error";
        platform = none;
        environment = none;
        release = none;
        transaction = none;
        server_name = none;
        message = codes "boom";
        payload = crash_report;
      }
      ∷ [];
  event_counts =
      record { project_id = 7; issue_id = 4; bucket = 0; level = codes "error"; count = 1 } ∷ [];
}

counts_are_exact_example :
    let st = (update_status 1 resolved false none (digest_reading 7 none reading no_rows).0).1 in
    All
      (λ (i : Issue).
        (i.times_seen ≡ stored_of i.id st.events)
        × (i.times_seen ≡ counted_of i.id st.event_counts))
      st.issues
counts_are_exact_example = counts_are_exact (
    next (next here (digests 7 none reading no_rows))
      (changes 1 resolved false none (digest_reading 7 none reading no_rows).0))

found : find_issue 7 (codes "h") (seen_once ∷ []) ≡ some seen_once
unfolding find_issue text_eq
found = refl

newest_is_one : newest (filter (of_project 7) one_issue.releases) ≡ some 1
unfolding newest
newest_is_one = refl

e2_is_new : is_stored 7 (codes "e2") one_issue.events ≡ false
unfolding is_stored text_eq
e2_is_new = refl

of_app_2 : str_field crash_report (codes "release") ≡ some (codes "app@2")
unfolding str_field
of_app_2 = refl

resolved_until_next_release_example :
    let known = is_some (find_release 7 (codes "app@2") one_issue.releases) in
    let done = digest_reading 7 none reading (update_status 4 resolved true none one_issue).1 in
    (done.1.notified ≡ (if known then none else some regression))
    × (left : Issue) × (find_issue 7 (codes "h") done.0.issues ≡ some left)
    × (left.status ≡ (if known then resolved else codes "unresolved"))
    × (left.regressed_from_release_id ≡ (if known then none else some 1))
    × (done.0.notifications ≡ (
        if known
        then one_issue.notifications
        else record { project_id = 7; issue_id = 4; kind = codes "regression" }
          ∷ one_issue.notifications))
resolved_until_next_release_example =
    resolved_until_next_release 7 none none reading (codes "app@2") one_issue seen_once 1
      (omega arith, tt) (omega arith, tt) found newest_is_one e2_is_new of_app_2

is_ignored : IsIgnored 4 one_issue.issues
unfolding find_issue_id
is_ignored = (seen_once, refl, refl)

no_event_reopens_it_example :
    let after = digest_all ((7, none, reading) ∷ []) one_issue in
    IsIgnored 4 after.issues × (queued_for 4 after ≡ queued_for 4 one_issue)
no_event_reopens_it_example =
    no_event_reopens_it 4 ((7, none, reading) ∷ []) one_issue (omega arith, tt) is_ignored

abbrev query : IssueListQuery
query = record {
  status = some (codes "ignored");
  q = none;
  environment = none;
  tag = none;
  sort = none;
  limit = some 20;
  offset = none;
}

-- A database that finds every pattern.
abbrev ilike : Text → Text → Bool
ilike title pattern = true

latest_first : order_by none ≡ ok by_last_seen
unfolding order_by
latest_first = refl

pages_lem_example :
    let page = λ (o : ℕ).
      for_project ilike ((codes "shop", 7) ∷ []) (codes "shop") (at_offset o query) one_issue in
    let matching = filter (is_listed ilike 7 query none one_issue) one_issue.issues in
    (rows : List Issue) × (walk page (page_size (some 20)) 2
      ≡ ok (take (2 * page_size (some 20)) rows))
    × ((p : Issue → Bool) → count p rows ≡ count p matching)
    × IsOrdered by_last_seen rows
    × IsStrict by_last_seen rows
unfolding is_given_status parsed_tag find_project
pages_lem_example =
    pages_lem ilike ((codes "shop", 7) ∷ []) (codes "shop") query one_issue 7 by_last_seen none 2
      refl latest_first refl refl (omega arith, tt)
