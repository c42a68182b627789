-- ===== src/Ingest/Endpoints.antt =====
-- `envelope_endpoint`, `store_endpoint` and what they do with an item. Database errors are left out; a
-- panic of a check-in's schedule ends the request where it stands.
use thermite_rs.Prelude.{
  Bytes, List, Option, Result, Text, [], codes, err, if◌then◌else◌, none, ok, some, text_eq, ℕ, ◌+◌,
  ◌∷◌,
}
use thermite_rs.Json.{Value, and_then, as_str, get, unwrap_or}
use thermite_rs.Envelope.Parser.{Envelope, Item, ParseError, item_type, parse}
use thermite_rs.RateLimit.{check_at}
use thermite_rs.Outcomes.{
  Counts, accepted, bump, bump_unsupported, invalid, over_quota, record_client_report,
}
use thermite_rs.Scrub.{scrub}
use thermite_rs.Sessions.Rollup.{
  Parsed, SessionCount, parse_aggregates, parse_session, record_parsed,
}
use thermite_rs.Monitors.Schedule.{Ran, panics, returns}
use thermite_rs.Monitors.Tables.{CheckIn, Tables, record_check_in as record_run}
use thermite_rs.Digest.Store.{Store}
use thermite_rs.Digest.Steps.{digest}
use thermite_rs.Ingest.Requests.{
  AppError, Config, Libraries, Project, Request, ThermiteState, authorize, bad_envelope,
  bad_payload, bad_request, credential, decode_body, flush, identify, rate_limited, record_outcome,
  with_outcomes,
}

-- `event::event_id`, with the id that would be made.
unfoldable pub event_id : Libraries → ℕ → Value → Text
unfolding get
event_id lib n event =
    unwrap_or (and_then (and_then (get (codes "event_id") event) as_str) lib.parse_uuid)
      (lib.new_uuid n)

unfoldable pub with_store : Store → ThermiteState → ThermiteState
with_store store s = record s { db = record s.db { store = store } }

-- Scrub, then digest; the answer is the event's id.
unfoldable pub digest_payload :
    Libraries → Config → Request → Project → ℕ → Value → ThermiteState → ThermiteState × Text
unfolding scrub digest event_id with_store
digest_payload lib config r project n payload s =
    let clean = scrub config.scrub_fields payload in
    let id = event_id lib n clean in
    (
      with_store
          (digest lib.times lib.engine project.id project.component id clean r.received_at
            s.db.store).0
          s,
      id,
    )

-- What the loop over the items carries: the state, the counters, and the id to answer.
pub record Progress : Type 0 where
  pub state : ThermiteState
  pub counts : Counts
  pub response_id : Option Text

unfoldable pub digest_event :
    Libraries → Config → Request → Project → ℕ → Option Value → Progress → Progress
unfolding digest_payload bump
digest_event lib config r project n none p = record p { counts = bump invalid p.counts }
digest_event lib config r project n (some payload) p =
    let done = digest_payload lib config r project n payload p.state in
    record { state = done.0; counts = bump accepted p.counts; response_id = some done.1 }

-- At a reading of the clock.
unfoldable pub check_quota : ℕ → ℕ → Request → ThermiteState → ThermiteState × Result ℕ (Unit {0})
unfolding check_at
check_quota project_id n r s =
    let checked = check_at s.rate_limiter project_id (r.unix_now n) in
    (record s { rate_limiter = checked.0 }, checked.1)

unfoldable pub with_sessions : Store × List SessionCount → ThermiteState → ThermiteState
with_sessions t s = record s { db = record s.db { store = t.0; session_counts = t.1 } }

-- `sessions::record`.
unfoldable pub record_session : Project → Option Parsed → Progress → Progress
unfolding record_parsed with_sessions
record_session project parsed p = record p {
  state =
      with_sessions (record_parsed project.id parsed p.state.db.store p.state.db.session_counts)
        p.state;
}

unfoldable pub with_monitors : Tables → Progress → Progress
with_monitors t p = record p { state = record p.state { db = record p.state.db { monitors = t } } }

-- `record_check_in`.
unfoldable pub record_check_in :
    Libraries → Request → Project → ℕ → Option CheckIn → Progress → Progress × Ran (Unit {0})
unfolding record_run with_monitors bump
record_check_in lib r project n none p = (record p { counts = bump invalid p.counts }, returns tt)
record_check_in lib r project n (some c) p =
    let done =
      record_run lib.calendar (lib.new_uuid n) project.id c r.received_at p.state.db.monitors in
    (with_monitors done.1 p, elim done.0 [ returns _ ↦ returns tt | panics ↦ panics ])

-- How an item leaves the loop: on to the next, or out of the request.
pub data Flow : Type 0 where
  goes_on : Flow
  fails : AppError → Flow
  dies : Flow

abbrev flow_of : Ran (Unit {0}) → Flow
flow_of (returns _) = goes_on
flow_of panics = dies

-- An event costs one unit of quota; without it, the counts are flushed and the request ends.
unfoldable pub on_quota :
    Libraries
    → Config
    → Request
    → Project
    → ℕ
    → Bytes
    → Progress
    → ThermiteState × Result ℕ (Unit {0})
    → Progress × Flow
unfolding digest_event bump flush with_outcomes
on_quota lib config r project n payload p (s, ok _) = (
  digest_event lib config r project n (lib.value_from_slice payload) (record p { state = s }),
  goes_on,
)
on_quota lib config r project n payload p (s, err retry_after) =
    let counts = bump over_quota p.counts in
    (
      record p {
        state = with_outcomes (flush project.id r.received_at counts s.db.outcomes) s;
        counts = counts;
      },
      fails (rate_limited retry_after),
    )

-- The arms of the `match` on the item's type. `n` numbers the ids that are made.
unfoldable pub handle_item :
    Libraries → Config → Request → Project → ℕ → Item → Progress → Progress × Flow
unfolding record_check_in record_session parse_session parse_aggregates record_client_report
    bump_unsupported on_quota check_quota item_type text_eq
handle_item lib config r project n it p =
    let kind = item_type it in
    if text_eq kind (codes "check_in")
    then (let done = record_check_in lib r project n (lib.check_in_from_slice it.payload) p in
        (done.0, flow_of done.1))
    else if text_eq kind (codes "session")
    then (
      record_session project
          (parse_session lib.times r.received_at (lib.sessions.session_from_slice it.payload)) p,
      goes_on,
    )
    else if text_eq kind (codes "sessions")
    then (
      record_session project
          (parse_aggregates lib.times r.received_at (lib.sessions.aggregates_from_slice it.payload))
          p,
      goes_on,
    )
    else if text_eq kind (codes "client_report")
    then (
      record p { counts = record_client_report (lib.report_from_slice it.payload) p.counts },
      goes_on,
    )
    else if text_eq kind (codes "event")
    then on_quota lib config r project n it.payload p (check_quota project.id n r p.state)
    else (record p { counts = bump_unsupported kind p.counts }, goes_on)

-- The loop.
unfoldable pub handle_items :
    Libraries → Config → Request → Project → ℕ → List Item → Progress → Progress × Flow
unfolding handle_item
handle_items lib config r project n [] p = (p, goes_on)
handle_items lib config r project n (i ∷ is) p =
    let done = handle_item lib config r project n i p in
    elim done.1 [
      | goes_on ↦ handle_items lib config r project (n + 1) is done.0
      | fails e ↦ (done.0, fails e)
      | dies ↦ (done.0, dies)
    ]

abbrev Answer : Type 0
Answer = Ran (Result AppError Text)

-- `accepted`.
abbrev accepted_id : Libraries → Option Text → Text
accepted_id lib id = unwrap_or id (lib.new_uuid 0)

unfoldable pub finish_request :
    Libraries → Request → Project → Progress × Flow → ThermiteState × Answer
unfolding flush with_outcomes
finish_request lib r project (p, goes_on) = (
  with_outcomes (flush project.id r.received_at p.counts p.state.db.outcomes) p.state,
  returns (ok (accepted_id lib p.response_id)),
)
finish_request lib r project (p, fails e) = (p.state, returns (err e))
finish_request lib r project (p, dies) = (p.state, panics)

abbrev pub first_progress : Libraries → Envelope → ThermiteState → Progress
first_progress lib e s = record {
  state = s;
  counts = [];
  response_id = and_then e.headers.event_id lib.parse_uuid;
}

unfoldable pub serve_envelope :
    Libraries → Config → Request → Project → Envelope → ThermiteState → ThermiteState × Answer
unfolding handle_items finish_request
serve_envelope lib config r project e s =
    finish_request lib r project
      (handle_items lib config r project 1 e.items (first_progress lib e s))

-- The parser always has fuel enough; the first case is never met.
unfoldable pub serve_parsed :
    Libraries
    → Config
    → Request
    → Project
    → Option (Result ParseError Envelope)
    → ThermiteState
    → ThermiteState × Answer
unfolding serve_envelope
serve_parsed lib config r project none s = (s, panics)
serve_parsed lib config r project (some (err e)) s =
    (s, returns (err (bad_request (bad_envelope e))))
serve_parsed lib config r project (some (ok e)) s = serve_envelope lib config r project e s

unfoldable pub serve_body :
    Libraries
    → Config
    → Request
    → Project
    → Result AppError Bytes
    → ThermiteState
    → ThermiteState × Answer
unfolding serve_parsed parse
serve_body lib config r project (err e) s = (s, returns (err e))
serve_body lib config r project (ok body) s =
    serve_parsed lib config r project (parse lib.codec body) s

unfoldable pub serve_authorized :
    Libraries → Config → Request → ThermiteState × Result AppError Project → ThermiteState × Answer
unfolding serve_body decode_body
serve_authorized lib config r (s, err e) = (s, returns (err e))
serve_authorized lib config r (s, ok project) =
    serve_body lib config r project (decode_body lib config r) s

unfoldable pub envelope_endpoint :
    Libraries → Config → Request → ThermiteState → ThermiteState × Answer
unfolding serve_authorized authorize
envelope_endpoint lib config r s = serve_authorized lib config r (authorize lib config r s)

unfoldable pub store_payload :
    Libraries
    → Config
    → Request
    → Project
    → Option Value
    → ThermiteState
    → ThermiteState × Result AppError Text
unfolding digest_payload record_outcome
store_payload lib config r project none s =
    (record_outcome project.id invalid r.received_at s, err (bad_request bad_payload))
store_payload lib config r project (some payload) s =
    let done = digest_payload lib config r project 1 payload s in
    (record_outcome project.id accepted r.received_at done.0, ok done.1)

unfoldable pub store_body :
    Libraries
    → Config
    → Request
    → Project
    → Result AppError Bytes
    → ThermiteState
    → ThermiteState × Result AppError Text
unfolding store_payload
store_body lib config r project (err e) s = (s, err e)
store_body lib config r project (ok body) s =
    store_payload lib config r project (lib.value_from_slice body) s

unfoldable pub store_checked :
    Libraries
    → Config
    → Request
    → Project
    → ThermiteState × Result ℕ (Unit {0})
    → ThermiteState × Result AppError Text
unfolding store_body decode_body record_outcome
store_checked lib config r project (s, err retry_after) =
    (record_outcome project.id over_quota r.received_at s, err (rate_limited retry_after))
store_checked lib config r project (s, ok _) =
    store_body lib config r project (decode_body lib config r) s

unfoldable pub store_identified :
    Libraries
    → Config
    → Request
    → Result AppError Project
    → ThermiteState
    → ThermiteState × Result AppError Text
unfolding store_checked check_quota
store_identified lib config r (err e) s = (s, err e)
store_identified lib config r (ok project) s =
    store_checked lib config r project (check_quota project.id 1 r s)

unfoldable pub store_endpoint :
    Libraries → Config → Request → ThermiteState → ThermiteState × Result AppError Text
unfolding store_identified identify credential
store_endpoint lib config r s =
    store_identified lib config r (identify (credential r) r.project_id s.db.keys) s
