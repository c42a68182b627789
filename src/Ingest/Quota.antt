-- ===== src/Ingest/Quota.antt =====
-- How many events a request can store.
use thermite_rs.Prelude.{
  if◌then◌else◌, Bytes, Option, Result, ap, arith, codes, err, if_keeps, length, none, ok, refl,
  some, sym, subst, text_eq, ℕ, ◌+◌, ◌/◌, ◌<◌, ◌^◌, ◌≡◌, ◌≤◌, ◌∙◌,
}
use thermite_rs.Json.{Value}
use thermite_rs.RateLimit.{RateLimiter, Window, check_at, exhausted_at}
use thermite_rs.RateLimit.Quota.{
  WindowFits, admits, check_at-Fits, check_at-per_minute, check_at-used, used-le, used_in,
}
use thermite_rs.Sessions.Rollup.{Parsed}
use thermite_rs.Scrub.{scrub}
use thermite_rs.Envelope.Parser.{Item, item_type}
use thermite_rs.Monitors.Tables.{CheckIn}
use thermite_rs.Ingest.Requests.{
  admit, authorize, credential, decode_body, dsn_key_from_prefix, identify, record_outcome,
  refuse_exhausted, Config, Libraries, Project, Request, ThermiteState, AppError, with_outcomes,
}
use thermite_rs.Ingest.Endpoints.{
  envelope_endpoint, serve_authorized, Flow, Progress, check_quota, digest_event, digest_payload,
  event_id, handle_item, on_quota, record_check_in, record_session, serve_body, with_monitors,
  with_sessions, with_store,
}
use thermite_rs.Ingest.Loop.{serve_body-keeps}
use thermite_rs.Json.{or_else}
use thermite_rs.Digest.Events.{digest-events}
use thermite_rs.Ingest.Payloads.{record_parsed-events}

-- What the project has used of its quota in the request's minute.
abbrev pub used : Project → Request → ThermiteState → ℕ
used project r s = used_in (s.rate_limiter.windows project.id) (r.unix_now 0 / 60)

abbrev pub stored : ThermiteState → ℕ
stored s = length s.db.store.events

-- The limiter holds a limit, and its window for the project is one that it can come to.
abbrev Limited : ℕ → Project → Request → ThermiteState → Type 0
Limited limit project r s =
    (s.rate_limiter.per_minute ≡ some limit)
    × WindowFits limit (r.unix_now 0) (s.rate_limiter.windows project.id)

digest_payload-stored :
    (lib : Libraries) (config : Config) (r : Request) (project : Project) (n : ℕ) (payload : Value)
    (s : ThermiteState)
    → stored (digest_payload lib config r project n payload s).0 ≤ stored s + 1
unfolding digest_payload with_store
digest_payload-stored lib config r project n payload s =
    let clean = scrub config.scrub_fields payload in
    digest-events (λ es. length es ≤ stored s + 1) lib.times lib.engine project.id project.component
      (event_id lib n clean) clean r.received_at s.db.store (omega arith) (λ e q. omega arith)

-- All readings of the clock fall in one minute.
abbrev pub WithinMinute : Request → Type 0
WithinMinute r = (n : ℕ) → r.unix_now n / 60 ≡ r.unix_now 0 / 60

WindowFits-minute :
    (limit t u : ℕ) (w : Option Window)
    → t / 60 ≡ u / 60
    → WindowFits limit t w
    → WindowFits limit u w
WindowFits-minute limit t u none e f = tt
WindowFits-minute limit t u (some w) e f = (f.0, omega (arith, e, f.1))

module _ (limit : ℕ) (small : limit < 2 ^ 32) (lib : Libraries) (config : Config) (r : Request)
    (project : Project) (s0 : ThermiteState) (within_minute : WithinMinute r) where
  -- Since `s0`, no more events are stored than units of quota are used.
  abbrev Paid : ThermiteState → Type 0
  Paid s = Limited limit project r s × (stored s + used project r s0 ≤ stored s0 + used project r s)

  record_session-Paid :
      (parsed : Option Parsed) (p : Progress)
      → Paid p.state
      → Paid (record_session project parsed p).state
  unfolding record_session with_sessions
  record_session-Paid parsed p (l, h) = (
    l,
    omega (
      arith,
      ap length (record_parsed-events project.id parsed p.state.db.store p.state.db.session_counts),
    ),
  )

  check_in-Paid :
      (n : ℕ) (c : Option CheckIn) (p : Progress)
      → Paid p.state
      → Paid (record_check_in lib r project n c p).0.state
  unfolding record_check_in with_monitors
  check_in-Paid n none p h = h
  check_in-Paid n (some c) p h = h

  digest_event-stored :
      (n : ℕ) (payload : Option Value) (p : Progress)
      → stored (digest_event lib config r project n payload p).state ≤ stored p.state + 1
  unfolding digest_event
  digest_event-stored n none p = omega arith
  digest_event-stored n (some payload) p =
      digest_payload-stored lib config r project n payload p.state

  digest_event-limiter :
      (n : ℕ) (payload : Option Value) (p : Progress)
      → (digest_event lib config r project n payload p).state.rate_limiter ≡ p.state.rate_limiter
  unfolding digest_event digest_payload with_store
  digest_event-limiter n none p = refl
  digest_event-limiter n (some payload) p = refl

  quota_used :
      (n : ℕ) (s : ThermiteState)
      → Limited limit project r s
      → let checked = check_quota project.id n r s in
        Limited limit project r checked.0
        × (used project r checked.0 ≡ (if admits checked.1 then 1 else 0) + used project r s)
  unfolding check_quota
  quota_used n s (per, fits) =
      let l = s.rate_limiter in
      let p = project.id in
      let first = r.unix_now 0 in
      let now = r.unix_now n in
      let e = within_minute n in
      let again : now ≤ now = omega arith in
      let minute : now / 60 ≤ first / 60 = omega (arith, e) in
      let fits_now = WindowFits-minute limit first now (l.windows p) (sym e) fits in
      (
        (
          check_at-per_minute limit small l p now ∙ per,
          WindowFits-minute limit now first ((check_at l p now).0.windows p) e
              (check_at-Fits limit small l p p now now per again fits_now),
        ),
        ground (
          arith,
          e,
          check_at-used limit small l p p now now (first / 60) per again minute fits_now,
        ),
      )

  with_quota-Paid :
      (n : ℕ) (payload : Bytes) (p : Progress) (s : ThermiteState) (ran : Result ℕ (Unit {0}))
      → Limited limit project r s
      → used project r s ≡ (if admits ran then 1 else 0) + used project r p.state
      → stored s ≡ stored p.state
      → Paid p.state
      → Paid (on_quota lib config r project n payload p (s, ran)).0.state
  unfolding on_quota with_outcomes
  with_quota-Paid n payload p s (ok _) l u e h =
      let value = lib.value_from_slice payload in
      let q : Progress = record p { state = s } in
      let same = digest_event-limiter n value q in
      let kept : Limited limit project r (digest_event lib config r project n value q).state =
        subst
          (λ (m : RateLimiter).
            (m.per_minute ≡ some limit) × WindowFits limit (r.unix_now 0) (m.windows project.id))
          (sym same) l in
      (
        kept,
        omega (
          arith,
          digest_event-stored n value q,
          ap (λ (m : RateLimiter). used_in (m.windows project.id) (r.unix_now 0 / 60)) same,
        ),
      )
  with_quota-Paid n payload p s (err retry_after) l u e h = (l, omega arith)

  on_quota-Paid :
      (n : ℕ) (payload : Bytes) (p : Progress)
      → Paid p.state
      → Paid
          (on_quota lib config r project n payload p (check_quota project.id n r p.state)).0.state
  unfolding check_quota
  on_quota-Paid n payload p h =
      let checked = quota_used n p.state h.0 in
      with_quota-Paid n payload p _ _ checked.0 checked.1 refl h

  handle_item-Paid :
      (n : ℕ) (i : Item) (p : Progress)
      → Paid p.state
      → Paid (handle_item lib config r project n i p).0.state
  unfolding handle_item
  handle_item-Paid n i p h =
      let C = λ (d : Progress × Flow). Paid d.0.state in
      let kind = item_type i in
      if_keeps C (text_eq kind (codes "check_in")) _ _
        (check_in-Paid n (lib.check_in_from_slice i.payload) p h)
        (if_keeps C (text_eq kind (codes "session")) _ _ (record_session-Paid _ p h) (
          if_keeps C (text_eq kind (codes "sessions")) _ _ (record_session-Paid _ p h) (
            if_keeps C (text_eq kind (codes "client_report")) _ _ h
              (if_keeps C (text_eq kind (codes "event")) _ _ (on_quota-Paid n i.payload p h) h))))

  serve_body-Paid :
      (body : Result AppError Bytes) (s : ThermiteState)
      → Paid s
      → Paid (serve_body lib config r project body s).0
  unfolding with_outcomes
  serve_body-Paid body s h =
      serve_body-keeps Paid lib config r project handle_item-Paid (λ rows t k. k) body s h

within :
    (limit : ℕ) (project : Project) (r : Request) (s : ThermiteState)
    → limit < 2 ^ 32
    → Limited limit project r s
    → used project r s ≤ limit
within limit project r s small l =
    used-le limit small (s.rate_limiter.windows project.id) (r.unix_now 0) (r.unix_now 0 / 60) l.1

admitted-stored :
    (limit : ℕ) (lib : Libraries) (config : Config) (r : Request) (project : Project)
    (s : ThermiteState) (wait : Option ℕ)
    → limit < 2 ^ 32
    → WithinMinute r
    → Limited limit project r s
    → stored (serve_authorized lib config r (refuse_exhausted project wait r.received_at s)).0
        + used project r s
      ≤ stored s + limit
unfolding serve_authorized refuse_exhausted record_outcome with_outcomes
admitted-stored limit lib config r project s none small w l =
    let paid =
      serve_body-Paid limit small lib config r project s w (decode_body lib config r) s
        (l, omega arith) in
    omega (
      arith,
      paid.1,
      within limit project r (serve_body lib config r project (decode_body lib config r) s).0 small
          paid.0,
    )
admitted-stored limit lib config r project s (some wait) small w l =
    omega (arith, within limit project r s small l)

-- When all of a request's readings of the clock fall in one minute, its envelope stores at most as many
-- events as the quota that its project has left in the minute, however many it carries and however the
-- request ends: the events stored, and the units that were used before, are together at most the
-- limit. The limiter's window is to be one that the limiter can come to: its count within the limit,
-- its minute not a later one.
pub quota_bounds_an_envelope :
    (limit : ℕ) (lib : Libraries) (config : Config) (r : Request) (s : ThermiteState)
    (project : Project)
    → limit < 2 ^ 32
    → identify (or_else (credential r) (dsn_key_from_prefix lib config r)) r.project_id s.db.keys
      ≡ ok project
    → WithinMinute r
    → Limited limit project r s
    → stored (envelope_endpoint lib config r s).0 + used project r s ≤ stored s + limit
unfolding envelope_endpoint authorize admit
quota_bounds_an_envelope limit lib config r s project small e w l = rw e (
    admitted-stored limit lib config r project s
      (exhausted_at s.rate_limiter project.id (r.unix_now 0)) small w l)
