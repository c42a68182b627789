-- ===== src/Ingest/Stored.antt =====
-- What the endpoints store is scrubbed.
use thermite_rs.Prelude.{
  ap, Bytes, Option, Result, codes, err, if_keeps, none, ok, refl, some, subst, sym, text_eq, ℕ,
  ◌≡◌,
}
use thermite_rs.Json.{Value, or_else}
use thermite_rs.Digest.Store.{Store}
use thermite_rs.Scrub.{scrub}
use thermite_rs.Sessions.Rollup.{Parsed}
use thermite_rs.Envelope.Parser.{Item, item_type}
use thermite_rs.Monitors.Tables.{CheckIn}
use thermite_rs.Ingest.Requests.{
  AppError, Config, Libraries, Project, Request, ThermiteState, admit, authorize, credential,
  decode_body, dsn_key_from_prefix, identify, record_outcome, refuse_exhausted, with_outcomes,
}
use thermite_rs.Ingest.Endpoints.{
  Flow, Progress, check_quota, digest_event, envelope_endpoint, handle_item, on_quota,
  record_check_in, record_session, serve_authorized, serve_body, store_body, store_checked,
  store_endpoint, store_identified, store_payload, with_monitors, with_sessions,
}
use thermite_rs.Ingest.Loop.{serve_body-keeps}
use thermite_rs.Ingest.Payloads.{
  IsScrubbed, Payloads, digest_payload-IsScrubbed, record_parsed-events,
}

module _ (lib : Libraries) (config : Config) (r : Request) (project : Project) where
  abbrev Clean : Progress → Type 0
  Clean p = IsScrubbed config p.state

  record_session-Clean :
      (parsed : Option Parsed) (p : Progress) → Clean p → Clean (record_session project parsed p)
  unfolding record_session with_sessions
  record_session-Clean parsed p h =
      subst (Payloads (λ v. scrub config.scrub_fields v ≡ v))
        (sym (record_parsed-events project.id parsed p.state.db.store p.state.db.session_counts)) h

  digest_event-Clean :
      (n : ℕ) (payload : Option Value) (p : Progress)
      → Clean p
      → Clean (digest_event lib config r project n payload p)
  unfolding digest_event
  digest_event-Clean n none p h = h
  digest_event-Clean n (some payload) p h =
      digest_payload-IsScrubbed lib config r project n payload p.state h

  check_in-Clean :
      (n : ℕ) (c : Option CheckIn) (p : Progress)
      → Clean p
      → Clean (record_check_in lib r project n c p).0
  unfolding record_check_in with_monitors
  check_in-Clean n none p h = h
  check_in-Clean n (some c) p h = h

  on_quota-Clean :
      (n : ℕ) (payload : Bytes) (p : Progress) (s : ThermiteState) (ran : Result ℕ (Unit {0}))
      → IsScrubbed config s
      → Clean (on_quota lib config r project n payload p (s, ran)).0
  unfolding on_quota with_outcomes
  on_quota-Clean n payload p s (ok _) h =
      digest_event-Clean n (lib.value_from_slice payload) (record p { state = s }) h
  on_quota-Clean n payload p s (err retry_after) h = h

  handle_item-Clean :
      (n : ℕ) (i : Item) (p : Progress) → Clean p → Clean (handle_item lib config r project n i p).0
  unfolding handle_item check_quota
  handle_item-Clean n i p h =
      let C = λ (d : Progress × Flow). Clean d.0 in
      let kind = item_type i in
      if_keeps C (text_eq kind (codes "check_in")) _ _
        (check_in-Clean n (lib.check_in_from_slice i.payload) p h)
        (if_keeps C (text_eq kind (codes "session")) _ _ (record_session-Clean _ p h) (
          if_keeps C (text_eq kind (codes "sessions")) _ _ (record_session-Clean _ p h) (
            if_keeps C (text_eq kind (codes "client_report")) _ _ h (
              if_keeps C (text_eq kind (codes "event")) _ _ (on_quota-Clean n i.payload p _ _ h)
                h))))

  serve_body-IsScrubbed :
      (body : Result AppError Bytes) (s : ThermiteState)
      → IsScrubbed config s
      → IsScrubbed config (serve_body lib config r project body s).0
  unfolding with_outcomes
  serve_body-IsScrubbed body s h =
      serve_body-keeps (IsScrubbed config) lib config r project handle_item-Clean (λ rows t k. k)
        body s h

refuse_exhausted-store :
    (project : Project) (wait : Option ℕ) (received_at : ℕ) (s : ThermiteState)
    → (refuse_exhausted project wait received_at s).0.db.store ≡ s.db.store
unfolding refuse_exhausted record_outcome with_outcomes
refuse_exhausted-store project none received_at s = refl
refuse_exhausted-store project (some n) received_at s = refl

pub admit-store :
    (found : Result AppError Project) (r : Request) (s : ThermiteState)
    → (admit found r s).0.db.store ≡ s.db.store
unfolding admit
admit-store (err e) r s = refl
admit-store (ok project) r s = refuse_exhausted-store project _ r.received_at s

serve_authorized-IsScrubbed :
    (lib : Libraries) (config : Config) (r : Request) (s : ThermiteState)
    (found : Result AppError Project)
    → IsScrubbed config s
    → IsScrubbed config (serve_authorized lib config r (s, found)).0
unfolding serve_authorized
serve_authorized-IsScrubbed lib config r s (err e) h = h
serve_authorized-IsScrubbed lib config r s (ok project) h =
    serve_body-IsScrubbed lib config r project (decode_body lib config r) s h

store_payload-IsScrubbed :
    (lib : Libraries) (config : Config) (r : Request) (project : Project) (payload : Option Value)
    (s : ThermiteState)
    → IsScrubbed config s
    → IsScrubbed config (store_payload lib config r project payload s).0
unfolding store_payload record_outcome with_outcomes
store_payload-IsScrubbed lib config r project none s h = h
store_payload-IsScrubbed lib config r project (some payload) s h =
    digest_payload-IsScrubbed lib config r project 1 payload s h

store_body-IsScrubbed :
    (lib : Libraries) (config : Config) (r : Request) (project : Project)
    (body : Result AppError Bytes) (s : ThermiteState)
    → IsScrubbed config s
    → IsScrubbed config (store_body lib config r project body s).0
unfolding store_body
store_body-IsScrubbed lib config r project (err e) s h = h
store_body-IsScrubbed lib config r project (ok body) s h =
    store_payload-IsScrubbed lib config r project (lib.value_from_slice body) s h

store_checked-IsScrubbed :
    (lib : Libraries) (config : Config) (r : Request) (project : Project) (s : ThermiteState)
    (ran : Result ℕ (Unit {0}))
    → IsScrubbed config s
    → IsScrubbed config (store_checked lib config r project (s, ran)).0
unfolding store_checked record_outcome with_outcomes
store_checked-IsScrubbed lib config r project s (err n) h = h
store_checked-IsScrubbed lib config r project s (ok _) h =
    store_body-IsScrubbed lib config r project (decode_body lib config r) s h

store_identified-IsScrubbed :
    (lib : Libraries) (config : Config) (r : Request) (found : Result AppError Project)
    (s : ThermiteState)
    → IsScrubbed config s
    → IsScrubbed config (store_identified lib config r found s).0
unfolding store_identified check_quota
store_identified-IsScrubbed lib config r (err e) s h = h
store_identified-IsScrubbed lib config r (ok project) s h =
    store_checked-IsScrubbed lib config r project _ _ h

-- The endpoints store only scrubbed payloads: if each payload of the events table is as scrubbing
-- leaves it, then so it is after a request to either endpoint, whatever the request carries and
-- however it ends.
pub no_secret_is_stored :
    (lib : Libraries) (config : Config) (r : Request) (s : ThermiteState)
    → IsScrubbed config s
    → IsScrubbed config (envelope_endpoint lib config r s).0
      × IsScrubbed config (store_endpoint lib config r s).0
unfolding envelope_endpoint authorize store_endpoint
no_secret_is_stored lib config r s h =
    let found =
      identify (or_else (credential r) (dsn_key_from_prefix lib config r)) r.project_id s.db.keys in
    let admitted = admit found r s in
    (
      serve_authorized-IsScrubbed lib config r admitted.0 admitted.1 (
          subst (Payloads (λ v. scrub config.scrub_fields v ≡ v))
            (ap (λ (st : Store). st.events) (sym (admit-store found r s))) h),
      store_identified-IsScrubbed lib config r (identify (credential r) r.project_id s.db.keys) s h,
    )
