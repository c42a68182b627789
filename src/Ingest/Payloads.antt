-- ===== src/Ingest/Payloads.antt =====
-- What a digest does to the payloads that are stored.
use thermite_rs.Digest.Recurrence.{resolved_issues}
use thermite_rs.Prelude.{All, List, Option, Text, none, refl, some, ℕ, ◌≡◌}
use thermite_rs.Json.{Value, non_empty}
use thermite_rs.Scrub.{scrub}
use thermite_rs.Scrub.Secrets.{scrub-scrub}
use thermite_rs.Digest.Store.{Store, Stored, resolve_given}
use thermite_rs.Digest.Events.{digest-events}
use thermite_rs.Sessions.Rollup.{Parsed, SessionCount, record_parsed, record_release}
use thermite_rs.Sessions.{Delta}
use thermite_rs.Ingest.Requests.{Config, Libraries, Project, Request, ThermiteState}
use thermite_rs.Ingest.Endpoints.{digest_payload, event_id, with_store}

-- The payloads of a list of events meet a predicate.
abbrev pub Payloads : (Value → Type 0) → List Stored → Type 0
Payloads Q es = All (λ (e : Stored). Q e.payload) es

-- Every stored payload is as scrubbing leaves it.
abbrev pub IsScrubbed : Config → ThermiteState → Type 0
IsScrubbed config s = Payloads (λ v. scrub config.scrub_fields v ≡ v) s.db.store.events

pub digest_payload-IsScrubbed :
    (lib : Libraries) (config : Config) (r : Request) (project : Project) (n : ℕ) (payload : Value)
    (s : ThermiteState)
    → IsScrubbed config s
    → IsScrubbed config (digest_payload lib config r project n payload s).0
unfolding digest_payload with_store
digest_payload-IsScrubbed lib config r project n payload s h =
    let clean = scrub config.scrub_fields payload in
    digest-events (Payloads (λ v. scrub config.scrub_fields v ≡ v)) lib.times lib.engine project.id
      project.component (event_id lib n clean) clean r.received_at s.db.store h
      (λ e q. (rw q (scrub-scrub config.scrub_fields payload), h))

record_release-events :
    (project_id : ℕ) (v : Option Text) (buckets : List (ℕ × Delta)) (st : Store)
    (cs : List SessionCount)
    → (record_release project_id v buckets st cs).0.events ≡ st.events
unfolding record_release resolve_given
record_release-events project_id none buckets st cs = refl
record_release-events project_id (some version) buckets st cs =
    (resolved_issues project_id (some version) st).1

pub record_parsed-events :
    (project_id : ℕ) (parsed : Option Parsed) (st : Store) (cs : List SessionCount)
    → (record_parsed project_id parsed st cs).0.events ≡ st.events
unfolding record_parsed
record_parsed-events project_id none st cs = refl
record_parsed-events project_id (some p) st cs =
    record_release-events project_id (non_empty p.release) p.buckets st cs
