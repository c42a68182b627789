-- ===== src/Ingest/Refusals.antt =====
-- Requests that are refused before any work on their body.
use thermite_rs.Prelude.{
  Bool, List, Option, Text, [], any, arith, codes, err, false, none, refl, some, ℕ, ◌==◌, ◌∷◌, ◌≡◌,
}
use thermite_rs.Monitors.Schedule.{returns}
use thermite_rs.Json.{or_else}
use thermite_rs.Ingest.Requests.{
  Config, Libraries, ProjectKey, Request, ThermiteState, admit, authenticate, authorize, credential,
  dsn_key_from_prefix, identify, unauthorized,
}
use thermite_rs.Ingest.Endpoints.{
  envelope_endpoint, serve_authorized, store_endpoint, store_identified,
}

abbrev knows : ℕ → List ProjectKey → Bool
knows project_id keys = any (λ (k : ProjectKey). k.project_id == project_id) keys

authenticate_unknown :
    (project_id : ℕ) (key : Text) (keys : List ProjectKey)
    → knows project_id keys ≡ false
    → authenticate project_id key keys
      ≡ err (unauthorized (codes "invalid project id or sentry_key"))
unfolding authenticate
authenticate_unknown project_id key [] h = refl
authenticate_unknown project_id key (k ∷ ks) h =
    ground (arith, authenticate_unknown project_id key ks)

identify_unknown :
    (key : Option Text) (project_id : ℕ) (keys : List ProjectKey)
    → knows project_id keys ≡ false
    → (why : Text) × (identify key project_id keys ≡ err (unauthorized why))
unfolding identify
identify_unknown none project_id keys h = (codes "missing sentry_key", refl)
identify_unknown (some key) project_id keys h =
    (codes "invalid project id or sentry_key", authenticate_unknown project_id key keys h)

-- A request for a project that no key belongs to is refused as unauthorized by both endpoints, whatever
-- it carries, and changes nothing: no quota, no counter, no table.
pub unknown_project_is_refused :
    (lib : Libraries) (config : Config) (r : Request) (s : ThermiteState)
    → knows r.project_id s.db.keys ≡ false
    → ((why : Text) × (envelope_endpoint lib config r s ≡ (s, returns (err (unauthorized why)))))
      × ((why : Text) × (store_endpoint lib config r s ≡ (s, err (unauthorized why))))
unfolding envelope_endpoint authorize admit serve_authorized store_endpoint store_identified
unknown_project_is_refused lib config r s h =
    let (why, e) =
      identify_unknown (or_else (credential r) (dsn_key_from_prefix lib config r)) r.project_id
        s.db.keys h in
    let (why', e') = identify_unknown (credential r) r.project_id s.db.keys h in
    ((why, rw e refl), (why', rw e' refl))
