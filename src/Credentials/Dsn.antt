-- ===== src/Credentials/Dsn.antt =====
-- `Config::dsn` of the server, and `Dsn::parse` of the SDK.
use thermite_rs.Prelude.{
  Bool, List, Option, Result, Text, [], codes, err, if◌then◌else◌, none, not, ok, pos, some, suc,
  text_eq, ℕ, ℤ, ◌++◌, ◌||◌, ◌∷◌,
}
use thermite_rs.Strings.{str_trim}
use thermite_rs.Strings.Split.{rsplit_once, split_on, split_once, trim_end_matches}
use thermite_rs.Json.{is_empty}
use thermite_rs.Strings.Decimal.{parse_i64, to_string}

-- The two arms, of a base URL with and without a scheme.
dsn_of : Option (Text × Text) → Text → Text → ℕ → Text
dsn_of (some (scheme, rest)) base_url public_key project_id =
    scheme ++ (codes "://" ++ (public_key ++ (b'@' ∷ (rest ++ (b'/' ∷ to_string project_id)))))
dsn_of none base_url public_key project_id = base_url ++ (b'/' ∷ to_string project_id)

-- `Config::dsn`. Ids are positive keys of the table.
unfoldable pub dsn : Text → Text → ℕ → Text
unfolding dsn_of split_once
dsn base_url public_key project_id =
    dsn_of (split_once (codes "://") base_url) base_url public_key project_id

pub record Dsn : Type 0 where
  pub public_key : Text
  pub project_id : ℕ
  pub ingest_url : Text
  pub raw : Text

pub data DsnError : Type 0 where
  no_scheme : DsnError
  unsupported_scheme : Text → DsnError
  no_public_key no_host no_project_id : DsnError

abbrev pub is_supported : Text → Bool
is_supported scheme = text_eq scheme (codes "http") || text_eq scheme (codes "https")

-- `project.parse::<i64>()`, which must be positive.
unfoldable pub project_of : Option ℤ → Result DsnError ℕ
project_of (some (pos (suc n))) = ok (suc n)
project_of _ = err no_project_id

unfoldable pub first_part : List Text → Text
first_part [] = []
first_part (p ∷ ps) = p

unfoldable pub ingest_url_of : Text → Text → ℕ → Text → Text
ingest_url_of scheme host_and_path project_id public_key =
    scheme
    ++ (codes "://"
        ++ (host_and_path
            ++ (codes "/api/"
                ++ (to_string project_id ++ (codes "/envelope/?sentry_key=" ++ public_key)))))

unfoldable pub with_project : Text → Text → Text → Text → Result DsnError ℕ → Result DsnError Dsn
unfolding ingest_url_of
with_project raw scheme public_key host_and_path (err e) = err e
with_project raw scheme public_key host_and_path (ok project_id) = ok (record {
  public_key = public_key;
  project_id = project_id;
  ingest_url = ingest_url_of scheme host_and_path project_id public_key;
  raw = raw;
})

-- From the host on.
unfoldable pub with_host : Text → Text → Text → Option (Text × Text) → Result DsnError Dsn
unfolding with_project project_of parse_i64
with_host raw scheme public_key none = err no_project_id
with_host raw scheme public_key (some (host_and_path, project)) =
    if is_empty host_and_path
    then err no_host
    else with_project raw scheme public_key host_and_path (project_of (parse_i64 project))

-- From the user information on.
unfoldable pub with_userinfo : Text → Text → Option (Text × Text) → Result DsnError Dsn
unfolding with_host first_part split_on rsplit_once trim_end_matches
with_userinfo raw scheme none = err no_public_key
with_userinfo raw scheme (some (userinfo, host_path)) =
    let public_key = first_part (split_on b':' userinfo) in
    if is_empty public_key
    then err no_public_key
    else with_host raw scheme public_key (rsplit_once b'/' (trim_end_matches b'/' host_path))

unfoldable pub with_scheme : Text → Option (Text × Text) → Result DsnError Dsn
unfolding with_userinfo split_once text_eq
with_scheme raw none = err no_scheme
with_scheme raw (some (scheme, rest)) =
    if not (is_supported scheme)
    then err (unsupported_scheme scheme)
    else with_userinfo raw scheme (split_once (b'@' ∷ []) rest)

-- `Dsn::parse`, behind `raw.trim()`.
unfoldable pub parse_dsn : Text → Result DsnError Dsn
unfolding with_scheme str_trim split_once
parse_dsn given = let raw = str_trim given in with_scheme raw (split_once (codes "://") raw)
