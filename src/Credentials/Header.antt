-- ===== src/Credentials/Header.antt =====
-- `parse_sentry_auth` and `sentry_key_from_auth_header`.
use mathlib.Core.Option
use thermite_rs.Prelude.{List, Option, Text, [], codes, if◌then◌else◌, none, some, text_eq, ◌∷◌}
use thermite_rs.Json.{non_empty}
use thermite_rs.Strings.{str_trim}
use thermite_rs.Strings.Split.{split_on, split_once, strip_prefix}

abbrev pub scheme : Text
scheme = codes "Sentry "

abbrev trim_both : Text × Text → Text × Text
trim_both (k, v) = (str_trim k, str_trim v)

-- One piece between commas.
unfoldable pub parse_pair : Text → Option (Text × Text)
unfolding str_trim split_once
parse_pair pair = Option.map trim_both (split_once (b'=' ∷ []) (str_trim pair))

-- `filter_map`.
unfoldable pub parse_pairs : List Text → List (Text × Text)
unfolding parse_pair
parse_pairs [] = []
parse_pairs (p ∷ ps) =
    let rest = parse_pairs ps in elim (parse_pair p) [ none ↦ rest | some kv ↦ kv ∷ rest ]

abbrev pairs_behind : Option Text → List (Text × Text)
pairs_behind none = []
pairs_behind (some pairs) = parse_pairs (split_on b',' pairs)

unfoldable pub parse_sentry_auth : Text → List (Text × Text)
unfolding strip_prefix parse_pairs split_on
parse_sentry_auth value = pairs_behind (strip_prefix scheme value)

abbrev pub sentry_key : Text
sentry_key = codes "sentry_key"

-- The first value of a key.
find_value : Text → List (Text × Text) → Option Text
unfolding text_eq
find_value key [] = none
find_value key ((k, v) ∷ kvs) =
    let later = find_value key kvs in if text_eq k key then some v else later

unfoldable pub sentry_key_from_auth_header : Text → Option Text
unfolding parse_sentry_auth find_value
sentry_key_from_auth_header value = non_empty (find_value sentry_key (parse_sentry_auth value))
