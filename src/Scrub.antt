-- ===== src/Scrub.antt =====
-- The scrubbing of crates/thermite-core/src/protocol/scrub.rs.
pub mod Denylist
pub mod Secrets
use thermite_rs.Prelude.{
  Bool, List, Text, [], any, codes, filter, if◌then◌else◌, map, not, ℕ, ◌++◌, ◌==◌, ◌||◌, ◌∷◌,
}
use thermite_rs.Strings.{ascii_lower, contains}
use thermite_rs.Json.{Fields, Items, Value, array, end, field, is_empty, item, nil, object, string}

abbrev pub filtered : Value
filtered = string (codes "[Filtered]")

abbrev pub default_denylist : List Text
default_denylist =
    codes "password"
    ∷ codes "passwd"
    ∷ codes "secret"
    ∷ codes "token"
    ∷ codes "api_key"
    ∷ codes "authorization"
    ∷ codes "cookie"
    ∷ codes "session"
    ∷ codes "credentials"
    ∷ codes "private_key"
    ∷ []

is_separator : ℕ → Bool
is_separator c = c == b'-' || (c == b'_' || c == b' ')

unfoldable pub normalize : Text → Text
unfolding is_separator ascii_lower
normalize [] = []
normalize (c ∷ cs) =
    let rest = normalize cs in if is_separator (ascii_lower c) then rest else ascii_lower c ∷ rest

-- A list of patterns, normalized, none empty.
abbrev pub ScrubList : Type 0
ScrubList = List Text

unfoldable pub new : List Text → ScrubList
unfolding normalize
new extra = filter (λ e. not (is_empty e)) (map normalize (default_denylist ++ extra))

unfoldable pub matches : ScrubList → Text → Bool
unfolding normalize contains
matches list key = any (λ entry. contains entry (normalize key)) list

-- The `if let` of the array arm: the second element of a pair with a matching key is replaced; for
-- any other item, `scrubbed` is what the recursive call makes of it.
scrub_pair : ScrubList → Value → Value → Value
scrub_pair list (array (item (string key) (item v nil))) scrubbed =
    if matches list key then array (item (string key) (item filtered nil)) else scrubbed
scrub_pair list v scrubbed = scrubbed

unfoldable mutual
  unfolding scrub_pair

  pub scrub : ScrubList → Value → Value
  scrub list (object map) = object (scrub_entries list map)
  scrub list (array items) = array (scrub_items list items)
  scrub list v = v

  pub scrub_items : ScrubList → Items → Items
  scrub_items list nil = nil
  scrub_items list (item v vs) = item (scrub_pair list v (scrub list v)) (scrub_items list vs)

  pub scrub_entries : ScrubList → Fields → Fields
  scrub_entries list end = end
  scrub_entries list (field key v fs) =
      field key (if matches list key then filtered else scrub list v) (scrub_entries list fs)
