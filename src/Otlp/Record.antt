-- ===== src/Otlp/Record.antt =====
-- The records that both readers make (ingest/otlp/mod.rs), and the floor below which they are dropped
-- (`is_error` of ingest/otlp/convert.rs).
use thermite_rs.Prelude.{
  Bool, List, Option, Text, [], codes, false, if◌then◌else◌, is_some, leb, map, negsuc, pos,
  text_eq, ℕ, ℤ, ◌||◌, ◌∷◌,
}
use thermite_rs.Json.{Fields, Value, end, field, lookup}

abbrev pub max_attributes : ℕ
max_attributes = 128

-- `map.insert(key, value)`. The entries stand in the order of their insertions, which nothing here reads.
unfoldable pub insert : Text → Value → Fields → Fields
unfolding text_eq
insert key value end = field key value end
insert key value (field k v fs) =
    let rest = insert key value fs in if text_eq k key then field k value fs else field k v rest

-- Collecting pairs into a map.
unfoldable pub collect_into : Fields → List (Text × Value) → Fields
unfolding insert
collect_into map [] = map
collect_into map ((key, value) ∷ pairs) = collect_into (insert key value map) pairs

-- A severity is an i32, a time a u64.
pub record Record : Type 0 where
  pub time_unix_nano : ℕ
  pub severity_number : ℤ
  pub body : Option Text
  pub attributes : Fields
  pub trace_id : Option Text
  pub span_id : Option Text

pub record Group : Type 0 where
  pub resource : Fields
  pub records : List Record

abbrev pub severity_error : ℕ
severity_error = 17

abbrev pub severity_fatal : ℕ
severity_fatal = 21

-- `severity >= n`, for a positive n.
abbrev pub at_least : ℕ → ℤ → Bool
at_least n (pos s) = leb n s
at_least n (negsuc s) = false

abbrev pub exception_type : Text
exception_type = codes "exception.type"

abbrev pub exception_message : Text
exception_message = codes "exception.message"

unfoldable pub is_error : Record → Bool
unfolding lookup
is_error r =
    at_least severity_error r.severity_number || is_some (lookup exception_type r.attributes)
