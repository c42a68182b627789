-- ===== src/Otlp/Json.antt =====
-- ingest/otlp/json.rs: the reader of a body in JSON.
use thermite_rs.Prelude.{
  Bool, Bytes, List, Option, Result, Text, [], codes, err, if◌then◌else◌, leb, ltb, negsuc, none,
  not, ok, pos, some, suc, take, text_eq, true, zero, ℕ, ℤ, ◌%◌, ◌&&◌, ◌++◌, ◌+◌, ◌-◌, ◌==◌, ◌^◌,
  ◌||◌, ◌∷◌,
}
use thermite_rs.Strings.{str_trim}
use thermite_rs.Strings.Decimal.{parse_i64, parse_u64}
use thermite_rs.Strings.Split.{strip_prefix}
use thermite_rs.Json.{
  Fields, Value, and_then, as_array, as_str, end, get, is_empty, number, or_else, pointer, string,
  unwrap_or,
}
use thermite_rs.Otlp.Record.{Group, Record, collect_into, max_attributes}
use thermite_rs.Otlp.Proto.{filter_map, int_value, mapped}

-- What a number reads as, and the text of a value that is not a string.
pub record Numbers : Type 0 where
  pub as_i64 : Text → Option ℤ
  pub as_u64 : Text → Option ℕ
  pub render : Value → Text

pub data JsonError : Type 0 where
  malformed_json : JsonError
  too_many : ℕ → JsonError

-- `array`: the elements under a key, none of them if there is no array.
unfoldable pub array_at : Text → Value → List Value
unfolding get as_array
array_at key value = unwrap_or (and_then (get key value) as_array) []

-- `as i32`, of an i64.
unfoldable pub as_i32 : ℤ → ℤ
as_i32 (pos n) = let m = n % 2 ^ 32 in if ltb m (2 ^ 31) then pos m else negsuc (2 ^ 32 - 1 - m)
as_i32 (negsuc n) = let m = n % 2 ^ 32 in if ltb m (2 ^ 31) then negsuc m else pos (2 ^ 32 - 1 - m)

-- `strip_suffix(['2', '3', '4'])`, with how far the digit stands above 1.
unfoldable pub level_and_offset : Text → Text × ℕ
level_and_offset [] = ([], 0)
level_and_offset (c ∷ []) = if leb b'2' c && leb c b'4' then ([], c - b'1') else (c ∷ [], 0)
level_and_offset (c ∷ d ∷ cs) = let rest = level_and_offset (d ∷ cs) in (c ∷ rest.0, rest.1)

unfoldable pub base_of_level : Text → Option ℕ
unfolding text_eq
base_of_level level =
    if text_eq level (codes "TRACE")
    then some 1
    else if text_eq level (codes "DEBUG")
    then some 5
    else if text_eq level (codes "INFO")
    then some 9
    else if text_eq level (codes "WARN")
    then some 13
    else if text_eq level (codes "ERROR")
    then some 17
    else if text_eq level (codes "FATAL")
    then some 21
    else none

unfoldable pub severity_of_rest : Option Text → ℕ
unfolding level_and_offset base_of_level
severity_of_rest none = 0
severity_of_rest (some rest) = elim (base_of_level (level_and_offset rest).0) [
  | none ↦ 0
  | some base ↦ base + (level_and_offset rest).1
]

unfoldable pub severity_from_name : Text → ℕ
unfolding severity_of_rest strip_prefix
severity_from_name name = severity_of_rest (strip_prefix (codes "SEVERITY_NUMBER_") name)

unfoldable pub severity_value : Numbers → Option Value → ℤ
unfolding as_i32 severity_from_name
severity_value numbers (some (number n)) = as_i32 (unwrap_or (numbers.as_i64 n) (pos 0))
severity_value numbers (some (string name)) = pos (severity_from_name name)
severity_value numbers _ = pos 0

unfoldable pub severity : Numbers → Value → ℤ
unfolding severity_value get
severity numbers record_value = severity_value numbers (get (codes "severityNumber") record_value)

unfoldable pub positive : Option ℕ → Option ℕ
positive none = none
positive (some n) = if n == 0 then none else some n

unfoldable pub nanos_value : Numbers → Option Value → Option ℕ
unfolding positive parse_u64
nanos_value numbers (some (string digits)) = positive (parse_u64 digits)
nanos_value numbers (some (number n)) = positive (numbers.as_u64 n)
nanos_value numbers _ = none

unfoldable pub nanos : Numbers → Value → Text → Option ℕ
unfolding nanos_value get
nanos numbers record_value key = nanos_value numbers (get key record_value)

unfoldable pub is_hex_digit : ℕ → Bool
is_hex_digit c =
    (leb b'0' c && leb c b'9') || ((leb b'a' c && leb c b'f') || (leb b'A' c && leb c b'F'))

unfoldable pub all_hex : Text → Bool
unfolding is_hex_digit
all_hex [] = true
all_hex (c ∷ cs) = is_hex_digit c && all_hex cs

unfoldable pub hex_text : Text → Option Text
unfolding all_hex
hex_text id = if not (is_empty id) && all_hex id then some id else none

unfoldable pub hex_id : Value → Text → Option Text
unfolding hex_text str_trim get
hex_id record_value key =
    and_then (and_then (get key record_value) as_str) (λ id. hex_text (str_trim id))

unfoldable pub int_of : Value → Option Value
unfolding int_value parse_i64
int_of (string digits) = mapped int_value (parse_i64 digits)
int_of other = some other

-- The union, as an object with one key.
unfoldable pub any_value : Value → Option Value
unfolding int_of get
any_value value = or_else (get (codes "stringValue") value) (
    or_else (get (codes "boolValue") value) (elim (get (codes "intValue") value) [
      | some n ↦ int_of n
      | none ↦ get (codes "doubleValue") value
    ]))

unfoldable pub pair_of : Value → Option (Text × Value)
unfolding any_value get
pair_of entry =
    and_then (and_then (get (codes "key") entry) as_str)
      (λ key. mapped (λ v. (key, v)) (and_then (get (codes "value") entry) any_value))

unfoldable pub attributes : Option Value → Fields
unfolding as_array filter_map pair_of collect_into
attributes given =
    collect_into end
      (filter_map pair_of (take max_attributes (unwrap_or (and_then given as_array) [])))

unfoldable pub body_text : Numbers → Value → Text
body_text numbers (string text) = text
body_text numbers other = numbers.render other

unfoldable pub record_from : Numbers → Value → Record
unfolding nanos severity any_value attributes hex_id get body_text
record_from numbers v = record {
  time_unix_nano =
      unwrap_or
        (or_else (nanos numbers v (codes "timeUnixNano"))
          (nanos numbers v (codes "observedTimeUnixNano")))
        0;
  severity_number = severity numbers v;
  body = mapped (body_text numbers) (and_then (get (codes "body") v) any_value);
  attributes = attributes (get (codes "attributes") v);
  trace_id = hex_id v (codes "traceId");
  span_id = hex_id v (codes "spanId");
}

-- The loop over the records of a scope, with what is left of the budget.
unfoldable pub read_records :
    Numbers → ℕ → List Value → ℕ → List Record → Result JsonError (List Record × ℕ)
unfolding record_from
read_records numbers max_allowed [] budget records = ok (records, budget)
read_records numbers max_allowed (v ∷ vs) zero records = err (too_many max_allowed)
read_records numbers max_allowed (v ∷ vs) (suc budget) records =
    read_records numbers max_allowed vs budget (records ++ record_from numbers v ∷ [])

unfoldable pub read_scopes :
    Numbers → ℕ → List Value → ℕ → List Record → Result JsonError (List Record × ℕ)
unfolding read_records array_at
read_scopes numbers max_allowed [] budget records = ok (records, budget)
read_scopes numbers max_allowed (scope ∷ scopes) budget records =
    elim (read_records numbers max_allowed (array_at (codes "logRecords") scope) budget records) [
      | err e ↦ err e
      | ok read ↦ read_scopes numbers max_allowed scopes read.1 read.0
    ]

unfoldable pub read_groups :
    Numbers → ℕ → List Value → ℕ → List Group → Result JsonError (List Group)
unfolding read_scopes attributes pointer array_at
read_groups numbers max_allowed [] budget groups = ok groups
read_groups numbers max_allowed (logs ∷ more) budget groups =
    elim (read_scopes numbers max_allowed (array_at (codes "scopeLogs") logs) budget []) [
      | err e ↦ err e
      | ok read ↦ read_groups numbers max_allowed more read.1 (
          groups
          ++ record {
            resource = attributes (pointer (codes "resource" ∷ codes "attributes" ∷ []) logs);
            records = read.0;
          }
            ∷ [])
    ]

unfoldable pub decode : (Bytes → Option Value) → Numbers → ℕ → Bytes → Result JsonError (List Group)
unfolding read_groups array_at
decode from_slice numbers max_allowed body = elim (from_slice body) [
  | none ↦ err malformed_json
  | some root ↦
      read_groups numbers max_allowed (array_at (codes "resourceLogs") root) max_allowed []
]
