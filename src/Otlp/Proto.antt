-- ===== src/Otlp/Proto.antt =====
-- ingest/otlp/proto.rs: the walk over the containers of a protobuf body.
use thermite_rs.Prelude.{
  Bool, Bytes, List, Option, Result, Text, [], drop, err, filter, if◌then◌else◌, leb, length, ltb,
  map, negsuc, none, not, ok, pos, some, suc, take, zero, ℕ, ℤ, ◌%◌, ◌++◌, ◌+◌, ◌-◌, ◌/◌, ◌==◌, ◌∷◌,
}
use thermite_rs.Strings.Decimal.{to_string}
use thermite_rs.Json.{Fields, Value, and_then, bool, end, number, or_else, string}
use thermite_rs.Otlp.Record.{Group, Record, collect_into, max_attributes}

abbrev pub max_records : ℕ
max_records = 10000

abbrev pub max_groups : ℕ
max_groups = 64

pub data ParseError : Type 0 where
  malformed : Text → ParseError
  too_many_records : ParseError
  truncated : ParseError

-- A double is the JSON value that it converts to.
pub record AnyValueMessage : Type 0 where
  pub string_value : Option Text
  pub bool_value : Option Bool
  pub int_value : Option ℤ
  pub double_value : Option Value

pub record KeyValueMessage : Type 0 where
  pub key : Text
  pub value : Option AnyValueMessage

pub record LogRecordMessage : Type 0 where
  pub time_unix_nano : ℕ
  pub severity_number : ℤ
  pub body : Option AnyValueMessage
  pub attributes : List KeyValueMessage
  pub trace_id : Bytes
  pub span_id : Bytes
  pub observed_time_unix_nano : ℕ

-- The library code: prost's readers, each with what it leaves of its bytes or the text of its error, the
-- decoding of the two messages, and the text of a JSON value. A key is a tag, and whether a length and
-- as many bytes follow.
pub record Prost : Type 0 where
  pub decode_key : Bytes → Result Text ((ℕ × Bool) × Bytes)
  pub skip_field : ℕ → Bytes → Result Text Bytes
  pub decode_varint : Bytes → Result Text (ℕ × Bytes)
  pub decode_resource : Bytes → Result Text (List KeyValueMessage)
  pub decode_record : Bytes → Result Text LogRecordMessage
  pub render : Value → Text

int_text : ℤ → Text
int_text (pos n) = to_string n
int_text (negsuc n) = b'-' ∷ to_string (n + 1)

-- `Value::from` of an i64.
unfoldable pub int_value : ℤ → Value
unfolding int_text
int_value n = number (int_text n)

-- `Option::map`.
abbrev pub mapped : {A B : Type 0} → (A → B) → Option A → Option B
mapped f none = none
mapped f (some a) = some (f a)

unfoldable pub into_json : AnyValueMessage → Option Value
unfolding int_value
into_json v =
    or_else (mapped string v.string_value)
      (or_else (mapped bool v.bool_value) (or_else (mapped int_value v.int_value) v.double_value))

abbrev pub text_of : Prost → Value → Text
text_of prost (string text) = text
text_of prost other = prost.render other

unfoldable pub into_string : Prost → AnyValueMessage → Option Text
unfolding into_json
into_string prost v = mapped (text_of prost) (into_json v)

-- `filter_map` to pairs, of `attributes` in ingest/otlp/mod.rs.
unfoldable pub pair_of : KeyValueMessage → Option (Text × Value)
unfolding into_json
pair_of a = mapped (λ v. (a.key, v)) (and_then a.value into_json)

unfoldable pub filter_map : {A B : Type 0} → (A → Option B) → List A → List B
filter_map f [] = []
filter_map f (x ∷ xs) = let rest = filter_map f xs in elim (f x) [ none ↦ rest | some y ↦ y ∷ rest ]

unfoldable pub attributes : List KeyValueMessage → Fields
unfolding filter_map pair_of collect_into
attributes messages = collect_into end (filter_map pair_of (take max_attributes messages))

hex_digit : ℕ → ℕ
hex_digit n = if ltb n 10 then b'0' + n else b'a' + (n - 10)

hex_digits : Bytes → Text
unfolding hex_digit
hex_digits [] = []
hex_digits (b ∷ bs) = hex_digit (b / 16) ∷ hex_digit (b % 16) ∷ hex_digits bs

hex : Bytes → Option Text
unfolding hex_digits
hex [] = none
hex (b ∷ bs) = some (hex_digits (b ∷ bs))

unfoldable pub record_from : Prost → LogRecordMessage → Record
unfolding into_string attributes hex
record_from prost m = record {
  time_unix_nano = if m.time_unix_nano == 0 then m.observed_time_unix_nano else m.time_unix_nano;
  severity_number = m.severity_number;
  body = and_then m.body (into_string prost);
  attributes = attributes m.attributes;
  trace_id = hex m.trace_id;
  span_id = hex m.span_id;
}

-- What a walk comes to: nothing if it runs out of fuel, or else an error or a value.
abbrev pub Walk : Type 0 → Type 0
Walk A = Option (Result ParseError A)

abbrev pub walked : {A B : Type 0} → Walk A → (A → Walk B) → Walk B
walked none f = none
walked (some (err e)) f = some (err e)
walked (some (ok a)) f = f a

-- A reader's result, its error being `Malformed`.
abbrev pub read_by : {A B : Type 0} → Result Text A → (A → Walk B) → Walk B
read_by (err e) f = some (err (malformed e))
read_by (ok a) f = f a

abbrev pub Tagged : Type 0
Tagged = ℕ × Bytes

-- The loop of `tagged_fields`, with what it has found.
unfoldable pub walk_fields : Prost → ℕ → ℕ → Bytes → List Tagged → Walk (List Tagged)
walk_fields prost zero budget buf found = none
walk_fields prost (suc fuel) budget [] found = some (ok found)
walk_fields prost (suc fuel) budget (b ∷ bs) found = read_by (prost.decode_key (b ∷ bs)) (λ key.
    if not key.0.1
    then read_by (prost.skip_field key.0.0 key.1) (λ rest. walk_fields prost fuel budget rest found)
    else read_by (prost.decode_varint key.1) (λ sized.
      if ltb (length sized.1) sized.0
      then some (err truncated)
      else if leb budget (length found)
      then some (err too_many_records)
      else walk_fields prost fuel budget (drop sized.0 sized.1)
          (found ++ (key.0.0, take sized.0 sized.1) ∷ [])))

-- Every round reads at least the byte of a key.
unfoldable pub tagged_fields : Prost → ℕ → Bytes → Walk (List Tagged)
unfolding walk_fields
tagged_fields prost budget buf = walk_fields prost (suc (length buf)) budget buf []

unfoldable pub fields : Prost → ℕ → ℕ → Bytes → Walk (List Bytes)
unfolding tagged_fields
fields prost tag budget buf =
    walked (tagged_fields prost budget buf)
      (λ found. some (ok (map (λ (f : Tagged). f.1) (filter (λ (f : Tagged). f.0 == tag) found))))

-- The records of a scope, with what is left of the budget.
unfoldable pub read_records : Prost → List Bytes → ℕ → List Record → Walk (List Record × ℕ)
unfolding record_from
read_records prost [] budget records = some (ok (records, budget))
read_records prost (b ∷ bs) zero records = some (err too_many_records)
read_records prost (b ∷ bs) (suc budget) records =
    read_by (prost.decode_record b)
      (λ message. read_records prost bs budget (records ++ record_from prost message ∷ []))

-- The fields of a resource's logs: tag 1 is the resource, tag 2 a scope.
unfoldable pub read_group : Prost → List Tagged → ℕ → Group → Walk (Group × ℕ)
unfolding attributes fields read_records
read_group prost [] budget group = some (ok (group, budget))
read_group prost ((tag, bytes) ∷ rest) budget group =
    if tag == 1
    then read_by (prost.decode_resource bytes)
        (λ messages. read_group prost rest budget (record group { resource = attributes messages }))
    else if tag == 2
    then walked (fields prost 2 budget bytes) (λ records.
      walked (read_records prost records budget group.records)
        (λ read. read_group prost rest read.1 (record group { records = read.0 })))
    else read_group prost rest budget group

unfoldable pub read_groups : Prost → List Bytes → ℕ → List Group → Walk (List Group)
unfolding tagged_fields read_group
read_groups prost [] budget groups = some (ok groups)
read_groups prost (b ∷ bs) budget groups = walked (tagged_fields prost max_groups b) (λ tagged.
    walked (read_group prost tagged budget (record { resource = end; records = [] }))
      (λ read. read_groups prost bs read.1 (groups ++ read.0 ∷ [])))

unfoldable pub decode : Prost → Bytes → Walk (List Group)
unfolding fields read_groups
decode prost body =
    walked (fields prost 1 max_groups body) (λ logs. read_groups prost logs max_records [])
