-- ===== src/Envelope/Parser.antt =====
-- The envelope, its errors, and `parse`.
use thermite_rs.Prelude.{
  Bool, Bytes, List, Option, Result, Text, [], codes, err, false, if◌then◌else◌, leb, length, none,
  ok, some, suc, true, zero, ℕ, ◌++◌, ◌∷◌,
}
use thermite_rs.Envelope.Cursor.{Cursor, read_line, remaining, take_bytes}

pub data ParseError : Type 0 where
  empty : ParseError
  not_utf8 : Text → ParseError
  not_json : Text → Text → ParseError
  truncated_item : ℕ → ℕ → ParseError
  unterminated_item : ParseError
  too_many_items : ℕ → ParseError

abbrev pub max_items : ℕ
max_items = 1000

pub record EnvelopeHeaders : Type 0 where
  pub event_id : Option Text
  pub dsn : Option Text
  pub sent_at : Option Text

pub record ItemHeaders : Type 0 where
  pub type : Option Text
  pub length : Option ℕ
  pub content_type : Option Text
  pub filename : Option Text

pub record Item : Type 0 where
  pub headers : ItemHeaders
  pub payload : Bytes

abbrev type_or_empty : Option Text → Text
type_or_empty none = []
type_or_empty (some t) = t

unfoldable pub item_type : Item → Text
item_type i = type_or_empty i.headers.type

pub record Envelope : Type 0 where
  pub headers : EnvelopeHeaders
  pub items : List Item

-- The library code that reads a header line: the UTF-8 check, and `serde_json::from_slice` for
-- either type of header, whose error is the reason's text.
pub record Codec : Type 0 where
  pub is_utf8 : Bytes → Bool
  pub envelope_from_slice : Bytes → Result Text EnvelopeHeaders
  pub item_from_slice : Bytes → Result Text ItemHeaders

map_reason {ℓ} : {T : Type ℓ} → Text → Result Text T → Result ParseError T
map_reason context (ok t) = ok t
map_reason context (err reason) = err (not_json context reason)

unfoldable pub parse_headers {ℓ} :
    {T : Type ℓ} → Codec → (Bytes → Result Text T) → Bytes → Text → Result ParseError T
unfolding map_reason
parse_headers codec from_slice line context =
    if codec.is_utf8 line then map_reason context (from_slice line) else err (not_utf8 context)

unfoldable pub behind :
    Result ParseError EnvelopeHeaders → Cursor → Result ParseError (EnvelopeHeaders × Cursor)
behind (err e) c = err e
behind (ok h) c = ok (h, c)

unfoldable pub header_line :
    Codec → Option (Bytes × Cursor) → Result ParseError (EnvelopeHeaders × Cursor)
unfolding behind
header_line codec none = err empty
header_line codec (some ([], c)) = err empty
header_line codec (some (b ∷ bs, c)) =
    behind (parse_headers codec codec.envelope_from_slice (b ∷ bs) (codes "envelope")) c

unfoldable pub read_envelope_headers : Codec → Cursor → Result ParseError (EnvelopeHeaders × Cursor)
unfolding header_line
read_envelope_headers codec c = header_line codec (read_line c)

unfoldable pub headers_only :
    Result ParseError (EnvelopeHeaders × Cursor) → Result ParseError EnvelopeHeaders
headers_only (err e) = err e
headers_only (ok (h, c)) = ok h

unfoldable pub parse_envelope_headers : Codec → Bytes → Result ParseError EnvelopeHeaders
unfolding headers_only
parse_envelope_headers codec input =
    headers_only (read_envelope_headers codec (record { input = input; pos = 0 }))

-- The payload must be followed by a line feed, or stand at the end of the input.
unfoldable pub terminated :
    Bytes → Cursor → Option (Bytes × Cursor) → Result ParseError (Bytes × Cursor)
terminated payload before none = ok (payload, before)
terminated payload before (some ([], c)) = ok (payload, c)
terminated payload before (some (b ∷ bs, c)) = err unterminated_item

unfoldable pub declared : ℕ → Cursor → Option (Bytes × Cursor) → Result ParseError (Bytes × Cursor)
unfolding terminated
declared n c none = err (truncated_item n (remaining c))
declared n c (some (payload, c')) = terminated payload c' (read_line c')

unfoldable pub to_next_line : Cursor → Option (Bytes × Cursor) → Bytes × Cursor
to_next_line c none = ([], c)
to_next_line c (some (line, c')) = (line, c')

unfoldable pub payload_of : Option ℕ → Cursor → Result ParseError (Bytes × Cursor)
unfolding declared to_next_line
payload_of (some n) c = declared n c (take_bytes c n)
payload_of none c = ok (to_next_line c (read_line c))

unfoldable pub with_payload :
    ItemHeaders → Result ParseError (Bytes × Cursor) → Result ParseError (Item × Cursor)
with_payload h (err e) = err e
with_payload h (ok (payload, c)) = ok (record { headers = h; payload = payload }, c)

unfoldable pub with_item_headers :
    Result ParseError ItemHeaders → Cursor → Result ParseError (Item × Cursor)
unfolding with_payload
with_item_headers (err e) c = err e
with_item_headers (ok h) c = with_payload h (payload_of h.length c)

-- One item, whose header line has been read.
unfoldable pub parse_item : Codec → Bytes → Cursor → Result ParseError (Item × Cursor)
unfolding with_item_headers
parse_item codec line c =
    with_item_headers (parse_headers codec codec.item_from_slice line (codes "item")) c

-- The `while let` loop. `none` means that the fuel ran out.
unfoldable pub parse_items : Codec → ℕ → Cursor → List Item → Option (Result ParseError (List Item))
parse_items codec zero c items = none
parse_items codec (suc fuel) c items = elim (read_line c) [
  | none ↦ some (ok items)
  | some ([], c') ↦ parse_items codec fuel c' items
  | some (b ∷ bs, c') ↦ elim (leb max_items (length items)) [
    | true ↦ some (err (too_many_items max_items))
    | false ↦ elim (parse_item codec (b ∷ bs) c') [
      | err e ↦ some (err e)
      | ok (item, c'') ↦ parse_items codec fuel c'' (items ++ item ∷ [])
    ]
  ]
]

unfoldable pub with_headers :
    EnvelopeHeaders → Option (Result ParseError (List Item)) → Option (Result ParseError Envelope)
with_headers h none = none
with_headers h (some (err e)) = some (err e)
with_headers h (some (ok items)) = some (ok (record { headers = h; items = items }))

-- Every round reads at least one byte, so the length of the input is fuel enough.
unfoldable pub parse_behind :
    Codec
    → Bytes
    → Result ParseError (EnvelopeHeaders × Cursor)
    → Option (Result ParseError Envelope)
unfolding with_headers
parse_behind codec input (err e) = some (err e)
parse_behind codec input (ok (h, c)) = with_headers h (parse_items codec (suc (length input)) c [])

abbrev pub start : Bytes → Cursor
start input = record { input = input; pos = 0 }

unfoldable pub parse : Codec → Bytes → Option (Result ParseError Envelope)
unfolding parse_behind
parse codec input = parse_behind codec input (read_envelope_headers codec (start input))
