-- ===== src/Envelope/RoundTrip.antt =====
-- What an SDK writes is what `parse` reads.
use native.Mathlib.Nat.{add_assoc}
use thermite_rs.Prelude.{
  All, Bytes, List, Option, Result, Text, [], ap, append-nil, append_assoc, arith, codes, false,
  leb, length, length-append, length-drop, map, none, ok, refl, some, subst, suc, sym, true, zero,
  ℕ, ◌++◌, ◌+◌, ◌<◌, ◌^◌, ◌∙◌, ◌∷◌, ◌≡◌, ◌≢◌, ◌≤◌,
}
use thermite_rs.Envelope.Cursor.{Cursor, read_line}
use thermite_rs.Envelope.Parser.{
  Codec, EnvelopeHeaders, Item, header_line, max_items, parse, parse_behind, parse_headers,
  parse_item, parse_items, payload_of, read_envelope_headers, start,
}
use thermite_rs.Envelope.Suffix.{
  advance, has_newline, read_line_at, read_line_end, rest, rest-advance, take_bytes_at,
}

-- An item with the bytes of its header line.
pub record Written : Type 0 where
  pub header : Bytes
  pub item : Item

-- `{header}\n{payload}\n` for each item.
unfoldable pub write : List Written → Bytes
write [] = []
write (w ∷ ws) = w.header ++ (b'\n' ∷ (w.item.payload ++ (b'\n' ∷ write ws)))

abbrev Framed : Option ℕ → Bytes → Type 0
Framed none payload = has_newline payload ≡ false
Framed (some n) payload = n ≡ length payload

-- The header is one line of UTF-8 that decodes to the item's headers, and the payload has the
-- declared length, or no length is declared and it holds no line feed.
pub record IsWritten (codec : Codec) (w : Written) : Type 0 where
  pub one_line : has_newline w.header ≡ false
  pub not_empty : w.header ≢ []
  pub utf8 : codec.is_utf8 w.header ≡ true
  pub decodes : codec.item_from_slice w.header ≡ ok w.item.headers
  pub framed : Framed w.item.headers.length w.item.payload

parse_headers_ok :
    {T : Type 0} (codec : Codec) (decode : Bytes → Result Text T) (line context : Bytes) {t : T}
    → codec.is_utf8 line ≡ true
    → decode line ≡ ok t
    → parse_headers codec decode line context ≡ ok t
unfolding parse_headers
parse_headers_ok codec decode line context u d = rw (u, d)

inside :
    (c : Cursor) (payload more : Bytes) → rest c ≡ payload ++ b'\n' ∷ more → c.pos ≤ length c.input
inside c payload more h =
    omega (arith, length-drop c.pos c.input, ap length h, length-append payload (b'\n' ∷ more))

advance-advance : (c : Cursor) (n m : ℕ) → advance (advance c n) m ≡ advance c (n + m)
advance-advance c n m = ap (λ p. record c { pos = p }) (add_assoc c.pos n m)

-- The payload is read, and the cursor stands behind its line feed.
payload_of-Framed :
    (n : Option ℕ) (c : Cursor) (payload more : Bytes)
    → length c.input < 2 ^ 64
    → rest c ≡ payload ++ b'\n' ∷ more
    → Framed n payload
    → payload_of n c ≡ ok (payload, advance c (length payload + 1))
unfolding payload_of
payload_of-Framed none c payload more small h f = rw (read_line_at c payload more h f)
payload_of-Framed (some n) c payload more small h f =
    rw
      (
        f,
        take_bytes_at c payload (b'\n' ∷ more) h (inside c payload more h) small,
        read_line_at (advance c (length payload)) [] more (rest-advance c payload (b'\n' ∷ more) h)
            refl,
      )
      (rw (advance-advance c (length payload) 1) refl)

-- One written item is read back, and the cursor stands behind it.
parse_item_written :
    (codec : Codec) (w : Written) (c : Cursor) (more : Bytes)
    → length c.input < 2 ^ 64
    → IsWritten codec w
    → rest c ≡ w.item.payload ++ b'\n' ∷ more
    → parse_item codec w.header c ≡ ok (w.item, advance c (length w.item.payload + 1))
unfolding parse_item
parse_item_written codec w c more small i h = rw (
  parse_headers_ok codec codec.item_from_slice w.header (codes "item") i.utf8 i.decodes,
  payload_of-Framed w.item.headers.length c w.item.payload more small h i.framed,
)

abbrev AllWritten : Codec → List Written → Type 0
AllWritten codec ws = All (IsWritten codec) ws

abbrev items_of : List Written → List Item
items_of ws = map (λ (w : Written). w.item) ws

write_cons :
    (w : Written) (ws : List Written)
    → write (w ∷ ws) ≡ w.header ++ b'\n' ∷ (w.item.payload ++ b'\n' ∷ write ws)
unfolding write
write_cons w ws = refl

rest-advance_line :
    (c : Cursor) (line more : Bytes)
    → rest c ≡ line ++ b'\n' ∷ more
    → rest (advance c (length line + 1)) ≡ more
rest-advance_line c line more h =
    subst (λ n. rest (advance c n) ≡ more) (length-append line (b'\n' ∷ []))
      (rest-advance c (line ++ b'\n' ∷ []) more (h ∙ sym (append_assoc line (b'\n' ∷ []) more)))

-- One round of the loop over a header line that is not empty.
parse_items_line :
    (codec : Codec) (fuel : ℕ) (c : Cursor) (items : List Item) (line : Bytes) {d e : Cursor}
    {item : Item}
    → line ≢ []
    → read_line c ≡ some (line, d)
    → length items < max_items
    → parse_item codec line d ≡ ok (item, e)
    → parse_items codec (suc fuel) c items ≡ parse_items codec fuel e (items ++ item ∷ [])
unfolding parse_items
parse_items_line codec fuel c items [] ne r room p = absurd (ne refl)
parse_items_line codec fuel c items (b ∷ bs) ne r room p =
    let below : leb max_items (length items) ≡ false = ground arith in rw (r, below, p, parse_items)

parse_items_step :
    (codec : Codec) (fuel : ℕ) (c : Cursor) (items : List Item) (w : Written) (ws : List Written)
    → length c.input < 2 ^ 64
    → length items < max_items
    → IsWritten codec w
    → rest c ≡ write (w ∷ ws)
    → (d : Cursor) × (d.input ≡ c.input)
      × (rest d ≡ write ws)
      × (parse_items codec (suc fuel) c items ≡ parse_items codec fuel d (items ++ w.item ∷ []))
parse_items_step codec fuel c items w ws small room i h =
    let d = advance c (length w.header + 1) in
    let e = advance d (length w.item.payload + 1) in
    let left : rest c ≡ w.header ++ b'\n' ∷ (w.item.payload ++ b'\n' ∷ write ws) =
      h ∙ write_cons w ws in
    let behind : rest d ≡ w.item.payload ++ b'\n' ∷ write ws =
      rest-advance_line c w.header _ left in
    (
      e,
      refl,
      rest-advance_line d w.item.payload (write ws) behind,
      parse_items_line codec fuel c items w.header i.not_empty
          (read_line_at c w.header _ left i.one_line) room
          (parse_item_written codec w d (write ws) small i behind),
    )

parse_items_end :
    (codec : Codec) (fuel : ℕ) (c : Cursor) (items : List Item)
    → rest c ≡ write []
    → parse_items codec (suc fuel) c items ≡ some (ok items)
unfolding parse_items write
parse_items_end codec fuel c items h = rw (read_line_end c h, parse_items)

-- The items that are left are read back behind those read so far.
parse_items_written :
    (codec : Codec) (fuel : ℕ) (c : Cursor) (items : List Item) (ws : List Written)
    → length c.input < 2 ^ 64
    → length ws < fuel
    → length items + length ws ≤ max_items
    → AllWritten codec ws
    → rest c ≡ write ws
    → parse_items codec fuel c items ≡ some (ok (items ++ items_of ws))
parse_items_written codec zero c items ws small h few a e = elim h [ ]
parse_items_written codec (suc fuel) c items [] small h few a e =
    parse_items_end codec fuel c items e
    ∙ ap (λ (is : List Item). some (ok is)) (sym (append-nil items))
parse_items_written codec (suc fuel) c items (w ∷ ws) small h few a e =
    let (d, same, left, step) =
      parse_items_step codec fuel c items w ws small (omega arith) a.0 e in
    step
    ∙ parse_items_written codec fuel d (items ++ w.item ∷ []) ws (rw same small) (omega arith)
        (omega (arith, length-append items (w.item ∷ []))) a.1 left
    ∙ ap (λ (is : List Item). some (ok is)) (append_assoc items (w.item ∷ []) (items_of ws))

header_line_written :
    (codec : Codec) (line : Bytes) {h : EnvelopeHeaders} (d : Cursor)
    → line ≢ []
    → codec.is_utf8 line ≡ true
    → codec.envelope_from_slice line ≡ ok h
    → header_line codec (some (line, d)) ≡ ok (h, d)
unfolding header_line
header_line_written codec [] d ne u e = absurd (ne refl)
header_line_written codec (b ∷ bs) d ne u e =
    rw (parse_headers_ok codec codec.envelope_from_slice (b ∷ bs) (codes "envelope") u e)

length-write-le : (codec : Codec) (ws : List Written) → length ws ≤ length (write ws)
unfolding write
length-write-le codec [] = omega arith
length-write-le codec (w ∷ ws) = omega (
  arith,
  length-append w.header (b'\n' ∷ (w.item.payload ++ b'\n' ∷ write ws)),
  length-append w.item.payload (b'\n' ∷ write ws),
  length-write-le codec ws,
)

-- An envelope as an SDK writes it, the header line and then each item's header line and payload, is
-- read back as that envelope: up to 1000 items, with or without declared lengths, if the header
-- lines are UTF-8 that decodes to the headers and the body is shorter than the address space.
pub parse-write :
    (codec : Codec) (line : Bytes) (h : EnvelopeHeaders) (ws : List Written)
    → line ≢ []
    → has_newline line ≡ false
    → codec.is_utf8 line ≡ true
    → codec.envelope_from_slice line ≡ ok h
    → length ws ≤ 1000
    → All (IsWritten codec) ws
    → length (line ++ b'\n' ∷ write ws) < 2 ^ 64
    → parse codec (line ++ b'\n' ∷ write ws)
      ≡ some (ok (record { headers = h; items = map (λ (w : Written). w.item) ws }))
unfolding parse read_envelope_headers parse_behind
parse-write codec line h ws ne one u e few a small =
    let input = line ++ b'\n' ∷ write ws in
    let d = advance (start input) (length line + 1) in
    rw (
      read_line_at (start input) line (write ws) refl one,
      header_line_written codec line d ne u e,
      parse_items_written codec (suc (length input)) d [] ws small
          (omega (arith, length-append line (b'\n' ∷ write ws), length-write-le codec ws))
          (omega arith) a (rest-advance_line (start input) line (write ws) refl),
    )
