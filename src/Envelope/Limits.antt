-- ===== src/Envelope/Limits.antt =====
-- `parse` ends, keeps to the item limit, and borrows its payloads from the input.
use thermite_rs.Prelude.{
  All, All-append, Bool-cases, Bytes, List, Option, Result, [], ap, arith, codes, drop, err, inl,
  inr, leb, length, length-append, ltb, none, ok, refl, some, suc, sym, take, zero, ℕ, ◌++◌, ◌+◌,
  ◌<◌, ◌^◌, ◌∙◌, ◌∷◌, ◌≡◌, ◌≤◌,
}
use thermite_rs.Envelope.Parser.{
  Codec, Envelope, EnvelopeHeaders, Item, ItemHeaders, ParseError, behind, declared, header_line,
  max_items, parse, parse_behind, parse_headers, parse_item, parse_items, payload_of,
  read_envelope_headers, start, terminated, to_next_line, with_headers, with_item_headers,
  with_payload,
}
use thermite_rs.Envelope.Cursor.{Cursor, line_to, position, read_line, remaining, take_bytes}

-- A cursor that moved forward over the same input.
pub record Follows (c c' : Cursor) : Type 0 where
  pub same_input : c'.input ≡ c.input
  pub no_more : remaining c' ≤ remaining c

-- What a reader returned: nothing, or a slice of the input and a cursor that moved forward.
abbrev IsSlice : Bytes → Bytes → Type 0
IsSlice input p = (start : ℕ) × (n : ℕ) × (p ≡ take n (drop start input))

abbrev Read : Cursor → Option (Bytes × Cursor) → Type 0
Read c none = Unit
Read c (some (bs, c')) = Follows c c' × IsSlice c.input bs

take_all : (xs : Bytes) → take (length xs) xs ≡ xs
take_all [] = refl
take_all (x ∷ xs) = ap (◌∷◌ x) (take_all xs)

line_to-Read : (c : Cursor) (at : Option ℕ) → Read c (some (line_to c at))
unfolding line_to remaining
line_to-Read c (some i) = (record { same_input = refl; no_more = omega arith }, (c.pos, i, refl))
line_to-Read c none = (
  record { same_input = refl; no_more = omega arith },
  (c.pos, length (drop c.pos c.input), sym (take_all (drop c.pos c.input))),
)

read_line-Read : (c : Cursor) → Read c (read_line c)
unfolding read_line
read_line-Read c = elim (Bool-cases (leb (length c.input) c.pos)) [
  | inl at_end ↦ rw at_end tt
  | inr inside ↦ rw inside (line_to-Read c (position (drop c.pos c.input)))
]

-- A line read leaves less unread.
line_to-remaining :
    (c : Cursor) (at : Option ℕ) → c.pos < length c.input → remaining (line_to c at).1 < remaining c
unfolding line_to remaining
line_to-remaining c none h = omega arith
line_to-remaining c (some i) h = omega arith

abbrev Shrinks : Cursor → Option (Bytes × Cursor) → Type 0
Shrinks c none = Unit
Shrinks c (some (line, c')) = remaining c' < remaining c

read_line-Shrinks : (c : Cursor) → Shrinks c (read_line c)
unfolding read_line
read_line-Shrinks c = elim (Bool-cases (leb (length c.input) c.pos)) [
  | inl at_end ↦ rw at_end tt
  | inr inside ↦ rw inside (line_to-remaining c (position (drop c.pos c.input)) (ground arith))
]

take_bytes-Read : (c : Cursor) (n : ℕ) → Read c (take_bytes c n)
unfolding take_bytes
take_bytes-Read c n = elim (Bool-cases (leb (2 ^ 64) (c.pos + n))) [
  | inl over ↦ rw over tt
  | inr below ↦ elim (Bool-cases (ltb (length c.input) (c.pos + n))) [
    | inl short ↦ rw (below, short) tt
    | inr fits ↦
        rw (below, fits)
          (
            record { same_input = refl; no_more = unfold remaining in omega arith },
            (c.pos, n, refl),
          )
  ]
]

abbrev PayloadRead : Cursor → Result ParseError (Bytes × Cursor) → Type 0
PayloadRead c (err e) = Unit
PayloadRead c (ok (payload, c')) = Follows c c' × IsSlice c.input payload

Follows-refl : (c : Cursor) → Follows c c
Follows-refl c = record { same_input = refl; no_more = omega arith }

Follows-trans : {c d e : Cursor} → Follows c d → Follows d e → Follows c e
Follows-trans f g = record { same_input = g.same_input ∙ f.same_input; no_more = omega arith }

terminated-Read :
    (c d : Cursor) (payload : Bytes) (r : Option (Bytes × Cursor))
    → Follows c d
    → IsSlice c.input payload
    → Read d r
    → PayloadRead c (terminated payload d r)
unfolding terminated
terminated-Read c d payload none f s h = (f, s)
terminated-Read c d payload (some ([], e)) f s h = (Follows-trans f h.0, s)
terminated-Read c d payload (some (b ∷ bs, e)) f s h = tt

declared-Read :
    (c : Cursor) (n : ℕ) (r : Option (Bytes × Cursor)) → Read c r → PayloadRead c (declared n c r)
unfolding declared
declared-Read c n none h = tt
declared-Read c n (some (payload, d)) h =
    terminated-Read c d payload (read_line d) h.0 h.1 (read_line-Read d)

to_next_line-Read :
    (c : Cursor) (r : Option (Bytes × Cursor)) → Read c r → PayloadRead c (ok (to_next_line c r))
unfolding to_next_line
to_next_line-Read c none h = (Follows-refl c, (0, 0, refl))
to_next_line-Read c (some (line, d)) h = h

payload_of-Read : (n : Option ℕ) (c : Cursor) → PayloadRead c (payload_of n c)
unfolding payload_of
payload_of-Read none c = to_next_line-Read c (read_line c) (read_line-Read c)
payload_of-Read (some n) c = declared-Read c n (take_bytes c n) (take_bytes-Read c n)

abbrev ItemRead : Cursor → Result ParseError (Item × Cursor) → Type 0
ItemRead c (err e) = Unit
ItemRead c (ok (item, c')) = Follows c c' × IsSlice c.input item.payload

with_payload-Read :
    (h : ItemHeaders) (c : Cursor) (r : Result ParseError (Bytes × Cursor))
    → PayloadRead c r
    → ItemRead c (with_payload h r)
unfolding with_payload
with_payload-Read h c (err e) p = tt
with_payload-Read h c (ok (payload, d)) p = p

with_item_headers-Read :
    (h : Result ParseError ItemHeaders) (c : Cursor) → ItemRead c (with_item_headers h c)
unfolding with_item_headers
with_item_headers-Read (err e) c = tt
with_item_headers-Read (ok h) c =
    with_payload-Read h c (payload_of h.length c) (payload_of-Read h.length c)

parse_item-Read : (codec : Codec) (line : Bytes) (c : Cursor) → ItemRead c (parse_item codec line c)
unfolding parse_item
parse_item-Read codec line c =
    with_item_headers-Read (parse_headers codec codec.item_from_slice line (codes "item")) c

-- What `parse` promises of its result: it is there, and a list of items keeps to the limit and
-- holds only slices of the input.
abbrev IsGood : Bytes → Option (Result ParseError (List Item)) → Type 0
IsGood input none = ⊥
IsGood input (some (err e)) = Unit
IsGood input (some (ok items)) =
    (length items ≤ max_items) × All (λ (i : Item). IsSlice input i.payload) items

-- The promise of the loop with this fuel, for the section below.
abbrev Loops : Codec → Bytes → ℕ → Type 0
Loops codec input fuel =
    (c : Cursor) (items : List Item)
    → c.input ≡ input
    → remaining c < fuel
    → length items ≤ max_items
    → All (λ (i : Item). IsSlice input i.payload) items
    → IsGood input (parse_items codec fuel c items)

module _ (codec : Codec) (input : Bytes) (fuel : ℕ) (again : Loops codec input fuel)
    (items : List Item) (slices : All (λ (i : Item). IsSlice input i.payload) items) where
  after_item :
      (d : Cursor) (r : Result ParseError (Item × Cursor))
      → d.input ≡ input
      → remaining d < fuel
      → length items < max_items
      → ItemRead d r
      → IsGood input (elim r [
        | err e ↦ some (err e)
        | ok (item, d') ↦ parse_items codec fuel d' (items ++ item ∷ [])
      ])
  after_item d (err e) same less room p = tt
  after_item d (ok (item, d')) same less room (f, s) =
      again d' (items ++ item ∷ []) (f.same_input ∙ same) (omega (arith, f.no_more))
        (omega (arith, length-append items (item ∷ [])))
        (All-append _ items (item ∷ []) slices (rw same at s, tt))

  after_line :
      (c : Cursor) (r : Option (Bytes × Cursor))
      → read_line c ≡ r
      → c.input ≡ input
      → remaining c < suc fuel
      → length items ≤ max_items
      → Read c r
      → Shrinks c r
      → IsGood input (parse_items codec (suc fuel) c items)
  unfolding parse_items
  after_line c none e same h few p q = rw (e, parse_items) (few, slices)
  after_line c (some ([], d)) e same h few p q =
      rw (e, parse_items) (again d items (p.0.same_input ∙ same) (omega arith) few slices)
  after_line c (some (b ∷ bs, d)) e same h few p q =
      elim (Bool-cases (leb max_items (length items))) [
        | inl full ↦ rw (e, full, parse_items) tt
        | inr room ↦
            rw (e, room, parse_items)
              (after_item d (parse_item codec (b ∷ bs) d) (p.0.same_input ∙ same) (omega arith)
                (ground arith) (parse_item-Read codec (b ∷ bs) d))
      ]

parse_items-IsGood : (codec : Codec) (input : Bytes) (fuel : ℕ) → Loops codec input fuel
parse_items-IsGood codec input zero c items same h few slices = elim h [ ]
parse_items-IsGood codec input (suc fuel) c items same h few slices =
    after_line codec input fuel (parse_items-IsGood codec input fuel) items slices c (read_line c)
      refl same h few (read_line-Read c) (read_line-Shrinks c)

abbrev HeadersRead : Cursor → Result ParseError (EnvelopeHeaders × Cursor) → Type 0
HeadersRead c (err e) = Unit
HeadersRead c (ok (h, c')) = Follows c c'

behind-Read :
    (c d : Cursor) (r : Result ParseError EnvelopeHeaders)
    → Follows c d
    → HeadersRead c (behind r d)
unfolding behind
behind-Read c d (err e) f = tt
behind-Read c d (ok h) f = f

header_line-Read :
    (codec : Codec) (c : Cursor) (r : Option (Bytes × Cursor))
    → Read c r
    → HeadersRead c (header_line codec r)
unfolding header_line
header_line-Read codec c none p = tt
header_line-Read codec c (some ([], d)) p = tt
header_line-Read codec c (some (b ∷ bs, d)) p = behind-Read c d _ p.0

-- What `parse` promises of its result: it is there, and an envelope keeps to the item limit and
-- holds only slices of the input.
abbrev pub IsParsed : Bytes → Option (Result ParseError Envelope) → Type 0
IsParsed input none = ⊥
IsParsed input (some (err e)) = Unit
IsParsed input (some (ok e)) =
    (length e.items ≤ 1000) × All (λ (i : Item). IsSlice input i.payload) e.items

with_headers-IsParsed :
    (input : Bytes) (h : EnvelopeHeaders) (r : Option (Result ParseError (List Item)))
    → IsGood input r
    → IsParsed input (with_headers h r)
unfolding with_headers
with_headers-IsParsed input h none g = g
with_headers-IsParsed input h (some (err e)) g = tt
with_headers-IsParsed input h (some (ok items)) g = g

remaining-start : (input : Bytes) → remaining (start input) ≤ length input
unfolding remaining
remaining-start input = omega arith

parse_behind-IsParsed :
    (codec : Codec) (input : Bytes) (r : Result ParseError (EnvelopeHeaders × Cursor))
    → HeadersRead (start input) r
    → IsParsed input (parse_behind codec input r)
unfolding parse_behind
parse_behind-IsParsed codec input (err e) p = tt
parse_behind-IsParsed codec input (ok (h, c)) p = with_headers-IsParsed input h _ (
    parse_items-IsGood codec input (suc (length input)) c [] p.same_input
      (omega (arith, p.no_more, remaining-start input)) (omega arith) tt)

-- On every input, and whatever the header decoders return, the parser ends with a result; if that
-- is an envelope, it has at most 1000 items, and each payload is a contiguous slice of the input.
pub parse-IsParsed : (codec : Codec) (input : Bytes) → IsParsed input (parse codec input)
unfolding parse read_envelope_headers
parse-IsParsed codec input =
    parse_behind-IsParsed codec input (read_envelope_headers codec (start input)) (
      header_line-Read codec (start input) (read_line (start input)) (read_line-Read (start input)))
