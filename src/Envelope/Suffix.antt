-- ===== src/Envelope/Suffix.antt =====
-- The cursor reads as a view of the unread bytes: what `read_line` and `take_bytes` do where those
-- begin with a known line or with known bytes.
use native.Mathlib.Nat.{zero-add, suc-add}
use thermite_rs.Prelude.{
  Bool, Bytes, [], any, ap, arith, drop, drop_prefix, false, leb, length, length-append,
  length-drop, ltb, none, refl, some, suc, sym, take, take_prefix, zero, ℕ, ◌++◌, ◌+◌, ◌<◌, ◌==◌,
  ◌^◌, ◌∙◌, ◌∷◌, ◌≡◌, ◌≤◌,
}
use thermite_rs.Envelope.Cursor.{Cursor, position, read_line, take_bytes}

-- The unread bytes.
abbrev pub rest : Cursor → Bytes
rest c = drop c.pos c.input

abbrev pub advance : Cursor → ℕ → Cursor
advance c n = record c { pos = c.pos + n }

abbrev pub has_newline : Bytes → Bool
has_newline bs = any (λ b. b == b'\n') bs

drop-drop : (n m : ℕ) (xs : Bytes) → drop m (drop n xs) ≡ drop (n + m) xs
drop-drop zero m xs = rw zero-add
drop-drop (suc n) zero [] = rw suc-add
drop-drop (suc n) (suc m) [] = rw suc-add
drop-drop (suc n) m (x ∷ xs) = rw suc-add (drop-drop n m xs)

drop_beyond : (n : ℕ) (xs : Bytes) → length xs ≤ n → drop n xs ≡ []
drop_beyond zero [] h = refl
drop_beyond zero (x ∷ xs) h = absurd (omega arith)
drop_beyond (suc n) [] h = refl
drop_beyond (suc n) (x ∷ xs) h = drop_beyond n xs (omega arith)

-- Behind known bytes stands what follows them.
pub rest-advance :
    (c : Cursor) (read more : Bytes) → rest c ≡ read ++ more → rest (advance c (length read)) ≡ more
rest-advance c read more h =
    sym (drop-drop c.pos (length read) c.input) ∙ rw h (drop_prefix read more)

-- Where something is unread, the position lies inside the input.
pos-lt : (c : Cursor) {b : ℕ} {bs : Bytes} → rest c ≡ b ∷ bs → c.pos < length c.input
pos-lt c h = omega (arith, length-drop c.pos c.input, ap length h)

position-append :
    (line more : Bytes)
    → has_newline line ≡ false
    → position (line ++ b'\n' ∷ more) ≡ some (length line)
unfolding position
position-append [] more h = refl
position-append (b ∷ bs) more h = ground (arith, position-append bs more)

-- With a line and its line feed next, `read_line` returns the line and stands behind the line feed.
pub read_line_at :
    (c : Cursor) (line more : Bytes)
    → rest c ≡ line ++ b'\n' ∷ more
    → has_newline line ≡ false
    → read_line c ≡ some (line, advance c (length line + 1))
unfolding read_line
read_line_at c line more h clean =
    let found : position (rest c) ≡ some (length line) = rw h (position-append line more clean) in
    let taken : take (length line) (rest c) ≡ line = rw h (take_prefix line (b'\n' ∷ more)) in
    let inside : leb (length c.input) c.pos ≡ false =
      ground (arith, length-drop c.pos c.input, ap length h, length-append line (b'\n' ∷ more)) in
    rw (inside, found) (rw taken refl)

-- At the end of the input it returns nothing.
pub read_line_end : (c : Cursor) → rest c ≡ [] → read_line c ≡ none
unfolding read_line
read_line_end c h = ground (arith, length-drop c.pos c.input, ap length h)

-- With these bytes next, `take_bytes` returns them and stands behind them.
pub take_bytes_at :
    (c : Cursor) (payload more : Bytes)
    → rest c ≡ payload ++ more
    → c.pos ≤ length c.input
    → length c.input < 2 ^ 64
    → take_bytes c (length payload) ≡ some (payload, advance c (length payload))
unfolding take_bytes
take_bytes_at c payload more h inside small =
    let taken : take (length payload) (rest c) ≡ payload = rw h (take_prefix payload more) in
    let fits : c.pos + length payload ≤ length c.input =
      omega (arith, length-drop c.pos c.input, ap length h, length-append payload more) in
    let below : leb (2 ^ 64) (c.pos + length payload) ≡ false = ground arith in
    let within : ltb (length c.input) (c.pos + length payload) ≡ false = ground arith in
    rw (below, within) (rw taken refl)
