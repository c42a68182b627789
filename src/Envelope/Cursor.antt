-- ===== src/Envelope/Cursor.antt =====
-- The cursor over the request body.
use mathlib.Core.Option
use thermite_rs.Prelude.{
  Bytes, Option, [], drop, if◌then◌else◌, leb, length, ltb, none, some, suc, take, ℕ, ◌+◌, ◌-◌,
  ◌==◌, ◌^◌, ◌∷◌,
}

pub record Cursor : Type 0 where
  pub input : Bytes
  pub pos : ℕ

-- `iter().position(|&b| b == b'\n')`.
unfoldable pub position : Bytes → Option ℕ
position [] = none
position (b ∷ bs) = let later = Option.map suc (position bs) in if b == b'\n' then some 0 else later

unfoldable pub line_to : Cursor → Option ℕ → Bytes × Cursor
line_to c (some idx) = (take idx (drop c.pos c.input), record c { pos = c.pos + (idx + 1) })
line_to c none = (drop c.pos c.input, record c { pos = length c.input })

-- The line, if there is one, and the cursor behind it.
unfoldable pub read_line : Cursor → Option (Bytes × Cursor)
unfolding line_to position
read_line c =
    if leb (length c.input) c.pos then none else some (line_to c (position (drop c.pos c.input)))

-- `checked_add` fails where a usize would overflow.
unfoldable pub take_bytes : Cursor → ℕ → Option (Bytes × Cursor)
take_bytes c n =
    let end = c.pos + n in
    if leb (2 ^ 64) end
    then none
    else if ltb (length c.input) end
    then none
    else some (take n (drop c.pos c.input), record c { pos = end })

-- `saturating_sub`.
unfoldable pub remaining : Cursor → ℕ
remaining c = length c.input - c.pos
