-- ===== src/Strings/Defs.antt =====
-- `char::is_whitespace`, `trim`, `lines`, `join`, `split`, `contains` and `to_ascii_lowercase`.
use thermite_rs.Prelude.{
  Bool, List, Text, [], false, if◌then◌else◌, leb, true, ℕ, ◌&&◌, ◌++◌, ◌+◌, ◌==◌, ◌||◌, ◌∷◌,
}

-- The code points with the property White_Space.
unfoldable pub is_whitespace : ℕ → Bool
is_whitespace c =
    (leb 9 c && leb c 13)
    || (c == 32
        || (c == 133
            || (c == 160
                || (c == 5760
                    || ((leb 8192 c && leb c 8202)
                        || (c == 8232
                            || (c == 8233 || (c == 8239 || (c == 8287 || c == 12288)))))))))

unfoldable pub trim_start : Text → Text
trim_start [] = []
trim_start (c ∷ cs) = let rest = trim_start cs in if is_whitespace c then rest else c ∷ cs

abbrev pub cons_unless_blank : ℕ → Text → Text
cons_unless_blank c [] = if is_whitespace c then [] else c ∷ []
cons_unless_blank c (d ∷ ds) = c ∷ d ∷ ds

unfoldable pub trim_end : Text → Text
trim_end [] = []
trim_end (c ∷ cs) = cons_unless_blank c (trim_end cs)

-- `str::trim`.
unfoldable pub str_trim : Text → Text
unfolding trim_start trim_end is_whitespace
str_trim s = trim_end (trim_start s)

-- The line before a line feed loses one carriage return at its end.
strip_cr : Text → Text
strip_cr [] = []
strip_cr (c ∷ []) = if c == 13 then [] else c ∷ []
strip_cr (c ∷ d ∷ cs) = c ∷ strip_cr (d ∷ cs)

abbrev last_line : Text → List Text
last_line [] = []
last_line (c ∷ cs) = (c ∷ cs) ∷ []

lines_from : Text → Text → List Text
unfolding strip_cr
lines_from line [] = last_line line
lines_from line (c ∷ cs) =
    let next = lines_from [] cs in
    let more = lines_from (line ++ c ∷ []) cs in if c == b'\n' then strip_cr line ∷ next else more

-- `str::lines`: a final line feed opens no further line.
unfoldable pub lines : Text → List Text
unfolding lines_from
lines s = lines_from [] s

abbrev pub head_or_empty : List Text → Text
head_or_empty [] = []
head_or_empty (l ∷ ls) = l

-- `s.lines().next().unwrap_or("")`.
unfoldable pub first_line : Text → Text
unfolding lines
first_line s = head_or_empty (lines s)

-- `[..].join(sep)`.
unfoldable pub join : Text → List Text → Text
join sep [] = []
join sep (p ∷ []) = p
join sep (p ∷ q ∷ ps) = p ++ (sep ++ join sep (q ∷ ps))

unfoldable pub is_prefix : Text → Text → Bool
is_prefix [] s = true
is_prefix (p ∷ ps) [] = false
is_prefix (p ∷ ps) (c ∷ cs) = p == c && is_prefix ps cs

-- `s.contains(p)`, the pattern first.
unfoldable pub contains : Text → Text → Bool
unfolding is_prefix
contains p [] = is_prefix p []
contains p (c ∷ cs) = is_prefix p (c ∷ cs) || contains p cs

unfoldable pub ascii_lower : ℕ → ℕ
ascii_lower c = if leb 65 c && leb c 90 then c + 32 else c
