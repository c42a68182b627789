-- ===== src/Strings/Trim.antt =====
-- Trimming twice is trimming once, and the result does not begin with a blank.
use thermite_rs.Prelude.{Bool-cases, Text, [], ap, arith, false, inl, inr, refl, ℕ, ◌∷◌, ◌≡◌}
use thermite_rs.Strings.Defs.{cons_unless_blank, is_whitespace, str_trim, trim_end, trim_start}

-- A text that is empty or begins with a visible character.
abbrev pub StartsVisible : Text → Type 0
StartsVisible [] = Unit
StartsVisible (c ∷ cs) = is_whitespace c ≡ false

trim_start-StartsVisible : (s : Text) → StartsVisible (trim_start s)
unfolding trim_start
trim_start-StartsVisible [] = tt
trim_start-StartsVisible (c ∷ cs) = elim (Bool-cases (is_whitespace c)) [
  | inl blank ↦ rw blank (trim_start-StartsVisible cs)
  | inr visible ↦ rw visible visible
]

pub trim_start_of : (s : Text) → StartsVisible s → trim_start s ≡ s
unfolding trim_start
trim_start_of [] h = refl
trim_start_of (c ∷ cs) h = rw h

cons_unless_blank_of : (c : ℕ) (s : Text) → is_whitespace c ≡ false → cons_unless_blank c s ≡ c ∷ s
cons_unless_blank_of c [] h = rw h
cons_unless_blank_of c (d ∷ ds) h = refl

trim_end-StartsVisible : (s : Text) → StartsVisible s → StartsVisible (trim_end s)
unfolding trim_end
trim_end-StartsVisible [] h = tt
trim_end-StartsVisible (c ∷ cs) h = rw (cons_unless_blank_of c (trim_end cs) h) h

trim_end-cons_unless_blank :
    (c : ℕ) (s : Text) → trim_end s ≡ s → trim_end (cons_unless_blank c s) ≡ cons_unless_blank c s
unfolding trim_end
trim_end-cons_unless_blank c [] h = ground arith
trim_end-cons_unless_blank c (d ∷ ds) h = ap (cons_unless_blank c) h

trim_end-trim_end : (s : Text) → trim_end (trim_end s) ≡ trim_end s
unfolding trim_end
trim_end-trim_end [] = refl
trim_end-trim_end (c ∷ cs) = trim_end-cons_unless_blank c (trim_end cs) (trim_end-trim_end cs)

pub str_trim-str_trim : (s : Text) → str_trim (str_trim s) ≡ str_trim s
unfolding str_trim
str_trim-str_trim s =
    rw
      (trim_start_of (trim_end (trim_start s))
        (trim_end-StartsVisible (trim_start s) (trim_start-StartsVisible s)))
      (trim_end-trim_end (trim_start s))
