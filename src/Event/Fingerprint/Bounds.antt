-- ===== src/Event/Fingerprint/Bounds.antt =====
-- How much a fingerprint can hold.
use mathlib.Core.Option.{some-injective}
use thermite_rs.Prelude.{
  All, List, Text, [], arith, codes, length, length-take-le, refl, some, subst, suc, sym, take,
  zero, ℕ, ◌<◌, ◌∙◌, ◌∷◌, ◌≡◌, ◌≤◌,
}
use thermite_rs.Json.{Value, and_then, as_array, get, number, string}
use thermite_rs.Event.Fingerprint.{
  NumbersWithin, fingerprint, max_fingerprint_part_chars, max_fingerprint_parts, parts,
  unless_empty,
}

abbrev PartWithin : Text → Type 0
PartWithin p = length p ≤ max_fingerprint_part_chars

NumbersWithin-take : (k n : ℕ) (vs : List Value) → NumbersWithin n vs → NumbersWithin n (take k vs)
NumbersWithin-take zero n vs h = tt
NumbersWithin-take (suc k) n [] h = tt
NumbersWithin-take (suc k) n (number s ∷ vs) h = (h.0, NumbersWithin-take k n vs h.1)
NumbersWithin-take (suc k) n (v ∷ vs) h = NumbersWithin-take k n vs h

parts-Within :
    (vs : List Value) → NumbersWithin max_fingerprint_part_chars vs → All PartWithin (parts vs)
unfolding parts
parts-Within [] h = tt
parts-Within (number s ∷ vs) h = (h.0, parts-Within vs h.1)
parts-Within (string s ∷ vs) h = (length-take-le max_fingerprint_part_chars s, parts-Within vs h)
parts-Within (v ∷ vs) h = parts-Within vs h

length-parts-le : (vs : List Value) → length (parts vs) ≤ length vs
unfolding parts
length-parts-le [] = omega arith
length-parts-le (v ∷ vs) = ground (arith, length-parts-le vs)

bounds_of :
    (qs ps : List Text)
    → unless_empty qs ≡ some ps
    → length qs ≤ 32
    → All PartWithin qs
    → (0 < length ps) × (length ps ≤ 32) × All PartWithin ps
unfolding unless_empty
bounds_of [] ps e h a = absurd (ground arith)
bounds_of (q ∷ qs) ps e h a =
    subst (λ ps. (0 < length ps) × (length ps ≤ 32) × All PartWithin ps)
      (some-injective (q ∷ qs) ps e) (omega arith, h, a)

fingerprint_lem :
    (event : Value)
    → fingerprint event
      ≡ and_then
          (and_then (get (codes "fingerprint") event) as_array)
          (λ values. unless_empty (parts (take max_fingerprint_parts values)))
unfolding fingerprint
fingerprint_lem event = refl

-- A fingerprint, when there is one, has between 1 and 32 parts, and if the payload's numbers are
-- rendered in at most 256 characters each part has at most 256 characters.
pub fingerprint_bounds :
    (event : Value) (values : List Value) (ps : List Text)
    → and_then (get (codes "fingerprint") event) as_array ≡ some values
    → NumbersWithin 256 values
    → fingerprint event ≡ some ps
    → (0 < length ps) × (length ps ≤ 32) × All (λ p. length p ≤ 256) ps
fingerprint_bounds event values ps given numbers e =
    bounds_of (parts (take max_fingerprint_parts values)) ps
      (rw given at (sym (fingerprint_lem event) ∙ e))
      (omega (arith, length-parts-le (take 32 values), length-take-le 32 values))
      (parts-Within (take 32 values) (NumbersWithin-take 32 256 values numbers))
