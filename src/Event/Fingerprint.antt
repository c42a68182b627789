-- ===== src/Event/Fingerprint.antt =====
-- `fingerprint` of crates/thermite-core/src/protocol/event.rs.
pub mod Bounds
use mathlib.Core.Option
use thermite_rs.Prelude.{List, Option, Text, [], codes, length, none, some, take, ℕ, ◌∷◌, ◌≤◌}
use thermite_rs.Json.{Value, and_then, as_array, get, number, string}
use thermite_rs.Event.Basic.{trim}

abbrev pub max_fingerprint_parts : ℕ
max_fingerprint_parts = 32

abbrev pub max_fingerprint_part_chars : ℕ
max_fingerprint_part_chars = 256

part : Value → Option Text
part (string s) = some (trim s max_fingerprint_part_chars)
part (number n) = some n
part _ = none

cons_some : Option Text → List Text → List Text
cons_some none ps = ps
cons_some (some p) ps = p ∷ ps

-- `filter_map`.
parts : List Value → List Text
unfolding part cons_some
parts [] = []
parts (v ∷ vs) = cons_some (part v) (parts vs)

unless_empty : List Text → Option (List Text)
unless_empty [] = none
unless_empty (p ∷ ps) = some (p ∷ ps)

unfoldable pub fingerprint : Value → Option (List Text)
unfolding parts unless_empty get as_array
fingerprint event =
    and_then (and_then (get (codes "fingerprint") event) as_array)
      (λ values. unless_empty (parts (take max_fingerprint_parts values)))

-- Numbers of a payload are rendered in at most `n` characters.
abbrev pub NumbersWithin : ℕ → List Value → Type 0
NumbersWithin n [] = Unit
NumbersWithin n (number s ∷ vs) = (length s ≤ n) × NumbersWithin n vs
NumbersWithin n (v ∷ vs) = NumbersWithin n vs
