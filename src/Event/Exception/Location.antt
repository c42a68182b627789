-- ===== src/Event/Exception/Location.antt =====
-- Which frame the crash location names.
use mathlib.Core.List.{reverse, reverse-append}
use thermite_rs.Prelude.{
  Bool, List, Option, [], arith, if◌then◌else◌, none, refl, some, ◌&&◌, ◌++◌, ◌∙◌, ◌∷◌, ◌≡◌,
}
use thermite_rs.Json.{Value, or_else}
use thermite_rs.Event.Exception.{
  crash_location, frames, in_app, location_or_none, rfind, usable, walk,
}

abbrev find : (Value → Bool) → List Value → Option Value
find p [] = none
find p (x ∷ xs) = or_else (if p x then some x else none) (find p xs)

find-append :
    (p : Value → Bool) (xs ys : List Value) → find p (xs ++ ys) ≡ or_else (find p xs) (find p ys)
find-append p [] ys = refl
find-append p (x ∷ xs) ys = ground (arith, find-append p xs ys)

find-reverse : (p : Value → Bool) (xs : List Value) → find p (reverse xs) ≡ rfind p xs
find-reverse p [] = refl
find-reverse p (x ∷ xs) =
    rw (reverse-append (x ∷ []) xs, find-append p (reverse xs) (x ∷ []))
      (ground (arith, find-reverse p xs))

-- The innermost usable frame of the application.
abbrev pub usable_in_app : Value → Bool
usable_in_app frame = usable frame && in_app frame

walk-find :
    (fallback : Option Value) (fs : List Value)
    → walk fallback fs
      ≡ location_or_none (or_else (find usable_in_app fs) (or_else fallback (find usable fs)))
unfolding walk
walk-find none [] = refl
walk-find (some g) [] = refl
walk-find none (f ∷ fs) = ground (arith, walk-find none fs, walk-find (some f) fs)
walk-find (some g) (f ∷ fs) = ground (arith, walk-find (some g) fs)

-- The crash location of an event with frames is that of its last usable in-app frame; where there
-- is none, of its last usable frame; and where no frame is usable, it is empty.
pub crash_location_lem :
    (event : Value) (fs : List Value)
    → frames event ≡ some fs
    → crash_location event ≡ location_or_none (or_else (rfind usable_in_app fs) (rfind usable fs))
unfolding crash_location
crash_location_lem event fs e =
    rw (e, crash_location)
      (walk-find none (reverse fs) ∙ cc (find-reverse usable_in_app fs, find-reverse usable fs))
