-- ===== src/Event/Exception/Titles.antt =====
-- The sizes of types, values and titles.
use thermite_rs.Prelude.{
  Bool-cases, Option, Text, [], arith, codes, if◌then◌else◌, inl, inr, leb, leb→le, length,
  length-append, length-take-le, none, some, take, ℕ, ◌++◌, ◌+◌, ◌<◌, ◌∷◌, ◌≡◌, ◌≤◌, ◌⊎◌,
}
use thermite_rs.Strings.{first_line}
use thermite_rs.Json.{Value, get}
use thermite_rs.Event.Basic.{max_type_len, max_value_len, values_of}
use thermite_rs.Event.Exception.{
  crash_location, describe_exception, display_title, exception_type_and_value, is_nil, is_synthetic,
  log_message_type_and_value, log_type_and_value, main_exception, synthetic_type, title,
  type_and_value,
}

abbrev Sized : Text × Text → Type 0
Sized p = (length p.0 ≤ max_type_len) × (length p.1 ≤ max_value_len)

synthetic_type-Sized : (o : Option Text) → Sized (synthetic_type o)
unfolding synthetic_type
synthetic_type-Sized none = omega arith
synthetic_type-Sized (some f) = (length-take-le max_type_len f, omega arith)

log_type_and_value-Sized : (o : Option Text) → Sized (log_type_and_value o)
unfolding log_type_and_value
log_type_and_value-Sized none = omega arith
log_type_and_value-Sized (some m) = (omega arith, length-take-le max_value_len (first_line m))

describe_exception-Sized : (e : Option Value) (f : Option Text) → Sized (describe_exception e f)
unfolding describe_exception
describe_exception-Sized none f = omega arith
describe_exception-Sized (some e) f = elim (Bool-cases (is_synthetic e)) [
  | inl synthetic ↦ rw synthetic (synthetic_type-Sized f)
  | inr real ↦ rw real (length-take-le max_type_len _, length-take-le max_value_len _)
]

-- For every payload, the exception type has at most 128 characters and the value at most 1024.
type_and_value_bounds :
    (event : Value)
    → (length (type_and_value event).0 ≤ 128) × (length (type_and_value event).1 ≤ 1024)
unfolding type_and_value
type_and_value_bounds event =
    elim (Bool-cases (is_nil (values_of (get (codes "exception") event)))) [
      | inl none_given ↦
          rw (none_given, type_and_value)
            (unfold log_message_type_and_value in log_type_and_value-Sized _)
      | inr given ↦
          rw (given, type_and_value)
            (unfold exception_type_and_value in
              describe_exception-Sized (main_exception event) (crash_location event).1)
    ]

abbrev cap_at : ℕ → Text → Text
cap_at n s = if leb (length s) n then s else take n s ++ 0x2026 ∷ []

cap_at-cases :
    (n : ℕ) (s : Text)
    → ((length s ≤ n) × (cap_at n s ≡ s))
      ⊎ ((n < length s) × (cap_at n s ≡ take n s ++ 0x2026 ∷ []))
cap_at-cases n s = ground arith

length-cap_at : (n : ℕ) (s : Text) → length (cap_at n s) ≤ n + 1
length-cap_at n s = elim (Bool-cases (leb (length s) n)) [
  | inl short ↦ rw short (omega (arith, leb→le _ _ short))
  | inr long ↦ rw (long, length-append (take n s) (0x2026 ∷ [])) (omega (arith, length-take-le n s))
]

-- A displayed title is the title itself, which then has at most 200 characters, or, where that has
-- more, its first 200 characters and one mark; so it never has more than 201.
display_title_bounds :
    (t v : Text)
    → (((length (title t v) ≤ 200) × (display_title t v ≡ title t v))
        ⊎ ((200 < length (title t v)) × (display_title t v ≡ take 200 (title t v) ++ 0x2026 ∷ [])))
      × (length (display_title t v) ≤ 201)
unfolding display_title
display_title_bounds t v = (cap_at-cases 200 (title t v), length-cap_at 200 (title t v))
