-- ===== src/Strings/Decimal.antt =====
-- `i64::to_string` of a number that is not negative, and `str::parse::<i64>`.
use mathlib.Core.Option
use thermite_rs.Prelude.{
  Bool, Bool-cases, Option, Text, [], ap, arith, if◌then◌else◌, inl, inr, leb, ltb, negsuc, none,
  pos, refl, some, subst, suc, true, zero, ℕ, ℤ, ◌%◌, ◌&&◌, ◌*◌, ◌+◌, ◌-◌, ◌/◌, ◌<◌, ◌==◌, ◌∙◌, ◌∷◌,
  ◌≡◌, ◌≢◌, ◌≤◌,
}

abbrev pub max_i64 : ℕ
max_i64 = 9223372036854775807

abbrev pub is_digit : ℕ → Bool
is_digit c = leb b'0' c && leb c b'9'

-- The digits of `n` before `later`.
print_on : ℕ → ℕ → Text → Text
print_on zero n later = later
print_on (suc fuel) n later =
    let more = print_on fuel (n / 10) ((b'0' + n % 10) ∷ later) in
    if ltb n 10 then (b'0' + n) ∷ later else more

-- A number has no more digits than its value and one.
unfoldable pub to_string : ℕ → Text
unfolding print_on
to_string n = print_on (n + 1) n []

-- The value of the digits behind `value`, up to `limit`: `none` for a character that is no digit and
-- for an overflow.
digits_from : ℕ → ℕ → Text → Option ℕ
digits_from limit value [] = some value
digits_from limit value (c ∷ cs) =
    let rest = digits_from limit (value * 10 + (c - b'0')) cs in
    if is_digit c && leb (value * 10 + (c - b'0')) limit then rest else none

abbrev digits : ℕ → Text → Option ℕ
digits limit [] = none
digits limit (c ∷ cs) = digits_from limit 0 (c ∷ cs)

abbrev negated : ℕ → ℤ
negated zero = pos zero
negated (suc n) = negsuc n

-- A sign, then at least one digit.
unfoldable pub parse_i64 : Text → Option ℤ
unfolding digits_from
parse_i64 [] = none
parse_i64 (c ∷ cs) =
    if c == b'-'
    then Option.map negated (digits (max_i64 + 1) cs)
    else if c == b'+'
    then Option.map pos (digits max_i64 cs)
    else Option.map pos (digits max_i64 (c ∷ cs))

abbrev max_u64 : ℕ
max_u64 = 18446744073709551615

-- `str::parse::<u64>`: a plus sign is accepted.
unfoldable pub parse_u64 : Text → Option ℕ
unfolding digits_from
parse_u64 [] = none
parse_u64 (c ∷ cs) = if c == b'+' then digits max_u64 cs else digits max_u64 (c ∷ cs)

digits_from-print_on :
    (fuel n limit : ℕ) (later : Text)
    → n < fuel
    → n ≤ limit
    → digits_from limit 0 (print_on fuel n later) ≡ digits_from limit n later
unfolding digits_from print_on
digits_from-print_on zero n limit later f h = ground arith
digits_from-print_on (suc fuel) n limit later f h =
    ground (arith, digits_from-print_on fuel (n / 10) limit ((b'0' + n % 10) ∷ later))

-- A text of digits, not empty.
abbrev pub AreDigits : Text → Type 0
AreDigits [] = Unit
AreDigits (c ∷ cs) = (is_digit c ≡ true) × AreDigits cs

print_on-AreDigits :
    (fuel n : ℕ) (later : Text) → AreDigits later → AreDigits (print_on fuel n later)
unfolding print_on
print_on-AreDigits zero n later h = h
print_on-AreDigits (suc fuel) n later h =
    let more = print_on-AreDigits fuel (n / 10) ((b'0' + n % 10) ∷ later) (ground arith, h) in
    elim (Bool-cases (ltb n 10)) [ inl e ↦ rw e (ground arith, h) | inr e ↦ rw e more ]

pub to_string-AreDigits : (n : ℕ) → AreDigits (to_string n)
unfolding to_string
to_string-AreDigits n = print_on-AreDigits (n + 1) n [] tt

parse_i64-digits :
    (s : Text) → s ≢ [] → AreDigits s → parse_i64 s ≡ Option.map pos (digits_from max_i64 0 s)
unfolding parse_i64
parse_i64-digits [] h d = absurd (h refl)
parse_i64-digits (c ∷ cs) h d = ground arith

print_on-ne-nil : (fuel n c : ℕ) (later : Text) → print_on fuel n (c ∷ later) ≢ []
unfolding print_on
print_on-ne-nil zero n c later = cc
print_on-ne-nil (suc fuel) n c later =
    ground (arith, print_on-ne-nil fuel (n / 10) (b'0' + n % 10) (c ∷ later))

pub to_string-ne-nil : (n : ℕ) → to_string n ≢ []
unfolding to_string
to_string-ne-nil n =
    let first : print_on (suc n) n [] ≢ [] =
      ground (arith, print_on-ne-nil n (n / 10) (b'0' + n % 10) []) in
    subst (λ fuel. print_on fuel n [] ≢ []) {x = suc n} (omega arith) first

-- What is printed is read back.
pub parse_i64-to_string : (n : ℕ) → n ≤ max_i64 → parse_i64 (to_string n) ≡ some (pos n)
unfolding to_string digits_from
parse_i64-to_string n h =
    parse_i64-digits (to_string n) (to_string-ne-nil n) (to_string-AreDigits n)
    ∙ ap (Option.map pos) (digits_from-print_on (n + 1) n max_i64 [] (omega arith) h)
