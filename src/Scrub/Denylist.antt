-- ===== src/Scrub/Denylist.antt =====
-- What the list of patterns catches.
use thermite_rs.Prelude.{
  Bool, List, Text, [], any, arith, false, filter, map, not, refl, true, ◌++◌, ◌||◌, ◌∷◌, ◌≡◌,
}
use thermite_rs.Json.{is_empty}
use thermite_rs.Strings.{contains, is_prefix}
use thermite_rs.Scrub.{default_denylist, matches, new, normalize}

any-append : (p : Text → Bool) (xs ys : List Text) → any p (xs ++ ys) ≡ (any p xs || any p ys)
any-append p [] ys = refl
any-append p (x ∷ xs) ys = ground (arith, any-append p xs ys)

new-append :
    (extra : List Text) → new extra ≡ new [] ++ filter (λ e. not (is_empty e)) (map normalize extra)
unfolding new
new-append extra = refl

-- The separators are gone and the letters are lower case, so a second pass changes nothing.
normalize-normalize : (k : Text) → normalize (normalize k) ≡ normalize k
unfolding normalize
normalize-normalize [] = refl
normalize-normalize (c ∷ cs) = ground (arith, normalize-normalize cs)

-- Entries of `THERMITE_SCRUB_FIELDS` only add to the list: a key that the default list matches is
-- matched whatever the extra entries are.
new_extends :
    (extra : List Text) (k : Text) → matches (new []) k ≡ true → matches (new extra) k ≡ true
unfolding matches
new_extends extra k h = ground (
  arith,
  new-append extra,
  any-append (λ entry. contains entry (normalize k)) (new [])
      (filter (λ e. not (is_empty e)) (map normalize extra)),
)

normalize-append : (a b : Text) → normalize (a ++ b) ≡ normalize a ++ normalize b
unfolding normalize
normalize-append [] b = refl
normalize-append (c ∷ cs) b = ground (arith, normalize-append cs b)

is_prefix-append : (p s : Text) → is_prefix p (p ++ s) ≡ true
unfolding contains
is_prefix-append [] s = refl
is_prefix-append (c ∷ cs) s = ground (arith, is_prefix-append cs s)

contains-append : (a p b : Text) → contains p (a ++ (p ++ b)) ≡ true
unfolding contains
contains-append [] [] [] = refl
contains-append [] [] (c ∷ b) = refl
contains-append [] (c ∷ p) b = ground (arith, is_prefix-append (c ∷ p) b)
contains-append (c ∷ a) p b = ground (arith, contains-append a p b)

any-filter :
    (p : Text → Bool) (before after : List Text) (f : Text)
    → is_empty (normalize f) ≡ false
    → p (normalize f) ≡ true
    → any p (filter (λ e. not (is_empty e)) (map normalize (before ++ f ∷ after))) ≡ true
any-filter p [] after f full hit = rw (full, hit)
any-filter p (b ∷ before) after f full hit = ground (arith, any-filter p before after f full hit)

-- A configured field that is more than separators is matched in every key that contains it,
-- whatever stands around it.
configured_field_matches :
    (before after : List Text) (f pre post : Text)
    → is_empty (normalize f) ≡ false
    → matches (new (before ++ f ∷ after)) (pre ++ (f ++ post)) ≡ true
unfolding matches new
configured_field_matches before after f pre post full =
    any-filter (λ entry. contains entry (normalize (pre ++ (f ++ post))))
      (default_denylist ++ before) after f full
      (rw (normalize-append, normalize-append)
        (contains-append (normalize pre) (normalize f) (normalize post)))
