-- ===== src/Grouping/Keys.antt =====
-- What the grouping key depends on, and how long it can get.
use mathlib.Core.Path.{ap₂}
use thermite_rs.Prelude.{
  All, List, Option, Text, [], any, ap, arith, codes, false, length, length-append, map, none, refl,
  some, suc, sym, ℕ, ◌*◌, ◌+◌, ◌∙◌, ◌∷◌, ◌≡◌, ◌≤◌,
}
use thermite_rs.Strings.{join}
use thermite_rs.Json.{Value, and_then, as_array, get, unwrap_or}
use thermite_rs.Event.Exception.{title, type_and_value}
use thermite_rs.Event.Fingerprint.Bounds.{fingerprint_bounds}
use thermite_rs.Event.Fingerprint.{NumbersWithin, fingerprint}
use thermite_rs.Grouping.{
  Engine, default_if_asked, default_key, group, is_placeholder, key_of,
  normalize_message_for_grouping, substitute,
}

-- The default key of an event.
abbrev pub event_default : Engine → Value → Text
event_default e event = default_key e (type_and_value event).0 (type_and_value event).1

key_lem :
    (e : Engine) (event : Value)
    → (group e event).key ≡ key_of (event_default e event) (fingerprint event)
unfolding group
key_lem e event = refl

hash_lem : (e : Engine) (event : Value) → (group e event).hash ≡ e.sha256 (group e event).key
unfolding group
hash_lem e event = refl

key_of-none : (default : Text) → key_of default none ≡ default
unfolding key_of
key_of-none default = refl

plain_key :
    (e : Engine) (event : Value)
    → fingerprint event ≡ none
    → (group e event).key ≡ event_default e event
plain_key e event h = rw (key_lem, h) (key_of-none _)

default_key-eq :
    (e : Engine) (t u v w : Text)
    → t ≡ u
    → normalize_message_for_grouping e v ≡ normalize_message_for_grouping e w
    → default_key e t v ≡ default_key e u w
unfolding default_key
default_key-eq e t u v w p q = ap₂ title p q

-- Two events that carry no fingerprint, with the same exception type and with values that
-- normalize to the same text, have the same grouping hash, whatever else they hold.
pub same_normalized_value_groups :
    (e : Engine) (a b : Value)
    → fingerprint a ≡ none
    → fingerprint b ≡ none
    → (type_and_value a).0 ≡ (type_and_value b).0
    → normalize_message_for_grouping e (type_and_value a).1
      ≡ normalize_message_for_grouping e (type_and_value b).1
    → (group e a).hash ≡ (group e b).hash
same_normalized_value_groups e a b fa fb t n =
    hash_lem e a
    ∙ ap e.sha256 (plain_key e a fa ∙ default_key-eq e _ _ _ _ t n ∙ sym (plain_key e b fb))
    ∙ sym (hash_lem e b)

substitute-none : (ps : List Text) → map (substitute none) ps ≡ ps
unfolding substitute
substitute-none [] = refl
substitute-none (p ∷ ps) = ap (◌∷◌ p) (substitute-none ps)

plain_parts :
    (default : Text) (ps : List Text)
    → any is_placeholder ps ≡ false
    → key_of default (some ps) ≡ join (codes "|") ps
unfolding key_of
plain_parts default ps plain =
    rw (plain, default_if_asked) (ap (join (codes "|")) (substitute-none ps))

-- An explicit fingerprint that holds no placeholder is the key verbatim, its parts joined by `|`;
-- so events with the same fingerprint group together whatever exception they carry.
pub explicit_fingerprint_is_the_key :
    (e : Engine) (event : Value) (ps : List Text)
    → fingerprint event ≡ some ps
    → any is_placeholder ps ≡ false
    → ((group e event).key ≡ join (codes "|") ps)
      × ((group e event).hash ≡ e.sha256 (join (codes "|") ps))
explicit_fingerprint_is_the_key e event ps given plain =
    let k : (group e event).key ≡ join (codes "|") ps =
      rw (key_lem, given) (plain_parts (event_default e event) ps plain) in
    (k, hash_lem e event ∙ ap e.sha256 k)

length-join :
    (m : ℕ) (ps : List Text)
    → All (λ p. length p ≤ m) ps
    → length (join (codes "|") ps) ≤ length ps * (m + 1)
unfolding join
length-join m [] h = omega arith
length-join m (p ∷ []) h = omega arith
length-join m (p ∷ q ∷ ps) h =
    omega (arith, length-append p (b'|' ∷ join (codes "|") (q ∷ ps)), length-join m (q ∷ ps) h.1)

All-substitute :
    (m : ℕ) (d : Option Text) (ps : List Text)
    → length (unwrap_or d []) ≤ m
    → All (λ p. length p ≤ m) ps
    → All (λ p. length p ≤ m) (map (substitute d) ps)
unfolding substitute
All-substitute m d [] h a = tt
All-substitute m none (p ∷ ps) h a = (a.0, All-substitute m none ps h a.1)
All-substitute m (some t) (p ∷ ps) h a = ground (arith, All-substitute m (some t) ps h)

All-weaken :
    (m n : ℕ) (ps : List Text) → m ≤ n → All (λ p. length p ≤ m) ps → All (λ p. length p ≤ n) ps
All-weaken m n [] le h = tt
All-weaken m n (p ∷ ps) le h = (omega arith, All-weaken m n ps le h.1)

asked-le :
    (default : Text) (ps : List Text) (m : ℕ)
    → length default ≤ m
    → length (unwrap_or (default_if_asked default ps) []) ≤ m
unfolding default_if_asked
asked-le default ps m d = ground arith

key_of-some :
    (default : Text) (ps : List Text)
    → key_of default (some ps)
      ≡ join (codes "|") (map (substitute (default_if_asked default ps)) ps)
unfolding key_of
key_of-some default ps = refl

length-map : (ps : List Text) (f : Text → Text) → length (map f ps) ≡ length ps
length-map [] f = refl
length-map (p ∷ ps) f = ap suc (length-map ps f)

bound_by_count : (n w k : ℕ) → n ≤ 32 → k ≤ n * w → k ≤ 32 * w
bound_by_count n w k few h = grind arith

key_of-length :
    (default : Text) (ps : List Text) (m : ℕ)
    → length ps ≤ 32
    → All (λ p. length p ≤ m) ps
    → length default ≤ m
    → length (key_of default (some ps)) ≤ 32 * (m + 1)
key_of-length default ps m few short d =
    let asked = default_if_asked default ps in
    rw (key_of-some default ps) (
      bound_by_count (length ps) (m + 1) _ few (
        rw (length-map ps (substitute asked)) at (
          length-join m (map (substitute asked) ps)
            (All-substitute m asked ps (asked-le default ps m d) short))))

-- However many placeholders the payload asks for, the grouping key of an event with a fingerprint is
-- no longer than 32 times (m + 1), where m is at least 256 and at least the length of the default
-- key, if the payload's numbers are rendered in at most 256 characters.
key_length_bound :
    (e : Engine) (event : Value) (values : List Value) (ps : List Text) (m : ℕ)
    → and_then (get (codes "fingerprint") event) as_array ≡ some values
    → NumbersWithin 256 values
    → fingerprint event ≡ some ps
    → 256 ≤ m
    → length (event_default e event) ≤ m
    → length (group e event).key ≤ 32 * (m + 1)
key_length_bound e event values ps m listed numbers given le default =
    let b = fingerprint_bounds event values ps listed numbers given in
    rw (key_lem, given)
      (key_of-length (event_default e event) ps m b.1 (All-weaken 256 m ps le b.2) default)
