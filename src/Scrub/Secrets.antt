-- ===== src/Scrub/Secrets.antt =====
-- What is left in a payload that went through `scrub`.
use thermite_rs.Prelude.{Bool-cases, Text, ap, arith, false, inl, inr, refl, sym, true, ◌≡◌, ◌⊎◌}
use thermite_rs.Json.{
  Fields, Items, Value, array, bool, end, field, item, nil, null, number, object, string,
}
use thermite_rs.Scrub.{ScrubList, filtered, matches, scrub, scrub_entries, scrub_items, scrub_pair}

abbrev pub pair : Text → Value → Value
pair k w = array (item (string k) (item w nil))

-- The key `k` stands with the value `w` somewhere in a payload: as an entry of an object, or as a
-- two-element array among the items of an array, at any depth.
unfoldable mutual
  pub Occurs : Text → Value → Value → Type 0
  Occurs k w (object fs) = OccursEntry k w fs
  Occurs k w (array vs) = OccursItem k w vs
  Occurs k w v = ⊥

  OccursItem : Text → Value → Items → Type 0
  OccursItem k w nil = ⊥
  OccursItem k w (item v vs) = (v ≡ pair k w) ⊎ (Occurs k w v ⊎ OccursItem k w vs)

  OccursEntry : Text → Value → Fields → Type 0
  OccursEntry k w end = ⊥
  OccursEntry k w (field j v fs) = ((j ≡ k) × (v ≡ w)) ⊎ (Occurs k w v ⊎ OccursEntry k w fs)

module _ (l : ScrubList) (k : Text) (w : Value) (secret : matches l k ≡ true) where
  string_before : (v : Value) → scrub_pair l v (scrub l v) ≡ string k → v ≡ string k
  unfolding scrub
  string_before (array (item (string j) (item u nil))) e = ground arith
  string_before (array _) e = cc
  string_before (object fs) e = cc
  string_before _ e = e

  -- A pair behind `scrub` was a pair before, with the same key.
  pair_before : (v : Value) → scrub_pair l v (scrub l v) ≡ pair k w → w ≡ filtered
  unfolding scrub
  pair_before (array (item (string j) (item u nil))) e = ground arith
  pair_before (array (item v (item u nil))) e = ground (arith, string_before v)
  pair_before _ e = cc

  Occurs-before : (v d : Value) → Occurs k w (scrub_pair l v d) → Occurs k w d
  unfolding scrub_pair Occurs
  Occurs-before (array (item (string j) (item u nil))) d o = elim (Bool-cases (matches l j)) [
    | inl found ↦ absurd (ground arith)
    | inr other ↦ rw other at o
  ]
  Occurs-before _ d o = o

  mutual
    unfolding scrub Occurs

    entry_filtered : (v : Value) → Occurs k w (scrub l v) → w ≡ filtered
    entry_filtered (object fs) o = entries_filtered fs o
    entry_filtered (array vs) o = items_filtered vs o
    entry_filtered null o = absurd o
    entry_filtered (bool b) o = absurd o
    entry_filtered (number n) o = absurd o
    entry_filtered (string s) o = absurd o

    items_filtered : (vs : Items) → OccursItem k w (scrub_items l vs) → w ≡ filtered
    items_filtered nil o = absurd o
    items_filtered (item v vs) (inl e) = pair_before v e
    items_filtered (item v vs) (inr (inl o)) = entry_filtered v (Occurs-before v (scrub l v) o)
    items_filtered (item v vs) (inr (inr o)) = items_filtered vs o

    entries_filtered : (fs : Fields) → OccursEntry k w (scrub_entries l fs) → w ≡ filtered
    entries_filtered end o = absurd o
    entries_filtered (field j v fs) (inl e) = ground arith
    entries_filtered (field j v fs) (inr (inl o)) = elim (Bool-cases (matches l j)) [
      | inl found ↦ absurd (rw found at o)
      | inr other ↦ entry_filtered v (rw other at o)
    ]
    entries_filtered (field j v fs) (inr (inr o)) = entries_filtered fs o

-- After `scrub`, whatever stands under a key that the list matches is the marker, at every depth of
-- the payload, be it an entry of an object or a key-value pair in a list.
pub scrub_hides_secrets :
    (l : ScrubList) (k : Text) (w v : Value)
    → matches l k ≡ true
    → Occurs k w (scrub l v)
    → w ≡ filtered
scrub_hides_secrets l k w v secret o = entry_filtered l k w secret v o

module _ (l : ScrubList) where
  pair_twice : (v d : Value) → scrub l d ≡ d → scrub l (scrub_pair l v d) ≡ scrub_pair l v d
  unfolding scrub
  pair_twice (array (item (string j) (item u nil))) d e = ground arith
  pair_twice _ d e = e

  scrub_pair_self :
      (x : Value)
      → ((k : Text) (w : Value) → matches l k ≡ true → x ≡ pair k w → w ≡ filtered)
      → scrub_pair l x x ≡ x
  unfolding scrub_pair
  scrub_pair_self (array (item (string j) (item u nil))) h = elim (Bool-cases (matches l j)) [
    | inl found ↦ rw found (ap (pair j) (sym (h j u found refl)))
    | inr other ↦ rw other
  ]
  scrub_pair_self _ h = refl

  -- A pair that is replaced once is replaced by the same again.
  scrub_pair_twice :
      (v : Value)
      → scrub l (scrub l v) ≡ scrub l v
      → scrub_pair l (scrub_pair l v (scrub l v)) (scrub l (scrub_pair l v (scrub l v)))
        ≡ scrub_pair l v (scrub l v)
  unfolding scrub
  scrub_pair_twice v e =
      rw (pair_twice v (scrub l v) e)
        (scrub_pair_self (scrub_pair l v (scrub l v)) (λ k w found q. pair_before l k w found v q))

  mutual
    unfolding scrub

    twice : (v : Value) → scrub l (scrub l v) ≡ scrub l v
    twice (object fs) = ap object (twice_entries fs)
    twice (array vs) = ap array (twice_items vs)
    twice null = refl
    twice (bool b) = refl
    twice (number n) = refl
    twice (string s) = refl

    twice_items : (vs : Items) → scrub_items l (scrub_items l vs) ≡ scrub_items l vs
    twice_items nil = refl
    twice_items (item v vs) = cc (scrub_pair_twice v (twice v), twice_items vs)

    twice_entries : (fs : Fields) → scrub_entries l (scrub_entries l fs) ≡ scrub_entries l fs
    twice_entries end = refl
    twice_entries (field j v fs) = ground (arith, twice v, twice_entries fs)

  pair_untouched :
      (v d : Value)
      → ((k : Text) (w : Value) → v ≡ pair k w → matches l k ≡ false)
      → scrub_pair l v d ≡ d
  unfolding scrub_pair
  pair_untouched (array (item (string j) (item u nil))) d h = rw (h j u refl)
  pair_untouched _ d h = refl

  mutual
    unfolding scrub Occurs

    untouched :
        (v : Value) → ((k : Text) (w : Value) → Occurs k w v → matches l k ≡ false) → scrub l v ≡ v
    untouched (object fs) h = ap object (untouched_entries fs h)
    untouched (array vs) h = ap array (untouched_items vs h)
    untouched null h = refl
    untouched (bool b) h = refl
    untouched (number n) h = refl
    untouched (string s) h = refl

    untouched_items :
        (vs : Items)
        → ((k : Text) (w : Value) → OccursItem k w vs → matches l k ≡ false)
        → scrub_items l vs ≡ vs
    untouched_items nil h = refl
    untouched_items (item v vs) h = cc (
      pair_untouched v (scrub l v) (λ k w e. h k w (inl e)),
      untouched v (λ k w o. h k w (inr (inl o))),
      untouched_items vs (λ k w o. h k w (inr (inr o))),
    )

    untouched_entries :
        (fs : Fields)
        → ((k : Text) (w : Value) → OccursEntry k w fs → matches l k ≡ false)
        → scrub_entries l fs ≡ fs
    untouched_entries end h = refl
    untouched_entries (field j v fs) h = rw (h j v (inl (refl, refl))) (
        cc (
          untouched v (λ k w o. h k w (inr (inl o))),
          untouched_entries fs (λ k w o. h k w (inr (inr o))),
        ))

-- Scrubbing a scrubbed payload changes nothing.
pub scrub-scrub : (l : ScrubList) (v : Value) → scrub l (scrub l v) ≡ scrub l v
scrub-scrub l v = twice l v

-- A payload that holds no key that the list matches is left exactly as it was.
scrub_keeps_the_rest :
    (l : ScrubList) (v : Value)
    → ((k : Text) (w : Value) → Occurs k w v → matches l k ≡ false)
    → scrub l v ≡ v
scrub_keeps_the_rest l v h = untouched l v h
