-- ===== src/Event/Tags/Bounds.antt =====
-- Every list of tags is short, has distinct keys and no empty part.
use thermite_rs.Prelude.{
  Bool-cases, List, Option, Text, [], append-nil, append_assoc, arith, codes, false, inl, inr,
  length, length-append, length-take-le, ltb, none, not, some, ◌&&◌, ◌++◌, ◌∷◌, ◌≡◌, ◌≤◌,
}
use thermite_rs.Json.{Value, is_empty}
use thermite_rs.Event.Basic.{str_field}
use thermite_rs.Event.Tags.Preserved.{tags-P}
use thermite_rs.Event.Tags.{Tag, has_key, max_tags, push, push_some, push_trimmed, tags}

-- A key or a value as it is kept.
abbrev IsKept : Text → Type 0
IsKept s = (is_empty s ≡ false) × (length s ≤ 200)

-- From the first tag on: each is kept in both parts, and none has the key of one before it.
abbrev IsTagList : List Tag → List Tag → Type 0
IsTagList before [] = Unit
IsTagList before (t ∷ ts) =
    IsKept t.0 × IsKept t.1 × (has_key t.0 before ≡ false) × IsTagList (before ++ t ∷ []) ts

pub record IsBounded (ts : List Tag) : Type 0 where
  pub few : length ts ≤ 50
  pub well_formed : IsTagList [] ts

IsTagList-snoc :
    (before ts : List Tag) (t : Tag)
    → IsTagList before ts
    → IsKept t.0
    → IsKept t.1
    → has_key t.0 (before ++ ts) ≡ false
    → IsTagList before (ts ++ t ∷ [])
IsTagList-snoc before [] t h k v new = (k, v, rw append-nil at new, tt)
IsTagList-snoc before (s ∷ ts) t h k v new =
    (h.0, h.1, h.2, IsTagList-snoc (before ++ s ∷ []) ts t h.3 k v (rw append_assoc new))

push_trimmed-IsBounded :
    (key value : Text) (ts : List Tag)
    → length key ≤ 200
    → length value ≤ 200
    → IsBounded ts
    → IsBounded (push_trimmed key value ts)
unfolding push_trimmed
push_trimmed-IsBounded key value ts h k b =
    elim (Bool-cases (
      not (is_empty key)
      && (not (is_empty value) && (ltb (length ts) max_tags && not (has_key key ts))))) [
        | inl fits ↦ rw fits (record {
          few = ground (arith, length-append ts ((key, value) ∷ []));
          well_formed =
              IsTagList-snoc [] ts (key, value) b.well_formed (ground arith, h) (ground arith, k)
                (ground arith);
        })
        | inr full ↦ rw full b
      ]

push-IsBounded : (key value : Text) (ts : List Tag) → IsBounded ts → IsBounded (push key value ts)
unfolding push
push-IsBounded key value ts b =
    push_trimmed-IsBounded _ _ ts (length-take-le 200 _) (length-take-le 200 _) b

first-IsBounded : (o : Option Text) → IsBounded (push_some (codes "environment") o [])
unfolding push_some
first-IsBounded none = record { few = omega arith; well_formed = tt }
first-IsBounded (some v) =
    push-IsBounded (codes "environment") v [] (record { few = omega arith; well_formed = tt })

-- Whatever the payload holds, at most 50 tags are kept, no two with the same key, and no key or
-- value is empty or longer than 200 characters.
pub tags-IsBounded : (event : Value) → IsBounded (tags event)
tags-IsBounded event =
    tags-P IsBounded push-IsBounded event (first-IsBounded (str_field event (codes "environment")))
