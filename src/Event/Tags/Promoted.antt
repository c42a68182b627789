-- ===== src/Event/Tags/Promoted.antt =====
-- The promoted environment comes first.
use mathlib.Core.Option
use thermite_rs.Prelude.{
  Bool-cases, List, Option, Text, [], arith, codes, false, inl, inr, length, ltb, none, not, refl,
  some, take, ◌&&◌, ◌++◌, ◌∷◌, ◌≡◌,
}
use thermite_rs.Strings.{str_trim, str_trim-str_trim}
use thermite_rs.Json.{Value, and_then, as_str, get, is_empty, non_empty}
use thermite_rs.Event.Basic.{str_field, trim}
use thermite_rs.Event.Tags.{
  Tag, has_key, max_tag_chars, max_tags, push, push_some, push_trimmed, tags,
}
use thermite_rs.Event.Tags.Preserved.{tags-P}

-- The list begins with this tag.
abbrev StartsWith : Tag → List Tag → Type 0
StartsWith t [] = ⊥
StartsWith t (s ∷ ss) = s ≡ t

StartsWith-append : (t : Tag) (ts us : List Tag) → StartsWith t ts → StartsWith t (ts ++ us)
StartsWith-append t [] us h = absurd h
StartsWith-append t (s ∷ ss) us h = h

push_trimmed-StartsWith :
    (t : Tag) (key value : Text) (ts : List Tag)
    → StartsWith t ts
    → StartsWith t (push_trimmed key value ts)
unfolding push_trimmed
push_trimmed-StartsWith t key value ts h =
    elim (Bool-cases (
      not (is_empty key)
      && (not (is_empty value) && (ltb (length ts) max_tags && not (has_key key ts))))) [
        | inl fits ↦ rw fits (StartsWith-append t ts ((key, value) ∷ []) h)
        | inr full ↦ rw full h
      ]

push-StartsWith :
    (t : Tag) (key value : Text) (ts : List Tag)
    → StartsWith t ts
    → StartsWith t (push key value ts)
unfolding push
push-StartsWith t key value ts h =
    push_trimmed-StartsWith t (trim (str_trim key) max_tag_chars)
      (trim (str_trim value) max_tag_chars) ts h

trimmed_field :
    (o : Option Text) {v : Text}
    → non_empty (Option.map str_trim o) ≡ some v
    → (str_trim v ≡ v) × (is_empty v ≡ false)
trimmed_field none h = cc
trimmed_field (some s) h = ground (arith, str_trim-str_trim s)

str_field_trimmed :
    (event : Value) (key : Text) {v : Text}
    → str_field event key ≡ some v
    → (str_trim v ≡ v) × (is_empty v ≡ false)
unfolding str_field
str_field_trimmed event key h = trimmed_field (and_then (get key event) as_str) h

push_lem :
    (key value : Text) (ts : List Tag)
    → push key value ts
      ≡ push_trimmed (trim (str_trim key) max_tag_chars) (trim (str_trim value) max_tag_chars) ts
unfolding push
push_lem key value ts = refl

trim_environment : str_trim (codes "environment") ≡ codes "environment"
unfolding str_trim
trim_environment = refl

first_environment :
    (v : Text)
    → (str_trim v ≡ v) × (is_empty v ≡ false)
    → StartsWith (codes "environment", take 200 v) (push_some (codes "environment") (some v) [])
unfolding push_some push_trimmed
first_environment [] h = cc h.1
first_environment (c ∷ cs) h = rw (push_lem, h.0, trim_environment) refl

-- An event whose `environment` field is not blank has that environment, cut to 200 characters, as
-- its first tag, whatever tags the SDK sent and however many.
environment_comes_first :
    (event : Value) (v : Text)
    → str_field event (codes "environment") ≡ some v
    → StartsWith (codes "environment", take 200 v) (tags event)
environment_comes_first event v h =
    tags-P (StartsWith (codes "environment", take 200 v)) (push-StartsWith _) event
      (rw h (first_environment v (str_field_trimmed event (codes "environment") h)))
