-- ===== src/Event/Tags/Preserved.antt =====
-- What every call of `push` preserves holds of the whole list of tags.
use thermite_rs.Prelude.{List, Option, Text, [], codes, map, none, some, ◌∷◌}
use thermite_rs.Json.{
  Value, and_then, array, as_str, entries, get, item, lookup, nil, object, to_list,
}
use thermite_rs.Event.Basic.{str_field}
use thermite_rs.Event.Tags.{
  Tag, push, push_entries, push_given, push_item, push_items, push_pair, push_promoted, push_some,
  scalar, tags, user_key,
}

module _ (P : List Tag → Type 0)
    (keep : (key value : Text) (ts : List Tag) → P ts → P (push key value ts)) where
  push_some-P :
      (key : Text) (value : Option Text) (ts : List Tag) → P ts → P (push_some key value ts)
  unfolding push_some
  push_some-P key none ts b = b
  push_some-P key (some v) ts b = keep key v ts b

  push_pair-P : (key value : Option Text) (ts : List Tag) → P ts → P (push_pair key value ts)
  unfolding push_pair
  push_pair-P none value ts b = b
  push_pair-P (some key) value ts b = push_some-P key value ts b

  push_item-P : (v : Value) (ts : List Tag) → P ts → P (push_item v ts)
  unfolding push_item
  push_item-P (array (item k (item v nil))) ts b = push_pair-P (as_str k) (scalar v) ts b
  push_item-P (object map) ts b =
      push_pair-P (and_then (lookup (codes "key") map) as_str)
        (and_then (lookup (codes "value") map) scalar) ts b
  push_item-P _ ts b = b

  push_items-P : (vs : List Value) (ts : List Tag) → P ts → P (push_items vs ts)
  unfolding push_items
  push_items-P [] ts b = b
  push_items-P (v ∷ vs) ts b = push_items-P vs (push_item v ts) (push_item-P v ts b)

  push_entries-P : (es : List (Text × Value)) (ts : List Tag) → P ts → P (push_entries es ts)
  unfolding push_entries
  push_entries-P [] ts b = b
  push_entries-P ((k, v) ∷ es) ts b =
      push_entries-P es (push_some k (scalar v) ts) (push_some-P k (scalar v) ts b)

  push_given-P : (given : Option Value) (ts : List Tag) → P ts → P (push_given given ts)
  unfolding push_given
  push_given-P (some (object map)) ts b = push_entries-P (entries map) ts b
  push_given-P (some (array vs)) ts b = push_items-P (to_list vs) ts b
  push_given-P _ ts b = b

  push_promoted-P :
      (event : Value) (keys : List Text) (ts : List Tag) → P ts → P (push_promoted event keys ts)
  unfolding push_promoted
  push_promoted-P event [] ts b = b
  push_promoted-P event (k ∷ ks) ts b =
      push_promoted-P event ks (push_some k (str_field event k) ts)
        (push_some-P k (str_field event k) ts b)

  -- From the list after the first promoted field, `environment`.
  pub tags-P :
      (event : Value)
      → P (push_some (codes "environment") (str_field event (codes "environment")) [])
      → P (tags event)
  unfolding tags push_promoted
  tags-P event start = push_given-P (get (codes "tags") event) _ (
      push_some-P (codes "user") (user_key event) _ (
        push_promoted-P event (codes "release" ∷ codes "server_name" ∷ codes "transaction" ∷ [])
          (push_some (codes "environment") (str_field event (codes "environment")) []) start))
