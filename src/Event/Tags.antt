-- ===== src/Event/Tags.antt =====
-- `tags` and `user_key` of crates/thermite-core/src/protocol/event.rs.
mod Preserved
pub mod Bounds
pub mod Promoted
use mathlib.Core.Option
use thermite_rs.Prelude.{
  Bool, List, Option, Text, [], any, codes, false, if◌then◌else◌, length, ltb, map, none, not, some,
  text_eq, true, ℕ, ◌&&◌, ◌++◌, ◌∷◌,
}
use thermite_rs.Strings.{str_trim}
use thermite_rs.Json.{
  Fields, Value, and_then, array, as_str, bool, entries, get, is_empty, item, lookup, nil,
  non_empty, number, object, or_else, string, to_list,
}
use thermite_rs.Event.Basic.{str_field, trim}

abbrev pub max_tag_chars : ℕ
max_tag_chars = 200

abbrev pub max_tags : ℕ
max_tags = 50

abbrev pub Tag : Type 0
Tag = Text × Text

-- Whether a tag with this key is there; the `seen` set holds the keys of the tags pushed.
pub has_key : Text → List Tag → Bool
has_key key tags = any (λ t. text_eq t.0 key) tags

push_trimmed : Text → Text → List Tag → List Tag
unfolding has_key text_eq
push_trimmed key value tags =
    if not (is_empty key)
      && (not (is_empty value) && (ltb (length tags) max_tags && not (has_key key tags)))
    then tags ++ (key, value) ∷ []
    else tags

-- The closure `push`.
unfoldable pub push : Text → Text → List Tag → List Tag
unfolding push_trimmed str_trim
push key value tags =
    push_trimmed (trim (str_trim key) max_tag_chars) (trim (str_trim value) max_tag_chars) tags

pub push_some : Text → Option Text → List Tag → List Tag
unfolding push
push_some key none tags = tags
push_some key (some value) tags = push key value tags

-- The closure `scalar`.
abbrev scalar : Value → Option Text
scalar (string s) = some s
scalar (number n) = some n
scalar (bool true) = some (codes "true")
scalar (bool false) = some (codes "false")
scalar _ = none

push_entries : List (Text × Value) → List Tag → List Tag
unfolding push_some
push_entries [] tags = tags
push_entries ((key, value) ∷ es) tags = push_entries es (push_some key (scalar value) tags)

push_pair : Option Text → Option Text → List Tag → List Tag
unfolding push_some
push_pair none value tags = tags
push_pair (some key) value tags = push_some key value tags

-- One entry of a tag list: a pair, or an object with `key` and `value`.
push_item : Value → List Tag → List Tag
unfolding push_pair lookup
push_item (array (item k (item v nil))) tags = push_pair (as_str k) (scalar v) tags
push_item (object map) tags =
    push_pair (and_then (lookup (codes "key") map) as_str)
      (and_then (lookup (codes "value") map) scalar) tags
push_item _ tags = tags

push_items : List Value → List Tag → List Tag
unfolding push_item
push_items [] tags = tags
push_items (v ∷ vs) tags = push_items vs (push_item v tags)

push_given : Option Value → List Tag → List Tag
unfolding push_entries push_items to_list entries
push_given (some (object map)) tags = push_entries (entries map) tags
push_given (some (array vs)) tags = push_items (to_list vs) tags
push_given _ tags = tags

abbrev promoted_fields : List Text
promoted_fields =
    codes "environment" ∷ codes "release" ∷ codes "server_name" ∷ codes "transaction" ∷ []

push_promoted : Value → List Text → List Tag → List Tag
unfolding push_some str_field
push_promoted event [] tags = tags
push_promoted event (key ∷ keys) tags =
    push_promoted event keys (push_some key (str_field event key) tags)

-- The text of an identifying field, if it is a number or a text that is not blank.
identity : Option Value → Option Text
unfolding str_trim
identity (some (string s)) = non_empty (some (str_trim s))
identity (some (number n)) = some n
identity _ = none

user_fields : Fields → List Text → Option Text
unfolding identity lookup
user_fields map [] = none
user_fields map (name ∷ names) =
    or_else (Option.map (λ v. name ++ (codes ":" ++ v)) (identity (lookup name map)))
      (user_fields map names)

user_in : Option Value → Option Text
unfolding user_fields
user_in (some (object map)) = user_fields map (codes "id" ∷ codes "username" ∷ codes "email" ∷ [])
user_in _ = none

unfoldable pub user_key : Value → Option Text
unfolding user_in get
user_key event = user_in (get (codes "user") event)

unfoldable pub tags : Value → List Tag
unfolding push_given push_promoted user_key get
tags event =
    push_given (get (codes "tags") event)
      (push_some (codes "user") (user_key event) (push_promoted event promoted_fields []))
