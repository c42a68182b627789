-- ===== src/Grouping.antt =====
-- Which issue an event belongs to: crates/thermite-core/src/protocol/grouping.rs, and the message
-- normalization of crates/thermite-core/src/protocol/normalize.rs.
pub mod Keys
use thermite_rs.Prelude.{
  Bool, Bytes, List, Option, Text, any, codes, filter, if◌then◌else◌, map, none, not, some, take,
  text_eq, ◌++◌,
}
use thermite_rs.Strings.{join, lines, str_trim}
use thermite_rs.Json.{Value, is_empty}
use thermite_rs.Event.Exception.{culprit, display_title, title, type_and_value}
use thermite_rs.Event.Fingerprint.{fingerprint}

-- The library code that grouping calls: the regular expression's `replace_all` with its closure, and
-- SHA-256 of the text's UTF-8 bytes.
pub record Engine : Type 0 where
  pub parameterize : Text → Text
  pub sha256 : Text → Bytes

is_blank : Text → Bool
unfolding str_trim
is_blank line = is_empty (str_trim line)

-- The first two lines that are not blank, with a mark where something was dropped.
two_lines : Text → Text
unfolding is_blank lines join
two_lines message =
    join (codes "\n") (take 2 (filter (λ line. not (is_blank line)) (lines message)))

mark_dropped : Text → Text → Text
unfolding text_eq
mark_dropped trimmed message =
    if not (text_eq trimmed message) then trimmed ++ codes "..." else trimmed

unfoldable pub normalize_message_for_grouping : Engine → Text → Text
unfolding two_lines mark_dropped
normalize_message_for_grouping e message = e.parameterize (mark_dropped (two_lines message) message)

pub record Grouping : Type 0 where
  pub key : Text
  pub hash : Bytes
  pub shown_title : Text
  pub shown_culprit : Option Text
  pub exception_type : Text
  pub exception_value : Text

abbrev default_placeholder : Text
default_placeholder = codes "{{ default }}"

unfoldable pub is_placeholder : Text → Bool
unfolding str_trim text_eq
is_placeholder part = text_eq (str_trim part) default_placeholder

unfoldable pub default_key : Engine → Text → Text → Text
unfolding normalize_message_for_grouping title
default_key e exception_type exception_value =
    title exception_type (normalize_message_for_grouping e exception_value)

-- The default key, if some part asks for it.
default_if_asked : Text → List Text → Option Text
unfolding is_placeholder
default_if_asked default ps = if any is_placeholder ps then some default else none

substitute : Option Text → Text → Text
unfolding is_placeholder
substitute none part = part
substitute (some default) part = if is_placeholder part then default else part

key_of : Text → Option (List Text) → Text
unfolding substitute default_if_asked join
key_of default (some ps) = join (codes "|") (map (substitute (default_if_asked default ps)) ps)
key_of default none = default

unfoldable pub group : Engine → Value → Grouping
unfolding key_of default_key type_and_value fingerprint display_title culprit
group e event =
    let t = (type_and_value event).0 in
    let v = (type_and_value event).1 in
    let k = key_of (default_key e t v) (fingerprint event) in
    record {
      key = k;
      hash = e.sha256 k;
      shown_title = display_title t v;
      shown_culprit = culprit event;
      exception_type = t;
      exception_value = v;
    }
