-- ===== src/Tests/Events.antt =====
-- The readings of an event and its grouping, at a concrete payload.
use thermite_rs.Prelude.{
  Bool, List, Text, [], any, arith, codes, false, length, none, refl, some, true, ◌∷◌, ◌≡◌, ◌≤◌,
}
use thermite_rs.Json.{
  Value, and_then, array, as_array, bool, end, field, get, item, nil, number, object, or_else,
  string,
}
use thermite_rs.Event.Basic.{TimeParser, str_field}
use thermite_rs.Event.Exception.{
  crash_location, frames, in_app, location_or_none, rfind, type_and_value, usable,
}
use thermite_rs.Event.Exception.Location.{crash_location_lem, usable_in_app}
use thermite_rs.Event.Tags.{tags}
use thermite_rs.Event.Tags.Bounds.{IsBounded, tags-IsBounded}
use thermite_rs.Event.Fingerprint.{fingerprint}
use thermite_rs.Grouping.{
  Engine, default_key, group, is_placeholder, normalize_message_for_grouping,
}
use thermite_rs.Grouping.Keys.{event_default, same_normalized_value_groups}

abbrev frame : Text → Bool → Value
frame function in_app =
    object (field (codes "function") (string function) (field (codes "in_app") (bool in_app) end))

abbrev stack : Value
stack = object (
    field (codes "frames")
      (array (item (frame (codes "main") true) (item (frame (codes "panic") false) nil))) end)

abbrev exceptions : Value
exceptions = array (
    item
      (object (
        field (codes "type") (string (codes "E"))
          (field (codes "value") (string (codes "at 1")) (field (codes "stacktrace") stack end))))
      nil)

-- An event with an exception, its frames, an environment and a fingerprint.
abbrev event : Value
event = object (
    field (codes "exception") exceptions (
      field (codes "environment") (string (codes "prod")) (
        field (codes "fingerprint")
          (array (item (string (codes "db")) (item (number (codes "7")) nil)))
          (field (codes "timestamp") (number (codes "1000")) end))))

-- A parser that reads every number as second 1000.
abbrev times : TimeParser
times = record {
  parse_from_rfc3339 = λ _. none;
  parse_naive = λ _ _. none;
  epoch_of_number = λ _. some 1000;
  epoch_of_text = λ _. none;
}

abbrev its_frames : List Value
its_frames = frame (codes "main") true ∷ frame (codes "panic") false ∷ []

has_frames : frames event ≡ some its_frames
unfolding frames
has_frames = refl

crash_location_lem_example :
    crash_location event
    ≡ location_or_none (or_else (rfind usable_in_app its_frames) (rfind usable its_frames))
crash_location_lem_example = crash_location_lem event its_frames has_frames

tags-IsBounded_example : IsBounded (tags event)
tags-IsBounded_example = tags-IsBounded event

has_environment : str_field event (codes "environment") ≡ some (codes "prod")
unfolding str_field
has_environment = refl

abbrev given : List Value
given = string (codes "db") ∷ number (codes "7") ∷ []

abbrev fingerprinted : List Text
fingerprinted = codes "db" ∷ codes "7" ∷ []

has_values : and_then (get (codes "fingerprint") event) as_array ≡ some given
unfolding get as_array
has_values = refl

has_fingerprint : fingerprint event ≡ some fingerprinted
unfolding fingerprint
has_fingerprint = refl

-- A parameterization that drops everything, and a hash that is the text.
abbrev engine : Engine
engine = record { parameterize = λ _. []; sha256 = λ t. t }

abbrev plain : Text → Value
plain message = object (
    field (codes "exception")
      (array (
        item
          (object (
            field (codes "type") (string (codes "E")) (field (codes "value") (string message) end)))
          nil))
      end)

same_normalized_value_groups_example :
    (group engine (plain (codes "at 1"))).hash ≡ (group engine (plain (codes "at 2"))).hash
unfolding fingerprint type_and_value normalize_message_for_grouping
same_normalized_value_groups_example =
    same_normalized_value_groups engine (plain (codes "at 1")) (plain (codes "at 2")) refl refl refl
      refl

no_placeholder : any is_placeholder fingerprinted ≡ false
unfolding is_placeholder
no_placeholder = refl

short_default : length (event_default engine event) ≤ 300
unfolding default_key type_and_value normalize_message_for_grouping
short_default = omega arith
