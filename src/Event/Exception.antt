-- ===== src/Event/Exception.antt =====
-- The exception, the title and the crash location of an event.
pub mod Titles
pub mod Location
use mathlib.Core.Option
use mathlib.Core.List.{reverse}
use thermite_rs.Prelude.{
  Bool, List, Option, Text, [], codes, false, if◌then◌else◌, leb, length, map, none, not, some,
  text_eq, true, ◌&&◌, ◌++◌, ◌||◌, ◌∷◌,
}
use thermite_rs.Strings.{first_line, str_trim}
use thermite_rs.Json.{
  Value, and_then, as_array, as_bool, as_str, get, is_empty, is_object, non_empty, or_else, pointer,
  unwrap_or,
}
use thermite_rs.Event.Basic.{max_title_len, max_type_len, max_value_len, str_field, trim, values_of}

-- `.into_iter().rfind(..)`: the last element that passes.
abbrev pub rfind {ℓ} : {A : Type ℓ} → (A → Bool) → List A → Option A
rfind p [] = none
rfind p (x ∷ xs) = or_else (rfind p xs) (if p x then some x else none)

unfoldable pub main_exception : Value → Option Value
unfolding values_of get
main_exception event = rfind is_object (values_of (get (codes "exception") event))

abbrev pub is_nil {ℓ} : {A : Type ℓ} → List A → Bool
is_nil [] = true
is_nil (x ∷ xs) = false

-- `Value::as_array` of `/stacktrace/frames`.
frames_at : Value → Option (List Value)
unfolding pointer as_array
frames_at v = and_then (pointer (codes "stacktrace" ∷ codes "frames" ∷ []) v) as_array

frames_of_thread : List Value → Option (List Value)
frames_of_thread (thread ∷ []) = elim (frames_at thread) [
  | none ↦ none
  | some fs ↦ if is_nil fs then none else some fs
]
frames_of_thread threads = none

unfoldable pub frames : Value → Option (List Value)
unfolding frames_at frames_of_thread main_exception values_of get
frames event = elim (or_else (and_then (main_exception event) frames_at) (frames_at event)) [
  | some (f ∷ fs) ↦ some (f ∷ fs)
  | _ ↦ frames_of_thread (values_of (get (codes "threads") event))
]

-- A location: the file, and the function.
abbrev pub Location : Type 0
Location = Option Text × Option Text

frame_location : Value → Location
unfolding get
frame_location frame = (
  or_else (and_then (get (codes "filename") frame) as_str)
      (and_then (get (codes "abs_path") frame) as_str),
  and_then (get (codes "function") frame) as_str,
)

named : Option Text → Bool
unfolding text_eq
named none = false
named (some f) = not (text_eq f (codes "<redacted>") || text_eq f (codes "<unknown>"))

-- A frame that the loop does not skip: an object whose function was not stripped.
unfoldable pub usable : Value → Bool
unfolding named get
usable frame = is_object frame && named (and_then (get (codes "function") frame) as_str)

unfoldable pub in_app : Value → Bool
unfolding get
in_app frame = unwrap_or (and_then (get (codes "in_app") frame) as_bool) false

pub location_or_none : Option Value → Location
unfolding frame_location
location_or_none none = (none, none)
location_or_none (some frame) = frame_location frame

-- The loop, over the frames from the innermost outward.
unfoldable pub walk : Option Value → List Value → Location
unfolding location_or_none usable in_app
walk fallback [] = location_or_none fallback
walk fallback (frame ∷ rest) =
    let skip = walk fallback rest in
    let next = walk (or_else fallback (some frame)) rest in
    if not (usable frame) then skip else if in_app frame then frame_location frame else next

unfoldable pub crash_location : Value → Location
unfolding walk frames
crash_location event = elim (frames event) [
  | none ↦ (none, none)
  | some fs ↦ walk none (reverse fs)
]

culprit_of : Location → Option Text → Option Text
culprit_of (some file, some function) transaction = some (file ++ (codes " in " ++ function))
culprit_of (some file, none) transaction = some file
culprit_of (none, some function) transaction = some function
culprit_of (none, none) transaction = transaction

unfoldable pub culprit : Value → Option Text
unfolding culprit_of crash_location str_field
culprit event = culprit_of (crash_location event) (str_field event (codes "transaction"))

synthetic_type : Option Text → Text × Text
synthetic_type (some function) = (trim function max_type_len, [])
synthetic_type none = (codes "<unknown>", [])

unfoldable pub is_synthetic : Value → Bool
unfolding pointer
is_synthetic exception =
    unwrap_or (and_then (pointer (codes "mechanism" ∷ codes "synthetic" ∷ []) exception) as_bool)
      false

-- The main exception, and the function of the crash location.
unfoldable pub describe_exception : Option Value → Option Text → Text × Text
unfolding synthetic_type is_synthetic str_trim get
describe_exception none function = (codes "<unknown>", [])
describe_exception (some exception) function =
    if is_synthetic exception then synthetic_type function else (
      trim
          (unwrap_or
            (non_empty (Option.map str_trim (and_then (get (codes "type") exception) as_str)))
            (codes "Error"))
          max_type_len,
      trim (unwrap_or (and_then (get (codes "value") exception) as_str) []) max_value_len,
    )

unfoldable pub exception_type_and_value : Value → Text × Text
unfolding describe_exception main_exception crash_location
exception_type_and_value event = describe_exception (main_exception event) (crash_location event).1

abbrev message_paths : List (List Text)
message_paths =
    (codes "logentry" ∷ codes "message" ∷ [])
    ∷ (codes "logentry" ∷ codes "formatted" ∷ [])
    ∷ (codes "message" ∷ codes "message" ∷ [])
    ∷ (codes "message" ∷ codes "formatted" ∷ [])
    ∷ []

find_text : Value → List (List Text) → Option Text
unfolding pointer
find_text event [] = none
find_text event (path ∷ paths) =
    or_else (and_then (pointer path event) as_str) (find_text event paths)

log_type_and_value : Option Text → Text × Text
unfolding first_line
log_type_and_value (some message) = (codes "Log Message", trim (first_line message) max_value_len)
log_type_and_value none = (codes "Log Message", codes "<no log message>")

unfoldable pub log_message_type_and_value : Value → Text × Text
unfolding log_type_and_value find_text str_trim get
log_message_type_and_value event = log_type_and_value (
    non_empty (
      Option.map str_trim
        (or_else (find_text event message_paths) (and_then (get (codes "message") event) as_str))))

unfoldable pub type_and_value : Value → Text × Text
unfolding exception_type_and_value log_message_type_and_value values_of get
type_and_value event =
    if is_nil (values_of (get (codes "exception") event))
    then log_message_type_and_value event
    else exception_type_and_value event

unfoldable pub title : Text → Text → Text
unfolding first_line
title exception_type value =
    if is_empty (first_line value)
    then exception_type
    else exception_type ++ (codes ": " ++ first_line value)

-- The mark is U+2026.
cap_title : Text → Text
cap_title whole =
    if leb (length whole) max_title_len then whole else trim whole max_title_len ++ 0x2026 ∷ []

unfoldable pub display_title : Text → Text → Text
unfolding cap_title title
display_title exception_type value = cap_title (title exception_type value)
