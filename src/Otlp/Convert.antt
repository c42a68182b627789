-- ===== src/Otlp/Convert.antt =====
-- `to_event` of ingest/otlp/convert.rs: the payload that the rest of the ingest reads.
use thermite_rs.Prelude.{
  Option, Text, [], codes, false, if◌then◌else◌, ltb, negsuc, none, not, pos, some, text_eq, ℕ, ℤ,
  ◌&&◌, ◌-◌, ◌==◌, ◌^◌, ◌||◌, ◌∷◌,
}
use thermite_rs.Strings.{str_trim}
use thermite_rs.Json.{
  Fields, Value, and_then, array, as_str, bool, end, field, item, lookup, nil, null, object,
  or_else, string, unwrap_or,
}
use thermite_rs.Otlp.Record.{
  Record, at_least, exception_message, exception_type, insert, severity_fatal,
}

-- `nanos as i64`.
abbrev pub as_i64 : ℕ → ℤ
as_i64 nanos = if ltb nanos (2 ^ 63) then pos nanos else negsuc (2 ^ 64 - 1 - nanos)

-- `DateTime::from_timestamp_nanos(..).to_rfc3339()` is an argument.
unfoldable pub timestamp_of : (ℤ → Text) → ℕ → Value
timestamp_of to_rfc3339 nanos = if nanos == 0 then null else string (to_rfc3339 (as_i64 nanos))

platform_of : Text → Text
unfolding text_eq
platform_of language =
    if text_eq language (codes "dotnet")
    then codes "csharp"
    else if text_eq language (codes "nodejs") || text_eq language (codes "webjs")
    then codes "javascript"
    else if text_eq language (codes "python")
        || (text_eq language (codes "java")
            || (text_eq language (codes "go")
                || (text_eq language (codes "ruby")
                    || (text_eq language (codes "php") || text_eq language (codes "rust")))))
    then language
    else codes "other"

platform_or_other : Option Text → Text
unfolding platform_of
platform_or_other none = codes "other"
platform_or_other (some language) = platform_of language

unfoldable pub platform : Fields → Text
unfolding platform_or_other lookup
platform resource =
    platform_or_other (and_then (lookup (codes "telemetry.sdk.language") resource) as_str)

unfoldable pub insert_trimmed : Text → Text → Fields → Fields
unfolding insert
insert_trimmed key [] target = target
insert_trimmed key (c ∷ cs) target = insert key (string (c ∷ cs)) target

-- `insert_str`.
unfoldable pub insert_text : Text → Option Text → Fields → Fields
unfolding str_trim insert_trimmed
insert_text key none target = target
insert_text key (some text) target = insert_trimmed key (str_trim text) target

unfoldable pub insert_str : Fields → Text → Option Value → Fields
unfolding insert_text
insert_str target key value = insert_text key (and_then value as_str) target

abbrev pub one_field : Text → Value → Value
one_field key value = object (field key value end)

-- The exception interface of a type and a value.
abbrev pub exception_of : Text → Text → Value
exception_of type value = object (
    field (codes "type") (string type) (
      field (codes "value") (string value) (
        field (codes "mechanism")
          (object (
            field (codes "type") (string (codes "otlp"))
              (field (codes "handled") (bool false) end)))
          end)))

unfoldable pub message_of : Record → Text
unfolding lookup
message_of r =
    unwrap_or (or_else (and_then (lookup exception_message r.attributes) as_str) r.body) []

unfoldable pub type_of : Record → Option Text
unfolding lookup
type_of r = and_then (lookup exception_type r.attributes) as_str

-- `exception`, entered in the event, or else the log message.
unfoldable pub insert_exception : Record → Option Text → Fields → Fields
unfolding insert message_of
insert_exception r (some type) event =
    insert (codes "exception")
      (one_field (codes "values") (array (item (exception_of type (message_of r)) nil))) event
insert_exception r none event =
    insert (codes "logentry") (one_field (codes "message") (string (unwrap_or r.body []))) event

unfoldable pub insert_id : Text → Option Text → Fields → Fields
unfolding insert
insert_id key none target = target
insert_id key (some id) target = insert key (string id) target

unfoldable pub trace : Record → Fields
unfolding insert_id
trace r = insert_id (codes "span_id") r.span_id (insert_id (codes "trace_id") r.trace_id end)

-- The attributes that are not read otherwise.
other_attributes : Fields → Fields
unfolding text_eq
other_attributes end = end
other_attributes (field k v fs) =
    let rest = other_attributes fs in
    if not (text_eq k exception_type) && not (text_eq k exception_message)
    then field k v rest
    else rest

-- `entry("body").or_insert_with(..)`.
insert_body : Option Value → Text → Fields → Fields
unfolding insert
insert_body (some v) body extra = extra
insert_body none body extra = insert (codes "body") (string body) extra

with_body : Option Value → Option Text → Fields → Fields
unfolding insert_body lookup
with_body (some type) (some body) extra = insert_body (lookup (codes "body") extra) body extra
with_body (some type) none extra = extra
with_body none body extra = extra

unfoldable pub extra : Record → Fields
unfolding other_attributes with_body lookup
extra r = with_body (lookup exception_type r.attributes) r.body (other_attributes r.attributes)

-- A field that is left out when its map is empty.
unfoldable pub insert_map : Text → Fields → (Fields → Value) → Fields → Fields
unfolding insert
insert_map key end shown event = event
insert_map key (field k v fs) shown event = insert key (shown (field k v fs)) event

unfoldable pub insert_tags : Option Text → Fields → Fields
unfolding insert
insert_tags none event = event
insert_tags (some service) event =
    insert (codes "tags") (one_field (codes "component") (string service)) event

abbrev pub level_of : Record → Text
level_of r = if at_least severity_fatal r.severity_number then codes "fatal" else codes "error"

-- The fields that every event has.
unfoldable pub stamped : (ℤ → Text) → Record → Fields → Fields
unfolding timestamp_of platform insert
stamped to_rfc3339 r resource = insert (codes "level") (string (level_of r)) (
    insert (codes "platform") (string (platform resource))
      (insert (codes "timestamp") (timestamp_of to_rfc3339 r.time_unix_nano) end))

-- The event up to its tags.
unfoldable pub described : (ℤ → Text) → Record → Fields → Fields
unfolding stamped insert_str insert_tags lookup
described to_rfc3339 r resource =
    let released =
      insert_str (stamped to_rfc3339 r resource) (codes "release")
        (lookup (codes "service.version") resource) in
    let placed = insert_str released (codes "environment") (
      or_else (lookup (codes "deployment.environment.name") resource)
        (lookup (codes "deployment.environment") resource)) in
    let named = insert_str placed (codes "server_name") (lookup (codes "host.name") resource) in
    insert_tags (and_then (lookup (codes "service.name") resource) as_str) named

unfoldable pub to_event : (ℤ → Text) → Record → Fields → Value
unfolding described insert_exception type_of trace extra insert_map
to_event to_rfc3339 r resource =
    let event = insert_exception r (type_of r) (described to_rfc3339 r resource) in
    let traced =
      insert_map (codes "contexts") (trace r) (λ t. one_field (codes "trace") (object t)) event in
    object (insert_map (codes "extra") (extra r) object traced)
