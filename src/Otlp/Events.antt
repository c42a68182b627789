-- ===== src/Otlp/Events.antt =====
-- What the rest of the ingest reads of the event of a record.
use thermite_rs.Event.Exception.{
  describe_exception, exception_type_and_value, is_synthetic, main_exception, type_and_value,
}
use thermite_rs.Event.Basic.{level, max_type_len, max_value_len, trim, values_of}
use thermite_rs.Grouping.{Engine, group, normalize_message_for_grouping}
use thermite_rs.Grouping.Keys.{same_normalized_value_groups}
use thermite_rs.Prelude.{
  Bool-cases, Option, Text, [], ap, arith, codes, false, if◌then◌else◌, inl, inr, none, refl, some,
  sym, text_eq, text_eq_iff, ℤ, ◌∙◌, ◌∷◌, ◌≡◌,
}
use thermite_rs.Strings.{str_trim}
use thermite_rs.Json.{
  Fields, Value, and_then, array, as_str, end, field, get, item, lookup, nil, non_empty, object,
  or_else, pointer, string, to_list, unwrap_or,
}
use thermite_rs.Event.Fingerprint.{fingerprint}
use thermite_rs.Otlp.Record.{Record, at_least, insert, severity_fatal}
use thermite_rs.Otlp.Convert.{
  described, exception_of, extra, insert_exception, insert_map, insert_str, insert_tags,
  insert_text, insert_trimmed, level_of, message_of, one_field, platform, stamped, timestamp_of,
  to_event, trace, type_of,
}

lookup-insert : (key : Text) (v : Value) (m : Fields) → lookup key (insert key v m) ≡ some v
unfolding lookup insert
lookup-insert key v end = ground (arith, (text_eq_iff key key).1 refl)
lookup-insert key v (field k w m) = elim (Bool-cases (text_eq k key)) [
  | inl e ↦ rw e (rw e refl)
  | inr e ↦ rw e (rw e (lookup-insert key v m))
]

lookup-insert_other :
    (key other : Text) (v : Value) (m : Fields)
    → text_eq other key ≡ false
    → lookup key (insert other v m) ≡ lookup key m
unfolding lookup insert
lookup-insert_other key other v end h = ground arith
lookup-insert_other key other v (field k w m) h = elim (Bool-cases (text_eq k other)) [
  | inl e ↦
      let miss : text_eq k key ≡ false = rw ((text_eq_iff k other).0 e) h in rw e (rw miss refl)
  | inr e ↦
      rw e (ap (λ x. if text_eq k key then some w else x) (lookup-insert_other key other v m h))
]

lookup-insert_map :
    (key other : Text) (added : Fields) (shown : Fields → Value) (m : Fields)
    → text_eq other key ≡ false
    → lookup key (insert_map other added shown m) ≡ lookup key m
unfolding insert_map
lookup-insert_map key other end shown m h = refl
lookup-insert_map key other (field k v fs) shown m h = lookup-insert_other key other _ m h

lookup-insert_trimmed :
    (key other text : Text) (m : Fields)
    → text_eq other key ≡ false
    → lookup key (insert_trimmed other text m) ≡ lookup key m
unfolding insert_trimmed
lookup-insert_trimmed key other [] m h = refl
lookup-insert_trimmed key other (c ∷ cs) m h = lookup-insert_other key other _ m h

lookup-insert_text :
    (key other : Text) (text : Option Text) (m : Fields)
    → text_eq other key ≡ false
    → lookup key (insert_text other text m) ≡ lookup key m
unfolding insert_text
lookup-insert_text key other none m h = refl
lookup-insert_text key other (some text) m h = lookup-insert_trimmed key other (str_trim text) m h

lookup-insert_tags :
    (key : Text) (service : Option Text) (m : Fields)
    → text_eq (codes "tags") key ≡ false
    → lookup key (insert_tags service m) ≡ lookup key m
unfolding insert_tags
lookup-insert_tags key none m h = refl
lookup-insert_tags key (some service) m h = lookup-insert_other key (codes "tags") _ m h

-- What stands in the event under the keys that are always there.
module _ (to_rfc3339 : ℤ → Text) (r : Record) (resource : Fields) where
  abbrev event : Value
  event = to_event to_rfc3339 r resource

  -- Behind the entries that are made last.
  lookup-to_event :
      (key : Text)
      → text_eq (codes "extra") key ≡ false
      → text_eq (codes "contexts") key ≡ false
      → get key event
        ≡ lookup key (insert_exception r (type_of r) (described to_rfc3339 r resource))
  unfolding get to_event
  lookup-to_event key e c =
      lookup-insert_map key (codes "extra") (extra r) object _ e
      ∙ lookup-insert_map key (codes "contexts") (trace r)
          (λ t. one_field (codes "trace") (object t)) _ c

  get-exception :
      (type : Text)
      → type_of r ≡ some type
      → get (codes "exception") event
        ≡ some (one_field (codes "values") (array (item (exception_of type (message_of r)) nil)))
  unfolding insert_exception
  get-exception type e =
      lookup-to_event (codes "exception") refl refl
      ∙ rw e (lookup-insert (codes "exception") _ (described to_rfc3339 r resource))

  lookup-insert_exception :
      (key : Text) (type : Option Text) (m : Fields)
      → text_eq (codes "exception") key ≡ false
      → text_eq (codes "logentry") key ≡ false
      → lookup key (insert_exception r type m) ≡ lookup key m
  unfolding insert_exception
  lookup-insert_exception key (some type) m e l = lookup-insert_other key (codes "exception") _ m e
  lookup-insert_exception key none m e l = lookup-insert_other key (codes "logentry") _ m l

  -- A key that the resource gives nothing for.
  record IsOwn (key : Text) : Type 0 where
    no_release : text_eq (codes "release") key ≡ false
    no_environment : text_eq (codes "environment") key ≡ false
    no_server_name : text_eq (codes "server_name") key ≡ false
    no_tags : text_eq (codes "tags") key ≡ false

  lookup-described :
      (key : Text)
      → IsOwn key
      → lookup key (described to_rfc3339 r resource) ≡ lookup key (stamped to_rfc3339 r resource)
  unfolding described insert_str
  lookup-described key own =
      let first = stamped to_rfc3339 r resource in
      let release = and_then (lookup (codes "service.version") resource) as_str in
      let released = insert_text (codes "release") release first in
      let environment =
        and_then
          (or_else (lookup (codes "deployment.environment.name") resource)
            (lookup (codes "deployment.environment") resource))
          as_str in
      let placed = insert_text (codes "environment") environment released in
      let host = and_then (lookup (codes "host.name") resource) as_str in
      let named = insert_text (codes "server_name") host placed in
      lookup-insert_tags key (and_then (lookup (codes "service.name") resource) as_str) named
        own.no_tags
      ∙ lookup-insert_text key (codes "server_name") host placed own.no_server_name
      ∙ lookup-insert_text key (codes "environment") environment released own.no_environment
      ∙ lookup-insert_text key (codes "release") release first own.no_release

  get-own :
      (key : Text)
      → IsOwn key
      → text_eq (codes "extra") key ≡ false
      → text_eq (codes "contexts") key ≡ false
      → text_eq (codes "exception") key ≡ false
      → text_eq (codes "logentry") key ≡ false
      → get key event ≡ lookup key (stamped to_rfc3339 r resource)
  get-own key own e c x l =
      lookup-to_event key e c
      ∙ lookup-insert_exception key (type_of r) (described to_rfc3339 r resource) x l
      ∙ lookup-described key own

  get-level : get (codes "level") event ≡ some (string (level_of r))
  unfolding stamped insert
  get-level =
      get-own (codes "level")
        (record { no_release = refl; no_environment = refl; no_server_name = refl; no_tags = refl })
        refl refl refl refl
      ∙ lookup-insert (codes "level") (string (level_of r)) (
          insert (codes "platform") (string (platform resource))
            (insert (codes "timestamp") (timestamp_of to_rfc3339 r.time_unix_nano) end))

  get-fingerprint : get (codes "fingerprint") event ≡ none
  unfolding stamped lookup insert
  get-fingerprint =
      get-own (codes "fingerprint")
        (record { no_release = refl; no_environment = refl; no_server_name = refl; no_tags = refl })
        refl refl refl refl

  level-to_event : level event ≡ level_of r
  unfolding level text_eq
  level-to_event = elim (Bool-cases (at_least severity_fatal r.severity_number)) [
    | inl e ↦ rw (get-level, e) refl
    | inr e ↦ rw (get-level, e) refl
  ]

  fingerprint-to_event : fingerprint event ≡ none
  unfolding fingerprint
  fingerprint-to_event = rw get-fingerprint refl

  -- The type and the message are those of the record's attributes.
  type_and_value-to_event :
      (type : Text)
      → type_of r ≡ some type
      → type_and_value event ≡ (
        trim (unwrap_or (non_empty (some (str_trim type))) (codes "Error")) max_type_len,
        trim (message_of r) max_value_len,
      )
  unfolding type_and_value exception_type_and_value main_exception values_of describe_exception
      is_synthetic lookup get pointer to_list
  type_and_value-to_event type e = rw (get-exception type e) refl

-- Two records with the same exception type, and with messages that normalize to the same text, are made
-- into payloads of one grouping hash, as they are before scrubbing, whatever resources they come from
-- and whatever else they carry.
pub records_with_one_message_group :
    (engine : Engine) (to_rfc3339 : ℤ → Text) (a b : Record) (from_a from_b : Fields) (type : Text)
    → type_of a ≡ some type
    → type_of b ≡ some type
    → normalize_message_for_grouping engine (trim (message_of a) max_value_len)
      ≡ normalize_message_for_grouping engine (trim (message_of b) max_value_len)
    → (group engine (to_event to_rfc3339 a from_a)).hash
      ≡ (group engine (to_event to_rfc3339 b from_b)).hash
records_with_one_message_group engine to_rfc3339 a b from_a from_b type ta tb same =
    let read_a = type_and_value-to_event to_rfc3339 a from_a type ta in
    let read_b = type_and_value-to_event to_rfc3339 b from_b type tb in
    same_normalized_value_groups engine (to_event to_rfc3339 a from_a)
      (to_event to_rfc3339 b from_b) (fingerprint-to_event to_rfc3339 a from_a)
      (fingerprint-to_event to_rfc3339 b from_b)
      (ap (λ (x : Text × Text). x.0) read_a ∙ sym (ap (λ (x : Text × Text). x.0) read_b))
      (ap (λ (x : Text × Text). normalize_message_for_grouping engine x.1) read_a
        ∙ same
        ∙ sym (ap (λ (x : Text × Text). normalize_message_for_grouping engine x.1) read_b))
