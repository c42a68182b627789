-- ===== src/Sdk/Frame.antt =====
-- crates/thermite-sdk/src/envelope.rs: the envelope that the client posts.
use thermite_rs.Prelude.{Bytes, Option, Result, Text, [], codes, err, none, ok, some, ℕ, ◌++◌, ◌∷◌}
use thermite_rs.Credentials.Dsn.{Dsn}
use thermite_rs.Sessions.Lifecycle.{Update}
use thermite_rs.Sdk.Event.{Event}

-- `EnvelopeHeaders` and `ItemHeaders` of that file.
pub record FrameHeaders : Type 0 where
  pub event_id : Option Text
  pub dsn : Text

pub record FrameItemHeaders : Type 0 where
  pub type : Text

-- The library code: `serde_json::to_writer` for either type of header, an event and a session, whose error is
-- its text, and the 32 digits of an id.
pub record Serializer : Type 0 where
  pub headers_to_writer : FrameHeaders → Result Text Bytes
  pub item_to_writer : FrameItemHeaders → Result Text Bytes
  pub event_to_writer : Event → Result Text Bytes
  pub update_to_writer : Update → Result Text Bytes
  pub simple : ℕ → Text

abbrev simple_id : Serializer → Option ℕ → Option Text
simple_id serializer none = none
simple_id serializer (some id) = some (serializer.simple id)

abbrev pub headers_of : Serializer → Option ℕ → Dsn → FrameHeaders
headers_of serializer event_id target = record {
  event_id = simple_id serializer event_id;
  dsn = target.raw;
}

-- The operator `?`.
and_then : {A B : Type 0} → Result Text A → (A → Result Text B) → Result Text B
and_then (ok a) f = f a
and_then (err e) f = err e

module _ {P : Type 0} (serializer : Serializer) (to_writer : P → Result Text Bytes) where
  unfoldable pub frame : Option ℕ → Text → P → Dsn → Result Text Bytes
  unfolding and_then
  frame event_id item_type payload target =
      and_then (serializer.headers_to_writer (headers_of serializer event_id target)) (λ headers.
        and_then (serializer.item_to_writer (record { type = item_type })) (λ item.
          and_then (to_writer payload)
            (λ body. ok (headers ++ b'\n' ∷ (item ++ b'\n' ∷ (body ++ b'\n' ∷ []))))))

unfoldable pub event_envelope : Serializer → Event → Dsn → Result Text Bytes
unfolding frame
event_envelope serializer event target =
    frame serializer serializer.event_to_writer (some event.event_id) (codes "event") event target

unfoldable pub session_envelope : Serializer → Update → Dsn → Result Text Bytes
unfolding frame
session_envelope serializer update target =
    frame serializer serializer.update_to_writer none (codes "session") update target
