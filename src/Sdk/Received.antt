-- ===== src/Sdk/Received.antt =====
-- What crates/thermite-sdk/src/envelope.rs writes is what crates/thermite-core/src/protocol/envelope.rs
-- reads.
use thermite_rs.Prelude.{
  Bytes, Option, Result, Text, [], arith, false, length, none, ok, refl, some, true, ℕ, ◌++◌, ◌<◌,
  ◌^◌, ◌∷◌, ◌≡◌, ◌≢◌,
}
use thermite_rs.Envelope.Suffix.{has_newline}
use thermite_rs.Envelope.Parser.{Codec, Item, item_type, parse}
use thermite_rs.Envelope.RoundTrip.{IsWritten, Written, parse-write, write}
use thermite_rs.Credentials.Dsn.{Dsn}
use thermite_rs.Sdk.Frame.{FrameHeaders, FrameItemHeaders, Serializer, frame, headers_of}

-- The headers are written as one line of UTF-8 each, and the server's decoder reads them from it: the
-- id and the DSN, and the type.
pub record IsAgreed (serializer : Serializer) (codec : Codec) (h : FrameHeaders)
    (i : FrameItemHeaders) (line item_line : Bytes) : Type 0 where
  pub headers_written : serializer.headers_to_writer h ≡ ok line
  pub item_written : serializer.item_to_writer i ≡ ok item_line
  pub not_empty : line ≢ []
  pub item_not_empty : item_line ≢ []
  pub one_line : has_newline line ≡ false
  pub item_one_line : has_newline item_line ≡ false
  pub utf8 : codec.is_utf8 line ≡ true
  pub item_utf8 : codec.is_utf8 item_line ≡ true
  pub headers_read :
      codec.envelope_from_slice line
      ≡ ok (record { event_id = h.event_id; dsn = some h.dsn; sent_at = none })
  pub item_read :
      codec.item_from_slice item_line
      ≡ ok (record { type = some i.type; length = none; content_type = none; filename = none })

-- The item that is sent.
abbrev pub sent_item : Text → Bytes → Item
sent_item item_type body = record {
  headers = record { type = some item_type; length = none; content_type = none; filename = none };
  payload = body;
}

-- The client's envelope, be it of an event or of a session, is written and is read by the server as one
-- item of that type whose payload is the serialized one, under the id and the DSN of the client: if the
-- serialized payload has no line feed, the header lines are read as they are written, and the envelope
-- is shorter than the address space.
pub parse-frame :
    {P : Type 0} (serializer : Serializer) (codec : Codec) (to_writer : P → Result Text Bytes)
    (event_id : Option ℕ) (item_type : Text) (payload : P) (target : Dsn)
    (line item_line body : Bytes)
    → IsAgreed serializer codec
        (headers_of serializer event_id target)
        (record { type = item_type })
        line
        item_line
    → to_writer payload ≡ ok body
    → has_newline body ≡ false
    → length (line ++ b'\n' ∷ (item_line ++ b'\n' ∷ (body ++ b'\n' ∷ []))) < 2 ^ 64
    → (bytes : Bytes) × (frame serializer to_writer event_id item_type payload target ≡ ok bytes)
      × (parse codec bytes
          ≡ some (
              ok (record {
                headers = record {
                  event_id = (headers_of serializer event_id target).event_id;
                  dsn = some target.raw;
                  sent_at = none;
                };
                items = sent_item item_type body ∷ [];
              })))
unfolding frame write
parse-frame serializer codec to_writer event_id item_type payload target line item_line body agreed
      written no_newline small =
    let w : Written = record { header = item_line; item = sent_item item_type body } in
    let is_written : IsWritten codec w = record {
      one_line = agreed.item_one_line;
      not_empty = agreed.item_not_empty;
      utf8 = agreed.item_utf8;
      decodes = agreed.item_read;
      framed = no_newline;
    } in
    (
      line ++ b'\n' ∷ (item_line ++ b'\n' ∷ (body ++ b'\n' ∷ [])),
      rw (agreed.headers_written, agreed.item_written, written) refl,
      parse-write codec line _ (w ∷ []) agreed.not_empty agreed.one_line agreed.utf8
          agreed.headers_read (omega arith) (is_written, tt) small,
    )
