-- ===== src/Ingest/Prefix.antt =====
-- The credential that stands in the envelope is read from a prefix of the body.
use thermite_rs.Prelude.{
  Bytes, Result, [], ap, arith, codes, err, false, length, min, ok, refl, some, suc, sym, take,
  zero, ℕ, ◌++◌, ◌+◌, ◌<◌, ◌>>=◌, ◌^◌, ◌∙◌, ◌∷◌, ◌≡◌,
}
use thermite_rs.Compression.Limits.{prefix_of_decoded}
use thermite_rs.Compression.{decode, decode_prefix}
use thermite_rs.Envelope.Cursor.{Cursor}
use thermite_rs.Envelope.Parser.{
  Codec, EnvelopeHeaders, ParseError, behind, header_line, headers_only, parse_envelope_headers,
  parse_headers, read_envelope_headers, start,
}
use thermite_rs.Envelope.Suffix.{advance, has_newline, read_line_at}
use thermite_rs.Ingest.Requests.{
  Config, Libraries, Request, dsn_key_from_prefix, dsn_of_headers, preauth_prefix_bytes,
  sentry_key_from_dsn,
}
use thermite_rs.Json.{and_then}

first_line_headers :
    (codec : Codec) (line more : Bytes)
    → has_newline line ≡ false
    → (c : Cursor) × (parse_envelope_headers codec (line ++ b'\n' ∷ more)
        ≡ headers_only (header_line codec (some (line, c))))
unfolding parse_envelope_headers read_envelope_headers
first_line_headers codec line more one = (
  advance (start (line ++ b'\n' ∷ more)) (length line + 1),
  rw (read_line_at (start (line ++ b'\n' ∷ more)) line more refl one) refl,
)

same_headers :
    (codec : Codec) (line : Bytes) (c c' : Cursor)
    → headers_only (header_line codec (some (line, c)))
      ≡ headers_only (header_line codec (some (line, c')))
unfolding headers_only header_line
same_headers codec [] c c' = refl
same_headers codec (b ∷ bs) c c' =
    forgets (parse_headers codec codec.envelope_from_slice (b ∷ bs) (codes "envelope"))
  where
    forgets :
        (h : Result ParseError EnvelopeHeaders)
        → headers_only (behind h c) ≡ headers_only (behind h c')
    forgets (ok h) = refl
    forgets (err e) = refl

take-line :
    (n : ℕ) (line more : Bytes)
    → length line < n
    → (kept : Bytes) × (take n (line ++ b'\n' ∷ more) ≡ line ++ b'\n' ∷ kept)
take-line zero line more h = elim h [ ]
take-line (suc n) [] more h = (take n more, refl)
take-line (suc n) (b ∷ line) more h =
    let (kept, e) = take-line n line more (omega arith) in (kept, ap (◌∷◌ b) e)

-- If the body decodes within its limit, and its first line, with its end, lies in the prefix that may
-- be decoded before authentication, then the key that is recovered from the prefix is the one that
-- the envelope's headers give for the whole body.
pub prefix_gives_the_credential :
    (lib : Libraries) (config : Config) (r : Request) (line more : Bytes)
    → config.max_envelope_bytes + 1 < 2 ^ 64
    → decode lib.decoders r.body r.content_encoding config.max_envelope_bytes
      ≡ ok (line ++ b'\n' ∷ more)
    → has_newline line ≡ false
    → length line < min preauth_prefix_bytes config.max_envelope_bytes
    → dsn_key_from_prefix lib config r
      ≡ and_then
          (dsn_of_headers (parse_envelope_headers lib.codec (line ++ b'\n' ∷ more)))
          (sentry_key_from_dsn lib)
unfolding dsn_key_from_prefix
prefix_gives_the_credential lib config r line more small whole one short =
    let n = min preauth_prefix_bytes config.max_envelope_bytes in
    let (kept, cut) = take-line n line more short in
    let given : decode_prefix lib.decoders r.body r.content_encoding n
        ≡ some (line ++ b'\n' ∷ kept) =
      prefix_of_decoded lib.decoders r.body r.content_encoding config.max_envelope_bytes n
        (line ++ b'\n' ∷ more) small whole
      ∙ ap some cut in
    let (c, e) = first_line_headers lib.codec line kept one in
    let (c', e') = first_line_headers lib.codec line more one in
    ap
      (λ prefix. prefix >>= λ p.
        (dsn_of_headers (parse_envelope_headers lib.codec p) >>= sentry_key_from_dsn lib))
      given
    ∙ ap (λ h. dsn_of_headers h >>= sentry_key_from_dsn lib)
        (e ∙ same_headers lib.codec line c c' ∙ sym e')
