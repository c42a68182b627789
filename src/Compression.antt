-- ===== src/Compression.antt =====
-- Decompression of request bodies: crates/thermite-core/src/protocol/compression.rs.
pub mod Limits
use thermite_rs.Prelude.{
  Bool, Bytes, Option, Result, Text, [], codes, err, if◌then◌else◌, leb, length, ltb, none, ok,
  some, take, text_eq, ℕ, ◌%◌, ◌+◌, ◌^◌, ◌||◌,
}
use thermite_rs.Strings.{str_trim}
use thermite_rs.Json.{is_empty, unwrap_or}

pub data DecodeError : Type 0 where
  unsupported_encoding : Text → DecodeError
  malformed : Text → Text → DecodeError
  too_large : ℕ → DecodeError

-- What a decompressing reader yields: bytes, and then perhaps an error.
pub record Stream : Type 0 where
  pub bytes : Bytes
  pub failure : Option Text

-- The readers of the libraries, over a body. That of zstd can fail to be made.
pub record Decoders : Type 0 where
  pub gzip : Bytes → Stream
  pub deflate : Bytes → Stream
  pub br : Bytes → Stream
  pub zstd : Bytes → Result Text Stream

-- `reader.take(n).read_to_end(&mut out)`: what `out` then holds, and the error. A reader that has
-- given `n` bytes is not asked again.
unfoldable pub read_to_end : ℕ → Stream → Bytes × Option Text
read_to_end n s = if leb n (length s.bytes) then (take n s.bytes, none) else (s.bytes, s.failure)

kept : Bytes × Option Text → Option Bytes
kept (out, none) = some out
kept (out, some e) = if is_empty out then none else some out

unfoldable pub read_prefix : Stream → ℕ → Option Bytes
unfolding kept read_to_end
read_prefix s limit = kept (read_to_end limit s)

capped : Text → ℕ → Bytes × Option Text → Result DecodeError Bytes
capped encoding limit (out, some e) = err (malformed encoding e)
capped encoding limit (out, none) = if ltb limit (length out) then err (too_large limit) else ok out

-- One byte past the limit is read; the addition is that of u64.
unfoldable pub read_capped : Stream → Text → ℕ → Result DecodeError Bytes
unfolding capped read_to_end
read_capped s encoding limit = capped encoding limit (read_to_end ((limit + 1) % 2 ^ 64) s)

abbrev pub is_identity : Text → Bool
is_identity encoding = text_eq encoding [] || text_eq encoding (codes "identity")

abbrev pub is_gzip : Text → Bool
is_gzip encoding = text_eq encoding (codes "gzip") || text_eq encoding (codes "x-gzip")

unfoldable pub zstd_capped : Result Text Stream → ℕ → Result DecodeError Bytes
unfolding read_capped
zstd_capped (err e) limit = err (malformed (codes "zstd") e)
zstd_capped (ok s) limit = read_capped s (codes "zstd") limit

unfoldable pub zstd_prefix : Result Text Stream → ℕ → Option Bytes
unfolding read_prefix
zstd_prefix (err e) limit = none
zstd_prefix (ok s) limit = read_prefix s limit

unfoldable pub identity_capped : Bytes → ℕ → Result DecodeError Bytes
identity_capped body limit = if ltb limit (length body) then err (too_large limit) else ok body

unfoldable pub decode_as : Decoders → Bytes → Text → ℕ → Result DecodeError Bytes
unfolding identity_capped read_capped zstd_capped text_eq
decode_as d body encoding limit =
    if is_identity encoding
    then identity_capped body limit
    else if is_gzip encoding
    then read_capped (d.gzip body) (codes "gzip") limit
    else if text_eq encoding (codes "deflate")
    then read_capped (d.deflate body) (codes "deflate") limit
    else if text_eq encoding (codes "br")
    then read_capped (d.br body) (codes "br") limit
    else if text_eq encoding (codes "zstd")
    then zstd_capped (d.zstd body) limit
    else err (unsupported_encoding encoding)

unfoldable pub decode : Decoders → Bytes → Option Text → ℕ → Result DecodeError Bytes
unfolding decode_as str_trim
decode d body content_encoding limit =
    decode_as d body (str_trim (unwrap_or content_encoding [])) limit

unfoldable pub prefix_as : Decoders → Bytes → Text → ℕ → Option Bytes
unfolding read_prefix zstd_prefix text_eq
prefix_as d body encoding limit =
    if is_identity encoding
    then some (take limit body)
    else if is_gzip encoding
    then read_prefix (d.gzip body) limit
    else if text_eq encoding (codes "deflate")
    then read_prefix (d.deflate body) limit
    else if text_eq encoding (codes "br")
    then read_prefix (d.br body) limit
    else if text_eq encoding (codes "zstd")
    then zstd_prefix (d.zstd body) limit
    else none

unfoldable pub decode_prefix : Decoders → Bytes → Option Text → ℕ → Option Bytes
unfolding prefix_as str_trim
decode_prefix d body content_encoding limit =
    prefix_as d body (str_trim (unwrap_or content_encoding [])) limit
