-- ===== src/Compression/Limits.antt =====
-- What decompression can yield, and that a prefix is one of the whole.
use thermite_rs.Prelude.{
  Bool, Bool-cases, Bytes, Option, Result, Text, [], ap, arith, codes, err, false, if◌then◌else◌,
  inl, inr, leb, length, length-take, length-take-le, ltb, none, ok, refl, some, sym, take,
  take_all, text_eq, true, ℕ, ◌%◌, ◌+◌, ◌<◌, ◌^◌, ◌∙◌, ◌∷◌, ◌≡◌, ◌≤◌,
}
use thermite_rs.Strings.{str_trim}
use thermite_rs.Json.{unwrap_or}
use thermite_rs.Compression.{
  DecodeError, Decoders, Stream, capped, decode, decode_as, decode_prefix, identity_capped, is_gzip,
  is_identity, kept, malformed, prefix_as, read_capped, read_prefix, read_to_end, too_large,
  unsupported_encoding, zstd_capped, zstd_prefix,
}

-- A text has at most `n` bytes, if there is one.
abbrev pub Within : ℕ → Option Bytes → Type 0
Within n none = Unit
Within n (some out) = length out ≤ n

abbrev pub DecodedWithin : ℕ → Result DecodeError Bytes → Type 0
DecodedWithin n (err e) = Unit
DecodedWithin n (ok out) = length out ≤ n

capped_bounds :
    (encoding : Text) (limit : ℕ) (p : Bytes × Option Text)
    → DecodedWithin limit (capped encoding limit p)
unfolding capped
capped_bounds encoding limit (out, some e) = tt
capped_bounds encoding limit (out, none) = elim (Bool-cases (ltb limit (length out))) [
  | inl over ↦ rw over tt
  | inr within ↦ rw within (ground arith)
]

read_capped_bounds :
    (s : Stream) (encoding : Text) (limit : ℕ) → DecodedWithin limit (read_capped s encoding limit)
unfolding read_capped
read_capped_bounds s encoding limit = capped_bounds encoding limit _

kept_bounds : (limit : ℕ) (p : Bytes × Option Text) → length p.0 ≤ limit → Within limit (kept p)
unfolding kept
kept_bounds limit (out, none) h = h
kept_bounds limit ([], some e) h = tt
kept_bounds limit (b ∷ bs, some e) h = h

read_to_end_bounds : (n : ℕ) (s : Stream) → length (read_to_end n s).0 ≤ n
unfolding read_to_end
read_to_end_bounds n s = ground (arith, length-take-le n s.bytes)

read_prefix_bounds : (s : Stream) (limit : ℕ) → Within limit (read_prefix s limit)
unfolding read_prefix
read_prefix_bounds s limit = kept_bounds limit (read_to_end limit s) (read_to_end_bounds limit s)

-- What a stream gives within a limit.
abbrev within_limit : Stream → Text → ℕ → Result DecodeError Bytes
within_limit s encoding limit =
    if ltb limit (length s.bytes)
    then err (too_large limit)
    else elim s.failure [ none ↦ ok s.bytes | some e ↦ err (malformed encoding e) ]

capped_failure :
    (bytes : Bytes) (f : Option Text) (encoding : Text) (limit : ℕ)
    → ltb limit (length bytes) ≡ false
    → capped encoding limit (bytes, f)
      ≡ elim f [ none ↦ ok bytes | some e ↦ err (malformed encoding e) ]
unfolding capped
capped_failure bytes none encoding limit h = rw h refl
capped_failure bytes (some e) encoding limit h = refl

capped_lem :
    (bytes : Bytes) (failure : Option Text) (encoding : Text) (limit : ℕ)
    → let s : Stream = record { bytes = bytes; failure = failure } in
      capped encoding limit (read_to_end (limit + 1) s) ≡ within_limit s encoding limit
unfolding capped read_to_end
capped_lem bytes failure encoding limit = elim (Bool-cases (ltb limit (length bytes))) [
  | inl over ↦
      let long : leb (limit + 1) (length bytes) ≡ true = ground arith in
      let n : ltb limit (length (take (limit + 1) bytes)) ≡ true =
        ground (arith, length-take (limit + 1) bytes) in
      rw (long, n, over)
  | inr within ↦
      let short : leb (limit + 1) (length bytes) ≡ false = ground arith in
      rw (short, within) (capped_failure bytes failure encoding limit within)
]

read_capped_lem :
    (s : Stream) (encoding : Text) (limit : ℕ)
    → limit + 1 < 2 ^ 64
    → read_capped s encoding limit ≡ within_limit s encoding limit
unfolding read_capped
read_capped_lem s encoding limit h =
    let small : (limit + 1) % 2 ^ 64 ≡ limit + 1 = omega arith in
    rw small (capped_lem s.bytes s.failure encoding limit)

whole_lem :
    (bytes : Bytes) (failure : Option Text) (encoding : Text) (limit n : ℕ) (whole : Bytes)
    → let s : Stream = record { bytes = bytes; failure = failure } in
      within_limit s encoding limit ≡ ok whole → read_prefix s n ≡ some (take n whole)
unfolding read_prefix read_to_end kept
whole_lem bytes none encoding limit n whole e =
    let same : bytes ≡ whole = ground arith in
    elim (Bool-cases (leb n (length bytes))) [
      | inl long ↦ rw (long, same) refl
      | inr short ↦ rw (short, same, take_all n whole (ground arith)) refl
    ]
whole_lem bytes (some f) encoding limit n whole e = ground arith

-- The prefix of a stream that is read to its end is a prefix of what it yields.
read_prefix_lem :
    (s : Stream) (encoding : Text) (limit n : ℕ) (whole : Bytes)
    → limit + 1 < 2 ^ 64
    → read_capped s encoding limit ≡ ok whole
    → read_prefix s n ≡ some (take n whole)
read_prefix_lem s encoding limit n whole h e =
    whole_lem s.bytes s.failure encoding limit n whole
      (sym (read_capped_lem s encoding limit h) ∙ e)

-- What holds of the two ways to read one stream holds of `decode` and `decode_prefix`.
by_encoding :
    (P : Result DecodeError Bytes → Option Bytes → Type 0) (d : Decoders) (body : Bytes)
    (encoding : Text) (limit n : ℕ)
    → P (identity_capped body limit) (some (take n body))
    → ((s : Stream) (name : Text) → P (read_capped s name limit) (read_prefix s n))
    → ((e : DecodeError) → P (err e) none)
    → P (decode_as d body encoding limit) (prefix_as d body encoding n)
unfolding decode_as prefix_as
by_encoding P d body encoding limit n plain read refused =
    elim (Bool-cases (is_identity encoding)) [
      | inl y ↦ rw y plain
      | inr not_identity ↦ elim (Bool-cases (is_gzip encoding)) [
        | inl y ↦ rw (not_identity, y) (read (d.gzip body) (codes "gzip"))
        | inr not_gzip ↦ elim (Bool-cases (text_eq encoding (codes "deflate"))) [
          | inl y ↦ rw (not_identity, not_gzip, y) (read (d.deflate body) (codes "deflate"))
          | inr not_deflate ↦ elim (Bool-cases (text_eq encoding (codes "br"))) [
            | inl y ↦ rw (not_identity, not_gzip, not_deflate, y) (read (d.br body) (codes "br"))
            | inr not_br ↦
                rw (not_identity, not_gzip, not_deflate, not_br)
                  (rest (text_eq encoding (codes "zstd")) (d.zstd body))
          ]
        ]
      ]
    ]
  where
    made : (made : Result Text Stream) → P (zstd_capped made limit) (zstd_prefix made n)
    made (err e) = refused (malformed (codes "zstd") e)
    made (ok s) = read s (codes "zstd")

    rest :
        (known : Bool) (z : Result Text Stream)
        → P
            (if known then zstd_capped z limit else err (unsupported_encoding encoding))
            (if known then zstd_prefix z n else none)
    rest true z = made z
    rest false z = refused (unsupported_encoding encoding)

identity_bounds : (body : Bytes) (limit : ℕ) → DecodedWithin limit (identity_capped body limit)
unfolding identity_capped
identity_bounds body limit = elim (Bool-cases (ltb limit (length body))) [
  | inl over ↦ rw over tt
  | inr within ↦ rw within (ground arith)
]

-- Whatever a body expands to, decoding gives at most `limit` bytes, and so does decoding a prefix.
pub decode_bounds :
    (d : Decoders) (body : Bytes) (content_encoding : Option Text) (limit : ℕ)
    → DecodedWithin limit (decode d body content_encoding limit)
      × Within limit (decode_prefix d body content_encoding limit)
unfolding decode decode_prefix
decode_bounds d body content_encoding limit =
    by_encoding (λ whole some_prefix. DecodedWithin limit whole × Within limit some_prefix) d body
      (str_trim (unwrap_or content_encoding [])) limit limit
      (identity_bounds body limit, length-take-le limit body)
      (λ s name. (read_capped_bounds s name limit, read_prefix_bounds s limit)) (λ e. (tt, tt))

identity_prefix :
    (body : Bytes) (limit n : ℕ) (whole : Bytes)
    → identity_capped body limit ≡ ok whole
    → some (take n body) ≡ some (take n whole)
unfolding identity_capped
identity_prefix body limit n whole e =
    let same : body ≡ whole = ground arith in ap (λ b. some (take n b)) same

-- When a whole body decodes within the limit, decoding a prefix of any number of bytes succeeds and
-- gives the first bytes of that body, as many as asked.
pub prefix_of_decoded :
    (d : Decoders) (body : Bytes) (content_encoding : Option Text) (limit n : ℕ) (whole : Bytes)
    → limit + 1 < 2 ^ 64
    → decode d body content_encoding limit ≡ ok whole
    → decode_prefix d body content_encoding n ≡ some (take n whole)
unfolding decode decode_prefix
prefix_of_decoded d body content_encoding limit n whole small e =
    by_encoding (λ all some_prefix. all ≡ ok whole → some_prefix ≡ some (take n whole)) d body
      (str_trim (unwrap_or content_encoding [])) limit n (identity_prefix body limit n whole)
      (λ s name k. read_prefix_lem s name limit n whole small k) (λ e' k. absurd (ground arith)) e
