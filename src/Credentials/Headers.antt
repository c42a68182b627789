-- ===== src/Credentials/Headers.antt =====
-- An authentication header as SDKs write it is read back.
use thermite_rs.Prelude.{
  All, Bool, List, Text, [], any, ap, append-nil, append_assoc, arith, codes, false, if◌then◌else◌,
  map, refl, some, subst, sym, true, ◌++◌, ◌∙◌, ◌∷◌, ◌≡◌, ◌≢◌,
}
use thermite_rs.Strings.{StartsVisible, is_whitespace, join, str_trim}
use thermite_rs.Strings.Splits.{
  Lacks, Lacks-append, split_from-first, split_on-Lacks, split_once_lem, str_trim_lem,
}
use thermite_rs.Strings.Split.{split_from, split_on, strip_prefix}
use thermite_rs.Credentials.Header.{parse_pair, parse_pairs, parse_sentry_auth, scheme}

-- A word of a header: not empty, without blanks and commas.
pub record IsWord (w : Text) : Type 0 where
  pub not_empty : w ≢ []
  pub no_blank : any is_whitespace w ≡ false
  pub no_comma : Lacks b',' w

-- A key is a word without `=`.
pub record IsPair (kv : Text × Text) : Type 0 where
  pub key : IsWord kv.0
  pub value : IsWord kv.1
  pub no_equals : Lacks b'=' kv.0

abbrev write_pair : Text × Text → Text
write_pair (k, v) = k ++ (b'=' ∷ v)

-- `Sentry key=value, key=value`.
abbrev pub write_header : List (Text × Text) → Text
write_header kvs = scheme ++ join (codes ", ") (map write_pair kvs)

-- What the split at commas leaves before a pair that is not the first.
abbrev lead : Bool → Text
lead first = if first then [] else 32 ∷ []

starts_visible : (w rest : Text) → w ≢ [] → any is_whitespace w ≡ false → StartsVisible (w ++ rest)
starts_visible [] rest n h = absurd (n refl)
starts_visible (c ∷ w) rest n h = ground arith

word_trimmed : (w : Text) → IsWord w → str_trim w ≡ w
word_trimmed w h =
    str_trim_lem [] w
      (subst StartsVisible (append-nil w) (starts_visible w [] h.not_empty h.no_blank)) h.not_empty
      h.no_blank

space_dropped : (s : Text) → str_trim (32 ∷ s) ≡ str_trim s
unfolding str_trim is_whitespace
space_dropped s = refl

write_pair-Lacks : (kv : Text × Text) → IsPair kv → Lacks b',' (write_pair kv)
write_pair-Lacks (k, v) h = Lacks-append b',' b'=' k v refl h.key.no_comma h.value.no_comma

first_trimmed : (kv : Text × Text) → IsPair kv → str_trim (write_pair kv) ≡ write_pair kv
first_trimmed (k, v) h =
    let e = append_assoc k (b'=' ∷ []) v in
    subst (λ t. str_trim t ≡ t) e
      (str_trim_lem (k ++ b'=' ∷ []) v
        (subst StartsVisible (sym e) (starts_visible k (b'=' ∷ v) h.key.not_empty h.key.no_blank))
        h.value.not_empty h.value.no_blank)

pair_trimmed :
    (kv : Text × Text) (first : Bool)
    → IsPair kv
    → str_trim (lead first ++ write_pair kv) ≡ write_pair kv
pair_trimmed kv true h = first_trimmed kv h
pair_trimmed kv false h = space_dropped (write_pair kv) ∙ first_trimmed kv h

parse_pair-write_pair :
    (kv : Text × Text) (first : Bool)
    → IsPair kv
    → parse_pair (lead first ++ write_pair kv) ≡ some kv
unfolding parse_pair
parse_pair-write_pair (k, v) first h =
    rw
      (
        pair_trimmed (k, v) first h,
        split_once_lem b'=' k v h.no_equals,
        word_trimmed k h.key,
        word_trimmed v h.value,
      )
      refl

parse_pairs-some :
    (p : Text) (ps : List Text) (kv : Text × Text)
    → parse_pair p ≡ some kv
    → parse_pairs (p ∷ ps) ≡ kv ∷ parse_pairs ps
unfolding parse_pairs
parse_pairs-some p ps kv e = rw (parse_pairs, e) refl

pieces :
    (kv : Text × Text) (kvs : List (Text × Text)) (first : Bool)
    → All IsPair (kv ∷ kvs)
    → parse_pairs (split_from b',' (lead first) (join (codes ", ") (map write_pair (kv ∷ kvs))))
      ≡ kv ∷ kvs
unfolding parse_pairs join split_from
pieces kv [] first h =
    rw (split_on-Lacks b',' (lead first) (write_pair kv) (write_pair-Lacks kv h.0))
      (parse_pairs-some (lead first ++ write_pair kv) [] kv (parse_pair-write_pair kv first h.0))
pieces kv (kv' ∷ kvs) first h =
    let rest = join (codes ", ") (map write_pair (kv' ∷ kvs)) in
    rw (split_from-first b',' (lead first) (write_pair kv) (32 ∷ rest) (write_pair-Lacks kv h.0)) (
      parse_pairs-some (lead first ++ write_pair kv) (split_from b',' [] (32 ∷ rest)) kv
        (parse_pair-write_pair kv first h.0)
      ∙ ap (◌∷◌ kv) (pieces kv' kvs false h.1))

-- The header that lists some pairs is read as these pairs, in their order, if there is one,
-- all keys and values are words, and no key has a `=`.
pub parse_sentry_auth-write_header :
    (kv : Text × Text) (kvs : List (Text × Text))
    → All IsPair (kv ∷ kvs)
    → parse_sentry_auth (write_header (kv ∷ kvs)) ≡ kv ∷ kvs
unfolding parse_sentry_auth strip_prefix split_on
parse_sentry_auth-write_header kv kvs h = pieces kv kvs true h
