-- ===== src/Credentials/RoundTrip.antt =====
-- The SDK reads the DSN that the server prints.
use thermite_rs.Prelude.{
  Bool, Text, [], any, ap, append_assoc, arith, codes, false, ok, pos, refl, some, subst, suc, sym,
  text_eq, true, zero, ℕ, ◌++◌, ◌<◌, ◌∙◌, ◌∷◌, ◌≡◌, ◌≤◌,
}
use thermite_rs.Strings.{is_whitespace, str_trim}
use thermite_rs.Json.{is_empty}
use thermite_rs.Strings.Split.{rsplit_once, split_on, split_once, trim_end_matches}
use thermite_rs.Strings.Splits.{
  Lacks, rsplit_once_lem, split_on-Lacks, split_once_lem, str_trim_lem, trim_end_matches_lem,
}
use thermite_rs.Strings.Decimal.{
  AreDigits, is_digit, max_i64, parse_i64-to_string, to_string, to_string-AreDigits,
  to_string-ne-nil,
}
use thermite_rs.Credentials.Dsn.{
  dsn, first_part, ingest_url_of, is_supported, parse_dsn, project_of, with_host, with_project,
  with_scheme, with_userinfo,
}

-- A public key as the server makes them: not empty, without `@` and `:`.
pub record IsPublicKey (key : Text) : Type 0 where
  pub not_empty : is_empty key ≡ false
  pub no_at : Lacks b'@' key
  pub no_colon : Lacks b':' key

-- A digit is no slash and no blank.
digits-Lacks : (s : Text) → AreDigits s → Lacks b'/' s
digits-Lacks [] h = refl
digits-Lacks (c ∷ s) h = ground (arith, digits-Lacks s)

digit_visible : (c : ℕ) → is_digit c ≡ true → is_whitespace c ≡ false
unfolding is_whitespace
digit_visible c h = ground arith

digits_visible : (s : Text) → AreDigits s → any is_whitespace s ≡ false
digits_visible [] h = refl
digits_visible (c ∷ s) h = rw (digit_visible c h.0) (digits_visible s h.1)

project_of-pos : (n : ℕ) → 0 < n → project_of (some (pos n)) ≡ ok n
unfolding project_of
project_of-pos zero p = elim p [ ]
project_of-pos (suc n) p = refl

-- What stands before the project's id, from the host on.
read_host :
    (raw scheme key host : Text) (id : ℕ)
    → is_empty host ≡ false
    → 0 < id
    → id ≤ max_i64
    → with_host raw scheme key
        (rsplit_once b'/' (trim_end_matches b'/' (host ++ (b'/' ∷ to_string id))))
      ≡ ok (record {
        public_key = key;
        project_id = id;
        ingest_url = ingest_url_of scheme host id key;
        raw = raw;
      })
unfolding with_host with_project
read_host raw scheme key host id h p m =
    let d = to_string id in
    let apart = digits-Lacks d (to_string-AreDigits id) in
    let whole : trim_end_matches b'/' (host ++ (b'/' ∷ d)) ≡ host ++ (b'/' ∷ d) =
      subst (λ s. trim_end_matches b'/' s ≡ s) (append_assoc host (b'/' ∷ []) d)
        (trim_end_matches_lem b'/' (host ++ b'/' ∷ []) d (to_string-ne-nil id) apart) in
    rw (whole, rsplit_once_lem b'/' host d apart, h, parse_i64-to_string id m, project_of-pos id p)
      refl

read_userinfo :
    (raw scheme key host : Text) (id : ℕ)
    → IsPublicKey key
    → is_empty host ≡ false
    → 0 < id
    → id ≤ max_i64
    → with_userinfo raw scheme
        (split_once (b'@' ∷ []) (key ++ (b'@' ∷ (host ++ (b'/' ∷ to_string id)))))
      ≡ ok (record {
        public_key = key;
        project_id = id;
        ingest_url = ingest_url_of scheme host id key;
        raw = raw;
      })
unfolding with_userinfo split_on first_part
read_userinfo raw scheme key host id k h p m =
    rw
      (
        split_once_lem b'@' key (host ++ (b'/' ∷ to_string id)) k.no_at,
        split_on-Lacks b':' [] key k.no_colon,
        k.not_empty,
      )
      (read_host raw scheme key host id h p m)

abbrev scheme_of : Bool → Text
scheme_of true = codes "https"
scheme_of false = codes "http"

-- A base URL of the server, with a host.
abbrev pub base_of : Bool → Text → Text
base_of secure host = scheme_of secure ++ (codes "://" ++ host)

dsn_text :
    (secure : Bool) (host key : Text) (id : ℕ)
    → dsn (base_of secure host) key id
      ≡ scheme_of secure ++ (codes "://" ++ (key ++ (b'@' ∷ (host ++ (b'/' ∷ to_string id)))))
unfolding dsn
dsn_text true host key id = refl
dsn_text false host key id = refl

dsn_trimmed :
    (secure : Bool) (rest : Text) (id : ℕ)
    → str_trim (scheme_of secure ++ (codes "://" ++ (rest ++ to_string id)))
      ≡ scheme_of secure ++ (codes "://" ++ (rest ++ to_string id))
unfolding is_whitespace
dsn_trimmed true rest id =
    str_trim_lem (codes "https://" ++ rest) (to_string id) refl (to_string-ne-nil id)
      (digits_visible (to_string id) (to_string-AreDigits id))
dsn_trimmed false rest id =
    str_trim_lem (codes "http://" ++ rest) (to_string id) refl (to_string-ne-nil id)
      (digits_visible (to_string id) (to_string-AreDigits id))

-- The text is what `str_trim` keeps.
whole_trimmed :
    (secure : Bool) (host key : Text) (id : ℕ)
    → str_trim (dsn (base_of secure host) key id) ≡ dsn (base_of secure host) key id
whole_trimmed secure host key id =
    let e : (key ++ (b'@' ∷ (host ++ b'/' ∷ []))) ++ to_string id
        ≡ key ++ (b'@' ∷ (host ++ (b'/' ∷ to_string id))) =
      append_assoc key (b'@' ∷ (host ++ b'/' ∷ [])) (to_string id)
      ∙ ap (λ t. key ++ (b'@' ∷ t)) (append_assoc host (b'/' ∷ []) (to_string id)) in
    rw (dsn_text secure host key id) (
      subst
        (λ t.
          str_trim (scheme_of secure ++ (codes "://" ++ t))
          ≡ scheme_of secure ++ (codes "://" ++ t))
        e (dsn_trimmed secure (key ++ (b'@' ∷ (host ++ b'/' ∷ []))) id))

split_scheme :
    (secure : Bool) (rest : Text)
    → split_once (codes "://") (scheme_of secure ++ (codes "://" ++ rest))
      ≡ some (scheme_of secure, rest)
unfolding split_once
split_scheme true rest = refl
split_scheme false rest = refl

supported : (secure : Bool) → is_supported (scheme_of secure) ≡ true
unfolding text_eq
supported true = refl
supported false = refl

read_scheme :
    (raw : Text) (secure : Bool) (host key : Text) (id : ℕ)
    → is_empty host ≡ false
    → IsPublicKey key
    → 0 < id
    → id ≤ max_i64
    → with_scheme raw (
        split_once
          (codes "://")
          (scheme_of secure ++ (codes "://" ++ (key ++ (b'@' ∷ (host ++ (b'/' ∷ to_string id)))))))
      ≡ ok (record {
        public_key = key;
        project_id = id;
        ingest_url = ingest_url_of (scheme_of secure) host id key;
        raw = raw;
      })
unfolding with_scheme
read_scheme raw secure host key id h k p m =
    rw (split_scheme secure (key ++ (b'@' ∷ (host ++ (b'/' ∷ to_string id)))), supported secure)
      (read_userinfo raw (scheme_of secure) key host id k h p m)

ingest_url :
    (secure : Bool) (host key : Text) (id : ℕ)
    → ingest_url_of (scheme_of secure) host id key
      ≡ base_of secure host
        ++ (codes "/api/" ++ (to_string id ++ (codes "/envelope/?sentry_key=" ++ key)))
unfolding ingest_url_of
ingest_url true host key id = refl
ingest_url false host key id = refl

-- With an `http` or `https` base URL, whose rest is not empty, a public key without `@` and `:`, and
-- a positive id of 64 bits, the SDK reads from the server's DSN that key and id; it keeps the
-- DSN as given, and posts to the base URL, its path included, followed by
-- `/api/{id}/envelope/?sentry_key={key}`.
pub parse_dsn-dsn :
    (secure : Bool) (host key : Text) (id : ℕ)
    → is_empty host ≡ false
    → IsPublicKey key
    → 0 < id
    → id ≤ max_i64
    → parse_dsn (dsn (base_of secure host) key id)
      ≡ ok (record {
        public_key = key;
        project_id = id;
        ingest_url =
            base_of secure host
            ++ (codes "/api/" ++ (to_string id ++ (codes "/envelope/?sentry_key=" ++ key)));
        raw = dsn (base_of secure host) key id;
      })
unfolding parse_dsn
parse_dsn-dsn secure host key id h k p m =
    rw (whole_trimmed secure host key id, ← ingest_url secure host key id)
      (subst
        (λ s.
          with_scheme (dsn (base_of secure host) key id) (split_once (codes "://") s)
          ≡ ok (record {
            public_key = key;
            project_id = id;
            ingest_url = ingest_url_of (scheme_of secure) host id key;
            raw = dsn (base_of secure host) key id;
          }))
        (sym (dsn_text secure host key id))
        (read_scheme (dsn (base_of secure host) key id) secure host key id h k p m))
