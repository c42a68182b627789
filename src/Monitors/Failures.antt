-- ===== src/Monitors/Failures.antt =====
-- Which issue a missed or overrunning run belongs to.
use mathlib.Core.Option.{some-injective}
use thermite_rs.Strings.Split.{rsplit_once}
use thermite_rs.Strings.Splits.{Lacks, rsplit_once_lem, str_trim_lem}
use thermite_rs.Grouping.Keys.{explicit_fingerprint_is_the_key}
use thermite_rs.Prelude.{
  Bool, Text, [], any, ap, append_assoc, arith, codes, drop, false, length, length-append, refl,
  some, subst, sym, take_all, text_eq, true, ℕ, ◌++◌, ◌↔◌, ◌∙◌, ◌∷◌, ◌≡◌, ◌≢◌, ◌≤◌,
}
use thermite_rs.Grouping.{group, is_placeholder}
use thermite_rs.Event.Fingerprint.{fingerprint}
use thermite_rs.Strings.{is_whitespace, join, str_trim}
use thermite_rs.Monitors.Tables.{Monitor}
use thermite_rs.Monitors.Sweep.{Context, failure_event, failure_of, fingerprint_of}

failure_visible : (late : Bool) → any is_whitespace (failure_of late) ≡ false
unfolding is_whitespace
failure_visible true = refl
failure_visible false = refl

failure_no_colon : (late : Bool) → Lacks b':' (failure_of late)
failure_no_colon true = refl
failure_no_colon false = refl

failure_ne : (late : Bool) → failure_of late ≢ []
failure_ne true = cc
failure_ne false = cc

fingerprint_trimmed :
    (slug : Text) (late : Bool)
    → str_trim (fingerprint_of slug (failure_of late)) ≡ fingerprint_of slug (failure_of late)
unfolding is_whitespace
fingerprint_trimmed slug late =
    subst (λ t. str_trim (codes "monitor:" ++ t) ≡ codes "monitor:" ++ t)
      (append_assoc slug (b':' ∷ []) (failure_of late))
      (str_trim_lem (codes "monitor:" ++ (slug ++ b':' ∷ [])) (failure_of late) refl
        (failure_ne late) (failure_visible late))

not_placeholder :
    (slug : Text) (late : Bool) → is_placeholder (fingerprint_of slug (failure_of late)) ≡ false
unfolding is_placeholder text_eq
not_placeholder slug late = rw (fingerprint_trimmed slug late) refl

given_fingerprint :
    (x : Context) (id : Text) (now : ℕ) (m : Monitor) (late : Bool)
    → length (fingerprint_of m.slug (failure_of late)) ≤ 256
    → fingerprint (failure_event x.calendar x.quote id now m late)
      ≡ some (fingerprint_of m.slug (failure_of late) ∷ [])
unfolding fingerprint failure_event
given_fingerprint x id now m late h =
    ap (λ t. some (t ∷ [])) (take_all 256 (fingerprint_of m.slug (failure_of late)) h)

failure_apart : (late late' : Bool) → failure_of late ≡ failure_of late' → late ≡ late'
failure_apart true true e = refl
failure_apart true false e = cc
failure_apart false true e = cc
failure_apart false false e = refl

same_parts :
    (slug slug' : Text) (late late' : Bool)
    → fingerprint_of slug (failure_of late) ≡ fingerprint_of slug' (failure_of late')
    → (slug ≡ slug') × (late ≡ late')
same_parts slug slug' late late' e =
    let split : some (slug, failure_of late) ≡ some (slug', failure_of late') =
      sym (rsplit_once_lem b':' slug (failure_of late) (failure_no_colon late))
      ∙ ap (λ t. rsplit_once b':' (drop 8 t)) e
      ∙ rsplit_once_lem b':' slug' (failure_of late') (failure_no_colon late') in
    let parts = some-injective (slug, failure_of late) (slug', failure_of late') split in
    (ap (λ p. p.0) parts, failure_apart late late' (ap (λ p. p.1) parts))

same_key :
    (slug slug' : Text) (late late' : Bool)
    → slug ≡ slug'
    → late ≡ late'
    → fingerprint_of slug (failure_of late) ≡ fingerprint_of slug' (failure_of late')
same_key slug slug' late late' p q =
    ap (λ t. fingerprint_of t (failure_of late)) p ∙ ap (λ b. fingerprint_of slug' (failure_of b)) q

length-failure-le : (late : Bool) → length (failure_of late) ≤ 7
length-failure-le true = omega arith
length-failure-le false = omega arith

key_lem :
    (x : Context) (id : Text) (now : ℕ) (m : Monitor) (late : Bool)
    → length m.slug ≤ 240
    → (group x.engine (failure_event x.calendar x.quote id now m late)).key
      ≡ fingerprint_of m.slug (failure_of late)
unfolding join
key_lem x id now m late h =
    let short : length (fingerprint_of m.slug (failure_of late)) ≤ 256 =
      omega (arith, length-append m.slug (b':' ∷ failure_of late), length-failure-le late) in
    let given = given_fingerprint x id now m late short in
    (explicit_fingerprint_is_the_key x.engine (failure_event x.calendar x.quote id now m late)
      (fingerprint_of m.slug (failure_of late) ∷ []) given
      (rw (not_placeholder m.slug late) refl)).0

-- A failure of a monitor with a slug of at most 240 characters has the grouping key
-- `monitor:{slug}:{kind}`, whenever it happens and whatever its message: so two failures have one key
-- exactly if they are of monitors with one slug and are both misses or both timeouts.
pub failure_key :
    (x : Context) (id id' : Text) (now now' : ℕ) (m m' : Monitor) (late late' : Bool)
    → length m.slug ≤ 240
    → length m'.slug ≤ 240
    → let key = (group x.engine (failure_event x.calendar x.quote id now m late)).key in
      let key' = (group x.engine (failure_event x.calendar x.quote id' now' m' late')).key in
      (key ≡ codes "monitor:" ++ (m.slug ++ (b':' ∷ failure_of late)))
      × ((key ≡ key') ↔ ((m.slug ≡ m'.slug) × (late ≡ late')))
failure_key x id id' now now' m m' late late' h h' =
    let k = key_lem x id now m late h in
    let k' = key_lem x id' now' m' late' h' in
    (
      k,
      (
        λ e. same_parts m.slug m'.slug late late' (sym k ∙ e ∙ k'),
        λ p. k ∙ same_key m.slug m'.slug late late' p.0 p.1 ∙ sym k',
      ),
    )
