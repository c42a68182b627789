-- ===== src/Strings/Splits.antt =====
-- The splits and trims of a text whose parts are known.
use thermite_rs.Prelude.{
  Bool, Text, [], any, ap, append-nil, append_assoc, arith, false, none, refl, some, subst, sym, ℕ,
  ◌++◌, ◌==◌, ◌∷◌, ◌≡◌, ◌≢◌,
}
use thermite_rs.Strings.Trim.{StartsVisible, trim_start_of}
use thermite_rs.Strings.Defs.{cons_unless_blank, is_whitespace, str_trim, trim_end}
use thermite_rs.Strings.Split.{rsplit_once, split_from, split_once, trim_end_matches}
use thermite_rs.Strings.Trim.{StartsVisible, trim_start_of}

-- No character of the text is `c`.
abbrev pub Lacks : ℕ → Text → Type 0
Lacks c s = any (λ x. x == c) s ≡ false

pub split_once_lem :
    (c : ℕ) (a b : Text) → Lacks c a → split_once (c ∷ []) (a ++ (c ∷ b)) ≡ some (a, b)
unfolding split_once
split_once_lem c [] b h = ground arith
split_once_lem c (x ∷ a) b h = ground (arith, split_once_lem c a b)

split_once-none : (c : ℕ) (a : Text) → Lacks c a → split_once (c ∷ []) a ≡ none
unfolding split_once
split_once-none c [] h = ground arith
split_once-none c (x ∷ a) h = ground (arith, split_once-none c a)

rsplit_once-none : (c : ℕ) (b : Text) → Lacks c b → rsplit_once c b ≡ none
unfolding rsplit_once
rsplit_once-none c [] h = refl
rsplit_once-none c (x ∷ b) h = ground (arith, rsplit_once-none c b)

pub rsplit_once_lem : (c : ℕ) (a b : Text) → Lacks c b → rsplit_once c (a ++ (c ∷ b)) ≡ some (a, b)
unfolding rsplit_once
rsplit_once_lem c [] b h = ground (arith, rsplit_once-none c b)
rsplit_once_lem c (x ∷ a) b h = ground (arith, rsplit_once_lem c a b)

pub split_on-Lacks : (c : ℕ) (part s : Text) → Lacks c s → split_from c part s ≡ (part ++ s) ∷ []
unfolding split_from
split_on-Lacks c part [] h = ap (λ p. p ∷ []) (sym (append-nil part))
split_on-Lacks c part (x ∷ s) h =
    ground (arith, split_on-Lacks c (part ++ x ∷ []) s, append_assoc part (x ∷ []) s)

-- The first separator ends the first part.
pub split_from-first :
    (c : ℕ) (part a b : Text)
    → Lacks c a
    → split_from c part (a ++ (c ∷ b)) ≡ (part ++ a) ∷ split_from c [] b
unfolding split_from
split_from-first c part [] b h = ground (arith, append-nil part)
split_from-first c part (x ∷ a) b h =
    ground (arith, split_from-first c (part ++ x ∷ []) a b, append_assoc part (x ∷ []) a)

pub Lacks-append :
    (c x : ℕ) (a b : Text) → (x == c) ≡ false → Lacks c a → Lacks c b → Lacks c (a ++ (x ∷ b))
Lacks-append c x [] b e h k = ground arith
Lacks-append c x (y ∷ a) b e h k = ground (arith, Lacks-append c x a b)

trim_end_matches-last :
    (c x : ℕ) (s : Text) → (x == c) ≡ false → trim_end_matches c (s ++ x ∷ []) ≡ s ++ x ∷ []
unfolding trim_end_matches
trim_end_matches-last c x [] h = ground arith
trim_end_matches-last c x (y ∷ []) h = ground arith
trim_end_matches-last c x (y ∷ z ∷ s) h = ground (arith, trim_end_matches-last c x (z ∷ s))

-- The last character of a text that is not empty, and what stands before it.
last_split : (s : Text) → s ≢ [] → (a : Text) × (x : ℕ) × (s ≡ a ++ x ∷ [])
last_split [] h = absurd (h refl)
last_split (x ∷ []) h = ([], x, refl)
last_split (x ∷ y ∷ s) h = let (a, z, e) = last_split (y ∷ s) (λ k. cc) in (x ∷ a, z, ap (◌∷◌ x) e)

any-last : (p : ℕ → Bool) (a : Text) (x : ℕ) → any p (a ++ x ∷ []) ≡ false → p x ≡ false
any-last p [] x h = ground arith
any-last p (y ∷ a) x h = ground (arith, any-last p a x)

pub trim_end_matches_lem :
    (c : ℕ) (a b : Text) → b ≢ [] → Lacks c b → trim_end_matches c (a ++ b) ≡ a ++ b
trim_end_matches_lem c a b n h =
    let (i, x, e) = last_split b n in
    let last : (x == c) ≡ false = any-last (λ y. y == c) i x (subst (Lacks c) e h) in
    rw (e, ← append_assoc a i (x ∷ [])) (trim_end_matches-last c x (a ++ i) last)

trim_end-last : (x : ℕ) (s : Text) → is_whitespace x ≡ false → trim_end (s ++ x ∷ []) ≡ s ++ x ∷ []
unfolding trim_end
trim_end-last x [] h = rw h
trim_end-last x (y ∷ []) h = rw h
trim_end-last x (y ∷ z ∷ s) h = ap (cons_unless_blank y) (trim_end-last x (z ∷ s) h)

pub str_trim_lem :
    (a b : Text)
    → StartsVisible (a ++ b)
    → b ≢ []
    → any is_whitespace b ≡ false
    → str_trim (a ++ b) ≡ a ++ b
unfolding str_trim
str_trim_lem a b v n h =
    let (i, x, e) = last_split b n in
    let last : is_whitespace x ≡ false =
      any-last is_whitespace i x (subst (λ z. any is_whitespace z ≡ false) e h) in
    rw (trim_start_of (a ++ b) v, e, ← append_assoc a i (x ∷ [])) (trim_end-last x (a ++ i) last)
