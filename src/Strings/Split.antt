-- ===== src/Strings/Split.antt =====
-- `split`, `split_once`, `rsplit_once`, `strip_prefix` and `trim_end_matches`.
use mathlib.Core.Option
use thermite_rs.Prelude.{
  List, Option, Text, [], drop, if◌then◌else◌, length, none, some, ℕ, ◌++◌, ◌==◌, ◌∷◌,
}
use thermite_rs.Strings.Defs.{is_prefix}

-- `s.split(c)` with a character.
unfoldable pub split_from : ℕ → Text → Text → List Text
split_from sep part [] = part ∷ []
split_from sep part (c ∷ cs) =
    let next = split_from sep [] cs in
    let more = split_from sep (part ++ c ∷ []) cs in if c == sep then part ∷ next else more

unfoldable pub split_on : ℕ → Text → List Text
unfolding split_from
split_on sep s = split_from sep [] s

-- `s.strip_prefix(p)`, the pattern first.
unfoldable pub strip_prefix : Text → Text → Option Text
unfolding is_prefix
strip_prefix p s = if is_prefix p s then some (drop (length p) s) else none

abbrev cons_first : ℕ → Text × Text → Text × Text
cons_first c (a, b) = (c ∷ a, b)

-- `s.split_once(p)`: the parts before and after the first place where `p` stands.
unfoldable pub split_once : Text → Text → Option (Text × Text)
unfolding is_prefix
split_once p [] = if is_prefix p [] then some ([], []) else none
split_once p (c ∷ cs) =
    let later = Option.map (cons_first c) (split_once p cs) in
    if is_prefix p (c ∷ cs) then some ([], drop (length p) (c ∷ cs)) else later

-- At an earlier place, if there is no later one.
last_place : ℕ → ℕ → Text → Option (Text × Text) → Option (Text × Text)
last_place sep c cs (some p) = some (cons_first c p)
last_place sep c cs none = if c == sep then some ([], cs) else none

-- `s.rsplit_once(c)` with a character: the last place.
unfoldable pub rsplit_once : ℕ → Text → Option (Text × Text)
unfolding last_place
rsplit_once sep [] = none
rsplit_once sep (c ∷ cs) = last_place sep c cs (rsplit_once sep cs)

abbrev cons_unless : ℕ → ℕ → Text → Text
cons_unless sep c [] = if c == sep then [] else c ∷ []
cons_unless sep c (d ∷ ds) = c ∷ d ∷ ds

-- `s.trim_end_matches(c)` with a character.
unfoldable pub trim_end_matches : ℕ → Text → Text
trim_end_matches sep [] = []
trim_end_matches sep (c ∷ cs) = cons_unless sep c (trim_end_matches sep cs)
