-- ===== src/Tests/Payloads.antt =====
-- Scrubbing and the readings of an event, at concrete payloads.
use thermite_rs.Prelude.{Text, [], codes, false, inl, inr, refl, subst, true, ◌∷◌, ◌≡◌}
use thermite_rs.Json.{Value, end, field, is_empty, number, object, string}
use thermite_rs.Scrub.{ScrubList, filtered, matches, new, normalize, scrub}
use thermite_rs.Scrub.Secrets.{Occurs, scrub_hides_secrets}

-- A list of one pattern.
abbrev tokens : ScrubList
tokens = codes "token" ∷ []

abbrev payload : Value
payload = object (
    field (codes "user") (object (field (codes "x-Auth-Token") (string (codes "abc")) end))
      (field (codes "n") (number (codes "1")) end))

token_matches : matches tokens (codes "x-Auth-Token") ≡ true
unfolding matches
token_matches = refl

kept_under : Occurs (codes "x-Auth-Token") filtered (scrub tokens payload)
unfolding scrub matches Occurs
kept_under = inr (inl (inl (refl, refl)))

scrub_hides_secrets_example : filtered ≡ filtered
scrub_hides_secrets_example =
    scrub_hides_secrets tokens (codes "x-Auth-Token") filtered payload token_matches kept_under

abbrev harmless : Value
harmless = object (field (codes "n") (number (codes "1")) end)

no_secret : (k : Text) (w : Value) → Occurs k w harmless → matches tokens k ≡ false
unfolding Occurs matches
no_secret k w (inl (e, h)) = subst (λ j. matches tokens j ≡ false) e refl
no_secret k w (inr (inl o)) = elim o [ ]
no_secret k w (inr (inr o)) = elim o [ ]

password_matches : matches (new []) (codes "Password") ≡ true
unfolding matches new
password_matches = refl

more_than_separators : is_empty (normalize (codes "X-Internal")) ≡ false
unfolding normalize
more_than_separators = refl
