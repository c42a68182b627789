-- ===== src/Sdk/Stamps.antt =====
-- What an event of crates/thermite-sdk carries when it is sent.
use thermite_rs.Prelude.{
  Bool, Bool-cases, List, Option, Option-cases, Text, [], ap, append-nil, append_assoc, arith, drop,
  false, if◌then◌else◌, inl, inr, length, length-append, ltb, none, refl, some, suc, sym, text_eq,
  text_eq_iff, true, zero, ℕ, ◌++◌, ◌-◌, ◌<◌, ◌==◌, ◌∙◌, ◌∷◌, ◌≡◌, ◌≤◌,
}
use thermite_rs.Json.{or_else}
use thermite_rs.Sdk.Event.{Breadcrumb, Event, User, Values, is_empty_user}
use thermite_rs.Sdk.Scope.{
  Client, Scope, add_breadcrumb, apply, fill_breadcrumbs, fill_map, fill_user, find_key, is_blank,
  new_scope, or_insert, pop_oldest, stamped,
}

-- The scope after breadcrumbs, the oldest first.
abbrev pub add_breadcrumbs : List Breadcrumb → Scope → Scope
add_breadcrumbs [] s = s
add_breadcrumbs (b ∷ bs) s = add_breadcrumbs bs (add_breadcrumb b s)

-- The last elements of a list, as many as a number allows.
abbrev pub latest : {A : Type 0} → ℕ → List A → List A
latest n xs = drop (length xs - n) xs

module _ {A : Type 0} where
  latest_short : (limit : ℕ) (bs : List A) → length bs ≤ limit → latest limit bs ≡ bs
  latest_short limit bs h = let none_more : length bs - limit ≡ 0 = omega arith in rw none_more refl

  pop_oldest-latest : (limit : ℕ) (bs : List A) → pop_oldest limit bs ≡ latest limit bs
  unfolding pop_oldest
  pop_oldest-latest limit [] = sym (latest_short limit [] (omega arith))
  pop_oldest-latest limit (b ∷ bs) = elim (Bool-cases (ltb limit (length (b ∷ bs)))) [
    | inl e ↦
        let one_more : length (b ∷ bs) - limit ≡ suc (length bs - limit) = ground arith in
        rw (e, one_more) (pop_oldest-latest limit bs)
    | inr e ↦ rw e (sym (latest_short limit (b ∷ bs) (ground arith)))
  ]

  pop_oldest-append :
      (limit : ℕ) (q r : List A)
      → pop_oldest limit (pop_oldest limit q ++ r) ≡ pop_oldest limit (q ++ r)
  unfolding pop_oldest
  pop_oldest-append limit [] r = refl
  pop_oldest-append limit (b ∷ q) r = elim (Bool-cases (ltb limit (length (b ∷ q)))) [
    | inr e ↦ rw e refl
    | inl e ↦
        let f : ltb limit (length (b ∷ (q ++ r))) ≡ true = ground (arith, length-append q r) in
        rw (e, f) (pop_oldest-append limit q r)
  ]

  find_key-append :
      (key : Text) (xs ys : List (Text × A))
      → find_key key (xs ++ ys) ≡ or_else (find_key key xs) (find_key key ys)
  unfolding find_key
  find_key-append key [] ys = refl
  find_key-append key ((k, v) ∷ xs) ys = ground (arith, find_key-append key xs ys)

  or_else-none : (x : Option A) → x ≡ or_else x none
  or_else-none none = refl
  or_else-none (some x) = refl

  or_else_assoc : (x y z : Option A) → or_else (or_else x y) z ≡ or_else x (or_else y z)
  or_else_assoc none y z = refl
  or_else_assoc (some x) y z = refl

  or_else_if :
      (test : Bool) (v : A) (other : Option A)
      → or_else (if test then some v else none) other ≡ (if test then some v else other)
  or_else_if true v other = refl
  or_else_if false v other = refl

  find_key-or_insert :
      (key k : Text) (v : A) (pairs : List (Text × A)) (other : Option A)
      → or_else (find_key key (or_insert (find_key k pairs) k v pairs)) other
        ≡ or_else (find_key key pairs) (if text_eq k key then some v else other)
  unfolding find_key
  find_key-or_insert key k v pairs other = elim (Option-cases (find_key k pairs)) [
    | inl e ↦
        rw (e, find_key-append key pairs ((k, v) ∷ []))
          (or_else_assoc (find_key key pairs) (find_key key ((k, v) ∷ [])) other
            ∙ ap (or_else (find_key key pairs)) (or_else_if (text_eq k key) v other))
    | inr (w, e) ↦ elim (Bool-cases (text_eq k key)) [
      | inr f ↦ rw (e, f) refl
      | inl f ↦
          let same : k ≡ key = (text_eq_iff k key).0 f in
          let found : find_key key pairs ≡ some w = rw (sym same) e in rw (e, found) refl
    ]
  ]

  find_key-fill_map :
      (key : Text) (scope pairs : List (Text × A))
      → find_key key (fill_map scope pairs) ≡ or_else (find_key key pairs) (find_key key scope)
  unfolding find_key fill_map
  find_key-fill_map key [] pairs = or_else-none (find_key key pairs)
  find_key-fill_map key ((k, v) ∷ scope) pairs =
      find_key-fill_map key scope (or_insert (find_key k pairs) k v pairs)
      ∙ find_key-or_insert key k v pairs (find_key key scope)

pop_oldest-none : {A : Type 0} (bs : List A) → pop_oldest 0 bs ≡ []
unfolding pop_oldest
pop_oldest-none [] = refl
pop_oldest-none (b ∷ bs) = ground (arith, pop_oldest-none bs)

-- A scope with given breadcrumbs.
abbrev holding : Scope → List Breadcrumb → Scope
holding s bs = record s { breadcrumbs = bs }

add_breadcrumb-holding :
    (b : Breadcrumb) (s : Scope) (q : List Breadcrumb)
    → 0 < s.max_breadcrumbs
    → add_breadcrumb b (holding s q) ≡ holding s (pop_oldest s.max_breadcrumbs (q ++ b ∷ []))
unfolding add_breadcrumb
add_breadcrumb-holding b s q positive =
    let some_room : (s.max_breadcrumbs == 0) ≡ false = ground arith in rw some_room refl

add_breadcrumbs-holding :
    (bs : List Breadcrumb) (s : Scope) (q : List Breadcrumb)
    → 0 < s.max_breadcrumbs
    → add_breadcrumbs bs (holding s (pop_oldest s.max_breadcrumbs q))
      ≡ holding s (pop_oldest s.max_breadcrumbs (q ++ bs))
add_breadcrumbs-holding [] s q positive =
    ap (λ r. holding s (pop_oldest s.max_breadcrumbs r)) (sym (append-nil q))
add_breadcrumbs-holding (b ∷ bs) s q positive =
    ap (add_breadcrumbs bs) (
      add_breadcrumb-holding b s (pop_oldest s.max_breadcrumbs q) positive
      ∙ ap (holding s) (pop_oldest-append s.max_breadcrumbs q (b ∷ [])))
    ∙ add_breadcrumbs-holding bs s (q ++ b ∷ []) positive
    ∙ ap (λ r. holding s (pop_oldest s.max_breadcrumbs r)) (append_assoc q (b ∷ []) bs)

add_breadcrumbs-switched_off :
    (bs : List Breadcrumb) (s : Scope) → s.max_breadcrumbs ≡ 0 → add_breadcrumbs bs s ≡ s
unfolding add_breadcrumb
add_breadcrumbs-switched_off [] s none_kept = refl
add_breadcrumbs-switched_off (b ∷ bs) s none_kept =
    let no_room : (s.max_breadcrumbs == 0) ≡ true = ground arith in
    rw no_room (add_breadcrumbs-switched_off bs s none_kept)

-- A new scope with tags and a user.
abbrev pub configured : ℕ → List (Text × Text) → Option User → Scope
unfolding new_scope
configured limit tags user = record (new_scope limit) { tags = tags; user = user }

add_breadcrumbs-configured :
    (bs : List Breadcrumb) (limit : ℕ) (tags : List (Text × Text)) (user : Option User)
    → add_breadcrumbs bs (configured limit tags user)
      ≡ holding (configured limit tags user) (pop_oldest limit bs)
unfolding new_scope pop_oldest
add_breadcrumbs-configured bs zero tags user =
    add_breadcrumbs-switched_off bs (configured 0 tags user) refl
    ∙ ap (holding (configured 0 tags user)) (sym (pop_oldest-none bs))
add_breadcrumbs-configured bs (suc n) tags user =
    add_breadcrumbs-holding bs (configured (suc n) tags user) [] (omega arith)

-- Breadcrumbs as an event lists them.
abbrev pub listed : List Breadcrumb → Option (Values Breadcrumb)
listed [] = none
listed (b ∷ bs) = some (record { values = b ∷ bs })

-- A user that says anything.
abbrev pub named : Option User → Option User
unfolding is_empty_user
named user = if is_blank user then none else user

fill_breadcrumbs-listed :
    (bs : List Breadcrumb) (own : Option (Values Breadcrumb))
    → fill_breadcrumbs bs own ≡ or_else own (listed bs)
fill_breadcrumbs-listed [] none = refl
fill_breadcrumbs-listed (b ∷ bs) none = refl
fill_breadcrumbs-listed bs (some own) = refl

fill_user-named : (scope own : Option User) → fill_user scope own ≡ or_else own (named scope)
unfolding is_empty_user
fill_user-named scope none = refl
fill_user-named scope (some own) = refl

-- The client as it is after it was given tags, a user and breadcrumbs.
abbrev pub with_scope : Client → Scope → Client
with_scope client s = record client { scope = s }

-- A sent event has its own release, environment, server name, tags, contexts, user and breadcrumbs where
-- it came with them. Only what it lacks is filled in: the first three and a tag or a context with the
-- client's value, the user with the client's unless that one is empty, and the breadcrumbs with the
-- latest ones that were added, as many as the limit, oldest first, or with none at all when there are
-- none. Everything else, as the exception and the fingerprint, is sent as it came.
pub stamped_lem :
    (client : Client) (limit : ℕ) (tags : List (Text × Text)) (user : Option User)
    (bs : List Breadcrumb) (event : Event) (key : Text)
    → let sent =
        stamped (with_scope client (add_breadcrumbs bs (configured limit tags user))) event in
      (find_key key sent.tags ≡ or_else (find_key key event.tags) (find_key key tags))
      × (find_key key sent.contexts
          ≡ or_else (find_key key event.contexts) (find_key key client.contexts))
      × (sent.user ≡ or_else event.user (named user))
      × (sent.breadcrumbs ≡ or_else event.breadcrumbs (listed (latest limit bs)))
      × (sent ≡ record event {
        release = or_else event.release client.release;
        environment = or_else event.environment client.environment;
        server_name = or_else event.server_name client.server_name;
        tags = sent.tags;
        contexts = sent.contexts;
        user = sent.user;
        breadcrumbs = sent.breadcrumbs;
      })
unfolding stamped apply new_scope
stamped_lem client limit tags user bs event key =
    let kept = add_breadcrumbs-configured bs limit tags user in
    rw (kept, pop_oldest-latest limit bs)
      (
        find_key-fill_map key tags event.tags,
        find_key-fill_map key client.contexts event.contexts,
        fill_user-named user event.user,
        fill_breadcrumbs-listed (latest limit bs) event.breadcrumbs,
        refl,
      )
