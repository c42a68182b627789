-- ===== src/Sdk/Scope.antt =====
-- crates/thermite-sdk/src/scope.rs: what the client adds to each event that it sends.
use thermite_rs.Prelude.{
  Bool, List, Option, Text, [], if◌then◌else◌, length, ltb, none, some, text_eq, true, ℕ, ◌++◌,
  ◌==◌, ◌∷◌,
}
use thermite_rs.Json.{Value, or_else}
use thermite_rs.Sdk.Event.{Breadcrumb, Event, User, Values, is_empty_user}

pub record Scope : Type 0 where
  pub tags : List (Text × Text)
  pub user : Option User
  pub breadcrumbs : List Breadcrumb
  pub max_breadcrumbs : ℕ

unfoldable pub new_scope : ℕ → Scope
new_scope limit = record { tags = []; user = none; breadcrumbs = []; max_breadcrumbs = limit }

-- The loop that pops the oldest while there are too many.
unfoldable pub pop_oldest : {A : Type 0} → ℕ → List A → List A
pop_oldest limit [] = []
pop_oldest limit (b ∷ bs) = if ltb limit (length (b ∷ bs)) then pop_oldest limit bs else b ∷ bs

unfoldable pub add_breadcrumb : Breadcrumb → Scope → Scope
unfolding pop_oldest
add_breadcrumb breadcrumb s =
    if s.max_breadcrumbs == 0
    then s
    else record s { breadcrumbs = pop_oldest s.max_breadcrumbs (s.breadcrumbs ++ breadcrumb ∷ []) }

module _ {A : Type 0} where
  -- The value of a key in a map.
  unfoldable pub find_key : Text → List (Text × A) → Option A
  find_key key [] = none
  find_key key ((k, v) ∷ pairs) = if text_eq k key then some v else find_key key pairs

  -- `entry(key).or_insert_with`, with what the key has so far.
  abbrev pub or_insert : Option A → Text → A → List (Text × A) → List (Text × A)
  or_insert (some v) key value pairs = pairs
  or_insert none key value pairs = pairs ++ (key, value) ∷ []

  -- The loop that enters what a map lacks.
  unfoldable pub fill_map : List (Text × A) → List (Text × A) → List (Text × A)
  unfolding find_key
  fill_map [] pairs = pairs
  fill_map ((key, value) ∷ more) pairs =
      fill_map more (or_insert (find_key key pairs) key value pairs)

abbrev pub is_blank : Option User → Bool
is_blank none = true
is_blank (some user) = is_empty_user user

abbrev pub fill_user : Option User → Option User → Option User
fill_user scope (some user) = some user
fill_user scope none = if is_blank scope then none else scope

abbrev pub fill_breadcrumbs :
    List Breadcrumb → Option (Values Breadcrumb) → Option (Values Breadcrumb)
fill_breadcrumbs scope (some values) = some values
fill_breadcrumbs [] none = none
fill_breadcrumbs (b ∷ scope) none = some (record { values = b ∷ scope })

unfoldable pub apply : Scope → Event → Event
unfolding fill_map is_empty_user
apply s event = record event {
  tags = fill_map s.tags event.tags;
  user = fill_user s.user event.user;
  breadcrumbs = fill_breadcrumbs s.breadcrumbs event.breadcrumbs;
}

-- What a client adds of its own.
pub record Client : Type 0 where
  pub release : Option Text
  pub environment : Option Text
  pub server_name : Option Text
  pub contexts : List (Text × Value)
  pub scope : Scope

-- `capture`, the event that it sends.
unfoldable pub stamped : Client → Event → Event
unfolding apply fill_map
stamped client event =
    let applied = apply client.scope event in
    record applied {
      release = or_else applied.release client.release;
      environment = or_else applied.environment client.environment;
      server_name = or_else applied.server_name client.server_name;
      contexts = fill_map client.contexts applied.contexts;
    }
