-- ===== src/Digest/Events.antt =====
-- What a digest does to the events that are stored.
use thermite_rs.Prelude.{
  Bool-cases, List, Option, Text, [], arith, codes, inl, inr, none, refl, some, subst, sym, text_eq,
  text_eq_iff, true, ℕ, ◌∙◌, ◌∷◌, ◌≡◌,
}
use thermite_rs.Json.{Value}
use thermite_rs.Event.Basic.{TimeParser, str_field}
use thermite_rs.Grouping.{Engine}
use thermite_rs.Digest.Store.{Issue, Store, Stored, resolve_given}
use thermite_rs.Digest.Steps.{
  Reading, advance_all, digest, digest_reading, find_issue, finish, is_stored, open_found,
  open_issue, read, reopens_for, store_event, trigger_of,
}
use thermite_rs.Digest.Recurrence.{resolved_issues}
use thermite_rs.Digest.Redelivery.{advance_all-Keeps, notify-Keeps}

opened_events :
    (o : Option Issue) (p : ℕ) (r : Reading) (st : Store)
    → (open_found o p r st).1.events ≡ st.events
unfolding open_found
opened_events (some i) p r st = refl
opened_events none p r st = refl

-- What holds of the events as they are, and with one more that has the payload.
store_event-events :
    (E : List Stored → Type 0) (p id : ℕ) (r : Reading) (st : Store)
    → E st.events
    → ((e : Stored) → e.payload ≡ r.payload → E (e ∷ st.events))
    → E (store_event p id r st).1.events
unfolding store_event
store_event-events E p id r st h k = elim (Bool-cases (is_stored p r.event_id st.events)) [
  | inl e ↦ rw e h
  | inr e ↦ rw e (k _ refl)
]

digest_reading-events :
    (E : List Stored → Type 0) (p : ℕ) (c : Option Text) (r : Reading) (st : Store)
    → E st.events
    → ((e : Stored) → e.payload ≡ r.payload → E (e ∷ st.events))
    → E (digest_reading p c r st).0.events
unfolding digest_reading finish open_issue
digest_reading-events E p c r st h k =
    let v = str_field r.payload (codes "release") in
    let resolved = resolve_given p v st in
    let found = find_issue p r.grouping.hash resolved.1.issues in
    let opened = open_found found p r resolved.1 in
    let kept = store_event p opened.0.id r opened.1 in
    let reopens = reopens_for opened.0.resolved_in_release_id resolved.0 in
    let all = advance_all p c r opened.0 reopens kept.0 kept.1 in
    let a = advance_all-Keeps kept.0 p p 0 [] c r opened.0 reopens kept.1 in
    let n =
      notify-Keeps (trigger_of kept.0 opened.0.new_issue opened.0.status reopens) p p 0 []
        resolved.0 opened.0 all in
    let same : opened.1.events ≡ st.events =
      opened_events found p r resolved.1 ∙ (resolved_issues p v st).1 in
    subst E (sym (n.same_events ∙ a.same_events)) (
      store_event-events E p opened.0.id r opened.1 (subst E (sym same) h)
        (λ e q. subst (λ es. E (e ∷ es)) (sym same) (k e q)))

-- A digest adds at most one event, which has the digested payload.
pub digest-events :
    (E : List Stored → Type 0) (times : TimeParser) (engine : Engine) (p : ℕ) (c : Option Text)
    (event_id : Text) (payload : Value) (received_at : ℕ) (st : Store)
    → E st.events
    → ((e : Stored) → e.payload ≡ payload → E (e ∷ st.events))
    → E (digest times engine p c event_id payload received_at st).0.events
unfolding digest read
digest-events E times engine p c event_id payload received_at st h k =
    digest_reading-events E p c (read times engine event_id payload received_at) st h k

store_event-stored :
    (p id : ℕ) (r : Reading) (st : Store)
    → is_stored p r.event_id (store_event p id r st).1.events ≡ true
unfolding store_event is_stored text_eq
store_event-stored p id r st = elim (Bool-cases (is_stored p r.event_id st.events)) [
  | inl e ↦ rw e e
  | inr e ↦ rw e (ground (arith, (text_eq_iff r.event_id r.event_id).1 refl))
]

-- The digested event is stored under its id, if it was not before.
pub digest-stored :
    (times : TimeParser) (engine : Engine) (p : ℕ) (c : Option Text) (event_id : Text)
    (payload : Value) (received_at : ℕ) (st : Store)
    → is_stored p event_id (digest times engine p c event_id payload received_at st).0.events ≡ true
unfolding digest read digest_reading finish open_issue
digest-stored times engine p c event_id payload received_at st =
    let r = read times engine event_id payload received_at in
    let resolved = resolve_given p (str_field r.payload (codes "release")) st in
    let opened = open_found (find_issue p r.grouping.hash resolved.1.issues) p r resolved.1 in
    let kept = store_event p opened.0.id r opened.1 in
    let reopens = reopens_for opened.0.resolved_in_release_id resolved.0 in
    let all = advance_all p c r opened.0 reopens kept.0 kept.1 in
    let a = advance_all-Keeps kept.0 p p 0 [] c r opened.0 reopens kept.1 in
    let n =
      notify-Keeps (trigger_of kept.0 opened.0.new_issue opened.0.status reopens) p p 0 []
        resolved.0 opened.0 all in
    subst (λ es. is_stored p event_id es ≡ true) (sym (n.same_events ∙ a.same_events))
      (store_event-stored p opened.0.id r opened.1)

is_stored-cons :
    (p : ℕ) (event_id : Text) (e : Stored) (es : List Stored)
    → is_stored p event_id es ≡ true
    → is_stored p event_id (e ∷ es) ≡ true
unfolding is_stored text_eq
is_stored-cons p event_id e es h = ground (arith, h)

-- What is stored stays so.
pub digest-still_stored :
    (q : ℕ) (id : Text) (times : TimeParser) (engine : Engine) (p : ℕ) (c : Option Text)
    (event_id : Text) (payload : Value) (received_at : ℕ) (st : Store)
    → is_stored q id st.events ≡ true
    → is_stored q id (digest times engine p c event_id payload received_at st).0.events ≡ true
digest-still_stored q id times engine p c event_id payload received_at st h =
    digest-events (λ es. is_stored q id es ≡ true) times engine p c event_id payload received_at st
      h (λ e _. is_stored-cons q id e st.events h)
