-- ===== src/Sdk/Transport.antt =====
-- The queue between the program and the sender thread, as a step relation. A channel whose receiver is
-- gone, since the thread or its client could not be made, is one that never was connected: nothing
-- that is queued on it is ever sent.
use thermite_rs.Prelude.{
  Bool, Bool-cases, Bytes, List, Option, Result, [], ap, append-nil, append_assoc, arith, err,
  false, if◌then◌else◌, inl, inr, length, length-append, ltb, none, ok, refl, some, sym, true, ℕ,
  ◌++◌, ◌∙◌, ◌∷◌, ◌≡◌, ◌≤◌,
}

abbrev pub queue_depth : ℕ
queue_depth = 64

-- A barrier has the number of the flush that waits for its acknowledgement.
pub data Task : Type 0 where
  send_envelope : Bytes → Task
  barrier : ℕ → Task

pub data TrySendError : Type 0 where
  full : TrySendError
  disconnected : TrySendError

-- `worked` lists what the thread is through with, oldest first: an envelope has been posted, a barrier
-- acknowledged. `current` is the task that the thread has taken and is at.
pub record Transport : Type 0 where
  pub connected : Bool
  pub queue : List Task
  pub current : Option Task
  pub worked : List Task

unfoldable pub new : Bool → Transport
new connected = record { connected = connected; queue = []; current = none; worked = [] }

unfoldable pub try_send : Task → Transport → Result TrySendError Transport
try_send task t =
    if t.connected
    then (if ltb (length t.queue) queue_depth
        then ok (record t { queue = t.queue ++ task ∷ [] })
        else err full)
    else err disconnected

abbrev pub sent : Transport → Result TrySendError Transport → Transport
sent t (ok t') = t'
sent t (err e) = t

-- `send`: a task that is not taken is dropped.
unfoldable pub send : Bytes → Transport → Transport
unfolding try_send
send envelope t = sent t (try_send (send_envelope envelope) t)

abbrev is_taken : Result TrySendError Transport → Bool
is_taken (ok t) = true
is_taken (err e) = false

-- `flush` up to its wait: whether it waits at all. It then answers true exactly if the barrier is worked
-- within its time.
unfoldable pub flush : ℕ → Transport → Transport × Bool
unfolding try_send
flush n t = let tried = try_send (barrier n) t in (sent t tried, is_taken tried)

-- What the program does, and what the thread does.
pub data Step : Transport → Transport → Type 0 where
  sends : (envelope : Bytes) (t : Transport) → Step t (send envelope t)
  flushes : (n : ℕ) (t : Transport) → Step t (flush n t).0
  receives :
      (task : Task) (rest : List Task) (t : Transport)
      → t.connected ≡ true
      → t.current ≡ none
      → t.queue ≡ task ∷ rest
      → Step t (record t { queue = rest; current = some task })
  works :
      (task : Task) (t : Transport)
      → t.current ≡ some task
      → Step t (record t { current = none; worked = t.worked ++ task ∷ [] })

pub data Run (t : Transport) : Transport → Type 0 where
  here : Run t t
  next : {u v : Transport} → Run t u → Step u v → Run t v

abbrev pub current_task : Option Task → List Task
current_task none = []
current_task (some task) = task ∷ []

-- All tasks that were taken, oldest first.
abbrev pub taken : Transport → List Task
taken t = t.worked ++ (current_task t.current ++ t.queue)

try_send-taken :
    (task : Task) (t : Transport)
    → (more : List Task) × (taken (sent t (try_send task t)) ≡ taken t ++ more)
unfolding try_send
try_send-taken task t = elim (Bool-cases t.connected) [
  | inr e ↦ ([], rw e (sym (append-nil (taken t))))
  | inl e ↦ elim (Bool-cases (ltb (length t.queue) queue_depth)) [
    | inr f ↦ ([], rw (e, f) (sym (append-nil (taken t))))
    | inl f ↦ (
      task ∷ [],
      rw (e, f)
          (ap (λ q. t.worked ++ q) (sym (append_assoc (current_task t.current) t.queue (task ∷ [])))
            ∙ sym (append_assoc t.worked (current_task t.current ++ t.queue) (task ∷ []))),
    )
  ]
]

-- An accepted task is taken last.
pub try_send-accepted :
    (task : Task) (t : Transport)
    → is_taken (try_send task t) ≡ true
    → taken (sent t (try_send task t)) ≡ taken t ++ task ∷ []
unfolding try_send
try_send-accepted task t h = elim (Bool-cases t.connected) [
  | inr e ↦
      let refused : is_taken (try_send task t) ≡ false = rw (try_send, e) refl in cc (h, refused)
  | inl e ↦ elim (Bool-cases (ltb (length t.queue) queue_depth)) [
    | inr f ↦
        let refused : is_taken (try_send task t) ≡ false = rw (try_send, e, f) refl in
        cc (h, refused)
    | inl f ↦
        rw (e, f)
          (ap (λ q. t.worked ++ q) (sym (append_assoc (current_task t.current) t.queue (task ∷ [])))
            ∙ sym (append_assoc t.worked (current_task t.current ++ t.queue) (task ∷ [])))
  ]
]

-- A step keeps the tasks that were taken, in their order, and adds at most one at the end.
Step-taken : {t u : Transport} → Step t u → (more : List Task) × (taken u ≡ taken t ++ more)
unfolding send flush
Step-taken (sends envelope t) = try_send-taken (send_envelope envelope) t
Step-taken (flushes n t) = try_send-taken (barrier n) t
Step-taken (receives task rest t c e q) =
    ([], ap (λ l. t.worked ++ l) (rw (e, q) refl) ∙ sym (append-nil (taken t)))
Step-taken (works task t e) = (
  [],
  append_assoc t.worked (task ∷ []) t.queue
      ∙ ap (λ c. t.worked ++ (current_task c ++ t.queue)) (sym e)
      ∙ sym (append-nil (taken t)),
)

-- What was taken stays taken, in its order: the transport is a first-in-first-out queue.
pub Run-taken : {t u : Transport} → Run t u → (more : List Task) × (taken u ≡ taken t ++ more)
Run-taken {t} here = ([], sym (append-nil (taken t)))
Run-taken {t} (next r s) =
    let (more, e) = Run-taken r in
    let (last, f) = Step-taken s in
    (more ++ last, f ∙ ap (λ l. l ++ last) e ∙ append_assoc (taken t) more last)

try_send-bound :
    (task : Task) (t : Transport)
    → length t.queue ≤ 64
    → length (sent t (try_send task t)).queue ≤ 64
unfolding try_send
try_send-bound task t h = elim (Bool-cases t.connected) [
  | inr e ↦ rw e h
  | inl e ↦ elim (Bool-cases (ltb (length t.queue) queue_depth)) [
    | inr f ↦ rw (e, f) h
    | inl f ↦ rw (e, f) (ground (arith, length-append t.queue (task ∷ [])))
  ]
]

Step-bound : {t u : Transport} → Step t u → length t.queue ≤ 64 → length u.queue ≤ 64
unfolding send flush
Step-bound (sends envelope t) h = try_send-bound (send_envelope envelope) t h
Step-bound (flushes n t) h = try_send-bound (barrier n) t h
Step-bound (receives task rest t c e q) h = omega (arith, ap length q)
Step-bound (works task t e) h = h

-- In every state that a run from a new transport comes to, at most 64 tasks are queued.
pub queue_is_bounded :
    (connected : Bool) {t : Transport} → Run (new connected) t → length t.queue ≤ 64
unfolding new
queue_is_bounded connected here = omega arith
queue_is_bounded connected (next r s) = Step-bound s (queue_is_bounded connected r)
