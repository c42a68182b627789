-- ===== src/Sdk/Fifo.antt =====
-- The transport implements a queue, first in first out.
use thermite_rs.Prelude.{
  Bool, Bool-cases, List, [], ap, append_assoc, if◌then◌else◌, inl, inr, length, ltb, refl, sym,
  ◌&&◌, ◌++◌, ◌∷◌, ◌≡◌,
}
use thermite_rs.Sdk.Transport.{
  Step, Task, Transport, barrier, current_task, flush, flushes, receives, send, send_envelope,
  sends, sent, taken, try_send, works,
}

-- The contract: what has left, and what waits.
pub record Fifo : Type 0 where
  pub left : List Task
  pub waiting : List Task

unfoldable pub put : Task → Fifo → Fifo
put task f = record f { waiting = f.waiting ++ task ∷ [] }

-- The first task leaves.
unfoldable pub get_from : List Task → Fifo → Fifo
get_from [] f = f
get_from (task ∷ rest) f = record { left = f.left ++ task ∷ []; waiting = rest }

-- The task that the thread is at still waits.
abbrev pub as_fifo : Transport → Fifo
as_fifo t = record { left = t.worked; waiting = current_task t.current ++ t.queue }

-- A thread is there, and there is room.
abbrev pub accepts : Transport → Bool
accepts t = t.connected && ltb (length t.queue) 64

abbrev pub put_if : Bool → Task → Fifo → Fifo
put_if taken task f = if taken then put task f else f

-- What each step is to be: what the program sends or flushes joins at the end, if it is accepted; the thread
-- takes a task without a change; and it is through with the first one.
pub fifo_after : {t u : Transport} → Step t u → Fifo
unfolding put get_from
fifo_after (sends envelope t) = put_if (accepts t) (send_envelope envelope) (as_fifo t)
fifo_after (flushes n t) = put_if (accepts t) (barrier n) (as_fifo t)
fifo_after (receives task rest t c e q) = as_fifo t
fifo_after (works task t e) = get_from (current_task t.current ++ t.queue) (as_fifo t)

try_send-put :
    (task : Task) (t : Transport)
    → as_fifo (sent t (try_send task t)) ≡ put_if (accepts t) task (as_fifo t)
unfolding try_send put
try_send-put task t = elim (Bool-cases t.connected) [
  | inr e ↦ rw e refl
  | inl e ↦ elim (Bool-cases (ltb (length t.queue) 64)) [
    | inr f ↦ rw (e, f) refl
    | inl f ↦
        rw (e, f)
          (ap (λ l. record { left = t.worked; waiting = l })
            (sym (append_assoc (current_task t.current) t.queue (task ∷ []))))
  ]
]

-- Every step of the transport is the step that a first-in-first-out queue of it makes: a send or a flush
-- puts its task at the end exactly if there is a thread and fewer than 64 tasks are queued, and
-- otherwise changes nothing; taking a task changes nothing; and the end of a post or of an
-- acknowledgement moves the oldest task to those that have left.
pub transport_refines_fifo : {t u : Transport} → (step : Step t u) → as_fifo u ≡ fifo_after step
unfolding send flush fifo_after get_from
transport_refines_fifo (sends envelope t) = try_send-put (send_envelope envelope) t
transport_refines_fifo (flushes n t) = try_send-put (barrier n) t
transport_refines_fifo (receives task rest t c e q) =
    ap (λ l. record { left = t.worked; waiting = l }) (rw (e, q) refl)
transport_refines_fifo (works task t e) =
    ap
      (λ c.
        get_from (current_task c ++ t.queue)
          (record { left = t.worked; waiting = current_task c ++ t.queue }))
      (sym e)
