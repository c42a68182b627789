-- ===== src/Sdk/Barrier.antt =====
-- What a flush that returns true promises, and that the thread comes to it.
use thermite_rs.Prelude.{
  Bool, List, Option, [], any, ap, append-nil, append_assoc, arith, false, length, none, refl, some,
  suc, sym, true, zero, ℕ, ◌*◌, ◌++◌, ◌+◌, ◌==◌, ◌∙◌, ◌∷◌, ◌≡◌, ◌≤◌,
}
use thermite_rs.Sdk.Transport.{
  Run, Run-taken, Task, Transport, barrier, current_task, flush, here, new, next, receives,
  send_envelope, taken, try_send-accepted, works,
}

abbrev is_barrier : ℕ → Task → Bool
is_barrier n (barrier m) = m == n
is_barrier n (send_envelope e) = false

-- The barrier of the flush is among the tasks.
abbrev pub holds : ℕ → List Task → Bool
holds n ts = any (is_barrier n) ts

-- A prefix that holds the barrier reaches at least to where it stands.
abbrev head_or : Task → List Task → Task
head_or d [] = d
head_or d (t ∷ ts) = t

abbrev tail : List Task → List Task
tail [] = []
tail (t ∷ ts) = ts

reaches :
    (n : ℕ) (xs ys before rest : List Task)
    → xs ++ ys ≡ before ++ (barrier n ∷ rest)
    → holds n xs ≡ true
    → holds n before ≡ false
    → (more : List Task) × (xs ≡ before ++ (barrier n ∷ more))
reaches n [] ys before rest e h k = cc
reaches n (x ∷ xs) ys [] rest e h k = (xs, ap (λ z. z ∷ xs) (ap (head_or x) e))
reaches n (x ∷ xs) ys (b ∷ before) rest e h k =
    let first : x ≡ b = ap (head_or x) e in
    let (more, f) = reaches n xs ys before rest (ap tail e) (ground arith) (ground arith) in
    (more, ap (◌∷◌ x) f ∙ ap (λ z. z ∷ (before ++ (barrier n ∷ more))) first)

-- When a flush was accepted and its barrier, whose number no earlier task has, is acknowledged, then
-- every task that was taken before the flush is worked, in its order: each envelope that was queued
-- has been posted.
pub flush_means_posted :
    (n : ℕ) (t u : Transport)
    → holds n (taken t) ≡ false
    → (flush n t).1 ≡ true
    → Run (flush n t).0 u
    → holds n u.worked ≡ true
    → (more : List Task) × (u.worked ≡ taken t ++ (barrier n ∷ more))
unfolding flush
flush_means_posted n t u new accepted r done =
    let (more, e) = Run-taken r in
    let f = try_send-accepted (barrier n) t accepted in
    reaches n u.worked (current_task u.current ++ u.queue) (taken t) more
      (e ∙ ap (λ l. l ++ more) f ∙ append_assoc (taken t) (barrier n ∷ []) more) done new

-- One step of the thread, which waits when there is nothing to do.
abbrev worker_at : Option Task → List Task → Transport → Transport
worker_at (some task) queue t = record t { current = none; worked = t.worked ++ task ∷ [] }
worker_at none [] t = t
worker_at none (task ∷ rest) t = record t { queue = rest; current = some task }

-- `worker`, for a number of steps.
unfoldable pub worker : ℕ → Transport → Transport
worker zero t = t
worker (suc n) t = worker n (worker_at t.current t.queue t)

abbrev state : Bool → List Task → List Task → Transport
state c queue worked = record { connected = c; queue = queue; current = none; worked = worked }

worker_idle :
    (n : ℕ) (c : Bool) (worked : List Task) → worker n (state c [] worked) ≡ state c [] worked
unfolding worker
worker_idle zero c worked = refl
worker_idle (suc n) c worked = worker_idle n c worked

worker_queue :
    (queue : List Task) (n : ℕ) (c : Bool) (worked : List Task)
    → 2 * length queue ≤ n
    → worker n (state c queue worked) ≡ state c [] (worked ++ queue)
unfolding worker
worker_queue [] n c worked h = worker_idle n c worked ∙ ap (state c []) (sym (append-nil worked))
worker_queue (x ∷ queue) zero c worked h = absurd (omega arith)
worker_queue (x ∷ queue) (suc zero) c worked h = absurd (omega arith)
worker_queue (x ∷ queue) (suc (suc n)) c worked h =
    worker_queue queue n c (worked ++ x ∷ []) (omega arith)
    ∙ ap (state c []) (append_assoc worked (x ∷ []) queue)

worker_from :
    (current : Option Task) (queue : List Task) (n : ℕ) (c : Bool) (worked : List Task)
    → 2 * length queue + 1 ≤ n
    → worker n (record { connected = c; queue = queue; current = current; worked = worked })
      ≡ state c [] (worked ++ (current_task current ++ queue))
unfolding worker
worker_from none queue n c worked h = worker_queue queue n c worked (omega arith)
worker_from (some x) queue zero c worked h = absurd (omega arith)
worker_from (some x) queue (suc n) c worked h =
    worker_queue queue n c (worked ++ x ∷ []) (omega arith)
    ∙ ap (state c []) (append_assoc worked (x ∷ []) queue)

worker_at-Run :
    (current : Option Task) (queue : List Task) (t : Transport)
    → t.connected ≡ true
    → t.current ≡ current
    → t.queue ≡ queue
    → Run t (worker_at current queue t) × ((worker_at current queue t).connected ≡ true)
worker_at-Run (some task) queue t c e q = (next here (works task t e), c)
worker_at-Run none [] t c e q = (here, c)
worker_at-Run none (task ∷ rest) t c e q = (next here (receives task rest t c e q), c)

Run-trans : {t u v : Transport} → Run t u → Run u v → Run t v
Run-trans r here = r
Run-trans r (next q s) = next (Run-trans r q) s

worker-Run : (n : ℕ) (t : Transport) → t.connected ≡ true → Run t (worker n t)
unfolding worker
worker-Run zero t c = here
worker-Run (suc n) t c =
    let (r, c') = worker_at-Run t.current t.queue t c refl refl in
    Run-trans r (worker-Run n (worker_at t.current t.queue t) c')

-- The thread alone, in two steps for each queued task and one more, works every task that was taken, in
-- order, from any state of a connected transport; so it acknowledges the barrier of every
-- accepted flush, however the sends end.
pub worker_drains :
    (t : Transport) (n : ℕ)
    → t.connected ≡ true
    → 2 * length t.queue + 1 ≤ n
    → Run t (worker n t)
      × ((worker n t).worked ≡ taken t)
      × ((worker n t).queue ≡ [])
      × ((worker n t).current ≡ none)
worker_drains t n c h =
    let e = worker_from t.current t.queue n t.connected t.worked h in
    (
      worker-Run n t c,
      ap (λ (u : Transport). u.worked) e,
      ap (λ (u : Transport). u.queue) e,
      ap (λ (u : Transport). u.current) e,
    )
