-- ===== src/Monitors/Reports.antt =====
-- Which monitors a sweep reports.
use mathlib.Core.Option
use thermite_rs.Prelude.{
  Bool, Bool-cases, List, Option, Text, [], ap, arith, false, filter, if◌then◌else◌, inl, inr, leb,
  length, map, none, refl, some, suc, take_all, true, ℕ, ◌==◌, ◌||◌, ◌∙◌, ◌∷◌, ◌≡◌, ◌≤◌,
}
use thermite_rs.Monitors.Tables.{Monitor, Tables, find_monitor, update_monitor}
use thermite_rs.Monitors.Schedule.{Ran, next_of, panics, parse_schedule, returns}
use thermite_rs.Monitors.Sweep.{
  Context, SweepState, Swept, by_due, claim, claimed, counted, due_of, failure_of, has_id,
  has_timed_out, insert_by_due, is_overdue, late_for, mark_reported, move_window, report,
  rescheduled, sweep_batch, sweep_rows,
}

-- A change that keeps every id, at the row of an id.
pub find_monitor-map :
    (id : ℕ) (g : Monitor → Monitor) (ms : List Monitor)
    → ((m : Monitor) → (g m).id ≡ m.id)
    → find_monitor id (map g ms) ≡ Option.map g (find_monitor id ms)
unfolding find_monitor
find_monitor-map id g [] h = refl
find_monitor-map id g (m ∷ ms) h = elim (Bool-cases (m.id == id)) [
  | inl here ↦ rw (ap (λ i. i == id) (h m) ∙ here, here) refl
  | inr there ↦ rw (ap (λ i. i == id) (h m) ∙ there, there) (find_monitor-map id g ms h)
]

-- The row of the id, marked as reported at an instant.
abbrev pub Noted : ℕ → ℕ → List Monitor → Type 0
Noted id at ms = (m : Monitor) × (find_monitor id ms ≡ some m) × (m.reported_at ≡ some at)

Noted-map :
    (id at : ℕ) (g : Monitor → Monitor) (ms : List Monitor)
    → ((m : Monitor) → (g m).id ≡ m.id)
    → ((m : Monitor) → m.reported_at ≡ some at → (g m).reported_at ≡ some at)
    → Noted id at ms
    → Noted id at (map g ms)
Noted-map id at g ms h k (m, e, r) = (g m, find_monitor-map id g ms h ∙ ap (Option.map g) e, k m r)

pub Noted-update :
    (id at k : ℕ) (f : Monitor → Monitor) (ms : List Monitor)
    → ((m : Monitor) → (f m).id ≡ m.id)
    → ((m : Monitor) → m.reported_at ≡ some at → (f m).reported_at ≡ some at)
    → Noted id at ms
    → Noted id at (update_monitor k f ms)
unfolding update_monitor
Noted-update id at k f ms h j noted =
    Noted-map id at (λ (m : Monitor). if m.id == k then f m else m) ms (λ m. same_id (m.id == k) m)
      (λ m. same_mark (m.id == k) m) noted
  where
    same_id : (b : Bool) (m : Monitor) → (if b then f m else m).id ≡ m.id
    same_id true m = h m
    same_id false m = refl

    same_mark :
        (b : Bool) (m : Monitor)
        → m.reported_at ≡ some at
        → (if b then f m else m).reported_at ≡ some at
    same_mark true m e = j m e
    same_mark false m e = e

late_reported :
    (m : Monitor) (due : Option ℕ) (at later : ℕ) → late_for m due (some at) later ≡ false
late_reported m none at later = refl
late_reported m (some d) at later = refl

-- A reported monitor is not overdue at any time.
pub reported_quiet :
    (m : Monitor) (at later : ℕ) → m.reported_at ≡ some at → is_overdue later m ≡ false
reported_quiet m at later e = rw e (late_reported m m.next_due_at at later)

has_id-insert_by_due :
    (id : ℕ) (m : Monitor) (ms : List Monitor)
    → has_id id (insert_by_due m ms) ≡ (m.id == id) || has_id id ms
unfolding insert_by_due
has_id-insert_by_due id m [] = refl
has_id-insert_by_due id m (n ∷ ms) = ground (arith, has_id-insert_by_due id m ms)

has_id-by_due : (id : ℕ) (ms : List Monitor) → has_id id (by_due ms) ≡ has_id id ms
unfolding by_due
has_id-by_due id [] = refl
has_id-by_due id (m ∷ ms) =
    has_id-insert_by_due id m (by_due ms) ∙ ap (◌||◌ (m.id == id)) (has_id-by_due id ms)

length-insert_by_due :
    (m : Monitor) (ms : List Monitor) → length (insert_by_due m ms) ≡ suc (length ms)
unfolding insert_by_due
length-insert_by_due m [] = refl
length-insert_by_due m (n ∷ ms) = elim (Bool-cases (leb (due_of m) (due_of n))) [
  | inl e ↦ rw e refl
  | inr e ↦ rw e (ap suc (length-insert_by_due m ms))
]

pub length-by_due : (ms : List Monitor) → length (by_due ms) ≡ length ms
unfolding by_due
length-by_due [] = refl
length-by_due (m ∷ ms) = length-insert_by_due m (by_due ms) ∙ ap suc (length-by_due ms)

has_id-filter :
    (id : ℕ) (p : Monitor → Bool) (ms : List Monitor) (m : Monitor)
    → find_monitor id ms ≡ some m
    → p m ≡ true
    → has_id id (filter p ms) ≡ true
unfolding find_monitor
has_id-filter id p [] m e h = ground arith
has_id-filter id p (n ∷ ms) m e h = ground (arith, has_id-filter id p ms m)

pub claimed-has_id :
    (now id : ℕ) (ms : List Monitor) (m : Monitor)
    → length (filter (is_overdue now) ms) ≤ 500
    → find_monitor id ms ≡ some m
    → is_overdue now m ≡ true
    → has_id id (claimed now ms) ≡ true
unfolding claimed
claimed-has_id now id ms m few e h =
    let due = filter (is_overdue now) ms in
    rw (take_all sweep_batch (by_due due) (omega (arith, length-by_due due)), has_id-by_due id due)
      (has_id-filter id (is_overdue now) ms m e h)

pub find_monitor-id :
    (id : ℕ) (ms : List Monitor) (m : Monitor) → find_monitor id ms ≡ some m → m.id ≡ id
unfolding find_monitor
find_monitor-id id [] m e = ground arith
find_monitor-id id (n ∷ ms) m e = ground (arith, find_monitor-id id ms m)

-- A row after a claim.
abbrev pub marked : ℕ → Bool → Monitor → Monitor
marked now hit m = if hit then record m { reported_at = some now } else m

pub claim-found :
    (now id : ℕ) (s : SweepState) (m : Monitor)
    → find_monitor id s.tables.monitors ≡ some m
    → find_monitor id (claim now s).tables.monitors
      ≡ some (marked now (has_id m.id (claimed now s.tables.monitors)) m)
unfolding claim mark_reported
claim-found now id s m e =
    let cs = claimed now s.tables.monitors in
    find_monitor-map id (λ (n : Monitor). marked now (has_id n.id cs) n) s.tables.monitors
      (λ n. kept (has_id n.id cs) n)
    ∙ ap (Option.map (λ (n : Monitor). marked now (has_id n.id cs) n)) e
  where
    kept : (b : Bool) (n : Monitor) → (marked now b n).id ≡ n.id
    kept true n = refl
    kept false n = refl

pub claim-Noted :
    (now id : ℕ) (s : SweepState) (m : Monitor)
    → find_monitor id s.tables.monitors ≡ some m
    → has_id id (claimed now s.tables.monitors) ≡ true
    → Noted id now (claim now s).tables.monitors
claim-Noted now id s m e h =
    let cs = claimed now s.tables.monitors in
    let hit : has_id m.id cs ≡ true = rw (find_monitor-id id s.tables.monitors m e) h in
    (
      record m { reported_at = some now },
      claim-found now id s m e ∙ ap (λ b. some (marked now b m)) hit,
      refl,
    )

-- What every move of a window keeps, the loop keeps.
pub sweep_rows-keeps :
    (P : Tables → Type 0)
    → ((t : Tables) (k : ℕ) (status : Text) (due : Option ℕ)
        → P t
        → P (record t { monitors = update_monitor k (rescheduled status due) t.monitors }))
    → (x : Context) (now : ℕ) (rows : List (Monitor × Option ℕ)) (s : SweepState) (swept : Swept)
    → P s.tables
    → P (sweep_rows x now rows s swept).0.tables
unfolding sweep_rows report move_window
sweep_rows-keeps P keeps x now [] s swept h = h
sweep_rows-keeps P keeps x now ((m, opened) ∷ rows) s swept h =
    after
      (next_of x.calendar
        (parse_schedule x.calendar m.schedule_type m.schedule_value m.schedule_unit) now m.timezone)
      (λ s' swept' k. sweep_rows-keeps P keeps x now rows s' swept' k)
  where
    late : Bool
    late = has_timed_out m.max_runtime_minutes opened now

    after :
        (next : Ran (Option ℕ))
        → ((s' : SweepState) (swept' : Swept)
            → P s'.tables
            → P (sweep_rows x now rows s' swept').0.tables)
        → P
            (elim next as (λ n. SweepState × Ran Swept) [
              | panics ↦ (report x now m late s, panics)
              | returns next_due ↦
                  sweep_rows x now rows
                    (move_window m late next_due (report x now m late s))
                    (counted late swept)
            ]).0.tables
    after panics rest = h
    after (returns next_due) rest =
        rest (move_window m late next_due (report x now m late s)) (counted late swept)
          (keeps s.tables m.id (failure_of late) next_due h)

pub rescheduled-Noted :
    (id at : ℕ) (t : Tables) (k : ℕ) (status : Text) (due : Option ℕ)
    → Noted id at t.monitors
    → Noted id at (update_monitor k (rescheduled status due) t.monitors)
unfolding rescheduled
rescheduled-Noted id at t k status due h =
    Noted-update id at k (rescheduled status due) t.monitors (λ n. refl) (λ n e. e) h
