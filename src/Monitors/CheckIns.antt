-- ===== src/Monitors/CheckIns.antt =====
-- A reported monitor stays quiet until a run of it finishes, and an interval then starts anew.
use mathlib.Core.Option
use thermite_rs.Prelude.{
  Bool, Bool-cases, List, Option, Text, ap, arith, false, if◌then◌else◌, inl, inr, none, refl, some,
  subst, text_eq, true, ℕ, ◌<◌, ◌==◌, ◌>>=◌, ◌∙◌, ◌≡◌, ◌≢◌, ◌⊎◌,
}
use thermite_rs.Monitors.Schedule.{Calendar, Ran, next_of, panics, parse_schedule, returns}
use thermite_rs.Monitors.Tables.{
  Accepted, CheckIn, Monitor, MonitorConfig, Tables, answered, close_run, complete_loaded,
  complete_run, configured, find_monitor, find_slug, finish_run, finished, in_progress,
  record_check_in, record_for, status_of, store_monitor, update_monitor, upsert_monitor,
  upsert_parsed, with_config,
}
use thermite_rs.Json.{is_empty}
use thermite_rs.Strings.{str_trim}
use thermite_rs.Monitors.Sweep.{
  Context, SweepState, claim, claimed, has_id, is_overdue, nothing_swept, sweep, with_open,
}
use thermite_rs.Monitors.Reports.{
  Noted, Noted-update, claim-found, find_monitor-id, find_monitor-map, marked, reported_quiet,
  rescheduled-Noted, sweep_rows-keeps,
}

-- What can happen without a run of the monitor `id` being recorded as finished: sweeps, check-ins that
-- open a run, check-ins of which another monitor, or none, comes of, and those that panic.
pub data Step (id : ℕ) : SweepState → SweepState → Type 0 where
  swept : (x : Context) (now : ℕ) (s : SweepState) → Step id s (sweep x now s).0
  opened :
      (cal : Calendar) (fresh : Text) (project : ℕ) (c : CheckIn) (now : ℕ) (s : SweepState)
      → text_eq (status_of c.status) in_progress ≡ true
      → Step id s (record s { tables = (record_check_in cal fresh project c now s.tables).1 })
  other :
      (cal : Calendar) (fresh : Text) (project : ℕ) (c : CheckIn) (now : ℕ) (s : SweepState)
      → (record_check_in cal fresh project c now s.tables).0 ≢ returns (some id)
      → Step id s (record s { tables = (record_check_in cal fresh project c now s.tables).1 })

pub data Reach (id : ℕ) (s : SweepState) : SweepState → Type 0 where
  here : Reach id s s
  next : {t u : SweepState} → Reach id s t → Step id t u → Reach id s u

-- The id of a row is one that was given.
abbrev Kept : ℕ → Tables → Type 0
Kept id t = (id < t.next_monitor) × ((at : ℕ) × Noted id at t.monitors)

store_monitor-Kept :
    (found : Option Monitor) (id project : ℕ) (slug : Text) (config : MonitorConfig) (a : Accepted)
    (t : Tables)
    → Kept id t
    → Kept id (store_monitor found project slug config a t).1
unfolding store_monitor find_monitor
store_monitor-Kept (some m) id project slug config a t (lt, (at, h)) =
    (lt, (at, Noted-update id at m.id (configured config a) t.monitors (λ n. refl) (λ n e. e) h))
store_monitor-Kept none id project slug config a t (lt, (at, (m, e, r))) =
    let new : (t.next_monitor == id) ≡ false = ground arith in
    (omega arith, (at, (m, rw (find_monitor, new) e, r)))

upsert_parsed-Kept :
    (parsed : Option (MonitorConfig × Accepted)) (id project : ℕ) (slug : Text) (t : Tables)
    → Kept id t
    → Kept id (upsert_parsed parsed project slug t).1
unfolding upsert_parsed
upsert_parsed-Kept none id project slug t h = h
upsert_parsed-Kept (some (config, a)) id project slug t h =
    store_monitor-Kept (find_slug project slug t.monitors) id project slug config a t h

Noted-other :
    (id at k : ℕ) (f : Monitor → Monitor) (ms : List Monitor)
    → ((m : Monitor) → (f m).id ≡ m.id)
    → k ≢ id
    → Noted id at ms
    → Noted id at (update_monitor k f ms)
unfolding update_monitor
Noted-other id at k f ms h n (m, e, r) =
    let found = find_monitor-id id ms m e in
    let kept : (m.id == k) ≡ false = ground arith in
    (
      m,
      find_monitor-map id (λ (n : Monitor). if n.id == k then f n else n) ms
            (λ n. same_id (n.id == k) n)
          ∙ ap (Option.map (λ (n : Monitor). if n.id == k then f n else n)) e
          ∙ ap (λ b. some (if b then f m else m)) kept,
      r,
    )
  where
    same_id : (b : Bool) (m : Monitor) → (if b then f m else m).id ≡ m.id
    same_id true m = h m
    same_id false m = refl

finish_run-Kept :
    (ran : Ran (Option ℕ)) (id k : ℕ) (status : Text) (now : ℕ) (t : Tables)
    → answered k (finish_run k status now ran t).0 ≢ returns (some id)
    → Kept id t
    → Kept id (finish_run k status now ran t).1
unfolding finish_run
finish_run-Kept panics id k status now t n h = h
finish_run-Kept (returns due) id k status now t n (lt, (at, h)) = (
  lt,
  (
    at,
    Noted-other id at k (finished status now due) t.monitors (λ m. refl)
        (λ (e : k ≡ id). n (ap (λ i. returns (some i)) e)) h,
  ),
)

complete_loaded-Kept :
    (cal : Calendar) (m : Option Monitor) (id k : ℕ) (status : Text) (now : ℕ) (t : Tables)
    → answered k (complete_loaded cal k m status now t).0 ≢ returns (some id)
    → Kept id t
    → Kept id (complete_loaded cal k m status now t).1
unfolding complete_loaded
complete_loaded-Kept cal none id k status now t n h = h
complete_loaded-Kept cal (some m) id k status now t n h =
    finish_run-Kept
      (next_of cal (parse_schedule cal m.schedule_type m.schedule_value m.schedule_unit) now
        m.timezone)
      id k status now t n h

-- The run is only opened, or it is not one of the monitor's that finishes.
abbrev Spares : ℕ → Text → Ran (Option ℕ) → Type 0
Spares id status answer = (text_eq status in_progress ≡ true) ⊎ (answer ≢ returns (some id))

close_run-Kept :
    (cal : Calendar) (id k : ℕ) (status : Text) (now : ℕ) (t : Tables)
    → Spares id status (answered k (close_run cal k status now t).0)
    → Kept id t
    → Kept id (close_run cal k status now t).1
unfolding close_run complete_run
close_run-Kept cal id k status now t (inl e) h = rw e h
close_run-Kept cal id k status now t (inr n) h = elim (Bool-cases (text_eq status in_progress)) [
  | inl e ↦ rw e h
  | inr e ↦
      let n' : answered k (complete_loaded cal k (find_monitor k t.monitors) status now t).0
          ≢ returns (some id) =
        subst
          (λ b.
            answered k
              (if b
                then (returns tt, t)
                else complete_loaded cal k (find_monitor k t.monitors) status now t).0
            ≢ returns (some id))
          e n in
      rw e (complete_loaded-Kept cal (find_monitor k t.monitors) id k status now t n' h)
]

record_for-Kept :
    (cal : Calendar) (fresh : Text) (c : CheckIn) (now id : ℕ) (found : Option ℕ) (t : Tables)
    → Spares id (status_of c.status) (record_for cal fresh c now (found, t)).0
    → Kept id t
    → Kept id (record_for cal fresh c now (found, t)).1
unfolding record_for
record_for-Kept cal fresh c now id none t n h = h
record_for-Kept cal fresh c now id (some k) t n h =
    close_run-Kept cal id k (status_of c.status) now _ n h

record_check_in-Kept :
    (cal : Calendar) (fresh : Text) (project : ℕ) (c : CheckIn) (now id : ℕ) (t : Tables)
    → Spares id (status_of c.status) (record_check_in cal fresh project c now t).0
    → Kept id t
    → Kept id (record_check_in cal fresh project c now t).1
unfolding record_check_in upsert_monitor
record_check_in-Kept cal fresh project c now id t n h =
    let slug = str_trim c.monitor_slug in
    let upserted = upsert_parsed (c.monitor_config >>= with_config cal) project slug t in
    unless_empty (is_empty slug) upserted
      (upsert_parsed-Kept (c.monitor_config >>= with_config cal) id project slug t h) n
  where
    unless_empty :
        (empty : Bool) (p : Option ℕ × Tables)
        → Kept id p.1
        → Spares id
            (status_of c.status)
            (if empty then (returns none, t) else record_for cal fresh c now p).0
        → Kept id (if empty then (returns none, t) else record_for cal fresh c now p).1
    unless_empty true p k n' = h
    unless_empty false p k n' = record_for-Kept cal fresh c now id p.0 p.1 n' k

claim-Kept : (now id : ℕ) (s : SweepState) → Kept id s.tables → Kept id (claim now s).tables
unfolding claim
claim-Kept now id s (lt, (at, (m, e, r))) =
    let found = claim-found now id s m e in
    (lt, still (has_id m.id (claimed now s.tables.monitors)) found)
  where
    still :
        (hit : Bool)
        → find_monitor id (claim now s).tables.monitors ≡ some (marked now hit m)
        → (at' : ℕ) × Noted id at' (claim now s).tables.monitors
    still true f = (now, (record m { reported_at = some now }, f, refl))
    still false f = (at, (m, f, r))

sweep-Kept :
    (x : Context) (now id : ℕ) (s : SweepState)
    → Kept id s.tables
    → Kept id (sweep x now s).0.tables
unfolding sweep
sweep-Kept x now id s h =
    sweep_rows-keeps (Kept id)
      (λ t k status due (lt, (at, noted)). (lt, (at, rescheduled-Noted id at t k status due noted)))
      x now (with_open s.tables.checkins (claimed now s.tables.monitors)) (claim now s)
      nothing_swept (claim-Kept now id s h)

Step-Kept : (id : ℕ) {s u : SweepState} → Step id s u → Kept id s.tables → Kept id u.tables
Step-Kept id (swept x now s) h = sweep-Kept x now id s h
Step-Kept id (opened cal fresh project c now s e) h =
    record_check_in-Kept cal fresh project c now id s.tables (inl e) h
Step-Kept id (other cal fresh project c now s n) h =
    record_check_in-Kept cal fresh project c now id s.tables (inr n) h

Reach-Kept : (id : ℕ) {s u : SweepState} → Reach id s u → Kept id s.tables → Kept id u.tables
Reach-Kept id here h = h
Reach-Kept id (next r st) h = Step-Kept id st (Reach-Kept id r h)

-- Once a monitor is reported, it is overdue at no time, and so reported by no sweep, until a run of it
-- is recorded as finished: whatever sweeps, check-ins that open runs, check-ins for other monitors and
-- check-ins that panic come in between, and however many further runs are missed. The guide to cron
-- monitors and the comment of the sweep say otherwise, that a missed run is reported again.
pub reported_only_once :
    (id at later : ℕ) (s u : SweepState) (m : Monitor)
    → find_monitor id s.tables.monitors ≡ some m
    → m.reported_at ≡ some at
    → id < s.tables.next_monitor
    → Reach id s u
    → (left : Monitor) × (find_monitor id u.tables.monitors ≡ some left)
      × (is_overdue later left ≡ false)
reported_only_once id at later s u m e mark known r =
    let (lt, (at', (left, found, still))) = Reach-Kept id r (known, (at, (m, e, mark))) in
    (left, found, reported_quiet left at' later still)
