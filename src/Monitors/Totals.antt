-- ===== src/Monitors/Totals.antt =====
-- What a sweep counts.
use thermite_rs.Prelude.{
  Bool, List, Option, [], ap, arith, false, filter, length, length-take-min, min, refl, suc, true,
  ℕ, ◌+◌, ◌∷◌, ◌≡◌,
}
use thermite_rs.Monitors.Schedule.{Ran, next_of, panics, parse_schedule, returns}
use thermite_rs.Monitors.Tables.{Monitor, Reported}
use thermite_rs.Monitors.Sweep.{
  Context, SweepState, Swept, by_due, claim, claimed, counted, has_timed_out, is_overdue,
  move_window, nothing_swept, report, sweep, sweep_batch, sweep_rows, total, with_open,
}
use thermite_rs.Monitors.Reports.{length-by_due}

abbrev swept_of : Ran Swept → Swept
swept_of (returns s) = s
swept_of panics = nothing_swept

counted-total : (late : Bool) (swept : Swept) → total (counted late swept) ≡ suc (total swept)
unfolding counted
counted-total true swept = omega arith
counted-total false swept = omega arith

sweep_rows-total :
    (x : Context) (now : ℕ) (rows : List (Monitor × Option ℕ)) (s s' : SweepState)
    (swept done : Swept)
    → sweep_rows x now rows s swept ≡ (s', returns done)
    → total done ≡ total swept + length rows
unfolding sweep_rows
sweep_rows-total x now [] s s' swept done e = omega (arith, ap (λ p. total (swept_of p.1)) e)
sweep_rows-total x now ((m, opened) ∷ rows) s s' swept done e =
    after
      (next_of x.calendar
        (parse_schedule x.calendar m.schedule_type m.schedule_value m.schedule_unit) now m.timezone)
      e (λ t swept' k. sweep_rows-total x now rows t s' swept' done k)
  where
    late : Bool
    late = has_timed_out m.max_runtime_minutes opened now

    after :
        (next : Ran (Option ℕ))
        → elim next as (λ n. SweepState × Ran Swept) [
          | panics ↦ (report x now m late s, panics)
          | returns next_due ↦
              sweep_rows x now rows
                (move_window m late next_due (report x now m late s))
                (counted late swept)
        ]
          ≡ (s', returns done)
        → ((t : SweepState) (swept' : Swept)
            → sweep_rows x now rows t swept' ≡ (s', returns done)
            → total done ≡ total swept' + length rows)
        → total done ≡ total swept + suc (length rows)
    after panics f rest = let g : panics ≡ returns done = ap (λ p. p.1) f in cc g
    after (returns next_due) f rest = omega (
      arith,
      rest (move_window m late next_due (report x now m late s)) (counted late swept) f,
      counted-total late swept,
    )

length-with_open : (rs : List Reported) (ms : List Monitor) → length (with_open rs ms) ≡ length ms
unfolding with_open
length-with_open rs [] = refl
length-with_open rs (m ∷ ms) = ap suc (length-with_open rs ms)

-- A sweep that comes to its end counts, as missed or timed out, every overdue monitor, up to 500 of
-- them.
swept_total :
    (x : Context) (now : ℕ) (s s' : SweepState) (swept : Swept)
    → sweep x now s ≡ (s', returns swept)
    → total swept ≡ min 500 (length (filter (is_overdue now) s.tables.monitors))
unfolding sweep claimed
swept_total x now s s' swept e =
    let due = filter (is_overdue now) s.tables.monitors in
    let n =
      sweep_rows-total x now (with_open s.tables.checkins (claimed now s.tables.monitors))
        (claim now s) s' nothing_swept swept e in
    omega (
      arith,
      n,
      length-with_open s.tables.checkins (claimed now s.tables.monitors),
      length-by_due due,
      length-take-min sweep_batch (by_due due),
    )
