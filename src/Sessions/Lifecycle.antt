-- ===== src/Sessions/Lifecycle.antt =====
-- The SDK's session of crates/thermite-sdk/src/session.rs, and what the server counts of it.
use thermite_rs.Prelude.{
  Bool, List, Text, [], any, ap, arith, codes, false, if◌then◌else◌, ltb, min, not, refl, some,
  true, ℕ, ◌&&◌, ◌+◌, ◌-◌, ◌<◌, ◌^◌, ◌||◌, ◌∷◌, ◌≡◌, ◌≢◌,
}
use thermite_rs.Sessions.{Session, count_if, delta, merge, started_at}

pub data Status : Type 0 where
  running exited crashed : Status

-- `errors` is a u32. The session's id and environment are not read by the rollup.
pub record SdkSession : Type 0 where
  pub started : ℕ
  pub status : Status
  pub errors : ℕ
  pub release : Text

pub record Update : Type 0 where
  pub init : Bool
  pub started : ℕ
  pub timestamp : ℕ
  pub status : Status
  pub errors : ℕ
  pub release : Text

unfoldable pub new : Text → ℕ → SdkSession
new release now = record { started = now; status = running; errors = 0; release = release }

update : SdkSession → Bool → ℕ → Update
update s init now = record {
  init = init;
  started = s.started;
  timestamp = now;
  status = s.status;
  errors = s.errors;
  release = s.release;
}

unfoldable pub opened : SdkSession → ℕ → Update
unfolding update
opened s now = update s true now

-- `saturating_add`.
unfoldable pub record_error : SdkSession → SdkSession
record_error s = record s { errors = min (s.errors + 1) (2 ^ 32 - 1) }

mark_crashed : SdkSession → SdkSession
mark_crashed s = record s { status = crashed }

closed_status : Status → Status
closed_status crashed = crashed
closed_status _ = exited

unfoldable pub closed : SdkSession → ℕ → Update
unfolding update closed_status
closed s now = let u = update s false now in record u { status = closed_status s.status }

-- `rename_all = "lowercase"`.
abbrev status_text : Status → Text
status_text running = codes "ok"
status_text exited = codes "exited"
status_text crashed = codes "crashed"

-- What the server decodes of an update.
pub received : Update → Session ℕ
received u = record {
  init = u.init;
  status = some (status_text u.status);
  errors = u.errors;
  started = some u.started;
  timestamp = some u.timestamp;
  release = some u.release;
}

-- What happens to a process between the two updates of its session.
pub data Happening : Type 0 where
  error crash : Happening

pub live : SdkSession → List Happening → SdkSession
unfolding record_error mark_crashed
live s [] = s
live s (error ∷ hs) = live (record_error s) hs
live s (crash ∷ hs) = live (mark_crashed s) hs

abbrev pub is_crash : Happening → Bool
is_crash crash = true
is_crash error = false

abbrev some_happened : List Happening → Bool
some_happened [] = false
some_happened (h ∷ hs) = true

-- A running or crashed session after some happenings.
live-status :
    (s : SdkSession) (hs : List Happening)
    → s.status ≢ exited
    → closed_status (live s hs).status
      ≡ (if any is_crash hs then crashed else closed_status s.status)
unfolding live closed_status
live-status s [] h = refl
live-status s (error ∷ hs) h = live-status (record_error s) hs h
live-status s (crash ∷ hs) h = ground (arith, live-status (mark_crashed s) hs (λ e. cc))

live-errors : (s : SdkSession) (hs : List Happening) → 0 < s.errors → 0 < (live s hs).errors
unfolding live
live-errors s [] h = h
live-errors s (error ∷ hs) h = live-errors (record_error s) hs (ground arith)
live-errors s (crash ∷ hs) h = live-errors (mark_crashed s) hs h

live_errors_iff :
    (s : SdkSession) (hs : List Happening)
    → ltb 0 (live s hs).errors ≡ (ltb 0 s.errors || any (λ h. not (is_crash h)) hs)
unfolding live
live_errors_iff s [] = ground arith
live_errors_iff s (error ∷ hs) =
    ground (arith, live-errors (record_error s) hs, live_errors_iff (record_error s) hs)
live_errors_iff s (crash ∷ hs) = live_errors_iff (mark_crashed s) hs

live-started : (s : SdkSession) (hs : List Happening) → (live s hs).started ≡ s.started
unfolding live
live-started s [] = refl
live-started s (error ∷ hs) = live-started (record_error s) hs
live-started s (crash ∷ hs) = live-started (mark_crashed s) hs

abbrev is_crashed : Status → Bool
is_crashed crashed = true
is_crashed _ = false

closed-delta :
    (s : SdkSession) (now : ℕ)
    → delta (received (closed s now)) ≡ record {
      sessions = 0;
      errored = count_if (not (is_crashed (closed_status s.status)) && ltb 0 s.errors);
      crashed = count_if (is_crashed (closed_status s.status));
      abnormal = 0;
    }
unfolding delta received closed
closed-delta s now = ground arith

opened-delta :
    (release : Text) (begin now : ℕ)
    → delta (received (opened (new release begin) now))
      ≡ record { sessions = 1; errored = 0; crashed = 0; abnormal = 0 }
unfolding delta received opened new
opened-delta release begin now = refl

new_status :
    (release : Text) (begin : ℕ) (hs : List Happening)
    → is_crashed (closed_status (live (new release begin) hs).status) ≡ any is_crash hs
unfolding new closed_status
new_status release begin hs = ground (arith, live-status (new release begin) hs (λ e. cc))

new_errors :
    (release : Text) (begin : ℕ) (hs : List Happening)
    → ltb 0 (live (new release begin) hs).errors ≡ any (λ h. not (is_crash h)) hs
unfolding new
new_errors release begin hs = live_errors_iff (new release begin) hs

started_lem :
    (release : Text) (begin now later : ℕ) (hs : List Happening)
    → (started_at (received (opened (new release begin) now)) ≡ some begin)
      × (started_at (received (closed (live (new release begin) hs) later)) ≡ some begin)
unfolding started_at received opened closed new
started_lem release begin now later hs = (refl, ap some (live-started (new release begin) hs))

merged_deltas :
    (crash_seen error_seen : Bool)
    → merge
        (record { sessions = 1; errored = 0; crashed = 0; abnormal = 0 })
        (record {
          sessions = 0;
          errored = count_if (not crash_seen && error_seen);
          crashed = count_if crash_seen;
          abnormal = 0;
        })
      ≡ record {
        sessions = 1;
        errored = count_if (not crash_seen && error_seen);
        crashed = count_if crash_seen;
        abnormal = 0;
      }
unfolding merge
merged_deltas crash_seen error_seen = ground arith

-- Whatever errors and crashes a process reports between the two updates of its session, the server
-- counts exactly one session for it, one crash if it crashed, one errored session if it reported an
-- error and did not crash, and nothing else; and both updates carry the start of the process as their time.
pub session_counted_once :
    (release : Text) (begin now later : ℕ) (hs : List Happening)
    → let s = live (new release begin) hs in
      (merge (delta (received (opened (new release begin) now))) (delta (received (closed s later)))
        ≡ record {
          sessions = 1;
          errored = count_if (not (any is_crash hs) && any (λ h. not (is_crash h)) hs);
          crashed = count_if (any is_crash hs);
          abnormal = 0;
        })
      × (started_at (received (opened (new release begin) now)) ≡ some begin)
      × (started_at (received (closed s later)) ≡ some begin)
session_counted_once release begin now later hs =
    let starts = started_lem release begin now later hs in
    (
      rw
          (
            opened-delta release begin now,
            closed-delta (live (new release begin) hs) later,
            new_status release begin hs,
            new_errors release begin hs,
          )
          (merged_deltas (any is_crash hs) (any (λ h. not (is_crash h)) hs)),
      starts.0,
      starts.1,
    )
