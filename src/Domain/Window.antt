-- ===== src/Domain/Window.antt =====
-- src/domain/window.py: the run window and its UTC daily buckets. `covered_hours` is kept as the
-- exact duration, which the source divides by an hour.
pub mod Buckets
use alerts_bi.Common.{
  ℕ, zero, suc, ◌+◌, ◌-◌, ◌*◌, ◌/◌, min, max, Bool, List, [], ◌∷◌, ltb, leb, ◌&&◌, if◌then◌else◌,
}
use alerts_bi.Domain.Time.{day, week, utc_date_key, utc_midnight}

pub record DailyBucket : Type 0 where
  pub snapshot_date : ℕ
  pub bucket_start : ℕ
  pub bucket_end : ℕ
  pub covered : ℕ

pub record RunWindow : Type 0 where
  pub run_at : ℕ
  pub window_start : ℕ
  pub window_end : ℕ
  pub buckets : List DailyBucket

unfoldable pub contains_instant : RunWindow → ℕ → Bool
contains_instant w at = leb w.window_start at && ltb at w.window_end

-- The loop over the dates. Its end is behind the window's start by nine days at most, so nine rounds
-- and one for the last test are enough.
unfoldable pub walk_days : ℕ → ℕ → ℕ → ℕ → ℕ → List DailyBucket
unfolding utc_date_key
walk_days zero start end at final = []
walk_days (suc fuel) start end at final =
    let bucket_start = max start at in
    let bucket_end = min end (at + day) in
    let rest = walk_days fuel start end (at + day) final in
    let bucket : DailyBucket = record {
      snapshot_date = utc_date_key at;
      bucket_start = bucket_start;
      bucket_end = bucket_end;
      covered = bucket_end - bucket_start;
    } in
    let listed = if ltb bucket_start bucket_end then bucket ∷ rest else rest in
    if leb at final then listed else []

-- `run_at` lies at least a week behind datetime.min: before that the subtraction raises.
unfoldable pub build_run_window : ℕ → RunWindow
unfolding walk_days utc_midnight
build_run_window run_at =
    let start = run_at - week in
    record {
      run_at = run_at;
      window_start = start;
      window_end = run_at;
      buckets = walk_days 10 start run_at (utc_midnight start) (utc_midnight (run_at - 1));
    }
