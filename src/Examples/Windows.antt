-- ===== src/Examples/Windows.antt =====
-- The run window and the plan of weeks on dates.
use alerts_bi.Common.{
  ℕ, ◌+◌, ◌-◌, ◌*◌, ◌/◌, ◌≤◌, ◌<◌, ◌≡◌, refl, some, true, false, ◌++◌, arith, All, sum, map,
  count_if,
}
use alerts_bi.Domain.Time.{day, week}
use alerts_bi.Domain.Window.{contains_instant, build_run_window}
use alerts_bi.Domain.Window.Buckets.{
  Tiles, covers, build_run_window-Tiles, build_run_window_partition,
}
use alerts_bi.Weekly.{plan_weeks, is_week_boundary, latest_week_end}
use alerts_bi.Weekly.Due.{weeks_after, plan_weeks-due}

-- Half past ten on the thirtieth day.
abbrev half_past : ℕ
half_past = 30 * 86400000000 + 37800000000

build_run_window-Tiles_example :
    Tiles (half_past - week) half_past (build_run_window half_past).buckets
build_run_window-Tiles_example = build_run_window-Tiles half_past (omega arith)

build_run_window_partition_example :
    (sum (map (λ b. b.covered) (build_run_window half_past).buckets) ≡ week)
    × ((t : ℕ)
        → contains_instant (build_run_window half_past) t ≡ true
        → count_if (covers t) (build_run_window half_past).buckets ≡ 1)
build_run_window_partition_example = build_run_window_partition half_past (omega arith)

-- The Monday of the week 100, and a moment ten weeks and some hours later.
abbrev monday : ℕ
monday = 60480000000000

abbrev much_later : ℕ
much_later = 66600000000000

plan_weeks-due_example :
    ((plan_weeks (some monday) much_later 42).blocked ≡ false)
    × ((plan_weeks (some monday) much_later 42).expired
          ++ (plan_weeks (some monday) much_later 42).due
        ≡ weeks_after monday ((latest_week_end much_later - monday) / week))
    × All (λ end. much_later + week ≤ end + 42 * day) (plan_weeks (some monday) much_later 42).due
    × All
        (λ end. end + 42 * day < much_later + week)
        (plan_weeks (some monday) much_later 42).expired
plan_weeks-due_example = plan_weeks-due monday much_later 42 on_monday
  where
    on_monday : is_week_boundary monday ≡ true
    on_monday = unfold is_week_boundary in refl
