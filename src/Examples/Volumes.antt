-- ===== src/Examples/Volumes.antt =====
-- The daily volume of rows on a date.
use alerts_bi.Common.{◌*◌, ◌-◌, ◌≡◌, refl, some, List, [], ◌∷◌, arith, length, codes, All}
use alerts_bi.Common.Result.{ok}
use alerts_bi.Common.Unicode.{ascii}
use alerts_bi.Domain.Record.{AlertRecord}
use alerts_bi.Domain.Time.{day, utc_date_key}
use alerts_bi.Domain.Window.{contains_instant, build_run_window}
use alerts_bi.Domain.Metrics.{DailyVolume, compute_daily_volume, rollup_volume, count_distinct}
use alerts_bi.Domain.Metrics.Volume.{IsInside, rollup_volume-compute_daily_volume}
use alerts_bi.Examples.Records.{firing_row}

-- A row late on the twenty-eighth day, and one early on the day that follows it.
abbrev rows : List AlertRecord
rows =
    record firing_row {
      timestamp = 29 * day - 1;
      snapshot_date = 28;
      node_name = some (codes "n1");
    }
    ∷ record firing_row { timestamp = 29 * day; snapshot_date = 29 }
    ∷ []

distinct_texts : count_distinct (codes "a" ∷ codes "b" ∷ codes "a" ∷ []) ≡ 2
unfolding count_distinct
distinct_texts = refl

rollup_volume-compute_daily_volume_example :
    (daily : List DailyVolume) × (compute_daily_volume ⦃u = ascii⦄ rows
        (build_run_window (30 * day))
      ≡ ok daily)
    × ((rollup_volume daily).alerts ≡ length rows)
rollup_volume-compute_daily_volume_example =
    rollup_volume-compute_daily_volume ⦃u = ascii⦄ (30 * day) rows (omega arith) inside
  where
    inside : All (IsInside (30 * day)) rows
    inside =
        unfold IsInside in
        unfold contains_instant in
        unfold build_run_window in unfold utc_date_key in ((refl, refl), ((refl, refl), tt))
