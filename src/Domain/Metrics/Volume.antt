-- ===== src/Domain/Metrics/Volume.antt =====
-- Every row of the window is counted once in its volume.
use alerts_bi.Common.{
  ℕ, zero, suc, ◌+◌, ◌-◌, ◌*◌, ◌/◌, ◌≤◌, ◌<◌, ◌≡◌, refl, ap, sym, ◌∙◌, subst, true, false, List, [],
  ◌∷◌, map, sum, contains, eqb, eqb_iff, nat_eq, length, arith, Bool-cases, inl, inr, All,
  if◌then◌else◌, ltb, leb, max, min, ltb→lt,
}
use alerts_bi.Common.Result.{ok}
use alerts_bi.Common.Unicode.{Unicode}
use alerts_bi.Domain.Record.{AlertRecord}
use alerts_bi.Domain.Time.{day, week, utc_date_key, utc_midnight}
use alerts_bi.Domain.Window.{DailyBucket, RunWindow, walk_days, build_run_window, contains_instant}
use alerts_bi.Domain.Window.Buckets.{Tiles, build_run_window-Tiles}
use alerts_bi.Domain.Metrics.{
  DailyVolume, dates_of, check_dates, rows_on, volume_of, compute_daily_volume, rollup_volume,
}

-- The dates go up.
abbrev pub IsIncreasing : ℕ → List ℕ → Type 0
IsIncreasing least [] = Unit
IsIncreasing least (d ∷ ds) = (least ≤ d) × IsIncreasing (suc d) ds

-- How many rows a date counts: one if the row is of one of the dates, which all differ.
count_on : ℕ → List ℕ → ℕ
count_on date [] = 0
count_on date (d ∷ ds) = (if eqb date d then 1 else 0) + count_on date ds

count_on-below :
    (date least : ℕ) (ds : List ℕ) → IsIncreasing least ds → date < least → count_on date ds ≡ 0
unfolding count_on
count_on-below date least [] h k = refl
count_on-below date least (d ∷ ds) h k =
    let differs : eqb date d ≡ false = ground (arith, h.0, k) in
    rw differs (omega (arith, count_on-below date (suc d) ds h.1 (omega (arith, h.0, k))))

count_on-once :
    (date least : ℕ) (ds : List ℕ)
    → IsIncreasing least ds
    → contains ds date ≡ true
    → count_on date ds ≡ 1
unfolding count_on
count_on-once date least [] h k = absurd cc
count_on-once date least (d ∷ ds) h k = elim (Bool-cases (eqb date d)) [
  | inl e ↦
      let same : date ≡ d = (eqb_iff date d).0 e in
      rw e (omega (arith, count_on-below date (suc d) ds h.1 (omega (arith, same))))
  | inr e ↦ rw e (omega (arith, count_on-once date (suc d) ds h.1 (ground (arith, k, e))))
]

-- The sums of the rows of each date.
counted : List ℕ → List AlertRecord → ℕ
counted ds rows = sum (map (λ d. length (rows_on d rows)) ds)

counted-cons :
    (ds : List ℕ) (row : AlertRecord) (rows : List AlertRecord)
    → counted ds (row ∷ rows) ≡ count_on row.snapshot_date ds + counted ds rows
unfolding counted rows_on count_on
counted-cons [] row rows = refl
counted-cons (d ∷ ds) row rows = elim (Bool-cases (eqb row.snapshot_date d)) [
  | inl e ↦ rw (e) (omega (arith, counted-cons ds row rows))
  | inr e ↦ rw (e) (omega (arith, counted-cons ds row rows))
]

counted-none : (ds : List ℕ) → counted ds [] ≡ 0
unfolding counted rows_on
counted-none [] = refl
counted-none (d ∷ ds) = omega (arith, counted-none ds)

counted-length :
    (least : ℕ) (ds : List ℕ) (rows : List AlertRecord) (t : Unit {0})
    → IsIncreasing least ds
    → check_dates ds rows ≡ ok t
    → counted ds rows ≡ length rows
unfolding check_dates
counted-length least ds [] t i h = counted-none ds
counted-length least ds (row ∷ rows) t i h = elim (Bool-cases (contains ds row.snapshot_date)) [
  | inr e ↦ absurd (ground (arith, h, e))
  | inl e ↦
      let rest = counted-length least ds rows t i (ground (arith, h, e)) in
      omega (arith, counted-cons ds row rows, count_on-once row.snapshot_date least ds i e, rest)
]

IsIncreasing-weaken :
    (least : ℕ) (ds : List ℕ) → IsIncreasing (suc least) ds → IsIncreasing least ds
IsIncreasing-weaken least [] h = tt
IsIncreasing-weaken least (d ∷ ds) h = (omega (arith, h.0), h.1)

walk_days-IsIncreasing :
    (fuel start end k final : ℕ)
    → IsIncreasing k (dates_of (walk_days fuel start end (k * day) final))
unfolding walk_days utc_date_key
walk_days-IsIncreasing zero start end k final = tt
walk_days-IsIncreasing (suc fuel) start end k final =
    let at = k * day in
    let next : k * day + day ≡ suc k * day = omega arith in
    let rest =
      subst (λ a. IsIncreasing (suc k) (dates_of (walk_days fuel start end a final))) (sym next)
        (walk_days-IsIncreasing fuel start end (suc k) final) in
    let date : k * day / day ≡ k = omega arith in
    elim (Bool-cases (leb at final)) [
      | inr e ↦ rw e tt
      | inl e ↦ elim (Bool-cases (ltb (max start at) (min end (at + day)))) [
        | inl f ↦ rw (e, f, date) (omega arith, rest)
        | inr f ↦ rw (e, f) (IsIncreasing-weaken k _ rest)
      ]
    ]

increasing :
    (run_at : ℕ) → IsIncreasing ((run_at - week) / day) (dates_of (build_run_window run_at).buckets)
unfolding build_run_window utc_midnight
increasing run_at =
    walk_days-IsIncreasing 10 (run_at - week) run_at ((run_at - week) / day)
      ((run_at - 1) / day * day)

dated :
    (s e t : ℕ) (bs : List DailyBucket)
    → Tiles s e bs
    → s ≤ t
    → t < e
    → contains (dates_of bs) (utc_date_key t) ≡ true
unfolding Tiles utc_date_key
dated s e t [] h le lt = absurd (omega (arith, h, le, lt))
dated s e t (b ∷ bs) h le lt = elim (Bool-cases (ltb t b.bucket_end)) [
  | inl p ↦
      let same : t / day ≡ b.snapshot_date =
        omega (arith, h.0, h.3, h.4, le, ltb→lt t b.bucket_end p) in
      ground (arith, same)
  | inr p ↦ let rest = dated b.bucket_end e t bs h.5 (ground arith) lt in ground (arith, rest)
]

-- A row is of the window: its timestamp is in it, and its date is the timestamp's.
unfoldable pub IsInside : ℕ → AlertRecord → Type 0
IsInside run_at row =
    (contains_instant (build_run_window run_at) row.timestamp ≡ true)
    × (row.snapshot_date ≡ utc_date_key row.timestamp)

check_dates-inside :
    (run_at : ℕ) (rows : List AlertRecord)
    → week < run_at
    → All (IsInside run_at) rows
    → check_dates (dates_of (build_run_window run_at).buckets) rows ≡ ok tt
unfolding check_dates IsInside
check_dates-inside run_at [] h inside = refl
check_dates-inside run_at (row ∷ rows) h inside =
    let bs = (build_run_window run_at).buckets in
    let bounds : (run_at - week ≤ row.timestamp) × (row.timestamp < run_at) =
      unfold contains_instant in unfold build_run_window in ground (arith, inside.0.0) in
    let found : contains (dates_of bs) row.snapshot_date ≡ true = rw (inside.0.1) (
      dated (run_at - week) run_at row.timestamp bs (build_run_window-Tiles run_at h) bounds.0
        bounds.1) in
    rw found (check_dates-inside run_at rows h inside.1)

module _ ⦃u : Unicode⦄ where
  alerts-counted :
      (bs : List DailyBucket) (rows : List AlertRecord)
      → sum (
          map
            (λ (d : DailyVolume). d.alerts)
            (map (λ (b : DailyBucket). volume_of b (rows_on b.snapshot_date rows)) bs))
        ≡ counted (dates_of bs) rows
  unfolding volume_of counted
  alerts-counted [] rows = refl
  alerts-counted (b ∷ bs) rows =
      ap (λ n. length (rows_on b.snapshot_date rows) + n) (alerts-counted bs rows)

  compute_daily_volume-ok :
      (rows : List AlertRecord) (window : RunWindow)
      → check_dates (dates_of window.buckets) rows ≡ ok tt
      → compute_daily_volume rows window
        ≡ ok (map (λ (b : DailyBucket). volume_of b (rows_on b.snapshot_date rows)) window.buckets)
  unfolding compute_daily_volume
  compute_daily_volume-ok rows window h = ground (arith, h)

  -- The rows of a run's window, each under the date of its timestamp, never make the daily volume
  -- raise, and each is counted once: the alerts of the days add up to the number of rows. The run
  -- is not in the first week of the calendar.
  pub rollup_volume-compute_daily_volume :
      (run_at : ℕ) (rows : List AlertRecord)
      → week < run_at
      → All (IsInside run_at) rows
      → (daily : List DailyVolume) × (compute_daily_volume rows (build_run_window run_at)
          ≡ ok daily)
        × ((rollup_volume daily).alerts ≡ length rows)
  unfolding rollup_volume
  rollup_volume-compute_daily_volume run_at rows h inside =
      let bs = (build_run_window run_at).buckets in
      let checked = check_dates-inside run_at rows h inside in
      (
        map (λ (b : DailyBucket). volume_of b (rows_on b.snapshot_date rows)) bs,
        compute_daily_volume-ok rows (build_run_window run_at) checked,
        alerts-counted bs rows
            ∙ counted-length ((run_at - week) / day) (dates_of bs) rows tt (increasing run_at)
                checked,
      )
