-- ===== src/Domain/Window/Buckets.antt =====
-- The daily buckets of a run window as a tiling of a span of time.
use alerts_bi.Common.{
  ℕ, zero, suc, ◌+◌, ◌-◌, ◌*◌, ◌/◌, ◌≤◌, ◌<◌, min, max, ◌≡◌, refl, Bool, true, List, [], ◌∷◌, ltb,
  leb, leb→le, lt→ltb, ltb→lt, arith, Bool-cases, inl, inr, sum, map, count_if, ◌&&◌,
}
use alerts_bi.Domain.Time.{day, week, utc_date_key, utc_midnight}
use alerts_bi.Domain.Window.{DailyBucket, contains_instant, walk_days, build_run_window}

-- The buckets follow each other without a gap from `s` to `e`; each is not empty, lies within the
-- date it is named for and covers its own length.
unfoldable pub Tiles : ℕ → ℕ → List DailyBucket → Type 0
Tiles s e [] = s ≡ e
Tiles s e (b ∷ bs) =
    (b.bucket_start ≡ s)
    × (b.bucket_start < b.bucket_end)
    × (b.covered ≡ b.bucket_end - b.bucket_start)
    × (b.snapshot_date * day ≤ b.bucket_start)
    × (b.bucket_end ≤ b.snapshot_date * day + day)
    × Tiles b.bucket_end e bs

Tiles-at : (s s' e : ℕ) (bs : List DailyBucket) → s ≡ s' → Tiles s e bs → Tiles s' e bs
unfolding Tiles
Tiles-at s s' e [] h t = omega (arith, h, t)
Tiles-at s s' e (b ∷ bs) h t = (omega (arith, h, t.0), t.1, t.2, t.3, t.4, t.5)

walk_days-Tiles :
    (fuel start end at final d : ℕ)
    → start < end
    → at ≡ d * day
    → start < at + day
    → final ≡ (end - 1) / day * day
    → (end - 1) / day < d + fuel
    → Tiles (min end (max start at)) end (walk_days fuel start end at final)
unfolding walk_days Tiles utc_date_key
walk_days-Tiles zero start end at final d h ha hs hf hk = omega arith
walk_days-Tiles (suc fuel) start end at final d h ha hs hf hk = elim (Bool-cases (leb at final)) [
  | inl p ↦
      let q : at ≤ final = leb→le at final p in
      let nonempty : ltb (max start at) (min end (at + day)) ≡ true =
        lt→ltb (max start at) (min end (at + day)) (omega arith) in
      let rest =
        walk_days-Tiles fuel start end (at + day) final (suc d) h (omega arith) (omega arith) hf
          (omega arith) in
      rw (p, nonempty)
        (
          omega arith,
          omega arith,
          refl,
          omega arith,
          omega arith,
          Tiles-at _ _ _ (walk_days fuel start end (at + day) final) (omega arith) rest,
        )
  | inr p ↦ let q : final < at = ground arith in rw p (omega arith)
]

-- The buckets of the window of a run tile it: they follow each other without a gap from a week
-- before the run to the run, none is empty, none leaves the date it is named for, and each covers
-- its own length. The run is not in the first week of the calendar.
pub build_run_window-Tiles :
    (run_at : ℕ) → week < run_at → Tiles (run_at - week) run_at (build_run_window run_at).buckets
unfolding build_run_window utc_midnight
build_run_window-Tiles run_at h =
    Tiles-at _ _ _
      (walk_days 10 (run_at - week) run_at ((run_at - week) / day * day) ((run_at - 1) / day * day))
      (omega arith)
      (walk_days-Tiles 10 (run_at - week) run_at ((run_at - week) / day * day)
        ((run_at - 1) / day * day) ((run_at - week) / day) (omega arith) refl (omega arith) refl
        (omega arith))

unfoldable pub covers : ℕ → DailyBucket → Bool
covers t b = leb b.bucket_start t && ltb t b.bucket_end

Tiles-sum : (s e : ℕ) (bs : List DailyBucket) → Tiles s e bs → s + sum (map (λ b. b.covered) bs) ≡ e
unfolding Tiles
Tiles-sum s e [] h = omega (arith, h)
Tiles-sum s e (b ∷ bs) h = omega (arith, h.0, h.1, h.2, Tiles-sum b.bucket_end e bs h.5)

Tiles-le : (s e : ℕ) (bs : List DailyBucket) → Tiles s e bs → s ≤ e
unfolding Tiles
Tiles-le s e [] h = omega (arith, h)
Tiles-le s e (b ∷ bs) h = omega (arith, h.0, h.1, Tiles-le b.bucket_end e bs h.5)

none_covers :
    (s e t : ℕ) (bs : List DailyBucket) → Tiles s e bs → t < s → count_if (covers t) bs ≡ 0
unfolding Tiles covers
none_covers s e t [] h lt = refl
none_covers s e t (b ∷ bs) h lt =
    let rest = none_covers b.bucket_end e t bs h.5 (omega (arith, h.0, h.1)) in
    ground (arith, h.0, rest)

one_covers :
    (s e t : ℕ) (bs : List DailyBucket) → Tiles s e bs → s ≤ t → t < e → count_if (covers t) bs ≡ 1
unfolding Tiles covers
one_covers s e t [] h le lt = omega (arith, h)
one_covers s e t (b ∷ bs) h le lt = elim (Bool-cases (ltb t b.bucket_end)) [
  | inl p ↦
      let rest = none_covers b.bucket_end e t bs h.5 (ltb→lt t b.bucket_end p) in
      ground (arith, h.0, rest)
  | inr p ↦
      let rest = one_covers b.bucket_end e t bs h.5 (ground arith) lt in ground (arith, h.0, rest)
]

-- The hours that the buckets of a run cover add up to one week, and an instant of the window is in
-- exactly one bucket. The run is not in the first week of the calendar.
pub build_run_window_partition :
    (run_at : ℕ)
    → week < run_at
    → (sum (map (λ b. b.covered) (build_run_window run_at).buckets) ≡ week)
      × ((t : ℕ)
          → contains_instant (build_run_window run_at) t ≡ true
          → count_if (covers t) (build_run_window run_at).buckets ≡ 1)
unfolding build_run_window contains_instant
build_run_window_partition run_at h =
    let tiles = build_run_window-Tiles run_at h in
    (
      omega (arith, Tiles-sum (run_at - week) run_at (build_run_window run_at).buckets tiles),
      λ t inside.
          one_covers (run_at - week) run_at t (build_run_window run_at).buckets tiles (ground arith)
            (ground arith),
    )
