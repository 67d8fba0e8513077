-- ===== src/Weekly/Due.antt =====
-- The planned weeks against the Monday weeks between the latest published one and now.
use alerts_bi.Common.{
  ℕ, zero, suc, ◌+◌, ◌-◌, ◌*◌, ◌/◌, ◌≤◌, ◌<◌, ◌≡◌, refl, some, Bool, true, false, not, List, [],
  ◌∷◌, ◌++◌, ltb, leb, arith, Bool-cases, inl, inr, keep, ap, le→leb, All, All-map,
}
use alerts_bi.Domain.Time.{day, week}
use alerts_bi.Weekly.{is_week_boundary, latest_week_end, ends_from, is_expired, plan_weeks}

-- `latest_week_end` is a Monday midnight, at or before the moment, and the last one.
latest_week_end_lem :
    (now : ℕ)
    → (latest_week_end now ≡ now / week * week)
      × (latest_week_end now ≤ now)
      × (now < latest_week_end now + week)
unfolding latest_week_end
latest_week_end_lem now = (omega arith, omega arith, omega arith)

is_week_boundary_lem : (at : ℕ) → is_week_boundary at ≡ true → at ≡ at / week * week
unfolding is_week_boundary
is_week_boundary_lem at h = ground arith

-- The ends of the `n` weeks behind a moment, oldest first.
unfoldable pub weeks_after : ℕ → ℕ → List ℕ
weeks_after start zero = []
weeks_after start (suc n) = (start + week) ∷ weeks_after (start + week) n

ends_from-weeks_after :
    (fuel start last n : ℕ)
    → n < fuel
    → last < start + n * week + week
    → (0 < n → start + n * week ≤ last)
    → ends_from fuel (start + week) last ≡ weeks_after start n
unfolding ends_from weeks_after
ends_from-weeks_after zero start last n enough above below = absurd (omega arith)
ends_from-weeks_after (suc fuel) start last zero enough above below =
    let no_more : leb (start + week) last ≡ false = ground arith in rw no_more refl
ends_from-weeks_after (suc fuel) start last (suc n) enough above below =
    let reached = below (omega arith) in
    let more : leb (start + week) last ≡ true = le→leb (start + week) last (omega arith) in
    let rest =
      ends_from-weeks_after fuel (start + week) last n (omega arith) (omega arith)
        (λ h. omega arith) in
    rw more (ap (λ l. (start + week) ∷ l) rest)

-- Behind a week that is not expired none is.
none_expired :
    (now days start n : ℕ)
    → now ≤ start + days * day
    → (keep (is_expired now days) (weeks_after start n) ≡ [])
      × (keep (λ end. not (is_expired now days end)) (weeks_after start n) ≡ weeks_after start n)
unfolding weeks_after is_expired
none_expired now days start zero h = (refl, refl)
none_expired now days start (suc n) h =
    let rest = none_expired now days (start + week) n (omega arith) in
    let kept : ltb (start + week + days * day) (now + week) ≡ false = ground arith in
    rw kept (rest.0, ap (λ l. (start + week) ∷ l) rest.1)

is_expired-false :
    (now days end : ℕ) → is_expired now days end ≡ false → now + week ≤ end + days * day
unfolding is_expired
is_expired-false now days end h = ground arith

is_expired-true :
    (now days end : ℕ) → is_expired now days end ≡ true → end + days * day < now + week
unfolding is_expired
is_expired-true now days end h = ground arith

not-is_expired :
    (now days end : ℕ) → not (is_expired now days end) ≡ true → now + week ≤ end + days * day
unfolding is_expired
not-is_expired now days end h = ground arith

expired-due :
    (now days start n : ℕ)
    → keep (is_expired now days) (weeks_after start n)
        ++ keep (λ end. not (is_expired now days end)) (weeks_after start n)
      ≡ weeks_after start n
unfolding weeks_after
expired-due now days start zero = refl
expired-due now days start (suc n) = elim (Bool-cases (is_expired now days (start + week))) [
  | inl e ↦ rw e (ap (λ l. (start + week) ∷ l) (expired-due now days (start + week) n))
  | inr e ↦
      let rest =
        none_expired now days (start + week) n
          (omega (arith, is_expired-false now days (start + week) e)) in
      rw (e, rest.0, rest.1) refl
]

keep-All {ℓ} : {A : Type ℓ} (p : A → Bool) (xs : List A) → All (λ x. p x ≡ true) (keep p xs)
keep-All p [] = tt
keep-All p (x ∷ xs) = elim (Bool-cases (p x)) [
  | inl e ↦ rw e (e, keep-All p xs)
  | inr e ↦ rw e (keep-All p xs)
]

-- Behind a latest published week that ends at a Monday's midnight, nothing is blocked, and the
-- expired weeks and the due ones together are all weeks, oldest first, from there to the last that
-- has ended; the due ones begin within the retention, the expired ones before it.
pub plan_weeks-due :
    (latest now days : ℕ)
    → is_week_boundary latest ≡ true
    → ((plan_weeks (some latest) now days).blocked ≡ false)
      × ((plan_weeks (some latest) now days).expired ++ (plan_weeks (some latest) now days).due
          ≡ weeks_after latest ((latest_week_end now - latest) / week))
      × All (λ end. now + week ≤ end + days * day) (plan_weeks (some latest) now days).due
      × All (λ end. end + days * day < now + week) (plan_weeks (some latest) now days).expired
unfolding plan_weeks
plan_weeks-due latest now days h =
    let last = latest_week_end now in
    let n = (last - latest) / week in
    let ends : ends_from (last / week + 1) (latest + week) last ≡ weeks_after latest n =
      ends_from-weeks_after (last / week + 1) latest last n (omega arith) (omega arith)
        (λ pos. omega arith) in
    rw h (
      refl,
      rw ends (expired-due now days latest n),
      All-map _ (not-is_expired now days) (keep-All (λ end. not (is_expired now days end)) _),
      All-map _ (is_expired-true now days) (keep-All (is_expired now days) _),
    )
