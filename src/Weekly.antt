-- ===== src/Weekly.antt =====
-- src/weekly/plan.py: which weeks are due for a team.
pub mod Due
pub mod Runner
use alerts_bi.Common.{
  ℕ, zero, suc, ◌+◌, ◌-◌, ◌*◌, ◌/◌, ◌%◌, Option, none, some, Bool, not, List, [], ◌∷◌, ltb, leb,
  eqb, if◌then◌else◌, ◌&&◌, keep,
}
use alerts_bi.Domain.Time.{day, week, utc_midnight, weekday}

-- Retention in days.
abbrev pub retention_days : ℕ
retention_days = 84

-- The hour, minute, second and microsecond are all zero at a multiple of a day.
unfoldable pub is_week_boundary : ℕ → Bool
unfolding weekday
is_week_boundary at = eqb (weekday at) 0 && eqb (at % day) 0

unfoldable pub latest_week_end : ℕ → ℕ
unfolding utc_midnight weekday
latest_week_end now = utc_midnight now - weekday (utc_midnight now) * day

-- `blocked` is a message; whether there is one is what matters.
pub record WeeklyPlan : Type 0 where
  pub due : List ℕ
  pub expired : List ℕ
  pub blocked : Bool

-- `while end <= last: ends.append(end); end += WEEK`. Each round takes a week of what is left, so
-- the number of microseconds is more than enough fuel, and so is the number of weeks and one.
unfoldable pub ends_from : ℕ → ℕ → ℕ → List ℕ
ends_from zero end last = []
ends_from (suc fuel) end last =
    let more = end ∷ ends_from fuel (end + week) last in if leb end last then more else []

-- `end - WEEK < now - retention`, with nothing subtracted.
unfoldable pub is_expired : ℕ → ℕ → ℕ → Bool
is_expired now days end = ltb (end + days * day) (now + week)

unfoldable pub plan_weeks : Option ℕ → ℕ → ℕ → WeeklyPlan
unfolding latest_week_end is_week_boundary ends_from is_expired
plan_weeks none now days = record {
  due = latest_week_end now ∷ [];
  expired = [];
  blocked = Bool.false;
}
plan_weeks (some latest) now days =
    let last = latest_week_end now in
    let ends = ends_from (last / week + 1) (latest + week) last in
    if is_week_boundary latest
    then record {
      due = keep (λ end. not (is_expired now days end)) ends;
      expired = keep (is_expired now days) ends;
      blocked = Bool.false;
    }
    else record { due = []; expired = []; blocked = Bool.true }
