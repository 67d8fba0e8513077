-- ===== src/Domain/Time.antt =====
-- Instants and durations: microseconds, since 0001-01-01 00:00 UTC (Python's datetime.min, a
-- Monday), so that every datetime is a number.
use alerts_bi.Common.{ℕ, ◌*◌, ◌/◌, ◌%◌}

abbrev pub hour : ℕ
hour = 3600000000

abbrev pub day : ℕ
day = 86400000000

-- timedelta(hours=WINDOW_HOURS).
abbrev pub week : ℕ
week = 604800000000

-- The calendar date as the number of its day, which stands for the text `YYYY-MM-DD`.
unfoldable pub utc_date_key : ℕ → ℕ
utc_date_key at = at / day

unfoldable pub utc_midnight : ℕ → ℕ
utc_midnight at = at / day * day

-- Monday is 0.
unfoldable pub weekday : ℕ → ℕ
weekday at = at / day % 7
