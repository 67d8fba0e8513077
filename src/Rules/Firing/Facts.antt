-- ===== src/Rules/Firing/Facts.antt =====
-- The facts that R6 judges (FiringFacts, is_clear) and its thresholds (src/rules/catalogs.py).
use alerts_bi.Common.{ℕ, ◌*◌, codes, Option, Bool}
use alerts_bi.Domain.Record.{AlertRecord, v1, v2, is_text}

-- A timedelta in microseconds.
abbrev pub hours : ℕ → ℕ
hours n = n * 3600000000

abbrev pub flap_window : ℕ
flap_window = hours 24

abbrev pub flap_cycles : ℕ
flap_cycles = 3

abbrev pub api_spam_per_24h : ℕ
api_spam_per_24h = 24

abbrev pub api_rate_window : ℕ
api_rate_window = hours 24

abbrev pub api_min_span : ℕ
api_min_span = hours 6

abbrev pub stuck_open : ℕ
stuck_open = hours 72

pub data Pattern : Type 0 where
  flapping spamming stuck : Pattern

-- `events_per_24h` is display only. It is the quotient of the row count by the number of rate
-- windows in the span, kept as the exact fraction (rows * window, span).
pub record FiringFacts : Type 0 where
  pub clear_count : ℕ
  pub max_clear_cycles_24h : ℕ
  pub max_episode_firing_rows : ℕ
  pub open_since : Option ℕ
  pub open_span : Option ℕ
  pub span : ℕ
  pub events_per_24h : Option (ℕ × ℕ)
  pub pattern : Option Pattern

unfoldable pub is_clear : AlertRecord → Bool
is_clear row = elim row.schema [
  | v1 ↦ is_text row.severity (codes "clear")
  | v2 ↦ is_text row.status (codes "resolved")
]
