-- ===== src/Rules/Firing/Batch.antt =====
-- firing_facts of src/rules/firing.py: all rows of one identity at once, sorted.
use mathlib.Core.Option
use alerts_bi.Common.{
  ℕ, zero, suc, ◌+◌, ◌-◌, ◌*◌, max, Text, codes, Option, none, some, Bool, true, false, not, List,
  [], ◌∷◌, map, ltb, leb, eqb, text_ltb, ◌&&◌, ◌||◌, if◌then◌else◌, text_eq, get_or, length,
  count_if,
}
use alerts_bi.Common.Result.{Result, ok, err}
use alerts_bi.Common.Sorting.{sorted}
use alerts_bi.Domain.Record.{AlertRecord, EmptyRows, zero_rows, is_text}
use alerts_bi.Rules.Firing.Facts.{
  FiringFacts, Pattern, flapping, spamming, stuck, is_clear, flap_window, flap_cycles,
  api_spam_per_24h, api_rate_window, api_min_span, stuck_open,
}

-- A row with what `clears` holds at its index: its instant and whether it clears.
pub record Event : Type 0 where
  pub time : ℕ
  pub clear : Bool

abbrev pub event_of : AlertRecord → Event
event_of r = record { time = r.timestamp; clear = is_clear r }

-- False before True.
abbrev pub bool_ltb : Bool → Bool → Bool
bool_ltb false true = true
bool_ltb _ _ = false

abbrev pub bool_eqb : Bool → Bool → Bool
bool_eqb true true = true
bool_eqb false false = true
bool_eqb _ _ = false

-- The order of the tuples (timestamp, is_clear, doc_hash).
unfoldable pub row_ltb : AlertRecord → AlertRecord → Bool
row_ltb a b =
    ltb a.timestamp b.timestamp
    || (eqb a.timestamp b.timestamp
        && (bool_ltb (is_clear a) (is_clear b)
            || (bool_eqb (is_clear a) (is_clear b) && text_ltb a.doc_hash b.doc_hash)))

-- `cycle_times`, for the rows behind one that clears or not.
unfoldable pub cycle_times_from : Bool → List Event → List ℕ
cycle_times_from was_clear [] = []
cycle_times_from was_clear (e ∷ es) =
    let more = cycle_times_from e.clear es in
    if e.clear && not was_clear then e.time ∷ more else more

unfoldable pub cycle_times : List Event → List ℕ
unfolding cycle_times_from
cycle_times [] = []
cycle_times (e ∷ es) = cycle_times_from e.clear es

-- The inner loop: `while t - cycle_times[start] >= R6_FLAP_WINDOW: start += 1`. It stops at the
-- index of `t` itself at the latest, so a round for each time is enough.
unfoldable pub advance : ℕ → List ℕ → ℕ → ℕ → ℕ
advance zero times start t = start
advance (suc fuel) times start t =
    let next = advance fuel times (start + 1) t in
    if leb (get_or times start 0 + flap_window) t then next else start

-- The loop over `enumerate(cycle_times)`; `end` is the index of the first time left.
unfoldable pub scan_cycles : List ℕ → ℕ → ℕ → ℕ → List ℕ → ℕ
unfolding advance
scan_cycles times end start max_cycles [] = max_cycles
scan_cycles times end start max_cycles (t ∷ rest) =
    let start' = advance (length times + 1) times start t in
    scan_cycles times (end + 1) start' (max max_cycles (end + 1 - start')) rest

pub record Episodes : Type 0 where
  pub max_episode : ℕ
  pub current : ℕ
  pub episode_start : Option ℕ

-- The body of the loop over `zip(ordered, clears)`.
unfoldable pub episode_step : Episodes → Event → Episodes
episode_step s e = if e.clear then record s { current = 0; episode_start = none } else record {
  max_episode = max s.max_episode (s.current + 1);
  current = s.current + 1;
  episode_start = if eqb s.current 0 then some e.time else s.episode_start;
}

unfoldable pub episodes : Episodes → List Event → Episodes
unfolding episode_step
episodes s [] = s
episodes s (e ∷ es) = episodes (episode_step s e) es

abbrev pub no_episodes : Episodes
no_episodes = record { max_episode = 0; current = 0; episode_start = none }

-- `ordered[-1]`.
unfoldable pub last_time : ℕ → List Event → ℕ
last_time t [] = t
last_time t (e ∷ es) = last_time e.time es

unfoldable pub batch_pattern : ℕ → Bool → ℕ → ℕ → Option ℕ → Option Pattern
batch_pattern max_cycles grafana span n open_span =
    if leb flap_cycles max_cycles
    then some flapping
    else if not grafana
        && leb api_min_span span
        && leb (api_spam_per_24h * span) (n * api_rate_window)
    then some spamming
    else if grafana && (elim open_span [ none ↦ false | some d ↦ leb stuck_open d ])
    then some stuck
    else none

-- What follows the sort, for the events of the ordered rows.
unfoldable pub facts_of_events : Event → List Event → Option Text → FiringFacts
facts_of_events e es provider =
    let times = cycle_times (e ∷ es) in
    let max_cycles = scan_cycles times 0 0 0 times in
    let s = episodes no_episodes (e ∷ es) in
    let open_since : Option ℕ = if ltb 0 s.current then s.episode_start else none in
    let last = last_time e.time es in
    let open_span : Option ℕ = Option.map (λ since. last - since) open_since in
    let n = length (e ∷ es) in
    let span = last - e.time in
    record {
      clear_count = count_if (λ x. x.clear) (e ∷ es);
      max_clear_cycles_24h = max_cycles;
      max_episode_firing_rows = s.max_episode;
      open_since = open_since;
      open_span = open_span;
      span = span;
      events_per_24h = if leb api_min_span span then some (n * api_rate_window, span) else none;
      pattern = batch_pattern max_cycles (is_text provider (codes "grafana")) span n open_span;
    }

unfoldable pub facts_of_ordered : List Event → Option Text → Result EmptyRows FiringFacts
facts_of_ordered [] provider = err zero_rows
facts_of_ordered (e ∷ es) provider = ok (facts_of_events e es provider)

-- `rows` must not be empty: `ordered[-1]` raises on an empty list.
unfoldable pub firing_facts : List AlertRecord → Option Text → Result EmptyRows FiringFacts
unfolding row_ltb sorted facts_of_ordered facts_of_events cycle_times scan_cycles episodes last_time
    batch_pattern
firing_facts rows provider = facts_of_ordered (map event_of (sorted row_ltb rows)) provider
