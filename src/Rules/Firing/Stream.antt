-- ===== src/Rules/Firing/Stream.antt =====
-- FiringAccumulator of src/rules/firing_stream.py: the same facts from rows that arrive in
-- chronological order, with the rows of one instant pending and no row retained.
use mathlib.Core.Option
use alerts_bi.Common.{
  ℕ, ◌+◌, ◌-◌, ◌*◌, max, Text, codes, Option, none, some, false, not, List, [], ◌∷◌, ◌++◌, ltb, leb,
  eqb, ◌&&◌, if◌then◌else◌, text_eq, length,
}
use alerts_bi.Common.Result.{Result, ok, err, ◌>>=◌, fold_result}
use alerts_bi.Domain.Record.{AlertRecord, is_text}
use alerts_bi.Rules.Firing.Facts.{
  FiringFacts, Pattern, flapping, spamming, stuck, is_clear, flap_window, flap_cycles,
  api_spam_per_24h, api_rate_window, api_min_span, stuck_open,
}

pub data StreamError : Type 0 where
  not_chronological empty_history : StreamError

pub record Accumulator : Type 0 where
  pub first : Option ℕ
  pub pending_at : Option ℕ
  pub pending_fires : ℕ
  pub pending_clears : ℕ
  pub count : ℕ
  pub clear_count : ℕ
  pub current : ℕ
  pub max_episode : ℕ
  pub open_since : Option ℕ
  pub cycles : List ℕ
  pub max_cycles : ℕ

abbrev pub initial : Accumulator
initial = record {
  first = none;
  pending_at = none;
  pending_fires = 0;
  pending_clears = 0;
  count = 0;
  clear_count = 0;
  current = 0;
  max_episode = 0;
  open_since = none;
  cycles = [];
  max_cycles = 0;
}

-- `while self.cycles and at - self.cycles[0] >= R6_FLAP_WINDOW: self.cycles.popleft()`.
unfoldable pub drop_old : ℕ → List ℕ → List ℕ
drop_old t [] = []
drop_old t (c ∷ cs) = let rest = drop_old t cs in if leb (c + flap_window) t then rest else c ∷ cs

-- The first half of `_flush`: the pending fires, then the cycles that left the window.
unfoldable pub flush_fires : ℕ → Accumulator → Accumulator
unfolding drop_old
flush_fires t s =
    let fired : Accumulator = if eqb s.pending_fires 0 then s else record s {
      open_since = if eqb s.current 0 then some t else s.open_since;
      current = s.current + s.pending_fires;
      max_episode = max s.max_episode (s.current + s.pending_fires);
    } in
    record fired { cycles = drop_old t s.cycles }

-- The second half: the pending clears.
unfoldable pub flush_clears : ℕ → Accumulator → Accumulator
flush_clears t s =
    let cycled : Accumulator = if eqb s.current 0 then s else record s {
      cycles = s.cycles ++ t ∷ [];
      max_cycles = max s.max_cycles (length (s.cycles ++ t ∷ []));
    } in
    let cleared : Accumulator =
      if eqb s.pending_clears 0 then s else record cycled { current = 0; open_since = none } in
    record cleared { pending_fires = 0; pending_clears = 0 }

unfoldable pub flush : Accumulator → Accumulator
unfolding flush_fires flush_clears
flush s = elim s.pending_at [ none ↦ s | some t ↦ flush_clears t (flush_fires t s) ]

-- The lines of `add` behind the flush.
unfoldable pub note : Accumulator → AlertRecord → Accumulator
note s row =
    let clears = is_clear row in
    record s {
      first = elim s.first [ none ↦ some row.timestamp | some t ↦ some t ];
      pending_at = some row.timestamp;
      count = s.count + 1;
      pending_clears = if clears then s.pending_clears + 1 else s.pending_clears;
      clear_count = if clears then s.clear_count + 1 else s.clear_count;
      pending_fires = if clears then s.pending_fires else s.pending_fires + 1;
    }

unfoldable pub add : Accumulator → AlertRecord → Result StreamError Accumulator
add s row = elim s.pending_at [
  | none ↦ ok (note s row)
  | some t ↦
      if ltb row.timestamp t
      then err not_chronological
      else if eqb row.timestamp t
      then ok (note s row)
      else ok (note (flush s) row)
]

unfoldable pub stream_pattern : ℕ → Option Text → ℕ → ℕ → Option ℕ → Option Pattern
stream_pattern max_cycles provider span count open_span =
    if leb flap_cycles max_cycles
    then some flapping
    else if not (is_text provider (codes "grafana"))
        && leb api_min_span span
        && leb (api_spam_per_24h * span) (count * api_rate_window)
    then some spamming
    else if is_text provider (codes "grafana")
        && (elim open_span [ none ↦ false | some d ↦ leb stuck_open d ])
    then some stuck
    else none

-- `finish`, behind its flush and its guard.
unfoldable pub facts_at : Accumulator → Option Text → ℕ → ℕ → FiringFacts
unfolding stream_pattern
facts_at s provider first at =
    let span = at - first in
    let open_span : Option ℕ = Option.map (λ since. at - since) s.open_since in
    record {
      clear_count = s.clear_count;
      max_clear_cycles_24h = s.max_cycles;
      max_episode_firing_rows = s.max_episode;
      open_since = s.open_since;
      open_span = open_span;
      span = span;
      events_per_24h =
          if leb api_min_span span then some (s.count * api_rate_window, span) else none;
      pattern = stream_pattern s.max_cycles provider span s.count open_span;
    }

unfoldable pub finish : Option Text → Accumulator → Result StreamError FiringFacts
finish provider s = elim s.first [
  | none ↦ err empty_history
  | some first ↦ elim s.pending_at [
    | none ↦ err empty_history
    | some at ↦ ok (facts_at (flush s) provider first at)
  ]
]

-- Every row added in the order of the stream, then `finish`.
unfoldable pub stream_facts : List AlertRecord → Option Text → Result StreamError FiringFacts
unfolding add note finish flush facts_at
stream_facts rows provider = do s ← fold_result add initial rows; finish provider s
