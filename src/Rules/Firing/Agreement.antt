-- ===== src/Rules/Firing/Agreement.antt =====
-- The two analyses of src/rules/firing.py and src/rules/firing_stream.py, side by side.
use mathlib.Core.Option
use alerts_bi.Common.{
  ℕ, zero, suc, ◌+◌, ◌-◌, ◌*◌, ◌<◌, ◌≡◌, refl, sym, ap, inl, inr, true, false, List, [], ◌∷◌, ◌++◌,
  Option, none, some, Text, codes, arith, ltb, leb, eqb, if◌then◌else◌, Bool-cases, length,
  length-append, ◌∙◌,
}
use alerts_bi.Common.Result.{ok, err, fold_result}
use alerts_bi.Domain.Record.{AlertRecord, is_text}
use alerts_bi.Rules.Firing.Facts.{FiringFacts, api_min_span, api_rate_window}
use alerts_bi.Rules.Firing.Batch.{
  Event, event_of, facts_of_events, facts_of_ordered, firing_facts, batch_pattern, last_time,
}
use alerts_bi.Rules.Firing.Stream.{
  Accumulator, initial, note, add, flush, facts_at, finish, stream_facts, not_chronological,
}
use alerts_bi.Rules.Firing.Order.{IsSorted}
use alerts_bi.Rules.Firing.Machine.{
  Run, run, start, core, fires, clears, pending, core-flush, run-append,
}
use alerts_bi.Rules.Firing.Arrival.{Holds, ChronologicalFrom, clears_in}
use alerts_bi.Rules.Firing.Accumulated.{stream-Holds, first-Holds, flush-Flushed}
use alerts_bi.Rules.Firing.Ordered.{episodes-run, run-IsQuiet, scan_cycles-run}

-- What either program reports, from the end of the machine's run.
report : ℕ → ℕ → Run → ℕ → ℕ → Option Text → FiringFacts
report n cleared s first last provider =
    let span = last - first in
    let open_span : Option ℕ = Option.map (λ since. last - since) s.open_since in
    record {
      clear_count = cleared;
      max_clear_cycles_24h = s.max_cycles;
      max_episode_firing_rows = s.max_episode;
      open_since = s.open_since;
      open_span = open_span;
      span = span;
      events_per_24h = if leb api_min_span span then some (n * api_rate_window, span) else none;
      pattern = batch_pattern s.max_cycles (is_text provider (codes "grafana")) span n open_span;
    }

facts_at-report :
    (s : Accumulator) (provider : Option Text) (first at : ℕ)
    → facts_at s provider first at ≡ report s.count s.clear_count (core s) first at provider
unfolding facts_at batch_pattern report
facts_at-report s provider first at = refl

facts_of_events-report :
    (e : Event) (es : List Event) (provider : Option Text)
    → IsSorted (e ∷ es)
    → facts_of_events e es provider
      ≡ report
          (length (e ∷ es))
          (clears_in (e ∷ es))
          (run start (e ∷ es))
          e.time
          (last_time e.time es)
          provider
unfolding facts_of_events report
facts_of_events-report e es provider so =
    rw (scan_cycles-run e es so, episodes-run start (e ∷ es), run-IsQuiet start (e ∷ es) refl)

last_time-append :
    (t : ℕ) (xs ys : List Event) → last_time t (xs ++ ys) ≡ last_time (last_time t xs) ys
unfolding last_time
last_time-append t [] ys = refl
last_time-append t (x ∷ xs) ys = last_time-append x.time xs ys

last_time-fires : (k t : ℕ) → last_time t (fires k t) ≡ t
unfolding last_time
last_time-fires zero t = refl
last_time-fires (suc k) t = last_time-fires k t

last_time-clears : (m t : ℕ) → last_time t (clears m t) ≡ t
unfolding last_time
last_time-clears zero t = refl
last_time-clears (suc m) t = last_time-clears m t

last_time-pending : (k m t u : ℕ) → 0 < k + m → last_time u (fires k t ++ clears m t) ≡ t
unfolding last_time
last_time-pending zero zero t u h = absurd (omega arith)
last_time-pending zero (suc m) t u h = last_time-clears m t
last_time-pending (suc k) m t u h =
    last_time-append t (fires k t) (clears m t)
    ∙ ap (λ x. last_time x (clears m t)) (last_time-fires k t)
    ∙ last_time-clears m t

Holds-last_time :
    {events : List Event} {s : Accumulator} (h : Holds events s) → last_time 0 events ≡ h.at
Holds-last_time {events} {s} h =
    ap (last_time 0) h.split
    ∙ last_time-append 0 h.done (pending s h.at)
    ∙ last_time-pending s.pending_fires s.pending_clears h.at (last_time 0 h.done) h.waiting

-- The end of the stream, from the invariant.
finish-Holds :
    (e : Event) (es : List Event) {s : Accumulator} (provider : Option Text)
    → Holds (e ∷ es) s
    → IsSorted (e ∷ es)
    → finish provider s ≡ ok (facts_of_events e es provider)
finish-Holds e es {s} provider h so =
    let f = flush-Flushed s h.at h.instant in
    let ended : finish provider s ≡ ok (facts_at (flush s) provider e.time h.at) =
      unfold finish in ground (arith, h.opened, h.instant) in
    let ran : core (flush s) ≡ run start (e ∷ es) =
      core-flush h.at s h.instant h.waiting
      ∙ ap (λ c. run c (pending s h.at)) h.ran
      ∙ sym (run-append start h.done (pending s h.at))
      ∙ ap (run start) (sym h.split) in
    let last : last_time e.time es ≡ h.at = unfold last_time in Holds-last_time h in
    ended
    ∙ ap ok (
        facts_at-report (flush s) provider e.time h.at
        ∙ cc (f.same_count ∙ h.counted, f.same_cleared ∙ h.cleared, ran, last)
        ∙ sym (facts_of_events-report e es provider so))

length-fires : (k t : ℕ) → length (fires k t) ≡ k
length-fires zero t = refl
length-fires (suc k) t = ap suc (length-fires k t)

length-clears : (m t : ℕ) → length (clears m t) ≡ m
length-clears zero t = refl
length-clears (suc m) t = ap suc (length-clears m t)

Holds-nonempty : {s : Accumulator} → Holds [] s → ⊥
Holds-nonempty {s} h =
    let size : length {A = Event} [] ≡ length (h.done ++ pending s h.at) =
      ap (λ (l : List Event). length l) h.split in
    omega (
      arith,
      size,
      h.waiting,
      length-append h.done (pending s h.at),
      length-append (fires s.pending_fires h.at) (clears s.pending_clears h.at),
      length-fires s.pending_fires h.at,
      length-clears s.pending_clears h.at,
    )

-- The sorted list of one row and more is not empty, and its facts are those of the stream's end.
finish_ordered :
    (events : List Event) {s : Accumulator} (provider : Option Text)
    → Holds events s
    → IsSorted events
    → (facts : FiringFacts) × (facts_of_ordered events provider ≡ ok facts)
      × (finish provider s ≡ ok facts)
unfolding facts_of_ordered
finish_ordered [] provider h so = absurd (Holds-nonempty h)
finish_ordered (e ∷ es) provider h so =
    (facts_of_events e es provider, refl, finish-Holds e es provider h so)

stream_facts_lem :
    (r : AlertRecord) (rows : List AlertRecord) (provider : Option Text) (s : Accumulator)
    → fold_result add (note initial r) rows ≡ ok s
    → stream_facts (r ∷ rows) provider ≡ finish provider s
unfolding stream_facts
stream_facts_lem r rows provider s added = rw added

-- For one identity's rows in the order of the stream, at least one of them, neither analysis
-- raises, and the accumulator reports the facts that the analysis of the whole list reports.
pub stream_facts-firing_facts :
    (r : AlertRecord) (rows : List AlertRecord) (provider : Option Text)
    → ChronologicalFrom r.timestamp rows
    → (facts : FiringFacts) × (firing_facts (r ∷ rows) provider ≡ ok facts)
      × (stream_facts (r ∷ rows) provider ≡ ok facts)
stream_facts-firing_facts r rows provider c =
    let h = first-Holds r in
    let (s, added, final, so) =
      stream-Holds rows (r ∷ []) (event_of r ∷ []) (note initial r) h refl (tt, tt)
        (unfold first-Holds in c) in
    let (facts, batch, stream) = finish_ordered _ provider final so in
    (facts, unfold firing_facts in batch, rw (stream_facts_lem r rows provider s added) stream)

note-instant : (s : Accumulator) (r : AlertRecord) → (note s r).pending_at ≡ some r.timestamp
unfolding note
note-instant s r = refl

out_of_order :
    (rows : List AlertRecord) (s : Accumulator) (t : ℕ)
    → s.pending_at ≡ some t
    → ¬ ChronologicalFrom t rows
    → fold_result add s rows ≡ err not_chronological
out_of_order [] s t p bad = absurd (bad tt)
out_of_order (r ∷ rows) s t p bad = elim (Bool-cases (ltb r.timestamp t)) [
  | inl early ↦ rw (add_early s r t p early)
  | inr fine ↦
      let (s', added, at) = add_in_order s r t p fine in
      rw added (out_of_order rows s' r.timestamp at (λ c. bad (ground arith, c)))
]
  where
    add_early :
        (s : Accumulator) (r : AlertRecord) (t : ℕ)
        → s.pending_at ≡ some t
        → ltb r.timestamp t ≡ true
        → add s r ≡ err not_chronological
    add_early s r t p e = unfold add in ground (arith, p, e)

    add_in_order :
        (s : Accumulator) (r : AlertRecord) (t : ℕ)
        → s.pending_at ≡ some t
        → ltb r.timestamp t ≡ false
        → (s' : Accumulator) × (add s r ≡ ok s') × (s'.pending_at ≡ some r.timestamp)
    add_in_order s r t p e = elim (Bool-cases (eqb r.timestamp t)) [
      | inl same ↦ (note s r, unfold add in ground (arith, p, e, same), note-instant s r)
      | inr other ↦
          (note (flush s) r, unfold add in ground (arith, p, e, other), note-instant (flush s) r)
    ]

-- A stream that is not in chronological order, with a row before the instant of the one ahead of it,
-- raises the error not_chronological.
pub stream_facts_out_of_order :
    (r : AlertRecord) (rows : List AlertRecord) (provider : Option Text)
    → ¬ ChronologicalFrom r.timestamp rows
    → stream_facts (r ∷ rows) provider ≡ err not_chronological
unfolding stream_facts
stream_facts_out_of_order r rows provider bad =
    rw (out_of_order rows (note initial r) r.timestamp (note-instant initial r) bad)
