-- ===== src/Rules/Firing/Accumulated.antt =====
-- The invariant of `add` from one row to the next.
use native.Mathlib.Numerals.{add-one}
use alerts_bi.Common.{
  ℕ, ◌+◌, ◌≤◌, ◌<◌, ◌≡◌, ◌≢◌, refl, sym, ap, inl, inr, List, [], ◌∷◌, ◌++◌, map, Option, none, some,
  arith, eqb, Bool-cases, length, All, All-map, All-append, ◌∙◌, subst,
}
use alerts_bi.Common.Result.{ok, fold_result}
use alerts_bi.Common.Sorting.{insert_sorted, sort_onto}
use alerts_bi.Domain.Record.{AlertRecord}
use alerts_bi.Rules.Firing.Facts.{is_clear}
use alerts_bi.Rules.Firing.Batch.{Event, event_of, row_ltb}
use alerts_bi.Rules.Firing.Stream.{Accumulator, initial, note, add, flush}
use alerts_bi.Rules.Firing.Order.{ins, ins-IsSorted, IsSorted, map-insert_sorted}
use alerts_bi.Rules.Firing.Machine.{
  run, start, core, fires, clears, pending, core-flush, run-append,
}
use alerts_bi.Rules.Firing.Arrival.{
  Holds, ChronologicalFrom, head_time, clears_in, clears_in-ins, length-ins, ins-fire, ins-clear,
  ins-last, All-replicate, Holds-head_time,
}

pub record Flushed (s : Accumulator) : Type 0 where
  pub no_fires : (flush s).pending_fires ≡ 0
  pub no_clears : (flush s).pending_clears ≡ 0
  pub same_first : (flush s).first ≡ s.first
  pub same_count : (flush s).count ≡ s.count
  pub same_cleared : (flush s).clear_count ≡ s.clear_count

pub flush-Flushed : (s : Accumulator) (t : ℕ) → s.pending_at ≡ some t → Flushed s
unfolding flush
flush-Flushed s t p = record {
  no_fires = ground arith;
  no_clears = ground arith;
  same_first = ground arith;
  same_count = ground arith;
  same_cleared = ground arith;
}

note-core : (s : Accumulator) (r : AlertRecord) → core (note s r) ≡ core s
unfolding note
note-core s r = refl

-- The fields of the invariant that count, for any state that has kept them.
note-opened :
    (s : Accumulator) (r : AlertRecord) (o : Option ℕ)
    → s.first ≡ o
    → o ≢ none
    → (note s r).first ≡ o
unfolding note
note-opened s r o p ne = ground arith

note-cleared :
    (s : Accumulator) (r : AlertRecord) (events : List Event)
    → s.clear_count ≡ clears_in events
    → (note s r).clear_count ≡ clears_in (ins (event_of r) events)
unfolding note
note-cleared s r events p = ground (arith, clears_in-ins (event_of r) events)

note-counted :
    (s : Accumulator) (r : AlertRecord) (events : List Event)
    → s.count ≡ length events
    → (note s r).count ≡ length (ins (event_of r) events)
unfolding note
note-counted s r events p = omega (arith, length-ins (event_of r) events)

note-waiting :
    (s : Accumulator) (r : AlertRecord) → 0 < (note s r).pending_fires + (note s r).pending_clears
unfolding note
note-waiting s r = ground arith

-- A row at the pending instant joins what is pending.
note-pending :
    (s : Accumulator) (r : AlertRecord) (done : List Event) (t : ℕ)
    → All (λ e. e.time < t) done
    → r.timestamp ≡ t
    → ins (event_of r) (done ++ pending s t) ≡ done ++ pending (note s r) t
unfolding note
note-pending s r done t before same = elim (Bool-cases (is_clear r)) [
  | inl clear ↦
      rw clear (rw (same, add-one) (ins-clear done t s.pending_fires s.pending_clears before))
  | inr firing ↦
      rw firing (rw (same, add-one) (ins-fire done t s.pending_fires s.pending_clears before))
]

-- With nothing pending the row alone is.
pending-note :
    (s : Accumulator) (r : AlertRecord)
    → s.pending_fires ≡ 0
    → s.pending_clears ≡ 0
    → pending (note s r) r.timestamp ≡ event_of r ∷ []
unfolding note
pending-note s r p q = elim (Bool-cases (is_clear r)) [
  | inl clear ↦ rw (clear, p, q) refl
  | inr firing ↦ rw (firing, p, q) refl
]

-- A row at the pending instant.
note-Holds :
    {events : List Event} {s : Accumulator} (r : AlertRecord) (h : Holds events s)
    → r.timestamp ≡ h.at
    → Holds (ins (event_of r) events) (note s r)
note-Holds {events} {s} r h same =
    let (kept, some_head) = Holds-head_time h (event_of r) (omega arith) in
    record {
      done = h.done;
      at = h.at;
      split = ap (ins (event_of r)) h.split ∙ note-pending s r h.done h.at h.before same;
      before = h.before;
      waiting = note-waiting s r;
      instant = unfold note in ap some same;
      ran = note-core s r ∙ h.ran;
      counted = note-counted s r events h.counted;
      cleared = note-cleared s r events h.cleared;
      opened = note-opened s r (head_time events) h.opened some_head ∙ sym kept;
    }

-- A row at a later instant.
later-Holds :
    {events : List Event} {s : Accumulator} (r : AlertRecord) (h : Holds events s)
    → h.at < r.timestamp
    → Holds (ins (event_of r) events) (note (flush s) r)
later-Holds {events} {s} r h later =
    let f = flush-Flushed s h.at h.instant in
    let (kept, some_head) = Holds-head_time h (event_of r) (omega arith) in
    let k = s.pending_fires in
    let m = s.pending_clears in
    let last = ins-last h.done h.at k m h.before (event_of r) (ground arith) in
    let arrived : All (λ e. e.time < r.timestamp) (h.done ++ pending s h.at) =
      All-append _ h.done (pending s h.at) (All-map h.done (λ x lt. omega arith) h.before) (
        All-append _ (fires k h.at) (clears m h.at) (All-replicate _ k _ later)
          (All-replicate _ m _ later)) in
    record {
      done = events;
      at = r.timestamp;
      split =
          ap (ins (event_of r)) h.split
          ∙ last
          ∙ ap (λ l. l ++ event_of r ∷ []) (sym h.split)
          ∙ ap (λ l. events ++ l) (sym (pending-note (flush s) r f.no_fires f.no_clears));
      before = subst (All (λ e. e.time < r.timestamp)) (sym h.split) arrived;
      waiting = note-waiting (flush s) r;
      instant = unfold note in refl;
      ran =
          note-core (flush s) r
          ∙ core-flush h.at s h.instant h.waiting
          ∙ ap (λ c. run c (pending s h.at)) h.ran
          ∙ sym (run-append start h.done (pending s h.at))
          ∙ ap (run start) (sym h.split);
      counted = note-counted (flush s) r events (f.same_count ∙ h.counted);
      cleared = note-cleared (flush s) r events (f.same_cleared ∙ h.cleared);
      opened =
          note-opened (flush s) r (head_time events) (f.same_first ∙ h.opened) some_head ∙ sym kept;
    }

unfoldable pub first-Holds : (r : AlertRecord) → Holds (event_of r ∷ []) (note initial r)
unfolding note run
first-Holds r = record {
  done = [];
  at = r.timestamp;
  split = ground arith;
  before = tt;
  waiting = ground arith;
  instant = refl;
  ran = refl;
  counted = refl;
  cleared = ground arith;
  opened = refl;
}

-- One call of `add` on a stream that is in order.
add-Holds :
    {events : List Event} {s : Accumulator} (r : AlertRecord) (h : Holds events s)
    → h.at ≤ r.timestamp
    → (s' : Accumulator) × (add s r ≡ ok s')
      × (k : Holds (ins (event_of r) events) s') × (k.at ≡ r.timestamp)
unfolding add note-Holds later-Holds
add-Holds {events} {s} r h le = elim (Bool-cases (eqb r.timestamp h.at)) [
  | inl same ↦ (note s r, ground (arith, h.instant), note-Holds r h (ground arith), ground arith)
  | inr other ↦ (note (flush s) r, ground (arith, h.instant), later-Holds r h (ground arith), refl)
]

-- The whole stream: it is accepted, and the state holds the sorted list of its rows.
pub stream-Holds :
    (rows acc : List AlertRecord) (events : List Event) (s : Accumulator) (h : Holds events s)
    → map event_of acc ≡ events
    → IsSorted events
    → ChronologicalFrom h.at rows
    → (s' : Accumulator) × (fold_result add s rows ≡ ok s')
      × Holds (map event_of (sort_onto row_ltb acc rows)) s'
      × IsSorted (map event_of (sort_onto row_ltb acc rows))
unfolding sort_onto
stream-Holds [] acc events s h same so c =
    (s, refl, subst (λ l. Holds l s) (sym same) h, subst IsSorted (sym same) so)
stream-Holds (r ∷ rows) acc events s h same so c =
    let (s1, added, k, moved) = add-Holds r h c.0 in
    let same' : map event_of (insert_sorted row_ltb r acc) ≡ ins (event_of r) events =
      map-insert_sorted r acc (subst IsSorted (sym same) so) ∙ ap (ins (event_of r)) same in
    let (s2, rest, final, so2) =
      stream-Holds rows (insert_sorted row_ltb r acc) (ins (event_of r) events) s1 k same'
        (ins-IsSorted (event_of r) events so)
        (subst (λ t. ChronologicalFrom t rows) (sym moved) c.1) in
    (s2, rw added rest, final, so2)
