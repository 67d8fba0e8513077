-- ===== src/Rules/Firing/Machine.antt =====
-- Both analyses as one machine that takes the ordered events singly. The machine is the meeting
-- point of the two programs and stands for no code of its own.
use alerts_bi.Common.{
  ℕ, zero, suc, ◌+◌, ◌≤◌, ◌<◌, max, ◌≡◌, refl, ap, true, false, List, [], ◌∷◌, ◌++◌, Option, none,
  some, arith, eqb, if◌then◌else◌, length, replicate, append-nil, ◌∙◌,
}
use alerts_bi.Rules.Firing.Batch.{Event}
use alerts_bi.Rules.Firing.Stream.{Accumulator, drop_old, flush}

pub record Run : Type 0 where
  pub current : ℕ
  pub max_episode : ℕ
  pub open_since : Option ℕ
  pub cycles : List ℕ
  pub max_cycles : ℕ

unfoldable pub fire : ℕ → Run → Run
fire t s = record {
  current = s.current + 1;
  max_episode = max s.max_episode (s.current + 1);
  open_since = if eqb s.current 0 then some t else s.open_since;
  cycles = drop_old t s.cycles;
  max_cycles = s.max_cycles;
}

unfoldable pub close : ℕ → Run → Run
close t s =
    let kept = drop_old t s.cycles in
    record {
      current = 0;
      max_episode = s.max_episode;
      open_since = none;
      cycles = if eqb s.current 0 then kept else kept ++ t ∷ [];
      max_cycles =
          if eqb s.current 0 then s.max_cycles else max s.max_cycles (length (kept ++ t ∷ []));
    }

unfoldable pub step : Run → Event → Run
unfolding fire close
step s e = if e.clear then close e.time s else fire e.time s

unfoldable pub run : Run → List Event → Run
run s [] = s
run s (e ∷ es) = run (step s e) es

abbrev pub start : Run
start = record { current = 0; max_episode = 0; open_since = none; cycles = []; max_cycles = 0 }

abbrev pub core : Accumulator → Run
core s = record {
  current = s.current;
  max_episode = s.max_episode;
  open_since = s.open_since;
  cycles = s.cycles;
  max_cycles = s.max_cycles;
}

abbrev pub fires : ℕ → ℕ → List Event
fires k t = replicate k (record { time = t; clear = false })

abbrev pub clears : ℕ → ℕ → List Event
clears m t = replicate m (record { time = t; clear = true })

pub run-append : (s : Run) (xs ys : List Event) → run s (xs ++ ys) ≡ run (run s xs) ys
unfolding run
run-append s [] ys = refl
run-append s (x ∷ xs) ys = run-append (step s x) xs ys

-- A later instant drops whatever an earlier one dropped.
pub drop_old-drop_old : (s t : ℕ) (w : List ℕ) → s ≤ t → drop_old t (drop_old s w) ≡ drop_old t w
unfolding drop_old
drop_old-drop_old s t [] h = refl
drop_old-drop_old s t (c ∷ cs) h = ground (arith, drop_old-drop_old s t cs h)

-- A cycle at this very instant is within the window.
pub drop_old-push :
    (t : ℕ) (w : List ℕ) → drop_old t (drop_old t w ++ t ∷ []) ≡ drop_old t w ++ t ∷ []
unfolding drop_old
drop_old-push t [] = ground arith
drop_old-push t (c ∷ cs) = ground (arith, drop_old-push t cs)

close-close : (t : ℕ) (s : Run) → close t (close t s) ≡ close t s
unfolding close
close-close t s = ground (arith, drop_old-push t s.cycles, drop_old-drop_old t t s.cycles)

run-clears : (m t : ℕ) (s : Run) → run s (clears (suc m) t) ≡ close t s
unfolding run step
run-clears zero t s = refl
run-clears (suc m) t s = ap (λ r. run r (clears m t)) (close-close t s) ∙ run-clears m t s

-- One or more firing rows of one instant.
abbrev fired : ℕ → ℕ → Run → Run
fired k t s = record {
  current = s.current + k;
  max_episode = max s.max_episode (s.current + k);
  open_since = if eqb s.current 0 then some t else s.open_since;
  cycles = drop_old t s.cycles;
  max_cycles = s.max_cycles;
}

fired-fire : (k t : ℕ) (s : Run) → fired (suc k) t (fire t s) ≡ fired (suc (suc k)) t s
unfolding fire
fired-fire k t s = ground (arith, drop_old-drop_old t t s.cycles)

run-fires : (k t : ℕ) (s : Run) → run s (fires (suc k) t) ≡ fired (suc k) t s
unfolding run step
run-fires zero t s = ground arith
run-fires (suc k) t s = run-fires k t (fire t s) ∙ fired-fire k t s

-- What is pending at an instant, as events.
abbrev pub pending : Accumulator → ℕ → List Event
pending s t = fires s.pending_fires t ++ clears s.pending_clears t

-- `_flush` is the machine's run over the pending events.
flush_pending :
    (t k m : ℕ) (s : Accumulator)
    → s.pending_at ≡ some t
    → s.pending_fires ≡ k
    → s.pending_clears ≡ m
    → 0 < k + m
    → core (flush s) ≡ run (core s) (fires k t ++ clears m t)
unfolding flush close
flush_pending t zero zero s p hk hm h = absurd (omega arith)
flush_pending t zero (suc m) s p hk hm h = rw (run-clears m t (core s)) (ground arith)
flush_pending t (suc k) zero s p hk hm h =
    rw (append-nil (fires (suc k) t)) (rw (run-fires k t (core s)) (ground arith))
flush_pending t (suc k) (suc m) s p hk hm h =
    rw (run-append (core s) (fires (suc k) t) (clears (suc m) t)) (
      rw (run-fires k t (core s)) (
        rw (run-clears m t (fired (suc k) t (core s)))
          (ground (arith, drop_old-drop_old t t s.cycles))))

-- The same at the pending counts themselves.
pub core-flush :
    (t : ℕ) (s : Accumulator)
    → s.pending_at ≡ some t
    → 0 < s.pending_fires + s.pending_clears
    → core (flush s) ≡ run (core s) (pending s t)
core-flush t s p h = flush_pending t s.pending_fires s.pending_clears s p refl refl h
