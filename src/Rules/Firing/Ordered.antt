-- ===== src/Rules/Firing/Ordered.antt =====
-- The three loops of `firing_facts` over the ordered events, as runs of the machine.
use alerts_bi.Common.{
  ℕ, ◌*◌, ◌≤◌, ◌≡◌, refl, ap, Bool, true, false, not, List, [], ◌∷◌, ◌++◌, none, arith, ltb,
  if◌then◌else◌, All-map, ◌∙◌,
}
use alerts_bi.Rules.Firing.Batch.{
  Event, cycle_times_from, cycle_times, Episodes, episode_step, episodes, scan_cycles,
}
use alerts_bi.Rules.Firing.Stream.{drop_old}
use alerts_bi.Rules.Firing.Order.{From, IsSorted}
use alerts_bi.Rules.Firing.Machine.{Run, step, run, start, drop_old-drop_old, drop_old-push}
use alerts_bi.Rules.Firing.Window.{scan_window, scan_cycles_lem}

abbrev pub episodes_of : Run → Episodes
episodes_of s = record {
  max_episode = s.max_episode;
  current = s.current;
  episode_start = s.open_since;
}

episode_step-step : (s : Run) (e : Event) → episode_step (episodes_of s) e ≡ episodes_of (step s e)
unfolding episode_step step
episode_step-step s e = ground arith

pub episodes-run :
    (s : Run) (es : List Event) → episodes (episodes_of s) es ≡ episodes_of (run s es)
unfolding episodes run
episodes-run s [] = refl
episodes-run s (e ∷ es) =
    ap (λ x. episodes x es) (episode_step-step s e) ∙ episodes-run (step s e) es

-- No episode is open where none is counted.
abbrev pub IsQuiet : Run → Type 0
IsQuiet s = (if ltb 0 s.current then s.open_since else none) ≡ s.open_since

step-IsQuiet : (s : Run) (e : Event) → IsQuiet (step s e)
unfolding step
step-IsQuiet s e = ground arith

pub run-IsQuiet : (s : Run) (es : List Event) → IsQuiet s → IsQuiet (run s es)
unfolding run
run-IsQuiet s [] q = q
run-IsQuiet s (e ∷ es) q = run-IsQuiet (step s e) es (step-IsQuiet s e)

abbrev InOrderFrom : ℕ → List Event → Type 0
InOrderFrom t [] = Unit
InOrderFrom t (e ∷ es) = (t ≤ e.time) × InOrderFrom e.time es

IsSorted-InOrderFrom : (t : ℕ) (es : List Event) → From (2 * t) es → IsSorted es → InOrderFrom t es
IsSorted-InOrderFrom t [] f s = tt
IsSorted-InOrderFrom t (e ∷ es) f s =
    (ground arith, IsSorted-InOrderFrom e.time es (All-map es (λ x h. ground arith) s.0) s.1)

From-zero : (es : List Event) → From (2 * 0) es
From-zero [] = tt
From-zero (e ∷ es) = (omega arith, From-zero es)

-- One event; the last argument is the rest of the run.
scan_step :
    (u : ℕ) (c was_clear : Bool) (es : List Event) (s : Run) (w : List ℕ) (t r : ℕ)
    → t ≤ u
    → not was_clear ≡ ltb 0 s.current
    → s.cycles ≡ drop_old t w
    → ((w' : List ℕ)
        → not c ≡ ltb 0 (step s (record { time = u; clear = c })).current
        → (step s (record { time = u; clear = c })).cycles ≡ drop_old u w'
        → scan_window
            (step s (record { time = u; clear = c })).max_cycles
            w'
            (cycle_times_from c es)
          ≡ r)
    → scan_window s.max_cycles w (cycle_times_from was_clear (record { time = u; clear = c } ∷ es))
      ≡ r
unfolding cycle_times_from scan_window step
scan_step u false was_clear es s w t r le p q go =
    go w (ground arith) (ap (drop_old u) q ∙ drop_old-drop_old t u w le)
scan_step u true true es s w t r le p q go =
    let idle : s.current ≡ 0 = ground arith in
    let kept = ap (drop_old u) q ∙ drop_old-drop_old t u w le in
    ap (λ k. scan_window k w (cycle_times_from true es)) (ground arith)
    ∙ go w refl (ground (arith, kept))
scan_step u true false es s w t r le p q go =
    let kept = ap (drop_old u) q ∙ drop_old-drop_old t u w le in
    ap (λ k. scan_window k (drop_old u w ++ u ∷ []) (cycle_times_from true es))
      (ground (arith, kept))
    ∙ go (drop_old u w ++ u ∷ []) refl (ground (arith, kept, drop_old-push u w))

-- `t` is the last instant seen, at which the machine dropped the cycles that left the window; the
-- program drops them at its next cycle only.
scan_window-run :
    (es : List Event) (was_clear : Bool) (s : Run) (w : List ℕ) (t : ℕ)
    → InOrderFrom t es
    → not was_clear ≡ ltb 0 s.current
    → s.cycles ≡ drop_old t w
    → scan_window s.max_cycles w (cycle_times_from was_clear es) ≡ (run s es).max_cycles
unfolding cycle_times_from scan_window run
scan_window-run [] was_clear s w t o p q = refl
scan_window-run (e ∷ es) was_clear s w t o p q =
    scan_step e.time e.clear was_clear es s w t _ o.0 p q
      (λ w' p' q'. scan_window-run es e.clear (step s e) w' e.time o.1 p' q')

cycle_times-from :
    (e : Event) (es : List Event) → cycle_times (e ∷ es) ≡ cycle_times_from true (e ∷ es)
unfolding cycle_times cycle_times_from
cycle_times-from e es = ground arith

pub scan_cycles-run :
    (e : Event) (es : List Event)
    → IsSorted (e ∷ es)
    → scan_cycles (cycle_times (e ∷ es)) 0 0 0 (cycle_times (e ∷ es))
      ≡ (run start (e ∷ es)).max_cycles
unfolding drop_old
scan_cycles-run e es so =
    scan_cycles_lem (cycle_times (e ∷ es))
    ∙ ap (scan_window 0 []) (cycle_times-from e es)
    ∙ scan_window-run (e ∷ es) true start [] 0
        (IsSorted-InOrderFrom 0 (e ∷ es) (From-zero (e ∷ es)) so) refl refl
