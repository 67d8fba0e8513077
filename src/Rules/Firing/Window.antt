-- ===== src/Rules/Firing/Window.antt =====
-- The two indices of `firing_facts` over `cycle_times` as the queue of the times between them.
use alerts_bi.Common.{
  ℕ, zero, suc, ◌+◌, ◌-◌, ◌<◌, max, ◌≡◌, refl, sym, ap, List, [], ◌∷◌, ◌++◌, arith, leb,
  if◌then◌else◌, length, length-append, get_or, append_assoc, ◌∙◌,
}
use alerts_bi.Rules.Firing.Facts.{flap_window}
use alerts_bi.Rules.Firing.Batch.{advance, scan_cycles}
use alerts_bi.Rules.Firing.Stream.{drop_old}

old : ℕ → List ℕ → List ℕ
old t [] = []
old t (c ∷ cs) = let rest = old t cs in if leb (c + flap_window) t then c ∷ rest else []

old-append-drop_old : (t : ℕ) (w : List ℕ) → old t w ++ drop_old t w ≡ w
unfolding old drop_old
old-append-drop_old t [] = refl
old-append-drop_old t (c ∷ cs) = ground (arith, old-append-drop_old t cs)

unfoldable pub scan_window : ℕ → List ℕ → List ℕ → ℕ
scan_window best w [] = best
scan_window best w (t ∷ rest) =
    scan_window (max best (length (drop_old t w ++ t ∷ []))) (drop_old t w ++ t ∷ []) rest

get_or-append : (pre : List ℕ) (x : ℕ) (rest : List ℕ) → get_or (pre ++ x ∷ rest) (length pre) 0 ≡ x
get_or-append [] x rest = refl
get_or-append (y ∷ pre) x rest = get_or-append pre x rest

-- The inner loop stops at the first time that is within the window, and in time.
advance_lem :
    (fuel : ℕ) (pre w rest : List ℕ) (t : ℕ)
    → length w < fuel
    → advance fuel (pre ++ (w ++ t ∷ rest)) (length pre) t ≡ length pre + length (old t w)
unfolding advance old
advance_lem zero pre w rest t h = absurd (omega arith)
advance_lem (suc fuel) pre [] rest t h = ground (arith, get_or-append pre t rest)
advance_lem (suc fuel) pre (c ∷ w) rest t h =
    let moved = advance_lem fuel (pre ++ c ∷ []) w rest t (omega arith) in
    ground (
      arith,
      get_or-append pre c (w ++ t ∷ rest),
      moved,
      append_assoc pre (c ∷ []) (w ++ t ∷ rest),
      length-append pre (c ∷ []),
    )

scan_cycles-scan_window :
    (rest pre w : List ℕ) (best end : ℕ)
    → end ≡ length pre + length w
    → scan_cycles (pre ++ (w ++ rest)) end (length pre) best rest ≡ scan_window best w rest
unfolding scan_cycles scan_window
scan_cycles-scan_window [] pre w best end e = refl
scan_cycles-scan_window (t ∷ rest) pre w best end e =
    let o = old t w in
    let d = drop_old t w in
    let halves = ap (λ (l : List ℕ). length l) (old-append-drop_old t w) in
    let times : pre ++ (w ++ t ∷ rest) ≡ (pre ++ o) ++ ((d ++ t ∷ []) ++ rest) =
      ap (λ l. pre ++ (l ++ t ∷ rest)) (sym (old-append-drop_old t w))
      ∙ ap (λ l. pre ++ l) (append_assoc o d (t ∷ rest))
      ∙ sym (append_assoc pre o (d ++ t ∷ rest))
      ∙ ap (λ l. (pre ++ o) ++ l) (sym (append_assoc d (t ∷ []) rest)) in
    let enough : length w < length (pre ++ (w ++ t ∷ rest)) + 1 =
      omega (arith, length-append pre (w ++ t ∷ rest), length-append w (t ∷ rest)) in
    let starts : advance (length (pre ++ (w ++ t ∷ rest)) + 1) (pre ++ (w ++ t ∷ rest)) (length pre)
          t
        ≡ length (pre ++ o) =
      advance_lem _ pre w rest t enough ∙ sym (length-append pre o) in
    let size : end + 1 - length (pre ++ o) ≡ length (d ++ t ∷ []) =
      omega (arith, halves, length-append o d, length-append pre o, length-append d (t ∷ [])) in
    let next : end + 1 ≡ length (pre ++ o) + length (d ++ t ∷ []) =
      omega (arith, halves, length-append o d, length-append pre o, length-append d (t ∷ [])) in
    rw (starts, size)
      (ap (λ l. scan_cycles l (end + 1) (length (pre ++ o)) (max best (length (d ++ t ∷ []))) rest)
          times
        ∙ scan_cycles-scan_window rest (pre ++ o) (d ++ t ∷ []) _ (end + 1) next)

pub scan_cycles_lem : (times : List ℕ) → scan_cycles times 0 0 0 times ≡ scan_window 0 [] times
scan_cycles_lem times = scan_cycles-scan_window times [] [] 0 0 refl
