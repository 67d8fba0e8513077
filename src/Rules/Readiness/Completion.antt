-- ===== src/Rules/Readiness/Completion.antt =====
-- Readiness for completion, from the findings and up to the phase of the team.
use alerts_bi.Common.{
  ℕ, ◌≤◌, ◌<◌, ◌≡◌, ◌↔◌, Option, some, Bool, true, false, not, List, [], ◌∷◌, arith, Option-cases,
  All, any, length, inl, inr,
}
use alerts_bi.Common.Unicode.{Unicode}
use alerts_bi.Domain.Record.{AlertRecord, v2}
use alerts_bi.Rules.Catalogs.{r8, r9, r10}
use alerts_bi.Rules.Core.{Finding, runbook_gap}
use alerts_bi.Rules.Readiness.{
  evaluate_r8, evaluate_r9, evaluate_r10, evaluate_readiness_rules, is_completion_ready,
  count_ready, phase2_readiness_pct,
}
use alerts_bi.Rules.Phase.{done, derive_phase, is_complete}

-- R8 and R10 stand in the way of completion, and R9 where its evidence says so.
unfoldable pub blocks_completion : Finding → Bool
blocks_completion f = elim f.rule_id [
  | r8 ↦ true
  | r10 ↦ true
  | r9 ↦ elim f.evidence [ runbook_gap severity blocks reason ↦ blocks | _ ↦ false ]
  | _ ↦ false
]

module _ ⦃u : Unicode⦄ where
  -- A V2 row is ready for completion exactly when none of its readiness findings blocks completion:
  -- an R9 finding does by the flag in its evidence, the other two always.
  pub is_completion_ready-evaluate_readiness_rules :
      (row : AlertRecord)
      → row.schema ≡ v2
      → is_completion_ready row ≡ some (not (any blocks_completion (evaluate_readiness_rules row)))
  unfolding is_completion_ready evaluate_readiness_rules blocks_completion evaluate_r8 evaluate_r9
      evaluate_r10
  is_completion_ready-evaluate_readiness_rules row h = ground arith

  count_ready_lem :
      (rows : List AlertRecord) (n : ℕ)
      → count_ready rows ≡ some n
      → (n ≤ length rows)
        × ((n ≡ length rows) ↔ All (λ row. is_completion_ready row ≡ some true) rows)
  unfolding count_ready
  count_ready_lem [] n h = ground arith
  count_ready_lem (row ∷ rows) n h = elim (Option-cases (count_ready rows)) [
    | inl e ↦ ground arith
    | inr (m, e) ↦ ground (arith, count_ready_lem rows m e)
  ]

  -- Where the percentage is computed without an exception from the representatives of the V2
  -- identities, the phase is done exactly when there is no V1 identity, there is a V2 identity and
  -- each of them is ready.
  pub derive_phase-done :
      (v1_count : ℕ) (reps : List AlertRecord) (pct : Option (ℕ × ℕ))
      → phase2_readiness_pct reps ≡ some pct
      → (derive_phase v1_count (length reps) pct ≡ done) ↔ (
          (v1_count ≡ 0)
          × (0 < length reps)
          × All (λ row. is_completion_ready row ≡ some true) reps)
  unfolding phase2_readiness_pct derive_phase is_complete
  derive_phase-done v1_count [] pct h = ground arith
  derive_phase-done v1_count (row ∷ rows) pct h = elim (Option-cases (count_ready (row ∷ rows))) [
    | inl e ↦ ground arith
    | inr (m, e) ↦ ground (arith, count_ready_lem (row ∷ rows) m e)
  ]
