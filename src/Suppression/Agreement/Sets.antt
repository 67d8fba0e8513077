-- ===== src/Suppression/Agreement/Sets.antt =====
-- The sets of `evaluate_suppression` at one row.
use mathlib.Core.Path.{ap₂}
use alerts_bi.Common.{Option-cases, All}
use alerts_bi.Common.{
  ℕ, ◌≡◌, refl, sym, subst, ap, ◌∙◌, Bool, not, List, [], ◌∷◌, Option, none, some, inl, inr, arith,
  length, length-keep, count_if, any, all, keep, ◌&&◌, ◌||◌,
}
use alerts_bi.Domain.Record.{AlertRecord}
use alerts_bi.Suppression.Leaves.{
  LeafOutcome, PanelInterpretation, leaf_excludes_row, leaf_hides_row,
}
use alerts_bi.Suppression.Token.{ParseError}
use alerts_bi.Suppression.Evaluate.{
  RowSet, Visit, exceeds, evaluate_leaf, evaluate_leaves, evaluate_panel, evaluate_panels,
  intersect_all, fresh, unreadable,
}
use alerts_bi.Suppression.Accumulate.{is_suppression, is_identity}

-- A suppression leaf that the guard lets pass, over these rows.
abbrev pub is_active : List AlertRecord → LeafOutcome → Bool
is_active rows leaf = not (exceeds (count_if (leaf_excludes_row leaf) rows) (length rows))

-- No panel has leaves without having been parsed.
abbrev pub IsParsed : PanelInterpretation → Type 0
IsParsed p = (elim p.unparseable [ none ↦ Unit {0} | some e ↦ p.leaves ≡ [] ])

pub evaluate_panel_readable :
    (rows : List AlertRecord) (p : PanelInterpretation) (v : Visit)
    → p.unparseable ≡ none
    → evaluate_panel rows p v ≡ (
      record p { leaves = (evaluate_leaves rows p.panel_id p.leaves (fresh v)).0 },
      (evaluate_leaves rows p.panel_id p.leaves (fresh v)).1,
    )
unfolding evaluate_panel
evaluate_panel_readable rows p v e = ground (arith, e)

pub evaluate_panel-unreadable :
    (rows : List AlertRecord) (p : PanelInterpretation) (v : Visit) (problem : ParseError)
    → p.unparseable ≡ some problem
    → evaluate_panel rows p v ≡ (p, unreadable p problem v)
unfolding evaluate_panel
evaluate_panel-unreadable rows p v problem e = ground (arith, e)

pub no_leaves :
    (p : PanelInterpretation) (problem : ParseError)
    → p.unparseable ≡ some problem
    → IsParsed p
    → p.leaves ≡ []
no_leaves p problem e h =
    subst (λ (o : Option ParseError). elim o [ none ↦ Unit {0} | some _ ↦ p.leaves ≡ [] ]) e h

module _ (rows : List AlertRecord) (row : AlertRecord) where
  excluded-leaf :
      (id : List ℕ) (leaf : LeafOutcome) (v : Visit)
      → (evaluate_leaf rows id leaf v).1.excluded row ≡ (
          v.excluded row
          || (is_suppression leaf && (leaf_excludes_row leaf row && is_active rows leaf)))
  unfolding evaluate_leaf
  excluded-leaf id leaf v = ground (arith, length-keep (leaf_excludes_row leaf) rows)

  hidden-leaf :
      (id : List ℕ) (leaf : LeafOutcome) (v : Visit)
      → (evaluate_leaf rows id leaf v).1.hidden row
        ≡ (v.hidden row || (is_identity leaf && leaf_hides_row leaf row))
  unfolding evaluate_leaf
  hidden-leaf id leaf v = ground arith

  pub excluded-leaves :
      (id : List ℕ) (leaves : List LeafOutcome) (v : Visit)
      → (evaluate_leaves rows id leaves v).1.excluded row ≡ (
          v.excluded row
          || any
              (λ leaf. leaf_excludes_row leaf row && is_active rows leaf)
              (keep is_suppression leaves))
  unfolding evaluate_leaves
  excluded-leaves id [] v = ground arith
  excluded-leaves id (leaf ∷ leaves) v =
      excluded-leaves id leaves (evaluate_leaf rows id leaf v).1
      ∙ ground (arith, excluded-leaf id leaf v)

  pub hidden-leaves :
      (id : List ℕ) (leaves : List LeafOutcome) (v : Visit)
      → (evaluate_leaves rows id leaves v).1.hidden row
        ≡ (v.hidden row || any (λ leaf. leaf_hides_row leaf row) (keep is_identity leaves))
  unfolding evaluate_leaves
  hidden-leaves id [] v = ground arith
  hidden-leaves id (leaf ∷ leaves) v =
      hidden-leaves id leaves (evaluate_leaf rows id leaf v).1
      ∙ ground (arith, hidden-leaf id leaf v)

  excluded-panel :
      (p : PanelInterpretation) (v : Visit)
      → IsParsed p
      → (evaluate_panel rows p v).1.excluded row
        ≡ any
            (λ leaf. leaf_excludes_row leaf row && is_active rows leaf)
            (keep is_suppression p.leaves)
  excluded-panel p v parsed = elim (Option-cases p.unparseable) [
    | inl good ↦
        ap (λ (x : PanelInterpretation × Visit). x.1.excluded row)
          (evaluate_panel_readable rows p v good)
        ∙ excluded-leaves p.panel_id p.leaves (fresh v)
    | inr (problem, bad) ↦
        ap (λ (x : PanelInterpretation × Visit). x.1.excluded row)
          (evaluate_panel-unreadable rows p v problem bad)
        ∙ sym (
            ap
              (λ l.
                any (λ leaf. leaf_excludes_row leaf row && is_active rows leaf)
                  (keep is_suppression l))
              (no_leaves p problem bad parsed))
  ]

  hidden-panel :
      (p : PanelInterpretation) (v : Visit)
      → IsParsed p
      → (evaluate_panel rows p v).1.hidden row
        ≡ any (λ leaf. leaf_hides_row leaf row) (keep is_identity p.leaves)
  hidden-panel p v parsed = elim (Option-cases p.unparseable) [
    | inl good ↦
        ap (λ (x : PanelInterpretation × Visit). x.1.hidden row)
          (evaluate_panel_readable rows p v good)
        ∙ hidden-leaves p.panel_id p.leaves (fresh v)
    | inr (problem, bad) ↦
        ap (λ (x : PanelInterpretation × Visit). x.1.hidden row)
          (evaluate_panel-unreadable rows p v problem bad)
        ∙ sym (
            ap (λ l. any (λ leaf. leaf_hides_row leaf row) (keep is_identity l))
              (no_leaves p problem bad parsed))
  ]

  pub excluded-panels :
      (ps : List PanelInterpretation) (v : Visit)
      → All IsParsed ps
      → all (λ s. s row) (evaluate_panels rows ps v).excluded_per_panel
        ≡ all
            (λ (p : PanelInterpretation).
              any
                (λ leaf. leaf_excludes_row leaf row && is_active rows leaf)
                (keep is_suppression p.leaves))
            ps
  unfolding evaluate_panels
  excluded-panels [] v h = refl
  excluded-panels (p ∷ ps) v h =
      ap₂ ◌&&◌ (excluded-panel p v h.0) (excluded-panels ps (evaluate_panel rows p v).1 h.1)

  pub hidden-panels :
      (ps : List PanelInterpretation) (v : Visit)
      → All IsParsed ps
      → all (λ s. s row) (evaluate_panels rows ps v).hidden_per_panel
        ≡ all
            (λ (p : PanelInterpretation).
              any (λ leaf. leaf_hides_row leaf row) (keep is_identity p.leaves))
            ps
  unfolding evaluate_panels
  hidden-panels [] v h = refl
  hidden-panels (p ∷ ps) v h =
      ap₂ ◌&&◌ (hidden-panel p v h.0) (hidden-panels ps (evaluate_panel rows p v).1 h.1)

pub intersect_all-all :
    (row : AlertRecord) (s : RowSet) (sets : List RowSet)
    → intersect_all s sets row ≡ all (λ t. t row) (s ∷ sets)
unfolding intersect_all
intersect_all-all row s [] = ground arith
intersect_all-all row s (other ∷ others) =
    intersect_all-all row (λ r. s r && other r) others ∙ ground arith
