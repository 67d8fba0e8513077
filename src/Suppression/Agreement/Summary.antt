-- ===== src/Suppression/Agreement/Summary.antt =====
-- The leaves, the counts and the notes.
use mathlib.Core.Path.{ap₂}
use mathlib.Core.List.{map-append}
use alerts_bi.Common.{
  ℕ, ◌+◌, ◌≡◌, refl, sym, ap, ◌∙◌, true, false, List, [], ◌∷◌, ◌++◌, none, some, inl, inr, arith,
  Bool-cases, Option-cases, if◌then◌else◌, length, length-keep, count_if, keep, map, All, map,
}
use alerts_bi.Domain.Record.{AlertRecord}
use alerts_bi.Suppression.Leaves.{LeafOutcome, PanelInterpretation, leaf_excludes_row}
use alerts_bi.Suppression.Token.{ParseError}
use alerts_bi.Suppression.Evaluate.{
  Visit, panel_note, exceeds, evaluate_leaf, evaluate_leaves, evaluate_panel, evaluate_panels,
  guarded_leaf, kept_leaf, fresh, unreadable,
}
use alerts_bi.Suppression.Accumulate.{
  is_suppression, owned, settle, settle_leaf, settle_panels, Counts, count_leaf, count_leaves,
  count_panels,
}
use alerts_bi.Suppression.Agreement.Feeding.{matched_in}
use alerts_bi.Suppression.Agreement.Sets.{
  IsParsed, evaluate_panel_readable, evaluate_panel-unreadable, no_leaves,
}

abbrev pub counts_of : Visit → Counts
counts_of v = record {
  unmeasured = v.unmeasured_leaves;
  unseen_unmeasured = v.unseen_unmeasured;
  notes = v.notes;
}

-- The counters behind a panel's own note.
abbrev panel_counts : PanelInterpretation → Counts → Counts
panel_counts p c = elim p.unparseable [
  | none ↦ c
  | some problem ↦ record {
    unmeasured = c.unmeasured + 1;
    unseen_unmeasured = c.unseen_unmeasured + 1;
    notes = c.notes ++ panel_note p.panel_id problem ∷ [];
  }
]

panel_counts-none :
    (p : PanelInterpretation) (v : Visit)
    → p.unparseable ≡ none
    → panel_counts p (counts_of v) ≡ counts_of v
panel_counts-none p v e = ground (arith, e)

panel_counts-some :
    (p : PanelInterpretation) (v : Visit) (problem : ParseError)
    → p.unparseable ≡ some problem
    → panel_counts p (counts_of v) ≡ counts_of (unreadable p problem v)
panel_counts-some p v problem e = ground (arith, e)

module _ (rows : List AlertRecord) where
  abbrev count_of : LeafOutcome → ℕ
  count_of leaf = count_if (leaf_excludes_row leaf) rows

  -- The leaf that either guard leaves behind.
  settled : LeafOutcome → LeafOutcome
  settled leaf =
      if is_suppression leaf
      then (if exceeds (count_of leaf) (length rows)
          then guarded_leaf (count_of leaf) (length rows) leaf
          else kept_leaf (count_of leaf) leaf)
      else leaf

  evaluate_leaf-settled :
      (id : List ℕ) (leaf : LeafOutcome) (v : Visit)
      → (evaluate_leaf rows id leaf v).0 ≡ settled leaf
  unfolding evaluate_leaf settled
  evaluate_leaf-settled id leaf v = ground (arith, length-keep (leaf_excludes_row leaf) rows)

  evaluate_leaf-counts :
      (id : List ℕ) (leaf : LeafOutcome) (v : Visit)
      → counts_of (evaluate_leaf rows id leaf v).1 ≡ count_leaf id (counts_of v) (settled leaf)
  unfolding evaluate_leaf settled count_leaf
  evaluate_leaf-counts id leaf v = ground (arith, length-keep (leaf_excludes_row leaf) rows)

  evaluate_leaves-settled :
      (id : List ℕ) (leaves : List LeafOutcome) (v : Visit)
      → (evaluate_leaves rows id leaves v).0 ≡ map settled leaves
  unfolding evaluate_leaves
  evaluate_leaves-settled id [] v = refl
  evaluate_leaves-settled id (leaf ∷ leaves) v =
      ap₂ ◌∷◌ (evaluate_leaf-settled id leaf v)
        (evaluate_leaves-settled id leaves (evaluate_leaf rows id leaf v).1)

  evaluate_leaves-counts :
      (id : List ℕ) (leaves : List LeafOutcome) (v : Visit)
      → counts_of (evaluate_leaves rows id leaves v).1
        ≡ count_leaves id (counts_of v) (map settled leaves)
  unfolding evaluate_leaves count_leaves
  evaluate_leaves-counts id [] v = refl
  evaluate_leaves-counts id (leaf ∷ leaves) v =
      evaluate_leaves-counts id leaves (evaluate_leaf rows id leaf v).1
      ∙ ap (λ c. count_leaves id c (map settled leaves)) (evaluate_leaf-counts id leaf v)

  settle_leaf-other :
      (leaf : LeafOutcome) (rest : List ℕ)
      → is_suppression leaf ≡ false
      → settle_leaf (length rows) leaf rest ≡ (settled leaf, rest)
  unfolding settle_leaf settled
  settle_leaf-other leaf [] no' = rw no'
  settle_leaf-other leaf (n ∷ rest) no' = rw no'

  settle_leaf-suppression :
      (leaf : LeafOutcome) (rest : List ℕ)
      → is_suppression leaf ≡ true
      → settle_leaf (length rows) leaf (count_of leaf ∷ rest) ≡ (settled leaf, rest)
  unfolding settle_leaf settled
  settle_leaf-suppression leaf rest yes' = rw yes'

  settle-settled :
      (leaves : List LeafOutcome) (rest : List ℕ)
      → settle (length rows) leaves (map count_of (keep is_suppression leaves) ++ rest)
        ≡ (map settled leaves, rest)
  unfolding settle
  settle-settled [] rest = refl
  settle-settled (leaf ∷ leaves) rest =
      let ms = map count_of (keep is_suppression leaves) ++ rest in
      let first : settle_leaf (length rows) leaf
            (map count_of (keep is_suppression (leaf ∷ leaves)) ++ rest)
          ≡ (settled leaf, ms) =
        elim (Bool-cases (is_suppression leaf)) [
          | inl yes' ↦ rw yes' (settle_leaf-suppression leaf ms yes')
          | inr no' ↦ rw no' (settle_leaf-other leaf ms no')
        ] in
      rw (first, settle-settled leaves rest)

  -- A panel that either program leaves behind.
  settled_panel : PanelInterpretation → PanelInterpretation
  settled_panel p = record p { leaves = map settled p.leaves }

  owned-counts :
      (k : ℕ) (leaves : List LeafOutcome)
      → map (matched_in rows) (map (λ leaf. (k, leaf)) leaves) ≡ map count_of leaves
  owned-counts k [] = refl
  owned-counts k (leaf ∷ leaves) = ap (λ l. count_of leaf ∷ l) (owned-counts k leaves)

  settle_panels-settled :
      (k : ℕ) (ps : List PanelInterpretation)
      → settle_panels (length rows) ps (map (matched_in rows) (owned k ps)) ≡ map settled_panel ps
  unfolding settle_panels owned settled_panel
  settle_panels-settled k [] = refl
  settle_panels-settled k (p ∷ ps) =
      let own = keep is_suppression p.leaves in
      let taken : settle (length rows) p.leaves
            (map (matched_in rows) (map (λ leaf. (k, leaf)) own ++ owned (k + 1) ps))
          ≡ (map settled p.leaves, map (matched_in rows) (owned (k + 1) ps)) =
        rw (map-append, owned-counts k own) (settle-settled p.leaves _) in
      rw taken (
        ap (λ l. record p { leaves = map settled p.leaves } ∷ l) (settle_panels-settled (k + 1) ps))

  -- One round of the second loop of `finish`.
  count_panel : Counts → PanelInterpretation → Counts
  count_panel c p = count_panels c (p ∷ [])

  count_panels-cons :
      (c : Counts) (p : PanelInterpretation) (ps : List PanelInterpretation)
      → count_panels c (p ∷ ps) ≡ count_panels (count_panel c p) ps
  unfolding count_panels count_panel
  count_panels-cons c p ps = refl

  evaluate_panel-settled :
      (p : PanelInterpretation) (v : Visit)
      → IsParsed p
      → (evaluate_panel rows p v).0 ≡ settled_panel p
  unfolding settled_panel
  evaluate_panel-settled p v h = elim (Option-cases p.unparseable) [
    | inl good ↦
        ap (λ (x : PanelInterpretation × Visit). x.0) (evaluate_panel_readable rows p v good)
        ∙ ap (λ l. record p { leaves = l }) (evaluate_leaves-settled p.panel_id p.leaves (fresh v))
    | inr (problem, bad) ↦
        let e = no_leaves p problem bad h in
        ap (λ (x : PanelInterpretation × Visit). x.0)
          (evaluate_panel-unreadable rows p v problem bad)
        ∙ ap (λ l. record p { leaves = l }) (e ∙ sym (ap (map settled) e))
  ]

  evaluate_panel-counts :
      (p : PanelInterpretation) (v : Visit)
      → IsParsed p
      → counts_of (evaluate_panel rows p v).1 ≡ count_panel (counts_of v) (settled_panel p)
  unfolding count_panel count_panels count_leaves settled_panel
  evaluate_panel-counts p v h = elim (Option-cases p.unparseable) [
    | inl good ↦
        ap (λ (x : PanelInterpretation × Visit). counts_of x.1)
          (evaluate_panel_readable rows p v good)
        ∙ evaluate_leaves-counts p.panel_id p.leaves (fresh v)
        ∙ ap (λ c. count_leaves p.panel_id c (map settled p.leaves))
            (sym (panel_counts-none p v good))
    | inr (problem, bad) ↦
        let e = no_leaves p problem bad h in
        ap (λ (x : PanelInterpretation × Visit). counts_of x.1)
          (evaluate_panel-unreadable rows p v problem bad)
        ∙ sym (
            ap (λ l. count_leaves p.panel_id (panel_counts p (counts_of v)) (map settled l)) e
            ∙ panel_counts-some p v problem bad)
  ]

  panels-settled :
      (ps : List PanelInterpretation) (v : Visit)
      → All IsParsed ps
      → (evaluate_panels rows ps v).interpretations ≡ map settled_panel ps
  unfolding evaluate_panels
  panels-settled [] v h = refl
  panels-settled (p ∷ ps) v h =
      ap₂ ◌∷◌ (evaluate_panel-settled p v h.0) (panels-settled ps (evaluate_panel rows p v).1 h.1)

  pub evaluate_panels-settled :
      (ps : List PanelInterpretation) (v : Visit)
      → All IsParsed ps
      → (evaluate_panels rows ps v).interpretations
        ≡ settle_panels (length rows) ps (map (matched_in rows) (owned 0 ps))
  evaluate_panels-settled ps v h = panels-settled ps v h ∙ sym (settle_panels-settled 0 ps)

  panels-counts :
      (ps : List PanelInterpretation) (v : Visit)
      → All IsParsed ps
      → counts_of (evaluate_panels rows ps v).last
        ≡ count_panels (counts_of v) (map settled_panel ps)
  unfolding evaluate_panels
  panels-counts [] v h = unfold count_panels in refl
  panels-counts (p ∷ ps) v h =
      panels-counts ps (evaluate_panel rows p v).1 h.1
      ∙ ap (λ c. count_panels c (map settled_panel ps)) (evaluate_panel-counts p v h.0)
      ∙ sym (count_panels-cons (counts_of v) (settled_panel p) (map settled_panel ps))

  pub evaluate_panels-counts :
      (ps : List PanelInterpretation) (v : Visit)
      → All IsParsed ps
      → counts_of (evaluate_panels rows ps v).last
        ≡ count_panels
            (counts_of v)
            (settle_panels (length rows) ps (map (matched_in rows) (owned 0 ps)))
  evaluate_panels-counts ps v h =
      panels-counts ps v h ∙ ap (count_panels (counts_of v)) (sym (settle_panels-settled 0 ps))
