-- ===== src/Suppression/Agreement/Final.antt =====
-- The accumulator and the evaluation of the whole list, on the interpretations of the panels.
use alerts_bi.Common.{
  ◌≡◌, refl, sym, ap, ◌∙◌, Bool, false, not, List, [], ◌∷◌, none, some, length, any, all, All, keep,
  map, ◌&&◌,
}
use alerts_bi.Domain.Record.{AlertRecord}
use alerts_bi.Suppression.Leaves.{PanelInterpretation, leaf_excludes_row, leaf_hides_row}
use alerts_bi.Suppression.Evaluate.{
  start_visit, evaluate_panel, evaluate_panels, evaluate_interpretations, suppressed_rows,
  unseen_rows, SuppressionResult,
}
use alerts_bi.Suppression.Accumulate.{
  create, add, add_all, finish, suppressed, SuppressionSummary, all_of_some, owned, masks,
  is_suppression, is_identity,
}
use alerts_bi.Suppression.Agreement.Feeding.{matched_in, fed, add_all-create, mark-bits}
use alerts_bi.Suppression.Agreement.Masks.{hit, masks-panels, active_bits-map, Owned}
use alerts_bi.Suppression.Agreement.Sets.{
  IsParsed, is_active, excluded-panels, hidden-panels, intersect_all-all,
}
use alerts_bi.Suppression.Agreement.Summary.{evaluate_panels-settled, evaluate_panels-counts}

-- Everything that `finish` reports is what `evaluate_suppression` reports.
abbrev pub SameSummary : SuppressionResult → SuppressionSummary → Type 0
SameSummary r s =
    (s.unmeasured_leaves ≡ r.unmeasured_leaves)
    × (s.unseen_unmeasured ≡ r.unseen_unmeasured)
    × (s.notes ≡ r.notes)
    × (s.interpretations ≡ r.interpretations)

module _ (rows : List AlertRecord) (row : AlertRecord) where
  all_masks :
      (ps : List PanelInterpretation)
      → all_of_some
          (hit (λ leaf. leaf_excludes_row leaf row) (is_active rows) (owned 0 ps))
          (masks 0 ps (owned 0 ps))
        ≡ all_of_some
            (λ (p : PanelInterpretation).
              any
                (λ leaf. leaf_excludes_row leaf row && is_active rows leaf)
                (keep is_suppression p.leaves))
            ps
  unfolding masks
  all_masks [] = refl
  all_masks (p ∷ ps) =
      masks-panels (λ leaf. leaf_excludes_row leaf row) (is_active rows) (owned 0 (p ∷ ps)) 0
        (p ∷ ps) [] refl tt

module _ (ps : List PanelInterpretation) (rows : List AlertRecord) (h : All IsParsed ps) where
  finish-fed : SameSummary (evaluate_interpretations rows ps) (finish (fed ps rows)).1
  unfolding finish evaluate_interpretations fed create
  finish-fed =
      let counts = sym (evaluate_panels-counts rows ps start_visit h) in
      (
        ap (λ c. c.unmeasured) counts,
        ap (λ c. c.unseen_unmeasured) counts,
        ap (λ c. c.notes) counts,
        sym (evaluate_panels-settled rows ps start_visit h),
      )

  mask-fed :
      (seen : List AlertRecord) (row : AlertRecord)
      → (add (fed ps seen) row).1.0 ≡ map (λ (x : Owned). leaf_excludes_row x.1 row) (owned 0 ps)
  unfolding add fed create
  mask-fed seen row = mark-bits row (matched_in seen) (owned 0 ps)

  hidden-fed :
      (seen : List AlertRecord) (row : AlertRecord)
      → (add (fed ps seen) row).1.1
        ≡ all_of_some
            (λ leaves. any (λ leaf. leaf_hides_row leaf row) leaves)
            (map (λ (p : PanelInterpretation). keep is_identity p.leaves) ps)
  unfolding add fed create
  hidden-fed seen row = refl

  -- A row's mask at the end of the stream.
  suppressed-fed :
      (row : AlertRecord)
      → suppressed
          (finish (fed ps rows)).0
          (map (λ (x : Owned). leaf_excludes_row x.1 row) (owned 0 ps))
        ≡ all_of_some
            (λ (p : PanelInterpretation).
              any
                (λ leaf. leaf_excludes_row leaf row && is_active rows leaf)
                (keep is_suppression p.leaves))
            ps
  unfolding suppressed finish fed create
  suppressed-fed row =
      rw (active_bits-map (length rows) (matched_in rows) (owned 0 ps)) (all_masks rows row ps)

batch_suppressed :
    (ps : List PanelInterpretation) (rows : List AlertRecord) (row : AlertRecord)
    → All IsParsed ps
    → (evaluate_interpretations rows ps).suppressed_row_ids row
      ≡ all_of_some
          (λ (p : PanelInterpretation).
            any
              (λ leaf. leaf_excludes_row leaf row && is_active rows leaf)
              (keep is_suppression p.leaves))
          ps
unfolding evaluate_interpretations evaluate_panels suppressed_rows
batch_suppressed [] rows row h = refl
batch_suppressed (p ∷ ps) rows row h =
    let (p', v) = evaluate_panel rows p start_visit in
    intersect_all-all row v.excluded (evaluate_panels rows ps v).excluded_per_panel
    ∙ excluded-panels rows row (p ∷ ps) start_visit h

-- Whether a row is in the unseen set, which is None where there is no panel.
abbrev pub is_unseen : SuppressionResult → AlertRecord → Bool
is_unseen r row = elim r.unseen_row_ids [ none ↦ false | some s ↦ s row ]

abbrev hides : AlertRecord → PanelInterpretation → Bool
hides row p = any (λ leaf. leaf_hides_row leaf row) (keep is_identity p.leaves)

batch_unseen :
    (ps : List PanelInterpretation) (rows : List AlertRecord) (row : AlertRecord)
    → All IsParsed ps
    → is_unseen (evaluate_interpretations rows ps) row ≡ (
        all_of_some (hides row) ps
        && not ((evaluate_interpretations rows ps).suppressed_row_ids row))
unfolding evaluate_interpretations evaluate_panels unseen_rows
batch_unseen [] rows row h = refl
batch_unseen (p ∷ ps) rows row h =
    let (p', v) = evaluate_panel rows p start_visit in
    let suppressed =
      suppressed_rows (evaluate_panels rows (p ∷ ps) start_visit).excluded_per_panel row in
    ap (λ b. b && not suppressed)
      (intersect_all-all row v.hidden (evaluate_panels rows ps v).hidden_per_panel
        ∙ hidden-panels rows row (p ∷ ps) start_visit h)

hides-map :
    (row : AlertRecord) (ps : List PanelInterpretation)
    → all_of_some
        (λ leaves. any (λ leaf. leaf_hides_row leaf row) leaves)
        (map (λ (p : PanelInterpretation). keep is_identity p.leaves) ps)
      ≡ all_of_some (hides row) ps
hides-map row [] = refl
hides-map row (p ∷ ps) = ap (λ b. hides row p && b) (go ps)
  where
    go :
        (qs : List PanelInterpretation)
        → all
            (λ leaves. any (λ leaf. leaf_hides_row leaf row) leaves)
            (map (λ (p : PanelInterpretation). keep is_identity p.leaves) qs)
          ≡ all (hides row) qs
    go [] = refl
    go (q ∷ qs) = ap (λ b. hides row q && b) (go qs)

-- The mask and the visibility that `add` hands out for a row, at any moment of the stream, judged
-- when the stream has ended.
abbrev pub judged :
    List PanelInterpretation → List AlertRecord → List AlertRecord → AlertRecord → Bool
judged ps rows seen row =
    suppressed (finish (add_all (create ps) rows)).0 (add (add_all (create ps) seen) row).1.0

abbrev pub hidden_by_all : List PanelInterpretation → List AlertRecord → AlertRecord → Bool
hidden_by_all ps seen row = (add (add_all (create ps) seen) row).1.1

pub judged-suppressed :
    (ps : List PanelInterpretation) (rows seen : List AlertRecord) (row : AlertRecord)
    → All IsParsed ps
    → judged ps rows seen row ≡ (evaluate_interpretations rows ps).suppressed_row_ids row
judged-suppressed ps rows seen row h =
    rw (add_all-create ps rows, add_all-create ps seen)
      (ap (suppressed (finish (fed ps rows)).0) (mask-fed ps rows h seen row)
        ∙ suppressed-fed ps rows h row
        ∙ sym (batch_suppressed ps rows row h))

pub judged-unseen :
    (ps : List PanelInterpretation) (rows seen : List AlertRecord) (row : AlertRecord)
    → All IsParsed ps
    → (hidden_by_all ps seen row && not (judged ps rows seen row))
      ≡ is_unseen (evaluate_interpretations rows ps) row
judged-unseen ps rows seen row h = rw (judged-suppressed ps rows seen row h) (
    ap (λ b. b && not ((evaluate_interpretations rows ps).suppressed_row_ids row))
      (ap (λ s. (add s row).1.1) (add_all-create ps seen)
        ∙ hidden-fed ps rows h seen row
        ∙ hides-map row ps)
    ∙ sym (batch_unseen ps rows row h))

pub finish_same :
    (ps : List PanelInterpretation) (rows : List AlertRecord)
    → All IsParsed ps
    → SameSummary (evaluate_interpretations rows ps) (finish (add_all (create ps) rows)).1
finish_same ps rows h = rw (add_all-create ps rows) (finish-fed ps rows h)
