-- ===== src/Suppression/Evaluate.antt =====
-- evaluate_suppression of src/suppression/evaluate.py. A set of ids of rows
-- is the test whether a row's id is in it: each is built as the ids of the rows that pass a test.
use alerts_bi.Common.{
  ℕ, ◌+◌, ◌*◌, Text, Option, none, some, Bool, false, not, List, [], ◌∷◌, ◌++◌, eqb, ltb, ◌&&◌,
  ◌||◌, if◌then◌else◌, length, keep,
}
use alerts_bi.Common.Result.{Result, ok, ◌>>=◌}
use alerts_bi.Common.Unicode.{Unicode}
use alerts_bi.Domain.Record.{AlertRecord}
use alerts_bi.Suppression.Token.{ParseError}
use alerts_bi.Suppression.Variables.{Panel}
use alerts_bi.Suppression.Interpret.{interpret_panel}
use alerts_bi.Suppression.Leaves.{
  suppression, ignored, unmeasured, identity, identity_unmeasured, Reason, blast_radius,
  LeafOutcome, PanelInterpretation, leaf_excludes_row, leaf_hides_row,
}

abbrev pub RowSet : Type 0
RowSet = AlertRecord → Bool

pub data Note : Type 0 where
  panel_note : Text → ParseError → Note
  leaf_note : Text → Option Text → Option Reason → Note

-- More than BLAST_RADIUS_LIMIT, a half, of the rows. The quotient is compared exactly.
unfoldable pub exceeds : ℕ → ℕ → Bool
exceeds matched total = not (eqb total 0) && ltb total (2 * matched)

-- What the loops over panels and leaves carry; `excluded` and `hidden` are the current panel's.
pub record Visit : Type 0 where
  pub excluded : RowSet
  pub hidden : RowSet
  pub unmeasured_leaves : ℕ
  pub unseen_unmeasured : ℕ
  pub notes : List Note

-- The guard's verdict on a suppression leaf, with its side effects on the leaf.
abbrev pub kept_leaf : ℕ → LeafOutcome → LeafOutcome
kept_leaf matched leaf = record leaf { matched_rows = some matched }

abbrev pub guarded_leaf : ℕ → ℕ → LeafOutcome → LeafOutcome
guarded_leaf matched total leaf = record leaf {
  kind = unmeasured;
  reason = some (blast_radius matched total);
  matched_rows = some matched;
}

unfoldable pub evaluate_leaf : List AlertRecord → Text → LeafOutcome → Visit → LeafOutcome × Visit
unfolding exceeds leaf_excludes_row leaf_hides_row
evaluate_leaf rows id leaf v =
    let note = leaf_note id leaf.field leaf.reason in
    let matched = length (keep (leaf_excludes_row leaf) rows) in
    let guarded = guarded_leaf matched (length rows) leaf in
    elim leaf.kind [
      | identity_unmeasured ↦ (
        leaf,
        record v { unseen_unmeasured = v.unseen_unmeasured + 1; notes = v.notes ++ note ∷ [] },
      )
      | identity ↦ (leaf, record v { hidden = λ row. v.hidden row || leaf_hides_row leaf row })
      | unmeasured ↦ (
        leaf,
        record v { unmeasured_leaves = v.unmeasured_leaves + 1; notes = v.notes ++ note ∷ [] },
      )
      | ignored ↦ (leaf, v)
      | suppression ↦
          if exceeds matched (length rows)
          then (
            guarded,
            record v {
              unmeasured_leaves = v.unmeasured_leaves + 1;
              notes = v.notes ++ leaf_note id guarded.field guarded.reason ∷ [];
            },
          )
          else (
            kept_leaf matched leaf,
            record v { excluded = λ row. v.excluded row || leaf_excludes_row leaf row },
          )
    ]

unfoldable pub evaluate_leaves :
    List AlertRecord → Text → List LeafOutcome → Visit → List LeafOutcome × Visit
unfolding evaluate_leaf
evaluate_leaves rows id [] v = ([], v)
evaluate_leaves rows id (leaf ∷ leaves) v =
    let (leaf', v') = evaluate_leaf rows id leaf v in
    let (leaves', v'') = evaluate_leaves rows id leaves v' in (leaf' ∷ leaves', v'')

abbrev pub no_rows : RowSet
no_rows row = false

-- The sets of the next panel are empty.
abbrev pub fresh : Visit → Visit
fresh v = record v { excluded = no_rows; hidden = no_rows }

abbrev pub unreadable : PanelInterpretation → ParseError → Visit → Visit
unreadable p problem v = record {
  excluded = no_rows;
  hidden = no_rows;
  unmeasured_leaves = v.unmeasured_leaves + 1;
  unseen_unmeasured = v.unseen_unmeasured + 1;
  notes = v.notes ++ panel_note p.panel_id problem ∷ [];
}

-- One panel.
unfoldable pub evaluate_panel :
    List AlertRecord → PanelInterpretation → Visit → PanelInterpretation × Visit
evaluate_panel rows p v = elim p.unparseable [
  | some problem ↦ (p, unreadable p problem v)
  | none ↦
      let (leaves', v') = evaluate_leaves rows p.panel_id p.leaves (fresh v) in
      (record p { leaves = leaves' }, v')
]

-- The panels with their two sets, in order, and the final counters.
pub record Panels : Type 0 where
  pub interpretations : List PanelInterpretation
  pub excluded_per_panel : List RowSet
  pub hidden_per_panel : List RowSet
  pub last : Visit

unfoldable pub evaluate_panels : List AlertRecord → List PanelInterpretation → Visit → Panels
evaluate_panels rows [] v = record {
  interpretations = [];
  excluded_per_panel = [];
  hidden_per_panel = [];
  last = v;
}
evaluate_panels rows (p ∷ ps) v =
    let (p', v') = evaluate_panel rows p v in
    let rest = evaluate_panels rows ps v' in
    record {
      interpretations = p' ∷ rest.interpretations;
      excluded_per_panel = v'.excluded ∷ rest.excluded_per_panel;
      hidden_per_panel = v'.hidden ∷ rest.hidden_per_panel;
      last = rest.last;
    }

-- `set(sets[0])`, then `&=` with each of the others.
unfoldable pub intersect_all : RowSet → List RowSet → RowSet
intersect_all s [] = s
intersect_all s (other ∷ others) = intersect_all (λ row. s row && other row) others

pub record SuppressionResult : Type 0 where
  pub suppressed_row_ids : RowSet
  pub unmeasured_leaves : ℕ
  pub interpretations : List PanelInterpretation
  pub notes : List Note
  pub unseen_row_ids : Option RowSet
  pub unseen_unmeasured : ℕ

abbrev pub start_visit : Visit
start_visit = record {
  excluded = no_rows;
  hidden = no_rows;
  unmeasured_leaves = 0;
  unseen_unmeasured = 0;
  notes = [];
}

unfoldable pub suppressed_rows : List RowSet → RowSet
unfolding intersect_all
suppressed_rows [] = no_rows
suppressed_rows (s ∷ sets) = intersect_all s sets

unfoldable pub unseen_rows : List RowSet → RowSet → Option RowSet
unfolding intersect_all
unseen_rows [] suppressed = none
unseen_rows (s ∷ sets) suppressed = some (λ row. intersect_all s sets row && not (suppressed row))

-- `evaluate_suppression` behind the interpretation of the panels.
unfoldable pub evaluate_interpretations :
    List AlertRecord → List PanelInterpretation → SuppressionResult
unfolding evaluate_panels evaluate_panel evaluate_leaves suppressed_rows unseen_rows
evaluate_interpretations rows interpretations =
    let panels = evaluate_panels rows interpretations start_visit in
    let suppressed = suppressed_rows panels.excluded_per_panel in
    record {
      suppressed_row_ids = suppressed;
      unmeasured_leaves = panels.last.unmeasured_leaves;
      interpretations = panels.interpretations;
      notes = panels.last.notes;
      unseen_row_ids = unseen_rows panels.hidden_per_panel suppressed;
      unseen_unmeasured = panels.last.unseen_unmeasured;
    }

module _ ⦃u : Unicode⦄ where
  unfoldable pub interpret_panels : List Panel → Result ParseError (List PanelInterpretation)
  interpret_panels [] = ok []
  interpret_panels (p ∷ ps) =
      let rest = interpret_panels ps in interpret_panel p >>= λ i. rest >>= λ is. ok (i ∷ is)

  unfoldable pub evaluate_suppression :
      List AlertRecord → List Panel → Result ParseError SuppressionResult
  evaluate_suppression rows panels = interpret_panels panels >>= λ interpretations.
      ok (evaluate_interpretations rows interpretations)
