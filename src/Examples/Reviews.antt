-- ===== src/Examples/Reviews.antt =====
-- Published weeks and suppression on concrete tables and panels.
use alerts_bi.Common.{
  Text, All, ◌==◌, text_eq, Bool, codes, ◌≡◌, refl, none, some, true, false, not, List, [], ◌∷◌,
  ◌&&◌,
}
use alerts_bi.Common.Result.{Result, ok, err}
use alerts_bi.Common.Unicode.{ascii}
use alerts_bi.Domain.Record.{AlertRecord, v2}
use alerts_bi.Review.Publication.{
  Publication, Database, PublishResult, publish_run, unpublish_run, clean, reason_limit,
}
use alerts_bi.Review.Publication.Separation.{IsSeparated, IsOneWeek}
use alerts_bi.Review.Publication.Kept.{publish_run-IsSeparated}
use alerts_bi.Review.Publication.Withdrawn.{IsKeyed, IsWithdrawn, unpublish_run-IsWithdrawn}
use alerts_bi.Suppression.Variables.{Panel, resolve_operand}
use alerts_bi.Suppression.Syntax.{
  Leaf, comparison, field, literal, Tree, and_node, not_node, leaf, collect_leaves,
}
use alerts_bi.Suppression.Negations.{IsNegation, interpret_leaf-IsNegation}
use alerts_bi.Suppression.Rewrite.{holds, interpret_leaf-holds}
use alerts_bi.Suppression.Interpret.{interpret_panel, interpret_leaf}
use alerts_bi.Suppression.Fields.{is_identity_field, classify_field, record_attribute_for}
use alerts_bi.Suppression.Lexer.{span_of, scan_string}
use alerts_bi.Suppression.Leaves.{PanelInterpretation, suppression}
use alerts_bi.Suppression.Evaluate.{
  SuppressionResult, evaluate_suppression, interpret_panels, evaluate_interpretations,
}
use alerts_bi.Suppression.Accumulate.{create, add_all, finish}
use alerts_bi.Suppression.Agreement.Final.{SameSummary, judged, hidden_by_all, is_unseen}
use alerts_bi.Suppression.Agreement.OnPanels.{accumulator-evaluate_suppression}
use alerts_bi.Examples.Records.{firing_row, later_rows}

-- A published week, and a run of the week behind it.
abbrev published : Publication
published = record {
  publication_id = 1;
  run_id = codes "run1";
  team_id = codes "ops";
  window_start = 0;
  window_end = 604800000000;
  published_at = 604800000001;
  published_by = codes "dana";
  review_note = none;
  withdrawal = none;
}

abbrev tables : Database
tables = record {
  runs =
      record {
        run_id = codes "run2";
        team_id = codes "ops";
        window_start = 604800000000;
        window_end = 1209600000000;
        status = codes "completed";
      }
      ∷ [];
  publications = published ∷ [];
  next_id = 2;
}

abbrev outcome_of {ℓ} : {E : Type 0} {A : Type ℓ} → A → Result E A → A
outcome_of d (ok a) = a
outcome_of d (err e) = d

abbrev no_result : PublishResult
no_result = record {
  publication_id = 0;
  run_id = [];
  team_id = [];
  window_start = 0;
  window_end = 0;
  replaced_run_id = none;
}

tables-IsSeparated : IsSeparated (published ∷ [])
unfolding IsSeparated IsOneWeek
tables-IsSeparated = (λ c. refl, tt, tt)

abbrev published_tables : Database × PublishResult
published_tables =
    outcome_of (tables, no_result)
      (publish_run ⦃u = ascii⦄ (codes "run2") (some (codes "dana")) none false false 7 tables)

publish_run-IsSeparated_example : IsSeparated published_tables.0.publications
publish_run-IsSeparated_example =
    publish_run-IsSeparated ⦃u = ascii⦄ (codes "run2") (some (codes "dana")) none false false 7
      tables published_tables succeeds tables-IsSeparated
  where
    succeeds :
        publish_run ⦃u = ascii⦄ (codes "run2") (some (codes "dana")) none false false 7 tables
        ≡ ok published_tables
    succeeds = unfold publish_run in refl

abbrev withdrawn_tables : Database
withdrawn_tables =
    outcome_of tables (
      unpublish_run ⦃u = ascii⦄ (codes "run1") (some (codes "dana")) (some (codes "wrong")) 7
        tables)

unpublish_run-IsWithdrawn_example :
    (by' : Text) × (why : Text) × (clean ⦃u = ascii⦄ (some (codes "dana")) 128 ≡ ok (some by'))
    × (clean ⦃u = ascii⦄ (some (codes "wrong")) reason_limit ≡ ok (some why))
    × (withdrawn_tables ≡ record tables { publications = withdrawn_tables.publications })
    × IsWithdrawn
        (codes "run1")
        (record { withdrawn_at = 7; withdrawn_by = by'; withdrawn_reason = why })
        tables.publications
        withdrawn_tables.publications
unpublish_run-IsWithdrawn_example =
    unpublish_run-IsWithdrawn ⦃u = ascii⦄ (codes "run1") (some (codes "dana"))
      (some (codes "wrong")) 7 tables withdrawn_tables succeeds (unfold IsKeyed in (tt, tt))
  where
    succeeds :
        unpublish_run ⦃u = ascii⦄
          (codes "run1")
          (some (codes "dana"))
          (some (codes "wrong"))
          7
          tables
        ≡ ok withdrawn_tables
    succeeds = unfold unpublish_run in refl

-- A panel that hides the rows of one node.
abbrev panels : List Panel
panels =
    record {
      panel_id = codes "p";
      schema = v2;
      sql = codes "SELECT * FROM a WHERE node_name <> 'n1'";
      variables = [];
    }
    ∷ []

abbrev empty_result : SuppressionResult
empty_result = record {
  suppressed_row_ids = λ row. false;
  unmeasured_leaves = 0;
  interpretations = [];
  notes = [];
  unseen_row_ids = none;
  unseen_unmeasured = 0;
}

abbrev rows : List AlertRecord
rows = record firing_row { node_name = some (codes "n1") } ∷ firing_row ∷ later_rows

-- What the evaluation of the rows against the panel returns.
abbrev result : SuppressionResult
result = outcome_of empty_result (evaluate_suppression ⦃u = ascii⦄ rows panels)

evaluates : evaluate_suppression ⦃u = ascii⦄ rows panels ≡ ok result
unfolding evaluate_suppression interpret_panels interpret_panel span_of scan_string
evaluates = refl

accumulator-evaluate_suppression_example :
    (ps : List PanelInterpretation) × (interpret_panels ⦃u = ascii⦄ panels ≡ ok ps)
    × SameSummary result (finish (add_all (create ps) rows)).1
    × ((seen : List AlertRecord) (row : AlertRecord)
        → (judged ps rows seen row ≡ result.suppressed_row_ids row)
          × ((hidden_by_all ps seen row && not (judged ps rows seen row)) ≡ is_unseen result row))
accumulator-evaluate_suppression_example =
    accumulator-evaluate_suppression ⦃u = ascii⦄ panels rows result evaluates

-- The panel hides the one row with that node.
suppressed_test :
    (result.suppressed_row_ids (record firing_row { node_name = some (codes "n1") }) ≡ true)
    × (result.suppressed_row_ids firing_row ≡ false)
unfolding evaluate_suppression interpret_panels interpret_panel span_of scan_string
    evaluate_interpretations is_identity_field classify_field resolve_operand record_attribute_for
suppressed_test = (refl, refl)

-- `node_name <> 'n1' AND NOT severity = 'clear'`, for a row that both leaves let through.
abbrev junk_leaf : Leaf
junk_leaf =
    comparison (field (codes "node_name") (codes "node_name")) (codes "<>") (literal (codes "n1"))

abbrev clear_leaf : Leaf
clear_leaf =
    comparison (field (codes "severity") (codes "severity")) (codes "=") (literal (codes "clear"))

abbrev where_tree : Tree
where_tree = and_node (leaf junk_leaf) (not_node (leaf clear_leaf))

abbrev row_leaves : Leaf → Bool
row_leaves (comparison f op value) = op == codes "<>"
row_leaves _ = false

interpret_leaf-holds_example :
    All
      (λ p. (interpret_leaf ⦃u = ascii⦄ p.0 p.1 [] []).0.kind ≡ suppression → row_leaves p.0 ≡ true)
      (collect_leaves where_tree false)
interpret_leaf-holds_example = interpret_leaf-holds ⦃u = ascii⦄ row_leaves where_tree [] [] shown
  where
    shown : holds row_leaves where_tree ≡ true
    shown = unfold holds in refl

interpret_leaf-IsNegation_example : IsNegation ⦃u = ascii⦄ junk_leaf
unfolding is_identity_field classify_field resolve_operand record_attribute_for
interpret_leaf-IsNegation_example =
    interpret_leaf-IsNegation ⦃u = ascii⦄ junk_leaf false [] [] is_suppression
  where
    is_suppression : (interpret_leaf ⦃u = ascii⦄ junk_leaf false [] []).0.kind ≡ suppression
    is_suppression = unfold interpret_leaf in refl
