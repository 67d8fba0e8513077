-- ===== src/Suppression/Interpret.antt =====
-- interpret_panel of src/suppression/evaluate.py and its helpers.
use alerts_bi.Common.{
  Text, codes, Option, none, some, Bool, false, List, [], ◌∷◌, ◌++◌, ◌==◌, text_eq, ◌&&◌, ◌||◌,
  if◌then◌else◌, contains,
}
use alerts_bi.Common.Result.{Result, ok, err}
use alerts_bi.Common.Unicode.{Unicode}
use alerts_bi.Suppression.Token.{ParseError, assertion_error, index_error, out_of_fuel}
use alerts_bi.Suppression.Syntax.{
  Operand, field, Operands, no_operands, operand, Leaf, comparison, in_list, like, is_null, between,
  call_leaf, Tree, collect_leaves,
}
use alerts_bi.Suppression.Fields.{
  instance_level, classification, unknown, mechanical_macros, is_identity_field,
  identity_attribute_for, classify_field, record_attribute_for,
}
use alerts_bi.Suppression.Variables.{
  PanelVariable, Panel, Unresolved, resolved, unresolved, resolve_operand,
}
use alerts_bi.Suppression.Panel.{parse_panel_sql}
use alerts_bi.Suppression.Leaves.{
  suppression, ignored, unmeasured, identity, identity_unmeasured, mechanical_macro, function_call,
  no_plain_column, nested_identity, all_values, identity_without_values, classification_dimension,
  unknown_field, not_a_negation, nested_suppression, no_values, no_attribute, operand_unresolved,
  LeafOutcome, outcome, PanelInterpretation,
}

abbrev pub operand_list : Operands → List Operand
operand_list no_operands = []
operand_list (operand a as') = a ∷ operand_list as'

unfoldable pub positive_form : Leaf → Option (Text × List Operand)
positive_form (comparison f op value) =
    if op == codes "=" then some (codes "=", value ∷ []) else none
positive_form (in_list f values negated) =
    if negated then none else some (codes "IN", operand_list values)
positive_form (like f pattern' negated) =
    if negated then none else some (codes "LIKE", pattern' ∷ [])
positive_form _ = none

unfoldable pub negation_of : Leaf → Option (Text × List Operand)
negation_of (comparison f op value) =
    if op == codes "!=" || op == codes "<>" then some (op, value ∷ []) else none
negation_of (in_list f values negated) =
    if negated then some (codes "NOT IN", operand_list values) else none
negation_of (like f pattern' negated) =
    if negated then some (codes "NOT LIKE", pattern' ∷ []) else none
negation_of _ = none

-- `leaf.field`.
abbrev pub field_of : Leaf → Option Operand
field_of (comparison f op value) = some f
field_of (in_list f values negated) = some f
field_of (like f pattern' negated) = some f
field_of (is_null f negated) = some f
field_of (between f low high negated) = some f
field_of (call_leaf name args macro) = none

-- How the loop over the operands ends: with all values, or by a return inside it.
pub data Gathered : Type 0 where
  gathered : List Text → Gathered
  stopped_unresolved : Unresolved → Gathered
  stopped_all : Gathered

-- The loop of `_interpret_identity_leaf`.
unfoldable pub gather_identity : List PanelVariable → List Text → List Operand → Gathered
gather_identity defs values [] = gathered values
gather_identity defs values (o ∷ os) = elim (resolve_operand o defs) [
  | unresolved why ↦ stopped_unresolved why
  | resolved vs all ↦
      let more = gather_identity defs (values ++ vs) os in if all then stopped_all else more
]

-- The loop of `_interpret_leaf`.
unfoldable pub gather_negation : List PanelVariable → List Text → List Operand → Gathered
gather_negation defs values [] = gathered values
gather_negation defs values (o ∷ os) = elim (resolve_operand o defs) [
  | unresolved why ↦ stopped_unresolved why
  | resolved vs all ↦ gather_negation defs (values ++ vs) os
]

module _ ⦃u : Unicode⦄ where
  -- The end of either interpretation: values and an attribute make the leaf, or it is unmeasured.
  unfoldable pub identity_outcome : Text → Text → List Text → LeafOutcome
  identity_outcome name op [] =
      outcome identity_unmeasured (some name) (some op) identity_without_values
  identity_outcome name op (v ∷ vs) = elim (identity_attribute_for name) [
    | none ↦ outcome identity_unmeasured (some name) (some op) identity_without_values
    | some a ↦ record {
      kind = identity;
      field = some name;
      operator = some op;
      reason = none;
      values = v ∷ vs;
      matched_rows = none;
      attribute = some a;
    }
  ]

  unfoldable pub suppression_outcome : Text → Text → List Text → LeafOutcome
  suppression_outcome name op [] = outcome unmeasured (some name) (some op) no_values
  suppression_outcome name op (v ∷ vs) = elim (record_attribute_for name) [
    | none ↦ outcome unmeasured (some name) (some op) no_attribute
    | some a ↦ record {
      kind = suppression;
      field = some name;
      operator = some op;
      reason = none;
      values = v ∷ vs;
      matched_rows = none;
      attribute = some a;
    }
  ]

  unfoldable pub interpret_identity_leaf :
      Leaf → Text → Bool → List PanelVariable → Option LeafOutcome
  unfolding positive_form gather_identity identity_outcome
  interpret_identity_leaf l name nested defs = elim (positive_form l) [
    | none ↦ none
    | some (op, operands) ↦
        if nested
        then some (outcome identity_unmeasured (some name) (some op) nested_identity)
        else (elim (gather_identity defs [] operands) [
          | stopped_unresolved why ↦
              some (outcome identity_unmeasured (some name) (some op) (operand_unresolved why))
          | stopped_all ↦ some (outcome ignored (some name) none all_values)
          | gathered values ↦ some (identity_outcome name op values)
        ])
  ]

  unfoldable pub interpret_negation : Leaf → Text → Bool → List PanelVariable → LeafOutcome
  unfolding negation_of gather_negation suppression_outcome
  interpret_negation l name nested defs = elim (negation_of l) [
    | none ↦ outcome ignored (some name) none not_a_negation
    | some (op, operands) ↦
        if nested
        then outcome unmeasured (some name) (some op) nested_suppression
        else (elim (gather_negation defs [] operands) [
          | stopped_unresolved why ↦
              outcome unmeasured (some name) (some op) (operand_unresolved why)
          | stopped_all ↦ outcome unmeasured (some name) (some op) no_values
          | gathered values ↦ suppression_outcome name op values
        ])
  ]

  -- From `field_class == "classification"` on.
  unfoldable pub interpret_by_class :
      Leaf → Text → Bool → List PanelVariable → List Text → LeafOutcome × List Text
  unfolding interpret_negation
  interpret_by_class l name nested defs unknown_fields = elim (classify_field name) [
    | classification ↦ (outcome ignored (some name) none classification_dimension, unknown_fields)
    | unknown ↦ (
      outcome ignored (some name) none unknown_field,
      if contains unknown_fields name then unknown_fields else unknown_fields ++ name ∷ [],
    )
    | instance_level ↦ (interpret_negation l name nested defs, unknown_fields)
  ]

  -- `_interpret_leaf`; the last argument and the second result are `unknown_fields`.
  unfoldable pub interpret_leaf :
      Leaf → Bool → List PanelVariable → List Text → LeafOutcome × List Text
  unfolding interpret_by_class interpret_identity_leaf
  interpret_leaf (call_leaf name args macro) nested defs unknown_fields = (
    outcome ignored none none (
        if macro && contains mechanical_macros name
        then mechanical_macro name
        else function_call name),
    unknown_fields,
  )
  interpret_leaf l nested defs unknown_fields = elim (field_of l) [
    | some (field name raw) ↦
        let by_class = interpret_by_class l name nested defs unknown_fields in
        if is_identity_field name
        then (elim (interpret_identity_leaf l name nested defs) [
          | some out ↦ (out, unknown_fields)
          | none ↦ by_class
        ])
        else by_class
    | _ ↦ (outcome ignored none none no_plain_column, unknown_fields)
  ]

  unfoldable pub interpret_leaves :
      List PanelVariable → List (Leaf × Bool) → List Text → List LeafOutcome × List Text
  unfolding interpret_leaf
  interpret_leaves defs [] unknown_fields = ([], unknown_fields)
  interpret_leaves defs ((l, nested) ∷ rest) unknown_fields =
      let (out, known) = interpret_leaf l nested defs unknown_fields in
      let (outs, last) = interpret_leaves defs rest known in (out ∷ outs, last)

  abbrev pub unparsed : Text → ParseError → PanelInterpretation
  unparsed id problem = record {
    panel_id = id;
    unparseable = some problem;
    leaves = [];
    unknown_fields = [];
  }

  -- What follows the call of `parse_panel_sql`. Only a SqlParseError is caught; any other exception
  -- leaves the function.
  unfoldable pub interpretation_of :
      Panel → Result ParseError (Option Tree) → Result ParseError PanelInterpretation
  interpretation_of p (ok none) =
      ok (record { panel_id = p.panel_id; unparseable = none; leaves = []; unknown_fields = [] })
  interpretation_of p (ok (some tree)) =
      let (outs, last) = interpret_leaves p.variables (collect_leaves tree false) [] in
      ok
        (record { panel_id = p.panel_id; unparseable = none; leaves = outs; unknown_fields = last })
  interpretation_of p (err assertion_error) = err assertion_error
  interpretation_of p (err index_error) = err index_error
  interpretation_of p (err out_of_fuel) = err out_of_fuel
  interpretation_of p (err problem) = ok (unparsed p.panel_id problem)

  unfoldable pub interpret_panel : Panel → Result ParseError PanelInterpretation
  unfolding interpretation_of parse_panel_sql interpret_leaves collect_leaves
  interpret_panel p = interpretation_of p (parse_panel_sql p.sql)
