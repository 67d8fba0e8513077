-- ===== src/Suppression/Leaves.antt =====
-- LeafOutcome and PanelInterpretation of src/suppression/evaluate.py, and what one leaf does to one
-- row. `schema`, `sql_text_hash` and `parser_version` of an interpretation, which nothing here
-- reads, are left out.
use alerts_bi.Common.{
  ℕ, Text, codes, Option, none, some, Bool, false, not, List, [], text_eq, if◌then◌else◌, any,
  contains,
}
use alerts_bi.Domain.Record.{AlertRecord, is_text}
use alerts_bi.Suppression.Token.{ParseError}
use alerts_bi.Suppression.Fields.{Attribute, attribute_of}
use alerts_bi.Suppression.Variables.{Unresolved}
use alerts_bi.Suppression.Like.{like_matches}

pub data LeafKind : Type 0 where
  suppression ignored unmeasured identity identity_unmeasured : LeafKind

-- The reasons, one for each message; `blast_radius` has the rows matched and all rows.
pub data Reason : Type 0 where
  mechanical_macro function_call : Text → Reason
  no_plain_column nested_identity all_values identity_without_values : Reason
  classification_dimension unknown_field not_a_negation nested_suppression no_values : Reason
  no_attribute : Reason
  operand_unresolved : Unresolved → Reason
  blast_radius : ℕ → ℕ → Reason

pub record LeafOutcome : Type 0 where
  pub kind : LeafKind
  pub field : Option Text
  pub operator : Option Text
  pub reason : Option Reason
  pub values : List Text
  pub matched_rows : Option ℕ
  pub attribute : Option Attribute

-- LeafOutcome(kind, field=..., operator=..., reason=...).
abbrev pub outcome : LeafKind → Option Text → Option Text → Reason → LeafOutcome
outcome k f o r = record {
  kind = k;
  field = f;
  operator = o;
  reason = some r;
  values = [];
  matched_rows = none;
  attribute = none;
}

pub record PanelInterpretation : Type 0 where
  pub panel_id : Text
  -- `safety_state` is "unparseable" where there is an error, and "parsed" where there is none.
  pub unparseable : Option ParseError
  pub leaves : List LeafOutcome
  pub unknown_fields : List Text

-- The row's value that a leaf reads, if it is a string.
unfoldable pub leaf_value : LeafOutcome → AlertRecord → Option Text
unfolding attribute_of
leaf_value leaf row = elim leaf.attribute [ none ↦ none | some a ↦ attribute_of row a ]

unfoldable pub leaf_excludes_row : LeafOutcome → AlertRecord → Bool
unfolding leaf_value like_matches
leaf_excludes_row leaf row = elim (leaf_value leaf row) [
  | none ↦ false
  | some raw ↦
      if is_text leaf.operator (codes "NOT LIKE")
      then any (λ pattern'. like_matches pattern' raw) leaf.values
      else contains leaf.values raw
]

unfoldable pub leaf_hides_row : LeafOutcome → AlertRecord → Bool
unfolding leaf_value like_matches
leaf_hides_row leaf row = elim (leaf_value leaf row) [
  | none ↦ false
  | some raw ↦
      if is_text leaf.operator (codes "LIKE")
      then not (any (λ pattern'. like_matches pattern' raw) leaf.values)
      else not (contains leaf.values raw)
]
