-- ===== src/Suppression/Variables.antt =====
-- src/suppression/variables.py: frozen panel variables, and PanelVariable and Panel of
-- src/registry.py.
use alerts_bi.Common.{
  Text, codes, Option, none, some, Bool, false, List, [], ◌∷◌, ◌==◌, text_eq, ◌||◌, if◌then◌else◌,
  find_first,
}
use alerts_bi.Domain.Record.{Schema}
use alerts_bi.Suppression.Syntax.{Operand, field, literal, variable, call}

pub record PanelVariable : Type 0 where
  pub name : Text
  pub type : Text
  pub value : Option Text
  pub values : Option (List Text)
  pub multi : Bool
  pub all_selected : Bool

pub record Panel : Type 0 where
  pub panel_id : Text
  pub schema : Schema
  pub sql : Text
  pub variables : List PanelVariable

-- The reasons, one for each message.
pub data Unresolved : Type 0 where
  no_definition query_variable no_value no_values : Text → Unresolved
  another_column : Unresolved
  not_interpreted : Unresolved

pub data ResolvedVariable : Type 0 where
  -- The values, and whether "all" is selected.
  resolved : List Text → Bool → ResolvedVariable
  unresolved : Unresolved → ResolvedVariable

unfoldable pub resolve_definition : PanelVariable → ResolvedVariable
resolve_definition d =
    if d.type == codes "query"
    then unresolved (query_variable d.name)
    else if d.type == codes "constant" || d.type == codes "interval"
    then (elim d.value [ none ↦ unresolved (no_value d.name) | some v ↦ resolved (v ∷ []) false ])
    else (elim d.values [
      | none ↦ unresolved (no_values d.name)
      | some vs ↦ resolved vs d.all_selected
    ])

unfoldable pub resolve_variable : Text → List PanelVariable → ResolvedVariable
unfolding resolve_definition
resolve_variable name definitions =
    elim (find_first (λ (d : PanelVariable). d.name == name) definitions) [
      | none ↦ unresolved (no_definition name)
      | some d ↦ resolve_definition d
    ]

-- Every operand that reaches this function is there: the parser fills each one in.
unfoldable pub resolve_operand : Operand → List PanelVariable → ResolvedVariable
unfolding resolve_variable
resolve_operand (literal v) definitions = resolved (v ∷ []) false
resolve_operand (variable name raw) definitions = resolve_variable name definitions
resolve_operand (field name raw) definitions = unresolved another_column
resolve_operand (call name args macro) definitions = unresolved not_interpreted
