-- ===== src/Suppression/Fields.antt =====
-- src/suppression/fields.py: the field-classification table.
use alerts_bi.Common.{
  Text, codes, Option, none, some, Bool, List, [], ◌∷◌, ◌==◌, text_eq, if◌then◌else◌, contains,
}
use alerts_bi.Common.Unicode.{Unicode, lower}
use alerts_bi.Domain.Record.{AlertRecord}

pub data FieldClass : Type 0 where
  instance_level classification unknown : FieldClass

-- The attribute of an alert record that a panel's field name stands for.
pub data Attribute : Type 0 where
  node_name message component key_field alert_rule_url application operator : Attribute

abbrev pub instance_fields : List Text
instance_fields =
    codes "node_name"
    ∷ codes "message"
    ∷ codes "object"
    ∷ codes "component"
    ∷ codes "key_field"
    ∷ codes "alert_rule_url"
    ∷ codes "application"
    ∷ []

abbrev pub classification_fields : List Text
classification_fields =
    codes "severity"
    ∷ codes "environment"
    ∷ codes "status"
    ∷ codes "provider"
    ∷ codes "operator"
    ∷ []

abbrev pub identity_fields : List Text
identity_fields =
    codes "operator"
    ∷ codes "application"
    ∷ codes "node_name"
    ∷ codes "object"
    ∷ codes "component"
    ∷ []

abbrev pub mechanical_macros : List Text
mechanical_macros =
    codes "__timeFilter" ∷ codes "__timeFrom" ∷ codes "__timeTo" ∷ codes "__interval" ∷ []

-- `table.get(name)`.
abbrev pub get : List (Text × Attribute) → Text → Option Attribute
get [] name = none
get ((key, a) ∷ table) name = let rest = get table name in if key == name then some a else rest

abbrev pub record_attributes : List (Text × Attribute)
record_attributes =
    (codes "node_name", node_name)
    ∷ (codes "message", message)
    ∷ (codes "object", component)
    ∷ (codes "component", component)
    ∷ (codes "key_field", key_field)
    ∷ (codes "alert_rule_url", alert_rule_url)
    ∷ (codes "application", application)
    ∷ []

abbrev pub identity_attributes : List (Text × Attribute)
identity_attributes =
    (codes "operator", operator)
    ∷ (codes "application", application)
    ∷ (codes "node_name", node_name)
    ∷ (codes "object", component)
    ∷ (codes "component", component)
    ∷ []

module _ ⦃u : Unicode⦄ where
  unfoldable pub is_identity_field : Text → Bool
  is_identity_field field_name = contains identity_fields (lower field_name)

  unfoldable pub identity_attribute_for : Text → Option Attribute
  identity_attribute_for field_name = get identity_attributes (lower field_name)

  unfoldable pub classify_field : Text → FieldClass
  classify_field field_name =
      let name = lower field_name in
      if contains instance_fields name
      then instance_level
      else if contains classification_fields name
      then classification
      else unknown

  unfoldable pub record_attribute_for : Text → Option Attribute
  record_attribute_for field_name = get record_attributes (lower field_name)

-- `getattr(row, attribute)`. Each of these attributes is a string or None.
unfoldable pub attribute_of : AlertRecord → Attribute → Option Text
attribute_of row node_name = row.node_name
attribute_of row message = row.message
attribute_of row component = row.component
attribute_of row key_field = some row.key_field
attribute_of row alert_rule_url = row.alert_rule_url
attribute_of row application = some row.application
attribute_of row operator = row.operator
