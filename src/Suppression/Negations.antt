-- ===== src/Suppression/Negations.antt =====
-- Which leaves are read as a suppression.
use alerts_bi.Common.{
  Text, codes, ◌≡◌, ◌⊎◌, Bool, true, false, List, [], ◌∷◌, none, some, is_some, contains, ◌==◌,
  text_eq, text_beq_iff, arith, inl, inr, Bool-cases, Option-cases, if◌then◌else◌,
}
use alerts_bi.Common.Unicode.{Unicode, lower}
use alerts_bi.Suppression.Syntax.{
  Leaf, Operand, Operands, comparison, in_list, like, is_null, between, field,
}
use alerts_bi.Suppression.Fields.{
  instance_level, classify_field, is_identity_field, instance_fields, classification_fields,
}
use alerts_bi.Suppression.Variables.{PanelVariable}
use alerts_bi.Suppression.Leaves.{LeafOutcome, suppression}
use alerts_bi.Suppression.Rewrite.{FieldClass-cases}
use alerts_bi.Suppression.Interpret.{
  interpret_leaf, interpret_by_class, interpret_negation, interpret_identity_leaf, identity_outcome,
  negation_of,
}

module _ ⦃u : Unicode⦄ where
  -- The column names an instance, in any case of its letters: no severity, environment, status,
  -- provider or operator, and no name that is not known.
  unfoldable pub IsInstanceField : Text → Type 0
  IsInstanceField name =
      contains
        (codes "node_name"
          ∷ codes "message"
          ∷ codes "object"
          ∷ codes "component"
          ∷ codes "key_field"
          ∷ codes "alert_rule_url"
          ∷ codes "application"
          ∷ [])
        (lower name)
      ≡ true

  -- The leaf compares a column that is an instance field, and negates.
  abbrev IsClassified : Leaf → Text → Type 0
  IsClassified l name = (classify_field name ≡ instance_level) × (is_some (negation_of l) ≡ true)

  by_class-IsClassified :
      (l : Leaf) (name : Text) (nested : Bool) (defs : List PanelVariable) (known : List Text)
      → (interpret_by_class l name nested defs known).0.kind ≡ suppression
      → IsClassified l name
  unfolding interpret_by_class interpret_negation
  by_class-IsClassified l name nested defs known h = elim (FieldClass-cases (classify_field name)) [
    | inl (inl e) ↦ elim (Option-cases (negation_of l)) [
      | inl f ↦ absurd (ground (arith, h, e, f))
      | inr (o, f) ↦ (e, ground (arith, f))
    ]
    | inl (inr e) ↦ absurd (ground (arith, h, e))
    | inr e ↦ absurd (ground (arith, h, e))
  ]

  identity_never :
      (l : Leaf) (name : Text) (nested : Bool) (defs : List PanelVariable) (out : LeafOutcome)
      → interpret_identity_leaf l name nested defs ≡ some out
      → out.kind ≡ suppression
      → ⊥
  unfolding interpret_identity_leaf identity_outcome
  identity_never l name nested defs out e h = ground (arith, e, h)

  abbrev on_column : Leaf → Text → Bool → List PanelVariable → List Text → LeafOutcome × List Text
  on_column l name nested defs known =
      let by_class = interpret_by_class l name nested defs known in
      if is_identity_field name
      then (elim (interpret_identity_leaf l name nested defs) [
        | some out ↦ (out, known)
        | none ↦ by_class
      ])
      else by_class

  on_column-IsClassified :
      (l : Leaf) (name : Text) (nested : Bool) (defs : List PanelVariable) (known : List Text)
      → (on_column l name nested defs known).0.kind ≡ suppression
      → IsClassified l name
  on_column-IsClassified l name nested defs known h = elim (Bool-cases (is_identity_field name)) [
    | inr e ↦ by_class-IsClassified l name nested defs known (rw e at h)
    | inl e ↦ elim (Option-cases (interpret_identity_leaf l name nested defs)) [
      | inl f ↦ by_class-IsClassified l name nested defs known (rw (e, f) at h)
      | inr (out, f) ↦ absurd (identity_never l name nested defs out f (rw (e, f) at h))
    ]
  ]

  -- `!=` or `<>` with a value, NOT IN or NOT LIKE, on a plain column that is an instance field.
  pub data IsNegation : Leaf → Type 0 where
    unequal :
        (name written op : Text) (value : Operand)
        → ((op ≡ codes "!=") ⊎ (op ≡ codes "<>"))
        → IsInstanceField name
        → IsNegation (comparison (field name written) op value)
    not_in :
        (name written : Text) (values : Operands)
        → IsInstanceField name
        → IsNegation (in_list (field name written) values true)
    not_like :
        (name written : Text) (pattern' : Operand)
        → IsInstanceField name
        → IsNegation (like (field name written) pattern' true)

  instance_level-IsInstanceField :
      (name : Text) → classify_field name ≡ instance_level → IsInstanceField name
  unfolding classify_field IsInstanceField
  instance_level-IsInstanceField name h =
      elim (Bool-cases (contains instance_fields (lower name))) [
        | inl e ↦ e
        | inr e ↦ elim (Bool-cases (contains classification_fields (lower name))) [
          | inl f ↦ absurd (ground (arith, h, e, f))
          | inr f ↦ absurd (ground (arith, h, e, f))
        ]
      ]

  comparison_op :
      (f value : Operand) (op : Text)
      → is_some (negation_of (comparison f op value)) ≡ true
      → (op ≡ codes "!=") ⊎ (op ≡ codes "<>")
  unfolding negation_of
  comparison_op f value op h = elim (Bool-cases (op == codes "!=")) [
    | inl e ↦ inl ((text_beq_iff op (codes "!=")).0 e)
    | inr e ↦ elim (Bool-cases (op == codes "<>")) [
      | inl g ↦ inr ((text_beq_iff op (codes "<>")).0 g)
      | inr g ↦ absurd (ground (arith, h, e, g))
    ]
  ]

  -- A leaf is read as a suppression only if it compares a plain column with `!=`, `<>`, NOT IN or
  -- NOT LIKE, and the column is node_name, message, object, component, key_field, alert_rule_url or
  -- application, in any case of its letters.
  pub interpret_leaf-IsNegation :
      (l : Leaf) (nested : Bool) (defs : List PanelVariable) (known : List Text)
      → (interpret_leaf l nested defs known).0.kind ≡ suppression
      → IsNegation l
  unfolding interpret_leaf
  interpret_leaf-IsNegation (comparison (field name raw) op value) nested defs known h =
      let (level, negates) =
        on_column-IsClassified (comparison (field name raw) op value) name nested defs known h in
      unequal name raw op value (comparison_op (field name raw) value op negates)
        (instance_level-IsInstanceField name level)
  interpret_leaf-IsNegation (in_list (field name raw) values true) nested defs known h =
      let (level, _) =
        on_column-IsClassified (in_list (field name raw) values true) name nested defs known h in
      not_in name raw values (instance_level-IsInstanceField name level)
  interpret_leaf-IsNegation (in_list (field name raw) values false) nested defs known h =
      let (_, negates) =
        on_column-IsClassified (in_list (field name raw) values false) name nested defs known h in
      absurd (unfold negation_of in ground (arith, negates))
  interpret_leaf-IsNegation (like (field name raw) value true) nested defs known h =
      let (level, _) =
        on_column-IsClassified (like (field name raw) value true) name nested defs known h in
      not_like name raw value (instance_level-IsInstanceField name level)
  interpret_leaf-IsNegation (like (field name raw) value false) nested defs known h =
      let (_, negates) =
        on_column-IsClassified (like (field name raw) value false) name nested defs known h in
      absurd (unfold negation_of in ground (arith, negates))
  interpret_leaf-IsNegation (is_null (field name raw) negated) nested defs known h =
      let (_, negates) =
        on_column-IsClassified (is_null (field name raw) negated) name nested defs known h in
      absurd (unfold negation_of in ground (arith, negates))
  interpret_leaf-IsNegation (between (field name raw) low high negated) nested defs known h =
      let (_, negates) =
        on_column-IsClassified (between (field name raw) low high negated) name nested defs known
          h in
      absurd (unfold negation_of in ground (arith, negates))
  interpret_leaf-IsNegation l nested defs known h = absurd (cc h)
