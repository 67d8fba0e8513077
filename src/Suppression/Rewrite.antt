-- ===== src/Suppression/Rewrite.antt =====
-- Rewrite safety: what a leaf that is lifted out of the WHERE clause says of the rows that the panel
-- shows.
use alerts_bi.Common.{
  Text, ◌≡◌, refl, Bool, true, false, not, ◌&&◌, ◌||◌, List, none, some, All, All-append, All-map,
  arith, &&-true, inl, inr, Bool-cases, Option-cases, ◌⊎◌, if◌then◌else◌,
}
use alerts_bi.Common.Unicode.{Unicode}
use alerts_bi.Suppression.Syntax.{
  Tree, and_node, or_node, not_node, leaf, Leaf, collect_leaves, comparison, in_list, like, is_null,
  between, field,
}
use alerts_bi.Suppression.Fields.{
  FieldClass, instance_level, classification, unknown, classify_field, is_identity_field,
}
use alerts_bi.Suppression.Variables.{PanelVariable}
use alerts_bi.Suppression.Leaves.{LeafOutcome, suppression}
use alerts_bi.Suppression.Interpret.{
  interpret_leaf, interpret_by_class, interpret_negation, interpret_identity_leaf,
}

-- Whether the panel shows a row, given which leaves hold of it.
unfoldable pub holds : (Leaf → Bool) → Tree → Bool
holds v (and_node left right) = holds v left && holds v right
holds v (or_node left right) = holds v left || holds v right
holds v (not_node inner) = not (holds v inner)
holds v (leaf l) = v l

nested_throughout : (tree : Tree) → All (λ p. p.1 ≡ true) (collect_leaves tree true)
unfolding collect_leaves
nested_throughout (and_node left right) =
    All-append (λ p. p.1 ≡ true) (collect_leaves left true) (collect_leaves right true)
      (nested_throughout left) (nested_throughout right)
nested_throughout (or_node left right) =
    All-append (λ p. p.1 ≡ true) (collect_leaves left true) (collect_leaves right true)
      (nested_throughout left) (nested_throughout right)
nested_throughout (not_node inner) = nested_throughout inner
nested_throughout (leaf l) = (refl, tt)

-- A leaf that is not nested holds.
IsLifted : (Leaf → Bool) → Leaf × Bool → Type 0
IsLifted v p = p.1 ≡ false → v p.0 ≡ true

nested-IsLifted : (v : Leaf → Bool) (tree : Tree) → All (IsLifted v) (collect_leaves tree true)
unfolding IsLifted
nested-IsLifted v tree =
    All-map (collect_leaves tree true) (λ p n f. absurd (cc (n, f))) (nested_throughout tree)

collect_leaves-IsLifted :
    (v : Leaf → Bool) (tree : Tree)
    → holds v tree ≡ true
    → All (IsLifted v) (collect_leaves tree false)
unfolding collect_leaves holds
collect_leaves-IsLifted v (and_node left right) h =
    let both = &&-true (holds v left) (holds v right) h in
    All-append (IsLifted v) (collect_leaves left false) (collect_leaves right false)
      (collect_leaves-IsLifted v left both.0) (collect_leaves-IsLifted v right both.1)
collect_leaves-IsLifted v (or_node left right) h =
    All-append (IsLifted v) (collect_leaves left true) (collect_leaves right true)
      (nested-IsLifted v left) (nested-IsLifted v right)
collect_leaves-IsLifted v (not_node inner) h = nested-IsLifted v inner
collect_leaves-IsLifted v (leaf l) h = ((unfold IsLifted in λ n. h), tt)

pub FieldClass-cases :
    (c : FieldClass) → ((c ≡ instance_level) ⊎ (c ≡ classification)) ⊎ (c ≡ unknown)
FieldClass-cases instance_level = inl (inl refl)
FieldClass-cases classification = inl (inr refl)
FieldClass-cases unknown = inr refl

module _ ⦃u : Unicode⦄ where
  negation_nested :
      (l : Leaf) (name : Text) (defs : List PanelVariable)
      → (interpret_negation l name true defs).kind ≡ suppression
      → ⊥
  unfolding interpret_negation
  negation_nested l name defs h = ground (arith, h)

  by_class_nested :
      (l : Leaf) (name : Text) (defs : List PanelVariable) (known : List Text)
      → (interpret_by_class l name true defs known).0.kind ≡ suppression
      → ⊥
  unfolding interpret_by_class
  by_class_nested l name defs known h = elim (FieldClass-cases (classify_field name)) [
    | inl (inl e) ↦ negation_nested l name defs (rw (interpret_by_class, e) at h)
    | inl (inr e) ↦ ground (arith, h, e)
    | inr e ↦ ground (arith, h, e)
  ]

  identity_nested :
      (l : Leaf) (name : Text) (defs : List PanelVariable) (out : LeafOutcome)
      → interpret_identity_leaf l name true defs ≡ some out
      → out.kind ≡ suppression
      → ⊥
  unfolding interpret_identity_leaf
  identity_nested l name defs out e h = ground (arith, e, h)

  -- What `interpret_leaf` does on a plain column.
  abbrev on_column : Leaf → Text → List PanelVariable → List Text → LeafOutcome × List Text
  on_column l name defs known =
      let by_class = interpret_by_class l name true defs known in
      if is_identity_field name
      then (elim (interpret_identity_leaf l name true defs) [
        | some out ↦ (out, known)
        | none ↦ by_class
      ])
      else by_class

  on_column_nested :
      (l : Leaf) (name : Text) (defs : List PanelVariable) (known : List Text)
      → (on_column l name defs known).0.kind ≡ suppression
      → ⊥
  on_column_nested l name defs known h = elim (Bool-cases (is_identity_field name)) [
    | inr e ↦ by_class_nested l name defs known (rw e at h)
    | inl e ↦ elim (Option-cases (interpret_identity_leaf l name true defs)) [
      | inl f ↦ by_class_nested l name defs known (rw (e, f) at h)
      | inr (out, f) ↦ identity_nested l name defs out f (rw (e, f) at h)
    ]
  ]

  leaf_nested :
      (l : Leaf) (defs : List PanelVariable) (known : List Text)
      → (interpret_leaf l true defs known).0.kind ≡ suppression
      → ⊥
  unfolding interpret_leaf
  leaf_nested (comparison (field name raw) op value) defs known h =
      on_column_nested (comparison (field name raw) op value) name defs known h
  leaf_nested (in_list (field name raw) values negated) defs known h =
      on_column_nested (in_list (field name raw) values negated) name defs known h
  leaf_nested (like (field name raw) value negated) defs known h =
      on_column_nested (like (field name raw) value negated) name defs known h
  leaf_nested (is_null (field name raw) negated) defs known h =
      on_column_nested (is_null (field name raw) negated) name defs known h
  leaf_nested (between (field name raw) low high negated) defs known h =
      on_column_nested (between (field name raw) low high negated) name defs known h
  leaf_nested l defs known h = cc h

  -- A leaf is evaluated as a suppression only if it can be lifted out of the WHERE clause: whatever
  -- the leaves hold of a row, a row that the clause lets through meets every leaf that is interpreted
  -- as a suppression.
  pub interpret_leaf-holds :
      (v : Leaf → Bool) (tree : Tree) (defs : List PanelVariable) (known : List Text)
      → holds v tree ≡ true
      → All
          (λ p. (interpret_leaf p.0 p.1 defs known).0.kind ≡ suppression → v p.0 ≡ true)
          (collect_leaves tree false)
  unfolding IsLifted
  interpret_leaf-holds v tree defs known h =
      All-map (collect_leaves tree false) lifted (collect_leaves-IsLifted v tree h)
    where
      lifted :
          (p : Leaf × Bool)
          → IsLifted v p
          → (interpret_leaf p.0 p.1 defs known).0.kind ≡ suppression
          → v p.0 ≡ true
      lifted (l, true) safe s = absurd (leaf_nested l defs known s)
      lifted (l, false) safe s = safe refl
