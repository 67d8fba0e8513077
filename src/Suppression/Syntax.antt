-- ===== src/Suppression/Syntax.antt =====
-- Operand, Node and Leaf of src/suppression/parser.py, a constructor for each `kind` or `type`, and
-- collect_leaves.
use alerts_bi.Common.{Text, Bool, true, List, [], ◌∷◌, ◌++◌}

mutual
  pub data Operand : Type 0 where
    field : Text → Text → Operand
    literal : Text → Operand
    variable : Text → Text → Operand
    -- The name, the arguments, and whether it is a macro.
    call : Text → Operands → Bool → Operand

  -- A tuple of operands.
  pub data Operands : Type 0 where
    no_operands : Operands
    operand : Operand → Operands → Operands

-- The Boolean in `in_list`, `like`, `is_null` and `between` is `negated`.
pub data Leaf : Type 0 where
  comparison : Operand → Text → Operand → Leaf
  in_list : Operand → Operands → Bool → Leaf
  like : Operand → Operand → Bool → Leaf
  is_null : Operand → Bool → Leaf
  between : Operand → Operand → Operand → Bool → Leaf
  call_leaf : Text → Operands → Bool → Leaf

pub data Tree : Type 0 where
  and_node or_node : Tree → Tree → Tree
  not_node : Tree → Tree
  leaf : Leaf → Tree

unfoldable pub collect_leaves : Tree → Bool → List (Leaf × Bool)
collect_leaves (and_node left right) nested =
    collect_leaves left nested ++ collect_leaves right nested
collect_leaves (or_node left right) nested = collect_leaves left true ++ collect_leaves right true
collect_leaves (not_node inner) nested = collect_leaves inner true
collect_leaves (leaf l) nested = (l, nested) ∷ []
