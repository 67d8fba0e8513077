-- ===== src/Rules/Engine/Eligible.antt =====
-- The identities partition the rows, and one is eligible for the model exactly without a core finding.
use mathlib.Core.List.{Perm}
use mathlib.Core.List.Perm
use alerts_bi.Common.{
  Text, ℕ, ◌≡◌, refl, ap, ◌∙◌, ◌++◌, Bool, true, false, not, ◌&&◌, List, [], ◌∷◌, map, keep, any,
  all, is_empty, arith, Bool-cases, inl, inr, All, text_eq, eqb,
}
use alerts_bi.Common.Sorting.{gather}
use alerts_bi.Common.Unicode.{Unicode}
use alerts_bi.Domain.Record.{AlertRecord}
use alerts_bi.Rules.Catalogs.{RuleId, r1, r2, r3, r4, r5, r6, r7, r8, r9, r10}
use alerts_bi.Rules.Core.{Finding}
use alerts_bi.Rules.Engine.{
  EvaluatedRow, EvaluatedIdentity, Group, all_rule_ids, is_rule, compare_rule_ids,
  distinct_rule_ids, core_findings_of, recompute,
}

-- An identity's rows are of it, and it is eligible exactly if none of them has a core finding.
unfoldable pub IsConsistent : EvaluatedIdentity → Type 0
IsConsistent i =
    (i.llm_eligible ≡ all (λ (item : EvaluatedRow). is_empty item.core_findings) i.rows)
    × All (λ (item : EvaluatedRow). item.row.identity ≡ i.identity) i.rows

any-all_rule_ids : (p : RuleId → Bool) (id : RuleId) → p id ≡ true → any p all_rule_ids ≡ true
any-all_rule_ids p r1 h = ground (arith, h)
any-all_rule_ids p r2 h = ground (arith, h)
any-all_rule_ids p r3 h = ground (arith, h)
any-all_rule_ids p r4 h = ground (arith, h)
any-all_rule_ids p r5 h = ground (arith, h)
any-all_rule_ids p r6 h = ground (arith, h)
any-all_rule_ids p r7 h = ground (arith, h)
any-all_rule_ids p r8 h = ground (arith, h)
any-all_rule_ids p r9 h = ground (arith, h)
any-all_rule_ids p r10 h = ground (arith, h)

is_empty-keep {ℓ} :
    {A : Type ℓ} (p : A → Bool) (xs : List A) → is_empty (keep p xs) ≡ not (any p xs)
is_empty-keep p [] = refl
is_empty-keep p (x ∷ xs) = elim (Bool-cases (p x)) [
  | inl e ↦ rw e refl
  | inr e ↦ rw e (is_empty-keep p xs)
]

is_rule-own : (f : Finding) → is_rule f.rule_id f ≡ true
unfolding is_rule
is_rule-own f = same (compare_rule_ids f.rule_id)
  where
    same : (n : ℕ) → eqb n n ≡ true
    same n = ground arith

pub is_empty-distinct_rule_ids : (fs : List Finding) → is_empty (distinct_rule_ids fs) ≡ is_empty fs
unfolding distinct_rule_ids
is_empty-distinct_rule_ids [] = refl
is_empty-distinct_rule_ids (f ∷ fs) =
    let hit : any (λ id. any (is_rule id) (f ∷ fs)) all_rule_ids ≡ true =
      any-all_rule_ids (λ id. any (is_rule id) (f ∷ fs)) f.rule_id (rw (is_rule-own f) refl) in
    is_empty-keep (λ id. any (is_rule id) (f ∷ fs)) all_rule_ids ∙ ap not hit

pub is_empty-core_findings_of :
    (items : List EvaluatedRow)
    → is_empty (core_findings_of items)
      ≡ all (λ (item : EvaluatedRow). is_empty item.core_findings) items
is_empty-core_findings_of [] = refl
is_empty-core_findings_of (item ∷ items) =
    is_empty-append item.core_findings (core_findings_of items)
    ∙ ap (λ b. is_empty item.core_findings && b) (is_empty-core_findings_of items)
  where
    is_empty-append : (xs ys : List Finding) → is_empty (xs ++ ys) ≡ (is_empty xs && is_empty ys)
    is_empty-append [] ys = refl
    is_empty-append (x ∷ xs) ys = refl

pub recompute-IsConsistent :
    (i : EvaluatedIdentity)
    → All (λ (item : EvaluatedRow). item.row.identity ≡ i.identity) i.rows
    → IsConsistent (recompute i)
unfolding recompute IsConsistent
recompute-IsConsistent i h =
    let found = core_findings_of i.rows in
    (
      not-not (is_empty (distinct_rule_ids found))
          ∙ is_empty-distinct_rule_ids found
          ∙ is_empty-core_findings_of i.rows,
      h,
    )
  where
    not-not : (b : Bool) → not (not b) ≡ b
    not-not true = refl
    not-not false = refl

-- A change of the findings leaves the row.
pub changed-All :
    (f : EvaluatedRow → EvaluatedRow) (id : Text) (items : List EvaluatedRow)
    → ((item : EvaluatedRow) → (f item).row ≡ item.row)
    → All (λ (item : EvaluatedRow). item.row.identity ≡ id) items
    → All (λ (item : EvaluatedRow). item.row.identity ≡ id) (map f items)
changed-All f id [] same h = tt
changed-All f id (item ∷ items) same h =
    (ap (λ (r : AlertRecord). r.identity) (same item) ∙ h.0, changed-All f id items same h.1)

AllOwn : Group → Type 0
AllOwn g = All (λ (item : EvaluatedRow). item.row.identity ≡ g.identity) g.members

-- The rows of the groups.
abbrev members : List Group → List EvaluatedRow
members gs = gather (λ (g : Group). g.members) gs

IsFilled : Group → Type 0
IsFilled g = is_empty g.members ≡ false

abbrev rows_of : List EvaluatedRow → List AlertRecord
rows_of items = map (λ (item : EvaluatedRow). item.row) items
