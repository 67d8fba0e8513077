-- ===== src/Rules/Engine.antt =====
-- src/rules/engine.py: rows judged one by one, gathered by identity and judged by their firing
-- pattern, and counted by date. An identity's rows are objects that the list of all rows shares: here
-- both are changed alike. A row is an object: `id(row)` is its place in the list of all rows, and two
-- rows with the same fields are told apart by it. A date is the number of its day.
pub mod Eligible
pub mod Attached
use alerts_bi.Common.{
  Text, ℕ, zero, suc, ◌+◌, ◌++◌, Option, none, some, Bool, true, false, not, ◌&&◌, List, [], ◌∷◌,
  map, keep, any, count_if, contains, eqb, ltb, length, is_empty, is_some, ◌==◌, text_eq, nat_eq,
  if◌then◌else◌,
}
use alerts_bi.Common.Result.{Result, ok, err, ◌>>=◌}
use alerts_bi.Common.Sorting.{gather}
use alerts_bi.Common.Unicode.{Unicode}
use alerts_bi.Domain.Record.{AlertRecord, Schema, v1, v2, EmptyRows, select_representative}
use alerts_bi.Rules.Catalogs.{
  RuleId, r1, r2, r3, r4, r5, r6, r7, r8, r9, r10, RuleSet, core, v2_readiness, core_rule_ids,
  v2_readiness_rule_ids,
}
use alerts_bi.Rules.Core.{Finding, firing, Iso, Overflow, evaluate_core_rules}
use alerts_bi.Rules.Firing.Batch.{firing_facts}
use alerts_bi.Rules.Firing.Facts.{FiringFacts, Pattern}
use alerts_bi.Rules.Readiness.{evaluate_readiness_rules}

-- `compare_rule_ids`: the number of the rule; the letter is R for each.
unfoldable pub compare_rule_ids : RuleId → ℕ
compare_rule_ids = elim [
  | r1 ↦ 1
  | r2 ↦ 2
  | r3 ↦ 3
  | r4 ↦ 4
  | r5 ↦ 5
  | r6 ↦ 6
  | r7 ↦ 7
  | r8 ↦ 8
  | r9 ↦ 9
  | r10 ↦ 10
]

abbrev pub all_rule_ids : List RuleId
all_rule_ids = core_rule_ids ++ v2_readiness_rule_ids

abbrev pub is_rule : RuleId → Finding → Bool
unfolding compare_rule_ids
is_rule id finding = eqb (compare_rule_ids finding.rule_id) (compare_rule_ids id)

-- The set of the findings' rule ids, sorted.
unfoldable pub distinct_rule_ids : List Finding → List RuleId
unfolding is_rule
distinct_rule_ids findings = keep (λ id. any (is_rule id) findings) all_rule_ids

pub record EvaluatedRow : Type 0 where
  -- `id(row)`.
  pub id : ℕ
  pub row : AlertRecord
  pub core_findings : List Finding
  pub readiness_findings : List Finding

pub record EvaluatedIdentity : Type 0 where
  pub identity : Text
  pub representative : AlertRecord
  pub rows : List EvaluatedRow
  pub core_ids : List RuleId
  pub readiness_ids : List RuleId
  pub has_core_finding : Bool
  pub llm_eligible : Bool
  pub present_dates : List ℕ
  pub facts : FiringFacts

pub record Evaluation : Type 0 where
  pub rows : List EvaluatedRow
  pub identities : List EvaluatedIdentity

-- The exceptions: a time beyond the calendar in R7, or an identity without rows.
pub data EvaluationError : Type 0 where
  overflow : Overflow → EvaluationError
  zero_members : EmptyRows → EvaluationError

pub record Group : Type 0 where
  pub identity : Text
  pub members : List EvaluatedRow

-- `grouped.setdefault(identity, []).append(item)`, a new identity behind the others.
unfoldable pub add_row : EvaluatedRow → List Group → List Group
add_row item [] = record { identity = item.row.identity; members = item ∷ [] } ∷ []
add_row item (g ∷ gs) =
    let rest = add_row item gs in
    if g.identity == item.row.identity
    then record g { members = g.members ++ (item ∷ []) } ∷ gs
    else g ∷ rest

unfoldable pub group_rows : List Group → List EvaluatedRow → List Group
unfolding add_row
group_rows groups [] = groups
group_rows groups (item ∷ items) = group_rows (add_row item groups) items

abbrev pub core_findings_of : List EvaluatedRow → List Finding
core_findings_of items = gather (λ (i : EvaluatedRow). i.core_findings) items

-- The R6 finding of an identity's rows, where they match a pattern.
unfoldable pub pattern_finding : ℕ → FiringFacts → Option Finding
pattern_finding rows facts = elim facts.pattern [
  | none ↦ none
  | some p ↦ some (record { rule_id = r6; set = core; evidence = firing rows facts })
]

abbrev pub with_core : Option Finding → EvaluatedRow → EvaluatedRow
with_core none item = item
with_core (some f) item = record item { core_findings = item.core_findings ++ (f ∷ []) }

-- The distinct dates, in the order of their first appearance.
unfoldable pub distinct_dates : List ℕ → List EvaluatedRow → List ℕ
distinct_dates seen [] = seen
distinct_dates seen (item ∷ items) =
    distinct_dates
      (if contains seen item.row.snapshot_date then seen else seen ++ (item.row.snapshot_date ∷ []))
      items

-- The two flags and the ids that follow from the rows' core findings.
unfoldable pub recompute : EvaluatedIdentity → EvaluatedIdentity
unfolding distinct_rule_ids
recompute i =
    let ids = distinct_rule_ids (core_findings_of i.rows) in
    record i {
      core_ids = ids;
      has_core_finding = not (is_empty ids);
      llm_eligible = not (not (is_empty ids));
    }

module _ ⦃u : Unicode⦄ ⦃iso : Iso⦄ where
  unfoldable pub evaluate_row : ℕ → AlertRecord → Result Overflow EvaluatedRow
  unfolding evaluate_readiness_rules
  evaluate_row id row = evaluate_core_rules row >>= λ findings. ok (record {
    id = id;
    row = row;
    core_findings = findings;
    readiness_findings = evaluate_readiness_rules row;
  })

  -- The list of the evaluated rows, from the row at the place `id` on.
  unfoldable pub evaluate_each : ℕ → List AlertRecord → Result Overflow (List EvaluatedRow)
  evaluate_each id [] = ok []
  evaluate_each id (row ∷ rows) =
      evaluate_row id row >>= λ item. evaluate_each (suc id) rows >>= λ items. ok (item ∷ items)

  -- Before the core findings are looked at. The readiness findings of the representative are those
  -- of its row: none is added later.
  unfoldable pub gathered_identity : Group → AlertRecord → FiringFacts → EvaluatedIdentity
  unfolding pattern_finding distinct_rule_ids distinct_dates evaluate_readiness_rules
  gathered_identity g representative facts = record {
    identity = g.identity;
    representative = representative;
    rows = map (with_core (pattern_finding (length g.members) facts)) g.members;
    core_ids = [];
    readiness_ids = distinct_rule_ids (evaluate_readiness_rules representative);
    has_core_finding = false;
    llm_eligible = true;
    present_dates = distinct_dates [] g.members;
    facts = facts;
  }

  unfoldable pub identity_of_group : Group → AlertRecord → FiringFacts → EvaluatedIdentity
  unfolding recompute gathered_identity
  identity_of_group g representative facts = recompute (gathered_identity g representative facts)

  unfoldable pub evaluate_group : Group → Result EmptyRows EvaluatedIdentity
  unfolding select_representative firing_facts identity_of_group
  evaluate_group g =
      let rows = map (λ (i : EvaluatedRow). i.row) g.members in
      select_representative rows >>= λ representative.
      firing_facts rows representative.provider >>= λ facts.
      ok (identity_of_group g representative facts)

  unfoldable pub evaluate_groups : List Group → Result EmptyRows (List EvaluatedIdentity)
  unfolding evaluate_group
  evaluate_groups [] = ok []
  evaluate_groups (g ∷ gs) = evaluate_group g >>= λ i. evaluate_groups gs >>= λ is. ok (i ∷ is)

  -- A row of the list, with the finding of its identity's rows.
  unfoldable pub share_pattern : List EvaluatedIdentity → EvaluatedRow → EvaluatedRow
  unfolding pattern_finding
  share_pattern [] item = item
  share_pattern (i ∷ is) item =
      let rest = share_pattern is item in
      if i.identity == item.row.identity
      then with_core (pattern_finding (length i.rows) i.facts) item
      else rest

  unfoldable pub evaluate_rows : List AlertRecord → Result EvaluationError Evaluation
  unfolding group_rows share_pattern
  evaluate_rows rows = elim (evaluate_each 0 rows) [
    | err e ↦ err (overflow e)
    | ok evaluated ↦ elim (evaluate_groups (group_rows [] evaluated)) [
      | err e ↦ err (zero_members e)
      | ok identities ↦
          ok (record { rows = map (share_pattern identities) evaluated; identities = identities })
    ]
  ]

-- A finding is put with those of its set.
abbrev pub put_finding : RuleSet → Finding → EvaluatedRow → EvaluatedRow
put_finding core f item = record item { core_findings = item.core_findings ++ (f ∷ []) }
put_finding v2_readiness f item = record item {
  readiness_findings = item.readiness_findings ++ (f ∷ []);
}

abbrev pub put_found : Option Finding → EvaluatedRow → EvaluatedRow
put_found none item = item
put_found (some f) item = put_finding f.set f item

-- `findings_by_row.get(id(item.row))`.
abbrev pub with_finding : (ℕ → Option Finding) → EvaluatedRow → EvaluatedRow
with_finding findings item = put_found (findings item.id) item

-- Without findings the recomputation changes nothing, so the early return is left out.
unfoldable pub attach_row_findings : (ℕ → Option Finding) → Evaluation → Evaluation
unfolding recompute
attach_row_findings findings e = record {
  rows = map (with_finding findings) e.rows;
  identities =
      map
        (λ (i : EvaluatedIdentity).
          recompute (record i { rows = map (with_finding findings) i.rows }))
        e.identities;
}
