-- ===== src/Rules/Counts.antt =====
-- src/rules/engine.py: the counts of findings by date and rule, and of flagged rows by date. The two
-- dicts of the counts have the same keys: they are one list here. A set is a list without repetitions.
pub mod Direct
use alerts_bi.Common.{
  Text, ℕ, zero, suc, ◌+◌, ◌++◌, Option, none, some, Bool, true, false, not, ◌&&◌, List, [], ◌∷◌,
  map, count_if, contains, eqb, length, is_empty, is_some, text_eq, if◌then◌else◌, find_first,
}
use alerts_bi.Common.Sorting.{gather}
use alerts_bi.Domain.Record.{AlertRecord, v1, v2}
use alerts_bi.Rules.Catalogs.{RuleId}
use alerts_bi.Rules.Core.{Finding}
use alerts_bi.Rules.Engine.{EvaluatedRow, EvaluatedIdentity, compare_rule_ids, all_rule_ids}

pub record RuleBucketCount : Type 0 where
  pub snapshot_date : ℕ
  pub rule_id : RuleId
  pub match_count : ℕ
  pub distinct_count : ℕ

-- `set.add`.
abbrev pub insert_text : List Text → Text → List Text
insert_text seen t = if contains seen t then seen else seen ++ (t ∷ [])

-- `counts[key]` and `identities[key]`, the key a date and a rule's number.
pub record Tally : Type 0 where
  pub date : ℕ
  pub rule : ℕ
  pub count : ℕ
  pub identities : List Text

abbrev pub is_key : ℕ → ℕ → Tally → Bool
is_key date rule t = eqb t.date date && eqb t.rule rule

-- `counts[key] = counts.get(key, 0) + 1` and `identities.setdefault(key, set()).add(identity)`.
unfoldable pub bump : ℕ → ℕ → Text → List Tally → List Tally
bump date rule identity [] =
    record { date = date; rule = rule; count = 1; identities = identity ∷ [] } ∷ []
bump date rule identity (t ∷ ts) =
    let rest = bump date rule identity ts in
    if is_key date rule t
    then record t { count = t.count + 1; identities = insert_text t.identities identity } ∷ ts
    else t ∷ rest

-- A finding on a row: the date, the rule's number and the row's identity.
pub record Match : Type 0 where
  pub date : ℕ
  pub rule : ℕ
  pub identity : Text

-- The findings of a row, in the order of the inner loop.
abbrev pub matches_of : EvaluatedRow → List Match
unfolding compare_rule_ids
matches_of item =
    map
      (λ (f : Finding). record {
        date = item.row.snapshot_date;
        rule = compare_rule_ids f.rule_id;
        identity = item.row.identity;
      })
      (item.core_findings ++ item.readiness_findings)

unfoldable pub tally : List Tally → List Match → List Tally
unfolding bump
tally ts [] = ts
tally ts (m ∷ ms) = tally (bump m.date m.rule m.identity ts) ms

-- The bucket of a key, none where the key is missing.
abbrev pub bucket_at : ℕ → RuleId → Option Tally → List RuleBucketCount
bucket_at date id none = []
bucket_at date id (some t) =
    record {
      snapshot_date = date;
      rule_id = id;
      match_count = t.count;
      distinct_count = length t.identities;
    }
    ∷ []

unfoldable pub bucket_of : List Tally → ℕ → RuleId → List RuleBucketCount
bucket_of ts date id = bucket_at date id (find_first (is_key date (compare_rule_ids id)) ts)

unfoldable pub compute_daily_rule_counts : List EvaluatedRow → List ℕ → List RuleBucketCount
unfolding tally bucket_of matches_of
compute_daily_rule_counts rows dates =
    let ts = tally [] (gather matches_of rows) in
    gather (λ date. gather (bucket_of ts date) all_rule_ids) dates

unfoldable pub count_phase2_gap_identities : List EvaluatedIdentity → ℕ
count_phase2_gap_identities is =
    count_if
      (λ (i : EvaluatedIdentity). elim i.representative.schema [
        | v1 ↦ false
        | v2 ↦ not (is_empty i.readiness_ids)
      ])
      is
