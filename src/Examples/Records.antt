-- ===== src/Examples/Records.antt =====
-- Rows of alerts for the tests.
use alerts_bi.Common.{
  Text, ℕ, codes, ◌+◌, ◌*◌, ◌≤◌, ◌<◌, ◌≡◌, refl, ◌↔◌, ◌⊎◌, Option, none, some, true, not, List, [],
  ◌∷◌, arith, any, All, length, sum,
}
use mathlib.Core.List.{Perm}
use alerts_bi.Rules.Firing.Arrival.{ChronologicalFrom}
use alerts_bi.Llm.Grouping.Sizes.{balanced_partition_sizes_lem}
use alerts_bi.Common.Result.{ok, err}
use alerts_bi.Common.Unicode.{ascii}
use alerts_bi.Domain.Record.{AlertRecord, v1, v2, text}
use alerts_bi.Rules.Firing.Facts.{FiringFacts}
use alerts_bi.Rules.Firing.Batch.{firing_facts}
use alerts_bi.Rules.Firing.Stream.{stream_facts, not_chronological}
use alerts_bi.Rules.Firing.Agreement.{stream_facts-firing_facts, stream_facts_out_of_order}
use alerts_bi.Rules.Core.{Iso, Moment, behind, evaluate_r3, evaluate_r7}
use alerts_bi.Rules.Core.Verdicts.{
  evaluate_r3-none, evaluate_r7-none, IsRequired, IsOptional, IsTimely,
}
use alerts_bi.Rules.Readiness.{is_completion_ready, evaluate_readiness_rules, phase2_readiness_pct}
use alerts_bi.Rules.Readiness.Completion.{
  blocks_completion, is_completion_ready-evaluate_readiness_rules, derive_phase-done,
}
use alerts_bi.Rules.Phase.{derive_phase, done}
use alerts_bi.Llm.Grouping.{
  Mapping, word, number, words, build_batches, balanced_partition_sizes, cap_of,
}
use alerts_bi.Llm.Grouping.Members.{build_batches_lem, batch_members, IsSound}

-- A row of V2 that fires or is resolved.
abbrev row_at : ℕ → Text → Text → AlertRecord
row_at t status hash = record {
  schema = v2;
  application = codes "pay";
  key_field = codes "k1";
  identity = codes "pay/k1";
  component = some (codes "db");
  message = some (codes "disk full");
  severity = some (codes "critical");
  operator = some (codes "ops");
  node_name = none;
  network = none;
  alert_rule_url = none;
  provider = some (codes "grafana");
  status = some status;
  impact = text (codes "checkout is slow");
  runbook_url = text (codes "https://wiki/x");
  environment = none;
  site = none;
  time_created = none;
  timestamp = t;
  snapshot_date = 0;
  doc_hash = hash;
}

abbrev pub firing_row : AlertRecord
firing_row = row_at 10 (codes "firing") (codes "a")

abbrev pub later_rows : List AlertRecord
later_rows =
    row_at 20 (codes "resolved") (codes "b")
    ∷ row_at 20 (codes "firing") (codes "c")
    ∷ row_at 30 (codes "resolved") (codes "d")
    ∷ []

abbrev grafana : Option Text
grafana = some (codes "grafana")

in_order : ChronologicalFrom 10 later_rows
in_order = (omega arith, (omega arith, (omega arith, tt)))

stream_facts-firing_facts_example :
    (facts : FiringFacts) × (firing_facts (firing_row ∷ later_rows) grafana ≡ ok facts)
    × (stream_facts (firing_row ∷ later_rows) grafana ≡ ok facts)
stream_facts-firing_facts_example = stream_facts-firing_facts firing_row later_rows grafana in_order

not_in_order : ¬ ChronologicalFrom 10 (row_at 5 (codes "firing") (codes "z") ∷ [])
not_in_order c = omega (arith, c.0)

stream_facts_out_of_order_example :
    stream_facts (firing_row ∷ row_at 5 (codes "firing") (codes "z") ∷ []) grafana
    ≡ err not_chronological
stream_facts_out_of_order_example =
    stream_facts_out_of_order firing_row (row_at 5 (codes "firing") (codes "z") ∷ []) grafana
      not_in_order

-- Each text is the second day an hour behind UTC for this stand-in.
abbrev pub second_day : Moment
second_day = record { wall = 86400000000; offset = behind 3600000000 }

abbrev pub calendar : Iso
calendar = record { from_iso = λ t. some second_day }

-- A row of V1 that is received on the third day.
abbrev pub dated_row : AlertRecord
dated_row = record firing_row {
  schema = v1;
  timestamp = 172800000000;
  time_created = some (codes "0001-01-02T00:00:00-01:00");
}

evaluate_r3-none_example : (evaluate_r3 ⦃u = ascii⦄ firing_row ≡ none) ↔ (
    IsRequired ⦃u = ascii⦄ (some firing_row.application)
    × IsRequired ⦃u = ascii⦄ firing_row.operator
    × IsRequired ⦃u = ascii⦄ firing_row.component
    × IsOptional ⦃u = ascii⦄ firing_row.node_name)
evaluate_r3-none_example = evaluate_r3-none ⦃u = ascii⦄ firing_row

evaluate_r7-none_example : (evaluate_r7 ⦃u = ascii⦄ ⦃iso = calendar⦄ dated_row ≡ ok none) ↔ (
    (dated_row.schema ≡ v2)
    ⊎ IsTimely ⦃u = ascii⦄ ⦃iso = calendar⦄ dated_row.timestamp dated_row.time_created)
evaluate_r7-none_example = evaluate_r7-none ⦃u = ascii⦄ ⦃iso = calendar⦄ dated_row

is_completion_ready-evaluate_readiness_rules_example :
    is_completion_ready ⦃u = ascii⦄ firing_row
    ≡ some (not (any blocks_completion (evaluate_readiness_rules ⦃u = ascii⦄ firing_row)))
is_completion_ready-evaluate_readiness_rules_example =
    is_completion_ready-evaluate_readiness_rules ⦃u = ascii⦄ firing_row refl

one_ready : phase2_readiness_pct ⦃u = ascii⦄ (firing_row ∷ []) ≡ some (some (1, 1))
unfolding phase2_readiness_pct
one_ready = refl

derive_phase-done_example : (derive_phase 0 (length (firing_row ∷ [])) (some (1, 1)) ≡ done) ↔ (
    ◌≡◌ {A = ℕ} 0 0
    × (0 < length (firing_row ∷ []))
    × All (λ row. is_completion_ready ⦃u = ascii⦄ row ≡ some true) (firing_row ∷ []))
derive_phase-done_example =
    derive_phase-done ⦃u = ascii⦄ 0 (firing_row ∷ []) (some (1, 1)) one_ready

-- A stand-in for the hash: the first text of the mapping.
first_word : Mapping → Text
first_word [] = []
first_word ((name, word t) ∷ m) = t
first_word ((name, number n) ∷ m) = name
first_word ((name, words ts) ∷ m) = name

build_batches_lem_example :
    Perm
      (batch_members (
        build_batches first_word
          (codes "run")
          (codes "p1")
          (codes "m1")
          ⦃u = ascii⦄
          (firing_row ∷ later_rows)
          (some 2)))
      (firing_row ∷ later_rows)
    × All (IsSound ⦃u = ascii⦄ (cap_of (some 2))) (
        build_batches first_word
          (codes "run")
          (codes "p1")
          (codes "m1")
          ⦃u = ascii⦄
          (firing_row ∷ later_rows)
          (some 2))
    × (cap_of (some 2) ≤ 200)
build_batches_lem_example =
    build_batches_lem ⦃u = ascii⦄ first_word (codes "run") (codes "p1") (codes "m1")
      (firing_row ∷ later_rows) (some 2)

-- 401 alerts for at most 200 in a batch.
balanced_partition_sizes_example : balanced_partition_sizes 401 200 ≡ 134 ∷ 134 ∷ 133 ∷ []
unfolding balanced_partition_sizes
balanced_partition_sizes_example = refl

balanced_partition_sizes_lem_example :
    (sum (balanced_partition_sizes 401 200) ≡ 401)
    × (200 * length (balanced_partition_sizes 401 200) < 401 + 200)
    × ((base : ℕ) × All
          (λ size. (base ≤ size) × (size ≤ base + 1) × (0 < size) × (size ≤ 200))
          (balanced_partition_sizes 401 200))
balanced_partition_sizes_lem_example =
    balanced_partition_sizes_lem 401 200 (omega arith) (omega arith)
