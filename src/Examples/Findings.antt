-- ===== src/Examples/Findings.antt =====
-- The rules engine on two rows of an alert, and a decision on a finding.
use alerts_bi.Common.{codes, ◌*◌, ◌≡◌, refl, none, some, true, false, List, [], ◌∷◌, map, All}
use alerts_bi.Common.Result.{ok}
use alerts_bi.Common.Sorting.{gather}
use alerts_bi.Common.Unicode.{ascii}
use alerts_bi.Domain.Record.{AlertRecord}
use alerts_bi.Domain.Time.{week}
use alerts_bi.Examples.Records.{firing_row, later_rows, dated_row}
use alerts_bi.Review.Decisions.{Subject, Tables, record_decision, decision_of}
use alerts_bi.Review.Decisions.Appended.{IsRecorded, record_decision-IsRecorded}
use alerts_bi.Rules.Catalogs.{r2, core}
use alerts_bi.Rules.Core.{Finding, suppressed_by}
use alerts_bi.Rules.Counts.{compute_daily_rule_counts, matches_of}
use alerts_bi.Rules.Counts.Direct.{direct_bucket, compute_daily_rule_counts-direct}
use alerts_bi.Rules.Engine.{
  EvaluatedRow, EvaluatedIdentity, Evaluation, attach_row_findings, all_rule_ids,
}
use alerts_bi.Rules.Engine.Eligible.{IsConsistent}
use alerts_bi.Rules.Engine.Attached.{judgement, judged_late, attach_row_findings-IsConsistent}

abbrev rows : List AlertRecord
rows = dated_row ∷ firing_row ∷ later_rows

abbrev finding : Finding
finding = record { rule_id = r2; set = core; evidence = suppressed_by [] }

abbrev judged : EvaluatedRow
judged = record { id = 0; row = firing_row; core_findings = []; readiness_findings = [] }

abbrev evaluation : Evaluation
evaluation = record {
  rows = judged ∷ [];
  identities =
      record {
        identity = firing_row.identity;
        representative = firing_row;
        rows = judged ∷ [];
        core_ids = [];
        readiness_ids = [];
        has_core_finding = false;
        llm_eligible = true;
        present_dates = firing_row.snapshot_date ∷ [];
        facts = record {
          clear_count = 0;
          max_clear_cycles_24h = 0;
          max_episode_firing_rows = 1;
          open_since = none;
          open_span = none;
          span = 0;
          events_per_24h = none;
          pattern = none;
        };
      }
      ∷ [];
}

attach_row_findings-IsConsistent_example :
    (map judgement (attach_row_findings (λ id. some finding) evaluation).rows
      ≡ map (judged_late (λ id. some finding)) evaluation.rows)
    × (map
          (λ (i : EvaluatedIdentity). map judgement i.rows)
          (attach_row_findings (λ id. some finding) evaluation).identities
        ≡ map
            (λ (i : EvaluatedIdentity). map (judged_late (λ id. some finding)) i.rows)
            evaluation.identities)
    × All IsConsistent (attach_row_findings (λ id. some finding) evaluation).identities
attach_row_findings-IsConsistent_example =
    attach_row_findings-IsConsistent (λ id. some finding) evaluation is_consistent
  where
    is_consistent : All IsConsistent evaluation.identities
    is_consistent = unfold IsConsistent in ((refl, (refl, tt)), tt)

abbrev flagged : List EvaluatedRow
flagged =
    record judged { core_findings = finding ∷ [] }
    ∷ record judged { core_findings = finding ∷ [] }
    ∷ []

compute_daily_rule_counts-direct_example :
    compute_daily_rule_counts flagged (firing_row.snapshot_date ∷ [])
    ≡ gather
        (λ date. gather (direct_bucket (gather matches_of flagged) date) all_rule_ids)
        (firing_row.snapshot_date ∷ [])
compute_daily_rule_counts-direct_example =
    compute_daily_rule_counts-direct flagged (firing_row.snapshot_date ∷ [])

abbrev subject : Subject
subject = record {
  run_id = codes "run1";
  alert_schema = codes "v2";
  application = codes "pay";
  key_field = codes "cpu";
  finding_id = codes "R9";
}

abbrev tables : Tables
tables = record {
  review = record {
    runs = [];
    publications =
        record {
          publication_id = 0;
          run_id = codes "run1";
          team_id = codes "payments";
          window_start = 9 * week;
          window_end = 10 * week;
          published_at = 10 * week;
          published_by = codes "dana";
          review_note = none;
          withdrawal = none;
        }
        ∷ [];
    next_id = 1;
  };
  findings =
      record {
        run_id = codes "run1";
        alert_schema = codes "v2";
        application = codes "pay";
        key_field = codes "cpu";
        core_rule_ids = none;
        readiness_rule_ids = some (codes "R8,R9");
        quality_state = codes "assessed_good";
        llm_principle_id = some (codes "NONE");
      }
      ∷ [];
  decisions = [];
  next_id = 5;
}

abbrev decided : Tables
decided = record tables {
  decisions =
      decision_of subject (codes "payments") (codes "confirmed") (codes "seen") (codes "dana") 7 5
      ∷ [];
  next_id = 6;
}

record_decision-IsRecorded_example :
    IsRecorded ⦃u = ascii⦄ subject
      (codes "confirmed")
      (codes " seen")
      (codes "dana")
      7
      tables
      decided
      5
record_decision-IsRecorded_example =
    record_decision-IsRecorded ⦃u = ascii⦄ subject (codes "confirmed") (codes " seen")
      (codes "dana") 7 tables (decided, 5) is_accepted
  where
    is_accepted :
        record_decision ⦃u = ascii⦄ subject
          (codes "confirmed")
          (codes " seen")
          (codes "dana")
          7
          tables
        ≡ ok (decided, 5)
    is_accepted = unfold record_decision in refl
