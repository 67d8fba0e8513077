-- ===== src/Rules/Catalogs.antt =====
-- src/rules/catalogs.py: the phrase catalogues and the rule ids.
use alerts_bi.Common.{Text, codes, List, [], ◌∷◌}

abbrev pub r1_generic_messages : List Text
r1_generic_messages =
    codes "error occurred"
    ∷ codes "something went wrong"
    ∷ codes "unable to get data"
    ∷ codes "alert triggered"
    ∷ codes "issue detected"
    ∷ []

abbrev pub r2_heartbeat_messages : List Text
r2_heartbeat_messages =
    codes "i am alive"
    ∷ codes "ok"
    ∷ codes "healthy"
    ∷ codes "started"
    ∷ codes "completed"
    ∷ codes "running"
    ∷ codes "service started"
    ∷ codes "process running"
    ∷ codes "completed successfully"
    ∷ []

abbrev pub placeholder_values : List Text
placeholder_values = codes "unknown" ∷ codes "test" ∷ codes "default" ∷ codes "n/a" ∷ []

abbrev pub r10_technical_cause_impacts : List Text
r10_technical_cause_impacts =
    codes "high cpu" ∷ codes "high cpu usage" ∷ codes "cpu usage is high" ∷ codes "cpu is high" ∷ []

pub data RuleId : Type 0 where
  r1 r2 r3 r4 r5 r6 r7 r8 r9 r10 : RuleId

-- `"core"` or `"v2_readiness"`.
pub data RuleSet : Type 0 where
  core v2_readiness : RuleSet

abbrev pub core_rule_ids : List RuleId
core_rule_ids = r1 ∷ r2 ∷ r3 ∷ r4 ∷ r5 ∷ r6 ∷ r7 ∷ []

abbrev pub v2_readiness_rule_ids : List RuleId
v2_readiness_rule_ids = r8 ∷ r9 ∷ r10 ∷ []

-- CITABLE_IDS: the rules and the principles.
abbrev pub citable_ids : List Text
citable_ids =
    codes "R1"
    ∷ codes "R2"
    ∷ codes "R3"
    ∷ codes "R4"
    ∷ codes "R5"
    ∷ codes "R6"
    ∷ codes "R7"
    ∷ codes "R8"
    ∷ codes "R9"
    ∷ codes "R10"
    ∷ codes "P1"
    ∷ codes "P2"
    ∷ codes "P3"
    ∷ codes "P4"
    ∷ codes "P5"
    ∷ codes "P6"
    ∷ codes "P7"
    ∷ codes "P8"
    ∷ codes "P9"
    ∷ codes "P10"
    ∷ codes "P11"
    ∷ []
