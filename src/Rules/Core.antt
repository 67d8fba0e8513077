-- ===== src/Rules/Core.antt =====
-- src/rules/core.py: the rules that a single row decides (R1-R4, R7). datetime.fromisoformat is an
-- interface; the OverflowError of astimezone is an exception.
pub mod Times
pub mod Verdicts
use alerts_bi.Common.{
  Text, ℕ, codes, ◌+◌, ◌-◌, Option, none, some, Bool, true, false, not, ◌||◌, ◌&&◌, List, [], ◌∷◌,
  ◌++◌, if◌then◌else◌, ltb, leb, ◌*◌, contains, text_eq, nat_eq, is_some,
}
use alerts_bi.Common.Result.{Result, ok, err, ◌>>=◌}
use alerts_bi.Common.Unicode.{Unicode, strip}
use alerts_bi.Domain.Time.{day}
use alerts_bi.Domain.Record.{AlertRecord, Schema, v1, v2, is_text}
use alerts_bi.Rules.Text.{normalize_field_value, normalize_message, is_blank}
use alerts_bi.Rules.Catalogs.{
  RuleId, r1, r2, r3, r4, r7, RuleSet, core, r1_generic_messages, r2_heartbeat_messages,
  placeholder_values,
}
use alerts_bi.Rules.Firing.Facts.{FiringFacts}

-- A placeholder with its text, a value that is no string with the name of its type, and a time that
-- is out of range with the receipt.
pub data Problem : Type 0 where
  empty missing unparseable not_absolute_http : Problem
  placeholder not_a_string : Text → Problem
  future older_than_24h : ℕ → Problem

pub record Violation : Type 0 where
  pub field : Text
  pub reason : Problem

-- The evidence of each rule.
pub data Evidence : Type 0 where
  phrase : Text → Text → Evidence
  violations : List Violation → Evidence
  no_link : Option Text → Option Text → Evidence
  bad_time : Problem → Option Text → Evidence
  suppressed_by : List Text → Evidence
  firing : ℕ → FiringFacts → Evidence
  impact_gap : Problem → Evidence
  runbook_gap : Option Text → Bool → Problem → Evidence

pub record Finding : Type 0 where
  pub rule_id : RuleId
  pub set : RuleSet
  pub evidence : Evidence

-- What datetime.fromisoformat returns: the wall clock time, and the offset from UTC of one that is
-- aware.
pub data Offset : Type 0 where
  naive : Offset
  ahead : ℕ → Offset
  behind : ℕ → Offset

pub record Moment : Type 0 where
  pub wall : ℕ
  pub offset : Offset

pub record Iso : Type 0 where
  pub from_iso : Text → Option Moment

-- OverflowError: the instant in UTC is before the year 1 or behind the year 9999.
pub data Overflow : Type 0 where
  out_of_range : Overflow

-- Behind datetime.max: the years 1 to 9999 have 3652059 days.
abbrev pub calendar_end : ℕ
calendar_end = 3652059 * day

-- `parsed.replace(tzinfo=UTC)` or `parsed.astimezone(UTC)`.
unfoldable pub instant_of : ℕ → Offset → Result Overflow ℕ
instant_of wall naive = ok wall
instant_of wall (ahead o) = if leb o wall then ok (wall - o) else err out_of_range
instant_of wall (behind o) = if ltb (wall + o) calendar_end then ok (wall + o) else err out_of_range

unfoldable pub to_utc : Moment → Result Overflow ℕ
unfolding instant_of
to_utc m = instant_of m.wall m.offset

-- `receipt - _TWENTY_FOUR_HOURS`.
unfoldable pub subtract_day : ℕ → Result Overflow ℕ
subtract_day receipt = if leb day receipt then ok (receipt - day) else err out_of_range

-- `s.replace("Z", "+00:00")`.
unfoldable pub expand_zulu : Text → Text
expand_zulu [] = []
expand_zulu (c ∷ s) =
    let rest = expand_zulu s in if contains (b'Z' ∷ []) c then codes "+00:00" ++ rest else c ∷ rest

abbrev core_finding : RuleId → Evidence → Finding
core_finding id evidence = record { rule_id = id; set = core; evidence = evidence }

-- The body of the loop over the rules: `if finding is not None: findings.append(finding)`.
abbrev pub found : Option Finding → List Finding → List Finding
found none rest = rest
found (some finding) rest = finding ∷ rest

module _ ⦃u : Unicode⦄ where
  -- R1 and R2: the whole message is in the catalogue.
  unfoldable pub catalogue_rule : RuleId → List Text → Option Text → Option Finding
  unfolding normalize_message
  catalogue_rule id catalogue message = elim (normalize_message message) [
    | none ↦ none
    | some normalized ↦
        if contains catalogue normalized
        then some (core_finding id (phrase (codes "message") normalized))
        else none
  ]

  unfoldable pub evaluate_r1 : AlertRecord → Option Finding
  unfolding catalogue_rule
  evaluate_r1 row = catalogue_rule r1 r1_generic_messages row.message

  unfoldable pub evaluate_r2 : AlertRecord → Option Finding
  unfolding catalogue_rule
  evaluate_r2 row = catalogue_rule r2 r2_heartbeat_messages row.message

  pub record Check : Type 0 where
    pub name : Text
    pub value : Option Text
    pub required : Bool

  unfoldable pub placeholder_of : Option Text → Option Text
  unfolding normalize_field_value
  placeholder_of value = elim (normalize_field_value value) [
    | none ↦ none
    | some normalized ↦ if contains placeholder_values normalized then some normalized else none
  ]

  -- The body of the loop of R3.
  unfoldable pub violation_of : Check → Option Violation
  unfolding is_blank placeholder_of
  violation_of c =
      if is_blank c.value
      then (if c.required then some (record { field = c.name; reason = empty }) else none)
      else (elim (placeholder_of c.value) [
        | none ↦ none
        | some normalized ↦ some (record { field = c.name; reason = placeholder normalized })
      ])

  unfoldable pub violations_of : List Check → List Violation
  unfolding violation_of
  violations_of [] = []
  violations_of (c ∷ cs) =
      let rest = violations_of cs in elim (violation_of c) [ none ↦ rest | some v ↦ v ∷ rest ]

  abbrev pub component_field : Schema → Text
  component_field v1 = codes "object"
  component_field v2 = codes "component"

  unfoldable pub r3_checks : AlertRecord → List Check
  r3_checks row =
      record { name = codes "application"; value = some row.application; required = true }
      ∷ record { name = codes "operator"; value = row.operator; required = true }
      ∷ record { name = component_field row.schema; value = row.component; required = true }
      ∷ record { name = codes "node_name"; value = row.node_name; required = false }
      ∷ []

  unfoldable pub evaluate_r3 : AlertRecord → Option Finding
  unfolding violations_of r3_checks
  evaluate_r3 row = elim (violations_of (r3_checks row)) [
    | [] ↦ none
    | v ∷ vs ↦ some (core_finding r3 (violations (v ∷ vs)))
  ]

  unfoldable pub evaluate_r4 : AlertRecord → Option Finding
  unfolding normalize_field_value is_blank
  evaluate_r4 row =
      if not (is_text (normalize_field_value row.provider) (codes "grafana"))
      then none
      else if not (is_blank row.alert_rule_url)
      then none
      else some (core_finding r4 (no_link row.provider row.alert_rule_url))

  module _ ⦃iso : Iso⦄ where
    unfoldable pub parse_time_created : Text → Result Overflow (Option ℕ)
    unfolding expand_zulu to_utc
    parse_time_created value = elim (iso.from_iso (expand_zulu (strip value))) [
      | none ↦ ok none
      | some parsed ↦ to_utc parsed >>= λ created. ok (some created)
    ]

    unfoldable pub range_problem : ℕ → ℕ → ℕ → Option Problem
    range_problem receipt earliest created =
        if ltb receipt created
        then some (future receipt)
        else if ltb created earliest
        then some (older_than_24h receipt)
        else none

    unfoldable pub time_problem : ℕ → ℕ → Option Text → Result Overflow (Option Problem)
    unfolding is_blank
    time_problem receipt earliest none = ok (some missing)
    time_problem receipt earliest (some value) =
        if is_blank (some value) then ok (some missing) else (elim (parse_time_created value) [
          | err e ↦ err e
          | ok none ↦ ok (some unparseable)
          | ok (some created) ↦ ok (range_problem receipt earliest created)
        ])

    unfoldable pub evaluate_r7 : AlertRecord → Result Overflow (Option Finding)
    evaluate_r7 row = elim row.schema [
      | v2 ↦ ok none
      | v1 ↦ elim (subtract_day row.timestamp) [
        | err e ↦ err e
        | ok earliest ↦ elim (time_problem row.timestamp earliest row.time_created) [
          | err e ↦ err e
          | ok none ↦ ok none
          | ok (some reason) ↦ ok (some (core_finding r7 (bad_time reason row.time_created)))
        ]
      ]
    ]

    unfoldable pub evaluate_core_rules : AlertRecord → Result Overflow (List Finding)
    unfolding evaluate_r1 evaluate_r2 evaluate_r3 evaluate_r4
    evaluate_core_rules row = elim (evaluate_r7 row) [
      | err e ↦ err e
      | ok late ↦ ok (
          found (evaluate_r1 row) (
            found (evaluate_r2 row)
              (found (evaluate_r3 row) (found (evaluate_r4 row) (found late [])))))
    ]
