-- ===== src/Rules/Readiness.antt =====
-- src/rules/readiness.py: the readiness gaps R8-R10 of V2 alerts. The percentage is kept as the
-- exact fraction (ready, all).
pub mod Completion
use mathlib.Core.List.{reverse}
use alerts_bi.Common.{
  Text, ℕ, codes, ◌+◌, Option, none, some, Bool, true, false, not, ◌||◌, ◌&&◌, List, [], ◌∷◌,
  if◌then◌else◌, contains, text_eq, nat_eq, ◌==◌, is_some, count_if, length, starts_with, map, eqb,
}
use alerts_bi.Common.Unicode.{Unicode, strip, lower, is_ascii_letter, is_ascii_digit, ascii_lower}
use alerts_bi.Domain.Record.{AlertRecord, Schema, v1, v2, is_text, Value, absent, text, other}
use alerts_bi.Rules.Text.{normalize_field_value, normalize_message, text_of}
use alerts_bi.Rules.Catalogs.{
  RuleId, r8, r9, r10, RuleSet, v2_readiness, r10_technical_cause_impacts,
}
use alerts_bi.Rules.Core.{
  Finding, Evidence, Problem, missing, not_a_string, empty, placeholder, not_absolute_http,
  impact_gap, runbook_gap, phrase, placeholder_of, found,
}

-- `[A-Za-z0-9+.\-]`.
abbrev pub is_scheme_char : ℕ → Bool
is_scheme_char c = is_ascii_letter c || is_ascii_digit c || contains (codes "+.-") c

-- The name and what follows the first colon, if all before it may stand in a scheme.
unfoldable pub scheme_rest : Text → Option (Text × Text)
scheme_rest [] = none
scheme_rest (c ∷ s) =
    let more = scheme_rest s in
    if eqb c b':'
    then some ([], s)
    else if is_scheme_char c
    then (elim more [ none ↦ none | some p ↦ some (c ∷ p.0, p.1) ])
    else none

-- `_SCHEME.match(value)`.
unfoldable pub match_scheme : Text → Option (Text × Text)
unfolding scheme_rest
match_scheme [] = none
match_scheme (c ∷ s) =
    if is_ascii_letter c
    then (elim (scheme_rest s) [ none ↦ none | some p ↦ some (c ∷ p.0, p.1) ])
    else none

-- `rest.lstrip("/")`.
unfoldable pub skip_slashes : Text → Text
skip_slashes [] = []
skip_slashes (c ∷ s) = let rest = skip_slashes s in if eqb c b'/' then rest else c ∷ s

-- `re.split(r"[/?#]", rest, maxsplit=1)[0]`.
unfoldable pub before_any : List ℕ → Text → Text
before_any marks [] = []
before_any marks (c ∷ s) =
    let rest = before_any marks s in if contains marks c then [] else c ∷ rest

-- `s.rpartition(mark)[2]`: what follows the last mark, or all of it.
unfoldable pub after_last : ℕ → Text → Text
unfolding before_any
after_last mark s = reverse (before_any (mark ∷ []) (reverse s))

-- What follows the first mark.
unfoldable pub after_first : ℕ → Text → Text
after_first mark [] = []
after_first mark (c ∷ s) = let rest = after_first mark s in if eqb c mark then s else rest

-- `s.rpartition(mark)[0]`, where there is a mark: what is before the last one.
unfoldable pub before_last : ℕ → Text → Text
unfolding after_first
before_last mark s = reverse (after_first mark (reverse s))

unfoldable pub host_of : Text → Text
unfolding skip_slashes before_any after_last before_last
host_of rest =
    let authority = before_any (codes "/?#") (skip_slashes rest) in
    let host = after_last b'@' authority in
    if contains host b':' then before_last b':' host else host

unfoldable pub is_absolute_http_url : Text → Bool
unfolding match_scheme host_of
is_absolute_http_url value = elim (match_scheme value) [
  | none ↦ false
  | some p ↦
      contains (codes "http" ∷ codes "https" ∷ []) (map ascii_lower p.0) && not (host_of p.1 == [])
]

abbrev gap : RuleId → Evidence → Finding
gap id evidence = record { rule_id = id; set = v2_readiness; evidence = evidence }

module _ ⦃u : Unicode⦄ where
  -- The tests on the text that R8 and R9 share.
  unfoldable pub text_problem : Text → Option Problem
  unfolding placeholder_of
  text_problem t = if strip t == [] then some empty else (elim (placeholder_of (some t)) [
    | none ↦ none
    | some normalized ↦ some (placeholder normalized)
  ])

  unfoldable pub impact_problem : Value → Option Problem
  unfolding text_problem
  impact_problem absent = some missing
  impact_problem (other name) = some (not_a_string name)
  impact_problem (text t) = text_problem t

  unfoldable pub evaluate_r8 : AlertRecord → Option Finding
  unfolding impact_problem
  evaluate_r8 row = elim row.schema [
    | v1 ↦ none
    | v2 ↦ elim (impact_problem row.impact) [
      | none ↦ none
      | some reason ↦ some (gap r8 (impact_gap reason))
    ]
  ]

  unfoldable pub runbook_problem : Value → Option Problem
  unfolding text_problem is_absolute_http_url
  runbook_problem absent = some missing
  runbook_problem (other name) = some (not_a_string name)
  runbook_problem (text t) = elim (text_problem t) [
    | some reason ↦ some reason
    | none ↦ if is_absolute_http_url (strip t) then none else some not_absolute_http
  ]

  unfoldable pub is_critical : AlertRecord → Bool
  unfolding normalize_field_value
  is_critical row = is_text (normalize_field_value row.severity) (codes "critical")

  unfoldable pub evaluate_r9 : AlertRecord → Option Finding
  unfolding runbook_problem is_critical
  evaluate_r9 row = elim row.schema [
    | v1 ↦ none
    | v2 ↦ elim (runbook_problem row.runbook_url) [
      | none ↦ none
      | some reason ↦ some (gap r9 (runbook_gap row.severity (is_critical row) reason))
    ]
  ]

  unfoldable pub evaluate_r10 : AlertRecord → Option Finding
  unfolding normalize_message
  evaluate_r10 row = elim row.schema [
    | v1 ↦ none
    | v2 ↦ elim (normalize_message (text_of row.impact)) [
      | none ↦ none
      | some normalized ↦
          if contains r10_technical_cause_impacts normalized
          then some (gap r10 (phrase (codes "impact") normalized))
          else none
    ]
  ]

  unfoldable pub evaluate_readiness_rules : AlertRecord → List Finding
  unfolding evaluate_r8 evaluate_r9 evaluate_r10
  evaluate_readiness_rules row =
      found (evaluate_r8 row) (found (evaluate_r9 row) (found (evaluate_r10 row) []))

  -- none: the TypeError on a row that is not v2.
  unfoldable pub is_completion_ready : AlertRecord → Option Bool
  unfolding evaluate_r8 evaluate_r9 evaluate_r10 is_critical
  is_completion_ready row = elim row.schema [
    | v1 ↦ none
    | v2 ↦ some (
        not (is_some (evaluate_r8 row))
        && not (is_some (evaluate_r10 row))
        && not (is_critical row && is_some (evaluate_r9 row)))
  ]

  -- How many of the representatives are ready; none if one of them raises.
  unfoldable pub count_ready : List AlertRecord → Option ℕ
  unfolding is_completion_ready
  count_ready [] = some 0
  count_ready (row ∷ rows) = elim (is_completion_ready row) [
    | none ↦ none
    | some ready ↦ elim (count_ready rows) [
      | none ↦ none
      | some n ↦ some ((if ready then 1 else 0) + n)
    ]
  ]

  -- Outside, the exception; inside, the `None` of a team without v2 identities.
  unfoldable pub phase2_readiness_pct : List AlertRecord → Option (Option (ℕ × ℕ))
  unfolding count_ready
  phase2_readiness_pct [] = some none
  phase2_readiness_pct (row ∷ rows) = elim (count_ready (row ∷ rows)) [
    | none ↦ none
    | some ready ↦ some (some (ready, length (row ∷ rows)))
  ]
