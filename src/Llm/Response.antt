-- ===== src/Llm/Response.antt =====
-- src/llm/response.py: the closed contract of a response. A refusal names its reason; its message
-- is left out. What json.loads returned is a value of Common.Json.
pub mod Contract
pub mod Verdicts
pub mod Accepted
pub mod Errors
use alerts_bi.Common.{
  Text, ℕ, codes, Option, none, some, Bool, true, false, not, ◌&&◌, ◌||◌, List, [], ◌∷◌,
  if◌then◌else◌, ltb, eqb, text_eq, ◌==◌, length, map, any, contains, find_first, ◌++◌,
}
use alerts_bi.Common.Json.{Json, string, array, object, lookup, keys, Fields, Items, items}
use alerts_bi.Common.Result.{Result, ok, err, ◌>>=◌, ◌>>◌, fold_result}
use alerts_bi.Common.Unicode.{Unicode, strip, lower}
use alerts_bi.Domain.Record.{AlertRecord, Schema, v1, v2, is_text}
use alerts_bi.Rules.Catalogs.{citable_ids}

abbrev pub assessments : List Text
assessments = codes "no_violation" ∷ codes "catalog_violation" ∷ codes "other" ∷ []

abbrev pub confidences : List Text
confidences = codes "high" ∷ codes "medium" ∷ codes "low" ∷ []

abbrev pub max_justification_length : ℕ
max_justification_length = 1000

abbrev pub top_level_keys : List Text
top_level_keys = codes "batch_id" ∷ codes "verdicts" ∷ []

abbrev pub verdict_keys : List Text
verdict_keys =
    codes "alert_id"
    ∷ codes "assessment"
    ∷ codes "principle_id"
    ∷ codes "confidence"
    ∷ codes "justification"
    ∷ []

-- LlmResponseError, and the ValueError on alerts that do not match the request.
pub data ResponseError : Type 0 where
  verdict_not_object bad_alert_id bad_assessment bad_confidence bad_principle_id : ResponseError
  empty_justification long_justification none_expected other_expected not_citable : ResponseError
  not_object other_batch verdicts_not_array missing_verdict wrong_membership : ResponseError
  unexpected_field missing_field duplicate_verdict unknown_alert not_applicable :
      Text → ResponseError

pub record Verdict : Type 0 where
  pub alert_id : Text
  pub assessment : Text
  pub principle_id : Text
  pub confidence : Text
  pub justification : Text

-- `if bad: raise LlmResponseError(...)`.
abbrev pub refuse_if : Bool → ResponseError → Result ResponseError (Unit {0})
refuse_if true e = err e
refuse_if false e = ok tt

-- The first key that is not one of those allowed is refused.
unfoldable pub only_keys : List Text → List Text → Result ResponseError (Unit {0})
only_keys allowed [] = ok tt
only_keys allowed (k ∷ ks) =
    refuse_if (not (contains allowed k)) (unexpected_field k) >> only_keys allowed ks

unfoldable pub required : Text → Fields → Result ResponseError Json
required key fields = elim (lookup key fields) [ none ↦ err (missing_field key) | some v ↦ ok v ]

-- `isinstance(value, str)`.
unfoldable pub as_text : ResponseError → Json → Result ResponseError Text
as_text e (string t) = ok t
as_text e _ = err e

-- A text that is not empty.
unfoldable pub filled_text : ResponseError → Json → Result ResponseError Text
unfolding as_text
filled_text e v = as_text e v >>= λ t. refuse_if (t == []) e >> ok t

-- One of the texts allowed.
unfoldable pub one_of : List Text → ResponseError → Json → Result ResponseError Text
unfolding as_text
one_of allowed e v = as_text e v >>= λ t. refuse_if (not (contains allowed t)) e >> ok t

module _ ⦃u : Unicode⦄ where
  unfoldable pub justification_text : Json → Result ResponseError Text
  unfolding as_text
  justification_text v = as_text empty_justification v >>= λ t.
      refuse_if (strip t == []) empty_justification
      >> refuse_if (ltb max_justification_length (length t)) long_justification
      >> ok t

  -- The pairing of assessment and principle is closed.
  unfoldable pub check_pairing : Verdict → Result ResponseError Verdict
  check_pairing v =
      refuse_if (v.assessment == codes "no_violation" && not (v.principle_id == codes "NONE"))
        none_expected
      >> refuse_if (v.assessment == codes "other" && not (v.principle_id == codes "OTHER"))
          other_expected
      >> refuse_if
          (v.assessment == codes "catalog_violation" && not (contains citable_ids v.principle_id))
          not_citable
      >> ok v

  unfoldable pub check_values : Json → Json → Json → Json → Json → Result ResponseError Verdict
  unfolding filled_text one_of justification_text check_pairing
  check_values alert_id assessment principle_id confidence justification =
      filled_text bad_alert_id alert_id >>= λ id.
      one_of assessments bad_assessment assessment >>= λ a.
      one_of confidences bad_confidence confidence >>= λ c.
      as_text bad_principle_id principle_id >>= λ p. justification_text justification >>= λ j.
      check_pairing (record {
        alert_id = id;
        assessment = a;
        principle_id = p;
        confidence = c;
        justification = j;
      })

  unfoldable pub validate_verdict : Json → Result ResponseError Verdict
  unfolding only_keys required check_values
  validate_verdict (object fields) =
      only_keys verdict_keys (keys fields)
      >> required (codes "alert_id") fields >>= λ alert_id.
          required (codes "assessment") fields >>= λ assessment.
          required (codes "principle_id") fields >>= λ principle_id.
          required (codes "confidence") fields >>= λ confidence.
          required (codes "justification") fields >>= λ justification.
          check_values alert_id assessment principle_id confidence justification
  validate_verdict _ = err verdict_not_object

-- `by_alert_id`: the verdicts in the order they came, no two of one alert.
unfoldable pub verdict_of : Text → List Verdict → Option Verdict
verdict_of id vs = find_first (λ (v : Verdict). v.alert_id == id) vs

unfoldable pub add_verdict : List Verdict → Verdict → Result ResponseError (List Verdict)
add_verdict vs v =
    refuse_if (any (λ (w : Verdict). w.alert_id == v.alert_id) vs) (duplicate_verdict v.alert_id)
    >> ok (vs ++ (v ∷ []))

-- A verdict of an alert that was not asked for.
unfoldable pub only_alerts : List Text → List Verdict → Result ResponseError (Unit {0})
only_alerts alert_ids [] = ok tt
only_alerts alert_ids (v ∷ vs) =
    refuse_if (not (contains alert_ids v.alert_id)) (unknown_alert v.alert_id)
    >> only_alerts alert_ids vs

-- `[by_alert_id[alert_id] for alert_id in alert_ids]`, an id without a verdict refused. The loop
-- over the set of the ids, in no particular order, is the one that refuses.
unfoldable pub in_order : List Verdict → List Text → Result ResponseError (List Verdict)
unfolding verdict_of
in_order vs [] = ok []
in_order vs (id ∷ ids) = elim (verdict_of id vs) [
  | none ↦ err missing_verdict
  | some v ↦ in_order vs ids >>= λ rest. ok (v ∷ rest)
]

abbrev pub is_v1 : Schema → Bool
is_v1 v1 = true
is_v1 v2 = false

abbrev pub v2_principles : List Text
v2_principles = codes "P7" ∷ codes "P8" ∷ codes "P9" ∷ codes "R8" ∷ codes "R9" ∷ codes "R10" ∷ []

-- `parsed["verdicts"]` of a response.
unfoldable pub verdict_list : Json → Result ResponseError (List Json)
verdict_list (array raws) = ok (items raws)
verdict_list _ = err verdicts_not_array

-- A value that is no text is unlike every id.
unfoldable pub is_string : Text → Json → Bool
is_string t (string s) = s == t
is_string t _ = false

module _ ⦃u : Unicode⦄ where
  unfoldable pub gather_verdicts : List Verdict → List Json → Result ResponseError (List Verdict)
  unfolding validate_verdict add_verdict
  gather_verdicts vs [] = ok vs
  gather_verdicts vs (raw ∷ raws) =
      validate_verdict raw >>= λ v. add_verdict vs v >>= λ vs. gather_verdicts vs raws

  -- `(alert.provider or "").strip().lower() != "grafana"`.
  unfoldable pub is_grafana : Option Text → Bool
  is_grafana none = false
  is_grafana (some provider) = lower (strip provider) == codes "grafana"

  unfoldable pub is_applicable : Text → AlertRecord → Bool
  unfolding is_grafana
  is_applicable principle alert = not (
      (contains v2_principles principle && is_v1 alert.schema)
      || (principle == codes "P7" && not (is_text alert.severity (codes "critical")))
      || (principle == codes "R7" && not (is_v1 alert.schema))
      || (principle == codes "R4" && not (is_grafana alert.provider)))

  unfoldable pub validate_applicability : Verdict → AlertRecord → Result ResponseError (Unit {0})
  unfolding is_applicable
  validate_applicability verdict alert =
      refuse_if (not (is_applicable verdict.principle_id alert)) (not_applicable verdict.alert_id)

  -- The loop over `zip(ordered, alerts, strict=True)`.
  unfoldable pub check_applicability :
      List Verdict → List AlertRecord → Result ResponseError (Unit {0})
  unfolding validate_applicability
  check_applicability [] [] = ok tt
  check_applicability (v ∷ vs) (a ∷ alerts) =
      validate_applicability v a >> check_applicability vs alerts
  check_applicability _ _ = err wrong_membership

  -- The check of the context, where there is one.
  unfoldable pub check_context :
      List Text → List Verdict → Option (List AlertRecord) → Result ResponseError (List Verdict)
  unfolding check_applicability
  check_context alert_ids vs none = ok vs
  check_context alert_ids vs (some alerts) =
      refuse_if (not (eqb (length alerts) (length alert_ids))) wrong_membership
      >> check_applicability vs alerts
      >> ok vs

  unfoldable pub validate_verdicts :
      List Json → List Text → Option (List AlertRecord) → Result ResponseError (List Verdict)
  unfolding gather_verdicts only_alerts in_order check_context
  validate_verdicts raws alert_ids alerts = gather_verdicts [] raws >>= λ by_alert_id.
      only_alerts alert_ids by_alert_id
      >> in_order by_alert_id alert_ids >>= λ ordered. check_context alert_ids ordered alerts

  unfoldable pub validate_response :
      Json → Text → List Text → Option (List AlertRecord) → Result ResponseError (List Verdict)
  unfolding only_keys required is_string verdict_list validate_verdicts
  validate_response (object fields) batch_id alert_ids alerts =
      only_keys top_level_keys (keys fields)
      >> required (codes "batch_id") fields >>= λ answered.
          required (codes "verdicts") fields >>= λ verdicts.
          refuse_if (not (is_string batch_id answered)) other_batch
          >> verdict_list verdicts >>= λ raws. validate_verdicts raws alert_ids alerts
  validate_response _ batch_id alert_ids alerts = err not_object

-- The state of an alert in a run.
pub data State : Type 0 where
  llm_flagged needs_review assessed_good unassessed : State

unfoldable pub state_for_verdict : Text → Text → State
state_for_verdict assessment confidence =
    if assessment == codes "no_violation"
    then assessed_good
    else if assessment == codes "other"
    then needs_review
    else if confidence == codes "high"
    then llm_flagged
    else needs_review
