-- ===== src/Llm/Assess.antt =====
-- src/llm/assess.py: at most three attempts a batch, stored verdicts reused, and an outcome for each
-- alert. The client, json.loads, the serialized request of a batch and the texts of exceptions are
-- arguments, with the exceptions that they raise; so is what the journal saved of an earlier process's
-- attempts. What the journal writes, metadata, durations and times are left out.
pub mod Attempts
pub mod Entered
pub mod Coverage
use alerts_bi.Common.{
  Text, ℕ, zero, suc, codes, ◌+◌, ◌++◌, Option, none, some, Bool, true, false, List, [], ◌∷◌, map,
  take, if◌then◌else◌, contains, ◌==◌, text_eq, length,
}
use alerts_bi.Common.Json.{Json}
use alerts_bi.Common.Result.{Result, ok, err}
use alerts_bi.Common.Unicode.{Unicode}
use alerts_bi.Domain.Identity.{verdict_key}
use alerts_bi.Domain.Record.{AlertRecord, Schema}
use alerts_bi.Llm.Grouping.{Batch, Mapping, build_batches, reverse_for_evaluation}
use alerts_bi.Llm.Response.{
  ResponseError, wrong_membership, Verdict, State, unassessed, validate_response, state_for_verdict,
}

abbrev pub max_attempts : ℕ
max_attempts = 3

-- LlmTransportError, its message redacted.
pub record TransportError : Type 0 where
  pub kind : Text
  pub message : Text

-- A row of the journal: an attempt of an earlier process.
pub record Saved : Type 0 where
  pub status : Text
  pub failure_reason : Option Text
  pub response_text : Text

-- What a call of the client raises, or json.loads: JSONDecodeError, and other exceptions, as a
-- ValueError of a number with too many digits or a RecursionError of deep nesting.
pub data CallError : Type 0 where
  transport : TransportError → CallError
  call_raises : Text → CallError

pub data LoadsError : Type 0 where
  decode_error : LoadsError
  loads_raises : Text → LoadsError

-- What escapes from the assessment: a response's alerts that do not match the request, or what the
-- calls raise that is caught nowhere.
pub data Raised : Type 0 where
  mismatch : Raised
  outside : Text → Raised

-- What the assessment calls. `complete` is given the id of the batch, the request's text and the
-- number of the attempt, and so is `saved`, but for the text: it reads the journal and the metadata
-- that it saved, and its exception stands for one of any of the journal's statements on the attempt.
-- `request_error` is what building a batch's request raises, assert_lossless included.
pub record Environment : Type 0 where
  pub complete : Text → Text → ℕ → Result CallError Text
  pub saved : Text → ℕ → Result Text (Option Saved)
  pub loads : Text → Result LoadsError Json
  pub request_error : Batch → Option Text
  pub request_text : Batch → Text
  pub error_text : ResponseError → Text

abbrev pub transport_kinds : List Text
transport_kinds =
    codes "timeout"
    ∷ codes "refusal"
    ∷ codes "incomplete"
    ∷ codes "empty"
    ∷ codes "interrupted"
    ∷ codes "invalid_response"
    ∷ codes "transport_error"
    ∷ []

-- A row of `batch_attempts`, as far as it is modelled.
pub record BatchAttempt : Type 0 where
  pub batch_id : Text
  pub attempt_number : ℕ
  pub alert_count : ℕ
  pub status : Text
  pub failure_reason : Option Text

-- What an attempt comes to: its verdicts, or the status and the reason of its failure.
pub data Tried : Type 0 where
  succeeded : List Verdict → Tried
  failed : Text → Text → Tried

unfoldable pub transport_failure : TransportError → Tried
transport_failure e =
    failed (if contains transport_kinds e.kind then e.kind else codes "transport_error") e.message

-- A saved attempt's response, or what it raises.
unfoldable pub replay : Saved → Result TransportError Text
replay s =
    if s.status == codes "started"
    then err (record {
      kind = codes "interrupted";
      message = codes "previous process ended without a committed response; remote outcome unknown";
    })
    else if s.status == codes "succeeded"
    then ok s.response_text
    else err (record {
      kind = s.status;
      message = elim s.failure_reason [
        | none ↦ codes "stored failed attempt"
        | some t ↦ if t == [] then codes "stored failed attempt" else t
      ];
    })

-- What a batch comes to: its verdicts or none, the reason of the failure, and its attempts.
pub record BatchResult : Type 0 where
  pub verdicts : Option (List Verdict)
  pub reason : Text
  pub attempts : List BatchAttempt

module _ ⦃u : Unicode⦄ (env : Environment) where
  -- A response that breaks the contract fails the attempt. Alerts that do not match the request are
  -- no failure of the model: that exception escapes.
  unfoldable pub rejected : ResponseError → Result Raised Tried
  rejected wrong_membership = err mismatch
  rejected e = ok (failed (codes "invalid_response") (env.error_text e))

  unfoldable pub judge_response : Batch → Text → Result Raised Tried
  unfolding rejected
  judge_response batch response = elim (env.loads response) [
    | err decode_error ↦ ok (failed (codes "invalid_response") (codes "response is not valid JSON"))
    | err (loads_raises e) ↦ err (outside e)
    | ok parsed ↦
        elim (validate_response parsed batch.batch_id batch.alert_ids (some batch.alerts)) [
          | ok vs ↦ ok (succeeded vs)
          | err e ↦ rejected e
        ]
  ]

  unfoldable pub answer : Batch → ℕ → Result CallError Text
  unfolding replay
  answer batch attempt = elim (env.saved batch.batch_id attempt) [
    | err e ↦ err (call_raises e)
    | ok (some s) ↦ elim (replay s) [ err e ↦ err (transport e) | ok t ↦ ok t ]
    | ok none ↦ env.complete batch.batch_id (env.request_text batch) attempt
  ]

  unfoldable pub try_once : Batch → ℕ → Result Raised Tried
  unfolding answer judge_response transport_failure
  try_once batch attempt = elim (answer batch attempt) [
    | err (transport e) ↦ ok (transport_failure e)
    | err (call_raises e) ↦ err (outside e)
    | ok response ↦ judge_response batch response
  ]

  abbrev pub attempt_row : Batch → ℕ → Tried → BatchAttempt
  attempt_row batch attempt (succeeded vs) = record {
    batch_id = batch.batch_id;
    attempt_number = attempt;
    alert_count = length batch.alerts;
    status = codes "succeeded";
    failure_reason = none;
  }
  attempt_row batch attempt (failed status reason) = record {
    batch_id = batch.batch_id;
    attempt_number = attempt;
    alert_count = length batch.alerts;
    status = status;
    failure_reason = some (take 1000 reason);
  }

  -- The attempts from `attempt` on, `left` of them, behind a failure with a reason.
  unfoldable pub attempts_from : ℕ → ℕ → Text → Batch → Result Raised BatchResult
  unfolding try_once
  attempts_from zero attempt reason batch = ok (record {
    verdicts = none;
    reason = take 500 (codes "batch exhausted 3 attempts - " ++ reason);
    attempts = [];
  })
  attempts_from (suc left) attempt reason batch = elim (try_once batch attempt) [
    | err e ↦ err e
    | ok (succeeded vs) ↦ ok (record {
      verdicts = some vs;
      reason = [];
      attempts = attempt_row batch attempt (succeeded vs) ∷ [];
    })
    | ok (failed status why) ↦
        elim (attempts_from left (attempt + 1) (status ++ codes ": " ++ why) batch) [
          | err e ↦ err e
          | ok rest ↦ ok (record rest {
            attempts = attempt_row batch attempt (failed status why) ∷ rest.attempts;
          })
        ]
  ]

  unfoldable pub attempt_batch : Batch → Result Raised BatchResult
  unfolding attempts_from
  attempt_batch batch = attempts_from max_attempts 1 (codes "unknown failure") batch

pub record AssessmentOutcome : Type 0 where
  pub state : State
  pub principle_id : Option Text
  pub confidence : Option Text
  pub justification : Option Text
  pub unassessed_reason : Option Text
  pub reused : Bool
  pub alert : AlertRecord

-- A durable verdict of an earlier run.
pub record StoredVerdict : Type 0 where
  pub assessment : Text
  pub principle_id : Text
  pub confidence : Text
  pub justification : Text

-- A row for the verdicts, as far as it is modelled.
pub record NewVerdict : Type 0 where
  pub application : Text
  pub key_field : Text
  pub alert_schema : Schema
  pub verdict : Verdict
  pub doc_hash : Text

-- A dict from identities to outcomes, in the order the keys were put in.
abbrev pub Outcomes : Type 0
Outcomes = List (Text × AssessmentOutcome)

unfoldable pub put : Text → AssessmentOutcome → Outcomes → Outcomes
put key o [] = (key, o) ∷ []
put key o (p ∷ ps) = let rest = put key o ps in if p.0 == key then (key, o) ∷ ps else p ∷ rest

unfoldable pub outcome_at : Text → Outcomes → Option AssessmentOutcome
outcome_at key [] = none
outcome_at key (p ∷ ps) = let rest = outcome_at key ps in if p.0 == key then some p.1 else rest

pub record AssessmentResult : Type 0 where
  pub outcomes : Outcomes
  pub batch_attempts : List BatchAttempt
  pub new_verdicts : List NewVerdict
  pub requested_batches : ℕ
  pub reused_verdicts : ℕ

abbrev pub reused_outcome : StoredVerdict → AlertRecord → AssessmentOutcome
unfolding state_for_verdict
reused_outcome v alert = record {
  state = state_for_verdict v.assessment v.confidence;
  principle_id = some v.principle_id;
  confidence = some v.confidence;
  justification = some v.justification;
  unassessed_reason = none;
  reused = true;
  alert = alert;
}

abbrev pub new_outcome : Verdict → AlertRecord → AssessmentOutcome
unfolding state_for_verdict
new_outcome v alert = record {
  state = state_for_verdict v.assessment v.confidence;
  principle_id = some v.principle_id;
  confidence = some v.confidence;
  justification = some v.justification;
  unassessed_reason = none;
  reused = false;
  alert = alert;
}

abbrev pub unassessed_outcome : Text → AlertRecord → AssessmentOutcome
unassessed_outcome reason alert = record {
  state = unassessed;
  principle_id = none;
  confidence = none;
  justification = none;
  unassessed_reason = some reason;
  reused = false;
  alert = alert;
}

abbrev pub new_row : Verdict → AlertRecord → NewVerdict
new_row v alert = record {
  application = alert.application;
  key_field = alert.key_field;
  alert_schema = alert.schema;
  verdict = v;
  doc_hash = alert.doc_hash;
}

unfoldable pub mark_onto : Text → Outcomes → List AlertRecord → Outcomes
unfolding put
mark_onto reason os [] = os
mark_onto reason os (alert ∷ alerts) =
    mark_onto reason (put alert.identity (unassessed_outcome reason alert) os) alerts

unfoldable pub mark_all_unassessed : List AlertRecord → Text → Outcomes
unfolding mark_onto
mark_all_unassessed alerts reason = mark_onto reason [] alerts

-- The loop over `enumerate(verdicts)`; a verdict has its alert, as validate_response saw to.
unfoldable pub enter_verdicts :
    List Verdict → List AlertRecord → AssessmentResult → AssessmentResult
unfolding put
enter_verdicts (v ∷ vs) (alert ∷ alerts) result = enter_verdicts vs alerts (record result {
  outcomes = put alert.identity (new_outcome v alert) result.outcomes;
  new_verdicts = result.new_verdicts ++ (new_row v alert ∷ []);
})
enter_verdicts _ _ result = result

unfoldable pub enter_batch : Batch → BatchResult → AssessmentResult → AssessmentResult
unfolding enter_verdicts mark_onto
enter_batch batch done result =
    let tried = record result { batch_attempts = result.batch_attempts ++ done.attempts } in
    elim done.verdicts [
      | some vs ↦ enter_verdicts vs batch.alerts tried
      | none ↦ record tried { outcomes = mark_onto done.reason tried.outcomes batch.alerts }
    ]

-- Stored verdicts are entered; what is left is requested.
unfoldable pub reuse_stored :
    (Text → Option StoredVerdict)
    → List AlertRecord
    → AssessmentResult
    → AssessmentResult × List AlertRecord
unfolding put verdict_key
reuse_stored existing [] result = (result, [])
reuse_stored existing (alert ∷ alerts) result =
    elim (existing (verdict_key alert.application alert.key_field)) [
      | none ↦ let rest = reuse_stored existing alerts result in (rest.0, alert ∷ rest.1)
      | some v ↦ reuse_stored existing alerts (record result {
        outcomes = put alert.identity (reused_outcome v alert) result.outcomes;
        reused_verdicts = result.reused_verdicts + 1;
      })
    ]

module _ ⦃u : Unicode⦄ (sha256_of : Mapping → Text)
    (run_id prompt_version model_version : Text) where
  unfoldable pub requested : List AlertRecord → Option ℕ → Bool → List Batch
  unfolding build_batches reverse_for_evaluation
  requested alerts limit reverse_order =
      let batches = build_batches sha256_of run_id prompt_version model_version alerts limit in
      if reverse_order
      then map (reverse_for_evaluation sha256_of run_id prompt_version model_version) batches
      else batches

module _ ⦃u : Unicode⦄ (env : Environment) where
  unfoldable pub assess_batches : List Batch → AssessmentResult → Result Raised AssessmentResult
  unfolding attempt_batch enter_batch
  assess_batches [] result = ok result
  assess_batches (batch ∷ batches) result = elim (env.request_error batch) [
    | some e ↦ err (outside e)
    | none ↦ elim (attempt_batch env batch) [
      | err e ↦ err e
      | ok done ↦ assess_batches batches (enter_batch batch done result)
    ]
  ]

  module _ (sha256_of : Mapping → Text) (run_id prompt_version model_version : Text) where
    unfoldable pub assess_alerts :
        List AlertRecord
        → Option ℕ
        → (Text → Option StoredVerdict)
        → Bool
        → Result Raised AssessmentResult
    unfolding reuse_stored requested assess_batches
    assess_alerts alerts limit existing reverse_order =
        let started = reuse_stored existing alerts (record {
          outcomes = [];
          batch_attempts = [];
          new_verdicts = [];
          requested_batches = 0;
          reused_verdicts = 0;
        }) in
        let batches =
          requested sha256_of run_id prompt_version model_version started.1 limit reverse_order in
        assess_batches batches (record started.0 { requested_batches = length batches })
