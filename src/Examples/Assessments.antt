-- ===== src/Examples/Assessments.antt =====
-- Responses of the model, the assessment of two alerts, identities and encodings.
use mathlib.Core.List.{Permᴰ}
use alerts_bi.Common.{
  ◌⊎◌, Text, codes, ◌≡◌, refl, none, some, true, false, List, [], ◌∷◌, map, all, All, ◌↔◌, arith,
  text_eq, eqb, if◌then◌else◌,
}
use alerts_bi.Common.Json.{
  Items, items, lookup, array, Json, Fields, null, number, string, object, field, no_fields, lookup,
}
use alerts_bi.Common.Result.{ok, err}
use alerts_bi.Common.Unicode.{ascii}
use alerts_bi.Domain.Record.{AlertRecord}
use alerts_bi.Domain.Identity.{identity_of, split_identity, split_identity-identity_of}
use alerts_bi.Hashing.{canonical_encode}
use alerts_bi.Hashing.Sorted.{sort_keys}
use alerts_bi.Hashing.Injective.{canonical_encode-injective}
use alerts_bi.Examples.Records.{firing_row}
use alerts_bi.Llm.Grouping.{Batch, Mapping, application}
use alerts_bi.Llm.Response.{Verdict, validate_response}
use alerts_bi.Llm.Response.Contract.{IsVerdict}
use alerts_bi.Llm.Response.Verdicts.{HasContext, AreAnswers, validate_response-ok}
use alerts_bi.Llm.Response.Accepted.{response_of, IsFilled, validate_response-response_of}
use alerts_bi.Llm.Assess.{
  Environment, transport, outside, BatchResult, AssessmentResult, attempt_batch, assess_alerts,
}
use alerts_bi.Llm.Assess.Attempts.{IsAttempted, attempt_batch-IsAttempted}
use alerts_bi.Llm.Assess.Entered.{has_outcome, HasRaised}
use alerts_bi.Llm.Assess.Coverage.{assess_alerts-covers}

split_identity-identity_of_example :
    split_identity (identity_of (codes "pay:1") (codes "cpu|2"))
    ≡ some (codes "pay:1", codes "cpu|2")
split_identity-identity_of_example = split_identity-identity_of (codes "pay:1") (codes "cpu|2")

abbrev ahead : Json
ahead = object (field (codes "a") null (field (codes "b") (number (codes "1")) no_fields))

abbrev behind : Json
behind = object (field (codes "b") (number (codes "1")) (field (codes "a") null no_fields))

canonical_encode-injective_example :
    (canonical_encode ahead ≡ canonical_encode behind) ↔ (sort_keys ahead ≡ sort_keys behind)
canonical_encode-injective_example = canonical_encode-injective ahead behind

abbrev good : Verdict
good = record {
  alert_id = codes "x";
  assessment = codes "no_violation";
  principle_id = codes "NONE";
  confidence = codes "high";
  justification = codes "clear";
}

abbrev bad : Verdict
bad = record {
  alert_id = codes "y";
  assessment = codes "catalog_violation";
  principle_id = codes "P1";
  confidence = codes "low";
  justification = codes "says nothing";
}

good-IsFilled : IsFilled ⦃u = ascii⦄ good
good-IsFilled = (
  refl,
  refl,
  refl,
  unfold IsVerdict in
      (refl, refl, omega arith, λ e. refl, λ e. absurd cc, λ e. absurd cc, refl, refl),
)

bad-IsFilled : IsFilled ⦃u = ascii⦄ bad
bad-IsFilled = (
  refl,
  refl,
  refl,
  unfold IsVerdict in
      (refl, refl, omega arith, λ e. absurd cc, λ e. absurd cc, λ e. refl, refl, refl),
)

validate_response-response_of_example :
    validate_response ⦃u = ascii⦄
      (response_of (codes "batch") (bad ∷ good ∷ []))
      (codes "batch")
      (map (λ (v : Verdict). v.alert_id) (good ∷ bad ∷ []))
      none
    ≡ ok (good ∷ bad ∷ [])
validate_response-response_of_example =
    validate_response-response_of ⦃u = ascii⦄ (codes "batch") (bad ∷ good ∷ []) (good ∷ bad ∷ [])
      (bad-IsFilled, (good-IsFilled, tt)) ((refl, tt), (tt, tt)) (Permᴰ.swap refl refl)

abbrev alerts : List AlertRecord
alerts = firing_row ∷ firing_row ∷ []

validate_response-ok_example :
    ((fields : Fields) × (raws : Items) × (response_of (codes "batch") (bad ∷ good ∷ [])
        ≡ object fields)
      × (lookup (codes "batch_id") fields ≡ some (string (codes "batch")))
      × (lookup (codes "verdicts") fields ≡ some (array raws))
      × AreAnswers ⦃u = ascii⦄ (codes "x" ∷ codes "y" ∷ []) (items raws))
    × (map (λ (v : Verdict). v.alert_id) (good ∷ bad ∷ []) ≡ codes "x" ∷ codes "y" ∷ [])
    × All (IsVerdict ⦃u = ascii⦄) (good ∷ bad ∷ [])
    × HasContext ⦃u = ascii⦄ (some alerts) (good ∷ bad ∷ [])
validate_response-ok_example =
    validate_response-ok ⦃u = ascii⦄ (response_of (codes "batch") (bad ∷ good ∷ [])) (codes "batch")
      (codes "x" ∷ codes "y" ∷ []) (some alerts) (good ∷ bad ∷ []) is_accepted
  where
    is_accepted :
        validate_response ⦃u = ascii⦄
          (response_of (codes "batch") (bad ∷ good ∷ []))
          (codes "batch")
          (codes "x" ∷ codes "y" ∷ [])
          (some alerts)
        ≡ ok (good ∷ bad ∷ [])
    is_accepted = unfold validate_response in refl

abbrev batch : Batch
batch = record {
  batch_id = codes "batch";
  group = record { type = application; value = codes "pay" };
  partition_index = 0;
  partition_count = 1;
  alerts = alerts;
  alert_ids = codes "x" ∷ codes "y" ∷ [];
}

-- The first attempt times out, and the second one answers.
abbrev environment : Environment
environment = record {
  complete = λ id request attempt.
      if eqb attempt 1
      then err (transport (record { kind = codes "timeout"; message = codes "no answer" }))
      else ok (codes "answer");
  saved = λ id attempt. ok none;
  loads = λ t. ok (response_of (codes "batch") (bad ∷ good ∷ []));
  request_error = λ b. none;
  request_text = λ b. codes "request";
  error_text = λ e. codes "refused";
}

abbrev tried : BatchResult
tried = record {
  verdicts = some (good ∷ bad ∷ []);
  reason = [];
  attempts =
      record {
        batch_id = codes "batch";
        attempt_number = 1;
        alert_count = 2;
        status = codes "timeout";
        failure_reason = some (codes "no answer");
      }
      ∷ record {
        batch_id = codes "batch";
        attempt_number = 2;
        alert_count = 2;
        status = codes "succeeded";
        failure_reason = none;
      }
      ∷ [];
}

attempt_batch-IsAttempted_example : IsAttempted ⦃u = ascii⦄ 3 1 batch tried
attempt_batch-IsAttempted_example =
    attempt_batch-IsAttempted ⦃u = ascii⦄ environment batch tried returns
  where
    returns : attempt_batch ⦃u = ascii⦄ environment batch ≡ ok tried
    returns = unfold attempt_batch in unfold validate_response in refl

abbrev hash : Mapping → Text
hash m = []

assess_alerts-covers_example :
    ((result : AssessmentResult) × (assess_alerts ⦃u = ascii⦄ environment hash [] [] [] alerts none
          (λ key. none)
          false
        ≡ ok result)
      × (all (has_outcome result.outcomes) alerts ≡ true))
    ⊎ ((e : Text) × HasRaised ⦃u = ascii⦄ environment e
        × (assess_alerts ⦃u = ascii⦄ environment hash [] [] [] alerts none (λ key. none) false
            ≡ err (outside e)))
assess_alerts-covers_example =
    assess_alerts-covers ⦃u = ascii⦄ environment hash [] [] [] alerts none (λ key. none) false
