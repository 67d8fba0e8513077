-- ===== src/Llm/Assess/Attempts.antt =====
-- The attempts of a batch: three at most, the last one alone successful, and verdicts that fit.
use alerts_bi.Common.{
  Text, ℕ, zero, suc, codes, ◌+◌, ◌≤◌, ◌≡◌, ◌≢◌, refl, ap, ◌∙◌, subst, none, some, Bool, true,
  false, List, [], ◌∷◌, ◌++◌, map, length, arith, inl, inr, All, is_some,
}
use alerts_bi.Common.Result.{Result, ok, Result-cases}
use alerts_bi.Common.Unicode.{Unicode}
use alerts_bi.Llm.Grouping.{Batch}
use alerts_bi.Llm.Response.{ResponseError, wrong_membership, Verdict, validate_response}
use alerts_bi.Llm.Response.Contract.{IsVerdict}
use alerts_bi.Llm.Response.Verdicts.{are_applicable, validate_response-ok}
use alerts_bi.Llm.Assess.{
  Environment, Raised, transport, call_raises, decode_error, loads_raises, succeeded, failed,
  BatchAttempt, BatchResult, rejected, judge_response, transport_failure, try_once, answer,
  attempt_row, attempts_from, attempt_batch,
}

-- Verdicts that answer a batch.
abbrev pub Fits : ⦃u : Unicode⦄ → Batch → List Verdict → Type 0
Fits batch vs =
    (map (λ (v : Verdict). v.alert_id) vs ≡ batch.alert_ids)
    × All IsVerdict vs
    × (are_applicable vs batch.alerts ≡ true)

abbrev pub HasFailed : BatchAttempt → Type 0
HasFailed a = is_some a.failure_reason ≡ true

-- All attempts failed, or all but the last one.
abbrev pub HasEnded : Bool → List BatchAttempt → Type 0
HasEnded false tried = All HasFailed tried
HasEnded true tried =
    (front : List BatchAttempt) × (last : BatchAttempt) × (tried ≡ front ++ (last ∷ []))
    × All HasFailed front
    × (last.failure_reason ≡ none)

abbrev pub IsNumbered : ℕ → List BatchAttempt → Type 0
IsNumbered n [] = Unit
IsNumbered n (a ∷ tried) = (a.attempt_number ≡ n) × IsNumbered (n + 1) tried

-- What `left` attempts from the number `attempt` on come to.
pub record IsAttempted ⦃u : Unicode⦄ (left attempt : ℕ) (batch : Batch) (r : BatchResult)
    : Type 0 where
  pub bounded : length r.attempts ≤ left
  pub exhausted : r.verdicts ≡ none → length r.attempts ≡ left
  pub fitting : (vs : List Verdict) → r.verdicts ≡ some vs → Fits batch vs
  pub ended : HasEnded (is_some r.verdicts) r.attempts
  pub numbered : IsNumbered attempt r.attempts

ok-injective : {r s : BatchResult} → Path (Result Raised BatchResult) (ok r) (ok s) → r ≡ s
ok-injective h = ground (arith, h)

HasEnded-cons :
    (success : Bool) (a : BatchAttempt) (tried : List BatchAttempt)
    → HasFailed a
    → HasEnded success tried
    → HasEnded success (a ∷ tried)
HasEnded-cons false a tried f h = (f, h)
HasEnded-cons true a tried f (front, last, e, all, n) =
    (a ∷ front, last, ap (λ l. a ∷ l) e, (f, all), n)

module _ ⦃u : Unicode⦄ (env : Environment) where
  rejected-fails : (e : ResponseError) (vs : List Verdict) → rejected env e ≢ ok (succeeded vs)
  unfolding rejected
  rejected-fails wrong_membership vs h = cc
  rejected-fails _ vs h = cc

  try_once-Fits :
      (batch : Batch) (attempt : ℕ) (vs : List Verdict)
      → try_once env batch attempt ≡ ok (succeeded vs)
      → Fits batch vs
  unfolding try_once judge_response transport_failure
  try_once-Fits batch attempt vs h = elim (Result-cases (answer env batch attempt)) [
    | inl (transport e, a) ↦ absurd (ground (arith, h, a))
    | inl (call_raises e, a) ↦ absurd (ground (arith, h, a))
    | inr (response, a) ↦ elim (Result-cases (env.loads response)) [
      | inl (decode_error, l) ↦ absurd (ground (arith, h, a, l))
      | inl (loads_raises e, l) ↦ absurd (ground (arith, h, a, l))
      | inr (parsed, l) ↦
          elim (Result-cases
            (validate_response parsed batch.batch_id batch.alert_ids (some batch.alerts))) [
              | inl (e, v) ↦ absurd (rejected-fails e vs (ground (arith, h, a, l, v)))
              | inr (ws, v) ↦
                  let same : ws ≡ vs = ground (arith, h, a, l, v) in
                  let answered =
                    validate_response-ok parsed batch.batch_id batch.alert_ids (some batch.alerts)
                      vs (v ∙ ap ok same) in
                  (answered.1, answered.2, answered.3)
            ]
    ]
  ]

  success :
      (left attempt : ℕ) (batch : Batch) (vs : List Verdict)
      → Fits batch vs
      → IsAttempted (suc left) attempt batch (record {
        verdicts = some vs;
        reason = [];
        attempts = attempt_row env batch attempt (succeeded vs) ∷ [];
      })
  success left attempt batch vs fits = record {
    bounded = omega arith;
    exhausted = λ n. absurd cc;
    fitting = λ ws e. subst (Fits batch) (ground (arith, e)) fits;
    ended = ([], attempt_row env batch attempt (succeeded vs), refl, tt, refl);
    numbered = (refl, tt);
  }

  failure :
      (left attempt : ℕ) (batch : Batch) (status why : Text) (rest : BatchResult)
      → IsAttempted left (attempt + 1) batch rest
      → IsAttempted (suc left) attempt batch (record rest {
        attempts = attempt_row env batch attempt (failed status why) ∷ rest.attempts;
      })
  failure left attempt batch status why rest h = record {
    bounded = omega (arith, h.bounded);
    exhausted = λ n. omega (arith, h.exhausted n);
    fitting = h.fitting;
    ended = HasEnded-cons (is_some rest.verdicts) _ rest.attempts refl h.ended;
    numbered = (refl, h.numbered);
  }

  attempts_from-IsAttempted :
      (left attempt : ℕ) (reason : Text) (batch : Batch) (r : BatchResult)
      → attempts_from env left attempt reason batch ≡ ok r
      → IsAttempted left attempt batch r
  unfolding attempts_from
  attempts_from-IsAttempted zero attempt reason batch r h =
      subst (IsAttempted zero attempt batch) (ok-injective h) (record {
        bounded = omega arith;
        exhausted = λ n. refl;
        fitting = λ vs n. absurd cc;
        ended = tt;
        numbered = tt;
      })
  attempts_from-IsAttempted (suc left) attempt reason batch r h =
      elim (Result-cases (try_once env batch attempt)) [
        | inl (e, t) ↦ absurd (ground (arith, h, t))
        | inr (succeeded vs, t) ↦
            subst (IsAttempted (suc left) attempt batch) (ground (arith, h, t))
              (success left attempt batch vs (try_once-Fits batch attempt vs t))
        | inr (failed status why, t) ↦
            elim (Result-cases
              (attempts_from env left (attempt + 1) (status ++ codes ": " ++ why) batch)) [
                | inl (e, f) ↦ absurd (ground (arith, h, t, f))
                | inr (rest, f) ↦
                    subst (IsAttempted (suc left) attempt batch) (ground (arith, h, t, f)) (
                      failure left attempt batch status why rest
                        (attempts_from-IsAttempted left (attempt + 1) _ batch rest f))
              ]
      ]

  -- A batch gets three attempts at most, numbered from 1: all of them fail, and then there are
  -- three, or all but the last one, and then its verdicts are one per alert of the batch, in their
  -- order, each within the contract and applicable to its alert.
  pub attempt_batch-IsAttempted :
      (batch : Batch) (r : BatchResult) → attempt_batch env batch ≡ ok r → IsAttempted 3 1 batch r
  unfolding attempt_batch
  attempt_batch-IsAttempted batch r h =
      attempts_from-IsAttempted 3 1 (codes "unknown failure") batch r h
