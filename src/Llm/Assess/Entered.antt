-- ===== src/Llm/Assess/Entered.antt =====
-- The attempts return, and what they come to is entered for each alert of their batch.
use alerts_bi.Common.{
  Text, codes, ℕ, zero, suc, ◌+◌, ◌≡◌, refl, ap, sym, ◌∙◌, none, some, Bool, true, false, List, [],
  ◌∷◌, ◌++◌, length, arith, Bool-cases, Option-cases, inl, inr, ◌⊎◌, All, is_some, all, &&-true,
  ◌==◌, text_eq, text_beq_iff,
}
use alerts_bi.Common.Result.{Result, ok, err, Result-cases}
use alerts_bi.Common.Unicode.{Unicode}
use alerts_bi.Domain.Record.{AlertRecord}
use alerts_bi.Llm.Grouping.{Batch}
use alerts_bi.Llm.Grouping.Members.{batch_members}
use alerts_bi.Llm.Response.{ResponseError, wrong_membership, Verdict, validate_response}
use alerts_bi.Llm.Response.Errors.{Stays-err, is_escape, Stays-validate_response, are_as_many}
use alerts_bi.Llm.Assess.{
  Environment, Raised, outside, replay, transport, call_raises, decode_error, loads_raises, Tried,
  succeeded, failed, BatchResult, AssessmentOutcome, AssessmentResult, Outcomes, put, outcome_at,
  mark_onto, enter_verdicts, enter_batch, new_outcome, new_row, unassessed_outcome, assess_batches,
  rejected, judge_response, try_once, answer, transport_failure, attempts_from, attempt_batch,
  attempt_row,
}
use alerts_bi.Llm.Assess.Attempts.{IsAttempted, attempt_batch-IsAttempted}

-- As many alerts as ids.
abbrev pub IsMatched : Batch → Type 0
IsMatched b = length b.alerts ≡ length b.alert_ids

module _ ⦃u : Unicode⦄ (env : Environment) where
  -- An exception that a call of the assessment raises and that is caught nowhere: where a request
  -- is built, the journal used, the client asked or a response loaded.
  pub data HasRaised (e : Text) : Type 0 where
    by_request : (batch : Batch) → env.request_error batch ≡ some e → HasRaised e
    by_journal : (id : Text) (attempt : ℕ) → env.saved id attempt ≡ err e → HasRaised e
    by_client :
        (id request : Text) (attempt : ℕ)
        → env.complete id request attempt ≡ err (call_raises e)
        → HasRaised e
    by_loads : (response : Text) → env.loads response ≡ err (loads_raises e) → HasRaised e

  -- It returns, or raises such an exception.
  abbrev pub Ends {ℓ} : {A : Type ℓ} → Result Raised A → Type ℓ
  Ends {A} m = ((a : A) × (m ≡ ok a)) ⊎ ((e : Text) × HasRaised e × (m ≡ err (outside e)))

  rejected-returns :
      (e : ResponseError) → is_escape e ≡ false → (t : Tried) × (rejected env e ≡ ok t)
  unfolding rejected is_escape
  rejected-returns wrong_membership h = absurd cc
  rejected-returns _ h = (_, refl)

  judge_response-Ends :
      (batch : Batch) (response : Text) → IsMatched batch → Ends (judge_response env batch response)
  unfolding judge_response
  judge_response-Ends batch response h = elim (Result-cases (env.loads response)) [
    | inl (decode_error, l) ↦ inl (
      failed (codes "invalid_response") (codes "response is not valid JSON"),
      rw (judge_response, l) refl,
    )
    | inl (loads_raises e, l) ↦ inr (e, by_loads response l, rw (judge_response, l) refl)
    | inr (parsed, l) ↦
        let checked = validate_response parsed batch.batch_id batch.alert_ids (some batch.alerts) in
        let stays = Stays-validate_response parsed batch.batch_id batch.alert_ids batch.alerts h in
        inl (elim (Result-cases checked) [
          | inr (vs, v) ↦ (succeeded vs, rw (judge_response, l, v) refl)
          | inl (e, v) ↦
              let told = rejected-returns e (Stays-err checked e v stays) in
              (told.0, rw (judge_response, l, v) (told.1))
        ])
  ]

  answer-raised :
      (batch : Batch) (attempt : ℕ) (e : Text)
      → answer env batch attempt ≡ err (call_raises e)
      → HasRaised e
  unfolding answer
  answer-raised batch attempt e h = elim (Result-cases (env.saved batch.batch_id attempt)) [
    | inl (e', s) ↦
        let same : e' ≡ e = ground (arith, h, s) in
        by_journal batch.batch_id attempt (s ∙ ap err same)
    | inr (none, s) ↦
        by_client batch.batch_id (env.request_text batch) attempt (ground (arith, h, s))
    | inr (some row, s) ↦ elim (Result-cases (replay row)) [
      | inl (f, r) ↦ absurd (ground (arith, h, s, r))
      | inr (t, r) ↦ absurd (ground (arith, h, s, r))
    ]
  ]

  try_once-Ends :
      (batch : Batch) (attempt : ℕ) → IsMatched batch → Ends (try_once env batch attempt)
  unfolding try_once
  try_once-Ends batch attempt h = elim (Result-cases (answer env batch attempt)) [
    | inl (transport e, a) ↦ inl (transport_failure e, rw (try_once, a) refl)
    | inl (call_raises e, a) ↦ inr (e, answer-raised batch attempt e a, rw (try_once, a) refl)
    | inr (response, a) ↦ elim (judge_response-Ends batch response h) [
      | inl (t, j) ↦ inl (t, rw (try_once, a) j)
      | inr (e, raised, j) ↦ inr (e, raised, rw (try_once, a) j)
    ]
  ]

  Tried-cases :
      (t : Tried)
      → ((vs : List Verdict) × (t ≡ succeeded vs))
        ⊎ ((status : Text) × (why : Text) × (t ≡ failed status why))
  Tried-cases (succeeded vs) = inl (vs, refl)
  Tried-cases (failed status why) = inr (status, why, refl)

  attempts_from-Ends :
      (left attempt : ℕ) (reason : Text) (batch : Batch)
      → IsMatched batch
      → Ends (attempts_from env left attempt reason batch)
  unfolding attempts_from
  attempts_from-Ends zero attempt reason batch h = inl (_, refl)
  attempts_from-Ends (suc left) attempt reason batch h = elim (try_once-Ends batch attempt h) [
    | inr (e, raised, t) ↦ inr (e, raised, rw (attempts_from, t) refl)
    | inl (tried, t) ↦ elim (Tried-cases tried) [
      | inl (vs, e) ↦ inl (
        record {
          verdicts = some vs;
          reason = [];
          attempts = attempt_row env batch attempt (succeeded vs) ∷ [];
        },
        rw (attempts_from, t, e) refl,
      )
      | inr (status, why, e) ↦
          elim (attempts_from-Ends left (attempt + 1) (status ++ codes ": " ++ why) batch h) [
            | inr (w, raised, f) ↦ inr (w, raised, rw (attempts_from, t, e, f) refl)
            | inl (rest, f) ↦ inl (
              record rest {
                attempts = attempt_row env batch attempt (failed status why) ∷ rest.attempts;
              },
              rw (attempts_from, t, e, f) refl,
            )
          ]
    ]
  ]

-- What an assessment has by a key it keeps.
unfoldable pub Extends : Outcomes → Outcomes → Type 0
Extends os os' =
    (key : Text) → is_some (outcome_at key os) ≡ true → is_some (outcome_at key os') ≡ true

pub Extends-refl : (os : Outcomes) → Extends os os
unfolding Extends
Extends-refl os key h = h

pub Extends-trans : (a b c : Outcomes) → Extends a b → Extends b c → Extends a c
unfolding Extends
Extends-trans a b c f g key h = g key (f key h)

pub Extends-at :
    (a b : Outcomes) (key : Text)
    → Extends a b
    → is_some (outcome_at key a) ≡ true
    → is_some (outcome_at key b) ≡ true
unfolding Extends
Extends-at a b key f h = f key h

-- An outcome for the alert.
unfoldable pub has_outcome : Outcomes → AlertRecord → Bool
has_outcome os alert = is_some (outcome_at alert.identity os)

-- What is put is there.
pub put-own :
    (key : Text) (o : AssessmentOutcome) (os : Outcomes)
    → is_some (outcome_at key (put key o os)) ≡ true
unfolding put outcome_at
put-own key o [] = rw ((text_beq_iff key key).1 refl) refl
put-own key o (p ∷ ps) = elim (Bool-cases (p.0 == key)) [
  | inl e ↦ rw (e, (text_beq_iff key key).1 refl) refl
  | inr e ↦ rw (e, e) (put-own key o ps)
]

-- What was there stays.
pub put-Extends : (key : Text) (o : AssessmentOutcome) (os : Outcomes) → Extends os (put key o os)
unfolding Extends put outcome_at
put-Extends key o [] k h = absurd cc
put-Extends key o (p ∷ ps) k h = elim (Bool-cases (p.0 == key)) [
  | inl e ↦ elim (Bool-cases (key == k)) [
    | inl f ↦ rw (e, f) refl
    | inr f ↦ rw (e, f) (ground (arith, h, f, (text_beq_iff p.0 key).0 e))
  ]
  | inr e ↦ elim (Bool-cases (p.0 == k)) [
    | inl f ↦ rw (e, f) refl
    | inr f ↦ rw (e, f) (put-Extends key o ps k (ground (arith, h, f)))
  ]
]

-- An alert whose identity has an outcome keeps it.
pub Extends-has_outcome :
    (os os' : Outcomes) (a : AlertRecord)
    → Extends os os'
    → is_some (outcome_at a.identity os) ≡ true
    → has_outcome os' a ≡ true
unfolding Extends has_outcome
Extends-has_outcome os os' a e h = e a.identity h

mark_onto-covers :
    (reason : Text) (os : Outcomes) (alerts : List AlertRecord)
    → Extends os (mark_onto reason os alerts)
      × (all (has_outcome (mark_onto reason os alerts)) alerts ≡ true)
unfolding mark_onto Extends has_outcome
mark_onto-covers reason os [] = (λ k h. h, refl)
mark_onto-covers reason os (a ∷ alerts) =
    let o = unassessed_outcome reason a in
    let next = put a.identity o os in
    let (extends, covers) = mark_onto-covers reason next alerts in
    (
      λ k h. extends k (unfold Extends in put-Extends a.identity o os k h),
      rw (extends a.identity (put-own a.identity o os)) covers,
    )

enter_verdicts-covers :
    (vs : List Verdict) (alerts : List AlertRecord) (result : AssessmentResult)
    → length vs ≡ length alerts
    → Extends result.outcomes (enter_verdicts vs alerts result).outcomes
      × (all (has_outcome (enter_verdicts vs alerts result).outcomes) alerts ≡ true)
unfolding enter_verdicts Extends has_outcome
enter_verdicts-covers [] [] result h = (λ k h. h, refl)
enter_verdicts-covers [] (a ∷ alerts) result h = absurd (omega (arith, h))
enter_verdicts-covers (v ∷ vs) [] result h = absurd (omega (arith, h))
enter_verdicts-covers (v ∷ vs) (a ∷ alerts) result h =
    let o = new_outcome v a in
    let next : AssessmentResult = record result {
      outcomes = put a.identity o result.outcomes;
      new_verdicts = result.new_verdicts ++ (new_row v a ∷ []);
    } in
    let (extends, covers) = enter_verdicts-covers vs alerts next (omega (arith, h)) in
    (
      λ k h. extends k (put-Extends a.identity o result.outcomes k h),
      rw (extends a.identity (put-own a.identity o result.outcomes)) covers,
    )

module _ ⦃u : Unicode⦄ where
  enter_batch-covers :
      (batch : Batch) (done : BatchResult) (result : AssessmentResult)
      → IsMatched batch
      → IsAttempted 3 1 batch done
      → Extends result.outcomes (enter_batch batch done result).outcomes
        × (all (has_outcome (enter_batch batch done result).outcomes) batch.alerts ≡ true)
  unfolding enter_batch
  enter_batch-covers batch done result m h = elim (Option-cases done.verdicts) [
    | inl e ↦ rw (enter_batch, e) (mark_onto-covers done.reason result.outcomes batch.alerts)
    | inr (vs, e) ↦
        let as_many = are_as_many vs batch.alert_ids (h.fitting vs e).0 in
        rw (enter_batch, e) (enter_verdicts-covers vs batch.alerts _ (as_many ∙ sym m))
  ]

  -- The outcomes that are there stay.
  pub Extends-all :
      (os os' : Outcomes) (alerts : List AlertRecord)
      → Extends os os'
      → all (has_outcome os) alerts ≡ true
      → all (has_outcome os') alerts ≡ true
  unfolding Extends has_outcome
  Extends-all os os' [] e h = refl
  Extends-all os os' (a ∷ alerts) e h =
      let (first, rest) = &&-true (has_outcome os a) (all (has_outcome os) alerts) h in
      rw (e a.identity first) (Extends-all os os' alerts e rest)

  all-append :
      (p : AlertRecord → Bool) (xs ys : List AlertRecord)
      → all p xs ≡ true
      → all p ys ≡ true
      → all p (xs ++ ys) ≡ true
  all-append p [] ys h k = k
  all-append p (x ∷ xs) ys h k = ground (arith, h, all-append p xs ys)

  -- The batches are gone through, and each alert of theirs has an outcome; or a call raises what
  -- is caught nowhere.
  pub assess_batches-covers :
      (env : Environment) (batches : List Batch) (result : AssessmentResult)
      → All IsMatched batches
      → ((after : AssessmentResult) × (assess_batches env batches result ≡ ok after)
          × Extends result.outcomes after.outcomes
          × (all (has_outcome after.outcomes) (batch_members batches) ≡ true))
        ⊎ ((e : Text) × HasRaised env e × (assess_batches env batches result ≡ err (outside e)))
  unfolding assess_batches Extends
  assess_batches-covers env [] result m = inl (result, refl, λ k h. h, refl)
  assess_batches-covers env (batch ∷ batches) result m =
      elim (Option-cases (env.request_error batch)) [
        | inr (e, f) ↦ inr (e, by_request batch f, rw (assess_batches, f) refl)
        | inl f ↦ elim (attempts_from-Ends env 3 1 (codes "unknown failure") batch m.0) [
          | inr (e, raised, t) ↦
              let tried : attempt_batch env batch ≡ err (outside e) = unfold attempt_batch in t in
              inr (e, raised, rw (assess_batches, f, tried) refl)
          | inl (done, t) ↦
              let tried : attempt_batch env batch ≡ ok done = unfold attempt_batch in t in
              let fits = attempt_batch-IsAttempted env batch done tried in
              let (extends, covers) = enter_batch-covers batch done result m.0 fits in
              let entered = enter_batch batch done result in
              elim (assess_batches-covers env batches entered m.1) [
                | inr (e, raised, g) ↦ inr (e, raised, rw (assess_batches, f, tried) g)
                | inl (after, e, more, others) ↦ inl (
                  after,
                  rw (assess_batches, f, tried) e,
                  λ k h. more k (extends k h),
                  all-append (has_outcome after.outcomes) batch.alerts (batch_members batches)
                      (Extends-all entered.outcomes after.outcomes batch.alerts more covers) others,
                )
              ]
        ]
      ]
