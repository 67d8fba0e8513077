-- ===== src/Llm/Response/Contract.antt =====
-- The contract on one verdict, and that an accepted one keeps to it.
use alerts_bi.Common.{
  Text, codes, ◌≡◌, refl, ap, ◌∙◌, subst, some, Option-cases, text_beq_iff, Bool, true, false, not,
  ◌&&◌, ◌≤◌, List, [], length, contains, arith, Bool-cases, inl, inr, ◌==◌, text_eq, ltb,
}
use alerts_bi.Common.Json.{Json, Fields, object, string, keys, lookup}
use alerts_bi.Common.Result.{Result, ok, ◌>>◌, bind-ok, Result-cases}
use alerts_bi.Common.Unicode.{Unicode, strip}
use alerts_bi.Rules.Catalogs.{citable_ids}
use alerts_bi.Llm.Response.{
  Verdict, ResponseError, refuse_if, as_text, filled_text, one_of, justification_text,
  check_pairing, bad_alert_id, bad_assessment, bad_confidence, bad_principle_id,
  empty_justification, long_justification, none_expected, other_expected, not_citable, only_keys,
  required, verdict_keys, check_values, validate_verdict, assessments, confidences,
  max_justification_length,
}

-- The contract on one verdict.
unfoldable pub IsVerdict : ⦃u : Unicode⦄ → Verdict → Type 0
IsVerdict v =
    (contains assessments v.assessment ≡ true)
    × (contains confidences v.confidence ≡ true)
    × (length v.justification ≤ max_justification_length)
    × (v.assessment ≡ codes "no_violation" → v.principle_id ≡ codes "NONE")
    × (v.assessment ≡ codes "other" → v.principle_id ≡ codes "OTHER")
    × (v.assessment ≡ codes "catalog_violation" → contains citable_ids v.principle_id ≡ true)
    × ((strip v.justification == []) ≡ false)
    × ((v.alert_id == []) ≡ false)

-- The value names the alert: an object with its id.
unfoldable pub IsNamed : Json → Text → Type 0
IsNamed raw id =
    (fields : Fields) × (raw ≡ object fields)
    × (lookup (codes "alert_id") fields ≡ some (string id))

pub refuse_if-ok {ℓ} :
    {A : Type ℓ} (b : Bool) (e : ResponseError) (m : Result ResponseError A) (a : A)
    → (refuse_if b e >> m) ≡ ok a
    → (b ≡ false) × (m ≡ ok a)
refuse_if-ok true e m a h = absurd cc
refuse_if-ok false e m a h = (refl, h)

cites : (a b : Text) (c : Bool) → ((a == b) && not c) ≡ false → a ≡ b → c ≡ true
cites a b c h e = ground (arith, h, (text_beq_iff a b).1 e)

paired : (a p b q : Text) → ((a == b) && not (p == q)) ≡ false → a ≡ b → p ≡ q
paired a p b q h e = (text_beq_iff p q).0 (cites a b (p == q) h e)

one_of-ok :
    (allowed : List Text) (e : ResponseError) (j : Json) (t : Text)
    → one_of allowed e j ≡ ok t
    → contains allowed t ≡ true
unfolding one_of
one_of-ok allowed e j t h = elim (Result-cases (as_text e j)) [
  | inl (r, c) ↦ absurd (ground (arith, h, c))
  | inr (s, c) ↦ elim (Bool-cases (contains allowed s)) [
    | inl k ↦ ground (arith, h, c, k)
    | inr k ↦ absurd (ground (arith, h, c, k))
  ]
]

filled_text-ok :
    (e : ResponseError) (j : Json) (t : Text)
    → filled_text e j ≡ ok t
    → (j ≡ string t) × ((t == []) ≡ false)
unfolding filled_text as_text
filled_text-ok e (string s) t h =
    let (filled, h1) = refuse_if-ok (s == []) e _ t h in
    let same : s ≡ t = ground (arith, h1) in
    (ap string same, subst (λ x. (x == []) ≡ false) same filled)
filled_text-ok e _ t h = absurd cc

pub required-lookup :
    (key : Text) (fields : Fields) (v : Json)
    → required key fields ≡ ok v
    → lookup key fields ≡ some v
unfolding required
required-lookup key fields v h = elim (Option-cases (lookup key fields)) [
  | inl e ↦ absurd (ground (arith, h, e))
  | inr (w, e) ↦ (let same : w ≡ v = ground (arith, h, e) in e ∙ ap some same)
]

module _ ⦃u : Unicode⦄ where
  justification_text-ok :
      (j : Json) (t : Text)
      → justification_text j ≡ ok t
      → (length t ≤ max_justification_length) × ((strip t == []) ≡ false)
  unfolding justification_text
  justification_text-ok j t h =
      let (s, c, h1) = bind-ok (as_text empty_justification j) _ t h in
      let (filled, h2) = refuse_if-ok (strip s == []) empty_justification _ t h1 in
      let long = ltb max_justification_length (length s) in
      let (r, h3) = refuse_if-ok long long_justification _ t h2 in
      let same : s ≡ t = ground (arith, h3) in
      (ground (arith, r, h3), subst (λ x. (strip x == []) ≡ false) same filled)

  check_pairing-IsVerdict :
      (w v : Verdict)
      → contains assessments w.assessment ≡ true
      → contains confidences w.confidence ≡ true
      → length w.justification ≤ max_justification_length
      → (strip w.justification == []) ≡ false
      → (w.alert_id == []) ≡ false
      → check_pairing w ≡ ok v
      → IsVerdict v × (w.alert_id ≡ v.alert_id)
  unfolding check_pairing IsVerdict
  check_pairing-IsVerdict w v known sure short filled named h =
      let bare = w.assessment == codes "no_violation" && not (w.principle_id == codes "NONE") in
      let escape = w.assessment == codes "other" && not (w.principle_id == codes "OTHER") in
      let cited =
        w.assessment == codes "catalog_violation" && not (contains citable_ids w.principle_id) in
      let (ea, h1) = refuse_if-ok bare none_expected _ v h in
      let (eb, h2) = refuse_if-ok escape other_expected _ v h1 in
      let (ec, h3) = refuse_if-ok cited not_citable _ v h2 in
      let same : w ≡ v = ground (arith, h3) in
      (
        subst IsVerdict same (
            unfold IsVerdict in
            (
              known,
              sure,
              short,
              paired w.assessment w.principle_id _ _ ea,
              paired w.assessment w.principle_id _ _ eb,
              λ e.
                  cites w.assessment (codes "catalog_violation")
                    (contains citable_ids w.principle_id) ec e,
              filled,
              named,
            )),
        ap (λ (x : Verdict). x.alert_id) same,
      )

  check_values-IsVerdict :
      (ji ja jp jc jj : Json) (v : Verdict)
      → check_values ji ja jp jc jj ≡ ok v
      → IsVerdict v × (ji ≡ string v.alert_id)
  unfolding check_values
  check_values-IsVerdict ji ja jp jc jj v h =
      let (id, ei, h1) = bind-ok (filled_text bad_alert_id ji) _ v h in
      let (a, ea, h2) = bind-ok (one_of assessments bad_assessment ja) _ v h1 in
      let (c, ec, h3) = bind-ok (one_of confidences bad_confidence jc) _ v h2 in
      let (p, ep, h4) = bind-ok (as_text bad_principle_id jp) _ v h3 in
      let (j, ej, h5) = bind-ok (justification_text jj) _ v h4 in
      let (is_string, named) = filled_text-ok bad_alert_id ji id ei in
      let (short, filled) = justification_text-ok jj j ej in
      let (fits, same) =
        check_pairing-IsVerdict
          (record {
            alert_id = id;
            assessment = a;
            principle_id = p;
            confidence = c;
            justification = j;
          })
          v (one_of-ok assessments bad_assessment ja a ea)
          (one_of-ok confidences bad_confidence jc c ec) short filled named h5 in
      (fits, is_string ∙ ap string same)

  -- An accepted verdict is within the contract, and of the alert that its value names.
  pub validate_verdict-IsVerdict :
      (raw : Json) (v : Verdict)
      → validate_verdict raw ≡ ok v
      → IsVerdict v × IsNamed raw v.alert_id
  unfolding validate_verdict IsNamed
  validate_verdict-IsVerdict (object fields) v h =
      let (_, _, h0) = bind-ok (only_keys verdict_keys (keys fields)) _ v h in
      let (ji, ei, h1) = bind-ok (required (codes "alert_id") fields) _ v h0 in
      let (ja, _, h2) = bind-ok (required (codes "assessment") fields) _ v h1 in
      let (jp, _, h3) = bind-ok (required (codes "principle_id") fields) _ v h2 in
      let (jc, _, h4) = bind-ok (required (codes "confidence") fields) _ v h3 in
      let (jj, _, h5) = bind-ok (required (codes "justification") fields) _ v h4 in
      let (fits, named) = check_values-IsVerdict ji ja jp jc jj v h5 in
      (fits, (fields, refl, required-lookup (codes "alert_id") fields ji ei ∙ ap some named))
  validate_verdict-IsVerdict _ v h = absurd cc
