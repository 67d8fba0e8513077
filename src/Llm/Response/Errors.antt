-- ===== src/Llm/Response/Errors.antt =====
-- The validation raises nothing but the model's errors where the alerts match the request.
use alerts_bi.Common.{
  Text, codes, ◌≡◌, refl, ap, sym, ◌∙◌, subst, some, Bool, true, false, not, ◌&&◌, suc, List, [],
  ◌∷◌, map, length, arith, Option-cases, inl, inr, ◌==◌, text_eq, ltb, eqb, contains, All,
}
use alerts_bi.Common.Json.{Json, Fields, object, string, array, keys, lookup}
use alerts_bi.Common.Result.{Result, ok, err, ◌>>=◌, ◌>>◌}
use alerts_bi.Common.Unicode.{Unicode, strip}
use alerts_bi.Domain.Record.{AlertRecord}
use alerts_bi.Rules.Catalogs.{citable_ids}
use alerts_bi.Llm.Response.{
  Verdict, ResponseError, bad_alert_id, bad_assessment, bad_confidence, bad_principle_id,
  empty_justification, long_justification, max_justification_length, none_expected, other_expected,
  not_citable, wrong_membership, unexpected_field, refuse_if, as_text, check_values, filled_text,
  one_of, justification_text, check_pairing, validate_verdict, add_verdict, gather_verdicts,
  verdict_of, in_order, only_alerts, check_applicability, validate_applicability, check_context,
  validate_verdicts, validate_response, only_keys, required, verdict_list, assessments, confidences,
  top_level_keys, verdict_keys,
}
use alerts_bi.Llm.Response.Verdicts.{in_order-ok}

-- The exception is the one on the alerts.
unfoldable pub is_escape : ResponseError → Bool
is_escape wrong_membership = true
is_escape _ = false

-- Nothing escapes.
unfoldable pub Stays {ℓ} : {A : Type ℓ} → Result ResponseError A → Type 0
Stays (ok a) = Unit
Stays (err e) = is_escape e ≡ false

pub Stays-err {ℓ} :
    {A : Type ℓ} (m : Result ResponseError A) (e : ResponseError)
    → m ≡ err e
    → Stays m
    → is_escape e ≡ false
unfolding Stays
Stays-err m e h s = subst Stays h s

module _ {ℓ κ} {A : Type ℓ} {B : Type κ} where
  Stays-bind :
      (m : Result ResponseError A) (f : A → Result ResponseError B)
      → Stays m
      → ((a : A) → m ≡ ok a → Stays (f a))
      → Stays (m >>= f)
  unfolding Stays
  Stays-bind (ok a) f h k = k a refl
  Stays-bind (err e) f h k = h

Stays-ok {ℓ} : {A : Type ℓ} (a : A) → Stays (ok a)
unfolding Stays
Stays-ok a = tt

Stays-refuse_if {ℓ} :
    {A : Type ℓ} (b : Bool) (e : ResponseError) (m : Result ResponseError A)
    → is_escape e ≡ false
    → Stays m
    → Stays (refuse_if b e >> m)
unfolding Stays
Stays-refuse_if true e m h k = h
Stays-refuse_if false e m h k = k

Stays-as_text : (e : ResponseError) (v : Json) → is_escape e ≡ false → Stays (as_text e v)
unfolding as_text Stays
Stays-as_text e (string t) h = tt
Stays-as_text e _ h = h

Stays-required : (key : Text) (fields : Fields) → Stays (required key fields)
unfolding required Stays is_escape
Stays-required key fields = elim (Option-cases (lookup key fields)) [
  | inl e ↦ rw (required, e) refl
  | inr (v, e) ↦ rw (required, e) tt
]

Stays-only_keys : (allowed ks : List Text) → Stays (only_keys allowed ks)
unfolding only_keys Stays is_escape
Stays-only_keys allowed [] = tt
Stays-only_keys allowed (k ∷ ks) =
    Stays-refuse_if (not (contains allowed k)) (unexpected_field k) (only_keys allowed ks) refl
      (Stays-only_keys allowed ks)

Stays-filled_text : (e : ResponseError) (v : Json) → is_escape e ≡ false → Stays (filled_text e v)
unfolding filled_text
Stays-filled_text e v h =
    Stays-bind (as_text e v) _ (Stays-as_text e v h)
      (λ t n. Stays-refuse_if (t == []) e _ h (Stays-ok _))

Stays-one_of :
    (allowed : List Text) (e : ResponseError) (v : Json)
    → is_escape e ≡ false
    → Stays (one_of allowed e v)
unfolding one_of
Stays-one_of allowed e v h =
    Stays-bind (as_text e v) _ (Stays-as_text e v h)
      (λ t n. Stays-refuse_if (not (contains allowed t)) e _ h (Stays-ok _))

Stays-verdict_list : (v : Json) → Stays (verdict_list v)
unfolding verdict_list Stays is_escape
Stays-verdict_list (array raws) = tt
Stays-verdict_list _ = refl

Stays-add_verdict : (vs : List Verdict) (v : Verdict) → Stays (add_verdict vs v)
unfolding add_verdict is_escape
Stays-add_verdict vs v = Stays-refuse_if _ _ _ refl (Stays-ok _)

Stays-only_alerts : (ids : List Text) (vs : List Verdict) → Stays (only_alerts ids vs)
unfolding only_alerts Stays is_escape
Stays-only_alerts ids [] = tt
Stays-only_alerts ids (v ∷ vs) = Stays-refuse_if _ _ _ refl (Stays-only_alerts ids vs)

Stays-in_order : (vs : List Verdict) (ids : List Text) → Stays (in_order vs ids)
unfolding in_order Stays is_escape
Stays-in_order vs [] = tt
Stays-in_order vs (id ∷ ids) = elim (Option-cases (verdict_of id vs)) [
  | inl e ↦ rw (in_order, e) refl
  | inr (v, e) ↦
      rw (in_order, e) (Stays-bind (in_order vs ids) _ (Stays-in_order vs ids) (λ rest n. tt))
]

everywhere : (vs : List Verdict) → All (λ v. Unit {0}) vs
everywhere [] = tt
everywhere (v ∷ vs) = (tt, everywhere vs)

pub are_as_many :
    (vs : List Verdict) (ids : List Text)
    → map (λ (v : Verdict). v.alert_id) vs ≡ ids
    → length vs ≡ length ids
are_as_many vs ids h = length-map vs ∙ ap length h
  where
    length-map : (ws : List Verdict) → length ws ≡ length (map (λ (v : Verdict). v.alert_id) ws)
    length-map [] = refl
    length-map (w ∷ ws) = ap suc (length-map ws)

module _ ⦃u : Unicode⦄ where
  Stays-justification_text : (v : Json) → Stays (justification_text v)
  unfolding justification_text is_escape
  Stays-justification_text v =
      Stays-bind (as_text empty_justification v) _ (Stays-as_text empty_justification v refl)
        (λ t n. Stays-refuse_if (strip t == []) empty_justification _ refl (
          Stays-refuse_if (ltb max_justification_length (length t)) long_justification _ refl
            (Stays-ok t)))

  Stays-check_pairing : (v : Verdict) → Stays (check_pairing v)
  unfolding check_pairing is_escape
  Stays-check_pairing v =
      let bare = v.assessment == codes "no_violation" && not (v.principle_id == codes "NONE") in
      let escape = v.assessment == codes "other" && not (v.principle_id == codes "OTHER") in
      let cited =
        v.assessment == codes "catalog_violation" && not (contains citable_ids v.principle_id) in
      Stays-refuse_if bare none_expected _ refl (
        Stays-refuse_if escape other_expected _ refl
          (Stays-refuse_if cited not_citable _ refl (Stays-ok v)))

  Stays-check_values : (ji ja jp jc jj : Json) → Stays (check_values ji ja jp jc jj)
  unfolding check_values is_escape
  Stays-check_values ji ja jp jc jj =
      Stays-bind (filled_text bad_alert_id ji) _ (Stays-filled_text bad_alert_id ji refl) (λ id n.
        Stays-bind (one_of assessments bad_assessment ja) _
          (Stays-one_of assessments bad_assessment ja refl)
          (λ a n.
            Stays-bind (one_of confidences bad_confidence jc) _
              (Stays-one_of confidences bad_confidence jc refl)
              (λ c n.
                Stays-bind (as_text bad_principle_id jp) _ (Stays-as_text bad_principle_id jp refl)
                  (λ p n. Stays-bind (justification_text jj) _ (Stays-justification_text jj) (λ j n.
                    Stays-check_pairing (record {
                      alert_id = id;
                      assessment = a;
                      principle_id = p;
                      confidence = c;
                      justification = j;
                    }))))))

  Stays-validate_verdict : (raw : Json) → Stays (validate_verdict raw)
  unfolding validate_verdict
  Stays-validate_verdict (object fields) =
      Stays-bind (only_keys verdict_keys (keys fields)) _
        (Stays-only_keys verdict_keys (keys fields))
        (λ t n. Stays-bind (required (codes "alert_id") fields) _ (Stays-required _ fields) (λ ji n.
          Stays-bind (required (codes "assessment") fields) _ (Stays-required _ fields) (λ ja n.
            Stays-bind (required (codes "principle_id") fields) _ (Stays-required _ fields) (λ jp n.
              Stays-bind (required (codes "confidence") fields) _ (Stays-required _ fields) (λ jc n.
                Stays-bind (required (codes "justification") fields) _ (Stays-required _ fields)
                  (λ jj n. Stays-check_values ji ja jp jc jj))))))
  Stays-validate_verdict _ = unfold Stays in unfold is_escape in refl

  Stays-gather_verdicts : (acc : List Verdict) (raws : List Json) → Stays (gather_verdicts acc raws)
  unfolding gather_verdicts
  Stays-gather_verdicts acc [] = Stays-ok acc
  Stays-gather_verdicts acc (raw ∷ raws) =
      Stays-bind (validate_verdict raw) _ (Stays-validate_verdict raw) (λ v n.
        Stays-bind (add_verdict acc v) _ (Stays-add_verdict acc v)
          (λ vs n. Stays-gather_verdicts vs raws))

  Stays-check_applicability :
      (vs : List Verdict) (alerts : List AlertRecord)
      → length vs ≡ length alerts
      → Stays (check_applicability vs alerts)
  unfolding check_applicability validate_applicability is_escape
  Stays-check_applicability [] [] h = Stays-ok tt
  Stays-check_applicability [] (a ∷ alerts) h = absurd (omega (arith, h))
  Stays-check_applicability (v ∷ vs) [] h = absurd (omega (arith, h))
  Stays-check_applicability (v ∷ vs) (a ∷ alerts) h =
      Stays-refuse_if _ _ _ refl (Stays-check_applicability vs alerts (omega (arith, h)))

  Stays-check_context :
      (ids : List Text) (vs : List Verdict) (alerts : List AlertRecord)
      → map (λ (v : Verdict). v.alert_id) vs ≡ ids
      → length alerts ≡ length ids
      → Stays (check_context ids vs (some alerts))
  unfolding check_context
  Stays-check_context ids vs alerts ordered h =
      let same : eqb (length alerts) (length ids) ≡ true = ground (arith, h) in
      rw (check_context, same)
        (Stays-bind (check_applicability vs alerts) _
          (Stays-check_applicability vs alerts (are_as_many vs ids ordered ∙ sym h))
          (λ t n. Stays-ok vs))

  Stays-validate_verdicts :
      (raws : List Json) (ids : List Text) (alerts : List AlertRecord)
      → length alerts ≡ length ids
      → Stays (validate_verdicts raws ids (some alerts))
  unfolding validate_verdicts
  Stays-validate_verdicts raws ids alerts h =
      Stays-bind (gather_verdicts [] raws) _ (Stays-gather_verdicts [] raws) (λ gathered n.
        Stays-bind (only_alerts ids gathered) _ (Stays-only_alerts ids gathered) (λ t n.
          Stays-bind (in_order gathered ids) _ (Stays-in_order gathered ids) (λ ordered f.
            Stays-check_context ids ordered alerts
              (in_order-ok (λ v. Unit) gathered ids ordered (everywhere gathered) f).0 h)))

  -- Where there are as many alerts as ids, whatever was parsed is accepted or refused as a response
  -- that breaks the contract: the exception on the alerts is not raised.
  pub Stays-validate_response :
      (parsed : Json) (batch_id : Text) (ids : List Text) (alerts : List AlertRecord)
      → length alerts ≡ length ids
      → Stays (validate_response parsed batch_id ids (some alerts))
  unfolding validate_response is_escape
  Stays-validate_response (object fields) batch_id ids alerts h =
      Stays-bind (only_keys top_level_keys (keys fields)) _
        (Stays-only_keys top_level_keys (keys fields))
        (λ t n.
          Stays-bind (required (codes "batch_id") fields) _ (Stays-required _ fields) (λ answered n.
            Stays-bind (required (codes "verdicts") fields) _ (Stays-required _ fields)
              (λ verdicts n. Stays-refuse_if _ _ _ refl (
                Stays-bind (verdict_list verdicts) _ (Stays-verdict_list verdicts)
                  (λ raws n. Stays-validate_verdicts raws ids alerts h)))))
  Stays-validate_response _ batch_id ids alerts h = unfold Stays in refl
