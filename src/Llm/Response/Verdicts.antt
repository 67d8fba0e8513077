-- ===== src/Llm/Response/Verdicts.antt =====
-- What an accepted response says: a well-formed verdict for each alert asked for, in their order.
use alerts_bi.Common.{
  Text, codes, ◌≡◌, ◌≢◌, refl, ap, sym, ◌∙◌, append-nil, append_assoc, contains, subst,
  text_beq_iff, Option, none, some, Bool, true, false, not, ◌&&◌, List, [], ◌∷◌, ◌++◌, map, length,
  any, arith, Bool-cases, Option-cases, inl, inr, All, All-append, ◌==◌, text_eq, eqb,
}
use alerts_bi.Common.Json.{Json, Fields, Items, items, object, array, string, keys, lookup}
use alerts_bi.Common.Result.{ok, bind-ok, Result-cases}
use alerts_bi.Common.Unicode.{Unicode}
use alerts_bi.Domain.Record.{AlertRecord}
use alerts_bi.Llm.Response.{
  Verdict, only_keys, required, is_string, top_level_keys, other_batch, verdict_list, unknown_alert,
  not_applicable, wrong_membership, duplicate_verdict, validate_verdict, add_verdict,
  gather_verdicts, verdict_of, in_order, only_alerts, is_applicable, validate_applicability,
  check_applicability, check_context, validate_verdicts, validate_response,
}
use alerts_bi.Llm.Response.Contract.{
  IsVerdict, IsNamed, refuse_if-ok, required-lookup, validate_verdict-IsVerdict,
}

not-false : (b : Bool) → not b ≡ false → b ≡ true
not-false true h = refl
not-false false h = absurd cc

-- The values name the alerts, one each.
abbrev pub AreNamed : List Json → List Text → Type 0
AreNamed [] [] = Unit
AreNamed (raw ∷ raws) (id ∷ ids) = IsNamed raw id × AreNamed raws ids
AreNamed _ _ = ⊥

-- No two are equal.
abbrev pub AreDistinct : List Text → Type 0
AreDistinct [] = Unit
AreDistinct (id ∷ ids) = All (λ other. id ≢ other) ids × AreDistinct ids

abbrev pub ids_of : List Verdict → List Text
ids_of vs = map (λ (v : Verdict). v.alert_id) vs

AreDistinct-snoc :
    (ids : List Text) (id : Text)
    → AreDistinct ids
    → All (λ other. other ≢ id) ids
    → AreDistinct (ids ++ (id ∷ []))
AreDistinct-snoc [] id d n = (tt, tt)
AreDistinct-snoc (x ∷ ids) id d n =
    (All-append _ ids (id ∷ []) d.0 (n.0, tt), AreDistinct-snoc ids id d.1 n.1)

any-false :
    (acc : List Verdict) (id : Text)
    → any (λ (w : Verdict). w.alert_id == id) acc ≡ false
    → All (λ other. other ≢ id) (ids_of acc)
any-false [] id h = tt
any-false (w ∷ acc) id h =
    (λ e. ground (arith, h, (text_beq_iff w.alert_id id).1 e), any-false acc id (ground (arith, h)))

ids_of-snoc :
    (acc : List Verdict) (v : Verdict) → ids_of (acc ++ (v ∷ [])) ≡ ids_of acc ++ (v.alert_id ∷ [])
ids_of-snoc [] v = refl
ids_of-snoc (w ∷ acc) v = ap (λ l. w.alert_id ∷ l) (ids_of-snoc acc v)

module _ ⦃u : Unicode⦄ where
  -- What is gathered is within the contract, on distinct alerts, and stands behind what there was.
  gather_verdicts-IsVerdict :
      (raws : List Json) (acc vs : List Verdict)
      → All IsVerdict acc
      → AreDistinct (ids_of acc)
      → gather_verdicts acc raws ≡ ok vs
      → All IsVerdict vs
        × AreDistinct (ids_of vs)
        × (ids : List Text) × (ids_of vs ≡ ids_of acc ++ ids)
        × AreNamed raws ids
  unfolding gather_verdicts add_verdict
  gather_verdicts-IsVerdict [] acc vs a d h =
      let same : acc ≡ vs = ground (arith, h) in
      (
        subst (All IsVerdict) same a,
        subst (λ l. AreDistinct (ids_of l)) same d,
        [],
        ap ids_of (sym same) ∙ sym (append-nil (ids_of acc)),
        tt,
      )
  gather_verdicts-IsVerdict (raw ∷ raws) acc vs a d h =
      let (v, e, h1) = bind-ok (validate_verdict raw) _ vs h in
      let (acc', f, h2) = bind-ok (add_verdict acc v) _ vs h1 in
      let twice = any (λ (w : Verdict). w.alert_id == v.alert_id) acc in
      let (fresh, g) = refuse_if-ok twice (duplicate_verdict v.alert_id) _ acc' f in
      let same : acc ++ (v ∷ []) ≡ acc' = ground (arith, g) in
      let (fits, named) = validate_verdict-IsVerdict raw v e in
      let added = ids_of-snoc acc v in
      let distinct : AreDistinct (ids_of (acc ++ (v ∷ []))) =
        subst AreDistinct (sym added)
          (AreDistinct-snoc (ids_of acc) v.alert_id d (any-false acc v.alert_id fresh)) in
      let (all, apart, ids, behind, others) =
        gather_verdicts-IsVerdict raws acc' vs
          (subst (All IsVerdict) same (All-append IsVerdict acc (v ∷ []) a (fits, tt)))
          (subst (λ l. AreDistinct (ids_of l)) same distinct) h2 in
      (
        all,
        apart,
        v.alert_id ∷ ids,
        behind
            ∙ ap (λ l. ids_of l ++ ids) (sym same)
            ∙ ap (λ l. l ++ ids) added
            ∙ append_assoc (ids_of acc) (v.alert_id ∷ []) ids,
        (named, others),
      )

only_alerts-ok :
    (ids : List Text) (vs : List Verdict) (t : Unit {0})
    → only_alerts ids vs ≡ ok t
    → All (λ id. contains ids id ≡ true) (ids_of vs)
unfolding only_alerts
only_alerts-ok ids [] t h = tt
only_alerts-ok ids (v ∷ vs) t h =
    let (known, h1) =
      refuse_if-ok (not (contains ids v.alert_id)) (unknown_alert v.alert_id) _ t h in
    (not-false (contains ids v.alert_id) known, only_alerts-ok ids vs t h1)

is_string-string : (t : Text) (v : Json) → is_string t v ≡ true → v ≡ string t
unfolding is_string
is_string-string t (string s) h = ap string ((text_beq_iff s t).0 h)
is_string-string t _ h = absurd cc

required-string :
    (key : Text) (fields : Fields) (v : Json) (t : Text)
    → required key fields ≡ ok v
    → is_string t v ≡ true
    → lookup key fields ≡ some (string t)
unfolding required is_string
required-string key fields v t h k = elim (Option-cases (lookup key fields)) [
  | inl e ↦ absurd (ground (arith, h, e))
  | inr (w, e) ↦
      let same : w ≡ v = ground (arith, h, e) in e ∙ ap some (same ∙ is_string-string t v k)
]

-- A verdict that is looked up is of the alert, and one of those that are searched.
verdict_of-some :
    (P : Verdict → Type 0) (id : Text) (vs : List Verdict) (v : Verdict)
    → All P vs
    → verdict_of id vs ≡ some v
    → (v.alert_id ≡ id) × P v
unfolding verdict_of
verdict_of-some P id [] v a h = absurd cc
verdict_of-some P id (w ∷ ws) v a h = elim (Bool-cases (w.alert_id == id)) [
  | inl e ↦
      let same : w ≡ v = ground (arith, h, e) in
      subst (λ x. (x.alert_id ≡ id) × P x) same ((text_beq_iff w.alert_id id).0 e, a.0)
  | inr e ↦ verdict_of-some P id ws v a.1 (ground (arith, h, e))
]

-- The verdicts in order are of the alerts asked for, each one of those gathered.
pub in_order-ok :
    (P : Verdict → Type 0) (vs : List Verdict) (ids : List Text) (out : List Verdict)
    → All P vs
    → in_order vs ids ≡ ok out
    → (map (λ (v : Verdict). v.alert_id) out ≡ ids) × All P out
unfolding in_order
in_order-ok P vs [] out a h =
    subst (λ (o : List Verdict). (map (λ (v : Verdict). v.alert_id) o ≡ []) × All P o) {x = []}
      (ground (arith, h)) (refl, tt)
in_order-ok P vs (id ∷ ids) out a h = elim (Option-cases (verdict_of id vs)) [
  | inl e ↦ absurd (ground (arith, h, e))
  | inr (v, e) ↦ elim (Result-cases (in_order vs ids)) [
    | inl (r, f) ↦ absurd (ground (arith, h, e, f))
    | inr (rest, f) ↦
        let found = verdict_of-some P id vs v a e in
        let others = in_order-ok P vs ids rest a f in
        let same : v ∷ rest ≡ out = ground (arith, h, e, f) in
        subst (λ (o : List Verdict). (map (λ (w : Verdict). w.alert_id) o ≡ id ∷ ids) × All P o)
          same (rw (found.0, others.0) refl, (found.1, others.1))
  ]
]

verdict_list-ok :
    (v : Json) (raws : List Json)
    → verdict_list v ≡ ok raws
    → (values : Items) × (v ≡ array values) × (items values ≡ raws)
unfolding verdict_list
verdict_list-ok (array values) raws h = (values, refl, ground (arith, h))
verdict_list-ok _ raws h = absurd cc

module _ ⦃u : Unicode⦄ where
  -- Each verdict may be given to the alert in its place, and there are as many of both.
  unfoldable pub are_applicable : List Verdict → List AlertRecord → Bool
  are_applicable [] [] = true
  are_applicable (v ∷ vs) (a ∷ alerts) = is_applicable v.principle_id a && are_applicable vs alerts
  are_applicable _ _ = false

  check_applicability-ok :
      (vs : List Verdict) (alerts : List AlertRecord) (t : Unit {0})
      → check_applicability vs alerts ≡ ok t
      → are_applicable vs alerts ≡ true
  unfolding check_applicability validate_applicability are_applicable
  check_applicability-ok [] [] t h = refl
  check_applicability-ok [] (a ∷ alerts) t h = absurd cc
  check_applicability-ok (v ∷ vs) [] t h = absurd cc
  check_applicability-ok (v ∷ vs) (a ∷ alerts) t h =
      let misplaced = not (is_applicable v.principle_id a) in
      let (e, h1) = refuse_if-ok misplaced (not_applicable v.alert_id) _ t h in
      rw (not-false (is_applicable v.principle_id a) e) (check_applicability-ok vs alerts t h1)

  abbrev pub HasContext : Option (List AlertRecord) → List Verdict → Type 0
  HasContext none vs = Unit
  HasContext (some alerts) vs = are_applicable vs alerts ≡ true

  check_context-ok :
      (ids : List Text) (vs out : List Verdict) (alerts : Option (List AlertRecord))
      → check_context ids vs alerts ≡ ok out
      → (vs ≡ out) × HasContext alerts vs
  unfolding check_context
  check_context-ok ids vs out none h = (ground (arith, h), tt)
  check_context-ok ids vs out (some alerts) h =
      let differs = not (eqb (length alerts) (length ids)) in
      let (_, h1) = refuse_if-ok differs wrong_membership _ out h in
      let (t, e, h2) = bind-ok (check_applicability vs alerts) _ out h1 in
      (ground (arith, h2), check_applicability-ok vs alerts t e)

  -- The values of a response name alerts of the request, each one of them once at most.
  abbrev pub AreAnswers : List Text → List Json → Type 0
  AreAnswers ids raws =
      (names : List Text) × AreNamed raws names
      × AreDistinct names
      × All (λ id. contains ids id ≡ true) names

  validate_verdicts-ok :
      (raws : List Json) (ids : List Text) (alerts : Option (List AlertRecord)) (vs : List Verdict)
      → validate_verdicts raws ids alerts ≡ ok vs
      → (map (λ (v : Verdict). v.alert_id) vs ≡ ids)
        × All IsVerdict vs
        × HasContext alerts vs
        × AreAnswers ids raws
  unfolding validate_verdicts
  validate_verdicts-ok raws ids alerts vs h =
      let (gathered, e, h1) = bind-ok (gather_verdicts [] raws) _ vs h in
      let (t, known, h2) = bind-ok (only_alerts ids gathered) _ vs h1 in
      let (ordered, f, h3) = bind-ok (in_order gathered ids) _ vs h2 in
      let (sound, distinct, names, same, named) =
        gather_verdicts-IsVerdict raws [] gathered tt tt e in
      let found = in_order-ok IsVerdict gathered ids ordered sound f in
      let (kept, context) = check_context-ok ids ordered vs alerts h3 in
      let all_known = only_alerts-ok ids gathered t known in
      (
        subst (λ (o : List Verdict). map (λ (v : Verdict). v.alert_id) o ≡ ids) kept found.0,
        subst (All IsVerdict) kept found.1,
        subst (HasContext alerts) kept context,
        (
          names,
          named,
          subst AreDistinct same distinct,
          subst (λ l. All (λ id. contains ids id ≡ true) l) same all_known,
        ),
      )

  -- An accepted response answers the request: it is an object that names the batch and holds an
  -- array of verdicts, which name alerts of the request and no alert twice. What is returned is one
  -- verdict per alert asked for, in the order of the request and whatever theirs, each one within
  -- the contract and, where the alerts are given, applicable to its alert.
  pub validate_response-ok :
      (parsed : Json) (batch_id : Text) (ids : List Text) (alerts : Option (List AlertRecord))
      (vs : List Verdict)
      → validate_response parsed batch_id ids alerts ≡ ok vs
      → ((fields : Fields) × (raws : Items) × (parsed ≡ object fields)
          × (lookup (codes "batch_id") fields ≡ some (string batch_id))
          × (lookup (codes "verdicts") fields ≡ some (array raws))
          × AreAnswers ids (items raws))
        × (map (λ (v : Verdict). v.alert_id) vs ≡ ids)
        × All IsVerdict vs
        × HasContext alerts vs
  unfolding validate_response
  validate_response-ok (object fields) batch_id ids alerts vs h =
      let (_, _, h0) = bind-ok (only_keys top_level_keys (keys fields)) _ vs h in
      let (answered, e, h1) = bind-ok (required (codes "batch_id") fields) _ vs h0 in
      let (verdicts, listed, h2) = bind-ok (required (codes "verdicts") fields) _ vs h1 in
      let differs = not (is_string batch_id answered) in
      let (same, h3) = refuse_if-ok differs other_batch _ vs h2 in
      let (raws, g, h4) = bind-ok (verdict_list verdicts) _ vs h3 in
      let (ordered, sound, context, answers) = validate_verdicts-ok raws ids alerts vs h4 in
      let (values, is_array, of_array) = verdict_list-ok verdicts raws g in
      (
        (
          fields,
          values,
          refl,
          required-string (codes "batch_id") fields answered batch_id e (ground (arith, same)),
          required-lookup (codes "verdicts") fields verdicts listed ∙ ap some is_array,
          subst (AreAnswers ids) (sym of_array) answers,
        ),
        ordered,
        sound,
        context,
      )
  validate_response-ok _ batch_id ids alerts vs h = absurd cc
