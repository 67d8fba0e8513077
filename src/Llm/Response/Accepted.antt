-- ===== src/Llm/Response/Accepted.antt =====
-- What a model that keeps to the contract answers is accepted, in whatever order it answers.
use mathlib.Core.List.{Permᴰ}
use mathlib.Core.List.Permᴰ
use alerts_bi.Common.{
  Text, codes, ◌≡◌, refl, ap, sym, ◌∙◌, text_beq_iff, none, some, Bool, true, false, not, ◌&&◌,
  List, [], ◌∷◌, ◌++◌, append_assoc, append-nil, map, any, contains, arith, Bool-cases, inl, inr,
  All, ◌==◌, text_eq, ltb, length,
}
use alerts_bi.Common.Json.{
  Json, Items, object, array, string, item, no_items, field, no_fields, items,
}
use alerts_bi.Common.Result.{ok}
use alerts_bi.Common.Sorting.{All-Perm}
use alerts_bi.Common.Unicode.{Unicode, strip}
use alerts_bi.Rules.Catalogs.{citable_ids}
use alerts_bi.Llm.Response.{
  Verdict, ResponseError, bad_alert_id, bad_assessment, bad_confidence, as_text, check_values,
  filled_text, one_of, justification_text, check_pairing, validate_verdict, add_verdict,
  gather_verdicts, verdict_of, in_order, only_alerts, check_context, validate_verdicts,
  validate_response, only_keys, required, is_string, verdict_list, assessments, confidences,
  max_justification_length,
}
use alerts_bi.Llm.Response.Contract.{IsVerdict}

abbrev pub json_of : Verdict → Json
json_of v = object (
    field (codes "alert_id") (string v.alert_id) (
      field (codes "assessment") (string v.assessment) (
        field (codes "principle_id") (string v.principle_id) (
          field (codes "confidence") (string v.confidence)
            (field (codes "justification") (string v.justification) no_fields)))))

abbrev pub array_of : List Json → Items
array_of [] = no_items
array_of (v ∷ vs) = item v (array_of vs)

abbrev pub response_of : Text → List Verdict → Json
response_of batch_id vs = object (
    field (codes "batch_id") (string batch_id)
      (field (codes "verdicts") (array (array_of (map json_of vs))) no_fields))

-- No two are of one alert.
abbrev pub IsDistinct : List Verdict → Type 0
IsDistinct [] = Unit
IsDistinct (v ∷ vs) = All (λ (w : Verdict). (v.alert_id == w.alert_id) ≡ false) vs × IsDistinct vs

module _ ⦃u : Unicode⦄ where
  -- A verdict with all texts filled in, in the contract.
  abbrev pub IsFilled : Verdict → Type 0
  IsFilled v =
      ((v.alert_id == []) ≡ false)
      × ((strip v.justification == []) ≡ false)
      × (ltb max_justification_length (length v.justification) ≡ false)
      × IsVerdict v

  filled_text-string :
      (e : ResponseError) (t : Text) → (t == []) ≡ false → filled_text e (string t) ≡ ok t
  unfolding filled_text as_text
  filled_text-string e t h = rw h refl

  one_of-string :
      (allowed : List Text) (e : ResponseError) (t : Text)
      → contains allowed t ≡ true
      → one_of allowed e (string t) ≡ ok t
  unfolding one_of as_text
  one_of-string allowed e t h = rw h refl

  justification_text-string :
      (t : Text)
      → (strip t == []) ≡ false
      → ltb max_justification_length (length t) ≡ false
      → justification_text (string t) ≡ ok t
  unfolding justification_text as_text
  justification_text-string t h k = rw (h, k) refl

  any-snoc :
      (p : Verdict → Bool) (acc : List Verdict) (w : Verdict)
      → any p acc ≡ false
      → p w ≡ false
      → any p (acc ++ (w ∷ [])) ≡ false
  any-snoc p [] w h k = rw k refl
  any-snoc p (a ∷ acc) w h k = ground (arith, h, k, any-snoc p acc w)

  still_new :
      (w : Verdict) (acc ws : List Verdict)
      → All (λ (v : Verdict). any (λ (x : Verdict). x.alert_id == v.alert_id) acc ≡ false) ws
      → All (λ (v : Verdict). (w.alert_id == v.alert_id) ≡ false) ws
      → All
          (λ (v : Verdict).
            any (λ (x : Verdict). x.alert_id == v.alert_id) (acc ++ (w ∷ [])) ≡ false)
          ws
  still_new w acc [] n d = tt
  still_new w acc (v ∷ ws) n d = (
    any-snoc (λ (x : Verdict). x.alert_id == v.alert_id) acc w n.0 d.0,
    still_new w acc ws n.1 d.1,
  )

  unpaired : (a b : Text) (c : Bool) → (a ≡ b → c ≡ true) → ((a == b) && not c) ≡ false
  unpaired a b c h = elim (Bool-cases (a == b)) [
    | inl e ↦ rw (e, h ((text_beq_iff a b).0 e)) refl
    | inr e ↦ rw e refl
  ]

  check_pairing-ok : (v : Verdict) → IsVerdict v → check_pairing v ≡ ok v
  unfolding check_pairing IsVerdict
  check_pairing-ok v (_, _, _, bare, escape, cited, _, _) =
      let p = v.principle_id in
      let first =
        unpaired v.assessment (codes "no_violation") (p == codes "NONE")
          (λ e. (text_beq_iff p (codes "NONE")).1 (bare e)) in
      let second =
        unpaired v.assessment (codes "other") (p == codes "OTHER")
          (λ e. (text_beq_iff p (codes "OTHER")).1 (escape e)) in
      let third =
        unpaired v.assessment (codes "catalog_violation") (contains citable_ids p) cited in
      rw (first, second, third) refl

  check_values-string :
      (v : Verdict)
      → IsFilled v
      → check_values
          (string v.alert_id)
          (string v.assessment)
          (string v.principle_id)
          (string v.confidence)
          (string v.justification)
        ≡ ok v
  unfolding check_values IsVerdict as_text
  check_values-string v (filled, said, short, sound) =
      rw
        (
          filled_text-string bad_alert_id v.alert_id filled,
          one_of-string assessments bad_assessment v.assessment sound.0,
          one_of-string confidences bad_confidence v.confidence sound.1,
          justification_text-string v.justification said short,
        )
        (check_pairing-ok v sound)

  validate_verdict-json_of : (v : Verdict) → IsFilled v → validate_verdict (json_of v) ≡ ok v
  unfolding validate_verdict only_keys required
  validate_verdict-json_of v h = check_values-string v h

  -- Verdicts of other alerts than those gathered are gathered behind them.
  gather_verdicts-json_of :
      (acc ws : List Verdict)
      → All IsFilled ws
      → IsDistinct ws
      → All (λ (w : Verdict). any (λ (x : Verdict). x.alert_id == w.alert_id) acc ≡ false) ws
      → gather_verdicts acc (items (array_of (map json_of ws))) ≡ ok (acc ++ ws)
  unfolding gather_verdicts add_verdict
  gather_verdicts-json_of acc [] f d n = ap ok (sym (append-nil acc))
  gather_verdicts-json_of acc (w ∷ ws) f d n =
      let rest =
        gather_verdicts-json_of (acc ++ (w ∷ [])) ws f.1 d.1 (still_new w acc ws n.1 d.0) in
      rw (validate_verdict-json_of w f.0, n.0) (rest ∙ ap ok (append_assoc acc (w ∷ []) ws))

verdict_of-skip :
    (w : Verdict) (ws vs : List Verdict)
    → All (λ (v : Verdict). (w.alert_id == v.alert_id) ≡ false) vs
    → All (λ (v : Verdict). verdict_of v.alert_id ws ≡ some v) vs
    → All (λ (v : Verdict). verdict_of v.alert_id (w ∷ ws) ≡ some v) vs
unfolding verdict_of
verdict_of-skip w ws [] d h = tt
verdict_of-skip w ws (v ∷ vs) d h = (rw (d.0) (h.0), verdict_of-skip w ws vs d.1 h.1)

verdict_of-distinct :
    (ws : List Verdict)
    → IsDistinct ws
    → All (λ (v : Verdict). verdict_of v.alert_id ws ≡ some v) ws
unfolding verdict_of
verdict_of-distinct [] d = tt
verdict_of-distinct (w ∷ ws) d = (
  rw ((text_beq_iff w.alert_id w.alert_id).1 refl) refl,
  verdict_of-skip w ws ws d.0 (verdict_of-distinct ws d.1),
)

in_order-found :
    (ws vs : List Verdict)
    → All (λ (v : Verdict). verdict_of v.alert_id ws ≡ some v) vs
    → in_order ws (map (λ (v : Verdict). v.alert_id) vs) ≡ ok vs
unfolding in_order
in_order-found ws [] h = refl
in_order-found ws (v ∷ vs) h = rw (in_order, h.0, in_order-found ws vs h.1) refl

contains-later :
    (id : Text) (ids : List Text) (vs : List Verdict)
    → All (λ (v : Verdict). contains ids v.alert_id ≡ true) vs
    → All (λ (v : Verdict). contains (id ∷ ids) v.alert_id ≡ true) vs
contains-later id ids [] h = tt
contains-later id ids (v ∷ vs) h = (ground (arith, h.0), contains-later id ids vs h.1)

contains-own :
    (vs : List Verdict)
    → All (λ (v : Verdict). contains (map (λ (w : Verdict). w.alert_id) vs) v.alert_id ≡ true) vs
contains-own [] = tt
contains-own (v ∷ vs) = (
  rw ((text_beq_iff v.alert_id v.alert_id).1 refl) refl,
  contains-later v.alert_id _ vs (contains-own vs),
)

only_alerts-ok :
    (ids : List Text) (vs : List Verdict)
    → All (λ (v : Verdict). contains ids v.alert_id ≡ true) vs
    → only_alerts ids vs ≡ ok tt
unfolding only_alerts
only_alerts-ok ids [] h = refl
only_alerts-ok ids (v ∷ vs) h = rw (h.0) (only_alerts-ok ids vs h.1)

no_earlier :
    (ws : List Verdict)
    → All (λ (w : Verdict). any (λ (x : Verdict). x.alert_id == w.alert_id) [] ≡ false) ws
no_earlier [] = tt
no_earlier (w ∷ ws) = (refl, no_earlier ws)

module _ ⦃u : Unicode⦄ where
  validate_verdicts-json_of :
      (ws vs : List Verdict)
      → All IsFilled ws
      → IsDistinct ws
      → Permᴰ ws vs
      → validate_verdicts
          (items (array_of (map json_of ws)))
          (map (λ (v : Verdict). v.alert_id) vs)
          none
        ≡ ok vs
  unfolding validate_verdicts check_context
  validate_verdicts-json_of ws vs f d p =
      let known = All-Perm _ (Permᴰ.symm p) (contains-own vs) in
      let found = All-Perm _ p (verdict_of-distinct ws d) in
      rw
        (
          gather_verdicts-json_of [] ws f d (no_earlier ws),
          only_alerts-ok (map (λ (v : Verdict). v.alert_id) vs) ws known,
          in_order-found ws vs found,
        )
        refl

  -- The verdicts on the alerts of a request, each within the contract with its texts filled in and
  -- no two on one alert, come back from a response that gives them in any order: in the order of
  -- the request, where no context of the alerts is given.
  pub validate_response-response_of :
      (batch_id : Text) (ws vs : List Verdict)
      → All IsFilled ws
      → IsDistinct ws
      → Permᴰ ws vs
      → validate_response
          (response_of batch_id ws)
          batch_id
          (map (λ (v : Verdict). v.alert_id) vs)
          none
        ≡ ok vs
  unfolding validate_response only_keys required verdict_list is_string
  validate_response-response_of batch_id ws vs f d p =
      rw ((text_beq_iff batch_id batch_id).1 refl) (validate_verdicts-json_of ws vs f d p)
