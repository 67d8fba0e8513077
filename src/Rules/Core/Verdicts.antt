-- ===== src/Rules/Core/Verdicts.antt =====
-- src/rules/core.py: the rows on which R3 and R7 find nothing.
use alerts_bi.Common.{
  Text, ℕ, codes, ◌+◌, ◌-◌, ◌≤◌, ◌≡◌, ◌≢◌, refl, sym, ap, ◌∙◌, subst, ◌↔◌, ◌⊎◌, inl, inr, Option,
  none, some, true, false, List, [], ◌∷◌, arith, All, contains, Bool-cases, Option-cases, ◌==◌,
  text_eq, text_beq_iff, leb, leb→le, nat_eq,
}
use alerts_bi.Common.Result.{ok, Result-cases}
use alerts_bi.Common.Unicode.{Unicode}
use alerts_bi.Domain.Time.{day}
use alerts_bi.Domain.Record.{AlertRecord, Schema, v1, v2}
use alerts_bi.Rules.Catalogs.{placeholder_values}
use alerts_bi.Rules.Text.{is_blank, normalize_field_value}
use alerts_bi.Rules.Core.Times.{States, parse_time_created-States}
use alerts_bi.Rules.Core.{
  Iso, Check, subtract_day, range_problem, time_problem, parse_time_created, evaluate_r7,
  evaluate_r3, violation_of, violations_of, r3_checks, placeholder_of, component_field,
}

module _ ⦃u : Unicode⦄ where
  -- The value is none of the placeholders, however its letters and spaces are written.
  unfoldable pub IsNoPlaceholder : Option Text → Type 0
  IsNoPlaceholder value =
      All (λ p. normalize_field_value value ≢ some p)
        (codes "unknown" ∷ codes "test" ∷ codes "default" ∷ codes "n/a" ∷ [])

  -- A required field is filled in, an optional one may be left out; neither is a placeholder.
  unfoldable pub IsRequired : Option Text → Type 0
  IsRequired value = (is_blank value ≡ false) × IsNoPlaceholder value

  unfoldable pub IsOptional : Option Text → Type 0
  IsOptional value = (is_blank value ≡ true) ⊎ IsNoPlaceholder value

  contains-none :
      (o : Option Text) (n : Text) (ts : List Text)
      → o ≡ some n
      → (contains ts n ≡ false) ↔ All (λ p. o ≢ some p) ts
  contains-none o n [] e = (λ h. tt, λ h. refl)
  contains-none o n (t ∷ ts) e = elim (Bool-cases (n == t)) [
    | inl f ↦ (
      λ h. absurd (ground (arith, h, f)),
      λ h. absurd (h.0 (e ∙ ap some ((text_beq_iff n t).0 f))),
    )
    | inr f ↦
        let rest = contains-none o n ts e in
        (
          λ h. (λ same. absurd (some_differs n t f (sym e ∙ same)), rest.0 (ground (arith, h, f))),
          λ h. (let k = rest.1 h.1 in ground (arith, f, k)),
        )
  ]
    where
      some_differs : (a b : Text) → (a == b) ≡ false → some a ≢ some b
      some_differs a b f same = ground (arith, f, (text_beq_iff a b).1 (ground (arith, same)))

  none-All : (o : Option Text) (ts : List Text) → o ≡ none → All (λ p. o ≢ some p) ts
  none-All o [] e = tt
  none-All o (t ∷ ts) e = (λ same. ground (arith, e, same), none-All o ts e)

  placeholder_of-none :
      (value : Option Text) → (placeholder_of value ≡ none) ↔ IsNoPlaceholder value
  unfolding placeholder_of IsNoPlaceholder
  placeholder_of-none value = elim (Option-cases (normalize_field_value value)) [
    | inl e ↦
        (λ h. none-All (normalize_field_value value) placeholder_values e, λ h. ground (arith, e))
    | inr (n, e) ↦
        let known = contains-none (normalize_field_value value) n placeholder_values e in
        (λ h. known.0 (ground (arith, h, e)), λ h. (let k = known.1 h in ground (arith, e, k)))
  ]

  violation_of-IsRequired :
      (name : Text) (value : Option Text)
      → (violation_of (record { name = name; value = value; required = true }) ≡ none)
        ↔ IsRequired value
  unfolding violation_of IsRequired
  violation_of-IsRequired name value = ground (arith, placeholder_of-none value)

  violation_of-IsOptional :
      (name : Text) (value : Option Text)
      → (violation_of (record { name = name; value = value; required = false }) ≡ none)
        ↔ IsOptional value
  unfolding violation_of IsOptional
  violation_of-IsOptional name value = ground (arith, placeholder_of-none value)

  violations_of-nil :
      (cs : List Check) → (violations_of cs ≡ []) ↔ All (λ c. violation_of c ≡ none) cs
  unfolding violations_of
  violations_of-nil [] = (λ h. tt, λ h. refl)
  violations_of-nil (c ∷ cs) = ground (arith, violations_of-nil cs)

  evaluate_r3-nil :
      (row : AlertRecord) → (evaluate_r3 row ≡ none) ↔ (violations_of (r3_checks row) ≡ [])
  unfolding evaluate_r3
  evaluate_r3-nil row = ground arith

  -- R3 finds nothing exactly when the application, the operator and the component (the object of a
  -- V1 row) are filled in and none of the placeholders, and the node name is blank or none of them.
  pub evaluate_r3-none :
      (row : AlertRecord)
      → (evaluate_r3 row ≡ none) ↔ (
          IsRequired (some row.application)
          × IsRequired row.operator
          × IsRequired row.component
          × IsOptional row.node_name)
  unfolding r3_checks
  evaluate_r3-none row =
      let none_found = evaluate_r3-nil row in
      let none_at_all = violations_of-nil (r3_checks row) in
      let application = violation_of-IsRequired (codes "application") (some row.application) in
      let operator = violation_of-IsRequired (codes "operator") row.operator in
      let component = violation_of-IsRequired (component_field row.schema) row.component in
      let node = violation_of-IsOptional (codes "node_name") row.node_name in
      (
        λ h.
            (let all = none_at_all.0 (none_found.0 h) in
              (application.0 all.0, operator.0 all.1.0, component.0 all.1.1.0, node.0 all.1.1.1.0)),
        λ h. none_found.1 (
            none_at_all.1
              (application.1 h.0, (operator.1 h.1, (component.1 h.2, (node.1 h.3, tt))))),
      )

module _ ⦃u : Unicode⦄ ⦃iso : Iso⦄ where
  -- `created` is the time that the row states, and it lies in the day up to the receipt.
  unfoldable pub IsTimely : ℕ → Option Text → Type 0
  IsTimely receipt value =
      (t : Text) × (created : ℕ) × (value ≡ some t)
      × (is_blank value ≡ false)
      × States t created
      × (day ≤ receipt)
      × (created ≤ receipt)
      × (receipt ≤ created + day)

  early_timely :
      (receipt : ℕ) (value : Option Text) → leb day receipt ≡ false → IsTimely receipt value → ⊥
  unfolding IsTimely
  early_timely receipt value f (t, c, _, _, _, late, _, _) = ground (arith, f, late)

  range_problem-none :
      (receipt earliest created : ℕ)
      → (range_problem receipt earliest created ≡ none)
        ↔ ((created ≤ receipt) × (earliest ≤ created))
  unfolding range_problem
  range_problem-none receipt earliest created = ground arith

  time_problem-some :
      (receipt earliest : ℕ) (t : Text)
      → (time_problem receipt earliest (some t) ≡ ok none) ↔ (
          (is_blank (some t) ≡ false)
          × (created : ℕ) × (parse_time_created t ≡ ok (some created))
          × (created ≤ receipt)
          × (earliest ≤ created))
  unfolding time_problem
  time_problem-some receipt earliest t = elim (Result-cases (parse_time_created t)) [
    | inl (e, p) ↦ ground (arith, p)
    | inr (none, p) ↦ ground (arith, p)
    | inr (some created, p) ↦
        let fits = range_problem-none receipt earliest created in
        (
          λ h.
              (let known : is_blank (some t) ≡ false = ground (arith, h) in
                (let k = fits.0 (ground (arith, h, p, known)) in (known, created, p, k.0, k.1))),
          λ (filled, c, stated, before, after).
              (let same : c ≡ created = ground (arith, stated, p) in
                let k = fits.1 (subst (λ c. (c ≤ receipt) × (earliest ≤ c)) same (before, after)) in
                ground (arith, filled, p, k)),
        )
  ]

  time_problem-none :
      (receipt : ℕ) (value : Option Text)
      → day ≤ receipt
      → (time_problem receipt (receipt - day) value ≡ ok none) ↔ IsTimely receipt value
  unfolding IsTimely
  time_problem-none receipt none late =
      (λ h. absurd (unfold time_problem in ground (arith, h)), λ h. absurd (ground (arith, h.2)))
  time_problem-none receipt (some t) late =
      let exactly = time_problem-some receipt (receipt - day) t in
      (
        λ h.
            (let (filled, created, stated, before, after) = exactly.0 h in
              (
                t,
                created,
                refl,
                filled,
                (parse_time_created-States t created).0 stated,
                late,
                before,
                omega (arith, after),
              )),
        λ (s, created, e, filled, stated, _, before, after).
            (let same : s ≡ t = ground (arith, e) in
              exactly.1 (
                filled,
                created,
                (parse_time_created-States t created).1 (subst (λ s. States s created) same stated),
                before,
                omega (arith, after),
              )),
      )

  -- R7 finds nothing, and does not raise, exactly when the row is of V2, or its time of creation is
  -- not blank, is a date with its `Z` read as UTC, and as an instant in UTC lies between a day
  -- before the receipt and the receipt, both ends included and both within the calendar.
  pub evaluate_r7-none :
      (row : AlertRecord)
      → (evaluate_r7 row ≡ ok none) ↔ ((row.schema ≡ v2) ⊎ IsTimely row.timestamp row.time_created)
  evaluate_r7-none row = elim (v1-or-v2 row.schema) [
    | inr e ↦ (λ h. inl e, λ h. (unfold evaluate_r7 in ground (arith, e)))
    | inl e ↦ elim (Bool-cases (leb day row.timestamp)) [
      | inr f ↦ (
        λ h. absurd (unfold evaluate_r7 in unfold subtract_day in ground (arith, e, f, h)),
        λ h. absurd (early row e f h),
      )
      | inl f ↦
          let late : day ≤ row.timestamp = leb→le day row.timestamp f in
          let timely = time_problem-none row.timestamp row.time_created late in
          (
            λ h.
                inr
                  (timely.0 (unfold evaluate_r7 in unfold subtract_day in ground (arith, e, f, h))),
            λ h. elim h [
              | inl g ↦ absurd (ground (arith, e, g))
              | inr g ↦
                  let k = timely.1 g in
                  unfold evaluate_r7 in unfold subtract_day in ground (arith, e, f, k)
            ],
          )
    ]
  ]
    where
      v1-or-v2 : (s : Schema) → (s ≡ v1) ⊎ (s ≡ v2)
      v1-or-v2 v1 = inl refl
      v1-or-v2 v2 = inr refl

      early :
          (row : AlertRecord)
          → row.schema ≡ v1
          → leb day row.timestamp ≡ false
          → ((row.schema ≡ v2) ⊎ IsTimely row.timestamp row.time_created)
          → ⊥
      early row e f (inl g) = ground (arith, e, g)
      early row e f (inr g) = early_timely row.timestamp row.time_created f g
