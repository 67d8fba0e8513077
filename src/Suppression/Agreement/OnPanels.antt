-- ===== src/Suppression/Agreement/OnPanels.antt =====
-- The same from the panels' texts on: an interpretation that `interpret_panel` returns has leaves
-- only if the panel was parsed.
use alerts_bi.Common.{
  ◌≡◌, refl, ap, ◌∙◌, not, List, [], ◌∷◌, Option, none, some, inl, inr, All, ◌&&◌, subst,
}
use alerts_bi.Common.Result.{Result, ok, err, ◌>>=◌, Result-cases}
use alerts_bi.Common.Unicode.{Unicode}
use alerts_bi.Domain.Record.{AlertRecord}
use alerts_bi.Suppression.Token.{ParseError, assertion_error, index_error, out_of_fuel}
use alerts_bi.Suppression.Syntax.{Tree}
use alerts_bi.Suppression.Variables.{Panel}
use alerts_bi.Suppression.Panel.{parse_panel_sql}
use alerts_bi.Suppression.Leaves.{PanelInterpretation}
use alerts_bi.Suppression.Interpret.{interpretation_of, interpret_panel}
use alerts_bi.Suppression.Evaluate.{
  SuppressionResult, interpret_panels, evaluate_interpretations, evaluate_suppression,
}
use alerts_bi.Suppression.Accumulate.{create, add_all, finish}
use alerts_bi.Suppression.Agreement.Sets.{IsParsed}
use alerts_bi.Suppression.Agreement.Final.{
  SameSummary, is_unseen, judged, hidden_by_all, judged-suppressed, judged-unseen, finish_same,
}

-- A property of the value, where there is one.
abbrev OfOk {ℓ} : {A : Type ℓ} → (A → Type 0) → Result ParseError A → Type 0
OfOk P (ok a) = P a
OfOk P (err e) = Unit

OfOk-bind {ℓ κ} :
    {A : Type ℓ} {B : Type κ} (P : A → Type 0) (Q : B → Type 0) (m : Result ParseError A)
    (f : A → Result ParseError B)
    → OfOk P m
    → ((a : A) → P a → OfOk Q (f a))
    → OfOk Q (m >>= f)
OfOk-bind P Q (ok a) f h k = k a h
OfOk-bind P Q (err e) f h k = tt

module _ ⦃u : Unicode⦄ where
  interpretation_of-IsParsed :
      (p : Panel) (r : Result ParseError (Option Tree)) → OfOk IsParsed (interpretation_of p r)
  unfolding interpretation_of
  interpretation_of-IsParsed p (ok none) = tt
  interpretation_of-IsParsed p (ok (some tree)) = tt
  interpretation_of-IsParsed p (err assertion_error) = tt
  interpretation_of-IsParsed p (err index_error) = tt
  interpretation_of-IsParsed p (err out_of_fuel) = tt
  interpretation_of-IsParsed p (err problem) = refl

  interpret_panel-IsParsed : (p : Panel) → OfOk IsParsed (interpret_panel p)
  interpret_panel-IsParsed p =
      unfold interpret_panel in interpretation_of-IsParsed p (parse_panel_sql p.sql)

  interpret_panels-IsParsed : (panels : List Panel) → OfOk (All IsParsed) (interpret_panels panels)
  unfolding interpret_panels
  interpret_panels-IsParsed [] = tt
  interpret_panels-IsParsed (p ∷ panels) =
      OfOk-bind IsParsed (All IsParsed) (interpret_panel p) _ (interpret_panel-IsParsed p)
        λ i parsed.
          OfOk-bind (All IsParsed) (All IsParsed) (interpret_panels panels) _
            (interpret_panels-IsParsed panels) λ is all_parsed. (parsed, all_parsed)

  -- Where every panel is interpreted without an exception other than a parse error, the stream over
  -- any rows judges each row, by the mask that it was given when it arrived, as the evaluation of
  -- all rows at once does: suppressed, and unseen. The summary at its end has the same counts of
  -- unmeasured leaves, the same notes and the same leaves with their match counts.
  pub accumulator-evaluate_suppression :
      (panels : List Panel) (rows : List AlertRecord) (r : SuppressionResult)
      → evaluate_suppression rows panels ≡ ok r
      → (ps : List PanelInterpretation) × (interpret_panels panels ≡ ok ps)
        × SameSummary r (finish (add_all (create ps) rows)).1
        × ((seen : List AlertRecord) (row : AlertRecord)
            → (judged ps rows seen row ≡ r.suppressed_row_ids row)
              × ((hidden_by_all ps seen row && not (judged ps rows seen row)) ≡ is_unseen r row))
  unfolding evaluate_suppression
  accumulator-evaluate_suppression panels rows r e = elim (Result-cases (interpret_panels panels)) [
    | inl (problem, failed) ↦ absurd (no_result problem failed)
    | inr (ps, done) ↦
        let parsed : All IsParsed ps =
          subst (OfOk (All IsParsed)) done (interpret_panels-IsParsed panels) in
        let result : evaluate_interpretations rows ps ≡ r = has_result ps done in
        (
          ps,
          done,
          subst (λ x. SameSummary x (finish (add_all (create ps) rows)).1) result
              (finish_same ps rows parsed),
          λ seen row. (
            judged-suppressed ps rows seen row parsed
                ∙ ap (λ (x : SuppressionResult). x.suppressed_row_ids row) result,
            judged-unseen ps rows seen row parsed ∙ ap (λ x. is_unseen x row) result,
          ),
        )
  ]
    where
      no_result : (problem : ParseError) → interpret_panels panels ≡ err problem → ⊥
      no_result problem failed = let e' : err problem ≡ ok r = rw (failed) at e in cc e'

      has_result :
          (ps : List PanelInterpretation)
          → interpret_panels panels ≡ ok ps
          → evaluate_interpretations rows ps ≡ r
      has_result ps done =
          let e' : ok (evaluate_interpretations rows ps) ≡ ok r = rw (done) at e in cc e'
