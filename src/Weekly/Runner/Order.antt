-- ===== src/Weekly/Runner/Order.antt =====
-- One outcome per planned week, in order, and no week published behind one that was not.
use alerts_bi.Common.{
  Text, ℕ, ◌++◌, ◌≡◌, refl, ap, sym, subst, ◌∙◌, Option, none, some, true, false, not, List, [],
  ◌∷◌, map, is_empty, Bool-cases, inl, inr, All, All-map, ◌&&◌, ◌⊎◌,
}
use alerts_bi.Common.Unicode.{Unicode}
use alerts_bi.Common.Result.{Result-cases}
use alerts_bi.Review.Publication.{publish_run}
use alerts_bi.Weekly.{WeeklyPlan, plan_weeks, retention_days}
use alerts_bi.Weekly.Runner.{
  is_published, is_expired, Outcome, WeeklyDatabase, Environment, Progress, Round, publish_week,
  store_or_publish, judge_week, week_round, run_due, run_plan, run_team, started, expired_outcome,
  publisher, run_health, is_overdue, first_held, forced_note, latest_published_end, stored_round,
}

-- What a round over the week of `end` keeps to.
unfoldable IsRound : ℕ → Progress → Round → Type 0
IsRound end p r =
    (r.outcome.window_end ≡ some end)
    × (r.progress.publishing ≡ is_published r.outcome.outcome)
    × (p.publishing ≡ false → r.progress.publishing ≡ false)
    × (r.progress.publishing ≡ true → r.progress.allow_gap ≡ false)
    × (is_expired r.outcome.outcome ≡ false)

-- Where a later outcome is a publication, an earlier one is one too or is of an expired week.
unfoldable pub IsPublishedInOrder : List Outcome → Type 0
IsPublishedInOrder [] = Unit
IsPublishedInOrder (o ∷ os) =
    All
      (λ later.
        is_published later.outcome ≡ true
        → (is_published o.outcome ≡ true) ⊎ (is_expired o.outcome ≡ true))
      os
    × IsPublishedInOrder os

All-always {ℓ κ} : {A : Type ℓ} {P : A → Type κ} (xs : List A) → ((x : A) → P x) → All P xs
All-always [] f = tt
All-always (x ∷ xs) f = (f x, All-always xs f)

module _ ⦃u : Unicode⦄ (env : Environment) (team : Text) (now : ℕ) where
  publish_week-IsRound :
      (run_id : Text) (end : ℕ) (problems : List Text) (remark : Option Text) (p : Progress)
      (db : WeeklyDatabase)
      → p.publishing ≡ true
      → IsRound end p (publish_week env team now run_id end problems remark p db)
  unfolding publish_week IsRound
  publish_week-IsRound run_id end problems remark p db h =
      elim (Result-cases
        (publish_run run_id (some publisher) remark false p.allow_gap (env.clock end) db.review)) [
          | inl (e, c) ↦ rw (publish_week, c) (refl, refl, λ n. refl, λ n. cc, refl)
          | inr (o, c) ↦ rw (publish_week, c) (refl, h, λ n. cc, λ n. refl, refl)
        ]

  store_or_publish-IsRound :
      (run_id : Text) (end : ℕ) (problems : List Text) (remark : Option Text) (p : Progress)
      (db : WeeklyDatabase)
      → IsRound end p (store_or_publish env team now run_id end problems remark p db)
  unfolding store_or_publish
  store_or_publish-IsRound run_id end problems remark p db = elim (Bool-cases p.publishing) [
    | inl e ↦
        subst (IsRound end p) (sym (rw e refl))
          (publish_week-IsRound run_id end problems remark p db e)
    | inr e ↦
        subst (IsRound end p) {x = stored_round env team now run_id end p db} (sym (rw e refl))
          (unfold IsRound in (refl, e, λ n. e, λ n. cc, refl))
  ]

  judge_week-IsRound :
      (run_id : Text) (end : ℕ) (p : Progress) (db : WeeklyDatabase)
      → IsRound end p (judge_week env team now run_id end p db)
  unfolding judge_week
  judge_week-IsRound run_id end p db =
      let problems = run_health db run_id in
      elim (Bool-cases (is_empty problems)) [
        | inl e ↦ rw e (store_or_publish-IsRound run_id end problems none p db)
        | inr e ↦
            elim (Bool-cases (not (p.publishing && is_overdue now (first_held db team end)))) [
              | inl f ↦ rw (e, f) (unfold IsRound in (refl, refl, λ n. refl, λ n. cc, refl))
              | inr f ↦
                  rw (e, f)
                    (store_or_publish-IsRound run_id end problems
                      (some (forced_note (db.unassessed run_id))) p db)
            ]
      ]

  week_round-IsRound :
      (end : ℕ) (p : Progress) (db : WeeklyDatabase)
      → IsRound end p (week_round env team now end p db)
  unfolding week_round
  week_round-IsRound end p db =
      let ran = env.run_week team end db in
      elim (Result-cases ran.1) [
        | inl (e, c) ↦ rw (week_round, c) (unfold IsRound in (refl, refl, λ n. refl, λ n. cc, refl))
        | inr (run_id, c) ↦ rw (week_round, c) (judge_week-IsRound run_id end p ran.0)
      ]

  run_due-windows :
      (ends : List ℕ) (p : Progress) (db : WeeklyDatabase)
      → map (λ o. o.window_end) (run_due env team now ends p db).1 ≡ map some ends
  unfolding run_due IsRound
  run_due-windows [] p db = refl
  run_due-windows (end ∷ ends) p db =
      let round = week_round env team now end p db in
      let first = week_round-IsRound end p db in
      rw (first.0, run_due-windows ends round.progress round.db) refl

  run_due-stopped :
      (ends : List ℕ) (p : Progress) (db : WeeklyDatabase)
      → p.publishing ≡ false
      → All (λ o. is_published o.outcome ≡ false) (run_due env team now ends p db).1
  unfolding run_due IsRound
  run_due-stopped [] p db h = tt
  run_due-stopped (end ∷ ends) p db h =
      let round = week_round env team now end p db in
      let first = week_round-IsRound end p db in
      let stops = first.2 h in
      (sym first.1 ∙ stops, run_due-stopped ends round.progress round.db stops)

  run_due-IsPublishedInOrder :
      (ends : List ℕ) (p : Progress) (db : WeeklyDatabase)
      → IsPublishedInOrder (run_due env team now ends p db).1
  unfolding run_due IsPublishedInOrder IsRound
  run_due-IsPublishedInOrder [] p db = tt
  run_due-IsPublishedInOrder (end ∷ ends) p db =
      let round = week_round env team now end p db in
      let first = week_round-IsRound end p db in
      let rest = (run_due env team now ends round.progress round.db).1 in
      let in_order = run_due-IsPublishedInOrder ends round.progress round.db in
      elim (Bool-cases round.progress.publishing) [
        | inl e ↦ (All-always rest (λ o n. inl (sym first.1 ∙ e)), in_order)
        | inr e ↦ (
          All-map rest (λ o no n. absurd cc) (run_due-stopped ends round.progress round.db e),
          in_order,
        )
      ]

  expired-IsPublishedInOrder :
      (ends : List ℕ) (os : List Outcome)
      → IsPublishedInOrder os
      → IsPublishedInOrder (map (expired_outcome env team now) ends ++ os)
  unfolding IsPublishedInOrder
  expired-IsPublishedInOrder [] os h = h
  expired-IsPublishedInOrder (end ∷ ends) os h =
      (All-always _ (λ o n. inr refl), expired-IsPublishedInOrder ends os h)

  expired-windows :
      (ends due : List ℕ) (os : List Outcome)
      → map (λ o. o.window_end) os ≡ map some due
      → map (λ o. o.window_end) (map (expired_outcome env team now) ends ++ os)
        ≡ map some (ends ++ due)
  expired-windows [] due os h = h
  expired-windows (end ∷ ends) due os h = ap (λ l. some end ∷ l) (expired-windows ends due os h)

  run_plan-in_order :
      (plan : WeeklyPlan) (db : WeeklyDatabase)
      → plan.blocked ≡ false
      → (map (λ o. o.window_end) (run_plan env team now plan false db).1
          ≡ map some (plan.expired ++ plan.due))
        × IsPublishedInOrder (run_plan env team now plan false db).1
  unfolding run_plan
  run_plan-in_order plan db h =
      let after = run_due env team now plan.due (started env team now plan) db in
      rw h (
        expired-windows plan.expired plan.due after.1 (run_due-windows plan.due _ db),
        expired-IsPublishedInOrder plan.expired after.1 (run_due-IsPublishedInOrder plan.due _ db),
      )

  -- For a team that is not blocked, a run of the schedule that is no dry run, where no exception
  -- ends it, has exactly one outcome per planned week, in the order of the weeks, and it publishes a
  -- week only if each week in front of it was published too or is of an expired one.
  pub run_team-in_order :
      (db : WeeklyDatabase)
      → (plan_weeks (latest_published_end db team) now retention_days).blocked ≡ false
      → (map (λ o. o.window_end) (run_team env team now false db).1
          ≡ map some (
              (plan_weeks (latest_published_end db team) now retention_days).expired
              ++ (plan_weeks (latest_published_end db team) now retention_days).due))
        × IsPublishedInOrder (run_team env team now false db).1
  unfolding run_team
  run_team-in_order db h =
      run_plan-in_order (plan_weeks (latest_published_end db team) now retention_days) db h
