-- ===== src/Weekly/Runner/Held.antt =====
-- A week is held for three days at most, and one with problems is published no sooner.
use alerts_bi.Common.{
  Text, ℕ, ◌+◌, ◌*◌, ◌≤◌, ◌≡◌, refl, Option, none, some, Bool, true, false, not, List, [], ◌∷◌,
  is_empty, arith, Bool-cases, Option-cases, inl, inr, ◌&&◌, ◌||◌, ◌⊎◌, any, keep, leb, codes,
  find_first, ◌==◌, text_eq, text_beq_iff, eqb, eqb_iff,
}
use alerts_bi.Common.Unicode.{Unicode}
use alerts_bi.Common.Result.{ok, Result-cases}
use alerts_bi.Domain.Time.{day}
use alerts_bi.Review.Publication.{Run, publish_run}
use alerts_bi.Weekly.Runner.{
  is_published, is_held, WeeklyDatabase, LogRow, Environment, Progress, publish_week,
  store_or_publish, judge_week, week_round, publisher, run_health, problems_of, is_overdue,
  first_held, forced_note, hold_days, is_hold, earliest, Outcome, log_outcomes, log_outcome,
}

-- A row of the log that held the week of the team, three days ago or longer.
unfoldable pub is_old_hold : ℕ → Text → ℕ → LogRow → Bool
unfolding is_hold
is_old_hold now team end row = is_hold team end row && leb (row.invoked_at + hold_days * day) now

is_overdue-earliest :
    (now : ℕ) (row : LogRow) (rows : List LogRow)
    → is_overdue now (earliest (row ∷ rows))
      ≡ (leb (row.invoked_at + hold_days * day) now || is_overdue now (earliest rows))
unfolding earliest is_overdue
is_overdue-earliest now row rows = elim (Option-cases (earliest rows)) [
  | inl e ↦ ground (arith, e)
  | inr (at, e) ↦ ground (arith, e)
]

is_overdue-any :
    (now : ℕ) (team : Text) (end : ℕ) (rows : List LogRow)
    → is_overdue now (earliest (keep (is_hold team end) rows)) ≡ any (is_old_hold now team end) rows
unfolding is_overdue earliest is_old_hold
is_overdue-any now team end [] = refl
is_overdue-any now team end (row ∷ rows) = elim (Bool-cases (is_hold team end row)) [
  | inl e ↦
      rw
        (
          e,
          is_overdue-earliest now row (keep (is_hold team end) rows),
          is_overdue-any now team end rows,
        )
        refl
  | inr e ↦ rw (e, is_overdue-any now team end rows) refl
]

any-log_outcomes :
    (q : LogRow → Bool) (at : ℕ) (db : WeeklyDatabase) (os : List Outcome)
    → any q db.log ≡ true
    → any q (log_outcomes at db os).log ≡ true
unfolding log_outcomes log_outcome
any-log_outcomes q at db [] h = h
any-log_outcomes q at db (o ∷ os) h =
    any-log_outcomes q at (log_outcome at db o) os (ground (arith, h))

-- What a hold that an invocation logs becomes in the log: an old one, three days on.
pub log_outcomes-is_old_hold :
    (now at : ℕ) (team : Text) (end : ℕ) (db : WeeklyDatabase) (os : List Outcome)
    → at + hold_days * day ≤ now
    → any (λ o. is_hold team end (record { invoked_at = at; logged = o })) os ≡ true
    → any (is_old_hold now team end) (log_outcomes at db os).log ≡ true
unfolding log_outcomes log_outcome is_old_hold is_hold
log_outcomes-is_old_hold now at team end db [] h k = absurd cc
log_outcomes-is_old_hold now at team end db (o ∷ os) h k =
    let row : LogRow = record { invoked_at = at; logged = o } in
    elim (Bool-cases (is_hold team end row)) [
      | inl e ↦
          any-log_outcomes (is_old_hold now team end) at (log_outcome at db o) os
            (ground (arith, e, h))
      | inr e ↦
          log_outcomes-is_old_hold now at team end (log_outcome at db o) os h (ground (arith, k, e))
    ]

is_empty-nil : (ts : List Text) → is_empty ts ≡ true → ts ≡ []
is_empty-nil [] h = refl
is_empty-nil (t ∷ ts) h = absurd cc

module _ ⦃u : Unicode⦄ (env : Environment) (team : Text) (now : ℕ) where
  store_or_publish-not_held :
      (run_id : Text) (end : ℕ) (problems : List Text) (remark : Option Text) (p : Progress)
      (db : WeeklyDatabase)
      → is_held (store_or_publish env team now run_id end problems remark p db).outcome.outcome
        ≡ false
  unfolding store_or_publish publish_week
  store_or_publish-not_held run_id end problems remark p db =
      elim (Result-cases
        (publish_run run_id (some publisher) remark false p.allow_gap (env.clock end) db.review)) [
          | inl (e, c) ↦ ground (arith, c)
          | inr (o, c) ↦ ground (arith, c)
        ]

  judge_week-held :
      (run_id : Text) (end : ℕ) (p : Progress) (db : WeeklyDatabase)
      → is_held (judge_week env team now run_id end p db).outcome.outcome ≡ (
          not (is_empty (run_health db run_id))
          && not (p.publishing && any (is_old_hold now team end) db.log))
  unfolding judge_week first_held
  judge_week-held run_id end p db =
      let problems = run_health db run_id in
      let old = any (is_old_hold now team end) db.log in
      elim (Bool-cases (is_empty problems)) [
        | inl e ↦ rw e (store_or_publish-not_held run_id end problems none p db)
        | inr e ↦
            rw (e, is_overdue-any now team end db.log)
              (elim (Bool-cases (p.publishing && old)) [
                | inl f ↦ rw f (
                    store_or_publish-not_held run_id end problems
                      (some (forced_note (db.unassessed run_id))) p db)
                | inr f ↦ rw f refl
              ])
      ]

  -- While weeks are being published, a week that was held three days ago or longer is not held
  -- again: once it has run, it fails or it is published, whatever its problems. The schedule's log
  -- is what says so, and running the week leaves the log alone.
  pub week_round-not_held :
      (end : ℕ) (p : Progress) (db : WeeklyDatabase)
      → (env.run_week team end db).0.log ≡ db.log
      → p.publishing ≡ true
      → any (is_old_hold now team end) db.log ≡ true
      → is_held (week_round env team now end p db).outcome.outcome ≡ false
  unfolding week_round
  week_round-not_held end p db l h k =
      let ran = env.run_week team end db in
      elim (Result-cases ran.1) [
        | inl (e, c) ↦ rw (week_round, c) refl
        | inr (run_id, c) ↦
            rw (week_round, c, judge_week-held run_id end p ran.0, l, h, k) (ground arith)
      ]

  -- The run is in the store, completed, and the model assessed the week and every alert of it.
  unfoldable pub IsHealthy : WeeklyDatabase → Text → Type 0
  IsHealthy db run_id =
      (run : Run) × (find_first (λ (r : Run). r.run_id == run_id) db.review.runs ≡ some run)
      × (run.status ≡ codes "completed")
      × (db.llm_assessed run_id ≡ true)
      × (db.unassessed run_id ≡ 0)

  problems_of-nil :
      (run : Run) (assessed : Bool) (count : ℕ)
      → problems_of run assessed count ≡ []
      → (run.status ≡ codes "completed") × (assessed ≡ true) × (count ≡ 0)
  unfolding problems_of
  problems_of-nil run assessed count h = elim (Bool-cases (run.status == codes "completed")) [
    | inr e ↦ absurd (ground (arith, h, e))
    | inl e ↦ elim (Bool-cases assessed) [
      | inr f ↦ absurd (ground (arith, h, e, f))
      | inl f ↦ elim (Bool-cases (eqb count 0)) [
        | inr g ↦ absurd (ground (arith, h, e, f, g))
        | inl g ↦ ((text_beq_iff run.status (codes "completed")).0 e, f, (eqb_iff count 0).0 g)
      ]
    ]
  ]

  run_health-IsHealthy :
      (db : WeeklyDatabase) (run_id : Text) → run_health db run_id ≡ [] → IsHealthy db run_id
  unfolding run_health IsHealthy
  run_health-IsHealthy db run_id h =
      elim (Option-cases (find_first (λ (r : Run). r.run_id == run_id) db.review.runs)) [
        | inl e ↦ absurd (ground (arith, h, e))
        | inr (run, e) ↦
            let (completed, assessed, all) =
              problems_of-nil run (db.llm_assessed run_id) (db.unassessed run_id)
                (ground (arith, h, e)) in
            (run, e, completed, assessed, all)
      ]

  judge_week-IsHealthy :
      (run_id : Text) (end : ℕ) (p : Progress) (db : WeeklyDatabase)
      → is_published (judge_week env team now run_id end p db).outcome.outcome ≡ true
      → IsHealthy db run_id ⊎ (any (is_old_hold now team end) db.log ≡ true)
  unfolding judge_week first_held
  judge_week-IsHealthy run_id end p db h =
      let problems = run_health db run_id in
      let old = any (is_old_hold now team end) db.log in
      elim (Bool-cases (is_empty problems)) [
        | inl e ↦ inl (run_health-IsHealthy db run_id (is_empty-nil problems e))
        | inr e ↦ elim (Bool-cases old) [
          | inl f ↦ inr f
          | inr f ↦ absurd (ground (arith, is_overdue-any now team end db.log, h, e, f))
        ]
      ]

  -- A week is published only if it has run, and either its run is in the store as completed, with
  -- the week and each of its alerts assessed by the model, or the log holds the week as held three
  -- days ago or longer.
  pub week_round-published :
      (end : ℕ) (p : Progress) (db : WeeklyDatabase)
      → is_published (week_round env team now end p db).outcome.outcome ≡ true
      → (run_id : Text) × ((env.run_week team end db).1 ≡ ok run_id)
        × (IsHealthy (env.run_week team end db).0 run_id
            ⊎ (any (is_old_hold now team end) (env.run_week team end db).0.log ≡ true))
  unfolding week_round
  week_round-published end p db h =
      let ran = env.run_week team end db in
      elim (Result-cases ran.1) [
        | inl (e, c) ↦ absurd (ground (arith, h, c))
        | inr (run_id, c) ↦
            (run_id, c, judge_week-IsHealthy run_id end p ran.0 (ground (arith, h, c)))
      ]
