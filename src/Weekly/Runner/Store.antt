-- ===== src/Weekly/Runner/Store.antt =====
-- What a run of the schedule leaves in the tables of the publications.
use alerts_bi.Common.{
  Text, ℕ, ◌++◌, ◌≡◌, refl, ap, sym, ◌∙◌, subst, Option, none, some, Bool, true, false, not, List,
  [], ◌∷◌, map, is_empty, Bool-cases, inl, inr, text_eq, ◌&&◌, All, ◌⊎◌, if◌then◌else◌,
}
use alerts_bi.Common.Unicode.{Unicode}
use alerts_bi.Common.Result.{Result-cases}
use alerts_bi.Review.Publication.{Publication, Database, publish_run}
use alerts_bi.Review.Publication.Added.{run_ids, publish_run-run_ids}
use alerts_bi.Review.Publication.Separation.{IsSeparated}
use alerts_bi.Review.Publication.Kept.{publish_run-IsSeparated}
use alerts_bi.Weekly.{WeeklyPlan}
use alerts_bi.Weekly.Runner.{
  is_published, Outcome, WeeklyDatabase, Environment, Progress, publish_week, store_or_publish,
  judge_week, week_round, run_due, run_plan, run_team, started, publisher, run_health, is_overdue,
  first_held, forced_note, log_outcomes, log_outcome, stored_round, expired_outcome,
}

-- The runs that the outcomes say are published, the last one in front, onto a list of runs.
unfoldable pub published_onto : List Outcome → List Text → List Text
published_onto [] acc = acc
published_onto (o ∷ os) acc =
    published_onto os
      (if is_published o.outcome then (elim o.run_id [ none ↦ acc | some r ↦ r ∷ acc ]) else acc)

-- The runs published by what led from one store to the other are those of the outcomes, and the
-- published weeks stay apart.
pub record IsAccounted (before : Database) (os : List Outcome) (after : Database) : Type 0 where
  pub listed : run_ids after ≡ published_onto os (run_ids before)
  pub separated : IsSeparated before.publications → IsSeparated after.publications

published_onto-append :
    (os rest : List Outcome) (acc : List Text)
    → published_onto (os ++ rest) acc ≡ published_onto rest (published_onto os acc)
unfolding published_onto
published_onto-append [] rest acc = refl
published_onto-append (o ∷ os) rest acc = published_onto-append os rest _

published_onto-none :
    (os : List Outcome) (acc : List Text)
    → All (λ o. is_published o.outcome ≡ false) os
    → published_onto os acc ≡ acc
unfolding published_onto
published_onto-none [] acc h = refl
published_onto-none (o ∷ os) acc h = rw (h.0) (published_onto-none os acc h.1)

IsAccounted-append :
    (a b c : Database) (os rest : List Outcome)
    → IsAccounted a os b
    → IsAccounted b rest c
    → IsAccounted a (os ++ rest) c
IsAccounted-append a b c os rest f g = record {
  listed =
      g.listed
      ∙ ap (published_onto rest) f.listed
      ∙ sym (published_onto-append os rest (run_ids a));
  separated = λ s. g.separated (f.separated s);
}

-- Nothing but the publications counts.
IsAccounted-subst :
    (a b c : Database) (os : List Outcome)
    → a.publications ≡ b.publications
    → IsAccounted a os c
    → IsAccounted b os c
IsAccounted-subst a b c os h f = record {
  listed = f.listed ∙ ap (λ ps. published_onto os (map (λ (q : Publication). q.run_id) ps)) h;
  separated = λ s. f.separated (subst IsSeparated (sym h) s);
}

IsAccounted-none :
    (db : Database) (os : List Outcome)
    → All (λ o. is_published o.outcome ≡ false) os
    → IsAccounted db os db
IsAccounted-none db os h = record {
  listed = sym (published_onto-none os (run_ids db) h);
  separated = λ s. s;
}

-- Running a week, which stores a run, leaves the publications alone.
abbrev pub KeepsPublications : Environment → Type 0
KeepsPublications env =
    (team : Text) (end : ℕ) (db : WeeklyDatabase)
    → (env.run_week team end db).0.review.publications ≡ db.review.publications

module _ ⦃u : Unicode⦄ (env : Environment) (team : Text) (now : ℕ) where
  publish_week-IsAccounted :
      (run_id : Text) (end : ℕ) (problems : List Text) (remark : Option Text) (p : Progress)
      (db : WeeklyDatabase)
      → IsAccounted db.review
          ((publish_week env team now run_id end problems remark p db).outcome ∷ [])
          (publish_week env team now run_id end problems remark p db).db.review
  unfolding publish_week published_onto
  publish_week-IsAccounted run_id end problems remark p db =
      let at = env.clock end in
      elim (Result-cases
        (publish_run run_id (some publisher) remark false p.allow_gap at db.review)) [
          | inl (e, c) ↦ rw (publish_week, c) (record { listed = refl; separated = λ s. s })
          | inr (o, c) ↦
              rw (publish_week, c)
                (record {
                  listed =
                      publish_run-run_ids run_id (some publisher) remark p.allow_gap at db.review o
                        c;
                  separated =
                      publish_run-IsSeparated run_id (some publisher) remark false p.allow_gap at
                        db.review o c;
                })
        ]

  store_or_publish-cases :
      (run_id : Text) (end : ℕ) (problems : List Text) (remark : Option Text) (p : Progress)
      (db : WeeklyDatabase)
      → (store_or_publish env team now run_id end problems remark p db
          ≡ publish_week env team now run_id end problems remark p db)
        ⊎ (store_or_publish env team now run_id end problems remark p db
            ≡ stored_round env team now run_id end p db)
  unfolding store_or_publish
  store_or_publish-cases run_id end problems remark p db = elim (Bool-cases p.publishing) [
    | inl e ↦ inl (rw e refl)
    | inr e ↦ inr (rw e refl)
  ]

  store_or_publish-IsAccounted :
      (run_id : Text) (end : ℕ) (problems : List Text) (remark : Option Text) (p : Progress)
      (db : WeeklyDatabase)
      → IsAccounted db.review
          ((store_or_publish env team now run_id end problems remark p db).outcome ∷ [])
          (store_or_publish env team now run_id end problems remark p db).db.review
  store_or_publish-IsAccounted run_id end problems remark p db =
      elim (store_or_publish-cases run_id end problems remark p db) [
        | inl e ↦ rw e (publish_week-IsAccounted run_id end problems remark p db)
        | inr e ↦ rw e (IsAccounted-none db.review _ (refl, tt))
      ]

  judge_week-IsAccounted :
      (run_id : Text) (end : ℕ) (p : Progress) (db : WeeklyDatabase)
      → IsAccounted db.review
          ((judge_week env team now run_id end p db).outcome ∷ [])
          (judge_week env team now run_id end p db).db.review
  unfolding judge_week
  judge_week-IsAccounted run_id end p db =
      let problems = run_health db run_id in
      elim (Bool-cases (is_empty problems)) [
        | inl e ↦ rw e (store_or_publish-IsAccounted run_id end problems none p db)
        | inr e ↦
            elim (Bool-cases (not (p.publishing && is_overdue now (first_held db team end)))) [
              | inl f ↦ rw (e, f) (IsAccounted-none db.review _ (refl, tt))
              | inr f ↦
                  rw (e, f)
                    (store_or_publish-IsAccounted run_id end problems
                      (some (forced_note (db.unassessed run_id))) p db)
            ]
      ]

  week_round-IsAccounted :
      (end : ℕ) (p : Progress) (db : WeeklyDatabase)
      → KeepsPublications env
      → IsAccounted db.review
          ((week_round env team now end p db).outcome ∷ [])
          (week_round env team now end p db).db.review
  unfolding week_round
  week_round-IsAccounted end p db keeps =
      let ran = env.run_week team end db in
      let same = keeps team end db in
      elim (Result-cases ran.1) [
        | inl (e, c) ↦
            rw (week_round, c)
              (IsAccounted-subst ran.0.review db.review ran.0.review _ same
                (IsAccounted-none ran.0.review _ (refl, tt)))
        | inr (run_id, c) ↦
            rw (week_round, c)
              (IsAccounted-subst ran.0.review db.review _ _ same
                (judge_week-IsAccounted run_id end p ran.0))
      ]

  pub run_due-IsAccounted :
      (ends : List ℕ) (p : Progress) (db : WeeklyDatabase)
      → KeepsPublications env
      → IsAccounted db.review
          (run_due env team now ends p db).1
          (run_due env team now ends p db).0.review
  unfolding run_due
  run_due-IsAccounted [] p db keeps = IsAccounted-none db.review [] tt
  run_due-IsAccounted (end ∷ ends) p db keeps =
      let round = week_round env team now end p db in
      IsAccounted-append db.review round.db.review _ (round.outcome ∷ []) _
        (week_round-IsAccounted end p db keeps)
        (run_due-IsAccounted ends round.progress round.db keeps)

  unpublished :
      (ends : List ℕ) (f : ℕ → Outcome)
      → ((end : ℕ) → is_published (f end).outcome ≡ false)
      → All (λ o. is_published o.outcome ≡ false) (map f ends)
  unpublished [] f h = tt
  unpublished (end ∷ ends) f h = (h end, unpublished ends f h)

  run_plan-IsAccounted :
      (plan : WeeklyPlan) (dry_run : Bool) (db : WeeklyDatabase)
      → KeepsPublications env
      → IsAccounted db.review
          (run_plan env team now plan dry_run db).1
          (run_plan env team now plan dry_run db).0.review
  unfolding run_plan
  run_plan-IsAccounted plan dry_run db keeps =
      let expired = unpublished plan.expired (expired_outcome env team now) (λ end. refl) in
      let silent = IsAccounted-none db.review _ expired in
      elim (Bool-cases plan.blocked) [
        | inl b ↦ rw b (IsAccounted-none db.review _ (refl, tt))
        | inr b ↦ elim (Bool-cases dry_run) [
          | inl d ↦
              rw (b, d)
                (IsAccounted-append db.review db.review db.review _ _ silent
                  (IsAccounted-none db.review _ (unpublished plan.due _ (λ end. refl))))
          | inr d ↦
              rw (b, d)
                (IsAccounted-append db.review db.review _ _ _ silent
                  (run_due-IsAccounted plan.due (started env team now plan) db keeps))
        ]
      ]

  pub run_team-IsAccounted :
      (dry_run : Bool) (db : WeeklyDatabase)
      → KeepsPublications env
      → IsAccounted db.review
          (run_team env team now dry_run db).1
          (run_team env team now dry_run db).0.review
  unfolding run_team
  run_team-IsAccounted dry_run db keeps = run_plan-IsAccounted _ dry_run db keeps

log_outcomes-review :
    (at : ℕ) (db : WeeklyDatabase) (os : List Outcome) → (log_outcomes at db os).review ≡ db.review
unfolding log_outcomes log_outcome
log_outcomes-review at db [] = refl
log_outcomes-review at db (o ∷ os) = log_outcomes-review at (log_outcome at db o) os

pub logged-review :
    (dry_run : Bool) (at : ℕ) (db : WeeklyDatabase) (os : List Outcome)
    → (if dry_run then db else log_outcomes at db os).review ≡ db.review
logged-review true at db os = refl
logged-review false at db os = log_outcomes-review at db os
