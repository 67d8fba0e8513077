-- ===== src/Weekly/Runner.antt =====
-- src/weekly/runner.py: running and publishing the due weeks of the enrolled teams. The store is
-- the tables of the publications, the model's coverage of each run and the schedule's log. What
-- runs a week (the orchestrator, the persistence of the run and its report) is an argument, and so
-- are the clock and the texts of exceptions. A statement that the database itself refuses ends
-- the run of a team as an exception, and is left out where the log is written; so is the log of the
-- process.
pub mod Order
pub mod Held
pub mod Store
pub mod Stops
use alerts_bi.Common.{
  Text, ℕ, zero, suc, codes, ◌+◌, ◌*◌, ◌++◌, Option, none, some, Bool, true, false, not, ◌&&◌, List,
  [], ◌∷◌, if◌then◌else◌, leb, eqb, text_eq, ◌==◌, ltb, map, keep, take, drop, ◌||◌, all, any,
  contains, find_first, is_some, is_empty,
}
use alerts_bi.Common.Decimal.{decimal}
use alerts_bi.Common.Unicode.{Unicode}
use alerts_bi.Common.Result.{Result, ok, err}
use alerts_bi.Domain.Time.{day, week}
use alerts_bi.Review.Publication.{
  Run, Publication, Database, Refusal, PublishResult, is_current, publish_run,
}
use alerts_bi.Weekly.{WeeklyPlan, plan_weeks, retention_days}

abbrev pub publisher : Text
publisher = codes "weekly-schedule"

abbrev pub hold_days : ℕ
hold_days = 3

-- What became of a week, or of a team.
pub data Kind : Type 0 where
  published held stored failed blocked expired due : Kind

abbrev pub is_published : Kind → Bool
is_published published = true
is_published _ = false

abbrev pub is_held : Kind → Bool
is_held held = true
is_held _ = false

abbrev pub is_expired : Kind → Bool
is_expired expired = true
is_expired _ = false

pub record Outcome : Type 0 where
  pub team_id : Text
  pub window_end : Option ℕ
  pub outcome : Kind
  pub run_id : Option Text
  pub detail : Option Text

-- `outcome in NEEDS_ATTENTION`.
unfoldable pub needs_attention : Outcome → Bool
needs_attention o = elim o.outcome [ held ↦ true | failed ↦ true | blocked ↦ true | _ ↦ false ]

-- A row of `weekly_review_log`.
pub record LogRow : Type 0 where
  pub invoked_at : ℕ
  pub logged : Outcome

pub record WeeklyDatabase : Type 0 where
  pub review : Database
  pub llm_assessed : Text → Bool
  pub unassessed : Text → ℕ
  pub log : List LogRow

-- Where a team's run is ended by an exception outside of the two calls that it guards, the reading
-- of the store: before its due weeks, or behind the run of a week, so many weeks being finished.
pub data Stop : Type 0 where
  before_weeks : Text → Stop
  in_week : ℕ → Text → Stop

-- What runs and stores a week, giving the id of the run or the exception's text; whether the run of
-- a team is ended by an exception; the clock when the week of an end is published; texts.
pub record Environment : Type 0 where
  pub run_week : Text → ℕ → WeeklyDatabase → WeeklyDatabase × Result Text Text
  pub stopped : Text → WeeklyDatabase → Option Stop
  pub clock : ℕ → ℕ
  pub date_text : ℕ → Text
  pub refusal_text : Refusal → Text
  pub blocked_text : Text

-- The problems of a run that is in the store.
unfoldable pub problems_of : Run → Bool → ℕ → List Text
problems_of run assessed count =
    (if run.status == codes "completed" then [] else (codes "the run is " ++ run.status) ∷ [])
    ++ (if assessed then [] else codes "the model did not assess this week" ∷ [])
    ++ (if eqb count 0
        then []
        else (decimal count ++ codes " alert(s) were not assessed by the model") ∷ [])

unfoldable pub run_health : WeeklyDatabase → Text → List Text
unfolding problems_of
run_health db run_id = elim (find_first (λ (r : Run). r.run_id == run_id) db.review.runs) [
  | none ↦ codes "the run is not in the store" ∷ []
  | some run ↦ problems_of run (db.llm_assessed run_id) (db.unassessed run_id)
]

-- `"; ".join(parts)`.
unfoldable pub join_problems : List Text → Text
join_problems [] = []
join_problems (p ∷ []) = p
join_problems (p ∷ (q ∷ ps)) = p ++ codes "; " ++ join_problems (q ∷ ps)

-- `(detail or "")[:1000] or None`.
unfoldable pub clipped : Option Text → Option Text
clipped none = none
clipped (some t) = if t == [] then none else some (take 1000 t)

unfoldable pub log_outcome : ℕ → WeeklyDatabase → Outcome → WeeklyDatabase
unfolding clipped
log_outcome at db o = record db {
  log = record { invoked_at = at; logged = record o { detail = clipped o.detail } } ∷ db.log;
}

unfoldable pub log_outcomes : ℕ → WeeklyDatabase → List Outcome → WeeklyDatabase
unfolding log_outcome
log_outcomes at db [] = db
log_outcomes at db (o ∷ os) = log_outcomes at (log_outcome at db o) os

-- The row holds the week of the team.
unfoldable pub is_hold : Text → ℕ → LogRow → Bool
is_hold team end row =
    row.logged.team_id == team
    && is_held row.logged.outcome
    && elim row.logged.window_end [ none ↦ false | some e ↦ eqb e end ]

-- MIN(invoked_at), over no row NULL.
unfoldable pub earliest : List LogRow → Option ℕ
earliest [] = none
earliest (row ∷ rows) = elim (earliest rows) [
  | none ↦ some row.invoked_at
  | some at ↦ if ltb row.invoked_at at then some row.invoked_at else some at
]

unfoldable pub first_held : WeeklyDatabase → Text → ℕ → Option ℕ
unfolding is_hold earliest
first_held db team end = earliest (keep (is_hold team end) db.log)

unfoldable pub forced_note : ℕ → Text
forced_note count =
    codes "Published automatically after 3 days: the automated review could not assess "
    ++ (if eqb count 1 then codes "1 alert" else decimal count ++ codes " alerts")
    ++ codes " this week. They are shown as Not reviewed; rule findings are complete."

-- MAX(window_end), over no row NULL.
unfoldable pub latest_of : List Publication → Option ℕ
latest_of [] = none
latest_of (p ∷ ps) = elim (latest_of ps) [
  | none ↦ some p.window_end
  | some at ↦ if ltb at p.window_end then some p.window_end else some at
]

unfoldable pub latest_published_end : WeeklyDatabase → Text → Option ℕ
unfolding latest_of
latest_published_end db team =
    latest_of (keep (λ p. p.team_id == team && is_current p) db.review.publications)

-- `first_held is not None and now - first_held >= timedelta(days=HOLD_DAYS)`.
unfoldable pub is_overdue : ℕ → Option ℕ → Bool
is_overdue now none = false
is_overdue now (some at) = leb (at + hold_days * day) now

-- The variables of the loop over the due weeks.
pub record Progress : Type 0 where
  pub allow_gap : Bool
  pub publishing : Bool
  pub held_week : Option ℕ

-- What a round of the loop leaves.
pub record Round : Type 0 where
  pub db : WeeklyDatabase
  pub progress : Progress
  pub outcome : Outcome

module _ ⦃u : Unicode⦄ (env : Environment) (team : Text) (now : ℕ) where
  abbrev pub outcome_of : ℕ → Kind → Option Text → Option Text → Outcome
  outcome_of end kind run_id detail = record {
    team_id = team;
    window_end = some end;
    outcome = kind;
    run_id = run_id;
    detail = detail;
  }

  -- What follows the questions whether the week is held and whether weeks are still published.
  unfoldable pub publish_week :
      Text → ℕ → List Text → Option Text → Progress → WeeklyDatabase → Round
  unfolding join_problems
  publish_week run_id end problems remark p db =
      elim (publish_run run_id (some publisher) remark false p.allow_gap (env.clock end)
        db.review) [
          | err e ↦ record {
            db = db;
            progress = record p { publishing = false };
            outcome = outcome_of end failed (some run_id) (some (env.refusal_text e));
          }
          | ok (review, _) ↦ record {
            db = record db { review = review };
            progress = record p { allow_gap = false };
            outcome = outcome_of end published (some run_id) (
                if is_some remark
                then some (codes "published after 3 days held: " ++ join_problems problems)
                else none);
          }
        ]

  unfoldable pub waiting_text : Option ℕ → Text
  waiting_text none = codes "waiting for an earlier week that failed"
  waiting_text (some end) =
      codes "waiting for the week ending " ++ env.date_text end ++ codes " to be published"

  abbrev pub stored_round : Text → ℕ → Progress → WeeklyDatabase → Round
  stored_round run_id end p db = record {
    db = db;
    progress = p;
    outcome = outcome_of end stored (some run_id) (some (waiting_text p.held_week));
  }

  unfoldable pub store_or_publish :
      Text → ℕ → List Text → Option Text → Progress → WeeklyDatabase → Round
  unfolding publish_week waiting_text
  store_or_publish run_id end problems remark p db =
      if p.publishing
      then publish_week run_id end problems remark p db
      else stored_round run_id end p db

  -- A week that is stored: held, stored or published.
  unfoldable pub judge_week : Text → ℕ → Progress → WeeklyDatabase → Round
  unfolding run_health first_held is_overdue forced_note join_problems store_or_publish
  judge_week run_id end p db =
      let problems = run_health db run_id in
      if is_empty problems
      then store_or_publish run_id end problems none p db
      else if not (p.publishing && is_overdue now (first_held db team end))
      then record {
        db = db;
        progress = record p {
          publishing = false;
          held_week = elim p.held_week [ none ↦ some end | some e ↦ some e ];
        };
        outcome = outcome_of end held (some run_id) (some (join_problems problems));
      }
      else store_or_publish run_id end problems (some (forced_note (db.unassessed run_id))) p db

  -- One round of the loop.
  unfoldable pub week_round : ℕ → Progress → WeeklyDatabase → Round
  unfolding judge_week
  week_round end p db =
      let ran = env.run_week team end db in
      elim ran.1 [
        | err e ↦ record {
          db = ran.0;
          progress = record p { publishing = false };
          outcome = outcome_of end failed none (some e);
        }
        | ok run_id ↦ judge_week run_id end p ran.0
      ]

  unfoldable pub run_due : List ℕ → Progress → WeeklyDatabase → WeeklyDatabase × List Outcome
  unfolding week_round
  run_due [] p db = (db, [])
  run_due (end ∷ ends) p db =
      let round = week_round end p db in
      let rest = run_due ends round.progress round.db in (rest.0, round.outcome ∷ rest.1)

  abbrev pub expired_outcome : ℕ → Outcome
  expired_outcome end = outcome_of end expired none (
      some (
        codes
          "older than Elasticsearch retention; not run, and the next week is published across the gap"))

  abbrev pub started : WeeklyPlan → Progress
  started plan = record {
    allow_gap = not (is_empty plan.expired);
    publishing = true;
    held_week = none;
  }

  unfoldable pub run_plan : WeeklyPlan → Bool → WeeklyDatabase → WeeklyDatabase × List Outcome
  unfolding run_due
  run_plan plan dry_run db =
      if plan.blocked
      then (
        db,
        record {
          team_id = team;
          window_end = none;
          outcome = blocked;
          run_id = none;
          detail = some env.blocked_text;
        }
            ∷ [],
      )
      else if dry_run
      then (
        db,
        map expired_outcome plan.expired ++ map (λ end. outcome_of end due none none) plan.due,
      )
      else (let ran = run_due plan.due (started plan) db in
          (ran.0, map expired_outcome plan.expired ++ ran.1))

  unfoldable pub run_team : Bool → WeeklyDatabase → WeeklyDatabase × List Outcome
  unfolding plan_weeks latest_published_end run_plan
  run_team dry_run db =
      run_plan (plan_weeks (latest_published_end db team) now retention_days) dry_run db

  -- The week that is run last, the first one of those that are left.
  unfoldable pub interrupted : List ℕ → WeeklyDatabase → WeeklyDatabase
  interrupted [] db = db
  interrupted (end ∷ ends) db = (env.run_week team end db).0

  -- The store where the exception leaves it.
  unfoldable pub stopped_db : Stop → Bool → WeeklyDatabase → WeeklyDatabase
  unfolding plan_weeks latest_published_end run_due interrupted
  stopped_db (before_weeks e) dry_run db = db
  stopped_db (in_week finished e) dry_run db =
      let plan = plan_weeks (latest_published_end db team) now retention_days in
      let part = run_due (take finished plan.due) (started plan) db in
      if plan.blocked || dry_run then db else interrupted (drop finished plan.due) part.0

  abbrev pub stop_text : Stop → Text
  stop_text (before_weeks e) = e
  stop_text (in_week finished e) = e

  -- The `try` around _run_team: an exception takes the place of the outcomes.
  unfoldable pub guarded_team : Bool → WeeklyDatabase → WeeklyDatabase × List Outcome
  unfolding run_team stopped_db
  guarded_team dry_run db = elim (env.stopped team db) [
    | none ↦ run_team dry_run db
    | some s ↦ (
      stopped_db s dry_run db,
      record {
        team_id = team;
        window_end = none;
        outcome = failed;
        run_id = none;
        detail = some (stop_text s);
      }
          ∷ [],
    )
  ]

module _ ⦃u : Unicode⦄ (env : Environment) (now : ℕ) where
  -- The loop over the enrolled teams.
  unfoldable pub run_teams : List Text → Bool → WeeklyDatabase → WeeklyDatabase × List Outcome
  unfolding guarded_team log_outcomes
  run_teams [] dry_run db = (db, [])
  run_teams (team ∷ teams) dry_run db =
      let ran = guarded_team env team now dry_run db in
      let logged = if dry_run then ran.0 else log_outcomes now ran.0 ran.1 in
      let rest = run_teams teams dry_run logged in (rest.0, ran.1 ++ rest.1)

-- A team of the registry, as far as it is read here.
pub record TeamEntry : Type 0 where
  pub team_id : Text
  pub weekly_review : Bool

-- ValueError, with the teams that are named and not enrolled, in the order they are named (the
-- message sorts them); WeeklyBusy.
pub data Refused : Type 0 where
  not_enrolled : List Text → Refused
  busy : Refused

unfoldable pub enrolled_teams : List TeamEntry → List Text → Result Refused (List Text)
enrolled_teams teams only =
    let known =
      map (λ (t : TeamEntry). t.team_id) (keep (λ (t : TeamEntry). t.weekly_review) teams) in
    let missing = keep (λ t. not (contains known t)) only in
    if is_empty only
    then ok known
    else if is_empty missing
    then ok (keep (contains only) known)
    else err (not_enrolled missing)

-- `locked`: another invocation holds the schedule's lock. The clock of the invocation is `now`.
unfoldable pub run_weekly :
    ⦃u : Unicode⦄
    → Environment
    → ℕ
    → List TeamEntry
    → List Text
    → Bool
    → Bool
    → WeeklyDatabase
    → Result Refused (WeeklyDatabase × List Outcome)
unfolding enrolled_teams run_teams
run_weekly env now teams only dry_run locked db = elim (enrolled_teams teams only) [
  | err e ↦ err e
  | ok enrolled ↦ if locked then err busy else ok (run_teams env now enrolled dry_run db)
]

unfoldable pub next_due : Option ℕ → ℕ → ℕ
unfolding plan_weeks
next_due latest now = elim (plan_weeks latest now retention_days).due [
  | [] ↦ elim latest [ none ↦ now + week | some end ↦ end + week ]
  | end ∷ ends ↦ end
]
