-- ===== src/Examples/Weekly.antt =====
-- The schedule's loop on one team with a published week and a held one.
use alerts_bi.Common.{
  Text, ℕ, codes, ◌-◌, ◌*◌, ◌+◌, ◌≡◌, refl, none, some, true, false, [], ◌∷◌, map, ◌++◌, any, ◌⊎◌,
}
use alerts_bi.Common.Result.{ok}
use alerts_bi.Common.Unicode.{ascii}
use alerts_bi.Domain.Time.{day, week}
use alerts_bi.Review.Publication.{publish_run}
use alerts_bi.Common.Decimal.{decimal}
use alerts_bi.Weekly.{plan_weeks, retention_days}
use alerts_bi.Weekly.Runner.{
  Outcome, held, in_week, WeeklyDatabase, Environment, Progress, is_published, is_held, week_round,
  run_team, latest_published_end,
}
use alerts_bi.Weekly.Runner.Order.{IsPublishedInOrder, run_team-in_order}
use alerts_bi.Weekly.Runner.Held.{is_old_hold, IsHealthy, week_round-not_held, week_round-published}

abbrev team : Text
team = codes "payments"

-- A run is named by the end of its week, as one code point.
abbrev environment : Environment
environment = record {
  run_week = λ t end db. (
    record db {
      review = record db.review {
        runs =
            record {
              run_id = end ∷ [];
              team_id = t;
              window_start = end - week;
              window_end = end;
              status = codes "completed";
            }
            ∷ db.review.runs;
      };
    },
    ok (end ∷ []),
  );
  stopped = λ t db. none;
  clock = λ end. end;
  date_text = λ end. end ∷ [];
  refusal_text = λ r. codes "refused";
  blocked_text = codes "blocked";
}

-- The tenth week is published; the eleventh was held an hour after its end.
abbrev store : WeeklyDatabase
store = record {
  review = record {
    runs = [];
    publications =
        record {
          publication_id = 0;
          run_id = codes "old";
          team_id = team;
          window_start = 9 * week;
          window_end = 10 * week;
          published_at = 10 * week;
          published_by = codes "dana";
          review_note = none;
          withdrawal = none;
        }
        ∷ [];
    next_id = 1;
  };
  llm_assessed = λ r. true;
  unassessed = λ r. 2;
  log =
      record {
        invoked_at = 11 * week;
        logged = record {
          team_id = team;
          window_end = some (11 * week);
          outcome = held;
          run_id = none;
          detail = none;
        };
      }
      ∷ [];
}

abbrev now : ℕ
now = 12 * week + 4 * day

abbrev progress : Progress
progress = record { allow_gap = false; publishing = true; held_week = none }

run_team-in_order_example :
    (map (λ (o : Outcome). o.window_end) (run_team ⦃u = ascii⦄ environment team now false store).1
      ≡ map some (
          (plan_weeks (latest_published_end store team) now retention_days).expired
          ++ (plan_weeks (latest_published_end store team) now retention_days).due))
    × IsPublishedInOrder (run_team ⦃u = ascii⦄ environment team now false store).1
run_team-in_order_example = run_team-in_order ⦃u = ascii⦄ environment team now store is_open
  where
    is_open : (plan_weeks (latest_published_end store team) now retention_days).blocked ≡ false
    is_open = unfold plan_weeks in unfold latest_published_end in refl

week_round-not_held_example :
    is_held (week_round ⦃u = ascii⦄ environment team now (11 * week) progress store).outcome.outcome
    ≡ false
week_round-not_held_example =
    week_round-not_held ⦃u = ascii⦄ environment team now (11 * week) progress store refl refl
      (unfold is_old_hold in refl)

week_round-published_example :
    (run_id : Text) × ((environment.run_week team (11 * week) store).1 ≡ ok run_id)
    × (IsHealthy ⦃u = ascii⦄ environment team now
          (environment.run_week team (11 * week) store).0
          run_id
        ⊎ (any
              (is_old_hold now team (11 * week))
              (environment.run_week team (11 * week) store).0.log
            ≡ true))
week_round-published_example =
    week_round-published ⦃u = ascii⦄ environment team now (11 * week) progress store is_accepted
  where
    is_accepted :
        is_published
          (week_round ⦃u = ascii⦄ environment team now (11 * week) progress store).outcome.outcome
        ≡ true
    is_accepted = unfold week_round in unfold publish_run in unfold decimal in refl

-- The store cannot be read behind the run of the team's first week.
abbrev broken : Environment
broken = record environment { stopped = λ t db. some (in_week 0 (codes "lost connection")) }
