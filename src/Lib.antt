-- ===== src/Lib.antt =====
-- Alerts BI: the deterministic core of the weekly review of a team's alerts.
--
-- The program reads the alerts that fired in a week, in two schemas (V1, Appchi, and V2, Appchi V2),
-- judges each row by rules, judges each alert's firing pattern, finds the alerts that a team's own
-- panels suppress, sends the rest to a language model in batches, and publishes the result as the
-- review of that week. Modelled are the parts that decide; paths are from the repository's root.
--
--   Common        Python's tests, lists, texts, sorting and exceptions, as far as the code uses them.
--                 Texts are lists of code points. Unicode's tables are an interface (Common/Unicode)
--                 with laws on ASCII.
--   Domain        src/domain/normalize.py (AlertRecord, select_representative) in Record, and
--                 src/domain/window.py (build_run_window) in Window. Instants are microseconds
--                 since datetime.min, in UTC. Identity has identity_of and split_identity, and
--                 verdict_key of src/db/repositories.py. Metrics is src/domain/metrics.py.
--   Registry      src/registry.py: TeamEntry, validate_registry and select_team, on entries that the
--                 JSON schema has let through.
--   Hashing       src/hashing.py: canonical_encode on the values of Common/Json.
--   Rules         src/rules: text.py in Text, catalogs.py in Catalogs, core.py in Core, readiness.py
--                 in Readiness, phase.py in Phase; R6 in Firing: firing_facts of firing.py in
--                 Firing/Batch, FiringAccumulator of firing_stream.py in Firing/Stream; engine.py in
--                 Engine, its daily counts in Counts.
--   Suppression   src/suppression: lexer.py in Token and Lexer, parser.py in Syntax, Parser and
--                 Panel, fields.py in Fields, variables.py in Variables, evaluate.py in Like, Leaves,
--                 Interpret and Evaluate, stream.py in Accumulate.
--   Weekly        src/weekly/plan.py, and src/weekly/runner.py in Runner (run_weekly, _run_team and
--                 what they call; what runs and stores a week is an argument, and so is where an
--                 exception ends the run of a team).
--   Llm           src/llm/grouping.py in Grouping, response.py in Response, assess.py in Assess; the
--                 hash of a mapping, the client and json.loads are arguments.
--   Review        src/review/publication.py in Publication and decisions.py in Decisions; the tables
--                 are lists of rows.
--   Examples      the properties and some tests on concrete inputs.
--
-- How they interact: the panels' interpretation (Suppression/Interpret) is read by the evaluation of
-- all rows (Suppression/Evaluate) and by the accumulator of the stream (Suppression/Accumulate); the
-- rows that these see are those of Domain/Record, which the rules judge one by one (Rules/Core,
-- Rules/Readiness) and by alert (Rules/Firing), and which Rules/Engine gathers by identity. Weekly
-- plans the windows that Domain/Window splits into dates; Weekly/Runner runs the plan of each team and
-- has Review publish its runs, one week behind the other. Llm/Assess asks the client about the batches
-- of Llm/Grouping, has Llm/Response judge each answer, and enters an outcome for each alert.
--
-- State is passed explicitly: an accumulator is a record that each method returns anew, a table is a
-- list, an exception is a value (Common/Result). Recursion that Python leaves unbounded runs on fuel:
-- the lexer has a round for each character and one, the parser the fuel of Suppression/Panel, a value
-- of its own (out_of_fuel) marking its end; the walk over the dates of a window ten rounds, of which
-- nine are used at most; the plan of weeks a round for each week up to the last and one; a decimal
-- number a round for each unit and one. The attempts of a batch are three, as in the code. Numbers are
-- exact: a quotient that the code computes as a float is kept as a fraction, or compared by
-- multiplication.
--
-- Not modelled: the database, Elasticsearch and the language model's clients, the web pages, reports,
-- logs and messages for people; datetime.fromisoformat and the hash are arguments; the daily counts of
-- flagged alerts (compute_daily_flagged) and the factoring of requests.
pub mod Common
pub mod Domain
pub mod Hashing
pub mod Registry
pub mod Rules
pub mod Suppression
pub mod Weekly
pub mod Llm
pub mod Review
pub mod Examples
