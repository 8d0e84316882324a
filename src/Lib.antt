-- ===== src/Lib.antt =====
-- The job machinery of Shkandal's ML worker, the contracts for the answers that it gets about Cases,
-- and the handlers that turn these answers into Cases.
--
-- Shkandal turns news articles into Cases, dossiers of one story each. Work is a row of the jobs
-- table. The planner looks for missing work and enqueues jobs; a worker process runs cycles, in each
-- of which a number of workers claim jobs from the table and run a handler on them; what the handler
-- ends with decides whether the row is completed, failed, or put back. All processes share the
-- table, and a pause that begins when the model's provider limits the rate of calls. The handlers
-- ask a language model, whose answers are accepted only when they fit their contract.
--
-- Which file models which part (paths from the repository's root):
--   Jobs, with Jobs/Enqueue, Claim, Finish and Summary: ArticleJobStore of
--     packages/database/src/shkandal_database/jobs.py, one function per method; a table is a list of
--     rows, and a method is a function of the list. The row is the class Job of models.py.
--   Jobs/Invariant, Lifecycle, Claiming, Enqueueing, Requests, Pending, Retries, Revisions,
--     Deferral and Drain: its theorems;
--     Lifecycle has the store as a step relation, one transaction a step.
--   Cooldowns: LlmCooldownStore of packages/database/src/shkandal_database/llm_cooldowns.py; the
--     state is the row of the store's scope.
--   Planning, with Tables, Queries and Passes: MlJobPlanner of
--     apps/worker-ml/src/worker_ml/runtime/planning.py; a query is joined rows, a condition, an
--     order and a limit. Missing, Refresh, Ensured and Ensuring have its theorems.
--   Execution: _CycleExecutor of apps/worker-ml/src/worker_ml/runtime/execution.py. Claims is about
--     the claim loop, Schedule about its
--     schedule and Handling about what the jobs end with; Workers has the workers of a cycle as a
--     step relation.
--   Contracts, with Resolution, Copy and Audits: the answers about Cases in
--     apps/worker-ml/src/worker_ml/llm/contracts/cases.py with their constraints and validators.
--   Cases: the tables of the published Cases. Publication: apps/worker-ml/src/worker_ml/cases/
--     publication.py. Resolution, with Recheck, Fallback and Handle:
--     ArticleCaseResolutionJobHandler of cases/resolution.py there. Audits, with Reconcile, Split, Apply and Handle:
--     CaseCoherenceAuditJobHandler of cases/audits.py; the two sessions of its handler are two
--     states of the tables, since other workers may write between them; FollowUp has the jobs after
--     it, and Stories says which Case a story belongs to, without the code's dict. Reviews, with Sessions and Pairs: what cases/reviews.py reads and writes, and its duplicate
--     candidates. Refresh: cases/refresh.py. Evidence: the cards that they read.
--     Their other children have the theorems. Results: what Python's exceptions become.
--   Identities, with Grounded: the anchors of linked events in
--     apps/worker-ml/src/worker_ml/identities/decisions.py; Anchors and Linked have the theorems.
--   Budgeting: the text budgets and card samples of apps/worker-ml/src/worker_ml/llm/budgeting.py.
--   Sql: order, update, join and limit as the queries use them. Text: texts as code points.
--   Prelude: the names that all share. Samples: small tables, and the theorems applied to them.
--
-- How the code is read. Ids are numbers, and the ids that the database generates are arguments.
-- Times are microseconds from the earliest datetime, so a subtraction that Python would refuse with
-- an OverflowError stops at 0; the clock is an argument. A payload lists the ids that its keys
-- carry. A priority is not negative, as for every caller. The jitter ratio is in thousandths, a
-- confidence in millionths, and the quotients that the samples round are exact, where Python has
-- floats; `SystemRandom.randrange`,
-- `str.casefold`, the articles table, the rows that other transactions lock, and the handlers are
-- arguments. Each method of a store is one step, as its transaction is; the two stores' statements
-- at the end of one handler are taken as one step too. Pydantic checks the constraints of the fields
-- before the model validator, and every field has its declared type. Logging is left out.
--
-- The claim loop runs on fuel, one round more than the schedule has types, which is enough: in a
-- schedule without repetition each round tries a new type. All else is structural recursion.
--
-- A handler of Cases takes the model's runs, `UUID`, the new ids, the advisory locks and the vector
-- index as arguments; an error rolls its session back, so it leaves the tables as they were. A
-- confidence of 1 is a million. A batch is at least one card, so as many rounds as there are cards
-- are enough for the batches; the digits of a number need no more rounds than the number.
--
-- Not modelled: run_cycle and the sleeping loop around it, the entities and the handlers of
-- identities and articles, the JSON of the prompts, the loop over the candidates of a duplicate
-- audit, the LLM runner and the repair of answers, ingestion, the public backend, retrieval, schema
-- migrations and demo data, configuration and logging. The first of these are compositions of what is
-- here; the last are input and output.
pub mod Prelude
pub mod Text
pub mod Sql
pub mod Jobs
pub mod Cooldowns
pub mod Planning
pub mod Execution
pub mod Contracts
pub mod Budgeting
pub mod Results
pub mod Cases
pub mod Identities
pub mod Samples
