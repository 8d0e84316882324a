-- ===== src/Execution.antt =====
-- apps/worker-ml/src/worker_ml/runtime/execution.py: how a cycle claims jobs and what it does with
-- the outcome of each. The handlers, the clock and `SystemRandom` are arguments; logging is left
-- out. The workers of a cycle stand in Execution/Workers.antt.
pub mod Claims
pub mod Workers
pub mod Handling
pub mod Schedule
use text.Mathlib.Text.{◌==◌ as str_eq}
use shkandal.Prelude.{
  ℕ, none, some, [], true, false, zero, suc, ◌∷◌, String, Option, List, Bool, keep_if, not,
  if◌then◌else◌, any, ◌||◌, ltb, length, is_empty, ◌+◌, leb, ◌%◌, max, ◌*◌, get_elem?, ◌++◌,
}
use shkandal.Cooldowns.{record_rate_limit, LlmCooldown}
use shkandal.Jobs.{ClaimedJob, StoreConfig, Job, Instant, second}
use shkandal.Jobs.Claim.{claim_next_job, ArticleTable}
use shkandal.Jobs.Finish.{fail_job, defer_job, complete_job}
use shkandal.Planning.{job_type_schedule}
use shkandal.Text.{strip, Text}

pub record MlConfig : Type 0 where
  pub service_name : String
  pub poll_interval_seconds : ℕ
  pub claim_batch_size : ℕ
  pub worker_concurrency : ℕ
  pub transient_retry_delay_min_seconds : ℕ

-- How a handler ends: normally, or by one of the exceptions that _execute tells apart. The last is
-- any other exception, with its text and the name of its class.
pub data HandlerResult : Type 0 where
  handled : HandlerResult
  llm_rate_limit : Option ℕ → Text → HandlerResult
  superseded_or_busy : Text → HandlerResult
  vector_store_unavailable : Text → HandlerResult
  llm_dependency_unavailable : Text → HandlerResult
  other_exception : Text → Text → HandlerResult

-- The tables that a cycle works on.
pub record Database : Type 0 where
  pub jobs : List Job
  pub cooldown : Option LlmCooldown

-- The fields of _CycleExecutor that change, with the database.
pub record Executor : Type 0 where
  pub db : Database
  pub schedule_index : ℕ
  pub claimed_jobs : ℕ
  pub processed_jobs : ℕ
  pub failed_jobs : ℕ
  pub stop_claiming : Bool
  pub rate_limit_resume_at : Option Instant

-- A new executor over the database of the cycle.
abbrev pub new_executor : Database → Executor
new_executor db = record {
  db = db;
  schedule_index = 0;
  claimed_jobs = 0;
  processed_jobs = 0;
  failed_jobs = 0;
  stop_claiming = false;
  rate_limit_resume_at = none;
}

-- `self._job_type_schedule`.
unfoldable pub schedule_for : List String → List String
schedule_for job_types = keep_if (λ t. any (λ u. str_eq t u) job_types) job_type_schedule

-- What one round of the loop of _claim_next leads to.
pub data ClaimTry : Type 0 where
  exhausted : ClaimTry
  again : List String → ClaimTry
  claimed_job : ClaimedJob → ClaimTry

-- The arguments that the store's claims get from outside.
pub record ClaimWorld : Type 0 where
  pub store : StoreConfig
  pub articles : ArticleTable
  pub locked : ℕ → Bool
  pub now : Instant

abbrev pub claim_of_type : MlConfig → ClaimWorld → String → List Job → Option ClaimedJob × List Job
claim_of_type settings w job_type rows =
    claim_next_job w.store settings.service_name (some (job_type ∷ [])) w.now w.articles w.locked
      rows

-- The test that _claim_next makes once it has the claim lock.
unfoldable pub may_claim : MlConfig → Executor → Bool
may_claim settings s = not (s.stop_claiming || leb settings.claim_batch_size s.claimed_jobs)

-- One round: the type under the index, which moves on; a type that was tried is passed over.
unfoldable pub claim_try :
    MlConfig → List String → ClaimWorld → List String → Executor → ClaimTry × Executor
unfolding claim_next_job
claim_try settings schedule w attempted s =
    if ltb (length attempted) (length schedule)
    then elim (get_elem? schedule s.schedule_index) [
      | none ↦ (exhausted, s)
      | some job_type ↦
          let moved = record s { schedule_index = (s.schedule_index + 1) % length schedule } in
          if any (λ t. str_eq job_type t) attempted
          then (again attempted, moved)
          else let (claimed, rows) = claim_of_type settings w job_type s.db.jobs in
            elim claimed [
              | none ↦ (again (attempted ++ job_type ∷ []), moved)
              | some job ↦ (
                claimed_job job,
                record moved {
                  claimed_jobs = s.claimed_jobs + 1;
                  db = record s.db { jobs = rows };
                },
              )
            ]
    ]
    else (exhausted, s)

pub data ClaimResult : Type 0 where
  out_of_fuel : ClaimResult
  returns : Option ClaimedJob → Executor → ClaimResult

-- The `while` loop of _claim_next, with fuel, when the clock and the table stay as they are between
-- its rounds; Execution/Workers.antt has the rounds one by one.
unfoldable pub claim_loop :
    ℕ → MlConfig → List String → ClaimWorld → List String → Executor → ClaimResult
unfolding claim_try
claim_loop zero settings schedule w attempted s = out_of_fuel
claim_loop (suc fuel) settings schedule w attempted s =
    let (tried, s') = claim_try settings schedule w attempted s in
    elim tried [
      | exhausted ↦ returns none s'
      | again attempted' ↦ claim_loop fuel settings schedule w attempted' s'
      | claimed_job job ↦ returns (some job) s'
    ]

-- One round more than there are types in the schedule.
unfoldable pub claim_next : MlConfig → List String → ClaimWorld → Executor → ClaimResult
unfolding claim_loop may_claim
claim_next settings schedule w s =
    if may_claim settings s
    then claim_loop (length schedule + 1) settings schedule w [] s
    else returns none s

unfoldable pub processed_revision : ClaimedJob → Option ℕ
processed_revision job = elim job.case_id [ none ↦ none | some c ↦ some job.requested_revision ]

unfoldable pub exception_message : Text → Text → Text
unfolding strip
exception_message message class_name =
    let stripped = strip message in if is_empty stripped then class_name else stripped

-- defer_for_rate_limit: the shared cooldown, and the job until it ends.
unfoldable pub defer_for_rate_limit :
    ClaimedJob → Option ℕ → Text → Instant → Database → Instant × Database
unfolding record_rate_limit defer_job
defer_for_rate_limit job retry_after_seconds message now db =
    let (decision, cooldown) = record_rate_limit retry_after_seconds message now db.cooldown in
    (
      decision.resume_at,
      record {
        jobs = defer_job job.id decision.resume_at message now db.jobs;
        cooldown = cooldown;
      },
    )

-- The first rate limit of a cycle is recorded; the jobs that meet a later one wait for the same time.
unfoldable pub defer_rate_limited_job : ClaimedJob → Option ℕ → Text → Instant → Executor → Executor
unfolding defer_for_rate_limit
defer_rate_limited_job job retry_after_seconds message now s = elim s.rate_limit_resume_at [
  | none ↦
      let (resume_at, db) = defer_for_rate_limit job retry_after_seconds message now s.db in
      record s { stop_claiming = true; rate_limit_resume_at = some resume_at; db = db }
  | some resume_at ↦ record s {
    stop_claiming = true;
    db = record s.db { jobs = defer_job job.id resume_at message now s.db.jobs };
  }
]

unfoldable pub defer_transient_dependency_job :
    MlConfig → ClaimedJob → Text → Instant → Executor → Executor
unfolding defer_job
defer_transient_dependency_job settings job message now s =
    let resume_at =
      now
      + max settings.transient_retry_delay_min_seconds settings.poll_interval_seconds * second in
    record s {
      stop_claiming = true;
      db = record s.db { jobs = defer_job job.id resume_at message now s.db.jobs };
    }

-- _execute, once the handler has ended. `none` is an error of the job store itself.
unfoldable pub execute :
    MlConfig
    → StoreConfig
    → (ℕ → ℕ)
    → ClaimedJob
    → HandlerResult
    → Instant
    → Executor
    → Option Executor
unfolding defer_rate_limited_job defer_transient_dependency_job fail_job complete_job
    processed_revision exception_message defer_job
execute settings store randrange job handled now s = some (record s {
  db = record s.db { jobs = complete_job job.id (processed_revision job) now s.db.jobs };
  processed_jobs = s.processed_jobs + 1;
})
execute settings store randrange job (llm_rate_limit retry_after_seconds message) now s =
    some (defer_rate_limited_job job retry_after_seconds message now s)
execute settings store randrange job (superseded_or_busy message) now s = some (record s {
  db = record s.db {
    jobs =
        defer_job job.id (now + settings.transient_retry_delay_min_seconds * second) message now
          s.db.jobs;
  };
})
execute settings store randrange job (vector_store_unavailable message) now s =
    some (defer_transient_dependency_job settings job message now s)
execute settings store randrange job (llm_dependency_unavailable message) now s =
    some (defer_transient_dependency_job settings job message now s)
execute settings store randrange job (other_exception message class_name) now s =
    elim (fail_job store randrange job.id (exception_message message class_name) job.attempt_count
      job.max_attempts (processed_revision job) now s.db.jobs) [
        | none ↦ none
        | some rows ↦
            some (record s { db = record s.db { jobs = rows }; failed_jobs = s.failed_jobs + 1 })
      ]
