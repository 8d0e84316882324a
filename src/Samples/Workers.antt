-- ===== src/Samples/Workers.antt =====
-- The theorems about a cycle of the executor on a small table.
use shkandal.Prelude.{
  refl, arith, [], ◌∷◌, ◌≡◌, List, String, rotate, none, some, Option, ◌<◌, length,
}
use shkandal.Execution.{
  Executor, may_claim, MlConfig, new_executor, claim_next, HandlerResult, execute, llm_rate_limit,
  handled, schedule_for, returns,
}
use shkandal.Execution.Claims.{first_claim, claim_next-rotates}
use shkandal.Execution.Handling.{execute_all}
use shkandal.Execution.Schedule.{claim_next-returns}
use shkandal.Execution.Workers.{Cycle, locking, start, tasks, Runs, step, started, loop_test, Step}
use shkandal.Execution.Workers.Progress.{is_active_worker, Runs-moves}
use shkandal.Execution.Workers.Safety.{IsSafe, Runs-IsSafe}
use shkandal.Jobs.{Job, ClaimedJob, Instant, default_config}
use shkandal.Jobs.Claim.{to_claimed}
use shkandal.Samples.{settings, database, world, running_job}

abbrev two_types : List String
two_types = "refresh_case" ∷ "classify_article" ∷ []

abbrev fresh_executor : Executor
fresh_executor = new_executor database

claim_next-rotates_example :
    claim_next settings two_types world fresh_executor
    ≡ first_claim settings two_types world fresh_executor (rotate 0 two_types) 0
unfolding may_claim
claim_next-rotates_example =
    claim_next-rotates settings two_types world fresh_executor ((λ e. cc, tt), (tt, tt))
      (omega arith) refl

abbrev one_worker : MlConfig
one_worker = record settings { worker_concurrency = 1 }

-- The only worker passes the test of its loop.
abbrev started_cycle : Cycle
started_cycle = record { executor = fresh_executor; workers = locking ∷ [] }

first_step : Runs one_worker two_types (λ n. 0) (start one_worker database) started_cycle
unfolding start tasks
first_step = step started (loop_test [] [] fresh_executor)

Runs-IsSafe_example : IsSafe one_worker started_cycle
Runs-IsSafe_example = Runs-IsSafe one_worker two_types (λ n. 0) database started_cycle first_step

Runs-moves_example : (d : Cycle) × Step one_worker two_types (λ n. 0) started_cycle d
unfolding is_active_worker
Runs-moves_example =
    Runs-moves one_worker two_types (λ n. 0) database started_cycle world first_step refl

abbrev running_claim : ClaimedJob
running_claim = to_claimed running_job

abbrev other_job : Job
other_job = record running_job { id = 4; case_id = some 21 }

abbrev third_job : Job
third_job = record running_job { id = 5; case_id = some 22 }

abbrev busy_executor : Executor
busy_executor =
    new_executor (record { jobs = running_job ∷ other_job ∷ third_job ∷ []; cooldown = none })

abbrev executed : Option Executor → Executor
executed none = busy_executor
executed (some s) = s

-- The first job meets a rate limit, the third one ends well, and the other one meets a rate limit.
abbrev handled_outcomes : List (ClaimedJob × HandlerResult × Instant)
handled_outcomes = (to_claimed third_job, handled, 850) ∷ []

abbrev first_limited : Executor
first_limited = executed (
    execute settings default_config (λ n. 0) running_claim (llm_rate_limit (some 30) []) 800
      busy_executor)

abbrev between : Executor
between = executed (execute_all settings default_config (λ n. 0) handled_outcomes first_limited)

abbrev last_limited : Executor
last_limited = executed (
    execute settings default_config (λ n. 0) (to_claimed other_job) (llm_rate_limit (some 60) [])
      900 between)

claim_next-returns_example :
    (job : Option ClaimedJob) × (s' : Executor) × (claim_next settings
        (schedule_for two_types)
        world
        fresh_executor
      ≡ returns job s')
    × (s'.schedule_index < length (schedule_for two_types))
unfolding schedule_for
claim_next-returns_example =
    claim_next-returns settings two_types world fresh_executor (omega arith)
