-- ===== src/Execution/Workers.antt =====
-- _CycleExecutor.run and _worker of apps/worker-ml/src/worker_ml/runtime/execution.py: the workers of
-- a cycle as a step relation. A step is what one worker does from one `await` to the next; between
-- two steps the other workers may move. The store's statements of one handler's end are one step.
pub mod Safety
pub mod Progress
use shkandal.Prelude.{
  ℕ, none, some, [], true, false, ◌∷◌, String, List, Bool, Option, ◌++◌, if◌then◌else◌, any, ◌≡◌,
  zero, suc, max,
}
use shkandal.Execution.{
  ClaimTry, Executor, MlConfig, Database, again, new_executor, claimed_job, str_eq, exhausted,
  may_claim, ClaimWorld, claim_try, HandlerResult, execute,
}
use shkandal.Jobs.{ClaimedJob, StoreConfig, Instant}
use shkandal.Planning.{
  resolve_article_cases_job, refresh_case_job, audit_case_coherence_job,
  resolve_article_entities_job, resolve_article_events_job,
}

-- The keys of _namespace_limits: three job types share the semaphore of the Cases.
pub data Namespace : Type 0 where
  cases : Namespace
  entities : Namespace
  events : Namespace

unfoldable pub namespace_of : String → Option Namespace
namespace_of job_type =
    if str_eq job_type resolve_article_cases_job
    then some cases
    else if str_eq job_type refresh_case_job
    then some cases
    else if str_eq job_type audit_case_coherence_job
    then some cases
    else if str_eq job_type resolve_article_entities_job
    then some entities
    else if str_eq job_type resolve_article_events_job
    then some events
    else none

-- Where a worker stands: at the test of its loop, before the claim lock, inside the loop of
-- _claim_next with the types it tried, before a semaphore, in a handler, or at its end.
pub data Worker : Type 0 where
  looping : Worker
  locking : Worker
  claiming : List String → Worker
  waiting : ClaimedJob → Worker
  executing : ClaimedJob → Worker
  returned : Worker

pub record Cycle : Type 0 where
  pub executor : Executor
  pub workers : List Worker

unfoldable pub tasks : ℕ → List Worker
tasks zero = []
tasks (suc n) = looping ∷ tasks n

unfoldable pub start : MlConfig → Database → Cycle
unfolding tasks
start settings db = record {
  executor = new_executor db;
  workers = tasks (max 1 settings.worker_concurrency);
}

unfoldable pub is_claiming : Worker → Bool
is_claiming looping = false
is_claiming locking = false
is_claiming (claiming attempted) = true
is_claiming (waiting job) = false
is_claiming (executing job) = false
is_claiming returned = false

unfoldable pub same_namespace : Namespace → Namespace → Bool
same_namespace cases cases = true
same_namespace cases entities = false
same_namespace cases events = false
same_namespace entities cases = false
same_namespace entities entities = true
same_namespace entities events = false
same_namespace events cases = false
same_namespace events entities = false
same_namespace events events = true

-- The worker holds the semaphore of the namespace.
unfoldable pub holds_limit : Namespace → Worker → Bool
unfolding namespace_of same_namespace
holds_limit n looping = false
holds_limit n locking = false
holds_limit n (claiming attempted) = false
holds_limit n (waiting job) = false
holds_limit n (executing job) = elim (namespace_of job.job_type) [
  | none ↦ false
  | some m ↦ same_namespace n m
]
holds_limit n returned = false

-- What a worker does once it holds a job.
unfoldable pub with_job : ClaimedJob → Worker
unfolding namespace_of
with_job job = elim (namespace_of job.job_type) [ none ↦ executing job | some n ↦ waiting job ]

-- Where the claim lock's holder goes after one round of its loop.
unfoldable pub after_try : ClaimTry → Worker
unfolding with_job
after_try exhausted = returned
after_try (again attempted) = claiming attempted
after_try (claimed_job job) = with_job job

module _ (settings : MlConfig) (schedule : List String) (randrange : ℕ → ℕ) where
  pub data Step : Cycle → Cycle → Type 0 where
    loop_test :
        (before after : List Worker) (s : Executor)
        → Step
            (record { executor = s; workers = before ++ looping ∷ after })
            (record {
              executor = s;
              workers = before ++ (if s.stop_claiming then returned else locking) ∷ after;
            })
    take_claim_lock :
        (before after : List Worker) (s : Executor)
        → any is_claiming (before ++ locking ∷ after) ≡ false
        → Step
            (record { executor = s; workers = before ++ locking ∷ after })
            (record {
              executor = s;
              workers = before ++ (if may_claim settings s then claiming [] else returned) ∷ after;
            })
    try_claim :
        (before after : List Worker) (s : Executor) (attempted : List String) (w : ClaimWorld)
        → Step
            (record { executor = s; workers = before ++ claiming attempted ∷ after })
            (record {
              executor = (claim_try settings schedule w attempted s).1;
              workers = before ++ after_try (claim_try settings schedule w attempted s).0 ∷ after;
            })
    take_limit :
        (before after : List Worker) (s : Executor) (n : Namespace) (job : ClaimedJob)
        → namespace_of job.job_type ≡ some n
        → any (holds_limit n) (before ++ waiting job ∷ after) ≡ false
        → Step
            (record { executor = s; workers = before ++ waiting job ∷ after })
            (record { executor = s; workers = before ++ executing job ∷ after })
    handler_ends :
        (before after : List Worker) (s s' : Executor) (job : ClaimedJob) (store : StoreConfig)
        (result : HandlerResult) (now : Instant)
        → execute settings store randrange job result now s ≡ some s'
        → Step
            (record { executor = s; workers = before ++ executing job ∷ after })
            (record { executor = s'; workers = before ++ looping ∷ after })

  pub data Runs (c : Cycle) : Cycle → Type 0 where
    started : Runs c c
    step : {d e : Cycle} → Runs c d → Step d e → Runs c e
