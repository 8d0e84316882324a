-- ===== src/Jobs/Lifecycle.antt =====
-- The job store as a step relation: any sequence of its operations, by any workers in any order.
-- Each constructor is one transaction of ArticleJobStore.
pub mod Safety
pub mod Bulk
pub mod Reachable
use shkandal.Prelude.{Option, ℕ, List, String, Bool, none, some, [], ◌∷◌, All, ◌≡◌, ◌≤◌, ◌≢◌}
use shkandal.Jobs.{Instant, Job, StoreConfig, EnqueueJobResult}
use shkandal.Jobs.Claim.{ArticleTable, claim_next_job}
use shkandal.Jobs.Enqueue.{EnqueueRequest, enqueue_job, enqueue_article_jobs}
use shkandal.Jobs.Finish.{complete_job, fail_job, defer_job}
use shkandal.Jobs.Invariant.{ids}
use shkandal.Text.{Text}

-- A revision that a worker reports as processed was requested before it claimed the job.
abbrev pub WasRequested : Option ℕ → ℕ → List Job → Type 0
WasRequested none k rows = Unit
WasRequested (some p) k rows = All (λ j. j.id ≡ k → p ≤ j.requested_revision) rows

-- Ids that the database generates are not in use.
abbrev pub IsFresh : ℕ → List Job → Type 0
IsFresh new_id rows = All (λ i. new_id ≢ i) (ids rows)

abbrev pub AreFresh : List (ℕ × ℕ) → List Job → Type 0
AreFresh [] rows = Unit
AreFresh ((a, k) ∷ rest) rows = IsFresh k rows × All (λ p. p.1 ≢ k) rest × AreFresh rest rows

pub data Step (config : StoreConfig) (rows rows' : List Job) : Type 0 where
  enqueued :
      (r : EnqueueRequest) (new_id : ℕ) (now : Instant) (res : EnqueueJobResult)
      → IsFresh new_id rows
      → enqueue_job r new_id now rows ≡ some (res, rows')
      → Step config rows rows'
  enqueued_many :
      (job_type : String) (articles : List (ℕ × ℕ)) (max_attempts : ℕ) (requeue_failed : Bool)
      (now : Instant)
      → AreFresh articles rows
      → rows' ≡ (enqueue_article_jobs job_type articles max_attempts requeue_failed now rows).1
      → Step config rows rows'
  claimed :
      (worker_id : String) (job_types : Option (List String)) (now : Instant)
      (articles : ArticleTable) (locked : ℕ → Bool)
      → rows' ≡ (claim_next_job config worker_id job_types now articles locked rows).1
      → Step config rows rows'
  completed :
      (job_id : ℕ) (processed : Option ℕ) (now : Instant)
      → WasRequested processed job_id rows
      → rows' ≡ complete_job job_id processed now rows
      → Step config rows rows'
  failed_attempt :
      (randrange : ℕ → ℕ) (job_id : ℕ) (message : Text) (attempt_count max_attempts : ℕ)
      (processed : Option ℕ) (now : Instant)
      → fail_job config randrange job_id message attempt_count max_attempts processed now rows
        ≡ some rows'
      → Step config rows rows'
  deferred :
      (job_id : ℕ) (run_after : Instant) (reason : Text) (now : Instant)
      → rows' ≡ defer_job job_id run_after reason now rows
      → Step config rows rows'

pub data Reach (config : StoreConfig) (rows : List Job) : List Job → Type 0 where
  start : Reach config rows rows
  next :
      {mid rows' : List Job}
      → Reach config rows mid
      → Step config mid rows'
      → Reach config rows rows'
