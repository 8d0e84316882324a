-- ===== src/Jobs.antt =====
-- packages/database/src/shkandal_database/jobs.py and the class Job of models.py: the rows of the
-- jobs table and the values that ArticleJobStore exchanges. Ids are numbers, times are counted in
-- microseconds from the earliest datetime, and a payload lists the ids that its keys carry.
pub mod Enqueue
pub mod Claim
pub mod Finish
pub mod Summary
pub mod Invariant
pub mod Lifecycle
pub mod Claiming
pub mod Retries
pub mod Revisions
pub mod Drain
pub mod Deferral
pub mod Enqueueing
pub mod Requests
pub mod Pending
use shkandal.Prelude.{
  ℕ, ◌+◌, ◌*◌, String, Option, none, some, Bool, true, false, List, [], ◌∷◌, ◌==◌, holds_of,
}
use shkandal.Text.{Text}

abbrev pub Instant : Type 0
Instant = ℕ

abbrev pub second : ℕ
second = 1_000_000

abbrev pub minute : ℕ
minute = 60_000_000

abbrev pub Payload : Type 0
Payload = List (String × ℕ)

-- JOB_STATUS_QUEUED and its siblings; the table's check constraint also admits `cancelled`.
pub data Status : Type 0 where
  queued running succeeded failed cancelled : Status

pub record Job : Type 0 where
  pub id : ℕ
  pub job_type : String
  pub article_id : Option ℕ
  pub case_id : Option ℕ
  pub status : Status
  pub priority : ℕ
  pub payload : Payload
  pub attempt_count : ℕ
  pub max_attempts : ℕ
  pub requested_revision : ℕ
  pub completed_revision : ℕ
  pub run_after : Option Instant
  pub locked_at : Option Instant
  pub locked_by : Option String
  pub last_error : Option Text
  pub created_at : Instant
  pub updated_at : Instant

pub record ClaimedJob : Type 0 where
  pub id : ℕ
  pub job_type : String
  pub article_id : Option ℕ
  pub payload : Payload
  pub attempt_count : ℕ
  pub max_attempts : ℕ
  pub case_id : Option ℕ
  pub requested_revision : ℕ

pub data EnqueueState : Type 0 where
  inserted existing requeued : EnqueueState

pub record EnqueueJobResult : Type 0 where
  pub job_id : ℕ
  pub state : EnqueueState

pub record BulkEnqueueJobResult : Type 0 where
  pub inserted_jobs : ℕ
  pub requeued_jobs : ℕ
  pub existing_jobs : ℕ

pub record JobQueueSummary : Type 0 where
  pub queued_jobs : ℕ
  pub running_jobs : ℕ
  pub blocked_jobs : ℕ
  pub failed_jobs : ℕ
  pub next_run_after : Option Instant
  pub blocked_running_jobs : ℕ

-- The fields that ArticleJobStore is constructed with; the jitter ratio is in thousandths.
pub record StoreConfig : Type 0 where
  pub stale_job_timeout : ℕ
  pub retry_delays : List ℕ
  pub retry_jitter_ratio : ℕ

abbrev pub default_retry_delays : List ℕ
default_retry_delays = 1 * minute ∷ 5 * minute ∷ 15 * minute ∷ []

abbrev pub default_config : StoreConfig
default_config = record {
  stale_job_timeout = 30 * minute;
  retry_delays = default_retry_delays;
  retry_jitter_ratio = 100;
}

abbrev pub is_queued : Status → Bool
is_queued queued = true
is_queued _ = false

abbrev pub is_running : Status → Bool
is_running running = true
is_running _ = false

abbrev pub is_failed : Status → Bool
is_failed failed = true
is_failed _ = false

abbrev pub is_succeeded : Status → Bool
is_succeeded succeeded = true
is_succeeded _ = false

abbrev pub has_id : ℕ → Job → Bool
has_id k j = j.id == k
