-- ===== src/Samples.antt =====
-- Small tables and settings on which the theorems are tried out.
pub mod JobTable
pub mod Planner
pub mod Cases
pub mod CaseAudits
pub mod Events
pub mod Workers
use shkandal.Prelude.{ℕ, arith, none, some, [], true, false, ◌∷◌, ◌≡◌, List, Bool, ◌*◌}
use shkandal.Execution.{MlConfig, ClaimWorld, Database}
use shkandal.Jobs.{Job, queued, running, failed, default_config, minute}
use shkandal.Jobs.Claim.{ArticleTable}
use shkandal.Jobs.Enqueue.{EnqueueRequest, of_article, of_case}
use shkandal.Jobs.Invariant.{IsWellFormed}

abbrev pub waiting_job : Job
waiting_job = record {
  id = 1;
  job_type = "classify_article";
  article_id = some 10;
  case_id = none;
  status = queued;
  priority = 0;
  payload = [];
  attempt_count = 0;
  max_attempts = 3;
  requested_revision = 1;
  completed_revision = 0;
  run_after = none;
  locked_at = none;
  locked_by = none;
  last_error = none;
  created_at = 5;
  updated_at = 5;
}

abbrev pub running_job : Job
running_job = record waiting_job {
  id = 2;
  job_type = "refresh_case";
  article_id = none;
  case_id = some 20;
  status = running;
  attempt_count = 1;
  locked_at = some (100 * minute);
  locked_by = some "worker-ml";
}

abbrev pub failed_job : Job
failed_job = record waiting_job { id = 3; article_id = some 11; status = failed; attempt_count = 3 }

abbrev pub table : List Job
table = waiting_job ∷ running_job ∷ failed_job ∷ []

pub table-IsWellFormed : IsWellFormed table
table-IsWellFormed = record {
  sound = (
    record {
      lease = tt;
      subject = tt;
      attempts = omega arith;
      revisions = omega arith;
      requested = omega arith;
    },
    (
      record {
        lease = omega arith;
        subject = tt;
        attempts = omega arith;
        revisions = omega arith;
        requested = omega arith;
      },
      (
        record {
          lease = tt;
          subject = tt;
          attempts = omega arith;
          revisions = omega arith;
          requested = omega arith;
        },
        tt,
      ),
    ),
  );
  unique = ((λ e. ground arith, (λ e. ground arith, tt)), ((λ e. ground arith, tt), (tt, tt)));
  one_row_per_subject = ((λ e. cc, (λ e. cc, tt)), ((λ e. cc, tt), (tt, tt)));
}

abbrev pub classify_request : EnqueueRequest
classify_request = record {
  job_type = "classify_article";
  subject = of_article 12;
  payload = none;
  priority = 0;
  run_after = none;
  max_attempts = 3;
  increment_revision = false;
  requeue_failed = true;
  requeue_succeeded = false;
}

-- Asks for another revision of the job that runs.
abbrev pub refresh_request : EnqueueRequest
refresh_request = record classify_request {
  job_type = "refresh_case";
  subject = of_case 20;
  increment_revision = true;
}

abbrev pub articles : ArticleTable
articles a = some (record { published_at = some a; created_at = a })

abbrev pub unlocked : ℕ → Bool
unlocked k = false

abbrev pub settings : MlConfig
settings = record {
  service_name = "worker-ml";
  poll_interval_seconds = 30;
  claim_batch_size = 50;
  worker_concurrency = 4;
  transient_retry_delay_min_seconds = 10;
}

abbrev pub database : Database
database = record { jobs = table; cooldown = none }

abbrev pub world : ClaimWorld
world = record {
  store = default_config;
  articles = articles;
  locked = unlocked;
  now = 110 * minute;
}
