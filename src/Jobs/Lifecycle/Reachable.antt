-- ===== src/Jobs/Lifecycle/Reachable.antt =====
-- The invariant of every reachable table.
use shkandal.Prelude.{List}
use shkandal.Jobs.{StoreConfig, Job}
use shkandal.Jobs.Invariant.{IsWellFormed}
use shkandal.Jobs.Lifecycle.{
  Step, enqueued, Reach, next, enqueued_many, claimed, completed, failed_attempt, deferred, start,
}
use shkandal.Jobs.Lifecycle.Bulk.{enqueue_article_jobs-IsWellFormed}
use shkandal.Jobs.Lifecycle.Safety.{
  enqueue_job-IsWellFormed, claim_next_job-IsWellFormed, complete_job-IsWellFormed,
  fail_job-IsWellFormed, defer_job-IsWellFormed,
}

Step-IsWellFormed :
    {config : StoreConfig} {rows rows' : List Job}
    → Step config rows rows'
    → IsWellFormed rows
    → IsWellFormed rows'
Step-IsWellFormed (enqueued r new_id now res fresh e) w =
    enqueue_job-IsWellFormed r new_id now _ _ res w fresh e
Step-IsWellFormed (enqueued_many job_type articles attempts again now fresh e) w =
    rw e (enqueue_article_jobs-IsWellFormed job_type articles attempts again now _ w fresh)
Step-IsWellFormed {config} (claimed worker_id job_types now articles locked e) w =
    rw e (claim_next_job-IsWellFormed config worker_id job_types now articles locked _ w)
Step-IsWellFormed (completed job_id processed now asked e) w =
    rw e (complete_job-IsWellFormed job_id processed now _ w asked)
Step-IsWellFormed {config} (failed_attempt randrange job_id message n m processed now e) w =
    fail_job-IsWellFormed config randrange job_id message n m processed now _ _ w e
Step-IsWellFormed (deferred job_id run_after reason now e) w =
    rw e (defer_job-IsWellFormed job_id run_after reason now _ w)

-- From a well-formed table, after any sequence of enqueues (single or bulk), claims by any workers,
-- completions, failures and deferrals, the table is well formed: a row is running exactly when it
-- holds a lease (time and worker) and has counted an attempt, it has one subject, it has counted at
-- most its allowed attempts, it has completed no revision that was not requested, and no two rows
-- share an id or a job type with a subject. Generated ids are fresh, and a worker reports no
-- revision as processed that was not requested.
pub Reach-IsWellFormed :
    {config : StoreConfig} {rows rows' : List Job}
    → IsWellFormed rows
    → Reach config rows rows'
    → IsWellFormed rows'
Reach-IsWellFormed w start = w
Reach-IsWellFormed w (next r s) = Step-IsWellFormed s (Reach-IsWellFormed w r)
