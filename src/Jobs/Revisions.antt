-- ===== src/Jobs/Revisions.antt =====
-- A revision of a case job that is requested while a worker runs the job is not lost.
use shkandal.Prelude.{ℕ, refl, arith, none, some, true, List, In, ◌≡◌, ◌+◌, ==_refl}
use shkandal.Jobs.Enqueue.{EnqueueRequest, is_for, enqueue_job, another_revision, on_existing}
use shkandal.Jobs.{Job, EnqueueJobResult, running, queued, has_id}
use shkandal.Jobs.Invariant.{IsWellFormed}
use shkandal.Jobs.Finish.{complete_job, complete_revision}
use shkandal.Jobs.Enqueueing.{enqueue_job-found, find_row-row_of, any_of_In}
use shkandal.Sql.Rows.{update_where, update_where-written}

module _ (r : EnqueueRequest) (new_id now finished_at : ℕ) (rows rows' : List Job)
    (res : EnqueueJobResult) (j : Job) (w : IsWellFormed rows) (m : In j rows)
    (busy : j.status ≡ running) (fits : is_for r.job_type r.subject j ≡ true)
    (again : r.increment_revision ≡ true)
    (asked : enqueue_job r new_id now rows ≡ some (res, rows')) where
  -- The row as the request leaves it: still running under the same lease, with one revision more.
  requested_row : Job
  requested_row = another_revision r running now j

  requested_row-In : In requested_row rows'
  unfolding requested_row on_existing
  requested_row-In =
      let found =
        enqueue_job-found r new_id now rows (find_row-row_of r.job_type r.subject rows w m fits)
          (any_of_In (is_for r.job_type r.subject) rows m fits) in
      let tables : (on_existing r now j rows).1 ≡ rows' = cc (found, asked) in
      let table : update_where (has_id j.id) (another_revision r j.status now) rows ≡ rows' =
        ground arith in
      rw (← table, busy)
        (update_where-written (has_id j.id) (another_revision r running now) rows m (==_refl j.id))

  -- While a worker runs a case job, another revision of it is requested. When the worker then
  -- reports the revision that it claimed as processed, the row is queued again at once, with all of
  -- its attempts and no lease, and it records that revision as completed, which is behind the
  -- requested one.
  pub complete-after_request :
      (j' : Job) × In j' (complete_job j.id (some j.requested_revision) finished_at rows')
      × (j'.id ≡ j.id)
      × (j'.status ≡ queued)
      × (j'.run_after ≡ some finished_at)
      × (j'.attempt_count ≡ 0)
      × (j'.locked_at ≡ none)
      × (j'.completed_revision ≡ j.requested_revision)
      × (j'.requested_revision ≡ j.requested_revision + 1)
  unfolding complete_job complete_revision another_revision requested_row
  complete-after_request = (
    complete_revision j.requested_revision finished_at requested_row,
    update_where-written (has_id j.id) (complete_revision j.requested_revision finished_at) rows'
        requested_row-In (==_refl j.id),
    refl,
    ground arith,
    ground arith,
    ground arith,
    refl,
    refl,
    refl,
  )
