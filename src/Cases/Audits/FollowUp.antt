-- ===== src/Cases/Audits/FollowUp.antt =====
-- The jobs that the handler of an audit enqueues after its commit, for each Case that it touched.
use shkandal.Prelude.{none, some, [], ◌∷◌, String, ◌>>=◌, ℕ, List, Option}
use shkandal.Cases.Audits.Handle.{skipped, failed, was_superseded, published, AuditEnd}
use shkandal.Jobs.{Instant, Job}
use shkandal.Jobs.Enqueue.{enqueue_case_job}
use shkandal.Planning.{refresh_case_job, audit_case_public_interest_job}
use shkandal.Planning.Passes.{case_payload}

module _ (refresh_case_priority : ℕ) (new_id : String → ℕ → ℕ) (now : Instant) where
  unfoldable pub enqueue_audited : List ℕ → List Job → Option (List Job)
  unfolding enqueue_case_job
  enqueue_audited [] jobs = some jobs
  enqueue_audited (case_id ∷ affected) jobs = do
    (first, jobs') ←
        enqueue_case_job refresh_case_job case_id (case_payload case_id) refresh_case_priority none
          3 (new_id refresh_case_job case_id) now jobs
    (second, jobs'') ←
        enqueue_case_job audit_case_public_interest_job case_id (case_payload case_id) 0 none 3
          (new_id audit_case_public_interest_job case_id) now jobs'
    enqueue_audited affected jobs''

  -- Only an audit that was published has touched Cases; an inconclusive one none.
  unfoldable pub after_audit : AuditEnd → List Job → Option (List Job)
  unfolding enqueue_audited
  after_audit skipped jobs = some jobs
  after_audit (failed e) jobs = some jobs
  after_audit (was_superseded t) jobs = some jobs
  after_audit (published output affected t) jobs = enqueue_audited affected jobs
