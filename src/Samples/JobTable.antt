-- ===== src/Samples/JobTable.antt =====
-- The theorems about the job store and the shared cooldown on a small table.
use shkandal.Prelude.{
  ℕ, refl, arith, none, some, [], true, here, there, ◌∷◌, ◌≡◌, List, In, is_some, All, ◌*◌, ◌++◌,
  ◌≤◌, ◌↔◌, ◌+◌, inl, max,
}
use shkandal.Cooldowns.{
  LlmCooldown, clear_expired_ambiguous_observation, record_rate_limit, active_resume_at,
  ambiguous_short, ambiguous_cooldown, inferred_hourly, inferred_hourly_cooldown,
}
use shkandal.Cooldowns.Laws.{
  observe_all, succeeded_request, clear_expired-restarts, record_rate_limit-respected,
  record_rate_limit-escalates,
}
use shkandal.Jobs.{
  EnqueueJobResult, ClaimedJob, Job, default_config, minute, queued, second, existing, running,
  requeued, inserted,
}
use shkandal.Jobs.Claim.{claim_next_job, to_claimed, mark_running}
use shkandal.Jobs.Claiming.Best.{IsClaim, MayTake, claim_next_job-IsClaim, claim_next_job-none}
use shkandal.Jobs.Claiming.Leases.{claim_next_job-keeps_lease}
use shkandal.Jobs.Deferral.{put_back, defer_job-claim_next_job}
use shkandal.Jobs.Drain.{drained-no_claim}
use shkandal.Jobs.Enqueue.{enqueue_job, result, another_revision, new_row}
use shkandal.Jobs.Enqueueing.{enqueue_job-idempotent}
use shkandal.Jobs.Finish.{complete_job, retry_delay, defer_job}
use shkandal.Jobs.Invariant.{IsWellFormed}
use shkandal.Jobs.Lifecycle.{next, Step, start, claimed}
use shkandal.Jobs.Lifecycle.Reachable.{Reach-IsWellFormed}
use shkandal.Jobs.Requests.{IsEnqueued, enqueue_job-IsEnqueued}
use shkandal.Jobs.Retries.{retry_delay-bounds}
use shkandal.Jobs.Revisions.{complete-after_request}
use shkandal.Jobs.Summary.{summarize_jobs}
use shkandal.Samples.{
  table, running_job, waiting_job, classify_request, table-IsWellFormed, articles, refresh_request,
  unlocked, failed_job,
}
use shkandal.Sql.Rows.{update_where, find_row}

abbrev claimed_table : List Job
claimed_table =
    (claim_next_job default_config "worker-ml" none (110 * minute) articles unlocked table).1

claim-Step : Step default_config table claimed_table
claim-Step = claimed "worker-ml" none (110 * minute) articles unlocked refl

Reach-IsWellFormed_example : IsWellFormed claimed_table
Reach-IsWellFormed_example =
    Reach-IsWellFormed {config = default_config} {rows = table} {rows' = claimed_table}
      table-IsWellFormed (next start claim-Step)

abbrev taken : ClaimedJob
taken = to_claimed (mark_running "worker-ml" (110 * minute) waiting_job)

claim_next_job-IsClaim_example :
    IsClaim default_config "worker-ml" none
      (110 * minute)
      articles
      unlocked
      table
      taken
      ((mark_running "worker-ml" (110 * minute) waiting_job) ∷ running_job ∷ failed_job ∷ [])
unfolding claim_next_job update_where
claim_next_job-IsClaim_example =
    claim_next_job-IsClaim default_config "worker-ml" none (110 * minute) articles unlocked table
      refl

claim_next_job-none_example :
    ((claim_next_job default_config "worker-ml" none
        (110 * minute)
        articles
        unlocked
        (running_job ∷ [])).0
      ≡ none)
    ↔ All (λ j. ¬ MayTake default_config none (110 * minute) unlocked j) (running_job ∷ [])
claim_next_job-none_example =
    claim_next_job-none default_config "worker-ml" none (110 * minute) articles unlocked
      (running_job ∷ [])

claim_next_job-keeps_lease_example : In running_job claimed_table
claim_next_job-keeps_lease_example =
    claim_next_job-keeps_lease default_config "worker-ml" none (110 * minute) articles unlocked
      table {j = running_job} {t = 100 * minute} table-IsWellFormed (there (here refl)) refl refl
      (omega arith)

retry_delay-bounds_example :
    (delay : ℕ) × (retry_delay default_config (λ n. 0) 2 ≡ some delay)
    × (5 * minute ≤ delay)
    × (delay * 1000 ≤ 5 * minute * 1000 + max (1000 * second) (5 * minute * 100))
retry_delay-bounds_example =
    retry_delay-bounds default_config (λ n. 0) 2 (1 * minute) (5 * minute ∷ 15 * minute ∷ []) refl
      (omega arith) (λ n. omega arith)

enqueue_job-IsEnqueued_example :
    (res : EnqueueJobResult) × (rows' : List Job) × (enqueue_job refresh_request 4 200 table
      ≡ some (res, rows'))
    × IsEnqueued refresh_request 4 table res rows'
enqueue_job-IsEnqueued_example = enqueue_job-IsEnqueued refresh_request 4 200 table

abbrev enlarged : List Job
enlarged = table ++ new_row classify_request 4 200 ∷ []

enqueue_job-idempotent_example :
    (job_id : ℕ) × (enqueue_job classify_request 5 300 enlarged
      ≡ some (result job_id existing, enlarged))
unfolding enqueue_job
enqueue_job-idempotent_example =
    enqueue_job-idempotent classify_request 4 5 200 300 table enlarged (result 4 inserted)
      table-IsWellFormed (λ e. ground arith, (λ e. ground arith, (λ e. ground arith, tt))) refl refl

abbrev requested_again : List Job
requested_again =
    waiting_job ∷ another_revision refresh_request running 200 running_job ∷ failed_job ∷ []

complete-after_request_example :
    (j' : Job) × In j' (complete_job 2 (some 1) 300 requested_again)
    × (j'.id ≡ 2)
    × (j'.status ≡ queued)
    × (j'.run_after ≡ some 300)
    × (j'.attempt_count ≡ 0)
    × (j'.locked_at ≡ none)
    × (j'.completed_revision ≡ 1)
    × (j'.requested_revision ≡ 2)
unfolding enqueue_job find_row update_where
complete-after_request_example =
    complete-after_request refresh_request 4 200 300 table requested_again (result 2 requeued)
      running_job table-IsWellFormed (there (here refl)) refl refl refl refl

drained-no_claim_example : All (λ j. ¬ MayTake default_config none 500 unlocked j) (failed_job ∷ [])
unfolding summarize_jobs
drained-no_claim_example =
    drained-no_claim default_config ("classify_article" ∷ []) 200 (running_job ∷ failed_job ∷ [])
      refl none 500 unlocked

record_rate_limit-respected_example :
    is_some (
      active_resume_at (5 * second) (
        observe_all
          (succeeded_request (2 * second) ∷ [])
          (record_rate_limit (some 10) [] second none).1))
    ≡ true
record_rate_limit-respected_example =
    record_rate_limit-respected 10 [] second (5 * second) none (succeeded_request (2 * second) ∷ [])
      (omega arith)

abbrev old_cooldown : LlmCooldown
old_cooldown = record {
  resume_at = 20 * minute;
  reason = [];
  cooldown_kind = ambiguous_short;
  ambiguous_observation_count = 1;
  last_ambiguous_observed_at = some (15 * minute);
  updated_at = 15 * minute;
}

record_rate_limit-escalates_example :
    let (d, row) = record_rate_limit none [] (31 * minute) (some old_cooldown) in
    let (d', _) = record_rate_limit none [] (40 * minute) row in
    (d.kind ≡ ambiguous_short)
    × (d.resume_at ≡ max (31 * minute + ambiguous_cooldown) (20 * minute))
    × (d'.kind ≡ inferred_hourly)
    × (d'.ambiguous_observation_count ≡ 2)
    × (d'.resume_at ≡ max (40 * minute + inferred_hourly_cooldown) d.resume_at)
record_rate_limit-escalates_example =
    record_rate_limit-escalates [] [] (31 * minute) (40 * minute) (some old_cooldown)
      (inl (omega arith))

clear_expired-restarts_example :
    let cleared = clear_expired_ambiguous_observation (21 * minute) (some old_cooldown) in
    (record_rate_limit none [] (22 * minute) cleared).0.kind ≡ ambiguous_short
clear_expired-restarts_example = clear_expired-restarts old_cooldown (21 * minute) (22 * minute) []

defer_job-claim_next_job_example :
    (j : Job) × In j table
    × (j.id ≡ 1)
    × In (put_back 500 [] 400 j) (defer_job 1 500 [] 400 claimed_table)
unfolding claim_next_job
defer_job-claim_next_job_example =
    defer_job-claim_next_job default_config "worker-ml" none (110 * minute) articles unlocked table
      claimed_table taken 500 [] 400 refl
