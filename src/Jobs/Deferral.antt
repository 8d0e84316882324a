-- ===== src/Jobs/Deferral.antt =====
-- A deferral takes a claim back.
use shkandal.Prelude.{
  ℕ, sym, ap, subst, arith, none, some, true, ◌≡◌, String, ◌+◌, ◌-◌, Option, List, Bool, In, ◌&&◌,
  ==_iff,
}
use shkandal.Jobs.{Instant, Job, queued, StoreConfig, ClaimedJob, has_id, is_running}
use shkandal.Jobs.Finish.{defer_job, defer}
use shkandal.Text.{Text}
use shkandal.Jobs.Claim.{mark_running, to_claimed, ArticleTable, claim_next_job}
use shkandal.Jobs.Claiming.Best.{claim_next_job-IsClaim}
use shkandal.Sql.Rows.{update_where-written}

-- The row of a claimed job, put back.
abbrev pub put_back : Instant → Text → Instant → Job → Job
put_back run_after reason deferred_at j = record j {
  status = queued;
  run_after = some run_after;
  locked_at = none;
  locked_by = none;
  last_error = some reason;
  updated_at = deferred_at;
}

defer-mark_running :
    (worker_id : String) (now run_after : Instant) (reason : Text) (deferred_at : Instant) (j : Job)
    → defer run_after reason deferred_at (mark_running worker_id now j)
      ≡ put_back run_after reason deferred_at j
unfolding defer mark_running
defer-mark_running worker_id now run_after reason deferred_at j =
    let count : j.attempt_count + 1 - 1 ≡ j.attempt_count = omega arith in
    ap (λ n. record (put_back run_after reason deferred_at j) { attempt_count = n }) count

-- A job that is claimed and then deferred has not used an attempt: the table holds the row as it
-- was before the claim, but queued until the given time, without a lease and with the reason.
pub defer_job-claim_next_job :
    (config : StoreConfig) (worker_id : String) (job_types : Option (List String)) (now : Instant)
    (articles : ArticleTable) (locked : ℕ → Bool) (rows rows' : List Job) (c : ClaimedJob)
    (run_after : Instant) (reason : Text) (deferred_at : Instant)
    → claim_next_job config worker_id job_types now articles locked rows ≡ (some c, rows')
    → (j : Job) × In j rows
      × (j.id ≡ c.id)
      × In
          (put_back run_after reason deferred_at j)
          (defer_job c.id run_after reason deferred_at rows')
unfolding defer_job mark_running to_claimed
defer_job-claim_next_job config worker_id job_types now articles locked rows rows' c run_after
      reason deferred_at e =
    let claim = claim_next_job-IsClaim config worker_id job_types now articles locked rows e in
    let j = claim.row in
    let own : j.id ≡ c.id = ap (λ d. d.id) (sym claim.handed) in
    let fits : has_id c.id j && true ≡ true = ground (arith, (==_iff j.id c.id).1 own) in
    let written =
      update_where-written (λ k. has_id c.id k && is_running k.status)
        (defer run_after reason deferred_at) rows' claim.written fits in
    (
      j,
      claim.listed,
      own,
      subst (λ k. In k (defer_job c.id run_after reason deferred_at rows'))
          (defer-mark_running worker_id now run_after reason deferred_at j) written,
    )
