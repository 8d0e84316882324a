-- ===== src/Jobs/Claiming/Leases.antt =====
-- A claim leaves the rows alone that another worker runs under a lease that has not run out.
use shkandal.Prelude.{
  ℕ, refl, arith, some, true, false, inl, inr, String, Option, List, Bool, In, ◌≡◌, ◌≤◌, ◌+◌,
  Bool-cases, Option-cases,
}
use shkandal.Jobs.{StoreConfig, Instant, Job, running, has_id}
use shkandal.Jobs.Claim.{claim_next_job, ArticleTable, is_claimable, select_next, mark_running}
use shkandal.Jobs.Claiming.Best.{IsFree, is_claimable-MayTake}
use shkandal.Jobs.Invariant.{IsWellFormed}
use shkandal.Jobs.Invariant.Preserved.{row_of_id}
use shkandal.Jobs.Lifecycle.Safety.{select_next-lem}
use shkandal.Sql.Rows.{update_where-others}

-- Of a well-formed table, a claim keeps each row that is running under a lease which began no
-- longer ago than the stale-job timeout, as it is.
pub claim_next_job-keeps_lease :
    (config : StoreConfig) (worker_id : String) (job_types : Option (List String)) (now : Instant)
    (articles : ArticleTable) (locked : ℕ → Bool) (rows : List Job) {j : Job} {t : Instant}
    → IsWellFormed rows
    → In j rows
    → j.status ≡ running
    → j.locked_at ≡ some t
    → now ≤ t + config.stale_job_timeout
    → In j (claim_next_job config worker_id job_types now articles locked rows).1
unfolding claim_next_job
claim_next_job-keeps_lease config worker_id job_types now articles locked rows {j} {t} w m run at
      fresh =
    elim (Option-cases (select_next config job_types now articles locked rows)) [
      | inl e ↦ rw (e, claim_next_job) m
      | inr (found, e) ↦
          let (n, chosen, _) = select_next-lem config job_types now articles locked rows e in
          rw (e, claim_next_job)
            (update_where-others (has_id found.id) (mark_running worker_id now) rows m
              (another_row found n chosen))
    ]
  where
    not_free : (found : Job) → IsFree config now found → found ≡ j → ⊥
    not_free found (inl (queued_row, _)) e = ground arith
    not_free found (inr (_, (u, at_u, old))) e = ground arith

    another_row :
        (found : Job)
        → In found rows
        → is_claimable config job_types now locked found ≡ true
        → has_id found.id j ≡ false
    another_row found n chosen = elim (Bool-cases (has_id found.id j)) [
      | inl same ↦ absurd (
          not_free found (is_claimable-MayTake config job_types now locked found chosen).0
            (row_of_id rows w found.id n m same refl))
      | inr other ↦ other
    ]
