-- ===== src/Jobs/Lifecycle/Safety.antt =====
-- Whatever the order of the operations, the table stays well formed.
use Prim.Native.Nat.{Ordering}
use shkandal.Prelude.{
  ℕ, List, String, Option, Bool, All, some, true, inl, inr, In, ◌≡◌, Bool-cases, ◌<◌, any, arith,
  none, Option-cases, subst, ◌≢◌, refl, keep_if, In-keep_if, leb, All-In, ◌+◌,
}
use shkandal.Jobs.{Instant, Job, StoreConfig, EnqueueJobResult, has_id}
use shkandal.Jobs.Claim.{
  ArticleTable, claim_next_job, mark_running, is_claimable, is_eligible, is_due, is_stale_running,
  select_next, claim_order,
}
use shkandal.Jobs.Claiming.{claim_order-IsOrder}
use shkandal.Jobs.Enqueue.{EnqueueRequest, enqueue_job, insert_row, is_for}
use shkandal.Jobs.Finish.{
  complete_job, fail_job, defer_job, complete_row, defer, complete, complete_revision, fail_row,
  durable_message, retry_delay,
}
use shkandal.Jobs.Invariant.{IsWellFormed}
use shkandal.Jobs.Invariant.Preserved.{
  on_existing-IsWellFormed, update_where-IsWellFormed, insert-IsWellFormed, row_of_id,
  mark_running-IsSound, defer-IsSound, complete-IsSound, complete_revision-IsSound,
  fail_row-IsSound,
}
use shkandal.Jobs.Lifecycle.{IsFresh, WasRequested}
use shkandal.Sql.Order.Laws.{first_row-order_by}
use shkandal.Sql.Rows.{update_where, find_row-In, find_row-of-any}
use shkandal.Text.{Text}

pub enqueue_job-IsWellFormed :
    (r : EnqueueRequest) (new_id now : ℕ) (rows rows' : List Job) (res : EnqueueJobResult)
    → IsWellFormed rows
    → IsFresh new_id rows
    → enqueue_job r new_id now rows ≡ some (res, rows')
    → IsWellFormed rows'
unfolding enqueue_job insert_row
enqueue_job-IsWellFormed r new_id now rows rows' res w fresh e =
    elim (Bool-cases (any (is_for r.job_type r.subject) rows)) [
      | inl taken ↦
          let (found, at) = find_row-of-any (is_for r.job_type r.subject) rows taken in
          let there_is = (find_row-In (is_for r.job_type r.subject) rows at).0 in
          ground (arith, on_existing-IsWellFormed rows w r now found there_is)
      | inr free ↦ ground (arith, insert-IsWellFormed r new_id now rows w fresh free)
    ]

mark-IsWellFormed :
    (rows : List Job) (found : Job) (worker_id : String) (now : Instant)
    → IsWellFormed rows
    → In found rows
    → found.attempt_count < found.max_attempts
    → IsWellFormed (update_where (has_id found.id) (mark_running worker_id now) rows)
unfolding mark_running
mark-IsWellFormed rows found worker_id now w m room =
    update_where-IsWellFormed _ _ rows w (λ j. refl) (λ j. refl)
      λ j n s h.
        let same = row_of_id rows w found.id m n h refl in
        mark_running-IsSound worker_id now j s
          (subst (λ i. i.attempt_count < i.max_attempts) same room)

-- Only rows with attempts left are claimable.
pub is_claimable-has_attempts :
    (config : StoreConfig) (job_types : Option (List String)) (now : Instant) (locked : ℕ → Bool)
    (j : Job)
    → is_claimable config job_types now locked j ≡ true
    → j.attempt_count < j.max_attempts
unfolding is_claimable is_eligible is_due is_stale_running
is_claimable-has_attempts config job_types now locked j h = ground arith

-- A row that a claim selects is in the table, may be claimed, and no such row stands before it.
pub select_next-lem :
    (config : StoreConfig) (job_types : Option (List String)) (now : Instant)
    (articles : ArticleTable) (locked : ℕ → Bool) (rows : List Job) {found : Job}
    → select_next config job_types now articles locked rows ≡ some found
    → In found rows
      × (is_claimable config job_types now locked found ≡ true)
      × All
          (λ j. claim_order articles j found ≢ Ordering.lt)
          (keep_if (is_claimable config job_types now locked) rows)
unfolding select_next
select_next-lem config job_types now articles locked rows e =
    let p = is_claimable config job_types now locked in
    let (m, least) =
      first_row-order_by (claim_order articles) (claim_order-IsOrder articles) (keep_if p rows) e in
    let (member, chosen) = In-keep_if p rows m in (member, chosen, least)

pub claim_next_job-IsWellFormed :
    (config : StoreConfig) (worker_id : String) (job_types : Option (List String)) (now : Instant)
    (articles : ArticleTable) (locked : ℕ → Bool) (rows : List Job)
    → IsWellFormed rows
    → IsWellFormed (claim_next_job config worker_id job_types now articles locked rows).1
unfolding claim_next_job
claim_next_job-IsWellFormed config worker_id job_types now articles locked rows w =
    elim (Option-cases (select_next config job_types now articles locked rows)) [
      | inl e ↦ rw (e, claim_next_job) w
      | inr (found, e) ↦
          let (m, chosen, _) = select_next-lem config job_types now articles locked rows e in
          rw (e, claim_next_job)
            (mark-IsWellFormed rows found worker_id now w m
              (is_claimable-has_attempts config job_types now locked found chosen))
    ]

pub complete_job-IsWellFormed :
    (job_id : ℕ) (processed : Option ℕ) (now : Instant) (rows : List Job)
    → IsWellFormed rows
    → WasRequested processed job_id rows
    → IsWellFormed (complete_job job_id processed now rows)
unfolding complete_job complete_row complete complete_revision
complete_job-IsWellFormed job_id none now rows w asked =
    update_where-IsWellFormed _ _ rows w (λ j. refl) (λ j. refl)
      (λ j m s h. complete-IsSound now j s)
complete_job-IsWellFormed job_id (some p) now rows w asked =
    update_where-IsWellFormed _ _ rows w (λ j. refl) (λ j. refl)
      λ j m s h. complete_revision-IsSound p now j s (All-In _ rows asked m (ground arith))

pub fail_job-IsWellFormed :
    (config : StoreConfig) (randrange : ℕ → ℕ) (job_id : ℕ) (message : Text)
    (attempt_count max_attempts : ℕ) (processed : Option ℕ) (now : Instant) (rows rows' : List Job)
    → IsWellFormed rows
    → fail_job config randrange job_id message attempt_count max_attempts processed now rows
      ≡ some rows'
    → IsWellFormed rows'
unfolding fail_job
fail_job-IsWellFormed config randrange job_id message attempt_count max_attempts processed now rows
      rows' w e =
    elim (Option-cases (retry_delay config randrange attempt_count)) [
      | inl stuck ↦ ground arith
      | inr (delay, at) ↦ ground (arith, written delay)
    ]
  where
    written :
        (delay : ℕ)
        → IsWellFormed (
            update_where
              (has_id job_id)
              (fail_row
                (durable_message message)
                (leb max_attempts attempt_count)
                processed
                (now + delay)
                now)
              rows)
    written delay =
        unfold fail_row in
        update_where-IsWellFormed _ _ rows w (λ j. refl) (λ j. refl)
          λ j m s h.
            fail_row-IsSound (durable_message message) (leb max_attempts attempt_count) processed
              (now + delay) now j s

pub defer_job-IsWellFormed :
    (job_id : ℕ) (run_after : Instant) (reason : Text) (now : Instant) (rows : List Job)
    → IsWellFormed rows
    → IsWellFormed (defer_job job_id run_after reason now rows)
unfolding defer_job defer
defer_job-IsWellFormed job_id run_after reason now rows w =
    update_where-IsWellFormed _ _ rows w (λ j. refl) (λ j. refl)
      (λ j m s h. defer-IsSound run_after reason now j s)
