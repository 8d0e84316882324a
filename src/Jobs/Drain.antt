-- ===== src/Jobs/Drain.antt =====
-- What the queue summary says about the rows: the drained state of the backfill loop.
use text.Mathlib.Text.{◌==◌ as str_eq}
use shkandal.Prelude.{
  ℕ, arith, [], true, false, inl, inr, ◌∷◌, Bool, List, ◌≡◌, String, ◌==◌, All, ◌≤◌, ◌-◌, ◌&&◌, ◌⊎◌,
  Option, keep_if, any, All-intro, All-In,
}
use shkandal.Sql.Rows.{count_where}
use shkandal.Jobs.{JobQueueSummary, StoreConfig, Job, Instant, is_running}
use shkandal.Jobs.Summary.{summarize_jobs, blocked_running, processable_queued}
use shkandal.Jobs.Claiming.Best.{MayTake}

count_where-zero :
    (p : Job → Bool) (rows : List Job) → count_where p rows ≡ 0 → All (λ j. p j ≡ false) rows
unfolding count_where
count_where-zero p [] h = tt
count_where-zero p (j ∷ rows) h = (ground arith, count_where-zero p rows (ground arith))

count_where-le :
    (p q : Job → Bool) (rows : List Job)
    → ((j : Job) → p j ≡ true → q j ≡ true)
    → count_where p rows ≤ count_where q rows
unfolding count_where
count_where-le p q [] h = omega arith
count_where-le p q (j ∷ rows) h = ground (arith, count_where-le p q rows h, h j)

-- If a part of the rows is as large as the whole, it is the whole.
count_where-same :
    (p q : Job → Bool) (rows : List Job)
    → ((j : Job) → p j ≡ true → q j ≡ true)
    → count_where q rows - count_where p rows ≡ 0
    → All (λ j. (q j ≡ false) ⊎ (p j ≡ true)) rows
unfolding count_where
count_where-same p q [] h e = tt
count_where-same p q (j ∷ rows) h e = (
  ground (arith, count_where-le p q rows h, h j),
  count_where-same p q rows h (ground (arith, count_where-le p q rows h, h j)),
)

-- The test by which drain_backfill leaves its loop.
abbrev pub is_drained : JobQueueSummary → Bool
is_drained s = s.queued_jobs == 0 && s.running_jobs - s.blocked_running_jobs == 0

module _ (config : StoreConfig) (job_types : List String) (now : Instant) (rows : List Job)
    (drained : is_drained (summarize_jobs config job_types now rows) ≡ true) where
  -- A queue that the loop leaves as drained has no work left: no row of the job types can ever be
  -- taken, at any later time and whatever other transactions hold, unless an operation writes it.
  pub drained-no_claim :
      (job_types' : Option (List String)) (later : Instant) (locked : ℕ → Bool)
      → All
          (λ j. ¬ MayTake config job_types' later locked j)
          (keep_if (λ j. any (λ t. str_eq j.job_type t) job_types) rows)
  unfolding summarize_jobs
  drained-no_claim job_types' later locked =
      let selected = keep_if (λ j. any (λ t. str_eq j.job_type t) job_types) rows in
      let idle = count_where-zero processable_queued selected (ground arith) in
      let stuck =
        count_where-same (blocked_running (now - config.stale_job_timeout))
          (λ j. is_running j.status) selected (λ j h. blocked_running-running j h) (ground arith) in
      All-intro _ selected
        λ j m may. refuse j (All-In _ selected idle m) (All-In _ selected stuck m) may
    where
      blocked_running-running :
          (j : Job)
          → blocked_running (now - config.stale_job_timeout) j ≡ true
          → is_running j.status ≡ true
      blocked_running-running j h = ground arith

      refuse :
          (j : Job)
          → processable_queued j ≡ false
          → (is_running j.status ≡ false)
            ⊎ (blocked_running (now - config.stale_job_timeout) j ≡ true)
          → MayTake config job_types' later locked j
          → ⊥
      refuse j idle stuck (inl (waits, _), room, _, _) = ground arith
      refuse j idle stuck (inr (runs, _), room, _, _) = ground arith
