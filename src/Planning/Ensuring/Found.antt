-- ===== src/Planning/Ensuring/Found.antt =====
-- ensure_case_job where the Case has a row of the job type.
use shkandal.Prelude.{
  ℕ, refl, sym, ap, arith, none, true, false, inl, inr, ◌≡◌, ◌≢◌, ◌∙◌, String, Bool, List, In, ◌&&◌,
  Bool-cases, if◌then◌else◌, ==_refl, ==_iff,
}
use shkandal.Jobs.{Job, Instant, is_succeeded, has_id, EnqueueJobResult, is_failed}
use shkandal.Jobs.Enqueue.{is_for, of_case, EnqueueRequest, on_existing, requeue_where, requeue}
use shkandal.Jobs.Enqueueing.{any_of_In}
use shkandal.Jobs.Invariant.{IsWellFormed}
use shkandal.Planning.Ensured.{is_for-requeue}
use shkandal.Planning.Ensuring.Rows.{
  only_row, update_where-cong, is_finished, has_row, update_none, has_finished, one_case,
  any-update_where, any_none,
}
use shkandal.Planning.Passes.{case_payload, is_requeued, is_inserted}
use shkandal.Sql.Rows.{update_where, row_of_key}

-- A request to ensure a job of the type for a Case.
abbrev pub case_request : String → ℕ → ℕ → EnqueueRequest
case_request job_type max_attempts case_id = record {
  job_type = job_type;
  subject = of_case case_id;
  payload = case_payload case_id;
  priority = 0;
  run_after = none;
  max_attempts = max_attempts;
  increment_revision = false;
  requeue_failed = true;
  requeue_succeeded = true;
}

-- The rows that a request to ensure writes, when it finds the row `j`.
abbrev pub written_by : Job → Job → Bool
written_by j k =
    if is_succeeded j.status
    then has_id j.id k && is_succeeded k.status
    else if is_failed j.status
    then has_id j.id k && is_failed k.status
    else false

module _ (job_type : String) (max_attempts : ℕ) (c : ℕ) (now : Instant) (rows : List Job)
    (j : Job) where
  abbrev pub ensured : EnqueueJobResult × List Job
  ensured = on_existing (case_request job_type max_attempts c) now j rows

  pub ensured-rows : ensured.1 ≡ update_where (written_by j) (requeue none max_attempts now) rows
  unfolding on_existing requeue_where
  ensured-rows = elim (Bool-cases (is_succeeded j.status)) [
    | inl done ↦ simp done (
        update_where-cong (λ k. has_id j.id k && is_succeeded k.status) (written_by j)
          (requeue none max_attempts now) rows (λ k. ground arith))
    | inr unfinished ↦ elim (Bool-cases (is_failed j.status)) [
      | inl bad ↦
          simp (unfinished, bad)
            (update_where-cong (λ k. has_id j.id k && is_failed k.status) (written_by j)
              (requeue none max_attempts now) rows (λ k. ground arith))
      | inr fine ↦
          simp (unfinished, fine)
            (sym (update_none (requeue none max_attempts now) rows)
              ∙ update_where-cong (λ k. false) (written_by j) (requeue none max_attempts now) rows
                  (λ k. ground arith))
    ]
  ]

  pub ensured-state : In j rows → is_requeued ensured.0.state ≡ is_finished j.status
  unfolding on_existing requeue_where
  ensured-state m = ground (
    arith,
    any_of_In (λ k. has_id j.id k && is_succeeded k.status) rows m,
    any_of_In (λ k. has_id j.id k && is_failed k.status) rows m,
    ==_refl j.id,
  )

  pub ensured-not_inserted : is_inserted ensured.0.state ≡ false
  unfolding on_existing requeue_where
  ensured-not_inserted = ground arith

  -- In a well-formed table only the row `j` itself is written.
  pub written_by-same :
      IsWellFormed rows → In j rows → (k : Job) → In k rows → written_by j k ≡ true → k ≡ j
  written_by-same w m k n h =
      row_of_key (λ i. i.id) rows w.unique n m (ground (arith, ==_iff k.id j.id))

  pub written_by-own : written_by j j ≡ is_finished j.status
  written_by-own = ground (arith, ==_refl j.id)

  module _ (w : IsWellFormed rows) (m : In j rows)
      (fits : is_for job_type (of_case c) j ≡ true) where
    -- The row of another Case is not written.
    pub ensured-others :
        (d : ℕ)
        → c ≢ d
        → (has_row job_type ensured.1 d ≡ has_row job_type rows d)
          × (has_finished job_type ensured.1 d ≡ has_finished job_type rows d)
    ensured-others d apart =
        let foreign = one_case job_type c d j apart fits in
        let write = requeue none max_attempts now in
        let not_mine : (k : Job)
            → In k rows
            → written_by j k ≡ true
            → is_for job_type (of_case d) k ≡ false =
          λ k n h. ap (is_for job_type (of_case d)) (written_by-same w m k n h) ∙ foreign in
        rw ensured-rows (
          any-update_where (is_for job_type (of_case d)) (written_by j) write rows
              (λ k n h. is_for-requeue job_type (of_case d) none max_attempts now k),
          any-update_where (λ k. is_for job_type (of_case d) k && is_finished k.status)
              (written_by j) write rows
              (λ k n h. ground (
                arith,
                not_mine k n h,
                is_for-requeue job_type (of_case d) none max_attempts now k,
              )),
        )

    pub ensured-own :
        (has_row job_type ensured.1 c ≡ true) × (has_finished job_type ensured.1 c ≡ false)
    unfolding requeue
    ensured-own =
        let write = requeue none max_attempts now in
        rw ensured-rows (
          any-update_where (is_for job_type (of_case c)) (written_by j) write rows
                (λ k n h. is_for-requeue job_type (of_case c) none max_attempts now k)
              ∙ any_of_In (is_for job_type (of_case c)) rows m fits,
          any_none (λ k. is_for job_type (of_case c) k && is_finished k.status) (written_by j) write
              rows (λ k n h. ground arith) (λ k n h. own_rest k n h),
        )
      where
        own_rest :
            (k : Job)
            → In k rows
            → written_by j k ≡ false
            → (is_for job_type (of_case c) k && is_finished k.status) ≡ false
        own_rest k n h = elim (Bool-cases (is_for job_type (of_case c) k)) [
          | inr other ↦ rw other refl
          | inl own ↦
              let same = only_row job_type c rows w m fits n own in
              rw own (
                ap (λ i. is_finished i.status) (sym same)
                ∙ sym written_by-own
                ∙ ap (written_by j) same
                ∙ h)
        ]
