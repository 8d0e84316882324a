-- ===== src/Planning/Ensuring/Calls.antt =====
-- One call of ensure_case_job of a pass.
use shkandal.Prelude.{
  ℕ, refl, sym, ap, arith, none, some, [], true, false, ◌∷◌, ◌++◌, ◌≡◌, ◌≢◌, ◌∙◌, ◌+◌, String, List,
  In, ◌&&◌, if◌then◌else◌, not, All, length, subst, any-append, length-append,
}
use shkandal.Jobs.{inserted, Job, Instant, EnqueueJobResult}
use shkandal.Jobs.Enqueue.{
  enqueue_job, new_row, result, is_for, of_case, EnqueueRequest, on_existing, requeue,
}
use shkandal.Jobs.Enqueueing.{any_of_In, enqueue_job-Outcome, no_row, one_row, new_row-is_for}
use shkandal.Jobs.Invariant.{IsWellFormed, ids}
use shkandal.Jobs.Lifecycle.{IsFresh}
use shkandal.Jobs.Lifecycle.Safety.{enqueue_job-IsWellFormed}
use shkandal.Planning.Ensuring.Found.{
  case_request, ensured-rows, ensured-not_inserted, ensured-own, ensured-state, ensured-others,
  written_by,
}
use shkandal.Planning.Ensuring.Rows.{
  has_row, has_finished, any_none_of, is_finished, any_and_false, one_case, IsFresh-append,
  finished-is, requeue-ids,
}
use shkandal.Planning.Passes.{is_requeued, is_inserted}
use shkandal.Sql.Rows.{length-update_where}

-- One call of a pass: whether the Case had no row, or a finished one, decides the result; afterwards
-- it has a row that is not finished, and those of the other Cases are as they were.
pub record Ensured (job_type : String) (c new_id : ℕ) (rows : List Job) (res : EnqueueJobResult)
    (rows' : List Job) : Type 0 where
  pub well_formed : IsWellFormed rows'
  pub own : (has_row job_type rows' c ≡ true) × (has_finished job_type rows' c ≡ false)
  pub was_inserted : is_inserted res.state ≡ not (has_row job_type rows c)
  pub was_requeued : is_requeued res.state ≡ has_finished job_type rows c
  pub others :
      (d : ℕ)
      → c ≢ d
      → (has_row job_type rows' d ≡ has_row job_type rows d)
        × (has_finished job_type rows' d ≡ has_finished job_type rows d)
  pub fresh : (k : ℕ) → k ≢ new_id → IsFresh k rows → IsFresh k rows'
  pub grown : length rows' ≡ length rows + (if is_inserted res.state then 1 else 0)

module _ (job_type : String) (max_attempts c new_id : ℕ) (now : Instant) (rows : List Job)
    (w : IsWellFormed rows) (is_fresh : IsFresh new_id rows) where
  abbrev r : EnqueueRequest
  r = case_request job_type max_attempts c

  new_row-finished : (d : ℕ) → has_finished job_type (new_row r new_id now ∷ []) d ≡ false
  unfolding new_row
  new_row-finished d = ground arith

  abbrev new : Job
  new = new_row r new_id now

  finished-append :
      (d : ℕ) → has_finished job_type (rows ++ new ∷ []) d ≡ has_finished job_type rows d
  finished-append d = ground (
    arith,
    any-append (λ j. is_for job_type (of_case d) j && is_finished j.status) rows (new ∷ []),
    new_row-finished d,
  )

  Ensured-new :
      enqueue_job r new_id now rows ≡ some (result new_id inserted, rows ++ new ∷ [])
      → has_row job_type rows c ≡ false
      → Ensured job_type c new_id rows (result new_id inserted) (rows ++ new ∷ [])
  unfolding new_row
  Ensured-new e free =
      let unfinished =
        any_and_false (is_for job_type (of_case c)) (λ j. is_finished j.status) rows free in
      let mine = new_row-is_for r new_id now in
      record {
        well_formed = enqueue_job-IsWellFormed r new_id now rows _ _ w is_fresh e;
        own = (
          ground (arith, any-append (is_for job_type (of_case c)) rows (new ∷ []), mine),
          finished-append c ∙ unfinished,
        );
        was_inserted = rw free refl;
        was_requeued = sym unfinished;
        others = λ d apart. (
          ground (
            arith,
            any-append (is_for job_type (of_case d)) rows (new ∷ []),
            one_case job_type c d new apart mine,
          ),
          finished-append d,
        );
        fresh = λ k apart h. IsFresh-append k rows new apart h;
        grown = length-append rows (new ∷ []);
      }

  Ensured-found :
      (j : Job)
      → enqueue_job r new_id now rows ≡ some (on_existing r now j rows)
      → In j rows
      → is_for job_type (of_case c) j ≡ true
      → let o = on_existing r now j rows in Ensured job_type c new_id rows o.0 o.1
  Ensured-found j e m fits =
      let o = on_existing r now j rows in
      let write = requeue none max_attempts now in
      let new_rows = ensured-rows job_type max_attempts c now rows j in
      let not_new = ensured-not_inserted job_type max_attempts c now rows j in
      record {
        well_formed = enqueue_job-IsWellFormed r new_id now rows o.1 o.0 w is_fresh e;
        own = ensured-own job_type max_attempts c now rows j w m fits;
        was_inserted = rw (not_new, any_of_In (is_for job_type (of_case c)) rows m fits) refl;
        was_requeued =
            ensured-state job_type max_attempts c now rows j m
            ∙ sym (finished-is job_type c rows w m fits);
        others = λ d apart. ensured-others job_type max_attempts c now rows j w m fits d apart;
        fresh = λ k apart h.
            subst (All (λ i. k ≢ i))
              (sym (ap ids new_rows ∙ requeue-ids (written_by j) max_attempts now rows)) h;
        grown =
            rw not_new
              (ap length new_rows ∙ length-update_where (written_by j) write rows ∙ omega arith);
      }

  pub ensure_case_job-Ensured :
      (res : EnqueueJobResult) × (rows' : List Job) × (enqueue_job r new_id now rows
        ≡ some (res, rows'))
      × Ensured job_type c new_id rows res rows'
  ensure_case_job-Ensured = elim (enqueue_job-Outcome r new_id now rows) [
    | no_row free e ↦ (
      result new_id inserted,
      rows ++ new_row r new_id now ∷ [],
      e,
      Ensured-new e (any_none_of (is_for job_type (of_case c)) rows free),
    )
    | one_row j m fits e ↦
        ((on_existing r now j rows).0, (on_existing r now j rows).1, e, Ensured-found j e m fits)
  ]
