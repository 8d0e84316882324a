-- ===== src/Planning/Ensured.antt =====
-- What one call of an enqueue operation leaves in the job table, whatever the table holds.
use shkandal.Prelude.{
  ℕ, refl, arith, [], inl, inr, ◌∷◌, Bool, List, any, ◌≡◌, ◌++◌, Bool-cases, String, false, Option,
  length, ◌&&◌, ap, some, true, here, there, In, ◌∙◌, ◌+◌, if◌then◌else◌, length-append, any-append,
}
use shkandal.Jobs.{
  Job, Status, Instant, has_id, is_succeeded, is_failed, EnqueueJobResult, inserted,
}
use shkandal.Jobs.Enqueue.{
  on_existing, requeue_where, requeue, another_revision, is_for, Subject, EnqueueRequest,
  of_article, of_case, new_row, enqueue_job, result,
}
use shkandal.Jobs.Enqueueing.{enqueue_job-Outcome, no_row, one_row, new_row-is_for}
use shkandal.Planning.Passes.{is_inserted}
use shkandal.Sql.Rows.{update_where, length-update_where}

-- An update that leaves the tested columns alone.
any-update_where :
    (q p : Job → Bool) (f : Job → Job) (rows : List Job)
    → ((j : Job) → q (f j) ≡ q j)
    → any q (update_where p f rows) ≡ any q rows
unfolding update_where
any-update_where q p f [] h = refl
any-update_where q p f (r ∷ rows) h = elim (Bool-cases (p r)) [
  | inl written ↦ rw (written, h r, any-update_where q p f rows h) refl
  | inr rest ↦ rw (rest, any-update_where q p f rows h) refl
]

-- The writes of the enqueue operations leave the job type and the subject alone.
is_for-another_revision :
    (job_type : String) (s : Subject) (r : EnqueueRequest) (status : Status) (now : ℕ) (j : Job)
    → is_for job_type s (another_revision r status now j) ≡ is_for job_type s j
unfolding another_revision is_for
is_for-another_revision job_type (of_article a) r status now j = refl
is_for-another_revision job_type (of_case c) r status now j = refl

pub is_for-requeue :
    (job_type : String) (s : Subject) (run_after : Option Instant) (max_attempts now : ℕ) (j : Job)
    → is_for job_type s (requeue run_after max_attempts now j) ≡ is_for job_type s j
unfolding requeue is_for
is_for-requeue job_type (of_article a) run_after max_attempts now j = refl
is_for-requeue job_type (of_case c) run_after max_attempts now j = refl

-- What a call leaves behind for the rows of any job type and subject.
on_existing-keeps :
    (job_type : String) (s : Subject) (r : EnqueueRequest) (now : ℕ) (j : Job) (rows : List Job)
    → (any (is_for job_type s) (on_existing r now j rows).1 ≡ any (is_for job_type s) rows)
      × (length (on_existing r now j rows).1 ≡ length rows)
      × (is_inserted (on_existing r now j rows).0.state ≡ false)
unfolding on_existing requeue_where
on_existing-keeps job_type s r now j rows =
    let q = is_for job_type s in
    let again =
      any-update_where q (has_id j.id) (another_revision r j.status now) rows
        (is_for-another_revision job_type s r j.status now) in
    let write = requeue r.run_after r.max_attempts now in
    let back = λ (in_status : Status → Bool).
      any-update_where q (λ k. has_id j.id k && in_status k.status) write rows
        (is_for-requeue job_type s r.run_after r.max_attempts now) in
    let size = λ (p : Job → Bool) (f : Job → Job). length-update_where p f rows in
    ground (
      arith,
      again,
      back is_succeeded,
      back is_failed,
      size (has_id j.id) (another_revision r j.status now),
      size (λ k. has_id j.id k && is_succeeded k.status) write,
      size (λ k. has_id j.id k && is_failed k.status) write,
    )

any_of_found :
    (p : Job → Bool) (rows : List Job) {j : Job} → In j rows → p j ≡ true → any p rows ≡ true
any_of_found p [] m h = elim m [ ]
any_of_found p (x ∷ rows) (here e) h = rw (ap p e ∙ h) refl
any_of_found p (x ∷ rows) (there m) h = ground (arith, any_of_found p rows m h)

-- One call: its result, the rows of every job type and subject that had one, its own row, and the
-- growth of the table.
abbrev pub CallDone : EnqueueRequest → List Job → EnqueueJobResult → List Job → Type 0
CallDone r rows res rows' =
    ((job_type : String) (s : Subject)
      → any (is_for job_type s) rows ≡ true
      → any (is_for job_type s) rows' ≡ true)
    × (any (is_for r.job_type r.subject) rows' ≡ true)
    × (length rows' ≡ length rows + (if is_inserted res.state then 1 else 0))

pub enqueue_job-CallDone :
    (r : EnqueueRequest) (new_id now : ℕ) (rows : List Job)
    → (res : EnqueueJobResult) × (rows' : List Job) × (enqueue_job r new_id now rows
        ≡ some (res, rows'))
      × CallDone r rows res rows'
enqueue_job-CallDone r new_id now rows = elim (enqueue_job-Outcome r new_id now rows) [
  | no_row free e ↦
      let new = new_row r new_id now in
      (
        result new_id inserted,
        rows ++ new ∷ [],
        e,
        (
          (λ job_type s h. rw (any-append (is_for job_type s) rows (new ∷ []), h) refl),
          ground (
            arith,
            any-append (is_for r.job_type r.subject) rows (new ∷ []),
            new_row-is_for r new_id now,
          ),
          length-append rows (new ∷ []),
        ),
      )
  | one_row j m fits e ↦
      let keeps = λ (job_type : String) (s : Subject). on_existing-keeps job_type s r now j rows in
      let (done, size, state) = keeps r.job_type r.subject in
      (
        (on_existing r now j rows).0,
        (on_existing r now j rows).1,
        e,
        (
          (λ job_type s h. (keeps job_type s).0 ∙ h),
          done ∙ any_of_found (is_for r.job_type r.subject) rows m fits,
          rw (size, state) (omega arith),
        ),
      )
]
