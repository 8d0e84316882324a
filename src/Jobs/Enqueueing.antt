-- ===== src/Jobs/Enqueueing.antt =====
-- What the enqueue operations do to a well-formed table.
use text.Mathlib.Text.{◌==◌ as str_eq}
use text.Mathlib.TextEquality.{eq_iff}
use text.Mathlib.TextPositions.{eq_refl}
use shkandal.Prelude.{
  refl, sym, ap, arith, some, [], true, here, there, ◌∷◌, String, List, ◌≡◌, In, any, ◌∙◌, All-In,
  false, inl, inr, ℕ, All, Bool, Bool-cases, ◌++◌, subst, ◌&&◌, ◌||◌, Option, All-not,
}
use shkandal.Jobs.{Job, inserted, EnqueueJobResult, existing, is_succeeded, Status, is_failed}
use shkandal.Jobs.Enqueue.{
  is_for, Subject, article_of, case_of, of_article, of_case, EnqueueRequest, enqueue_job, result,
  insert_row, on_existing, new_row, requeue_where, requeue, has_subject,
}
use shkandal.Jobs.Invariant.{IsSound, IsWellFormed, subject_key}
use shkandal.Jobs.Lifecycle.{IsFresh}
use shkandal.Jobs.Lifecycle.Safety.{enqueue_job-IsWellFormed}
use shkandal.Sql.Rows.{find_row, find_row-of-any, find_row-In, row_of_key, update_where-written}

-- A sound row that fits a job type and subject has their key.
key_of_is_for :
    (job_type : String) (s : Subject) (j : Job)
    → IsSound j
    → is_for job_type s j ≡ true
    → subject_key j ≡ (job_type, article_of s, case_of s)
unfolding is_for
key_of_is_for job_type (of_article a) j v h = ground (arith, eq_iff j.job_type job_type)
key_of_is_for job_type (of_case c) j v h = ground (arith, eq_iff j.job_type job_type)

pub any_of_In : (p : Job → Bool) (ys : List Job) {j : Job} → In j ys → p j ≡ true → any p ys ≡ true
any_of_In p [] k h = elim k [ ]
any_of_In p (y ∷ ys) (here e) h = rw (ap p e ∙ h) refl
any_of_In p (y ∷ ys) (there k) h = ground (arith, any_of_In p ys k h)

-- The row of a request is unique, so it is the one that _enqueue_job finds.
pub find_row-row_of :
    (job_type : String) (s : Subject) (rows : List Job) {j : Job}
    → IsWellFormed rows
    → In j rows
    → is_for job_type s j ≡ true
    → find_row (is_for job_type s) rows ≡ some j
find_row-row_of job_type s rows {j} w m h =
    let (found, at) =
      find_row-of-any (is_for job_type s) rows (any_of_In (is_for job_type s) rows m h) in
    let (n, fits) = find_row-In (is_for job_type s) rows at in
    let same = row_of_key subject_key rows w.one_row_per_subject n m (
      key_of_is_for job_type s found (All-In _ rows w.sound n) fits
      ∙ sym (key_of_is_for job_type s j (All-In _ rows w.sound m) h)) in
    at ∙ ap some same

-- The table holds no row of the request, and it gets one; or it holds one, which is dealt with.
pub data Outcome (r : EnqueueRequest) (new_id now : ℕ) (rows : List Job) : Type 0 where
  no_row :
      All (λ j. is_for r.job_type r.subject j ≡ false) rows
      → enqueue_job r new_id now rows
        ≡ some (result new_id inserted, rows ++ new_row r new_id now ∷ [])
      → Outcome r new_id now rows
  one_row :
      (j : Job)
      → In j rows
      → is_for r.job_type r.subject j ≡ true
      → enqueue_job r new_id now rows ≡ some (on_existing r now j rows)
      → Outcome r new_id now rows

module _ (r : EnqueueRequest) (new_id now : ℕ) (rows : List Job) where
  pub enqueue_job-found :
      {j : Job}
      → find_row (is_for r.job_type r.subject) rows ≡ some j
      → any (is_for r.job_type r.subject) rows ≡ true
      → enqueue_job r new_id now rows ≡ some (on_existing r now j rows)
  unfolding enqueue_job insert_row
  enqueue_job-found at taken = ground arith

  -- Either no row of the table has the job type and subject, and one is appended; or one has, and the
  -- call deals with that row.
  pub enqueue_job-Outcome : Outcome r new_id now rows
  unfolding enqueue_job insert_row
  enqueue_job-Outcome = elim (Bool-cases (any (is_for r.job_type r.subject) rows)) [
    | inl taken ↦
        let (found, at) = find_row-of-any (is_for r.job_type r.subject) rows taken in
        let (m, fits) = find_row-In (is_for r.job_type r.subject) rows at in
        one_row found m fits (enqueue_job-found at taken)
    | inr free ↦
        no_row (All-not (is_for r.job_type r.subject) rows free) (rw (free, enqueue_job) refl)
  ]

-- A finished row that the request puts back into the queue.
abbrev pub puts_back : EnqueueRequest → Job → Bool
puts_back r j =
    (is_succeeded j.status && r.requeue_succeeded) || (is_failed j.status && r.requeue_failed)

pub on_existing-rests :
    (r : EnqueueRequest) (now : ℕ) (j : Job) (rows : List Job)
    → r.increment_revision ≡ false
    → puts_back r j ≡ false
    → on_existing r now j rows ≡ (result j.id existing, rows)
unfolding on_existing
on_existing-rests r now j rows once rest = ground arith

requeue-written :
    (r : EnqueueRequest) (now : ℕ) (j : Job) (in_status : Status → Bool) (rows : List Job)
    → In j rows
    → in_status j.status ≡ true
    → In (requeue r.run_after r.max_attempts now j) (requeue_where r now j in_status rows).1
unfolding requeue_where
requeue-written r now j in_status rows m h = update_where-written _ _ rows m (ground arith)

requeue-is_for :
    (job_type : String) (s : Subject) (run_after : Option ℕ) (max_attempts now : ℕ) (j : Job)
    → is_for job_type s (requeue run_after max_attempts now j) ≡ is_for job_type s j
unfolding is_for requeue
requeue-is_for job_type (of_article a) run_after max_attempts now j = refl
requeue-is_for job_type (of_case c) run_after max_attempts now j = refl

-- The call leaves a row of the request that a further call leaves alone.
abbrev Settled : EnqueueRequest → List Job → Type 0
Settled r rows =
    (j : Job) × In j rows × (is_for r.job_type r.subject j ≡ true) × (puts_back r j ≡ false)

on_existing-Settled :
    (r : EnqueueRequest) (now : ℕ) (j : Job) (rows : List Job)
    → r.increment_revision ≡ false
    → In j rows
    → is_for r.job_type r.subject j ≡ true
    → Settled r (on_existing r now j rows).1
unfolding requeue on_existing
on_existing-Settled r now j rows once m fits = elim (Bool-cases (puts_back r j)) [
  | inr rest ↦
      let same = on_existing-rests r now j rows once rest in
      (j, subst (λ o. In j o.1) (sym same) m, fits, rest)
  | inl again ↦ (
    requeue r.run_after r.max_attempts now j,
    ground
        (arith, requeue-written r now j is_succeeded rows, requeue-written r now j is_failed rows),
    requeue-is_for r.job_type r.subject r.run_after r.max_attempts now j ∙ fits,
    refl,
  )
]

pub new_row-is_for :
    (r : EnqueueRequest) (new_id now : ℕ)
    → is_for r.job_type r.subject (new_row r new_id now) ≡ true
unfolding is_for new_row
new_row-is_for r new_id now = new_row-fits r.subject
  where
    new_row-fits :
        (s : Subject)
        → (str_eq r.job_type r.job_type
            && has_subject s
                (record (new_row r new_id now) { article_id = article_of s; case_id = case_of s }))
          ≡ true
    new_row-fits (of_article a) = ground (arith, eq_refl r.job_type)
    new_row-fits (of_case c) = ground (arith, eq_refl r.job_type)

In-last : (rows : List Job) (j : Job) → In j (rows ++ j ∷ [])
In-last [] j = here refl
In-last (x ∷ rows) j = there (In-last rows j)

enqueue_job-Settled :
    (r : EnqueueRequest) (new_id now : ℕ) (rows rows' : List Job) (res : EnqueueJobResult)
    → r.increment_revision ≡ false
    → enqueue_job r new_id now rows ≡ some (res, rows')
    → Outcome r new_id now rows
    → Settled r rows'
unfolding new_row
enqueue_job-Settled r new_id now rows rows' res once e (no_row free at) =
    let same : rows ++ new_row r new_id now ∷ [] ≡ rows' = cc in
    rw (← same) (new_row r new_id now, In-last rows _, new_row-is_for r new_id now, refl)
enqueue_job-Settled r new_id now rows rows' res once e (one_row j m fits at) =
    let both : on_existing r now j rows ≡ (res, rows') = cc in
    subst (λ o. Settled r o.1) both (on_existing-Settled r now j rows once m fits)

-- A request that asks for no new revision may be repeated: the second call finds the row that the
-- first one left, reports it as existing and leaves the table as it is.
pub enqueue_job-idempotent :
    (r : EnqueueRequest) (new_id new_id' now later : ℕ) (rows rows' : List Job)
    (res : EnqueueJobResult)
    → IsWellFormed rows
    → IsFresh new_id rows
    → r.increment_revision ≡ false
    → enqueue_job r new_id now rows ≡ some (res, rows')
    → (job_id : ℕ) × (enqueue_job r new_id' later rows' ≡ some (result job_id existing, rows'))
enqueue_job-idempotent r new_id new_id' now later rows rows' res w fresh once e =
    let w' = enqueue_job-IsWellFormed r new_id now rows rows' res w fresh e in
    let (j, m, fits, rest) =
      enqueue_job-Settled r new_id now rows rows' res once e
        (enqueue_job-Outcome r new_id now rows) in
    (
      j.id,
      enqueue_job-found r new_id' later rows' (find_row-row_of r.job_type r.subject rows' w' m fits)
            (any_of_In (is_for r.job_type r.subject) rows' m fits)
          ∙ ap some (on_existing-rests r later j rows' once rest),
    )
