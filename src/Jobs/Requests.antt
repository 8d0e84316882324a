-- ===== src/Jobs/Requests.antt =====
-- What _enqueue_job does to the table, for each state of the row of its job type and subject.
use shkandal.Prelude.{
  ℕ, refl, sym, ap, arith, none, some, [], true, false, inl, inr, ◌∷◌, ◌++◌, ◌≡◌, ◌⊎◌, ◌+◌, List,
  All, All-intro, In, ◌&&◌, Bool, Bool-cases, if◌then◌else◌, ==_refl, ==_iff, subst,
}
use shkandal.Jobs.{
  Job, Status, EnqueueJobResult, queued, running, inserted, existing, requeued, is_running,
  is_succeeded, is_failed, has_id,
}
use shkandal.Jobs.Enqueue.{
  EnqueueRequest, enqueue_job, is_for, new_row, on_existing, another_revision, requeue,
  requeue_where, result,
}
use shkandal.Jobs.Enqueueing.{
  enqueue_job-Outcome, no_row, one_row, puts_back, on_existing-rests, new_row-is_for, any_of_In,
}
use shkandal.Jobs.Invariant.{ids}
use shkandal.Sql.Rows.{update_where, update_where-written, update_where-others, map-update_where}

-- A row that nobody has worked on.
pub record IsNew (r : EnqueueRequest) (new_id : ℕ) (j : Job) : Type 0 where
  pub own_id : j.id ≡ new_id
  pub fits : is_for r.job_type r.subject j ≡ true
  pub status : j.status ≡ queued
  pub priority : j.priority ≡ r.priority
  pub attempts : (j.attempt_count ≡ 0) × (j.max_attempts ≡ r.max_attempts)
  pub revisions : (j.requested_revision ≡ 1) × (j.completed_revision ≡ 0)
  pub run_after : j.run_after ≡ r.run_after
  pub lease : (j.locked_at ≡ none) × (j.locked_by ≡ none)

-- The row asks for one revision more. A worker that is busy with it keeps its claim; otherwise the
-- row waits in the queue with all its attempts.
pub record IsRevised (r : EnqueueRequest) (j j' : Job) : Type 0 where
  pub revisions :
      (j'.requested_revision ≡ j.requested_revision + 1)
      × (j'.completed_revision ≡ j.completed_revision)
  pub status : j'.status ≡ (if is_running j.status then running else queued)
  pub attempts :
      (j'.attempt_count ≡ (if is_running j.status then j.attempt_count else 0))
      × (j'.max_attempts ≡ j.max_attempts)
  pub lease :
      (j'.locked_at ≡ (if is_running j.status then j.locked_at else none))
      × (j'.locked_by ≡ (if is_running j.status then j.locked_by else none))
  pub run_after : j'.run_after ≡ r.run_after

-- A finished row waits in the queue again, for the same revision.
pub record IsRequeued (r : EnqueueRequest) (j j' : Job) : Type 0 where
  pub revisions :
      (j'.requested_revision ≡ j.requested_revision)
      × (j'.completed_revision ≡ j.completed_revision)
  pub status : j'.status ≡ queued
  pub attempts : (j'.attempt_count ≡ 0) × (j'.max_attempts ≡ r.max_attempts)
  pub lease : (j'.locked_at ≡ none) × (j'.locked_by ≡ none)
  pub run_after : j'.run_after ≡ r.run_after

-- The row `j'` stands where `j` stood, and the rows with other ids are as they were.
pub record IsReplaced (j j' : Job) (rows rows' : List Job) : Type 0 where
  pub there_is : In j rows
  pub written : In j' rows'
  pub same_ids : ids rows' ≡ ids rows
  pub others : All (λ k. (k.id ≡ j.id) ⊎ In k rows') rows

pub data IsEnqueued (r : EnqueueRequest) (new_id : ℕ) (rows : List Job) (res : EnqueueJobResult)
    (rows' : List Job) : Type 0 where
  appended :
      (j : Job)
      → All (λ k. is_for r.job_type r.subject k ≡ false) rows
      → IsNew r new_id j
      → rows' ≡ rows ++ j ∷ []
      → res ≡ result new_id inserted
      → IsEnqueued r new_id rows res rows'
  revised :
      (j j' : Job)
      → is_for r.job_type r.subject j ≡ true
      → r.increment_revision ≡ true
      → IsRevised r j j'
      → IsReplaced j j' rows rows'
      → res ≡ result j.id requeued
      → IsEnqueued r new_id rows res rows'
  put_again :
      (j j' : Job)
      → is_for r.job_type r.subject j ≡ true
      → r.increment_revision ≡ false
      → puts_back r j ≡ true
      → IsRequeued r j j'
      → IsReplaced j j' rows rows'
      → res ≡ result j.id requeued
      → IsEnqueued r new_id rows res rows'
  left_alone :
      (j : Job)
      → In j rows
      → is_for r.job_type r.subject j ≡ true
      → r.increment_revision ≡ false
      → puts_back r j ≡ false
      → rows' ≡ rows
      → res ≡ result j.id existing
      → IsEnqueued r new_id rows res rows'

-- An update of some rows with the id of a row that it takes.
update_where-IsReplaced :
    (p : Job → Bool) (f : Job → Job) (rows : List Job) (j : Job)
    → ((k : Job) → (f k).id ≡ k.id)
    → ((k : Job) → p k ≡ true → k.id ≡ j.id)
    → p j ≡ true
    → In j rows
    → IsReplaced j (f j) rows (update_where p f rows)
update_where-IsReplaced p f rows j keeps only taken m = record {
  there_is = m;
  written = update_where-written p f rows m taken;
  same_ids = map-update_where (λ k. k.id) p f rows keeps;
  others =
      All-intro (λ k. (k.id ≡ j.id) ⊎ In k (update_where p f rows)) rows
        (λ k n. elim (Bool-cases (p k)) [
          | inl chosen ↦ inl (only k chosen)
          | inr other ↦ inr (update_where-others p f rows n other)
        ]);
}

another_revision-IsRevised :
    (r : EnqueueRequest) (now : ℕ) (j : Job) → IsRevised r j (another_revision r j.status now j)
unfolding another_revision
another_revision-IsRevised r now j = record {
  revisions = (refl, refl);
  status = ground arith;
  attempts = (refl, refl);
  lease = (refl, refl);
  run_after = refl;
}

requeue-IsRequeued :
    (r : EnqueueRequest) (now : ℕ) (j : Job)
    → IsRequeued r j (requeue r.run_after r.max_attempts now j)
unfolding requeue
requeue-IsRequeued r now j = record {
  revisions = (refl, refl);
  status = refl;
  attempts = (refl, refl);
  lease = (refl, refl);
  run_after = refl;
}

new_row-IsNew : (r : EnqueueRequest) (new_id now : ℕ) → IsNew r new_id (new_row r new_id now)
unfolding new_row
new_row-IsNew r new_id now = record {
  own_id = refl;
  fits = new_row-is_for r new_id now;
  status = refl;
  priority = refl;
  attempts = (refl, refl);
  revisions = (refl, refl);
  run_after = refl;
  lease = (refl, refl);
}

module _ (r : EnqueueRequest) (new_id now : ℕ) (rows : List Job) (j : Job) (m : In j rows)
    (fits : is_for r.job_type r.subject j ≡ true) where
  has_own_id : (k : Job) → has_id j.id k ≡ true → k.id ≡ j.id
  has_own_id k h = (==_iff k.id j.id).0 h

  requeue_where-IsEnqueued :
      (in_status : Status → Bool)
      → in_status j.status ≡ true
      → r.increment_revision ≡ false
      → puts_back r j ≡ true
      → let o = requeue_where r now j in_status rows in IsEnqueued r new_id rows o.0 o.1
  unfolding requeue_where requeue
  requeue_where-IsEnqueued in_status finished once again =
      let chosen : Job → Bool = λ k. has_id j.id k && in_status k.status in
      let taken : chosen j ≡ true = ground (arith, ==_refl j.id) in
      let there_is = any_of_In chosen rows m taken in
      put_again j (requeue r.run_after r.max_attempts now j) fits once again
        (requeue-IsRequeued r now j)
        (update_where-IsReplaced chosen (requeue r.run_after r.max_attempts now) rows j (λ k. refl)
          (λ k h. has_own_id k (ground arith)) taken m)
        (rw there_is refl)

  on_existing-again :
      r.increment_revision ≡ true
      → on_existing r now j rows
        ≡ (result j.id requeued, update_where (has_id j.id) (another_revision r j.status now) rows)
  unfolding on_existing
  on_existing-again again = ground arith

  on_existing-succeeded :
      r.increment_revision ≡ false
      → puts_back r j ≡ true
      → is_succeeded j.status ≡ true
      → on_existing r now j rows ≡ requeue_where r now j is_succeeded rows
  unfolding on_existing
  on_existing-succeeded once again done = ground arith

  on_existing-failed :
      r.increment_revision ≡ false
      → puts_back r j ≡ true
      → is_succeeded j.status ≡ false
      → on_existing r now j rows ≡ requeue_where r now j is_failed rows
  unfolding on_existing
  on_existing-failed once again unfinished = ground arith

  on_existing-IsEnqueued : let o = on_existing r now j rows in IsEnqueued r new_id rows o.0 o.1
  unfolding another_revision
  on_existing-IsEnqueued = elim (Bool-cases r.increment_revision) [
    | inl again ↦
        subst (λ o. IsEnqueued r new_id rows o.0 o.1) (sym (on_existing-again again))
          (revised j (another_revision r j.status now j) fits again
            (another_revision-IsRevised r now j)
            (update_where-IsReplaced (has_id j.id) (another_revision r j.status now) rows j
              (λ k. refl) has_own_id (==_refl j.id) m)
            refl)
    | inr once ↦ elim (Bool-cases (puts_back r j)) [
      | inr rest ↦
          let same = on_existing-rests r now j rows once rest in
          left_alone j m fits once rest (ap (λ o. o.1) same) (ap (λ o. o.0) same)
      | inl again ↦ elim (Bool-cases (is_succeeded j.status)) [
        | inl done ↦
            subst (λ o. IsEnqueued r new_id rows o.0 o.1)
              (sym (on_existing-succeeded once again done))
              (requeue_where-IsEnqueued is_succeeded done once again)
        | inr unfinished ↦
            subst (λ o. IsEnqueued r new_id rows o.0 o.1)
              (sym (on_existing-failed once again unfinished))
              (requeue_where-IsEnqueued is_failed (ground arith) once again)
      ]
    ]
  ]

-- Enqueueing ends in one of four ways. Where no row has the job type and subject, a new queued row is
-- appended. A request for another revision counts it on the row and queues the row afresh, unless a
-- worker is busy with it: then the claim stays. Another request puts a succeeded or failed row that
-- it may put back into the queue, with all attempts and the same revision; and leaves the table alone
-- otherwise. The rows with other ids never change, and the result names the row and what happened.
pub enqueue_job-IsEnqueued :
    (r : EnqueueRequest) (new_id now : ℕ) (rows : List Job)
    → (res : EnqueueJobResult) × (rows' : List Job) × (enqueue_job r new_id now rows
        ≡ some (res, rows'))
      × IsEnqueued r new_id rows res rows'
enqueue_job-IsEnqueued r new_id now rows = elim (enqueue_job-Outcome r new_id now rows) [
  | no_row free e ↦ (
    result new_id inserted,
    rows ++ new_row r new_id now ∷ [],
    e,
    appended (new_row r new_id now) free (new_row-IsNew r new_id now) refl refl,
  )
  | one_row j m fits e ↦ (
    (on_existing r now j rows).0,
    (on_existing r now j rows).1,
    e,
    on_existing-IsEnqueued r new_id now rows j m fits,
  )
]
