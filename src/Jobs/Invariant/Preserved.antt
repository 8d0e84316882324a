-- ===== src/Jobs/Invariant/Preserved.antt =====
-- Each operation of the job store keeps the rows well formed.
use shkandal.Text.{Text}
use shkandal.Jobs.{
  Instant, Job, ℕ, Option, String, Bool, List, has_id, Status, is_succeeded, is_failed,
}
use shkandal.Jobs.Enqueue.{
  EnqueueRequest, new_row, another_revision, requeue, is_for, article_of, case_of, requeue_where,
  on_existing,
}
use shkandal.Jobs.Claim.{mark_running}
use shkandal.Jobs.Finish.{complete, complete_revision, fail_row, defer}
use shkandal.Jobs.Invariant.{IsSound, IsWellFormed, subject_key, All, map, ids, IsUnique}
use shkandal.Prelude.{
  arith, ◌<◌, ◌≤◌, true, ◌≡◌, In, [], false, ◌∷◌, any, All, ◌≢◌, subst, map, ◌++◌, sym, refl, ap,
}
use shkandal.Sql.Rows.{
  update_where, All-update_where, All-append, map-update_where, IsUnique-append_row, row_of_key,
}
use text.Mathlib.TextEquality.{eq_iff}

new_row-IsSound : (r : EnqueueRequest) (new_id now : ℕ) → IsSound (new_row r new_id now)
unfolding new_row
new_row-IsSound r new_id now = ground arith

another_revision-IsSound :
    (r : EnqueueRequest) (now : Instant) (j : Job)
    → IsSound j
    → IsSound (another_revision r j.status now j)
unfolding another_revision
another_revision-IsSound r now j s = ground arith

pub requeue-IsSound :
    (run_after : Option Instant) (max_attempts now : ℕ) (j : Job)
    → IsSound j
    → IsSound (requeue run_after max_attempts now j)
unfolding requeue
requeue-IsSound run_after max_attempts now j s = ground arith

pub mark_running-IsSound :
    (worker : String) (now : Instant) (j : Job)
    → IsSound j
    → j.attempt_count < j.max_attempts
    → IsSound (mark_running worker now j)
unfolding mark_running
mark_running-IsSound worker now j s h = ground arith

pub complete-IsSound : (now : Instant) (j : Job) → IsSound j → IsSound (complete now j)
unfolding complete
complete-IsSound now j s = ground arith

pub complete_revision-IsSound :
    (processed : ℕ) (now : Instant) (j : Job)
    → IsSound j
    → processed ≤ j.requested_revision
    → IsSound (complete_revision processed now j)
unfolding complete_revision
complete_revision-IsSound processed now j s h = ground arith

pub fail_row-IsSound :
    (message : Text) (exhausted : Bool) (processed : Option ℕ) (retry_at failed_at : Instant)
    (j : Job)
    → IsSound j
    → IsSound (fail_row message exhausted processed retry_at failed_at j)
unfolding fail_row
fail_row-IsSound message exhausted processed retry_at failed_at j s = ground arith

pub defer-IsSound :
    (run_after : Instant) (reason : Text) (now : Instant) (j : Job)
    → IsSound j
    → IsSound (defer run_after reason now j)
unfolding defer
defer-IsSound run_after reason now j s = ground arith

-- A write that keeps a row's id and subject, and its soundness where it is chosen.
module _ (p : Job → Bool) (f : Job → Job) (rows : List Job) (w : IsWellFormed rows)
    (same_id : (j : Job) → (f j).id ≡ j.id)
    (same_key : (j : Job) → subject_key (f j) ≡ subject_key j)
    (keep : (j : Job) → In j rows → IsSound j → p j ≡ true → IsSound (f j)) where
  pub update_where-IsWellFormed : IsWellFormed (update_where p f rows)
  update_where-IsWellFormed = record {
    sound = All-update_where IsSound p f rows keep w.sound;
    unique = subst IsUnique (sym (map-update_where (λ j. j.id) p f rows same_id)) w.unique;
    one_row_per_subject =
        subst IsUnique (sym (map-update_where subject_key p f rows same_key)) w.one_row_per_subject;
  }

-- A row with the key of the row to insert fits the request, and a fresh insertion has a new key.
module _ (r : EnqueueRequest) (new_id now : ℕ) where
  is_for-of-key :
      (j : Job)
      → subject_key (new_row r new_id now) ≡ subject_key j
      → is_for r.job_type r.subject j ≡ true
  unfolding is_for new_row
  is_for-of-key j e = is_for-same (ap (λ k. k.0) e) (ap (λ k. k.1) e) (ap (λ k. k.2) e)
    where
      is_for-same :
          r.job_type ≡ j.job_type
          → article_of r.subject ≡ j.article_id
          → case_of r.subject ≡ j.case_id
          → is_for r.job_type r.subject j ≡ true
      is_for-same t a c = rw (← t, ← a, ← c) (ground (arith, eq_iff r.job_type r.job_type))

  new_key :
      (rows : List Job)
      → any (is_for r.job_type r.subject) rows ≡ false
      → All (λ k. subject_key (new_row r new_id now) ≢ k) (map subject_key rows)
  new_key [] h = tt
  new_key (x ∷ rows) h = ((λ e. ground (arith, is_for-of-key x e)), new_key rows (ground arith))

  pub insert-IsWellFormed :
      (rows : List Job)
      → IsWellFormed rows
      → All (λ i. new_id ≢ i) (ids rows)
      → any (is_for r.job_type r.subject) rows ≡ false
      → IsWellFormed (rows ++ new_row r new_id now ∷ [])
  insert-IsWellFormed rows w fresh free = record {
    sound = All-append IsSound rows _ w.sound (new_row-IsSound r new_id now, tt);
    unique = IsUnique-append_row (λ j. j.id) rows _ w.unique (rw new_row-id fresh);
    one_row_per_subject =
        IsUnique-append_row subject_key rows _ w.one_row_per_subject (new_key rows free);
  }
    where
      new_row-id : (new_row r new_id now).id ≡ new_id
      new_row-id = unfold new_row in refl

module _ (rows : List Job) (w : IsWellFormed rows) where
  pub row_of_id : (k : ℕ) {i j : Job} → In i rows → In j rows → has_id k j ≡ true → i.id ≡ k → i ≡ j
  row_of_id k {i} {j} m n h e = row_of_key (λ r. r.id) rows w.unique m n (ground arith)

  requeue_where-IsWellFormed :
      (r : EnqueueRequest) (now : Instant) (found : Job) (in_status : Status → Bool)
      → IsWellFormed (requeue_where r now found in_status rows).1
  unfolding requeue_where requeue
  requeue_where-IsWellFormed r now found in_status =
      update_where-IsWellFormed _ _ rows w (λ j. refl) (λ j. refl)
        (λ j m s h. requeue-IsSound r.run_after r.max_attempts now j s)

  pub on_existing-IsWellFormed :
      (r : EnqueueRequest) (now : Instant) (found : Job)
      → In found rows
      → IsWellFormed (on_existing r now found rows).1
  unfolding on_existing
  on_existing-IsWellFormed r now found m = ground (
    arith,
    revision,
    requeue_where-IsWellFormed r now found is_succeeded,
    requeue_where-IsWellFormed r now found is_failed,
  )
    where
      revision :
          IsWellFormed (update_where (has_id found.id) (another_revision r found.status now) rows)
      revision =
          unfold another_revision in
          update_where-IsWellFormed _ _ rows w (λ j. refl) (λ j. refl)
            λ j n s h.
              let same = row_of_id found.id m n h refl in
              rw same (another_revision-IsSound r now j s)
