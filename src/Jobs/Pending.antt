-- ===== src/Jobs/Pending.antt =====
-- Jobs that are still to be done, and the calls that ask for another revision of one.
use shkandal.Prelude.{
  some, [], ◌∷◌, ◌++◌, true, inl, inr, ◌≡◌, refl, arith, ℕ, String, Bool, List, any, ◌&&◌, ◌||◌,
  ◌∙◌, ap, In, here, there, Bool-cases, any-append, ==_refl, subst, sym,
}
use shkandal.Jobs.{Job, Status, is_queued, is_running, has_id, EnqueueJobResult}
use shkandal.Jobs.Enqueue.{
  EnqueueRequest, of_article, of_case, Subject, is_for, another_revision, enqueue_job, on_existing,
  new_row,
}
use shkandal.Jobs.Enqueueing.{enqueue_job-Outcome, no_row, one_row, new_row-is_for}
use shkandal.Sql.Rows.{update_where}

-- A job of the type and subject that is still to be done: queued, or running.
abbrev pub is_pending : String → Subject → Job → Bool
is_pending job_type s j = is_for job_type s j && (is_queued j.status || is_running j.status)

another_revision-is_pending :
    (job_type : String) (s : Subject) (r : EnqueueRequest) (status : Status) (now : ℕ) (j : Job)
    → is_pending job_type s (another_revision r status now j) ≡ is_for job_type s j
unfolding another_revision is_for
another_revision-is_pending job_type (of_article a) r status now j = ground arith
another_revision-is_pending job_type (of_case c) r status now j = ground arith

module _ (job_type : String) (s : Subject) (r : EnqueueRequest) (status : Status) (now : ℕ)
    (p : Job → Bool) where
  -- Rows that ask for another revision are pending, and the pending rows stay so.
  update-keeps_pending :
      (rows : List Job)
      → any (is_pending job_type s) rows ≡ true
      → any (is_pending job_type s) (update_where p (another_revision r status now) rows) ≡ true
  unfolding update_where
  update-keeps_pending [] h = h
  update-keeps_pending (j ∷ rows) h =
      let again = another_revision-is_pending job_type s r status now j in
      elim (Bool-cases (p j)) [
        | inl written ↦ rw written (ground (arith, update-keeps_pending rows))
        | inr other ↦ rw other (ground (arith, update-keeps_pending rows))
      ]

  update-makes_pending :
      (rows : List Job) {j : Job}
      → In j rows
      → p j ≡ true
      → is_for job_type s j ≡ true
      → any (is_pending job_type s) (update_where p (another_revision r status now) rows) ≡ true
  unfolding update_where
  update-makes_pending [] m h fits = elim m [ ]
  update-makes_pending (x ∷ rows) {j} (here e) h fits =
      let again = another_revision-is_pending job_type s r status now x in
      let own : p x ≡ true = ap p e ∙ h in
      let same : is_for job_type s x ≡ true = ap (is_for job_type s) e ∙ fits in
      rw own (ground arith)
  update-makes_pending (x ∷ rows) (there m) h fits =
      ground (arith, update-makes_pending rows m h fits)

new_row-is_pending :
    (r : EnqueueRequest) (new_id now : ℕ)
    → is_pending r.job_type r.subject (new_row r new_id now) ≡ true
unfolding new_row
new_row-is_pending r new_id now = ground (arith, new_row-is_for r new_id now)

-- A call that asks for another revision.
abbrev pub CallPending : EnqueueRequest → List Job → List Job → Type 0
CallPending r rows rows' =
    ((job_type : String) (s : Subject)
      → any (is_pending job_type s) rows ≡ true
      → any (is_pending job_type s) rows' ≡ true)
    × (any (is_pending r.job_type r.subject) rows' ≡ true)

on_existing-another :
    (r : EnqueueRequest) (now : ℕ) (j : Job) (rows : List Job)
    → r.increment_revision ≡ true
    → (on_existing r now j rows).1
      ≡ update_where (has_id j.id) (another_revision r j.status now) rows
unfolding on_existing
on_existing-another r now j rows again = rw again refl

pub enqueue_job-CallPending :
    (r : EnqueueRequest) (new_id now : ℕ) (rows : List Job)
    → r.increment_revision ≡ true
    → (res : EnqueueJobResult) × (rows' : List Job) × (enqueue_job r new_id now rows
        ≡ some (res, rows'))
      × CallPending r rows rows'
enqueue_job-CallPending r new_id now rows again = elim (enqueue_job-Outcome r new_id now rows) [
  | no_row free e ↦
      let new = new_row r new_id now in
      (
        _,
        rows ++ new ∷ [],
        e,
        (
          (λ job_type s h. rw (any-append (is_pending job_type s) rows (new ∷ []), h) refl),
          ground (
            arith,
            any-append (is_pending r.job_type r.subject) rows (new ∷ []),
            new_row-is_pending r new_id now,
          ),
        ),
      )
  | one_row j m fits e ↦
      let to = sym (on_existing-another r now j rows again) in
      (
        (on_existing r now j rows).0,
        (on_existing r now j rows).1,
        e,
        subst (CallPending r rows) to (
          (λ job_type s h. update-keeps_pending job_type s r j.status now (has_id j.id) rows h),
          update-makes_pending r.job_type r.subject r j.status now (has_id j.id) rows m
              (==_refl j.id) fits,
        ),
      )
]
