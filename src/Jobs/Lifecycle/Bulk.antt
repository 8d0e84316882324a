-- ===== src/Jobs/Lifecycle/Bulk.antt =====
-- The bulk enqueue keeps the table well formed, whatever ids the rows get, if they are fresh.
use shkandal.Prelude.{
  ℕ, none, [], true, false, inl, inr, ◌∷◌, List, String, All, Bool, Bool-cases, ◌≢◌, any, ◌++◌,
  refl,
}
use shkandal.Jobs.{Job}
use shkandal.Jobs.Enqueue.{
  insert_row, enqueue_article_jobs, insert_articles, EnqueueRequest, new_row, requeue, is_for,
  bulk_row,
}
use shkandal.Jobs.Invariant.{IsWellFormed}
use shkandal.Jobs.Invariant.Preserved.{
  update_where-IsWellFormed, requeue-IsSound, insert-IsWellFormed,
}
use shkandal.Jobs.Lifecycle.{IsFresh, AreFresh}

insert_row-IsWellFormed :
    (r : EnqueueRequest) (new_id now : ℕ) (rows : List Job)
    → IsWellFormed rows
    → IsFresh new_id rows
    → IsWellFormed (insert_row (new_row r new_id now) r.job_type r.subject rows).0
unfolding insert_row
insert_row-IsWellFormed r new_id now rows w fresh =
    elim (Bool-cases (any (is_for r.job_type r.subject) rows)) [
      | inl taken ↦ rw taken w
      | inr free ↦ rw free (insert-IsWellFormed r new_id now rows w fresh free)
    ]

IsFresh-append :
    (k : ℕ) (rows : List Job) (new : Job)
    → IsFresh k rows
    → k ≢ new.id
    → IsFresh k (rows ++ new ∷ [])
IsFresh-append k [] new h n = (n, tt)
IsFresh-append k (x ∷ rows) new h n = (h.0, IsFresh-append k rows new h.1 n)

-- Ids that are fresh stay so when a row with another id is inserted.
AreFresh-insert_row :
    (r : EnqueueRequest) (new_id now : ℕ) (rows : List Job) (rest : List (ℕ × ℕ))
    → All (λ p. p.1 ≢ new_id) rest
    → AreFresh rest rows
    → AreFresh rest (insert_row (new_row r new_id now) r.job_type r.subject rows).0
unfolding insert_row new_row
AreFresh-insert_row r new_id now rows [] others fresh = tt
AreFresh-insert_row r new_id now rows ((a, k) ∷ rest) others fresh =
    elim (Bool-cases (any (is_for r.job_type r.subject) rows)) [
      | inl taken ↦ rw taken fresh
      | inr free ↦
          let later = AreFresh-insert_row r new_id now rows rest others.1 fresh.2 in
          rw free (IsFresh-append k rows _ fresh.0 others.0, fresh.1, rw free at later)
    ]

insert_articles-IsWellFormed :
    (job_type : String) (max_attempts now : ℕ) (articles : List (ℕ × ℕ)) (rows : List Job)
    → IsWellFormed rows
    → AreFresh articles rows
    → IsWellFormed (insert_articles job_type max_attempts now articles rows).0
unfolding insert_articles
insert_articles-IsWellFormed job_type max_attempts now [] rows w fresh = w
insert_articles-IsWellFormed job_type max_attempts now ((a, k) ∷ rest) rows w fresh =
    insert_articles-IsWellFormed job_type max_attempts now rest _
      (insert_row-IsWellFormed (bulk_row job_type max_attempts a) k now rows w fresh.0)
      (AreFresh-insert_row (bulk_row job_type max_attempts a) k now rows rest fresh.1 fresh.2)

pub enqueue_article_jobs-IsWellFormed :
    (job_type : String) (articles : List (ℕ × ℕ)) (max_attempts : ℕ) (requeue_failed : Bool)
    (now : ℕ) (rows : List Job)
    → IsWellFormed rows
    → AreFresh articles rows
    → IsWellFormed (enqueue_article_jobs job_type articles max_attempts requeue_failed now rows).1
unfolding enqueue_article_jobs requeue
enqueue_article_jobs-IsWellFormed job_type articles max_attempts true now rows w fresh =
    update_where-IsWellFormed _ _ _
      (insert_articles-IsWellFormed job_type max_attempts now articles rows w fresh) (λ j. refl)
      (λ j. refl) (λ j m s h. requeue-IsSound none max_attempts now j s)
enqueue_article_jobs-IsWellFormed job_type articles max_attempts false now rows w fresh =
    insert_articles-IsWellFormed job_type max_attempts now articles rows w fresh
