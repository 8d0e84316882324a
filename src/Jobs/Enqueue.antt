-- ===== src/Jobs/Enqueue.antt =====
-- ArticleJobStore.enqueue_article_job, enqueue_article_jobs, enqueue_case_job, ensure_case_job and
-- _enqueue_job. The id of a new row and the clock are arguments.
use text.Mathlib.Text.{◌==◌ as str_eq}
use shkandal.Prelude.{
  ℕ, Option, Bool, String, ◌+◌, List, some, none, holds_of, [], false, true, if◌then◌else◌, ◌==◌,
  ◌&&◌, any, not, ◌++◌, ◌∷◌, map, length, ◌-◌,
}
use shkandal.Jobs.{
  Instant, Payload, Status, queued, running, Job, EnqueueState, inserted, existing, requeued,
  EnqueueJobResult, is_running, is_failed, is_succeeded, has_id, BulkEnqueueJobResult,
}
use shkandal.Sql.Rows.{update_where, find_row, returning}

-- The subject column with its value.
pub data Subject : Type 0 where
  of_article : ℕ → Subject
  of_case : ℕ → Subject

abbrev pub article_of : Subject → Option ℕ
article_of (of_article a) = some a
article_of (of_case c) = none

abbrev pub case_of : Subject → Option ℕ
case_of (of_article a) = none
case_of (of_case c) = some c

-- `subject_column == subject_id`; NULL is equal to nothing.
abbrev pub has_subject : Subject → Job → Bool
has_subject (of_article a) j = holds_of (λ b. b == a) j.article_id
has_subject (of_case c) j = holds_of (λ b. b == c) j.case_id

-- The keyword arguments of _enqueue_job.
pub record EnqueueRequest : Type 0 where
  pub job_type : String
  pub subject : Subject
  pub payload : Option Payload
  pub priority : ℕ
  pub run_after : Option Instant
  pub max_attempts : ℕ
  pub increment_revision : Bool
  pub requeue_failed : Bool
  pub requeue_succeeded : Bool

unfoldable pub is_for : String → Subject → Job → Bool
is_for job_type subject j = str_eq j.job_type job_type && has_subject subject j

abbrev pub payload_or_empty : Option Payload → Payload
payload_or_empty none = []
payload_or_empty (some p) = p

-- A row as INSERT writes it, with the server defaults.
unfoldable pub new_row : EnqueueRequest → ℕ → Instant → Job
new_row r new_id now = record {
  id = new_id;
  job_type = r.job_type;
  article_id = article_of r.subject;
  case_id = case_of r.subject;
  status = queued;
  priority = r.priority;
  payload = payload_or_empty r.payload;
  attempt_count = 0;
  max_attempts = r.max_attempts;
  requested_revision = 1;
  completed_revision = 0;
  run_after = r.run_after;
  locked_at = none;
  locked_by = none;
  last_error = none;
  created_at = now;
  updated_at = now;
}

-- ON CONFLICT DO NOTHING on the partial unique index of the subject column.
unfoldable pub insert_row : Job → String → Subject → List Job → List Job × Bool
unfolding is_for
insert_row row job_type subject rows =
    if any (is_for job_type subject) rows then (rows, false) else (rows ++ row ∷ [], true)

abbrev pub next_status : Status → Status
next_status running = running
next_status queued = queued
next_status _ = queued

-- `update_values` of the branch that asks for another revision, for the status that was read.
unfoldable pub another_revision : EnqueueRequest → Status → Instant → Job → Job
another_revision r status now j = record j {
  requested_revision = j.requested_revision + 1;
  status = next_status status;
  run_after = r.run_after;
  last_error = none;
  attempt_count = if is_running status then j.attempt_count else 0;
  locked_at = if is_running status then j.locked_at else none;
  locked_by = if is_running status then j.locked_by else none;
  payload = elim r.payload [ none ↦ j.payload | some p ↦ p ];
  updated_at = now;
}

-- A finished row is put back into the queue as if it were new.
unfoldable pub requeue : Option Instant → ℕ → Instant → Job → Job
requeue run_after max_attempts now j = record j {
  status = queued;
  attempt_count = 0;
  run_after = run_after;
  locked_at = none;
  locked_by = none;
  last_error = none;
  max_attempts = max_attempts;
  updated_at = now;
}

abbrev pub result : ℕ → EnqueueState → EnqueueJobResult
result job_id state = record { job_id = job_id; state = state }

-- UPDATE ... WHERE id = ? AND status = ? RETURNING id.
unfoldable pub requeue_where :
    EnqueueRequest → Instant → Job → (Status → Bool) → List Job → EnqueueJobResult × List Job
unfolding requeue
requeue_where r now found in_status rows =
    let chosen : Job → Bool = λ j. has_id found.id j && in_status j.status in
    let write = requeue r.run_after r.max_attempts now in
    (
      result found.id (if any chosen rows then requeued else existing),
      update_where chosen write rows,
    )

-- What _enqueue_job does about the row that it found.
unfoldable pub on_existing : EnqueueRequest → Instant → Job → List Job → EnqueueJobResult × List Job
unfolding another_revision requeue_where
on_existing r now found rows =
    if r.increment_revision
    then (
      result found.id requeued,
      update_where (has_id found.id) (another_revision r found.status now) rows,
    )
    else if is_succeeded found.status && r.requeue_succeeded
    then requeue_where r now found is_succeeded rows
    else if not (is_failed found.status)
    then (result found.id existing, rows)
    else if not r.requeue_failed
    then (result found.id existing, rows)
    else requeue_where r now found is_failed rows

-- `none` is the RuntimeError of a conflict whose row is not found.
unfoldable pub enqueue_job :
    EnqueueRequest → ℕ → Instant → List Job → Option (EnqueueJobResult × List Job)
unfolding insert_row on_existing is_for new_row
enqueue_job r new_id now rows =
    let (rows', was_inserted) = insert_row (new_row r new_id now) r.job_type r.subject rows in
    if was_inserted
    then some (result new_id inserted, rows')
    else elim (find_row (is_for r.job_type r.subject) rows') [
      | none ↦ none
      | some found ↦ some (on_existing r now found rows')
    ]

unfoldable pub enqueue_article_job :
    String
    → ℕ
    → Option Payload
    → ℕ
    → Option Instant
    → ℕ
    → Bool
    → ℕ
    → Instant
    → List Job
    → Option (EnqueueJobResult × List Job)
unfolding enqueue_job
enqueue_article_job job_type article_id payload priority run_after max_attempts requeue_failed =
    enqueue_job (record {
      job_type = job_type;
      subject = of_article article_id;
      payload = payload;
      priority = priority;
      run_after = run_after;
      max_attempts = max_attempts;
      increment_revision = false;
      requeue_failed = requeue_failed;
      requeue_succeeded = false;
    })

unfoldable pub enqueue_case_job :
    String
    → ℕ
    → Option Payload
    → ℕ
    → Option Instant
    → ℕ
    → ℕ
    → Instant
    → List Job
    → Option (EnqueueJobResult × List Job)
unfolding enqueue_job
enqueue_case_job job_type case_id payload priority run_after max_attempts = enqueue_job (record {
  job_type = job_type;
  subject = of_case case_id;
  payload = payload;
  priority = priority;
  run_after = run_after;
  max_attempts = max_attempts;
  increment_revision = true;
  requeue_failed = true;
  requeue_succeeded = false;
})

unfoldable pub ensure_case_job :
    String
    → ℕ
    → Option Payload
    → ℕ
    → Option Instant
    → ℕ
    → Bool
    → ℕ
    → Instant
    → List Job
    → Option (EnqueueJobResult × List Job)
unfolding enqueue_job
ensure_case_job job_type case_id payload priority run_after max_attempts requeue_failed =
    enqueue_job (record {
      job_type = job_type;
      subject = of_case case_id;
      payload = payload;
      priority = priority;
      run_after = run_after;
      max_attempts = max_attempts;
      increment_revision = false;
      requeue_failed = requeue_failed;
      requeue_succeeded = true;
    })

-- The values of one row of the bulk INSERT.
abbrev pub bulk_row : String → ℕ → ℕ → EnqueueRequest
bulk_row job_type max_attempts article_id = record {
  job_type = job_type;
  subject = of_article article_id;
  payload = some (("article_id", article_id) ∷ []);
  priority = 0;
  run_after = none;
  max_attempts = max_attempts;
  increment_revision = false;
  requeue_failed = false;
  requeue_succeeded = false;
}

-- One row of the bulk INSERT for each article with its generated id; the ids that were inserted.
unfoldable pub insert_articles : String → ℕ → Instant → List (ℕ × ℕ) → List Job → List Job × List ℕ
unfolding insert_row new_row
insert_articles job_type max_attempts now [] rows = (rows, [])
insert_articles job_type max_attempts now ((article_id, new_id) ∷ rest) rows =
    let (rows', was_inserted) =
      insert_row (new_row (bulk_row job_type max_attempts article_id) new_id now) job_type
        (of_article article_id) rows in
    let (rows'', later) = insert_articles job_type max_attempts now rest rows' in
    (rows'', if was_inserted then article_id ∷ later else later)

-- The WHERE clause of the bulk UPDATE.
unfoldable pub is_failed_article : String → List ℕ → Job → Bool
is_failed_article job_type article_ids j =
    str_eq j.job_type job_type
    && holds_of (λ a. any (λ b. a == b) article_ids) j.article_id
    && is_failed j.status

-- `articles` holds each article id with the id that its row gets if it is inserted.
unfoldable pub enqueue_article_jobs :
    String → List (ℕ × ℕ) → ℕ → Bool → Instant → List Job → BulkEnqueueJobResult × List Job
unfolding insert_articles is_failed_article requeue
enqueue_article_jobs job_type articles max_attempts requeue_failed now rows =
    let (rows', added) = insert_articles job_type max_attempts now articles rows in
    let chosen = is_failed_article job_type (map (λ p. p.0) articles) in
    let write = requeue none max_attempts now in
    let put_back = if requeue_failed then length (returning chosen write rows') else 0 in
    (
      record {
        inserted_jobs = length added;
        requeued_jobs = put_back;
        existing_jobs = length articles - length added - put_back;
      },
      if requeue_failed then update_where chosen write rows' else rows',
    )
