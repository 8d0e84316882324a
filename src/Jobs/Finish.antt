-- ===== src/Jobs/Finish.antt =====
-- ArticleJobStore.complete_job, fail_job, defer_job and retry_delay. `SystemRandom.randrange` is an
-- argument.
use shkandal.Prelude.{
  none, ℕ, Option, List, Bool, some, holds_of, if◌then◌else◌, ◌-◌, ltb, length, max, is_empty, leb,
  ◌&&◌, ◌==◌, min, ◌+◌, ◌*◌, ◌/◌, get_elem?,
}
use shkandal.Jobs.{Instant, Job, StoreConfig, queued, succeeded, failed, second, is_running, has_id}
use shkandal.Sql.Rows.{update_where}
use shkandal.Text.{Text, strip, codes}

-- `processed_revision is None`: the job has one revision only.
unfoldable pub complete : Instant → Job → Job
complete finished_at j = record j {
  status = succeeded;
  completed_revision = j.requested_revision;
  locked_at = none;
  locked_by = none;
  last_error = none;
  updated_at = finished_at;
}

unfoldable pub complete_revision : ℕ → Instant → Job → Job
complete_revision processed finished_at j =
    let newer = ltb processed j.requested_revision in
    record j {
      status = if newer then queued else succeeded;
      completed_revision = processed;
      run_after = if newer then some finished_at else j.run_after;
      attempt_count = if newer then 0 else j.attempt_count;
      locked_at = none;
      locked_by = none;
      last_error = none;
      updated_at = finished_at;
    }

unfoldable pub complete_row : Option ℕ → Instant → Job → Job
unfolding complete complete_revision
complete_row none finished_at = complete finished_at
complete_row (some processed) finished_at = complete_revision processed finished_at

unfoldable pub complete_job : ℕ → Option ℕ → Instant → List Job → List Job
unfolding complete_row
complete_job job_id processed finished_at =
    update_where (has_id job_id) (complete_row processed finished_at)

abbrev pub last_index : List ℕ → ℕ
last_index delays = length delays - 1

-- `none` is the IndexError of `delays[i]`; the index -1, after no attempt, is the last delay.
unfoldable pub base_delay : List ℕ → ℕ → Option ℕ
base_delay delays attempt_count =
    get_elem? delays (
      if attempt_count == 0 then last_index delays else min (attempt_count - 1) (last_index delays))

unfoldable pub max_jitter_seconds : ℕ → ℕ → ℕ
max_jitter_seconds ratio base = max 1 (base * ratio / (1000 * second))

unfoldable pub retry_delay : StoreConfig → (ℕ → ℕ) → ℕ → Option ℕ
unfolding base_delay max_jitter_seconds
retry_delay config randrange attempt_count = elim (base_delay config.retry_delays attempt_count) [
  | none ↦ none
  | some base ↦ some (
      if config.retry_jitter_ratio == 0
      then base
      else base + randrange (max_jitter_seconds config.retry_jitter_ratio base + 1) * second)
]

abbrev pub unknown_error : Text
unknown_error = codes "UnknownError"

unfoldable pub durable_message : Text → Text
unfolding strip
durable_message message =
    let stripped = strip message in if is_empty stripped then unknown_error else stripped

-- The values that fail_job writes; a newer requested revision overrules the exhausted attempts.
unfoldable pub fail_row : Text → Bool → Option ℕ → Instant → Instant → Job → Job
fail_row message exhausted processed retry_at failed_at j =
    let newer = holds_of (λ p. ltb p j.requested_revision) processed in
    record j {
      status = if newer then queued else if exhausted then failed else queued;
      attempt_count = if newer then 0 else j.attempt_count;
      locked_at = none;
      locked_by = none;
      last_error = some message;
      run_after =
          if newer then some failed_at else if exhausted then j.run_after else some retry_at;
      updated_at = failed_at;
    }

unfoldable pub fail_job :
    StoreConfig → (ℕ → ℕ) → ℕ → Text → ℕ → ℕ → Option ℕ → Instant → List Job → Option (List Job)
unfolding fail_row durable_message
fail_job config randrange job_id message attempt_count max_attempts processed failed_at rows =
    let exhausted = leb max_attempts attempt_count in
    elim (retry_delay config randrange attempt_count) [
      | none ↦ none
      | some delay ↦ some (
          update_where (has_id job_id)
            (fail_row (durable_message message) exhausted processed (failed_at + delay) failed_at)
            rows)
    ]

-- A running row goes back to the queue and gets its attempt back.
unfoldable pub defer : Instant → Text → Instant → Job → Job
defer run_after reason deferred_at j = record j {
  status = queued;
  attempt_count = j.attempt_count - 1;
  run_after = some run_after;
  locked_at = none;
  locked_by = none;
  last_error = some reason;
  updated_at = deferred_at;
}

unfoldable pub defer_job : ℕ → Instant → Text → Instant → List Job → List Job
unfolding defer
defer_job job_id run_after reason deferred_at =
    update_where (λ j. has_id job_id j && is_running j.status) (defer run_after reason deferred_at)
