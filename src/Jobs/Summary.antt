-- ===== src/Jobs/Summary.antt =====
-- ArticleJobStore.summarize_jobs.
use text.Mathlib.Text.{◌==◌ as str_eq}
use shkandal.Sql.Rows.{count_where}
use shkandal.Jobs.{
  Instant, Job, JobQueueSummary, StoreConfig, is_queued, is_running, is_failed, Bool, Option, List,
  ℕ, none, String, holds_of, some, ◌∷◌,
}
use shkandal.Prelude.{◌||◌, ◌&&◌, ltb, leb, ◌-◌, min, if◌then◌else◌, keep_if, any, [], ◌∷◌}

unfoldable pub processable_queued : Job → Bool
processable_queued j = is_queued j.status && ltb j.attempt_count j.max_attempts

unfoldable pub blocked_running : Instant → Job → Bool
blocked_running stale_before j =
    is_running j.status
    && holds_of (λ t. ltb t stale_before) j.locked_at
    && leb j.max_attempts j.attempt_count

unfoldable pub blocked_queued : Job → Bool
blocked_queued j = is_queued j.status && leb j.max_attempts j.attempt_count

unfoldable pub is_blocked : Instant → Job → Bool
unfolding blocked_running blocked_queued
is_blocked stale_before j = blocked_running stale_before j || blocked_queued j

-- SQL's min over a column that may be NULL.
abbrev pub sql_min : Option ℕ → Option ℕ → Option ℕ
sql_min none b = b
sql_min (some a) none = some a
sql_min (some a) (some b) = some (min a b)

unfoldable pub min_run_after : (Job → Bool) → List Job → Option Instant
min_run_after p [] = none
min_run_after p (j ∷ rows) =
    let rest = min_run_after p rows in if p j then sql_min j.run_after rest else rest

unfoldable pub summarize_jobs : StoreConfig → List String → Instant → List Job → JobQueueSummary
unfolding processable_queued is_blocked count_where min_run_after
summarize_jobs config job_types now rows =
    let stale_before = now - config.stale_job_timeout in
    let selected = keep_if (λ j. any (λ t. str_eq j.job_type t) job_types) rows in
    record {
      queued_jobs = count_where processable_queued selected;
      running_jobs = count_where (λ j. is_running j.status) selected;
      blocked_jobs = count_where (is_blocked stale_before) selected;
      failed_jobs = count_where (λ j. is_failed j.status) selected;
      next_run_after = min_run_after processable_queued selected;
      blocked_running_jobs = count_where (blocked_running stale_before) selected;
    }
