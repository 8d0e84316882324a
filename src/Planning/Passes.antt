-- ===== src/Planning/Passes.antt =====
-- The passes of MlJobPlanner: a query, and a job for each row that it finds. The clock and the ids
-- that the database generates are arguments; `none` is an error of the job store.
use shkandal.Prelude.{
  ◌>>=◌, ℕ, none, some, [], true, false, ◌∷◌, List, Option, ◌*◌, String, Bool, length, map, ◌+◌,
  ◌-◌,
}
use shkandal.Jobs.{
  EnqueueState, BulkEnqueueJobResult, Job, EnqueueJobResult, Payload, second, Instant, inserted,
  requeued, existing,
}
use shkandal.Jobs.Enqueue.{enqueue_article_jobs, ensure_case_job, enqueue_case_job}
use shkandal.Planning.{
  classify_article_job, refresh_case_job, audit_case_public_interest_job, audit_case_coherence_job,
  create_article_card_job, gate_article_job,
}
use shkandal.Planning.Queries.{
  coherent_successful_case_audit_rerun_query, articles_missing_gate_query,
  active_case_public_interest_rerun_query, articles_missing_relevance_query,
  cases_due_for_audit_query, articles_missing_card_query, cases_due_for_refresh_query,
}
use shkandal.Planning.Tables.{Tables}
use shkandal.Sql.Rows.{count_where}

pub record EnqueueStats : Type 0 where
  pub scanned_articles : ℕ
  pub ensured_jobs : ℕ
  pub inserted_jobs : ℕ
  pub requeued_jobs : ℕ
  pub existing_jobs : ℕ

abbrev of_bulk : List ℕ → BulkEnqueueJobResult → EnqueueStats
of_bulk article_ids result = record {
  scanned_articles = length article_ids;
  ensured_jobs = result.inserted_jobs + result.requeued_jobs;
  inserted_jobs = result.inserted_jobs;
  requeued_jobs = result.requeued_jobs;
  existing_jobs = result.existing_jobs;
}

-- One enqueue_article_jobs for the articles of a query.
unfoldable pub enqueue_articles :
    String → List ℕ → ℕ → Bool → (ℕ → ℕ) → Instant → List Job → EnqueueStats × List Job
unfolding enqueue_article_jobs
enqueue_articles job_type article_ids max_attempts requeue_failed new_id now rows =
    let (result, rows') =
      enqueue_article_jobs job_type (map (λ a. (a, new_id a)) article_ids) max_attempts
        requeue_failed now rows in
    (of_bulk article_ids result, rows')

unfoldable pub enqueue_missing_classification_jobs :
    ℕ → ℕ → Bool → (ℕ → ℕ) → Instant → Tables → EnqueueStats × List Job
unfolding enqueue_articles articles_missing_relevance_query
enqueue_missing_classification_jobs limit max_attempts requeue_failed new_id now t =
    enqueue_articles classify_article_job (articles_missing_relevance_query limit t) max_attempts
      requeue_failed new_id now t.jobs

unfoldable pub enqueue_missing_article_card_jobs :
    ℕ → ℕ → Bool → (ℕ → ℕ) → Instant → Tables → EnqueueStats × List Job
unfolding enqueue_articles articles_missing_card_query
enqueue_missing_article_card_jobs limit max_attempts requeue_failed new_id now t =
    enqueue_articles create_article_card_job (articles_missing_card_query limit t) max_attempts
      requeue_failed new_id now t.jobs

unfoldable pub enqueue_missing_article_gate_jobs :
    ℕ → ℕ → Bool → (ℕ → ℕ) → Instant → Tables → EnqueueStats × List Job
unfolding enqueue_articles articles_missing_gate_query
enqueue_missing_article_gate_jobs limit max_attempts requeue_failed new_id now t =
    enqueue_articles gate_article_job (articles_missing_gate_query limit t) max_attempts
      requeue_failed new_id now t.jobs

-- The call of the job store for each Case in turn.
unfoldable pub for_each_case :
    (ℕ → List Job → Option (EnqueueJobResult × List Job))
    → List ℕ
    → List Job
    → Option (List EnqueueJobResult × List Job)
for_each_case call [] rows = some ([], rows)
for_each_case call (case_id ∷ case_ids) rows = do
  (result, rows') ← call case_id rows
  (results, rows'') ← for_each_case call case_ids rows'
  some (result ∷ results, rows'')

abbrev pub is_inserted : EnqueueState → Bool
is_inserted inserted = true
is_inserted requeued = false
is_inserted existing = false

abbrev pub is_requeued : EnqueueState → Bool
is_requeued inserted = false
is_requeued requeued = true
is_requeued existing = false

unfoldable pub of_states : List ℕ → List EnqueueJobResult → EnqueueStats
unfolding count_where
of_states case_ids states =
    let inserted = count_where (λ r. is_inserted r.state) states in
    let requeued = count_where (λ r. is_requeued r.state) states in
    record {
      scanned_articles = length case_ids;
      ensured_jobs = inserted + requeued;
      inserted_jobs = inserted;
      requeued_jobs = requeued;
      existing_jobs = length states - inserted - requeued;
    }

unfoldable pub enqueue_cases :
    (ℕ → List Job → Option (EnqueueJobResult × List Job))
    → List ℕ
    → List Job
    → Option (EnqueueStats × List Job)
unfolding for_each_case of_states
enqueue_cases call case_ids rows = do
  (states, rows') ← for_each_case call case_ids rows
  some (of_states case_ids states, rows')

abbrev pub case_payload : ℕ → Option Payload
case_payload case_id = some (("case_id", case_id) ∷ [])

unfoldable pub ensure_cases :
    String → List ℕ → ℕ → (ℕ → ℕ) → Instant → List Job → Option (EnqueueStats × List Job)
unfolding enqueue_cases ensure_case_job
ensure_cases job_type case_ids max_attempts new_id now =
    enqueue_cases
      (λ c. ensure_case_job job_type c (case_payload c) 0 none max_attempts true (new_id c) now)
      case_ids

unfoldable pub rerun_cases :
    String → List ℕ → ℕ → (ℕ → ℕ) → Instant → List Job → Option (EnqueueStats × List Job)
unfolding enqueue_cases enqueue_case_job
rerun_cases job_type case_ids max_attempts new_id now =
    enqueue_cases
      (λ c. enqueue_case_job job_type c (case_payload c) 0 none max_attempts (new_id c) now)
      case_ids

abbrev day : ℕ
day = 86400 * second

unfoldable pub enqueue_due_case_audit_jobs :
    ℕ → ℕ → ℕ → (ℕ → ℕ) → Instant → Tables → Option (EnqueueStats × List Job)
unfolding ensure_cases cases_due_for_audit_query
enqueue_due_case_audit_jobs limit max_attempts interval_days new_id now t =
    ensure_cases audit_case_coherence_job
      (cases_due_for_audit_query (now - interval_days * day) limit t) max_attempts new_id now t.jobs

unfoldable pub enqueue_due_case_refresh_jobs :
    ℕ → ℕ → (ℕ → ℕ) → Instant → Tables → Option (EnqueueStats × List Job)
unfolding ensure_cases cases_due_for_refresh_query
enqueue_due_case_refresh_jobs limit max_attempts new_id now t =
    ensure_cases refresh_case_job (cases_due_for_refresh_query limit t) max_attempts new_id now
      t.jobs

unfoldable pub enqueue_coherent_successful_case_audit_reruns :
    Option ℕ → ℕ → (ℕ → ℕ) → Instant → Tables → Option (EnqueueStats × List Job)
unfolding rerun_cases coherent_successful_case_audit_rerun_query
enqueue_coherent_successful_case_audit_reruns limit max_attempts new_id now t =
    rerun_cases audit_case_coherence_job (coherent_successful_case_audit_rerun_query limit t)
      max_attempts new_id now t.jobs

unfoldable pub enqueue_active_case_public_interest_reruns :
    Option ℕ → ℕ → (ℕ → ℕ) → Instant → Tables → Option (EnqueueStats × List Job)
unfolding rerun_cases active_case_public_interest_rerun_query
enqueue_active_case_public_interest_reruns limit max_attempts new_id now t =
    rerun_cases audit_case_public_interest_job (active_case_public_interest_rerun_query limit t)
      max_attempts new_id now t.jobs
