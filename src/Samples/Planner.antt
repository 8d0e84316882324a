-- ===== src/Samples/Planner.antt =====
-- The theorems about the planner and the answers of the model on small inputs.
use shkandal.Prelude.{
  refl, arith, none, some, [], true, here, ◌∷◌, ◌≡◌, In, List, ◌⊎◌, ◌+◌, All, length, ℕ, ◌≤◌, false,
  not, ◌&&◌,
}
use shkandal.Budgeting.{lifecycle_sample}
use shkandal.Budgeting.Lifecycle.{lifecycle_sample-ends}
use shkandal.Contracts.Accepted.{
  IsResolved, IsRejected, HasDistinctTargets, accept_resolution-decides,
}
use shkandal.Contracts.Audits.{coherent, original, CaseCoherenceAuditOutput, accept_coherence}
use shkandal.Contracts.Partition.{IsDecision, Supports, accept_coherence-IsDecision}
use shkandal.Contracts.Resolution.{CaseResolutionOutput, accept_resolution, resolved}
use shkandal.Jobs.{Job}
use shkandal.Planning.Ensuring.Passes.{ensure_cases-covers}
use shkandal.Planning.Ensuring.Rows.{has_row, has_finished}
use shkandal.Planning.Missing.{
  LacksCard, articles_missing_card_query-LacksCard, articles_missing_card_query_complete,
}
use shkandal.Planning.Passes.{EnqueueStats, ensure_cases}
use shkandal.Planning.Queries.{due_square_threshold, articles_missing_card_query}
use shkandal.Planning.Refresh.{passes_square, due_square_threshold-passes_square}
use shkandal.Planning.Tables.{ArticleGateDecision, Tables, Article, Case}
use shkandal.Samples.{table, table-IsWellFormed}
use shkandal.Sql.Rows.{count_where}
use shkandal.Text.{Text, codes}

abbrev article : Article
article = record { id = 10; fetch_status = "succeeded"; published_at = none; created_at = 5 }

abbrev decision : ArticleGateDecision
decision = record { article_id = 10; is_case_candidate = true }

abbrev case : Case
case = record {
  id = 20;
  title_uk = codes "title";
  summary_uk = some (codes "summary");
  status = "active";
  first_seen_at = none;
  event_count = 0;
  last_updated_at = none;
  article_count = 9;
  last_refreshed_article_count = 5;
  evidence_revision = 1;
  last_audited_revision = 0;
  last_audited_at = none;
  last_interest_audited_revision = 0;
  last_interest_audited_at = none;
  last_duplicate_audited_revision = 0;
  last_duplicate_audited_at = none;
  merged_into_case_id = none;
  created_at = 7;
}

abbrev tables : Tables
tables = record {
  articles = article ∷ [];
  relevance = [];
  gate_decisions = decision ∷ [];
  cards = [];
  cases = case ∷ [];
  coherence_audits = [];
  public_interest_audits = [];
  jobs = table;
}

articles_missing_card_query-LacksCard_example :
    (a : Article) × (g : ArticleGateDecision) × LacksCard 10 a g tables
unfolding articles_missing_card_query
articles_missing_card_query-LacksCard_example =
    articles_missing_card_query-LacksCard 5 10 tables (here refl)

articles_missing_card_query_complete_example : In 10 (articles_missing_card_query 5 tables)
unfolding articles_missing_card_query
articles_missing_card_query_complete_example =
    articles_missing_card_query_complete 5 10 tables article decision
      (here refl, here refl, refl, refl, refl, tt) (omega arith)

due_square_threshold-passes_square_example : due_square_threshold case ≡ passes_square 5 9
due_square_threshold-passes_square_example = due_square_threshold-passes_square case

ensure_cases-covers_example :
    (stats : EnqueueStats) × (rows' : List Job) × (ensure_cases "refresh_case"
        (20 ∷ 21 ∷ [])
        3
        (λ c. c + 100)
        500
        table
      ≡ some (stats, rows'))
    × All
        (λ c.
          (has_row "refresh_case" rows' c ≡ true) × (has_finished "refresh_case" rows' c ≡ false))
        (20 ∷ 21 ∷ [])
    × (stats.scanned_articles ≡ 2)
    × (stats.inserted_jobs ≡ count_where (λ c. not (has_row "refresh_case" table c)) (20 ∷ 21 ∷ []))
    × (stats.requeued_jobs ≡ count_where (has_finished "refresh_case" table) (20 ∷ 21 ∷ []))
    × (stats.existing_jobs
        ≡ count_where
            (λ c. has_row "refresh_case" table c && not (has_finished "refresh_case" table c))
            (20 ∷ 21 ∷ []))
    × (stats.ensured_jobs ≡ stats.inserted_jobs + stats.requeued_jobs)
    × (length rows' ≡ length table + stats.inserted_jobs)
ensure_cases-covers_example =
    ensure_cases-covers "refresh_case" 3 (λ c. c + 100) 500 (20 ∷ 21 ∷ []) table table-IsWellFormed
      ((λ e. omega (arith, e), tt), (tt, tt))
      (
        (λ e. omega (arith, e), (λ e. omega (arith, e), (λ e. omega (arith, e), tt))),
        ((λ e. omega (arith, e), (λ e. omega (arith, e), (λ e. omega (arith, e), tt))), tt),
      )

abbrev word : Text
word = codes "a"

abbrev resolution : CaseResolutionOutput
resolution = record {
  diagnosis = record {
    article_story_core_uk = some word;
    specific_case_core_uk = some word;
    only_broad_overlap_uk = none;
    merge_blockers_uk = [];
    separate_story_cores_uk = [];
    case_coherence_test_uk = word;
    matching_existing_case_ids = word ∷ [];
    new_case_core_uk = none;
    rejection_signals_uk = [];
    broad_theme_warning_uk = none;
  };
  existing_case_links = record { case_id = word; link_reason_uk = word; confidence = 900000 } ∷ [];
  new_cases = [];
  decision_reason_uk = word;
  outcome = resolved;
}

accept_resolution-decides_example :
    (IsResolved resolution ⊎ IsRejected resolution) × HasDistinctTargets resolution
unfolding accept_resolution
accept_resolution-decides_example = accept_resolution-decides resolution refl

abbrev audit : CaseCoherenceAuditOutput
audit = record {
  diagnosis = record {
    shared_specific_core_uk = some word;
    shared_only_broad_theme_uk = none;
    merge_blockers_uk = [];
    split_story_cores_uk = [];
    detached_article_signals_uk = [];
    coherence_test_uk = word;
  };
  stories =
      record {
        story_ref = original;
        title_uk = word;
        summary_uk = word;
        article_ids = word ∷ [];
        reason_uk = word;
      }
      ∷ [];
  detached_articles = [];
  reason_uk = word;
  outcome = coherent;
}

accept_coherence-IsDecision_example : IsDecision audit × Supports audit coherent
unfolding accept_coherence
accept_coherence-IsDecision_example = accept_coherence-IsDecision audit refl (λ e. cc)

lifecycle_sample-ends_example :
    (sample : List ℕ) × (lifecycle_sample (1 ∷ 2 ∷ 3 ∷ 4 ∷ 5 ∷ []) 3 ≡ some sample)
    × (length sample ≤ 3)
    × In 1 sample
    × In 5 sample
lifecycle_sample-ends_example =
    lifecycle_sample-ends (1 ∷ 2 ∷ 3 ∷ 4 ∷ 5 ∷ []) 3 1 5 (omega arith) (omega arith) refl refl
