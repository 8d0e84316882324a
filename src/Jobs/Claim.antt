-- ===== src/Jobs/Claim.antt =====
-- ArticleJobStore.claim_next_job and _eligible_job_id_query. The articles table and the rows that
-- other transactions hold locked are arguments.
use text.Mathlib.Text.{◌==◌ as str_eq}
use shkandal.Sql.Order.{
  Comparison, asc, desc, nulls_first, nulls_last, by_key, ◌then_by◌, order_by, first_row,
}
use shkandal.Sql.Rows.{update_where}
use shkandal.Jobs.{
  Instant, Job, ClaimedJob, StoreConfig, running, is_queued, is_running, has_id, Option, ℕ, Bool,
  String, List, some, holds_of, true,
}
use shkandal.Prelude.{◌&&◌, ltb, ◌||◌, ◌-◌, keep_if, ◌+◌, is_none, any, not, leb, none, true}

-- The two columns of an article that the query reads.
pub record ArticleTimes : Type 0 where
  pub published_at : Option Instant
  pub created_at : Instant

abbrev pub ArticleTable : Type 0
ArticleTable = ℕ → Option ArticleTimes

unfoldable pub article_published_at : ArticleTable → Job → Option Instant
article_published_at articles j = elim j.article_id [
  | none ↦ none
  | some a ↦ elim (articles a) [ none ↦ none | some t ↦ t.published_at ]
]

unfoldable pub article_created_at : ArticleTable → Job → Option Instant
article_created_at articles j = elim j.article_id [
  | none ↦ none
  | some a ↦ elim (articles a) [ none ↦ none | some t ↦ some t.created_at ]
]

-- A queued row with attempts left whose time has come.
unfoldable pub is_due : Instant → Job → Bool
is_due now j =
    is_queued j.status
    && ltb j.attempt_count j.max_attempts
    && (is_none j.run_after || holds_of (λ t. leb t now) j.run_after)

-- A running row with attempts left whose lease has run out.
unfoldable pub is_stale_running : Instant → Job → Bool
is_stale_running stale_before j =
    is_running j.status
    && holds_of (λ t. ltb t stale_before) j.locked_at
    && ltb j.attempt_count j.max_attempts

unfoldable pub has_type_in : Option (List String) → Job → Bool
has_type_in none j = true
has_type_in (some job_types) j = any (λ t. str_eq j.job_type t) job_types

unfoldable pub is_eligible : Instant → Instant → Option (List String) → Job → Bool
unfolding is_due is_stale_running has_type_in
is_eligible stale_before now job_types j =
    (is_due now j || is_stale_running stale_before j) && has_type_in job_types j

-- The ORDER BY of the query.
unfoldable pub claim_order : ArticleTable → Comparison Job
unfolding article_published_at article_created_at
claim_order articles =
    by_key (λ j. j.priority) desc
    then_by by_key (λ j. j.run_after) (nulls_first asc)
    then_by by_key (article_published_at articles) (nulls_last asc)
    then_by by_key (article_created_at articles) (nulls_last asc)
    then_by by_key (λ j. j.created_at) asc
    then_by by_key (λ j. j.id) asc

-- The rows that the query may return with FOR UPDATE SKIP LOCKED.
unfoldable pub is_claimable : StoreConfig → Option (List String) → Instant → (ℕ → Bool) → Job → Bool
unfolding is_eligible
is_claimable config job_types now locked j =
    is_eligible (now - config.stale_job_timeout) now job_types j && not (locked j.id)

unfoldable pub select_next :
    StoreConfig → Option (List String) → Instant → ArticleTable → (ℕ → Bool) → List Job → Option Job
unfolding is_claimable claim_order order_by first_row
select_next config job_types now articles locked rows =
    first_row
      (order_by (claim_order articles) (keep_if (is_claimable config job_types now locked) rows))

unfoldable pub mark_running : String → Instant → Job → Job
mark_running worker_id claim_time j = record j {
  status = running;
  locked_at = some claim_time;
  locked_by = some worker_id;
  attempt_count = j.attempt_count + 1;
  updated_at = claim_time;
}

unfoldable pub to_claimed : Job → ClaimedJob
to_claimed j = record {
  id = j.id;
  job_type = j.job_type;
  article_id = j.article_id;
  payload = j.payload;
  attempt_count = j.attempt_count;
  max_attempts = j.max_attempts;
  case_id = j.case_id;
  requested_revision = j.requested_revision;
}

unfoldable pub claim_next_job :
    StoreConfig
    → String
    → Option (List String)
    → Instant
    → ArticleTable
    → (ℕ → Bool)
    → List Job
    → Option ClaimedJob × List Job
unfolding select_next mark_running to_claimed
claim_next_job config worker_id job_types now articles locked rows =
    elim (select_next config job_types now articles locked rows) [
      | none ↦ (none, rows)
      | some found ↦ (
        some (to_claimed (mark_running worker_id now found)),
        update_where (has_id found.id) (mark_running worker_id now) rows,
      )
    ]
