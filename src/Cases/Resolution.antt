-- ===== src/Cases/Resolution.antt =====
-- apps/worker-ml/src/worker_ml/cases/resolution.py: what is written for a resolution of an article.
-- UUIDs are numbers: `UUID(text)` and the new ids that `uuid4` makes are arguments.
use shkandal.Prelude.{
  none, some, [], ◌∷◌, ◌++◌, String, ℕ, Option, List, Bool, ◌==◌, ◌+◌, if◌then◌else◌, ◌&&◌, not,
  any,
}
use shkandal.Cases.{CaseTables, CaseArticle}
use shkandal.Cases.Publication.{sql_max}
use shkandal.Contracts.{ContractError}
use shkandal.Contracts.Resolution.{CaseLinkDecision, NewCaseDecision, CaseResolutionOutput}
use shkandal.Jobs.{Instant}
use shkandal.Planning.Tables.{ArticleCard, Article, Case}
use shkandal.Results.{Result, ok, err, ◌>>=◌}
use shkandal.Sql.Rows.{update_where}
use shkandal.Sql.Writes.{insert_or_ignore}
use shkandal.Text.{Text, text_eq}
pub mod Counts
pub mod Persisted
pub mod Recheck
pub mod Fallback
pub mod Links
pub mod Rechecked
pub mod Writable
pub mod Handle
pub mod Followups
pub mod Rejection

-- What the handler of a resolution ends with when it raises.
pub data ResolutionError : Type 0 where
  no_article_id : ResolutionError
  case_mutation_busy : ResolutionError
  no_article : ResolutionError
  run_failed : String → ResolutionError
  invalid_uuid : Text → ResolutionError
  unknown_candidate : Text → ResolutionError
  non_candidate : Text → ResolutionError
  foreign_key : ResolutionError
  fallback_links : ResolutionError
  fallback_without_case : ResolutionError
  refused : ContractError → ResolutionError
  index_failed : String → ResolutionError
  enqueue_failed : ResolutionError
  no_card_limit : ResolutionError

abbrev pub is_link : ℕ → ℕ → CaseArticle → Bool
is_link case_id article_id l = l.case_id == case_id && l.article_id == article_id

-- The row that links the article.
abbrev pub article_link : Article → Option ℕ → ℕ → Text → ℕ → CaseArticle
article_link article run_id case_id reason confidence = record {
  case_id = case_id;
  article_id = article.id;
  llm_run_id = run_id;
  link_reason_uk = some reason;
  confidence = some confidence;
}

-- `func.greatest(Case.last_updated_at, published_at)` when the article has a publication time.
abbrev pub updated_at : Option Instant → Option Instant → Option Instant
updated_at none last = last
updated_at (some p) last = sql_max last (some p)

unfoldable pub count_link : Option Instant → Case → Case
count_link published_at c = record c {
  article_count = c.article_count + 1;
  evidence_revision = c.evidence_revision + 1;
  last_updated_at = updated_at published_at c.last_updated_at;
}

module _ (uuid : Text → Option ℕ) (article : Article) (run_id : Option ℕ)
    (candidate_ids : List Text) where
  -- The row of a link, and its Case when the row is new.
  unfoldable pub insert_link : ℕ → CaseLinkDecision → CaseTables → Result ResolutionError CaseTables
  unfolding insert_or_ignore update_where count_link
  insert_link case_id link t =
      let (is_new, rows) =
        insert_or_ignore (is_link case_id article.id)
          (article_link article run_id case_id link.link_reason_uk link.confidence)
          t.case_articles in
      if not is_new
      then ok t
      else if not (any (λ c. c.id == case_id) t.cases)
      then err foreign_key
      else ok (record t {
        case_articles = rows;
        cases = update_where (λ c. c.id == case_id) (count_link article.published_at) t.cases;
      })

  -- One existing link of the output: its Case.
  unfoldable pub persist_link :
      CaseLinkDecision → CaseTables → Result ResolutionError (ℕ × CaseTables)
  unfolding insert_link
  persist_link link t =
      if not (any (text_eq link.case_id) candidate_ids)
      then err (non_candidate link.case_id)
      else elim (uuid link.case_id) [
        | none ↦ err (invalid_uuid link.case_id)
        | some case_id ↦ do t' ← insert_link case_id link t; ok (case_id, t')
      ]

  unfoldable pub persist_links :
      List CaseLinkDecision → CaseTables → Result ResolutionError (List ℕ × CaseTables)
  unfolding persist_link
  persist_links [] t = ok ([], t)
  persist_links (link ∷ links) t = do
    first ← persist_link link t
    rest ← persist_links links first.1
    ok (first.0 ∷ rest.0, rest.1)

-- A new Case, with the defaults of the table, and its link.
unfoldable pub new_case : ArticleCard → Option Instant → ℕ → Instant → Case
new_case card published_at case_id now = record {
  id = case_id;
  title_uk = card.title_uk;
  summary_uk = none;
  status = "active";
  first_seen_at = published_at;
  event_count = 0;
  last_updated_at = published_at;
  article_count = 1;
  last_refreshed_article_count = 0;
  evidence_revision = 1;
  last_audited_revision = 0;
  last_audited_at = none;
  last_interest_audited_revision = 0;
  last_interest_audited_at = none;
  last_duplicate_audited_revision = 0;
  last_duplicate_audited_at = none;
  merged_into_case_id = none;
  created_at = now;
}

module _ (article : Article) (card : ArticleCard) (run_id : Option ℕ) (now : Instant) where
  unfoldable pub add_case : ℕ → NewCaseDecision → CaseTables → CaseTables
  unfolding new_case
  add_case case_id decision t = record t {
    cases = t.cases ++ new_case card article.published_at case_id now ∷ [];
    case_articles =
        t.case_articles
        ++ article_link article run_id case_id decision.link_reason_uk decision.confidence ∷ [];
  }

  -- The loop over the new Cases: `uuid4` gives the id `new_id n` at its n-th call.
  unfoldable pub add_cases : (ℕ → ℕ) → List NewCaseDecision → CaseTables → List ℕ × CaseTables
  unfolding add_case
  add_cases new_id [] t = ([], t)
  add_cases new_id (decision ∷ decisions) t =
      let (ids, t') = add_cases (λ n. new_id (n + 1)) decisions (add_case (new_id 0) decision t) in
      (new_id 0 ∷ ids, t')

unfoldable pub persist_resolution :
    (Text → Option ℕ)
    → (ℕ → ℕ)
    → Instant
    → Article
    → ArticleCard
    → CaseResolutionOutput
    → Option ℕ
    → List Text
    → CaseTables
    → Result ResolutionError (List ℕ × CaseTables)
unfolding persist_links add_cases
persist_resolution uuid new_id now article card output run_id candidate_ids t = do
  linked ← persist_links uuid article run_id candidate_ids output.existing_case_links t
  let created = add_cases article card run_id now new_id output.new_cases linked.1
  ok (linked.0 ++ created.0, created.1)
