-- ===== src/Planning/Tables.antt =====
-- The tables of packages/database/src/shkandal_database/models.py that the planner and the
-- handlers of Cases read, with the columns that they use.
use shkandal.Prelude.{ℕ, String, Bool, Option, List}
use shkandal.Jobs.{Instant, Job}
use shkandal.Text.{Text}

pub record Article : Type 0 where
  pub id : ℕ
  pub fetch_status : String
  pub published_at : Option Instant
  pub created_at : Instant

pub record ArticleRelevance : Type 0 where
  pub article_id : ℕ
  pub is_relevant : Bool

pub record ArticleGateDecision : Type 0 where
  pub article_id : ℕ
  pub is_case_candidate : Bool

pub record ArticleCard : Type 0 where
  pub article_id : ℕ
  pub title_uk : Text
  pub summary_uk : Text

pub record Case : Type 0 where
  pub id : ℕ
  pub title_uk : Text
  pub summary_uk : Option Text
  pub status : String
  pub first_seen_at : Option Instant
  pub event_count : ℕ
  pub last_updated_at : Option Instant
  pub article_count : ℕ
  pub last_refreshed_article_count : ℕ
  pub evidence_revision : ℕ
  pub last_audited_revision : ℕ
  pub last_audited_at : Option Instant
  pub last_interest_audited_revision : ℕ
  pub last_interest_audited_at : Option Instant
  pub last_duplicate_audited_revision : ℕ
  pub last_duplicate_audited_at : Option Instant
  pub merged_into_case_id : Option ℕ
  pub created_at : Instant

pub record CaseCoherenceAudit : Type 0 where
  pub id : ℕ
  pub case_id : ℕ
  pub evidence_revision : ℕ
  pub outcome : String
  pub llm_run_id : Option ℕ
  pub created_at : Instant

pub record CasePublicInterestAudit : Type 0 where
  pub id : ℕ
  pub case_id : ℕ
  pub evidence_revision : ℕ
  pub outcome : String
  pub llm_run_id : Option ℕ
  pub created_at : Instant

pub record Tables : Type 0 where
  pub articles : List Article
  pub relevance : List ArticleRelevance
  pub gate_decisions : List ArticleGateDecision
  pub cards : List ArticleCard
  pub cases : List Case
  pub coherence_audits : List CaseCoherenceAudit
  pub public_interest_audits : List CasePublicInterestAudit
  pub jobs : List Job
