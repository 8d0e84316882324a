-- ===== src/Cases.antt =====
-- apps/worker-ml/src/worker_ml/cases: the tables of the published Cases and what changes them.
pub mod Publication
pub mod Evidence
pub mod Resolution
pub mod Audits
pub mod Reviews
pub mod Refresh
use shkandal.Prelude.{ℕ, Option, List, String}
use shkandal.Planning.Tables.{
  Article, Case, ArticleGateDecision, ArticleCard, CaseCoherenceAudit, CasePublicInterestAudit,
}
use shkandal.Text.{Text}

-- The association of an article with a Case.
pub record CaseArticle : Type 0 where
  pub case_id : ℕ
  pub article_id : ℕ
  pub llm_run_id : Option ℕ
  pub link_reason_uk : Option Text
  pub confidence : Option ℕ

pub record ArticleEntity : Type 0 where
  pub id : ℕ
  pub article_id : ℕ
  pub entity_id : ℕ

pub record ArticleEntityCase : Type 0 where
  pub article_entity_id : ℕ
  pub case_id : ℕ
  pub llm_run_id : Option ℕ
  pub relevance_reason_uk : Option Text

pub record CaseEntity : Type 0 where
  pub case_id : ℕ
  pub entity_id : ℕ
  pub first_article_id : ℕ
  pub mention_count : ℕ

pub data DatePrecision : Type 0 where
  unknown year month day : DatePrecision

pub record Event : Type 0 where
  pub id : ℕ
  pub title_uk : Text
  pub description_uk : Option Text
  pub event_date_precision : DatePrecision
  pub location_uk : Option Text
  pub event_year : Option ℕ
  pub event_month : Option ℕ
  pub event_day : Option ℕ

pub record ArticleEvent : Type 0 where
  pub id : ℕ
  pub article_id : ℕ
  pub event_id : ℕ

pub record ArticleEventCase : Type 0 where
  pub article_event_id : ℕ
  pub case_id : ℕ
  pub llm_run_id : Option ℕ
  pub relevance_reason_uk : Option Text

pub record CaseEvent : Type 0 where
  pub case_id : ℕ
  pub event_id : ℕ
  pub first_article_id : ℕ
  pub event_year : Option ℕ
  pub event_month : Option ℕ
  pub event_day : Option ℕ
  pub supporting_article_count : ℕ

pub record CaseDuplicateAudit : Type 0 where
  pub id : ℕ
  pub case_a_id : ℕ
  pub case_b_id : ℕ
  pub case_a_revision : ℕ
  pub case_b_revision : ℕ
  pub outcome : String
  pub llm_run_id : Option ℕ

pub record CaseTables : Type 0 where
  pub articles : List Article
  pub gate_decisions : List ArticleGateDecision
  pub cards : List ArticleCard
  pub cases : List Case
  pub case_articles : List CaseArticle
  pub article_entities : List ArticleEntity
  pub article_entity_cases : List ArticleEntityCase
  pub case_entities : List CaseEntity
  pub events : List Event
  pub article_events : List ArticleEvent
  pub article_event_cases : List ArticleEventCase
  pub case_events : List CaseEvent
  pub coherence_audits : List CaseCoherenceAudit
  pub public_interest_audits : List CasePublicInterestAudit
  pub duplicate_audits : List CaseDuplicateAudit
