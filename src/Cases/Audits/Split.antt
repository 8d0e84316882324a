-- ===== src/Cases/Audits/Split.antt =====
-- audits.py: _apply_decisive_audit, which writes a coherent audit or a split of a Case, with
-- _assign_article_entities and _assign_article_events. `UUID`, the new ids and the clock are arguments.
use shkandal.Prelude.{
  none, some, [], ◌∷◌, ◌++◌, List, ℕ, Option, keep_if, ◌==◌, map, ◌&&◌, if◌then◌else◌, not, ◌+◌,
  any,
}
use shkandal.Cases.{CaseTables, ArticleEntity, ArticleEvent, ArticleEntityCase, ArticleEventCase}
use shkandal.Cases.Audits.{
  AuditError, dict_get, invalid_article_id, unknown_story, article_disappeared,
}
use shkandal.Cases.Publication.{refresh_case_counts, delete_where}
use shkandal.Cases.Resolution.{is_link}
use shkandal.Contracts.Audits.{CaseAuditStory, original}
use shkandal.Jobs.{Instant}
use shkandal.Planning.Tables.{Case}
use shkandal.Results.{Result, ok, err, ◌>>=◌}
use shkandal.Sql.Writes.{insert_or_ignore}
use shkandal.Text.{Text, text_eq}

-- The tables with the pairs that are to be rebuilt.
pub record Placing : Type 0 where
  pub tables : CaseTables
  pub entity_pairs : List (ℕ × ℕ)
  pub event_pairs : List (ℕ × ℕ)

module _ (case_id : ℕ) (run_id : Option ℕ) (reason : Text) where
  abbrev pub entity_case : ArticleEntity → ArticleEntityCase
  entity_case e = record {
    article_entity_id = e.id;
    case_id = case_id;
    llm_run_id = run_id;
    relevance_reason_uk = some reason;
  }

  abbrev pub event_case : ArticleEvent → ArticleEventCase
  event_case e = record {
    article_event_id = e.id;
    case_id = case_id;
    llm_run_id = run_id;
    relevance_reason_uk = some reason;
  }

  unfoldable pub insert_entity_cases :
      List ArticleEntity → List ArticleEntityCase → List ArticleEntityCase
  unfolding insert_or_ignore
  insert_entity_cases [] rows = rows
  insert_entity_cases (e ∷ found) rows =
      insert_entity_cases found
        (insert_or_ignore (λ r. r.article_entity_id == e.id && r.case_id == case_id) (entity_case e)
          rows).1

  unfoldable pub insert_event_cases :
      List ArticleEvent → List ArticleEventCase → List ArticleEventCase
  unfolding insert_or_ignore
  insert_event_cases [] rows = rows
  insert_event_cases (e ∷ found) rows =
      insert_event_cases found
        (insert_or_ignore (λ r. r.article_event_id == e.id && r.case_id == case_id) (event_case e)
          rows).1

  unfoldable pub assign_article_entities : ℕ → Placing → Placing
  unfolding insert_entity_cases
  assign_article_entities article_id p =
      let found = keep_if (λ e. e.article_id == article_id) p.tables.article_entities in
      record p {
        tables = record p.tables {
          article_entity_cases = insert_entity_cases found p.tables.article_entity_cases;
        };
        entity_pairs = p.entity_pairs ++ map (λ e. (case_id, e.entity_id)) found;
      }

  unfoldable pub assign_article_events : ℕ → Placing → Placing
  unfolding insert_event_cases
  assign_article_events article_id p =
      let found = keep_if (λ e. e.article_id == article_id) p.tables.article_events in
      record p {
        tables = record p.tables {
          article_event_cases = insert_event_cases found p.tables.article_event_cases;
        };
        event_pairs = p.event_pairs ++ map (λ e. (case_id, e.event_id)) found;
      }

  -- The link of one article, with its entities and events. Its confidence is 1, in millionths.
  unfoldable pub link_article : ℕ → Placing → Placing
  unfolding insert_or_ignore
  link_article article_id p = record p {
    tables = record p.tables {
      case_articles =
          (insert_or_ignore (is_link case_id article_id)
            (record {
              case_id = case_id;
              article_id = article_id;
              llm_run_id = run_id;
              link_reason_uk = some reason;
              confidence = some 1000000;
            })
            p.tables.case_articles).1;
    };
  }

module _ (uuid : Text → Option ℕ) (old_article_ids : List ℕ) (run_id : Option ℕ) where
  -- The loop over the articles of a story.
  unfoldable pub place_articles : ℕ → Text → List Text → Placing → Result AuditError Placing
  unfolding link_article assign_article_entities assign_article_events
  place_articles target reason [] p = ok p
  place_articles target reason (text ∷ texts) p = elim (uuid text) [
    | none ↦ err (invalid_article_id text)
    | some article_id ↦
        if not (any (λ a. a == article_id) old_article_ids)
        then err article_disappeared
        else place_articles target reason texts (
            assign_article_events target run_id reason article_id (
              assign_article_entities target run_id reason article_id
                (link_article target run_id reason article_id p)))
  ]

  unfoldable pub place_stories :
      List (Text × ℕ) → List CaseAuditStory → Placing → Result AuditError Placing
  unfolding place_articles dict_get
  place_stories story_cases [] p = ok p
  place_stories story_cases (s ∷ stories) p = elim (dict_get story_cases s.story_ref) [
    | none ↦ err (unknown_story s.story_ref)
    | some target ↦ do
      p' ← place_articles target s.reason_uk s.article_ids p
      place_stories story_cases stories p'
  ]

-- A Case that a split opens, with the defaults of the table.
unfoldable pub split_case : CaseAuditStory → ℕ → Instant → Case
split_case s new_id now = record {
  id = new_id;
  title_uk = s.title_uk;
  summary_uk = some s.summary_uk;
  status = "active";
  first_seen_at = none;
  event_count = 0;
  last_updated_at = none;
  article_count = 0;
  last_refreshed_article_count = 0;
  evidence_revision = 1;
  last_audited_revision = 1;
  last_audited_at = some now;
  last_interest_audited_revision = 0;
  last_interest_audited_at = none;
  last_duplicate_audited_revision = 0;
  last_duplicate_audited_at = none;
  merged_into_case_id = none;
  created_at = now;
}

-- The Cases of the stories other than the original one; `uuid4` gives `new_id n` at its n-th call.
unfoldable pub open_cases : (ℕ → ℕ) → ℕ → Instant → List CaseAuditStory → List (Text × Case)
unfolding split_case
open_cases new_id n now [] = []
open_cases new_id n now (s ∷ stories) =
    let is_original = text_eq s.story_ref original in
    let rest = open_cases new_id (if is_original then n else n + 1) now stories in
    if is_original then rest else (s.story_ref, split_case s (new_id n) now) ∷ rest

-- The rows of the Case go, before the stories are placed.
unfoldable pub clear_case : ℕ → CaseTables → CaseTables
clear_case case_id t = record t {
  case_articles = delete_where (λ r. r.case_id == case_id) t.case_articles;
  article_entity_cases = delete_where (λ r. r.case_id == case_id) t.article_entity_cases;
  article_event_cases = delete_where (λ r. r.case_id == case_id) t.article_event_cases;
  case_entities = delete_where (λ r. r.case_id == case_id) t.case_entities;
  case_events = delete_where (λ r. r.case_id == case_id) t.case_events;
}

unfoldable pub refresh_counts : List ℕ → CaseTables → CaseTables
unfolding refresh_case_counts
refresh_counts [] t = t
refresh_counts (case_id ∷ case_ids) t = refresh_counts case_ids (refresh_case_counts case_id t)
