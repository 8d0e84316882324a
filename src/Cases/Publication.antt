-- ===== src/Cases/Publication.antt =====
-- apps/worker-ml/src/worker_ml/cases/publication.py: the rows that are kept for the readers, rebuilt
-- from the evidence. A set of pairs is a list; its order does not matter.
pub mod Views
use shkandal.Prelude.{
  ℕ, none, some, [], ◌∷◌, Bool, List, Option, if◌then◌else◌, keep_if, ◌==◌, length, max, any, not,
  ◌&&◌, map, ◌+◌, ◌++◌,
}
use shkandal.Cases.{CaseTables, CaseEntity, CaseEvent, Event}
use shkandal.Jobs.{Instant}
use shkandal.Jobs.Summary.{sql_min}
use shkandal.Planning.Queries.{oldest_article}
use shkandal.Planning.Tables.{Case}
use shkandal.Sql.Join.{join}
use shkandal.Sql.Order.{order_by, by_key}
use shkandal.Sql.Rows.{find_row, count_where, update_where}

-- INSERT ... ON CONFLICT DO UPDATE on a unique index: the row that conflicts is written.
unfoldable pub upsert {ℓ} : {Row : Type ℓ} → (Row → Bool) → (Row → Row) → Row → List Row → List Row
upsert conflicts set new rows =
    if any conflicts rows then update_where conflicts set rows else rows ++ new ∷ []

-- DELETE ... WHERE.
abbrev pub delete_where {ℓ} : {Row : Type ℓ} → (Row → Bool) → List Row → List Row
delete_where p rows = keep_if (λ r. not (p r)) rows

abbrev pub is_case_entity : ℕ → ℕ → CaseEntity → Bool
is_case_entity case_id entity_id r = r.case_id == case_id && r.entity_id == entity_id

abbrev pub is_case_event : ℕ → ℕ → CaseEvent → Bool
is_case_event case_id event_id r = r.case_id == case_id && r.event_id == event_id

-- The articles that mention the entity in the Case, the oldest first.
unfoldable pub entity_evidence : CaseTables → ℕ → ℕ → List ℕ
unfolding join order_by
entity_evidence t case_id entity_id =
    map (λ p. p.0.0.article_id)
      (order_by (by_key (λ p. p.1) oldest_article) (
        keep_if (λ p. p.0.1.case_id == case_id && p.0.0.entity_id == entity_id)
          (join (λ p a. a.id == p.0.article_id)
            (join (λ e c. c.article_entity_id == e.id) t.article_entities t.article_entity_cases)
            t.articles)))

-- One pair of rebuild_case_entities.
unfoldable pub rebuild_case_entity : CaseTables → ℕ → ℕ → List CaseEntity → List CaseEntity
unfolding entity_evidence upsert
rebuild_case_entity t case_id entity_id rows = elim (entity_evidence t case_id entity_id) [
  | [] ↦ delete_where (is_case_entity case_id entity_id) rows
  | first ∷ later ↦
      let mentions = length later + 1 in
      upsert (is_case_entity case_id entity_id)
        (λ r. record r { first_article_id = first; mention_count = mentions })
        (record {
          case_id = case_id;
          entity_id = entity_id;
          first_article_id = first;
          mention_count = mentions;
        })
        rows
]

unfoldable pub rebuild_entity_rows : CaseTables → List (ℕ × ℕ) → List CaseEntity → List CaseEntity
unfolding rebuild_case_entity
rebuild_entity_rows t [] rows = rows
rebuild_entity_rows t ((case_id, entity_id) ∷ pairs) rows =
    rebuild_entity_rows t pairs (rebuild_case_entity t case_id entity_id rows)

unfoldable pub rebuild_case_entities : List (ℕ × ℕ) → CaseTables → CaseTables
unfolding rebuild_entity_rows
rebuild_case_entities pairs t = record t {
  case_entities = rebuild_entity_rows t pairs t.case_entities;
}

-- The articles that support the event in the Case, the oldest first.
unfoldable pub event_evidence : CaseTables → ℕ → ℕ → List ℕ
unfolding join order_by
event_evidence t case_id event_id =
    map (λ p. p.0.0.article_id)
      (order_by (by_key (λ p. p.1) oldest_article) (
        keep_if (λ p. p.0.1.case_id == case_id && p.0.0.event_id == event_id)
          (join (λ p a. a.id == p.0.article_id)
            (join (λ e c. c.article_event_id == e.id) t.article_events t.article_event_cases)
            t.articles)))

-- The row that stands for the evidence of an event.
abbrev pub event_row : ℕ → Event → ℕ → ℕ → CaseEvent
event_row case_id event first supporting = record {
  case_id = case_id;
  event_id = event.id;
  first_article_id = first;
  event_year = event.event_year;
  event_month = event.event_month;
  event_day = event.event_day;
  supporting_article_count = supporting;
}

-- One pair of rebuild_case_events.
unfoldable pub rebuild_case_event : CaseTables → ℕ → ℕ → List CaseEvent → List CaseEvent
unfolding event_evidence upsert find_row
rebuild_case_event t case_id event_id rows = elim (event_evidence t case_id event_id) [
  | [] ↦ delete_where (is_case_event case_id event_id) rows
  | first ∷ later ↦ elim (find_row (λ e. e.id == event_id) t.events) [
    | none ↦ rows
    | some event ↦
        let supporting = length later + 1 in
        upsert (is_case_event case_id event_id)
          (λ r. record r {
            first_article_id = first;
            event_year = event.event_year;
            event_month = event.event_month;
            event_day = event.event_day;
            supporting_article_count = supporting;
          })
          (record (event_row case_id event first supporting) { event_id = event_id }) rows
  ]
]

unfoldable pub rebuild_event_rows : CaseTables → List (ℕ × ℕ) → List CaseEvent → List CaseEvent
unfolding rebuild_case_event
rebuild_event_rows t [] rows = rows
rebuild_event_rows t ((case_id, event_id) ∷ pairs) rows =
    rebuild_event_rows t pairs (rebuild_case_event t case_id event_id rows)

-- The loop that counts the events of each Case of the pairs.
unfoldable pub count_events : List CaseEvent → List (ℕ × ℕ) → List Case → List Case
unfolding update_where count_where
count_events rows [] cases = cases
count_events rows ((case_id, event_id) ∷ pairs) cases = count_events rows pairs (
    update_where (λ c. c.id == case_id)
      (λ c. record c { event_count = count_where (λ r. r.case_id == case_id) rows }) cases)

unfoldable pub rebuild_case_events : List (ℕ × ℕ) → CaseTables → CaseTables
unfolding rebuild_event_rows count_events
rebuild_case_events pairs t =
    let rows = rebuild_event_rows t pairs t.case_events in
    record t { case_events = rows; cases = count_events rows pairs t.cases }

-- SQL's max over a column that may be NULL.
abbrev pub sql_max : Option ℕ → Option ℕ → Option ℕ
sql_max none b = b
sql_max (some a) none = some a
sql_max (some a) (some b) = some (max a b)

unfoldable pub earliest : List (Option Instant) → Option Instant
earliest [] = none
earliest (t ∷ ts) = sql_min t (earliest ts)

unfoldable pub latest : List (Option Instant) → Option Instant
latest [] = none
latest (t ∷ ts) = sql_max t (latest ts)

-- The publication times of the articles of the Case.
unfoldable pub article_times : CaseTables → ℕ → List (Option Instant)
unfolding join
article_times t case_id =
    map (λ p. p.1.published_at)
      (keep_if (λ p. p.0.case_id == case_id)
        (join (λ l a. a.id == l.article_id) t.case_articles t.articles))

unfoldable pub with_counts : CaseTables → Case → Case
unfolding article_times earliest latest count_where
with_counts t c =
    let times = article_times t c.id in
    record c {
      article_count = length times;
      first_seen_at = earliest times;
      last_updated_at = latest times;
      event_count = count_where (λ r. r.case_id == c.id) t.case_events;
    }

-- refresh_case_counts for the Case with this id.
unfoldable pub refresh_case_counts : ℕ → CaseTables → CaseTables
unfolding with_counts
refresh_case_counts case_id t = record t {
  cases = update_where (λ c. c.id == case_id) (with_counts t) t.cases;
}
