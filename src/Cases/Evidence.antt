-- ===== src/Cases/Evidence.antt =====
-- The evidence that the audits and the resolution of Cases read: case_article cards of
-- apps/worker-ml/src/worker_ml/cases/audits.py and the titles of cases/resolution.py.
use shkandal.Cases.{CaseTables}
use shkandal.Prelude.{ℕ, Option, List, map, take, ◌==◌, ◌&&◌, keep_if, any}
use shkandal.Sql.Rows.{find_row}
use shkandal.Sql.Join.{join}
use shkandal.Sql.Order.{order_by, by_key}
use shkandal.Planning.Tables.{Article, ArticleCard}
use shkandal.Text.{Text}
use shkandal.Jobs.{Instant}
use shkandal.Planning.Queries.{oldest_article}

-- An entry of the compact card list; the id is the article's.
pub record EvidenceCard : Type 0 where
  pub article_id : ℕ
  pub published_at : Option Instant
  pub title_uk : Text
  pub summary_uk : Text

-- The articles of a Case with their cards, the oldest first.
unfoldable pub case_article_rows : ℕ → CaseTables → List (Article × ArticleCard)
unfolding join order_by
case_article_rows case_id t =
    map (λ p. p.0)
      (order_by (by_key (λ p. p.0.0) oldest_article) (
        keep_if (λ p. p.1.case_id == case_id)
          (join (λ p l. l.article_id == p.0.id)
            (join (λ a c. c.article_id == a.id) t.articles t.cards) t.case_articles)))

unfoldable pub load_case_article_cards : ℕ → CaseTables → List EvidenceCard
unfolding case_article_rows
load_case_article_cards case_id t =
    map
      (λ p. record {
        article_id = p.0.id;
        published_at = p.0.published_at;
        title_uk = p.1.title_uk;
        summary_uk = p.1.summary_uk;
      })
      (case_article_rows case_id t)

-- The titles that stand for a Case, up to the limit, from the first article on.
unfoldable pub representative_article_titles : ℕ → CaseTables → ℕ → List Text
unfolding case_article_rows
representative_article_titles limit t case_id =
    map (λ p. p.1.title_uk) (take limit (case_article_rows case_id t))

-- get_case_candidate_card: the card of an article that the gate let in.
unfoldable pub get_case_candidate_card : ℕ → CaseTables → Option ArticleCard
unfolding find_row
get_case_candidate_card article_id t =
    find_row
      (λ c.
        c.article_id == article_id
        && any (λ g. g.article_id == c.article_id && g.is_case_candidate) t.gate_decisions)
      t.cards
