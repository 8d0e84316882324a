-- ===== src/Cases/Reviews/Merging.antt =====
-- What a merge of two Cases does to their articles, and which of the two survives.
use shkandal.Prelude.{
  some, [], ◌∷◌, ◌≡◌, ◌≢◌, refl, arith, ℕ, Option, List, any, ◌==◌, map, keep_if, ◌&&◌, ◌||◌, ◌∙◌,
}
use shkandal.Cases.{CaseArticle, CaseTables}
use shkandal.Cases.Audits.Split.{
  link_article, assign_article_entities, assign_article_events, Placing,
}
use shkandal.Cases.Publication.{rebuild_case_entities, rebuild_case_events, refresh_case_counts}
use shkandal.Cases.Resolution.{is_link}
use shkandal.Cases.Reviews.{merge_order, merge_cases, merge_articles, merged_link_reason}
use shkandal.Planning.Tables.{Case}
use shkandal.Cases.Audits.Placement.{any_link-insert}

module _ (survivor_id k a : ℕ) (run_id : Option ℕ) where
  merge_articles-links :
      (article_ids : List ℕ) (p : Placing)
      → any (is_link k a) (merge_articles survivor_id run_id article_ids p).tables.case_articles ≡ (
          (survivor_id == k && any (λ b. b == a) article_ids)
          || any (is_link k a) p.tables.case_articles)
  unfolding merge_articles link_article assign_article_entities assign_article_events
  merge_articles-links [] p = ground arith
  merge_articles-links (article_id ∷ article_ids) p =
      merge_articles-links article_ids _
      ∙ ground (
        arith,
        any_link-insert k a
            (record {
              case_id = survivor_id;
              article_id = article_id;
              llm_run_id = run_id;
              link_reason_uk = some merged_link_reason;
              confidence = some 1000000;
            })
            p.tables.case_articles,
      )

articles_of_case :
    (absorbed_id a : ℕ) (rows : List CaseArticle)
    → any (λ b. b == a) (map (λ l. l.article_id) (keep_if (λ l. l.case_id == absorbed_id) rows))
      ≡ any (is_link absorbed_id a) rows
articles_of_case absorbed_id a [] = refl
articles_of_case absorbed_id a (l ∷ rows) = ground (arith, articles_of_case absorbed_id a rows)

-- After a merge an article is in a Case exactly when it was before, or the Case is the survivor and
-- the absorbed one had the article: nothing is lost and no third Case changes.
pub merge_cases-links :
    (survivor_id absorbed_id : ℕ) (run_id : Option ℕ) (t : CaseTables) (k a : ℕ)
    → any (is_link k a) (merge_cases survivor_id absorbed_id run_id t).case_articles ≡ (
        (survivor_id == k && any (is_link absorbed_id a) t.case_articles)
        || any (is_link k a) t.case_articles)
unfolding merge_cases rebuild_case_entities rebuild_case_events refresh_case_counts
merge_cases-links survivor_id absorbed_id run_id t k a =
    merge_articles-links survivor_id k a run_id
      (map (λ l. l.article_id) (keep_if (λ l. l.case_id == absorbed_id) t.case_articles))
      (record { tables = t; entity_pairs = []; event_pairs = [] })
    ∙ rw (articles_of_case absorbed_id a t.case_articles) refl

-- Of two Cases with different ids the same one survives, whichever stands first.
pub merge_order-symmetric : (a b : Case) → a.id ≢ b.id → merge_order a b ≡ merge_order b a
unfolding merge_order
merge_order-symmetric a b apart = ground (arith, apart)
