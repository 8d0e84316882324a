-- ===== src/Planning/Queries.antt =====
-- The queries of MlJobPlanner. A query is its joined rows, the condition, the order and the limit.
use text.Mathlib.Text.{◌==◌ as str_eq}
use shkandal.Prelude.{
  ℕ, none, some, true, zero, suc, if◌then◌else◌, Option, List, leb, Bool, map, is_none, ◌&&◌, ◌+◌,
  all, ltb, ◌==◌, keep_if, ◌*◌, ◌||◌, holds_of,
}
use shkandal.Jobs.{Instant, Job, is_succeeded}
use shkandal.Planning.{audit_case_coherence_job}
use shkandal.Planning.Tables.{
  Case, Article, Tables, ArticleGateDecision, ArticleRelevance, ArticleCard, CaseCoherenceAudit,
  CasePublicInterestAudit,
}
use shkandal.Sql.Join.{join, outer_join, limit_rows}
use shkandal.Sql.Order.{
  Comparison, order_by, by_key, first_row, nulls_last, nulls_first, asc, ◌then_by◌, desc,
}

-- SELECT id FROM rows WHERE condition ORDER BY order LIMIT limit.
unfoldable pub select_ids {ℓ} :
    {Row : Type ℓ} → (Row → ℕ) → (Row → Bool) → Comparison Row → Option ℕ → List Row → List ℕ
unfolding order_by limit_rows
select_ids id condition order limit rows =
    map id (limit_rows limit (order_by order (keep_if condition rows)))

-- Articles by their publication, those without one last, and then by their creation.
abbrev pub oldest_article : Comparison Article
oldest_article =
    by_key (λ a. a.published_at) (nulls_last asc) then_by by_key (λ a. a.created_at) asc

unfoldable pub missing_relevance : Article × Option ArticleRelevance → Bool
missing_relevance (a, r) = is_none r && str_eq a.fetch_status "succeeded"

unfoldable pub articles_missing_relevance_query : ℕ → Tables → List ℕ
unfolding select_ids outer_join missing_relevance
articles_missing_relevance_query limit t =
    select_ids (λ p. p.0.id) missing_relevance (by_key (λ p. p.0) oldest_article) (some limit)
      (outer_join (λ a r. r.article_id == a.id) t.articles t.relevance)

unfoldable pub missing_card : (Article × ArticleGateDecision) × Option ArticleCard → Bool
missing_card ((a, g), c) = g.is_case_candidate && is_none c

unfoldable pub articles_missing_card_query : ℕ → Tables → List ℕ
unfolding select_ids join outer_join missing_card
articles_missing_card_query limit t =
    select_ids (λ p. p.0.0.id) missing_card (by_key (λ p. p.0.0) oldest_article) (some limit)
      (outer_join (λ p c. c.article_id == p.0.id)
        (join (λ a g. g.article_id == a.id) t.articles t.gate_decisions) t.cards)

unfoldable pub missing_gate : (Article × ArticleRelevance) × Option ArticleGateDecision → Bool
missing_gate ((a, r), g) = r.is_relevant && is_none g

unfoldable pub articles_missing_gate_query : ℕ → Tables → List ℕ
unfolding select_ids join outer_join missing_gate
articles_missing_gate_query limit t =
    select_ids (λ p. p.0.0.id) missing_gate (by_key (λ p. p.0.0) oldest_article) (some limit)
      (outer_join (λ p g. g.article_id == p.0.id)
        (join (λ a r. r.article_id == a.id) t.articles t.relevance) t.gate_decisions)

-- floor(sqrt(n)).
unfoldable pub floor_sqrt : ℕ → ℕ
floor_sqrt zero = 0
floor_sqrt (suc n) = let r = floor_sqrt n in if leb ((r + 1) * (r + 1)) (suc n) then r + 1 else r

-- No summary, or one of spaces only: length(trim(summary)) = 0.
unfoldable pub missing_public_summary : Case → Bool
missing_public_summary c = elim c.summary_uk [ none ↦ true | some s ↦ all (λ u. u == 32) s ]

unfoldable pub due_square_threshold : Case → Bool
unfolding floor_sqrt
due_square_threshold c =
    ltb c.last_refreshed_article_count c.article_count
    && ltb 0 c.article_count
    && ltb (floor_sqrt c.last_refreshed_article_count) (floor_sqrt c.article_count)

abbrev pub is_active : Case → Bool
is_active c = str_eq c.status "active"

unfoldable pub due_for_refresh : Case → Bool
unfolding missing_public_summary due_square_threshold
due_for_refresh c = is_active c && (missing_public_summary c || due_square_threshold c)

unfoldable pub cases_due_for_refresh_query : ℕ → Tables → List ℕ
unfolding select_ids due_for_refresh
cases_due_for_refresh_query limit t =
    select_ids (λ c. c.id) due_for_refresh
      (by_key (λ c. c.last_updated_at) (nulls_first asc) then_by by_key (λ c. c.created_at) asc)
      (some limit) t.cases

-- A changed Case, or one whose audit is missing or as old as the cutoff.
unfoldable pub due_for_audit : Instant → Case → Bool
due_for_audit cutoff c =
    is_active c
    && (ltb c.last_audited_revision c.evidence_revision
        || is_none c.last_audited_at
        || holds_of (λ at. leb at cutoff) c.last_audited_at)

unfoldable pub cases_due_for_audit_query : Instant → ℕ → Tables → List ℕ
unfolding select_ids due_for_audit
cases_due_for_audit_query cutoff limit t =
    select_ids (λ c. c.id) (due_for_audit cutoff)
      (by_key (λ c. c.last_audited_at) (nulls_first asc) then_by by_key (λ c. c.created_at) asc)
      (some limit) t.cases

-- The latest audit of the Case.
unfoldable pub latest_coherence_audit : Tables → Case → Option CaseCoherenceAudit
unfolding order_by first_row
latest_coherence_audit t c = first_row (
    order_by (by_key (λ a. a.created_at) desc then_by by_key (λ a. a.id) desc)
      (keep_if (λ a. a.case_id == c.id) t.coherence_audits))

unfoldable pub rerun_coherent : (Case × Job) × CaseCoherenceAudit → Bool
rerun_coherent ((c, j), a) = is_active c && is_succeeded j.status && str_eq a.outcome "coherent"

unfoldable pub coherent_successful_case_audit_rerun_query : Option ℕ → Tables → List ℕ
unfolding select_ids join latest_coherence_audit rerun_coherent
coherent_successful_case_audit_rerun_query limit t =
    select_ids (λ p. p.0.0.id) rerun_coherent
      (by_key (λ p. p.1.created_at) asc then_by by_key (λ p. p.0.0.created_at) asc) limit
      (join (λ p a. holds_of (λ l. a.id == l.id) (latest_coherence_audit t (p.0)))
        (join
          (λ c j. holds_of (λ i. i == c.id) j.case_id && str_eq j.job_type audit_case_coherence_job)
          t.cases t.jobs)
        t.coherence_audits)

unfoldable pub latest_public_interest_audit : Tables → Case → Option CasePublicInterestAudit
unfolding order_by first_row
latest_public_interest_audit t c = first_row (
    order_by (by_key (λ a. a.created_at) desc then_by by_key (λ a. a.id) desc)
      (keep_if (λ a. a.case_id == c.id) t.public_interest_audits))

unfoldable pub active_case_public_interest_rerun_query : Option ℕ → Tables → List ℕ
unfolding select_ids outer_join latest_public_interest_audit
active_case_public_interest_rerun_query limit t =
    select_ids (λ p. p.0.id) (λ p. is_active (p.0))
      (by_key (λ p. elim p.1 [ none ↦ none | some a ↦ some a.created_at ]) (nulls_first asc)
        then_by by_key (λ p. p.0.last_interest_audited_at) (nulls_first asc)
        then_by by_key (λ p. p.0.created_at) asc)
      limit
      (outer_join (λ c a. holds_of (λ l. a.id == l.id) (latest_public_interest_audit t c)) t.cases
        t.public_interest_audits)
