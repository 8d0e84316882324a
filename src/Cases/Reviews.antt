-- ===== src/Cases/Reviews.antt =====
-- apps/worker-ml/src/worker_ml/cases/reviews.py: the public-interest audit, which hides a Case, and the
-- duplicate audit, which merges one into another. Ids and the clock are arguments; ids of Cases are
-- compared as their texts are, since these have one length.
pub mod Merging
pub mod Pairs
pub mod Sessions
use Prim.Native.Nat.{Ordering}
use text.Mathlib.Text.{◌==◌ as str_eq}
use shkandal.Prelude.{
  none, some, [], ◌∷◌, ◌++◌, true, false, String, ℕ, List, Bool, if◌then◌else◌, length, map, any,
  keep_if, not, Option, ◌==◌, ◌&&◌, ◌+◌, leb, min, ◌*◌,
}
use shkandal.Cases.{CaseTables}
use shkandal.Cases.Audits.Split.{
  link_article, assign_article_entities, assign_article_events, Placing,
}
use shkandal.Cases.Publication.{rebuild_case_entities, rebuild_case_events, refresh_case_counts}
use shkandal.Cases.Resolution.{is_link}
use shkandal.Cases.Resolution.Recheck.{get_active_case}
use shkandal.Contracts.Audits.{
  keep, hide, undecided, merge, distinct, unclear, InterestOutcome, DuplicateOutcome,
}
use shkandal.Jobs.{Instant, Job}
use shkandal.Jobs.Enqueue.{enqueue_case_job}
use shkandal.Planning.{refresh_case_job}
use shkandal.Planning.Passes.{case_payload}
use shkandal.Planning.Tables.{Case}
use shkandal.Results.{Result, ok, err}
use shkandal.Sql.Order.{order_by, Comparison, by_key, desc, ◌then_by◌, asc}
use shkandal.Sql.Rows.{update_where, find_row}
use shkandal.Text.{Text, codes}

abbrev pub interest_name : InterestOutcome → String
interest_name keep = "keep"
interest_name hide = "hide"
interest_name undecided = "inconclusive"

abbrev pub is_hide : InterestOutcome → Bool
is_hide keep = false
is_hide hide = true
is_hide undecided = false

abbrev pub duplicate_name : DuplicateOutcome → String
duplicate_name merge = "merge"
duplicate_name distinct = "distinct"
duplicate_name unclear = "inconclusive"

abbrev pub is_merge : DuplicateOutcome → Bool
is_merge merge = true
is_merge distinct = false
is_merge unclear = false

-- How the second session of a review ends: without the lock, without an active Case, or with the
-- outcome that is recorded.
pub data ReviewEnd : Type 0 where
  lock_busy : ReviewEnd
  not_active : ReviewEnd
  reviewed : String → CaseTables → ReviewEnd

abbrev pub set_case : ℕ → (Case → Case) → CaseTables → CaseTables
set_case case_id f t = record t { cases = update_where (λ c. c.id == case_id) f t.cases }

-- The second session of CasePublicInterestAuditJobHandler.handle, for the revision that was audited.
unfoldable pub publish_interest :
    Bool → ℕ → Instant → ℕ → ℕ → InterestOutcome → Option ℕ → CaseTables → ReviewEnd
unfolding get_active_case update_where
publish_interest locked audit_id now case_id revision output run_id t =
    if not locked then lock_busy else elim (get_active_case case_id t) [
      | none ↦ not_active
      | some case ↦
          let current = case.evidence_revision == revision in
          let outcome = if current then interest_name output else "superseded" in
          let hides = current && is_hide output in
          let t' =
            set_case case_id
              (λ c. record c {
                status = if hides then "hidden" else c.status;
                last_interest_audited_revision = revision;
                last_interest_audited_at = some now;
              })
              t in
          reviewed outcome (record t' {
            public_interest_audits =
                t'.public_interest_audits
                ++ record {
                  id = audit_id;
                  case_id = case_id;
                  evidence_revision = revision;
                  outcome = outcome;
                  llm_run_id = run_id;
                  created_at = now;
                }
                  ∷ [];
          })
    ]

-- The number of articles that two Cases share.
unfoldable pub distinct_ids : List ℕ → List ℕ
distinct_ids [] = []
distinct_ids (a ∷ ids) =
    let rest = distinct_ids ids in if any (λ b. b == a) rest then rest else a ∷ rest

unfoldable pub shared_count : CaseTables → ℕ → ℕ → ℕ
unfolding distinct_ids
shared_count t current_id other_id = length (
    distinct_ids (
      map (λ l. l.article_id)
        (keep_if
          (λ l. l.case_id == other_id && any (is_link current_id l.article_id) t.case_articles)
          t.case_articles)))

-- _duplicate_candidate_ids: three tenths of the smaller Case's articles.
unfoldable pub is_duplicate_candidate : CaseTables → Case → Case → Bool
unfolding shared_count
is_duplicate_candidate t current c =
    let shared = shared_count t current.id c.id in
    not (c.id == current.id)
    && str_eq c.status "active"
    && leb 1 shared
    && leb (min current.article_count c.article_count * 3) (shared * 10)

unfoldable pub duplicate_candidate_ids : CaseTables → Case → List ℕ
unfolding is_duplicate_candidate order_by
duplicate_candidate_ids t current =
    map (λ c. c.id)
      (order_by
        (by_key (λ c. shared_count t current.id c.id) desc
          then_by (by_key (λ c. c.created_at) asc then_by by_key (λ c. c.id) asc))
        (keep_if (is_duplicate_candidate t current) t.cases))

-- _merge_order: the survivor, then the Case that it absorbs.
abbrev pub survivor_order : Comparison Case
survivor_order =
    by_key (λ c. c.article_count) desc
    then_by (by_key (λ c. c.created_at) asc then_by by_key (λ c. c.id) asc)

unfoldable pub merge_order : Case → Case → Case × Case
merge_order a b = elim (survivor_order a b) [ Ordering.gt ↦ (b, a) | _ ↦ (a, b) ]

abbrev pub merged_link_reason : Text
merged_link_reason = codes "Справи автоматично об'єднано як дублікати."

abbrev pub merged_reason : Text
merged_reason = codes "Справи об'єднано."

-- The loop of _merge_cases over the articles of the absorbed Case.
unfoldable pub merge_articles : ℕ → Option ℕ → List ℕ → Placing → Placing
unfolding link_article assign_article_entities assign_article_events
merge_articles survivor_id run_id [] p = p
merge_articles survivor_id run_id (article_id ∷ article_ids) p =
    merge_articles survivor_id run_id article_ids (
      assign_article_events survivor_id run_id merged_reason article_id (
        assign_article_entities survivor_id run_id merged_reason article_id
          (link_article survivor_id run_id merged_link_reason article_id p)))

unfoldable pub merge_cases : ℕ → ℕ → Option ℕ → CaseTables → CaseTables
unfolding merge_articles rebuild_case_entities rebuild_case_events refresh_case_counts update_where
merge_cases survivor_id absorbed_id run_id t =
    let article_ids =
      map (λ l. l.article_id) (keep_if (λ l. l.case_id == absorbed_id) t.case_articles) in
    let p =
      merge_articles survivor_id run_id article_ids
        (record { tables = t; entity_pairs = []; event_pairs = [] }) in
    let rebuilt =
      rebuild_case_events p.event_pairs (rebuild_case_entities p.entity_pairs p.tables) in
    let counted = refresh_case_counts survivor_id rebuilt in
    set_case absorbed_id
      (λ c. record c { status = "merged"; merged_into_case_id = some survivor_id })
      (set_case survivor_id (λ c. record c { evidence_revision = c.evidence_revision + 1 }) counted)
