-- ===== src/Cases/Reviews/Sessions.antt =====
-- reviews.py around the writes: what the first session of a review reads, and the jobs and the mark
-- that come after its commit.
use text.Mathlib.Text.{◌==◌ as str_eq}
use shkandal.Prelude.{
  none, some, false, Option, ℕ, String, List, Bool, not, is_empty, if◌then◌else◌, ◌&&◌,
}
use shkandal.Cases.{CaseTables}
use shkandal.Jobs.Enqueue.{enqueue_case_job}
use shkandal.Cases.Resolution.Recheck.{get_active_case}
use shkandal.Budgeting.{lifecycle_sample}
use shkandal.Cases.Reviews.{duplicate_candidate_ids, set_case}
use shkandal.Jobs.{EnqueueJobResult, Instant, Job}
use shkandal.Cases.Evidence.{load_case_article_cards, EvidenceCard}
use shkandal.Sql.Rows.{update_where}
use shkandal.Planning.Tables.{Case}
use shkandal.Planning.{audit_case_duplicates_job}
use shkandal.Planning.Passes.{case_payload}

-- _review_cards: a sample of the Case's cards.
unfoldable pub review_cards : ℕ → ℕ → CaseTables → Option (List EvidenceCard)
unfolding lifecycle_sample load_case_article_cards
review_cards card_limit case_id t = lifecycle_sample (load_case_article_cards case_id t) card_limit

-- What the first session of the public-interest audit reads of an active Case: the revision and the
-- sample. A sample fails for a limit of 0.
unfoldable pub prepare_interest : ℕ → ℕ → CaseTables → Option (Case × Option (List EvidenceCard))
unfolding get_active_case review_cards
prepare_interest card_limit case_id t = elim (get_active_case case_id t) [
  | none ↦ none
  | some case ↦ some (case, review_cards card_limit case_id t)
]

-- _has_duplicate_candidate.
unfoldable pub has_duplicate_candidate : ℕ → CaseTables → Bool
unfolding get_active_case duplicate_candidate_ids
has_duplicate_candidate case_id t = elim (get_active_case case_id t) [
  | none ↦ false
  | some case ↦ not (is_empty (duplicate_candidate_ids t case))
]

abbrev pub map_second : Option (EnqueueJobResult × List Job) → Option (List Job)
map_second none = none
map_second (some (result, jobs)) = some jobs

-- After the commit of a public-interest audit: a kept Case with a candidate gets a duplicate audit.
unfoldable pub after_interest : String → ℕ → ℕ → Instant → CaseTables → List Job → Option (List Job)
unfolding has_duplicate_candidate enqueue_case_job
after_interest outcome case_id new_job_id now t jobs =
    if str_eq outcome "keep" && has_duplicate_candidate case_id t
    then map_second (
        enqueue_case_job audit_case_duplicates_job case_id (case_payload case_id) 0 none 3
          new_job_id now jobs)
    else some jobs

-- The last session of the duplicate audit of a Case.
unfoldable pub finish_duplicates : ℕ → Instant → CaseTables → CaseTables
unfolding get_active_case update_where
finish_duplicates case_id now t = elim (get_active_case case_id t) [
  | none ↦ t
  | some case ↦
      set_case case_id
        (λ c. record c {
          last_duplicate_audited_revision = case.evidence_revision;
          last_duplicate_audited_at = some now;
        })
        t
]
