-- ===== src/Samples/CaseAudits.antt =====
-- The theorems about the audits, reviews and refreshes of Cases on two Cases and two articles.
use shkandal.Prelude.{
  none, some, [], ◌∷◌, true, ◌≡◌, ◌≤◌, refl, arith, ℕ, List, any, Option, All, length, ◌+◌, ◌==◌,
  ◌&&◌, ◌||◌, not,
}
use shkandal.Cases.{CaseTables}
use shkandal.Cases.Audits.{AuditCard, batches_of, card_ids}
use shkandal.Cases.Audits.Apply.{AuditWrite, apply_decisive_audit}
use shkandal.Cases.Audits.Batches.{concat, batches_of-concat}
use shkandal.Cases.Audits.Coverage.{IsPartition, run_prepared-IsPartition}
use shkandal.Cases.Audits.Current.{IsSettled, publish_audit-IsSettled}
use shkandal.Cases.Audits.FollowUp.{after_audit}
use shkandal.Cases.Audits.Handle.{
  published, AuditServices, Prepared, run_prepared, audit_write, AuditEnd, publish_audit,
  handle_audit,
}
use shkandal.Cases.Audits.Placed.{apply_decisive_audit-links}
use shkandal.Cases.Audits.Requested.{HasReviews, handle_audit-HasReviews}
use shkandal.Cases.Audits.Stories.{story_targets, target_placements}
use shkandal.Cases.Publication.Views.{in_pairs}
use shkandal.Cases.Refresh.{handle_refresh, RefreshServices}
use shkandal.Cases.Refresh.Settled.{IsRefreshed, handle_refresh-IsRefreshed}
use shkandal.Cases.Resolution.{is_link}
use shkandal.Cases.Resolution.Recheck.{get_active_case}
use shkandal.Cases.Reviews.{merge_cases}
use shkandal.Cases.Reviews.Merging.{merge_cases-links}
use shkandal.Contracts.Audits.{split, CaseCoherenceAuditOutput, CaseAuditStory, original}
use shkandal.Contracts.Copy.{keep, RefreshCaseOutput}
use shkandal.Jobs.{ClaimedJob, Job}
use shkandal.Planning.Tables.{Case}
use shkandal.Results.{ok}
use shkandal.Samples.Cases.{
  tables_with, case_with, digit, value_of, resolution_job, link_of, of_digit,
}
use shkandal.Text.{Text, codes}

abbrev linked : CaseTables
linked =
    tables_with (case_with 1 2 ∷ case_with 2 1 ∷ []) (link_of 1 5 ∷ link_of 1 6 ∷ link_of 2 5 ∷ [])

abbrev story_with : Text → ℕ → CaseAuditStory
story_with ref article_id = record {
  story_ref = ref;
  title_uk = codes "t";
  summary_uk = codes "s";
  article_ids = digit article_id ∷ [];
  reason_uk = codes "r";
}

-- Case 1 is split: article 6 gets a Case of its own.
abbrev split_answer : CaseCoherenceAuditOutput
split_answer = record {
  diagnosis = record {
    shared_specific_core_uk = none;
    shared_only_broad_theme_uk = none;
    merge_blockers_uk = [];
    split_story_cores_uk = codes "a" ∷ codes "b" ∷ [];
    detached_article_signals_uk = [];
    coherence_test_uk = codes "s";
  };
  stories = story_with original 5 ∷ story_with (codes "story_b") 6 ∷ [];
  detached_articles = [];
  reason_uk = codes "r";
  outcome = split;
}

abbrev audit_services : AuditServices
audit_services = record {
  str = digit;
  invoke = λ case request. ok (split_answer, some 3);
  card_batch_size = 20;
  case_locked = true;
  entity_locked = true;
  event_locked = true;
  uuid = of_digit;
  new_id = λ n. 100 + n;
  audit_id = 300;
  now = 50;
  upsert_case = λ case. none;
}

abbrev card_of : ℕ → AuditCard
card_of n = record {
  article_id = digit n;
  title_uk = codes "t";
  summary_uk = codes "s";
  reason_uk = none;
}

abbrev prepared : Prepared
prepared = record { case = case_with 1 2; cards = card_of 5 ∷ card_of 6 ∷ [] }

run_prepared-IsPartition_example : IsPartition split_answer (card_ids prepared.cards)
unfolding run_prepared
run_prepared-IsPartition_example =
    run_prepared-IsPartition audit_services prepared (split_answer, some 3) (λ e. cc) refl

abbrev three_cards : List AuditCard
three_cards = card_of 5 ∷ card_of 6 ∷ card_of 7 ∷ []

batches_of-concat_example :
    (concat (batches_of 2 three_cards) ≡ three_cards)
    × All (λ b. (1 ≤ length b) × (length b ≤ 2)) (batches_of 2 three_cards)
batches_of-concat_example = batches_of-concat 2 (omega arith) three_cards

abbrev write : AuditWrite
write = audit_write audit_services 1 1 (some 3)

abbrev applied : List ℕ × CaseTables
applied = value_of ([], linked) (apply_decisive_audit write split_answer linked)

apply_decisive_audit-links_example : any (is_link 1 6) applied.1.case_articles ≡ (
    in_pairs 1 6
      (target_placements of_digit (story_targets 1 (λ n. 100 + n) 0 split_answer.stories))
    || (not (1 == 1) && any (is_link 1 6) linked.case_articles))
unfolding apply_decisive_audit
apply_decisive_audit-links_example =
    apply_decisive_audit-links write split_answer linked applied.0 applied.1 1 6
      (((λ e. cc), tt), (tt, tt)) refl

abbrev tables_of : AuditEnd → CaseTables
tables_of (published output affected t) = t
tables_of e = linked

abbrev published_tables : CaseTables
published_tables = tables_of (publish_audit audit_services 1 1 (split_answer, some 3) linked)

publish_audit-IsSettled_example :
    ((case : Case) × (get_active_case 1 linked ≡ some case) × (case.evidence_revision ≡ 1))
    × All (IsSettled 1 40) published_tables.cases
unfolding publish_audit
publish_audit-IsSettled_example =
    publish_audit-IsSettled audit_services 1 40 (omega arith) 1 (split_answer, some 3) linked
      split_answer (1 ∷ 100 ∷ []) published_tables (((λ e. omega (arith, e)), tt), (tt, tt)) refl

merge_cases-links_example :
    any (is_link 1 5) (merge_cases 1 2 none linked).case_articles
    ≡ ((1 == 1 && any (is_link 2 5) linked.case_articles) || any (is_link 1 5) linked.case_articles)
merge_cases-links_example = merge_cases-links 1 2 none linked 1 5

-- The model's new text for Case 1.
abbrev new_text : RefreshCaseOutput
new_text = record {
  title_diagnosis = record {
    current_title_specific_enough = true;
    replacement_needed_reason_uk = none;
    proposed_title_core_uk = none;
  };
  replacement_title_uk = none;
  summary_uk = codes "s";
  title_reason_uk = codes "r";
  title_action = keep;
}

abbrev refresh_services : RefreshServices
refresh_services = record {
  got_lock = true;
  card_limit = 40;
  refresh = λ case cards. ok new_text;
  upsert_case = λ case. none;
}

abbrev refresh_job : ClaimedJob
refresh_job = record resolution_job {
  job_type = "refresh_case";
  article_id = none;
  case_id = some 1;
}

abbrev after_refresh : Option RefreshCaseOutput × CaseTables
after_refresh = value_of (none, linked) (handle_refresh refresh_services refresh_job linked)

handle_refresh-IsRefreshed_example : All (IsRefreshed 1 new_text) after_refresh.1.cases
unfolding handle_refresh
handle_refresh-IsRefreshed_example =
    handle_refresh-IsRefreshed refresh_services refresh_job 1 linked new_text after_refresh.1 refl
      refl

abbrev audit_job : ClaimedJob
audit_job = record refresh_job { job_type = "audit_case_coherence" }

handle_audit-HasReviews_example :
    (jobs' : List Job) × (after_audit 100
        (λ job_type case_id. case_id)
        50
        (handle_audit audit_services audit_job linked linked)
        []
      ≡ some jobs')
    × HasReviews jobs' 1
    × All (λ p. HasReviews jobs' p.0) (story_targets 1 (λ n. 100 + n) 0 split_answer.stories)
unfolding handle_audit
handle_audit-HasReviews_example =
    handle_audit-HasReviews audit_services audit_job linked linked 1 split_answer (1 ∷ 100 ∷ [])
      published_tables 100 (λ job_type case_id. case_id) 50 [] refl refl refl
