-- ===== src/Samples/Cases.antt =====
-- The theorems about the resolution of articles on two articles and a Case. An id is written as one digit.
use shkandal.Prelude.{
  none, some, [], ◌∷◌, true, ◌≡◌, ◌↔◌, refl, In, arith, ℕ, List, Option, ◌+◌, ◌-◌, map,
}
use shkandal.Cases.{CaseTables, CaseArticle}
use shkandal.Cases.Evidence.{get_case_candidate_card}
use shkandal.Cases.Publication.{is_case_entity, rebuild_case_entities}
use shkandal.Cases.Publication.Views.{in_pairs, entity_view, rebuild_case_entities-view}
use shkandal.Cases.Resolution.{run_failed, persist_resolution}
use shkandal.Cases.Resolution.Counts.{IsCounted}
use shkandal.Cases.Resolution.Fallback.{recheck_resolution, reject_resolution, rejection_of}
use shkandal.Cases.Resolution.Followups.{HasFollowups, handle-HasFollowups, handle-IsCounted}
use shkandal.Cases.Resolution.Handle.{World, handle, HandlerServices}
use shkandal.Cases.Resolution.Links.{IsConfirmed}
use shkandal.Cases.Resolution.Recheck.{Services, Candidate, load_candidates}
use shkandal.Cases.Resolution.Rechecked.{recheck_resolution-IsConfirmed}
use shkandal.Cases.Resolution.Rejection.{reject_resolution-limit}
use shkandal.Cases.Resolution.Writable.{recheck_resolution-persists}
use shkandal.Contracts.Resolution.{
  resolved, connect, CaseLinkDecision, CaseResolutionOutput, CaseLinkAuditOutput, accept_resolution,
}
use shkandal.Jobs.{ClaimedJob}
use shkandal.Planning.Tables.{Article, ArticleCard, Case}
use shkandal.Results.{Result, ok, err}
use shkandal.Sql.Rows.{count_where, find_row}
use shkandal.Text.{Text, codes}

abbrev pub article_5 : Article
article_5 = record { id = 5; fetch_status = "succeeded"; published_at = some 10; created_at = 11 }

abbrev pub article_6 : Article
article_6 = record { id = 6; fetch_status = "succeeded"; published_at = some 20; created_at = 21 }

abbrev pub card_5 : ArticleCard
card_5 = record { article_id = 5; title_uk = codes "a"; summary_uk = codes "b" }

abbrev pub card_6 : ArticleCard
card_6 = record { article_id = 6; title_uk = codes "c"; summary_uk = codes "d" }

abbrev pub case_with : ℕ → ℕ → Case
case_with id article_count = record {
  id = id;
  title_uk = codes "t";
  summary_uk = none;
  status = "active";
  first_seen_at = some 10;
  event_count = 0;
  last_updated_at = some 10;
  article_count = article_count;
  last_refreshed_article_count = 0;
  evidence_revision = 1;
  last_audited_revision = 0;
  last_audited_at = none;
  last_interest_audited_revision = 0;
  last_interest_audited_at = none;
  last_duplicate_audited_revision = 0;
  last_duplicate_audited_at = none;
  merged_into_case_id = none;
  created_at = 12;
}

abbrev pub link_of : ℕ → ℕ → CaseArticle
link_of case_id article_id = record {
  case_id = case_id;
  article_id = article_id;
  llm_run_id = none;
  link_reason_uk = none;
  confidence = none;
}

-- Case 1 has the links; article 5 is evidence for entity 7.
abbrev pub tables_with : List Case → List CaseArticle → CaseTables
tables_with cases links = record {
  articles = article_5 ∷ article_6 ∷ [];
  gate_decisions = record { article_id = 6; is_case_candidate = true } ∷ [];
  cards = card_5 ∷ card_6 ∷ [];
  cases = cases;
  case_articles = links;
  article_entities = record { id = 8; article_id = 5; entity_id = 7 } ∷ [];
  article_entity_cases =
      record { article_entity_id = 8; case_id = 1; llm_run_id = none; relevance_reason_uk = none }
      ∷ [];
  case_entities = [];
  events = [];
  article_events = [];
  article_event_cases = [];
  case_events = [];
  coherence_audits = [];
  public_interest_audits = [];
  duplicate_audits = [];
}

abbrev pub before : CaseTables
before = tables_with (case_with 1 1 ∷ []) (link_of 1 5 ∷ [])

rebuild_case_entities-view_example :
    find_row (is_case_entity 1 7) (rebuild_case_entities ((1, 7) ∷ []) before).case_entities
    ≡ entity_view before 1 7
unfolding in_pairs
rebuild_case_entities-view_example = rebuild_case_entities-view before ((1, 7) ∷ []) 1 7

abbrev pub digit : ℕ → Text
digit n = (48 + n) ∷ []

abbrev pub of_digit : Text → Option ℕ
of_digit [] = none
of_digit (c ∷ []) = some (c - 48)
of_digit (c ∷ d ∷ t) = none

abbrev pub link_1 : CaseLinkDecision
link_1 = record { case_id = digit 1; link_reason_uk = codes "r"; confidence = 900000 }

abbrev pub answer : CaseResolutionOutput
answer = record {
  diagnosis = record {
    article_story_core_uk = some (codes "s");
    specific_case_core_uk = some (codes "s");
    only_broad_overlap_uk = none;
    merge_blockers_uk = [];
    separate_story_cores_uk = [];
    case_coherence_test_uk = codes "s";
    matching_existing_case_ids = digit 1 ∷ [];
    new_case_core_uk = none;
    rejection_signals_uk = [];
    broad_theme_warning_uk = none;
  };
  existing_case_links = link_1 ∷ [];
  new_cases = [];
  decision_reason_uk = codes "r";
  outcome = resolved;
}

-- The audit of a link says `connect`.
abbrev pub confirmation : CaseLinkAuditOutput
confirmation = record {
  diagnosis = record {
    article_story_core_uk = some (codes "s");
    case_story_core_uk = some (codes "s");
    shared_specific_core_uk = some (codes "s");
    only_broad_overlap_uk = none;
    disconnect_signals_uk = [];
    coherence_test_uk = codes "s";
  };
  reason_uk = codes "r";
  outcome = connect;
}

abbrev pub services : Services
services = record {
  uuid = of_digit;
  link_audit_card_limit = 20;
  audit_link = λ input. ok confirmation;
  resolve_dropped = λ audits output. err (run_failed "not asked");
}

abbrev pub handler : HandlerServices
handler = record {
  got_lock = true;
  str = digit;
  search_cases = λ card. (1, 90) ∷ [];
  representative_title_limit = 8;
  resolve = λ article card candidates. ok (answer, some 3);
  services = services;
  new_id = λ n. 100 + n;
  new_job_id = λ job_type. 200;
  now = 30;
  upsert_case = λ case. none;
}

abbrev pub resolution_job : ClaimedJob
resolution_job = record {
  id = 40;
  job_type = "resolve_article_cases";
  article_id = some 6;
  payload = [];
  attempt_count = 1;
  max_attempts = 3;
  case_id = none;
  requested_revision = 1;
}

abbrev pub world : World
world = record { tables = before; jobs = [] }

-- The value of a result that is there.
abbrev pub value_of {ℓ κ} : {E : Type κ} {A : Type ℓ} → A → Result E A → A
value_of other (ok a) = a
value_of other (err e) = other

abbrev pub handled : Option CaseResolutionOutput × World
handled = value_of (none, world) (handle handler resolution_job world)

handle-HasFollowups_example : HasFollowups 6 handled.1.jobs
unfolding handle get_case_candidate_card
handle-HasFollowups_example =
    handle-HasFollowups handler resolution_job world 6 card_6 handled.0 handled.1 refl refl refl
      refl

handle-IsCounted_example : IsCounted handled.1.tables
unfolding handle count_where
handle-IsCounted_example =
    handle-IsCounted handler resolution_job world 6 handled.0 handled.1 refl
      ((tt, tt), (tt, tt), (refl, tt), (refl, tt))
      ((λ n. ground arith), (λ m n e. omega (arith, e))) refl

abbrev pub candidates : List Candidate
candidates = load_candidates digit 8 ((1, 90) ∷ []) before

abbrev pub rechecked : CaseResolutionOutput × Option ℕ
rechecked =
    value_of (answer, none)
      (recheck_resolution services article_6 card_6 candidates before true answer (some 3))

recheck_resolution-IsConfirmed_example : In link_1 rechecked.0.existing_case_links ↔ (
    In link_1 answer.existing_case_links
    × IsConfirmed services article_6 card_6 candidates before link_1)
unfolding recheck_resolution load_candidates
recheck_resolution-IsConfirmed_example =
    recheck_resolution-IsConfirmed services article_6 card_6 candidates before true answer (some 3)
      rechecked refl link_1

recheck_resolution-persists_example :
    (written : List ℕ × CaseTables) × (persist_resolution of_digit
        (λ n. 100 + n)
        30
        article_6
        card_6
        rechecked.0
        rechecked.1
        (map (λ c. c.case_id) candidates)
        before
      ≡ ok written)
unfolding recheck_resolution load_candidates
recheck_resolution-persists_example =
    recheck_resolution-persists services article_6 card_6 candidates before true answer (some 3)
      rechecked (λ n. 100 + n) 30 refl

reject_resolution-limit_example : reject_resolution answer ≡ ok (rejection_of answer)
unfolding accept_resolution
reject_resolution-limit_example = reject_resolution-limit answer refl
