-- ===== src/Cases/Audits.antt =====
-- apps/worker-ml/src/worker_ml/cases/audits.py: how an audit is asked for and checked. The run of the
-- model is an argument; a set of ids is a list, and the order of the ids in a message is not kept.
pub mod Reconcile
pub mod Split
pub mod Apply
pub mod Handle
pub mod Coverage
pub mod Batches
pub mod Placement
pub mod Stories
pub mod Placed
pub mod Requested
pub mod Current
pub mod FollowUp
use shkandal.Prelude.{
  none, some, [], ◌∷◌, ◌++◌, true, false, suc, zero, List, String, ℕ, Bool, Option, ◌/◌, ◌+◌, map,
  take, length, any, if◌then◌else◌, drop, keep_if, ltb, not, ◌%◌, ◌&&◌, is_empty,
}
use shkandal.Contracts.{ContractError}
use shkandal.Contracts.Audits.{
  coherent, split, inconclusive, CoherenceOutcome, assigned_ids, CaseCoherenceAuditOutput,
  detached_ids,
}
use shkandal.Results.{Result, ok, ◌>>=◌}
use shkandal.Text.{Text, codes, text_eq}

-- What a Case audit ends with when it raises.
pub data CoverageError : Type 0 where
  assigned_and_detached : List Text → CoverageError
  unknown_articles : List Text → CoverageError
  omitted_articles : List Text → CoverageError

pub data AuditError : Type 0 where
  no_case_id : AuditError
  bad_coverage : CoverageError → AuditError
  superseded : String → AuditError
  audit_failed : String → AuditError
  zero_step : AuditError
  unknown_group : Text → AuditError
  invalid_output : ContractError → AuditError
  no_original : AuditError
  invalid_article_id : Text → AuditError
  article_disappeared : AuditError
  unknown_story : Text → AuditError
  index_refused : String → AuditError
  not_enqueued : AuditError

abbrev pub mem : List Text → Text → Bool
mem ids a = any (text_eq a) ids

abbrev pub is_inconclusive : CoherenceOutcome → Bool
is_inconclusive coherent = false
is_inconclusive split = false
is_inconclusive inconclusive = true

-- A dict as the list of its writes: a later write of a key counts.
unfoldable pub dict_get {ℓ} : {A : Type ℓ} → List (Text × A) → Text → Option A
dict_get [] key = none
dict_get ((k, a) ∷ dict) key = elim (dict_get dict key) [
  | some later ↦ some later
  | none ↦ if text_eq k key then some a else none
]

-- _validate_article_coverage.
unfoldable pub validate_article_coverage :
    CaseCoherenceAuditOutput → List Text → Option CoverageError
unfolding assigned_ids
validate_article_coverage output article_ids =
    let assigned = assigned_ids output.stories in
    let detached = detached_ids output in
    let unknown = keep_if (λ a. not (mem article_ids a)) (assigned ++ detached) in
    let missing = keep_if (λ a. not (mem assigned a) && not (mem detached a)) article_ids in
    let duplicates = keep_if (mem detached) assigned in
    if is_inconclusive output.outcome
    then none
    else if not (is_empty duplicates)
    then some (assigned_and_detached duplicates)
    else if not (is_empty unknown)
    then some (unknown_articles unknown)
    else if not (is_empty missing)
    then some (omitted_articles missing)
    else none

-- The answer that stands for an audit whose coverage could not be confirmed.
abbrev pub inconclusive_coverage_fallback : CaseCoherenceAuditOutput
inconclusive_coverage_fallback = record {
  diagnosis = record {
    shared_specific_core_uk = none;
    shared_only_broad_theme_uk = none;
    merge_blockers_uk = [];
    split_story_cores_uk = [];
    detached_article_signals_uk = [];
    coherence_test_uk = codes "Недостатньо доказів для одного конкретного формулювання.";
  };
  stories = [];
  detached_articles = [];
  reason_uk =
      codes "Неможливо безпечно підтвердити повне покриття статей після повторної перевірки.";
  outcome = inconclusive;
}

-- `str` of a natural number, with fuel for its digits.
unfoldable pub digits : ℕ → ℕ → Text
digits zero n = []
digits (suc fuel) n =
    let high = digits fuel (n / 10) in
    if ltb n 10 then (48 + n) ∷ [] else high ++ (48 + n % 10) ∷ []

unfoldable pub decimal : ℕ → Text
unfolding digits
decimal n = digits (n + 1) n

-- One card of the prompt; the id is the article's, or the reference of an evidence group.
pub record AuditCard : Type 0 where
  pub article_id : Text
  pub title_uk : Text
  pub summary_uk : Text
  pub reason_uk : Option Text

pub data Phase : Type 0 where
  final : Phase
  batch : ℕ → Phase
  reconciliation : Phase

-- The payload of a run: the cards, the batch results before them, and what a repeated run is told.
pub record AuditRequest : Type 0 where
  pub phase : Phase
  pub cards : List AuditCard
  pub batch_audits : List CaseCoherenceAuditOutput
  pub previous_invalid_audit : Option (CaseCoherenceAuditOutput × CoverageError)

abbrev pub Invoke : Type 0
Invoke = AuditRequest → Result AuditError (CaseCoherenceAuditOutput × Option ℕ)

abbrev pub card_ids : List AuditCard → List Text
card_ids cards = map (λ c. c.article_id) cards

-- _invoke_with_coverage_retry.
unfoldable pub invoke_with_coverage_retry :
    Invoke → AuditRequest → Result AuditError (CaseCoherenceAuditOutput × Option ℕ)
unfolding validate_article_coverage
invoke_with_coverage_retry invoke request = do
  first ← invoke request
  elim (validate_article_coverage first.0 (card_ids request.cards)) [
    | none ↦ ok first
    | some e ↦ do
      second ← invoke (record request { previous_invalid_audit = some (first.0, e) })
      elim (validate_article_coverage second.0 (card_ids request.cards)) [
        | none ↦ ok second
        | some e' ↦ ok (inconclusive_coverage_fallback, second.1)
      ]
  ]

-- `cards[index : index + n] for index in range(0, len(cards), n)`, with fuel for the batches.
unfoldable pub batches_from {ℓ} : {A : Type ℓ} → ℕ → ℕ → List A → List (List A)
batches_from zero n cards = []
batches_from (suc fuel) n [] = []
batches_from (suc fuel) n (c ∷ cards) =
    take n (c ∷ cards) ∷ batches_from fuel n (drop n (c ∷ cards))

unfoldable pub batches_of {ℓ} : {A : Type ℓ} → ℕ → List A → List (List A)
unfolding batches_from
batches_of n cards = batches_from (length cards) n cards
