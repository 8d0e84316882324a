-- ===== src/Cases/Audits/Reconcile.antt =====
-- CaseCoherenceAuditJobHandler._run_audit: the batches of a large Case, the groups of evidence that
-- they give, and the groups expanded into articles again.
use shkandal.Prelude.{
  none, some, [], ◌∷◌, ◌++◌, List, ℕ, Option, keep_if, not, if◌then◌else◌, ◌+◌, map, ◌==◌, length,
}
use shkandal.Cases.Audits.{
  final, batch, reconciliation, decimal, Invoke, batches_of, AuditCard, invoke_with_coverage_retry,
  AuditError, unknown_group, invalid_output, mem, is_inconclusive, zero_step, dict_get,
}
use shkandal.Contracts.Audits.{
  assigned_ids, CaseCoherenceAuditOutput, accept_coherence, CaseAuditStory,
  CaseAuditDetachedArticle,
}
use shkandal.Results.{Result, ok, err, ◌>>=◌}
use shkandal.Text.{Text, codes, text_eq}

-- The dict of the articles of each group.
abbrev pub GroupArticles : Type 0
GroupArticles = List (Text × List Text)

abbrev pub story_ref_of : ℕ → ℕ → Text
story_ref_of index story = codes "group_" ++ decimal index ++ codes "_" ++ decimal story

abbrev pub detached_ref_of : ℕ → ℕ → Text
detached_ref_of index detached =
    codes "group_" ++ decimal index ++ codes "_detached_" ++ decimal detached

abbrev pub detached_title : Text
detached_title = codes "Від'єднана стаття"

-- The groups of the stories of a batch, counted from `n`: the cards and their articles.
unfoldable pub story_groups : ℕ → ℕ → List CaseAuditStory → List (AuditCard × List Text)
unfolding decimal
story_groups index n [] = []
story_groups index n (s ∷ stories) =
    (
      record {
        article_id = story_ref_of index n;
        title_uk = s.title_uk;
        summary_uk = s.summary_uk;
        reason_uk = some s.reason_uk;
      },
      s.article_ids,
    )
    ∷ story_groups index (n + 1) stories

-- The groups of the detached articles that no story has.
unfoldable pub detached_groups :
    List Text → ℕ → ℕ → List CaseAuditDetachedArticle → List (AuditCard × List Text)
unfolding decimal
detached_groups assigned index n [] = []
detached_groups assigned index n (d ∷ detached) =
    let rest = detached_groups assigned index (n + 1) detached in
    if mem assigned d.article_id
    then rest
    else (
      record {
        article_id = detached_ref_of index n;
        title_uk = detached_title;
        summary_uk = d.reason_uk;
        reason_uk = some d.reason_uk;
      },
      d.article_id ∷ [],
    )
      ∷ rest

unfoldable pub batch_groups : ℕ → CaseCoherenceAuditOutput → List (AuditCard × List Text)
unfolding story_groups detached_groups assigned_ids
batch_groups index output =
    story_groups index 1 output.stories
    ++ detached_groups (assigned_ids output.stories) index 1 output.detached_articles

-- The loop over the batches: an inconclusive one ends it, or the results and the groups of all.
pub data BatchResult : Type 0 where
  undecided : CaseCoherenceAuditOutput → BatchResult
  decided : List CaseCoherenceAuditOutput → List (AuditCard × List Text) → BatchResult

abbrev pub with_batch : ℕ → CaseCoherenceAuditOutput → BatchResult → BatchResult
with_batch index output (undecided o) = undecided o
with_batch index output (decided results groups) =
    decided (output ∷ results) (batch_groups index output ++ groups)

module _ (invoke : Invoke) where
  unfoldable pub audit_batches : ℕ → List (List AuditCard) → Result AuditError BatchResult
  unfolding invoke_with_coverage_retry batch_groups
  audit_batches index [] = ok (decided [] [])
  audit_batches index (cards ∷ batches) = do
    first ← invoke_with_coverage_retry invoke (record {
      phase = batch index;
      cards = cards;
      batch_audits = [];
      previous_invalid_audit = none;
    })
    if is_inconclusive first.0.outcome
        then ok (undecided first.0)
        else with_rest first.0 (audit_batches (index + 1) batches)
    where
      with_rest :
          CaseCoherenceAuditOutput → Result AuditError BatchResult → Result AuditError BatchResult
      with_rest output (ok rest) = ok (with_batch index output rest)
      with_rest output (err e) = err e

-- `list(dict.fromkeys(...))`: the first occurrence of each.
unfoldable pub first_of_each : List Text → List Text
first_of_each [] = []
first_of_each (a ∷ ids) = a ∷ keep_if (λ b. not (text_eq b a)) (first_of_each ids)

-- The articles of a list of groups; a reference to no group is a KeyError.
unfoldable pub articles_of : GroupArticles → List Text → Result AuditError (List Text)
unfolding dict_get
articles_of groups [] = ok []
articles_of groups (ref ∷ refs) = elim (dict_get groups ref) [
  | none ↦ err (unknown_group ref)
  | some ids ↦ do rest ← articles_of groups refs; ok (ids ++ rest)
]

unfoldable pub expand_stories :
    GroupArticles → List CaseAuditStory → Result AuditError (List CaseAuditStory)
unfolding articles_of first_of_each
expand_stories groups [] = ok []
expand_stories groups (s ∷ stories) = do
  ids ← articles_of groups s.article_ids
  rest ← expand_stories groups stories
  ok (record s { article_ids = first_of_each ids } ∷ rest)

unfoldable pub expand_detached :
    GroupArticles
    → List CaseAuditDetachedArticle
    → Result AuditError (List CaseAuditDetachedArticle)
unfolding dict_get
expand_detached groups [] = ok []
expand_detached groups (d ∷ detached) = elim (dict_get groups d.article_id) [
  | none ↦ err (unknown_group d.article_id)
  | some ids ↦ do
    rest ← expand_detached groups detached
    ok (map (λ a. record { article_id = a; reason_uk = d.reason_uk }) ids ++ rest)
]

unfoldable pub expand_evidence_groups :
    CaseCoherenceAuditOutput → GroupArticles → Result AuditError CaseCoherenceAuditOutput
unfolding expand_stories expand_detached accept_coherence
expand_evidence_groups output groups = if is_inconclusive output.outcome then ok output else do
  stories ← expand_stories groups output.stories
  detached ← expand_detached groups output.detached_articles
  checked (record output { stories = stories; detached_articles = detached })
  where
    checked : CaseCoherenceAuditOutput → Result AuditError CaseCoherenceAuditOutput
    checked o = elim (accept_coherence o) [ some e ↦ err (invalid_output e) | none ↦ ok o ]

-- _run_audit. `range` refuses a step of zero.
unfoldable pub run_audit :
    Invoke → ℕ → List AuditCard → Result AuditError (CaseCoherenceAuditOutput × Option ℕ)
unfolding batches_of audit_batches invoke_with_coverage_retry expand_evidence_groups
run_audit invoke card_batch_size cards =
    let batches = batches_of card_batch_size cards in
    if card_batch_size == 0
    then err zero_step
    else if length batches == 1
    then invoke_with_coverage_retry invoke
        (record { phase = final; cards = cards; batch_audits = []; previous_invalid_audit = none })
    else do
      audited ← audit_batches invoke 1 batches
      elim audited [
        | undecided output ↦ ok (output, none)
        | decided results groups ↦ do
          last ← invoke_with_coverage_retry invoke (record {
            phase = reconciliation;
            cards = map (λ g. g.0) groups;
            batch_audits = results;
            previous_invalid_audit = none;
          })
          output ← expand_evidence_groups last.0 (map (λ g. (g.0.article_id, g.1)) groups)
          ok (output, last.1)
      ]
