-- ===== src/Contracts/Resolution.antt =====
-- The resolution of an article into Cases, and the second look at one of its links.
use shkandal.Prelude.{
  ℕ, none, some, true, false, Bool, Option, List, leb, not, String, ◌&&◌, is_empty, all,
  if◌then◌else◌, is_some, is_none, ◌||◌, map,
}
use shkandal.Contracts.{
  model_validate, matches_ref, all_distinct, not_blank, none_or_at_most, ContractError,
  items_at_most, at_most,
}
use shkandal.Text.{Text, codes}

-- `confidence` in millionths: the constraint from 0 to 1.
abbrev confident : ℕ → Bool
confident c = leb c 1000000

pub record CaseLinkDecision : Type 0 where
  pub case_id : Text
  pub link_reason_uk : Text
  pub confidence : ℕ

pub record NewCaseDecision : Type 0 where
  pub new_case_ref : Text
  pub link_reason_uk : Text
  pub confidence : ℕ

pub record CaseResolutionDiagnosis : Type 0 where
  pub article_story_core_uk : Option Text
  pub specific_case_core_uk : Option Text
  pub only_broad_overlap_uk : Option Text
  pub merge_blockers_uk : List Text
  pub separate_story_cores_uk : List Text
  pub case_coherence_test_uk : Text
  pub matching_existing_case_ids : List Text
  pub new_case_core_uk : Option Text
  pub rejection_signals_uk : List Text
  pub broad_theme_warning_uk : Option Text

pub data ResolutionOutcome : Type 0 where
  resolved : ResolutionOutcome
  rejected : ResolutionOutcome

pub record CaseResolutionOutput : Type 0 where
  pub diagnosis : CaseResolutionDiagnosis
  pub existing_case_links : List CaseLinkDecision
  pub new_cases : List NewCaseDecision
  pub decision_reason_uk : Text
  pub outcome : ResolutionOutcome

abbrev pub is_resolved : ResolutionOutcome → Bool
is_resolved resolved = true
is_resolved rejected = false

abbrev pub is_rejected : ResolutionOutcome → Bool
is_rejected resolved = false
is_rejected rejected = true

-- A text that may be null, as a condition: neither null nor empty.
abbrev pub is_truthy : Option Text → Bool
is_truthy none = false
is_truthy (some t) = not (is_empty t)

unfoldable pub link_fields : CaseLinkDecision → Bool
link_fields l = not_blank l.link_reason_uk && confident l.confidence

unfoldable pub new_case_fields : NewCaseDecision → Bool
unfolding matches_ref
new_case_fields c =
    matches_ref (codes "new_") c.new_case_ref
    && not_blank c.link_reason_uk
    && confident c.confidence

unfoldable pub resolution_diagnosis_fields : CaseResolutionDiagnosis → Bool
resolution_diagnosis_fields d =
    none_or_at_most 240 d.article_story_core_uk
    && none_or_at_most 240 d.specific_case_core_uk
    && none_or_at_most 240 d.only_broad_overlap_uk
    && items_at_most 8 d.merge_blockers_uk
    && items_at_most 8 d.separate_story_cores_uk
    && not_blank d.case_coherence_test_uk
    && at_most 240 d.case_coherence_test_uk
    && none_or_at_most 240 d.new_case_core_uk
    && items_at_most 6 d.rejection_signals_uk
    && none_or_at_most 240 d.broad_theme_warning_uk

unfoldable pub resolution_fields : CaseResolutionOutput → Bool
unfolding link_fields new_case_fields resolution_diagnosis_fields
resolution_fields o =
    resolution_diagnosis_fields o.diagnosis
    && all link_fields o.existing_case_links
    && all new_case_fields o.new_cases
    && not_blank o.decision_reason_uk
    && at_most 320 o.decision_reason_uk

-- The message of the ValueError, or none.
unfoldable pub validate_resolution : CaseResolutionOutput → Option String
unfolding all_distinct
validate_resolution o =
    let d = o.diagnosis in
    let resolves = is_resolved o.outcome in
    let rejects = is_rejected o.outcome in
    let links = not (is_empty o.existing_case_links) in
    let creates = not (is_empty o.new_cases) in
    let matching = not (is_empty d.matching_existing_case_ids) in
    if is_some d.broad_theme_warning_uk && is_none d.article_story_core_uk && not rejects
    then some "broad thematic warnings without story core must be rejected"
    else if resolves && not links && not creates
    then some "resolved case resolution must link or create at least one case"
    else if resolves && is_none d.article_story_core_uk
    then some "resolved case resolution requires a concrete article story core"
    else if resolves && is_none d.specific_case_core_uk
    then some "resolved case resolution requires a specific case core"
    else if resolves && not (matching || is_truthy d.new_case_core_uk)
    then some "resolved case resolution requires matching or new-case diagnosis"
    else if links && is_some d.only_broad_overlap_uk && not matching
    then some "existing case links cannot rely only on broad overlap"
    else if rejects && (links || creates)
    then some "rejected case resolution cannot contain case actions"
    else if rejects
        && not (not (is_empty d.rejection_signals_uk) || is_none d.article_story_core_uk)
    then some "rejected case resolution requires rejection signals or no story core"
    else if not (all_distinct (map (λ l. l.case_id) o.existing_case_links))
    then some "existing case links must be unique"
    else if not (all_distinct (map (λ c. c.new_case_ref) o.new_cases))
    then some "new case refs must be unique"
    else none

unfoldable pub accept_resolution : CaseResolutionOutput → Option ContractError
unfolding model_validate resolution_fields validate_resolution
accept_resolution o = model_validate (resolution_fields o) (validate_resolution o)

pub record CaseLinkAuditDiagnosis : Type 0 where
  pub article_story_core_uk : Option Text
  pub case_story_core_uk : Option Text
  pub shared_specific_core_uk : Option Text
  pub only_broad_overlap_uk : Option Text
  pub disconnect_signals_uk : List Text
  pub coherence_test_uk : Text

pub data LinkAuditOutcome : Type 0 where
  connect : LinkAuditOutcome
  drop_link : LinkAuditOutcome
  inconclusive : LinkAuditOutcome

pub record CaseLinkAuditOutput : Type 0 where
  pub diagnosis : CaseLinkAuditDiagnosis
  pub reason_uk : Text
  pub outcome : LinkAuditOutcome

unfoldable pub link_audit_fields : CaseLinkAuditOutput → Bool
link_audit_fields o =
    none_or_at_most 240 o.diagnosis.article_story_core_uk
    && none_or_at_most 240 o.diagnosis.case_story_core_uk
    && none_or_at_most 240 o.diagnosis.shared_specific_core_uk
    && none_or_at_most 240 o.diagnosis.only_broad_overlap_uk
    && items_at_most 8 o.diagnosis.disconnect_signals_uk
    && not_blank o.diagnosis.coherence_test_uk
    && at_most 240 o.diagnosis.coherence_test_uk
    && not_blank o.reason_uk
    && at_most 320 o.reason_uk

unfoldable pub validate_connect : CaseLinkAuditDiagnosis → Option String
validate_connect d =
    if is_none d.article_story_core_uk
    then some "connect link audit requires an article story core"
    else if is_none d.case_story_core_uk
    then some "connect link audit requires a case story core"
    else if is_none d.shared_specific_core_uk
    then some "connect link audit requires a shared specific core"
    else if is_some d.only_broad_overlap_uk
    then some "connect link audit cannot rely only on broad overlap"
    else if not (is_empty d.disconnect_signals_uk)
    then some "connect link audit cannot contain disconnect signals"
    else none

unfoldable pub validate_link_audit : CaseLinkAuditDiagnosis → LinkAuditOutcome → Option String
unfolding validate_connect
validate_link_audit d connect = validate_connect d
validate_link_audit d drop_link =
    if not (
      is_some d.only_broad_overlap_uk
      || not (is_empty d.disconnect_signals_uk)
      || is_none d.shared_specific_core_uk)
    then some "drop link audit requires a factual reason to disconnect"
    else none
validate_link_audit d inconclusive = none

unfoldable pub accept_link_audit : CaseLinkAuditOutput → Option ContractError
unfolding model_validate link_audit_fields validate_link_audit
accept_link_audit o =
    model_validate (link_audit_fields o) (validate_link_audit o.diagnosis o.outcome)
