-- ===== src/Cases/Resolution/Fallback.antt =====
-- resolution.py: the fallback and the rejection of a resolution whose links are all dropped, and the
-- recheck as a whole.
use shkandal.Prelude.{
  none, some, [], ◌∷◌, ◌++◌, ℕ, List, Option, Bool, if◌then◌else◌, not, is_empty, ◌&&◌, ◌||◌,
}
use shkandal.Cases.{CaseTables}
use shkandal.Cases.Resolution.{ResolutionError, refused, fallback_links, fallback_without_case}
use shkandal.Contracts.Resolution.{rejected, CaseResolutionOutput, accept_resolution, is_resolved}
use shkandal.Planning.Tables.{Article, ArticleCard}
use shkandal.Results.{Result, ok, err, ◌>>=◌}
use shkandal.Text.{Text, codes}
use shkandal.Cases.Resolution.Recheck.{recheck_links, Services, DroppedLink, Candidate}

-- _validate_dropped_link_fallback_output.
unfoldable pub validate_fallback : CaseResolutionOutput → Option ResolutionError
validate_fallback output =
    if not (is_empty output.existing_case_links)
    then some fallback_links
    else if is_resolved output.outcome && is_empty output.new_cases
    then some fallback_without_case
    else none

unfoldable pub run_fallback :
    Services
    → CaseResolutionOutput
    → List DroppedLink
    → Result ResolutionError (CaseResolutionOutput × Option ℕ)
unfolding validate_fallback
run_fallback services output audits = do
  result ← services.resolve_dropped audits output
  elim (validate_fallback result.0) [ some e ↦ err e | none ↦ ok result ]

abbrev pub no_link_signal : Text
no_link_signal = codes "Жодна наявна справа не підтвердила прив'язку після повторної перевірки."

abbrev pub no_link_reason : Text
no_link_reason =
    codes "Повторна перевірка не підтвердила безпечну прив'язку статті до жодної наявної справи."

-- The output that _reject_resolution_after_link_audit has the contract check.
abbrev pub rejection_of : CaseResolutionOutput → CaseResolutionOutput
rejection_of output = record {
  diagnosis = record output.diagnosis {
    matching_existing_case_ids = [];
    rejection_signals_uk = output.diagnosis.rejection_signals_uk ++ no_link_signal ∷ [];
  };
  existing_case_links = [];
  new_cases = [];
  decision_reason_uk = no_link_reason;
  outcome = rejected;
}

unfoldable pub reject_resolution :
    CaseResolutionOutput → Result ResolutionError CaseResolutionOutput
unfolding accept_resolution
reject_resolution output = elim (accept_resolution (rejection_of output)) [
  | some e ↦ err (refused e)
  | none ↦ ok (rejection_of output)
]

abbrev pub with_run :
    Option ℕ
    → Result ResolutionError CaseResolutionOutput
    → Result ResolutionError (CaseResolutionOutput × Option ℕ)
with_run run_id (ok output) = ok (output, run_id)
with_run run_id (err e) = err e

-- _recheck_existing_case_links_for_resolution; `has_source` tells that a source was given.
unfoldable pub recheck_resolution :
    Services
    → Article
    → ArticleCard
    → List Candidate
    → CaseTables
    → Bool
    → CaseResolutionOutput
    → Option ℕ
    → Result ResolutionError (CaseResolutionOutput × Option ℕ)
unfolding recheck_links run_fallback reject_resolution
recheck_resolution services article card candidates t has_source output run_id =
    if is_empty output.existing_case_links then ok (output, run_id) else do
      (links, audits) ← recheck_links services article card candidates t output.existing_case_links
      if not (is_empty links) || not (is_empty output.new_cases)
          then ok (record output { existing_case_links = links }, run_id)
          else if has_source
          then run_fallback services output audits
          else with_run run_id (reject_resolution output)
