-- ===== src/Contracts/Copy.antt =====
-- The reader-facing text of a Case: keep its title or replace it.
use shkandal.Prelude.{none, some, Bool, Option, String, ◌&&◌, if◌then◌else◌, not, is_none, is_some}
use shkandal.Contracts.{model_validate, not_blank, ContractError}
use shkandal.Text.{Text}
use shkandal.Contracts.Resolution.{is_truthy}

pub record RefreshCaseTitleDiagnosis : Type 0 where
  pub current_title_specific_enough : Bool
  pub replacement_needed_reason_uk : Option Text
  pub proposed_title_core_uk : Option Text

pub data TitleAction : Type 0 where
  keep : TitleAction
  replace : TitleAction

pub record RefreshCaseOutput : Type 0 where
  pub title_diagnosis : RefreshCaseTitleDiagnosis
  pub replacement_title_uk : Option Text
  pub summary_uk : Text
  pub title_reason_uk : Text
  pub title_action : TitleAction

unfoldable pub refresh_fields : RefreshCaseOutput → Bool
refresh_fields o = not_blank o.summary_uk && not_blank o.title_reason_uk

unfoldable pub validate_title_action : RefreshCaseOutput → TitleAction → Option String
validate_title_action o replace =
    if not (is_truthy o.replacement_title_uk)
    then some "replacement title is required when title_action is replace"
    else if is_none o.title_diagnosis.replacement_needed_reason_uk
    then some "replace requires a replacement-needed diagnosis reason"
    else none
validate_title_action o keep =
    if is_some o.replacement_title_uk
    then some "replacement title must be null when title_action is keep"
    else none

unfoldable pub accept_refresh : RefreshCaseOutput → Option ContractError
unfolding model_validate refresh_fields validate_title_action
accept_refresh o = model_validate (refresh_fields o) (validate_title_action o o.title_action)
