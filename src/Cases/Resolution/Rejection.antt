-- ===== src/Cases/Resolution/Rejection.antt =====
-- The rejection that replaces a resolution without links.
use shkandal.Prelude.{
  none, [], ◌∷◌, true, false, ◌≡◌, refl, arith, length-append, Bool, Option, String, List, leb,
  length, inl, inr, if◌then◌else◌, Bool-cases,
}
use shkandal.Cases.Resolution.{refused}
use shkandal.Cases.Resolution.Fallback.{rejection_of, no_link_signal, reject_resolution}
use shkandal.Contracts.{model_validate, all_distinct, to_set, field_constraint}
use shkandal.Contracts.Resolution.{
  resolution_fields, validate_resolution, resolution_diagnosis_fields, CaseResolutionOutput,
  accept_resolution,
}
use shkandal.Results.{ok, err}
use shkandal.Text.{Text}

checked_fields :
    (fields : Bool) (message : Option String) → model_validate fields message ≡ none → fields ≡ true
unfolding model_validate
checked_fields true message h = refl
checked_fields false message h = cc

rejection-valid : (output : CaseResolutionOutput) → validate_resolution (rejection_of output) ≡ none
unfolding validate_resolution all_distinct to_set
rejection-valid output = by_signals output.diagnosis.rejection_signals_uk refl
  where
    by_signals :
        (signals : List Text)
        → output.diagnosis.rejection_signals_uk ≡ signals
        → validate_resolution (rejection_of output) ≡ none
    by_signals [] e = rw (validate_resolution, e) (ground arith)
    by_signals (s ∷ signals) e = rw (validate_resolution, e) (ground arith)

rejection-fields :
    (output : CaseResolutionOutput)
    → resolution_fields output ≡ true
    → resolution_fields (rejection_of output) ≡ leb (length output.diagnosis.rejection_signals_uk) 5
unfolding resolution_fields resolution_diagnosis_fields
rejection-fields output h =
    let signals = output.diagnosis.rejection_signals_uk in
    ground (arith, length-append signals (no_link_signal ∷ []))

-- The rejection of an accepted answer is itself accepted when the answer has at most five rejection
-- signals; with six, which the contract admits, the signal that is added is one too many and the
-- rewrite raises.
pub reject_resolution-limit :
    (output : CaseResolutionOutput)
    → accept_resolution output ≡ none
    → reject_resolution output ≡ (
        if leb (length output.diagnosis.rejection_signals_uk) 5
        then ok (rejection_of output)
        else err (refused field_constraint))
unfolding reject_resolution accept_resolution model_validate
reject_resolution-limit output h =
    let fields =
      rejection-fields output
        (checked_fields (resolution_fields output) (validate_resolution output) h) in
    elim (Bool-cases (leb (length output.diagnosis.rejection_signals_uk) 5)) [
      | inl few ↦
          rw (reject_resolution, accept_resolution, fields, few, rejection-valid output) refl
      | inr many ↦ rw (reject_resolution, accept_resolution, fields, many) refl
    ]
