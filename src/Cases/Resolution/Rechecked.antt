-- ===== src/Cases/Resolution/Rechecked.antt =====
-- What a resolution links after its recheck.
use shkandal.Prelude.{
  none, [], ◌∷◌, inl, inr, true, false, ◌≡◌, ◌↔◌, refl, In, arith, sym, ap, Option-cases, List,
  Option, ℕ, is_empty, subst, not, Bool, Bool-cases, if◌then◌else◌, ◌||◌, ◌∙◌,
}
use shkandal.Cases.{CaseTables}
use shkandal.Cases.Resolution.{ResolutionError}
use shkandal.Cases.Resolution.Fallback.{
  run_fallback, reject_resolution, validate_fallback, rejection_of, recheck_resolution, with_run,
}
use shkandal.Cases.Resolution.Links.{IsConfirmed, recheck_links-kept}
use shkandal.Cases.Resolution.Recheck.{Services, DroppedLink, Candidate, recheck_links}
use shkandal.Contracts.Resolution.{CaseResolutionOutput, accept_resolution, CaseLinkDecision}
use shkandal.Planning.Tables.{Article, ArticleCard}
use shkandal.Results.{Result, ok, err, ok_eq, not_ok, >>=-ok}

validate_fallback-no_links :
    (output : CaseResolutionOutput)
    → validate_fallback output ≡ none
    → output.existing_case_links ≡ []
unfolding validate_fallback
validate_fallback-no_links output h = empty output.existing_case_links (ground arith)
  where
    empty : (links : List CaseLinkDecision) → is_empty links ≡ true → links ≡ []
    empty [] h = refl
    empty (l ∷ links) h = cc

run_fallback-no_links :
    (services : Services) (output : CaseResolutionOutput) (audits : List DroppedLink)
    {r : CaseResolutionOutput × Option ℕ}
    → run_fallback services output audits ≡ ok r
    → r.0.existing_case_links ≡ []
unfolding run_fallback
run_fallback-no_links services output audits {r} e =
    let (result, ran, checked) = >>=-ok (services.resolve_dropped audits output) _ e in
    elim (Option-cases (validate_fallback result.0)) [
      | inl good ↦
          subst (λ s. s.0.existing_case_links ≡ []) (ok_eq (rw good at checked))
            (validate_fallback-no_links result.0 good)
      | inr (why, bad) ↦ not_ok (rw bad at checked)
    ]

reject_resolution-no_links :
    (output : CaseResolutionOutput) {out : CaseResolutionOutput}
    → reject_resolution output ≡ ok out
    → out.existing_case_links ≡ []
unfolding reject_resolution
reject_resolution-no_links output {out} e =
    elim (Option-cases (accept_resolution (rejection_of output))) [
      | inl good ↦ ap (λ o. o.existing_case_links) (sym (ok_eq (rw (reject_resolution, good) at e)))
      | inr (why, bad) ↦ not_ok (rw (reject_resolution, bad) at e)
    ]

-- Without a link that is kept: the fallback's answer, or the rejection.
unlinked :
    (services : Services) (output : CaseResolutionOutput) (audits : List DroppedLink)
    (run_id : Option ℕ) (source : Bool) {r : CaseResolutionOutput × Option ℕ}
    → (if source
        then run_fallback services output audits
        else with_run run_id (reject_resolution output))
      ≡ ok r
    → r.0.existing_case_links ≡ []
unlinked services output audits run_id true h = run_fallback-no_links services output audits h
unlinked services output audits run_id false {r} h = by_rejection (reject_resolution output) refl h
  where
    by_rejection :
        (rejection : Result ResolutionError CaseResolutionOutput)
        → reject_resolution output ≡ rejection
        → with_run run_id rejection ≡ ok r
        → r.0.existing_case_links ≡ []
    by_rejection (ok out) q h =
        subst (λ s. s.0.existing_case_links ≡ []) (ok_eq h) (reject_resolution-no_links output q)
    by_rejection (err e) q h = not_ok h

module _ (services : Services) (article : Article) (card : ArticleCard)
    (candidates : List Candidate) (t : CaseTables) where
  same_links :
      {links : List CaseLinkDecision} {given : List CaseLinkDecision} {out : List CaseLinkDecision}
      → out ≡ links
      → ((link : CaseLinkDecision)
          → In link links ↔ (In link given × IsConfirmed services article card candidates t link))
      → (link : CaseLinkDecision)
      → In link out ↔ (In link given × IsConfirmed services article card candidates t link)
  same_links {links} {given} {out} q h link =
      subst
        (λ ls. In link ls ↔ (In link given × IsConfirmed services article card candidates t link))
        (sym q) (h link)

  empty_links : (links : List CaseLinkDecision) → not (is_empty links) ≡ false → links ≡ []
  empty_links [] h = refl
  empty_links (l ∷ links) h = cc

  -- After a recheck that ends well, the existing Cases that the resolution links are exactly those of
  -- the model's answer that are active candidates and whose audit says `connect`: a fallback and a
  -- rejection link none, and are reached only when there is none.
  pub recheck_resolution-IsConfirmed :
      (has_source : Bool) (output : CaseResolutionOutput) (run_id : Option ℕ)
      (r : CaseResolutionOutput × Option ℕ)
      → recheck_resolution services article card candidates t has_source output run_id ≡ ok r
      → (link : CaseLinkDecision)
      → In link r.0.existing_case_links
        ↔ (In link output.existing_case_links × IsConfirmed services article card candidates t link)
  unfolding recheck_resolution
  recheck_resolution-IsConfirmed has_source output run_id r e link =
      elim (Bool-cases (is_empty output.existing_case_links)) [
        | inl none_given ↦
            same_links
              (ap (λ s. s.0.existing_case_links)
                (sym (ok_eq (rw (recheck_resolution, none_given) at e))))
              (λ l. (λ m. absurd (nowhere none_given m), λ m. m.0)) link
        | inr given ↦
            let ((links, audits), checked, rest) =
              >>=-ok (recheck_links services article card candidates t output.existing_case_links) _
                (rw (recheck_resolution, given) at e) in
            let found =
              recheck_links-kept services article card candidates t output.existing_case_links
                checked in
            elim (Bool-cases (not (is_empty links) || not (is_empty output.new_cases))) [
              | inl some_left ↦
                  same_links
                    (ap (λ s. s.0.existing_case_links) (sym (ok_eq (rw some_left at rest)))) found
                    link
              | inr nothing ↦
                  same_links
                    (unlinked services output audits run_id has_source (rw nothing at rest)
                      ∙ sym (empty_links links (ground arith)))
                    found link
            ]
      ]
    where
      nowhere :
          {l : CaseLinkDecision} {ls : List CaseLinkDecision} → is_empty ls ≡ true → In l ls → ⊥
      nowhere {ls = []} h m = elim m [ ]
      nowhere {ls = l ∷ ls} h m = cc
