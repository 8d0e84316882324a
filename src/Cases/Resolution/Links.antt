-- ===== src/Cases/Resolution/Links.antt =====
-- The links that the recheck of a resolution keeps.
use shkandal.Prelude.{
  some, inl, inr, ◌≡◌, refl, List, ℕ, Option-cases, sym, subst, [], here, there, ◌∷◌, In, ◌↔◌, ◌∙◌,
}
use shkandal.Cases.{CaseTables}
use shkandal.Cases.Resolution.{ResolutionError}
use shkandal.Cases.Resolution.Recheck.{
  kept, dropped, Services, Candidate, recheck_link, DroppedLink, get_active_case, candidate_of,
  of_audit, run_case_link_audit, recheck_links, LinkVerdict, with_verdict,
}
use shkandal.Contracts.Resolution.{
  connect, drop_link, inconclusive, CaseLinkDecision, CaseLinkAuditOutput, LinkAuditOutcome,
}
use shkandal.Planning.Tables.{Article, ArticleCard, Case}
use shkandal.Results.{ok, ok_eq, not_ok, >>=-ok, Result}

module _ (services : Services) (article : Article) (card : ArticleCard)
    (candidates : List Candidate) (t : CaseTables) where
  -- The link is to an active Case among the candidates, and its audit says `connect`.
  abbrev pub IsConfirmed : CaseLinkDecision → Type 0
  IsConfirmed link =
      (case_id : ℕ) × (case : Case) × (candidate : Candidate) × (decision : CaseLinkAuditOutput)
      × (services.uuid link.case_id ≡ some case_id)
      × (get_active_case case_id t ≡ some case)
      × (candidate_of candidates link.case_id ≡ some candidate)
      × (run_case_link_audit services article card candidates t case candidate ≡ ok decision)
      × (decision.outcome ≡ connect)

  recheck_link-IsConfirmed :
      (link : CaseLinkDecision)
      → recheck_link services article card candidates t link ≡ ok kept
      → IsConfirmed link
  unfolding recheck_link
  recheck_link-IsConfirmed link e = elim (Option-cases (services.uuid link.case_id)) [
    | inl bad ↦ not_ok (rw (recheck_link, bad) at e)
    | inr (case_id, good) ↦ elim (Option-cases (get_active_case case_id t)) [
      | inl gone ↦ absurd (is_dropped (ok_eq (rw (recheck_link, good, gone) at e)))
      | inr (case, active) ↦ elim (Option-cases (candidate_of candidates link.case_id)) [
        | inl unknown ↦ not_ok (rw (recheck_link, good, active, unknown) at e)
        | inr (candidate, known) ↦
            let (decision, ran, end) =
              >>=-ok (run_case_link_audit services article card candidates t case candidate) _
                (rw (recheck_link, good, active, known) at e) in
            (
              case_id,
              case,
              candidate,
              decision,
              good,
              active,
              known,
              ran,
              connects candidate decision decision.outcome (ok_eq end),
            )
      ]
    ]
  ]
    where
      is_dropped : {audit : DroppedLink} → dropped audit ≡ kept → ⊥
      is_dropped q = cc

      connects :
          (candidate : Candidate) (decision : CaseLinkAuditOutput) (outcome : LinkAuditOutcome)
          → of_audit link candidate decision outcome ≡ kept
          → outcome ≡ connect
      connects candidate decision connect q = refl
      connects candidate decision drop_link q = cc
      connects candidate decision inconclusive q = cc

  IsConfirmed-recheck_link :
      (link : CaseLinkDecision)
      → IsConfirmed link
      → recheck_link services article card candidates t link ≡ ok kept
  unfolding recheck_link
  IsConfirmed-recheck_link link
        (case_id, case, candidate, decision, good, active, known, ran, connects) =
      rw (recheck_link, good, active, known, ran, connects) refl

  pub recheck_links-kept :
      (given : List CaseLinkDecision) {r : List CaseLinkDecision × List DroppedLink}
      → recheck_links services article card candidates t given ≡ ok r
      → (link : CaseLinkDecision) → In link r.0 ↔ (In link given × IsConfirmed link)
  unfolding recheck_links
  recheck_links-kept [] {r} e link =
      subst (λ s. In link s.0 ↔ (In link [] × IsConfirmed link)) (ok_eq e)
        (λ m. elim m [ ], λ m. elim m.0 [ ])
  recheck_links-kept (first ∷ given) {r} e link =
      let (verdict, one, later) =
        >>=-ok (recheck_link services article card candidates t first) _ e in
      let (rest, more, end) =
        >>=-ok (recheck_links services article card candidates t given) _ later in
      subst (λ s. In link s.0 ↔ (In link (first ∷ given) × IsConfirmed link)) (ok_eq end)
        (by_verdict verdict one rest (recheck_links-kept given more link))
    where
      clash :
          {C : Type 0} {audit : DroppedLink}
          → Path (Result ResolutionError LinkVerdict) (ok (dropped audit)) (ok kept)
          → C
      clash q = cc

      by_verdict :
          (verdict : LinkVerdict)
          → recheck_link services article card candidates t first ≡ ok verdict
          → (rest : List CaseLinkDecision × List DroppedLink)
          → In link rest.0 ↔ (In link given × IsConfirmed link)
          → In link (with_verdict first verdict rest).0
            ↔ (In link (first ∷ given) × IsConfirmed link)
      by_verdict kept one (links, audits) rest = (
        λ m. elim m [
          | here same ↦ (here same, subst IsConfirmed same (recheck_link-IsConfirmed first one))
          | there m' ↦ (there (rest.0 m').0, (rest.0 m').1)
        ],
        λ m. elim (m.0) [ here same ↦ here same | there m' ↦ there (rest.1 (m', m.1)) ],
      )
      by_verdict (dropped audit) one (links, audits) rest = (
        λ m. (there (rest.0 m).0, (rest.0 m).1),
        λ m. elim (m.0) [
          | here same ↦
              clash (sym one ∙ IsConfirmed-recheck_link first (subst IsConfirmed (sym same) (m.1)))
          | there m' ↦ rest.1 (m', m.1)
        ],
      )
