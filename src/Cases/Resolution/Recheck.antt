-- ===== src/Cases/Resolution/Recheck.antt =====
-- resolution.py before the writes: the candidates and the second look at the links to existing
-- Cases. The vector search, the runs of the model and `UUID` are arguments.
use text.Mathlib.Text.{◌==◌ as str_eq}
use shkandal.Prelude.{none, some, [], ◌∷◌, ℕ, List, Option, ◌==◌, if◌then◌else◌, ◌&&◌}
use shkandal.Budgeting.{first_latest_sample}
use shkandal.Cases.{CaseTables}
use shkandal.Cases.Evidence.{representative_article_titles, EvidenceCard, load_case_article_cards}
use shkandal.Cases.Resolution.{ResolutionError, invalid_uuid, no_card_limit, unknown_candidate}
use shkandal.Contracts.Resolution.{
  connect, drop_link, CaseLinkDecision, CaseResolutionOutput, CaseLinkAuditOutput, LinkAuditOutcome,
  CaseLinkAuditDiagnosis,
}
use shkandal.Planning.Tables.{Article, ArticleCard, Case}
use shkandal.Results.{Result, ok, err, ◌>>=◌}
use shkandal.Sql.Rows.{find_row}
use shkandal.Text.{Text, codes, text_eq}

-- A candidate Case as the prompts show it.
pub record Candidate : Type 0 where
  pub case_id : Text
  pub score : ℕ
  pub title_uk : Text
  pub summary_uk : Option Text
  pub evidence_titles : List Text

-- The found Cases that are active, in the order of the search.
unfoldable pub load_candidates : (ℕ → Text) → ℕ → List (ℕ × ℕ) → CaseTables → List Candidate
unfolding find_row representative_article_titles
load_candidates str title_limit [] t = []
load_candidates str title_limit ((case_id, score) ∷ results) t =
    let rest = load_candidates str title_limit results t in
    elim (find_row (λ c. c.id == case_id && str_eq c.status "active") t.cases) [
      | none ↦ rest
      | some c ↦
          record {
            case_id = str case_id;
            score = score;
            title_uk = c.title_uk;
            summary_uk = c.summary_uk;
            evidence_titles = representative_article_titles title_limit t case_id;
          }
          ∷ rest
    ]

-- What a link audit is asked about.
pub record LinkAuditInput : Type 0 where
  pub article : Article
  pub card : ArticleCard
  pub case : Case
  pub candidate : Candidate
  pub article_cards : List EvidenceCard

-- A link that was not kept, as the fallback is told of it.
pub record DroppedLink : Type 0 where
  pub case_id : Text
  pub link_reason_uk : Text
  pub confidence : ℕ
  pub audit_outcome : LinkAuditOutcome
  pub audit_reason_uk : Text
  pub audit_diagnosis : Option CaseLinkAuditDiagnosis
  pub candidate : Option Candidate

abbrev pub missing_reason : Text
missing_reason = codes "Candidate case is missing or inactive."

-- The dict of the candidates by their id: a later one replaces an earlier one.
unfoldable pub candidate_of : List Candidate → Text → Option Candidate
candidate_of [] case_id = none
candidate_of (c ∷ candidates) case_id = elim (candidate_of candidates case_id) [
  | some later ↦ some later
  | none ↦ if text_eq c.case_id case_id then some c else none
]

-- `session.get(Case, case_id)`, unless the Case is not active.
unfoldable pub get_active_case : ℕ → CaseTables → Option Case
unfolding find_row
get_active_case case_id t = elim (find_row (λ c. c.id == case_id) t.cases) [
  | none ↦ none
  | some c ↦ if str_eq c.status "active" then some c else none
]

-- What became of one link: kept, or dropped with the reason.
pub data LinkVerdict : Type 0 where
  kept : LinkVerdict
  dropped : DroppedLink → LinkVerdict

abbrev pub of_audit :
    CaseLinkDecision → Candidate → CaseLinkAuditOutput → LinkAuditOutcome → LinkVerdict
of_audit link candidate decision connect = kept
of_audit link candidate decision outcome = dropped (record {
  case_id = link.case_id;
  link_reason_uk = link.link_reason_uk;
  confidence = link.confidence;
  audit_outcome = outcome;
  audit_reason_uk = decision.reason_uk;
  audit_diagnosis = some decision.diagnosis;
  candidate = some candidate;
})

abbrev pub with_verdict :
    CaseLinkDecision
    → LinkVerdict
    → List CaseLinkDecision × List DroppedLink
    → List CaseLinkDecision × List DroppedLink
with_verdict link kept (links, audits) = (link ∷ links, audits)
with_verdict link (dropped audit) (links, audits) = (links, audit ∷ audits)

-- The arguments that a resolution takes from outside: `UUID`, the limits, and the model's runs.
pub record Services : Type 0 where
  pub uuid : Text → Option ℕ
  pub link_audit_card_limit : ℕ
  pub audit_link : LinkAuditInput → Result ResolutionError CaseLinkAuditOutput
  pub resolve_dropped :
      List DroppedLink
      → CaseResolutionOutput
      → Result ResolutionError (CaseResolutionOutput × Option ℕ)

module _ (services : Services) (article : Article) (card : ArticleCard)
    (candidates : List Candidate) (t : CaseTables) where
  -- _run_case_link_audit: the sample of the Case's cards fails for a limit of 0.
  unfoldable pub run_case_link_audit : Case → Candidate → Result ResolutionError CaseLinkAuditOutput
  unfolding first_latest_sample load_case_article_cards
  run_case_link_audit case candidate =
      elim (first_latest_sample (load_case_article_cards case.id t)
        services.link_audit_card_limit) [
          | none ↦ err no_card_limit
          | some cards ↦ services.audit_link (record {
            article = article;
            card = card;
            case = case;
            candidate = candidate;
            article_cards = cards;
          })
        ]

  -- One link of the loop.
  unfoldable pub recheck_link : CaseLinkDecision → Result ResolutionError LinkVerdict
  unfolding run_case_link_audit candidate_of get_active_case
  recheck_link link = elim (services.uuid link.case_id) [
    | none ↦ err (invalid_uuid link.case_id)
    | some case_id ↦ elim (get_active_case case_id t) [
      | none ↦ ok (
          dropped (record {
            case_id = link.case_id;
            link_reason_uk = link.link_reason_uk;
            confidence = link.confidence;
            audit_outcome = drop_link;
            audit_reason_uk = missing_reason;
            audit_diagnosis = none;
            candidate = candidate_of candidates link.case_id;
          }))
      | some case ↦ elim (candidate_of candidates link.case_id) [
        | none ↦ err (unknown_candidate link.case_id)
        | some candidate ↦ do
          decision ← run_case_link_audit case candidate
          ok (of_audit link candidate decision decision.outcome)
      ]
    ]
  ]

  -- The loop: the links that are kept, and the dropped ones.
  unfoldable pub recheck_links :
      List CaseLinkDecision → Result ResolutionError (List CaseLinkDecision × List DroppedLink)
  unfolding recheck_link
  recheck_links [] = ok ([], [])
  recheck_links (link ∷ links) = do
    verdict ← recheck_link link
    rest ← recheck_links links
    ok (with_verdict link verdict rest)
