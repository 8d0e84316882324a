-- ===== src/Cases/Audits/Placed.antt =====
-- Which articles the Cases have after _apply_decisive_audit.
use shkandal.Prelude.{◌≡◌, ap, ◌∙◌, ℕ, List, any, ◌||◌, ◌==◌, ◌&&◌, not, map}
use shkandal.Cases.{CaseTables}
use shkandal.Cases.Audits.Apply.{apply_decisive_audit, AuditWrite, story_cases}
use shkandal.Cases.Audits.Placement.{apply_decisive_audit-by_dict}
use shkandal.Cases.Audits.Split.{open_cases}
use shkandal.Cases.Audits.Stories.{
  story_targets, target_placements, story_targets-IsKnown, placements-targets,
}
use shkandal.Cases.Publication.Views.{in_pairs}
use shkandal.Cases.Resolution.{is_link}
use shkandal.Contracts.Audits.{CaseCoherenceAuditOutput}
use shkandal.Results.{ok}
use shkandal.Sql.Rows.{IsUnique}

-- After an audit whose stories have different references is applied, an article is in a Case exactly
-- when the Case is the audited one and the original story lists the article, or the Case has the
-- n-th new id and the n-th of the other stories lists it, or the Case is not the audited one and had
-- the article before.
pub apply_decisive_audit-links :
    (write : AuditWrite) (output : CaseCoherenceAuditOutput) (t : CaseTables) (affected : List ℕ)
    (t' : CaseTables) (k a : ℕ)
    → IsUnique (map (λ s. s.story_ref) output.stories)
    → apply_decisive_audit write output t ≡ ok (affected, t')
    → any (is_link k a) t'.case_articles ≡ (
        in_pairs k a
          (target_placements write.uuid (story_targets write.case_id write.new_id 0 output.stories))
        || (not (k == write.case_id) && any (is_link k a) t.case_articles))
apply_decisive_audit-links write output t affected t' k a distinct e =
    let opened = open_cases write.new_id 0 write.now output.stories in
    let known =
      story_targets-IsKnown write.case_id write.new_id write.now 0 output.stories distinct in
    apply_decisive_audit-by_dict write output t affected t' k a e
    ∙ ap
        (λ pairs.
          in_pairs k a pairs || (not (k == write.case_id) && any (is_link k a) t.case_articles))
        (placements-targets write.case_id write.new_id write.now write.uuid
          (story_cases write opened) 0 output.stories known)
