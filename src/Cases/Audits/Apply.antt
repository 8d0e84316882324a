-- ===== src/Cases/Audits/Apply.antt =====
-- audits.py: _apply_decisive_audit as a whole, and _record_audit.
use shkandal.Prelude.{
  none, some, [], ◌∷◌, ◌++◌, true, false, String, List, Bool, Option, ℕ, map, ◌==◌, keep_if, ◌||◌,
  not, is_empty, ◌+◌, if◌then◌else◌,
}
use shkandal.Cases.{CaseTables}
use shkandal.Contracts.Audits.{
  coherent, split, inconclusive, CoherenceOutcome, CaseCoherenceAuditOutput, CaseAuditStory,
  original,
}
use shkandal.Results.{Result, ok, err, ◌>>=◌}
use shkandal.Text.{Text, text_eq}
use shkandal.Sql.Rows.{find_row, update_where}
use shkandal.Cases.Publication.{rebuild_case_entities, rebuild_case_events}
use shkandal.Planning.Tables.{CaseCoherenceAudit, Case}
use shkandal.Cases.Audits.Split.{open_cases, refresh_counts, clear_case, Placing, place_stories}
use shkandal.Jobs.{Instant}
use shkandal.Cases.Audits.{AuditError, no_original}

abbrev pub outcome_name : CoherenceOutcome → String
outcome_name coherent = "coherent"
outcome_name split = "split"
outcome_name inconclusive = "inconclusive"

abbrev pub is_split : CoherenceOutcome → Bool
is_split coherent = false
is_split split = true
is_split inconclusive = false

-- What an audit is written with: the Case, the revision it looked at, the run and the new ids.
pub record AuditWrite : Type 0 where
  pub uuid : Text → Option ℕ
  pub new_id : ℕ → ℕ
  pub audit_id : ℕ
  pub now : Instant
  pub case_id : ℕ
  pub evidence_revision : ℕ
  pub run_id : Option ℕ

module _ (write : AuditWrite) where
  abbrev pub audit_row : String → CaseCoherenceAudit
  audit_row outcome = record {
    id = write.audit_id;
    case_id = write.case_id;
    evidence_revision = write.evidence_revision;
    outcome = outcome;
    llm_run_id = write.run_id;
    created_at = write.now;
  }

  unfoldable pub add_audit : String → CaseTables → CaseTables
  add_audit outcome t = record t { coherence_audits = t.coherence_audits ++ audit_row outcome ∷ [] }

  unfoldable pub update_case : (Case → Case) → CaseTables → CaseTables
  unfolding update_where
  update_case f t = record t { cases = update_where (λ c. c.id == write.case_id) f t.cases }

  unfoldable pub record_audit : CaseCoherenceAuditOutput → CaseTables → CaseTables
  unfolding add_audit update_case
  record_audit output t = add_audit (outcome_name output.outcome) (
      update_case
        (λ c. record c {
          last_audited_revision = write.evidence_revision;
          last_audited_at = some write.now;
        })
        t)

  -- The title and the summary of the original story, and the Cases of the other stories.
  unfoldable pub open_stories : CaseAuditStory → List (Text × Case) → CaseTables → CaseTables
  unfolding update_case
  open_stories story opened t =
      let t' =
        update_case
          (λ c. record c { title_uk = story.title_uk; summary_uk = some story.summary_uk }) t in
      record t' { cases = t'.cases ++ map (λ p. p.1) opened }

  -- The dict of the Cases by story.
  abbrev pub story_cases : List (Text × Case) → List (Text × ℕ)
  story_cases opened = (original, write.case_id) ∷ map (λ p. (p.0, p.1.id)) opened

  abbrev pub old_articles : CaseTables → List ℕ
  old_articles t =
      map (λ l. l.article_id) (keep_if (λ l. l.case_id == write.case_id) t.case_articles)

  -- The kept rows and the counts after the stories are placed, the revision and the audit's row.
  unfoldable pub finish_audit : CaseCoherenceAuditOutput → List ℕ → Placing → CaseTables
  unfolding rebuild_case_entities rebuild_case_events refresh_counts update_case add_audit
  finish_audit output targets p =
      let t = rebuild_case_events p.event_pairs (rebuild_case_entities p.entity_pairs p.tables) in
      let changed = is_split output.outcome || not (is_empty output.detached_articles) in
      let revision = write.evidence_revision + (if changed then 1 else 0) in
      add_audit (outcome_name output.outcome) (
        update_case
          (λ c. record c {
            evidence_revision = revision;
            last_audited_revision = revision;
            last_audited_at = some write.now;
          })
          (refresh_counts targets t))

  -- _apply_decisive_audit: the Cases that it touched, and the tables.
  unfoldable pub apply_decisive_audit :
      CaseCoherenceAuditOutput → CaseTables → Result AuditError (List ℕ × CaseTables)
  unfolding find_row open_cases open_stories clear_case place_stories finish_audit
  apply_decisive_audit output t =
      elim (find_row (λ s. text_eq s.story_ref original) output.stories) [
        | none ↦ err no_original
        | some story ↦
            let opened = open_cases write.new_id 0 write.now output.stories in
            let targets = write.case_id ∷ map (λ p. p.1.id) opened in
            do
              placed ←
                  place_stories write.uuid (old_articles t) write.run_id (story_cases opened)
                    output.stories
                    (record {
                      tables = clear_case write.case_id (open_stories story opened t);
                      entity_pairs = [];
                      event_pairs = [];
                    })
              ok (targets, finish_audit output targets placed)
      ]
