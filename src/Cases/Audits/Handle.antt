-- ===== src/Cases/Audits/Handle.antt =====
-- CaseCoherenceAuditJobHandler.handle: an audit is prepared without locks and then written under the
-- locks, unless the evidence has changed. The tables of the two sessions are two states: other
-- workers may have written between them.
use shkandal.Prelude.{
  none, some, [], ◌∷◌, ℕ, List, Option, map, ◌==◌, Bool, if◌then◌else◌, is_empty, not, String,
}
use shkandal.Cases.{CaseTables}
use shkandal.Contracts.Audits.{CaseCoherenceAuditOutput}
use shkandal.Results.{Result, ok, err, ◌>>=◌}
use shkandal.Planning.Tables.{Case}
use shkandal.Sql.Rows.{find_row}
use shkandal.Cases.Audits.Reconcile.{run_audit}
use shkandal.Cases.Resolution.Recheck.{get_active_case}
use shkandal.Cases.Audits.{
  AuditError, validate_article_coverage, no_case_id, Invoke, AuditCard, card_ids, index_refused,
  bad_coverage, superseded, is_inconclusive,
}
use shkandal.Jobs.{ClaimedJob, Instant}
use shkandal.Cases.Audits.Apply.{apply_decisive_audit, AuditWrite, add_audit, record_audit}
use shkandal.Text.{Text}
use shkandal.Cases.Evidence.{load_case_article_cards}

-- What the handler takes from outside; the batch size is the larger of the two settings.
pub record AuditServices : Type 0 where
  pub str : ℕ → Text
  pub invoke : Case → Invoke
  pub card_batch_size : ℕ
  pub case_locked : Bool
  pub entity_locked : Bool
  pub event_locked : Bool
  pub uuid : Text → Option ℕ
  pub new_id : ℕ → ℕ
  pub audit_id : ℕ
  pub now : Instant
  pub upsert_case : Case → Option String

-- What the first session reads: the Case, with its revision, and its cards.
pub record Prepared : Type 0 where
  pub case : Case
  pub cards : List AuditCard

-- How the handler ends: nothing to do, an error after which the session is rolled back, or a commit:
-- of the row of a superseded audit, which then raises, or of an audit with the Cases it touched.
pub data AuditEnd : Type 0 where
  skipped : AuditEnd
  failed : AuditError → AuditEnd
  was_superseded : CaseTables → AuditEnd
  published : CaseCoherenceAuditOutput → List ℕ → CaseTables → AuditEnd

module _ (s : AuditServices) where
  unfoldable pub prepare_audit : ℕ → CaseTables → Option Prepared
  unfolding get_active_case load_case_article_cards
  prepare_audit case_id t = elim (get_active_case case_id t) [
    | none ↦ none
    | some case ↦
        let cards =
          map
            (λ c. record {
              article_id = s.str c.article_id;
              title_uk = c.title_uk;
              summary_uk = c.summary_uk;
              reason_uk = none;
            })
            (load_case_article_cards case.id t) in
        if is_empty cards then none else some (record { case = case; cards = cards })
  ]

  abbrev pub audit_write : ℕ → ℕ → Option ℕ → AuditWrite
  audit_write case_id evidence_revision run_id = record {
    uuid = s.uuid;
    new_id = s.new_id;
    audit_id = s.audit_id;
    now = s.now;
    case_id = case_id;
    evidence_revision = evidence_revision;
    run_id = run_id;
  }

  unfoldable pub upsert_affected : List ℕ → CaseTables → Option AuditError
  unfolding find_row
  upsert_affected [] t = none
  upsert_affected (case_id ∷ case_ids) t =
      let rest = upsert_affected case_ids t in
      elim (find_row (λ c. c.id == case_id) t.cases) [
        | none ↦ rest
        | some case ↦ elim (s.upsert_case case) [
          | some message ↦ some (index_refused message)
          | none ↦ rest
        ]
      ]

  unfoldable pub publish_decisive : AuditWrite → CaseCoherenceAuditOutput → CaseTables → AuditEnd
  unfolding apply_decisive_audit upsert_affected
  publish_decisive write output t = elim (apply_decisive_audit write output t) [
    | err e ↦ failed e
    | ok (affected, t') ↦ elim (upsert_affected affected t') [
      | some e ↦ failed e
      | none ↦ published output affected t'
    ]
  ]

  -- The second session, for the output of the audit of a Case at a revision.
  unfoldable pub publish_audit : ℕ → ℕ → CaseCoherenceAuditOutput × Option ℕ → CaseTables → AuditEnd
  unfolding get_active_case add_audit record_audit publish_decisive
  publish_audit case_id evidence_revision (output, run_id) t =
      let write = audit_write case_id evidence_revision run_id in
      if not s.case_locked
      then failed (superseded "case mutation lock is busy")
      else if not s.entity_locked
      then failed (superseded "Entity mutation lock is busy")
      else if not s.event_locked
      then failed (superseded "Event mutation lock is busy")
      else elim (get_active_case case_id t) [
        | none ↦ skipped
        | some case ↦
            if not (case.evidence_revision == evidence_revision)
            then was_superseded (add_audit write "superseded" t)
            else if is_inconclusive output.outcome
            then published output [] (record_audit write output t)
            else publish_decisive write output t
      ]

  -- The audit between the sessions, with the check of its coverage.
  unfoldable pub run_prepared : Prepared → Result AuditError (CaseCoherenceAuditOutput × Option ℕ)
  unfolding run_audit validate_article_coverage
  run_prepared p = do
    result ← run_audit (s.invoke p.case) s.card_batch_size p.cards
    elim (validate_article_coverage result.0 (card_ids p.cards)) [
      | some e ↦ err (bad_coverage e)
      | none ↦ ok result
    ]

  -- The handler for a job: the tables that the first session reads, and those of the second.
  unfoldable pub handle_audit : ClaimedJob → CaseTables → CaseTables → AuditEnd
  unfolding prepare_audit run_prepared publish_audit
  handle_audit job before t = elim job.case_id [
    | none ↦ failed no_case_id
    | some case_id ↦ elim (prepare_audit case_id before) [
      | none ↦ skipped
      | some p ↦ elim (run_prepared p) [
        | err e ↦ failed e
        | ok result ↦ publish_audit case_id p.case.evidence_revision result t
      ]
    ]
  ]
