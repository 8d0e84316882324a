-- ===== src/Cases/Audits/Current.antt =====
-- What the planner sees of a Case after its audit is published.
use shkandal.Prelude.{
  none, some, [], inl, inr, true, false, ◌≡◌, refl, arith, In, ℕ, List, ◌<◌, All, ◌==◌, Bool-cases,
  ◌⊎◌, Option, Option-cases, sym, subst, map, if◌then◌else◌, not, ap, ==_iff, ◌∙◌,
}
use shkandal.Cases.{CaseTables}
use shkandal.Cases.Audits.{AuditError, is_inconclusive}
use shkandal.Cases.Audits.Apply.{
  apply_decisive_audit, finish_audit, update_case, add_audit, AuditWrite, record_audit,
}
use shkandal.Cases.Audits.Handle.{
  skipped, failed, was_superseded, published, AuditServices, publish_decisive, audit_write,
  upsert_affected, publish_audit,
}
use shkandal.Cases.Audits.Placement.{apply_decisive_audit-finish}
use shkandal.Cases.Audits.Split.{Placing}
use shkandal.Cases.Resolution.Recheck.{get_active_case}
use shkandal.Cases.Resolution.Writable.{get_active_case-In}
use shkandal.Contracts.Audits.{CaseCoherenceAuditOutput}
use shkandal.Planning.Queries.{due_for_audit}
use shkandal.Planning.Tables.{Case}
use shkandal.Results.{Result, ok, err}
use shkandal.Sql.Rows.{IsUnique, row_of_key, update_where-All}

-- The Case is another one, or not due for an audit.
abbrev pub IsSettled : ℕ → ℕ → Case → Type 0
IsSettled case_id cutoff c = ((c.id == case_id) ≡ false) ⊎ (due_for_audit cutoff c ≡ false)

published_eq :
    {o o' : CaseCoherenceAuditOutput} {l l' : List ℕ} {t t' : CaseTables}
    → published o l t ≡ published o' l' t'
    → t ≡ t'
published_eq q = cc

not_published {μ} :
    {C : Type μ} {e : AuditError} {o : CaseCoherenceAuditOutput} {l : List ℕ} {t : CaseTables}
    → failed e ≡ published o l t
    → C
not_published q = cc

not_skipped {μ} :
    {C : Type μ} {o : CaseCoherenceAuditOutput} {l : List ℕ} {t : CaseTables}
    → skipped ≡ published o l t
    → C
not_skipped q = cc

not_superseded {μ} :
    {C : Type μ} {o : CaseCoherenceAuditOutput} {l : List ℕ} {t t' : CaseTables}
    → was_superseded t' ≡ published o l t
    → C
not_superseded q = cc

module _ (s : AuditServices) (case_id cutoff : ℕ) (earlier : cutoff < s.now) where
  settled :
      (c : Case)
      → c.last_audited_revision ≡ c.evidence_revision
      → c.last_audited_at ≡ some s.now
      → due_for_audit cutoff c ≡ false
  unfolding due_for_audit
  settled c revision at = rw (revision, at) (ground (arith, earlier))

  finish_audit-settles :
      (revision : ℕ) (run_id : Option ℕ) (output : CaseCoherenceAuditOutput) (targets : List ℕ)
      (p : Placing)
      → All
          (IsSettled case_id cutoff)
          (finish_audit (audit_write s case_id revision run_id) output targets p).cases
  unfolding finish_audit update_case add_audit
  finish_audit-settles revision run_id output targets p =
      update_where-All (IsSettled case_id cutoff) (λ c. c.id == case_id) _ _
        (λ c m own. inr (settled _ refl refl)) (λ c other. inl other)

  apply_decisive_audit-settles :
      (revision : ℕ) (run_id : Option ℕ) (output : CaseCoherenceAuditOutput) (t : CaseTables)
      {r : List ℕ × CaseTables}
      → apply_decisive_audit (audit_write s case_id revision run_id) output t ≡ ok r
      → All (IsSettled case_id cutoff) r.1.cases
  apply_decisive_audit-settles revision run_id output t e =
      let (story, targets, placed, made, end, _) =
        apply_decisive_audit-finish (audit_write s case_id revision run_id) output t e in
      subst (λ q. All (IsSettled case_id cutoff) q.cases) end
        (finish_audit-settles revision run_id output targets placed)

  publish_decisive-settles :
      (revision : ℕ) (run_id : Option ℕ) (output out : CaseCoherenceAuditOutput) (t t' : CaseTables)
      (affected : List ℕ)
      → publish_decisive s (audit_write s case_id revision run_id) output t
        ≡ published out affected t'
      → All (IsSettled case_id cutoff) t'.cases
  unfolding publish_decisive
  publish_decisive-settles revision run_id output out t t' affected e =
      by_result (apply_decisive_audit (audit_write s case_id revision run_id) output t) refl
    where
      by_result :
          (result : Result AuditError (List ℕ × CaseTables))
          → apply_decisive_audit (audit_write s case_id revision run_id) output t ≡ result
          → All (IsSettled case_id cutoff) t'.cases
      by_result (err why) q = not_published (rw (publish_decisive, q) at e)
      by_result (ok (targets, done)) q = elim (Option-cases (upsert_affected s targets done)) [
        | inr (why, bad) ↦ not_published (rw (publish_decisive, q, bad) at e)
        | inl fine ↦
            subst (λ x. All (IsSettled case_id cutoff) x.cases)
              (published_eq (rw (publish_decisive, q, fine) at e))
              (apply_decisive_audit-settles revision run_id output t q)
      ]

  record_audit-settles :
      (revision : ℕ) (run_id : Option ℕ) (output : CaseCoherenceAuditOutput) (t : CaseTables)
      → ((c : Case) → In c t.cases → (c.id == case_id) ≡ true → c.evidence_revision ≡ revision)
      → All
          (IsSettled case_id cutoff)
          (record_audit (audit_write s case_id revision run_id) output t).cases
  unfolding record_audit update_case add_audit
  record_audit-settles revision run_id output t same =
      update_where-All (IsSettled case_id cutoff) (λ c. c.id == case_id) _ t.cases
        (λ c m own. inr (settled _ (sym (same c m own)) refl)) (λ c other. inl other)

  -- When the second session of an audit publishes its result, with unique ids of Cases, the evidence
  -- is still at the revision that the audit looked at, and afterwards the Case is not due for an audit
  -- in the planner's query for any cutoff before the time of the audit.
  pub publish_audit-IsSettled :
      (revision : ℕ) (r : CaseCoherenceAuditOutput × Option ℕ) (t : CaseTables)
      (out : CaseCoherenceAuditOutput) (affected : List ℕ) (t' : CaseTables)
      → IsUnique (map (λ c. c.id) t.cases)
      → publish_audit s case_id revision r t ≡ published out affected t'
      → ((case : Case) × (get_active_case case_id t ≡ some case)
          × (case.evidence_revision ≡ revision))
        × All (IsSettled case_id cutoff) t'.cases
  unfolding publish_audit
  publish_audit-IsSettled revision (output, run_id) t out affected t' unique e =
      elim (Bool-cases s.case_locked) [
        | inr busy ↦ not_published (rw (publish_audit, busy) at e)
        | inl case_lock ↦ elim (Bool-cases s.entity_locked) [
          | inr busy ↦ not_published (rw (publish_audit, case_lock, busy) at e)
          | inl entity_lock ↦ elim (Bool-cases s.event_locked) [
            | inr busy ↦ not_published (rw (publish_audit, case_lock, entity_lock, busy) at e)
            | inl event_lock ↦ by_case (rw (publish_audit, case_lock, entity_lock, event_lock) at e)
          ]
        ]
      ]
    where
      write : AuditWrite
      write = audit_write s case_id revision run_id

      the_case :
          (case : Case)
          → get_active_case case_id t ≡ some case
          → (c : Case) → In c t.cases
          → (c.id == case_id) ≡ true
          → c ≡ case
      the_case case active c m own =
          let (at, is_id) = get_active_case-In case_id t active in
          row_of_key (λ x. x.id) t.cases unique m at ((==_iff c.id case_id).0 own ∙ sym is_id)

      by_case :
          (elim (get_active_case case_id t) [
            | none ↦ skipped
            | some case ↦
                if not (case.evidence_revision == revision)
                then was_superseded (add_audit write "superseded" t)
                else if is_inconclusive output.outcome
                then published output [] (record_audit write output t)
                else publish_decisive s write output t
          ])
            ≡ published out affected t'
          → ((case : Case) × (get_active_case case_id t ≡ some case)
              × (case.evidence_revision ≡ revision))
            × All (IsSettled case_id cutoff) t'.cases
      by_case h = elim (Option-cases (get_active_case case_id t)) [
        | inl gone ↦ not_skipped (rw gone at h)
        | inr (case, active) ↦ elim (Bool-cases (case.evidence_revision == revision)) [
          | inr changed ↦ not_superseded (rw (active, changed) at h)
          | inl current ↦
              let now_at = (==_iff case.evidence_revision revision).0 current in
              (
                (case, active, now_at),
                elim (Bool-cases (is_inconclusive output.outcome)) [
                  | inl undecided ↦
                      subst (λ x. All (IsSettled case_id cutoff) x.cases)
                        (published_eq (rw (active, current, undecided) at h))
                        (record_audit-settles revision run_id output t (λ c m own.
                          ap (λ x. x.evidence_revision) (the_case case active c m own) ∙ now_at))
                  | inr decisive ↦
                      publish_decisive-settles revision run_id output out t t' affected
                        (rw (active, current, decisive) at h)
                ],
              )
        ]
      ]
