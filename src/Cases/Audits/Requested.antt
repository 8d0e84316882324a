-- ===== src/Cases/Audits/Requested.antt =====
-- The jobs of the Cases that a published audit has touched.
use shkandal.Prelude.{
  none, some, [], ◌∷◌, true, false, inl, inr, ◌≡◌, refl, arith, ℕ, String, List, Option, any, All,
  map, Bool-cases, Option-cases, subst, sym, ◌+◌,
}
use shkandal.Cases.{CaseTables}
use shkandal.Cases.Audits.{is_inconclusive}
use shkandal.Cases.Audits.Apply.{apply_decisive_audit, AuditWrite}
use shkandal.Cases.Audits.FollowUp.{enqueue_audited, after_audit}
use shkandal.Cases.Audits.Handle.{
  published, AuditServices, handle_audit, publish_audit, audit_write, publish_decisive,
  prepare_audit, run_prepared,
}
use shkandal.Cases.Audits.Placement.{apply_decisive_audit-finish}
use shkandal.Cases.Audits.Split.{open_cases}
use shkandal.Cases.Audits.Stories.{story_targets}
use shkandal.Contracts.Audits.{CaseCoherenceAuditOutput, CaseAuditStory, original}
use shkandal.Jobs.{Instant, Job, ClaimedJob}
use shkandal.Jobs.Enqueue.{enqueue_case_job, EnqueueRequest, of_case, Subject}
use shkandal.Jobs.Pending.{is_pending, enqueue_job-CallPending}
use shkandal.Planning.{refresh_case_job, audit_case_public_interest_job}
use shkandal.Planning.Passes.{case_payload}
use shkandal.Results.{ok, Result-cases}
use shkandal.Text.{text_eq}

-- The jobs of a Case that an audit has touched.
abbrev pub HasReviews : List Job → ℕ → Type 0
HasReviews jobs case_id =
    (any (is_pending refresh_case_job (of_case case_id)) jobs ≡ true)
    × (any (is_pending audit_case_public_interest_job (of_case case_id)) jobs ≡ true)

module _ (refresh_case_priority : ℕ) (new_id : String → ℕ → ℕ) (now : Instant) where
  abbrev request_for : String → ℕ → ℕ → EnqueueRequest
  request_for job_type priority case_id = record {
    job_type = job_type;
    subject = of_case case_id;
    payload = case_payload case_id;
    priority = priority;
    run_after = none;
    max_attempts = 3;
    increment_revision = true;
    requeue_failed = true;
    requeue_succeeded = false;
  }

  enqueue_audited-HasReviews :
      (affected : List ℕ) (jobs : List Job)
      → (jobs' : List Job) × (enqueue_audited refresh_case_priority new_id now affected jobs
          ≡ some jobs')
        × ((job_type : String) (s : Subject)
            → any (is_pending job_type s) jobs ≡ true
            → any (is_pending job_type s) jobs' ≡ true)
        × All (HasReviews jobs') affected
  unfolding enqueue_audited enqueue_case_job
  enqueue_audited-HasReviews [] jobs = (jobs, refl, (λ job_type s h. h), tt)
  enqueue_audited-HasReviews (case_id ∷ affected) jobs =
      let refresh = request_for refresh_case_job refresh_case_priority case_id in
      let interest = request_for audit_case_public_interest_job 0 case_id in
      let (first, jobs', e, (kept, own)) =
        enqueue_job-CallPending refresh (new_id refresh_case_job case_id) now jobs refl in
      let (second, jobs'', f, (kept', own')) =
        enqueue_job-CallPending interest (new_id audit_case_public_interest_job case_id) now jobs'
          refl in
      let (last, g, kept'', rest) = enqueue_audited-HasReviews affected jobs'' in
      (
        last,
        rw (enqueue_audited, e, f, g) refl,
        (λ t s h. kept'' t s (kept' t s (kept t s h))),
        (
          (
            kept'' refresh_case_job (of_case case_id)
                (kept' refresh_case_job (of_case case_id) own),
            kept'' audit_case_public_interest_job (of_case case_id) own',
          ),
          rest,
        ),
      )

-- The Cases that a decisive audit reports as touched are those of its stories.
affected-targets :
    (P : ℕ → Type 0) (case_id : ℕ) (new_id : ℕ → ℕ) (now : Instant) (n : ℕ)
    (stories : List CaseAuditStory)
    → P case_id
    → All P (map (λ p. p.1.id) (open_cases new_id n now stories))
    → All (λ p. P p.0) (story_targets case_id new_id n stories)
unfolding open_cases story_targets
affected-targets P case_id new_id now n [] own others = tt
affected-targets P case_id new_id now n (s ∷ stories) own others =
    elim (Bool-cases (text_eq s.story_ref original)) [
      | inl is_own ↦
          rw (is_own, story_targets)
            (own, affected-targets P case_id new_id now n stories own (rw is_own at others))
      | inr other ↦
          let (one, rest) = rw other at others in
          rw (other, story_targets)
            (one, affected-targets P case_id new_id now (n + 1) stories own rest)
    ]

apply_decisive_audit-affected :
    (write : AuditWrite) (output : CaseCoherenceAuditOutput) (t : CaseTables) {affected : List ℕ}
    {t' : CaseTables}
    → apply_decisive_audit write output t ≡ ok (affected, t')
    → write.case_id ∷ map (λ p. p.1.id) (open_cases write.new_id 0 write.now output.stories)
      ≡ affected
apply_decisive_audit-affected write output t e =
    let (story, targets, placed, made, end, tie) = apply_decisive_audit-finish write output t e in
    tie

module _ (s : AuditServices) (case_id revision : ℕ) where
  publish_decisive-applied :
      (write : AuditWrite) (output out : CaseCoherenceAuditOutput) (t t' : CaseTables)
      (affected : List ℕ)
      → publish_decisive s write output t ≡ published out affected t'
      → (output ≡ out) × (apply_decisive_audit write output t ≡ ok (affected, t'))
  unfolding publish_decisive
  publish_decisive-applied write output out t t' affected e = ground arith

  publish_audit-applied :
      (r : CaseCoherenceAuditOutput × Option ℕ) (t : CaseTables) (out : CaseCoherenceAuditOutput)
      (affected : List ℕ) (t' : CaseTables)
      → publish_audit s case_id revision r t ≡ published out affected t'
      → is_inconclusive out.outcome ≡ false
      → publish_decisive s (audit_write s case_id revision r.1) r.0 t ≡ published out affected t'
  unfolding publish_audit
  publish_audit-applied (output, run_id) t out affected t' e decisive = ground arith

-- How a handler of a Case job that publishes an audit got there.
handle_audit-published :
    (s : AuditServices) (job : ClaimedJob) (before t : CaseTables) (case_id : ℕ)
    (out : CaseCoherenceAuditOutput) (affected : List ℕ) (t' : CaseTables)
    → job.case_id ≡ some case_id
    → handle_audit s job before t ≡ published out affected t'
    → (revision : ℕ) × (r : CaseCoherenceAuditOutput × Option ℕ) × (publish_audit s case_id revision
          r t
        ≡ published out affected t')
unfolding handle_audit
handle_audit-published s job before t case_id out affected t' own e =
    elim (Option-cases (prepare_audit s case_id before)) [
      | inl nothing ↦ absurd (ground arith)
      | inr (p, ready) ↦ elim (Result-cases (run_prepared s p)) [
        | inl (why, bad) ↦ absurd (ground arith)
        | inr (r, good) ↦ (p.case.evidence_revision, r, ground arith)
      ]
    ]

-- When the handler of a Case's audit publishes a coherent audit or a split, the jobs that follow its
-- commit are enqueued without an error, and then the Case of each story, the audited Case and the new
-- ones, has a refresh job and a public-interest job that are queued or running, also where it had
-- such a job that was finished.
pub handle_audit-HasReviews :
    (s : AuditServices) (job : ClaimedJob) (before t : CaseTables) (case_id : ℕ)
    (out : CaseCoherenceAuditOutput) (affected : List ℕ) (t' : CaseTables)
    (refresh_case_priority : ℕ) (new_job_id : String → ℕ → ℕ) (now : Instant) (jobs : List Job)
    → job.case_id ≡ some case_id
    → is_inconclusive out.outcome ≡ false
    → handle_audit s job before t ≡ published out affected t'
    → (jobs' : List Job) × (after_audit refresh_case_priority new_job_id now
          (handle_audit s job before t)
          jobs
        ≡ some jobs')
      × HasReviews jobs' case_id
      × All (λ p. HasReviews jobs' p.0) (story_targets case_id s.new_id 0 out.stories)
unfolding after_audit
handle_audit-HasReviews s job before t case_id out affected t' refresh_case_priority new_job_id now
      jobs own decisive e =
    let (revision, r, second) =
      handle_audit-published s job before t case_id out affected t' own e in
    let write = audit_write s case_id revision r.1 in
    let (same, applied) =
      publish_decisive-applied s case_id revision write r.0 out t t' affected
        (publish_audit-applied s case_id revision r t out affected t' second decisive) in
    let (jobs', done, kept, reviews) =
      enqueue_audited-HasReviews refresh_case_priority new_job_id now affected jobs in
    let reviewed =
      subst (All (HasReviews jobs')) (sym (apply_decisive_audit-affected write r.0 t applied))
        reviews in
    (
      jobs',
      rw e done,
      reviewed.0,
      subst (λ o. All (λ p. HasReviews jobs' p.0) (story_targets case_id s.new_id 0 o.stories)) same
          (affected-targets (HasReviews jobs') case_id s.new_id s.now 0 r.0.stories reviewed.0
            reviewed.1),
    )
