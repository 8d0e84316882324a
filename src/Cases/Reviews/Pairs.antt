-- ===== src/Cases/Reviews/Pairs.antt =====
-- _apply_pair of reviews.py: a pair of Cases after its duplicate audit. Ids of Cases are compared as
-- their texts are, since these have one length.
use shkandal.Prelude.{
  none, some, [], ◌∷◌, ◌++◌, true, false, String, ℕ, List, Bool, if◌then◌else◌, not, Option, ◌==◌,
  ◌&&◌, leb,
}
use shkandal.Cases.{CaseTables}
use shkandal.Cases.Resolution.Recheck.{get_active_case}
use shkandal.Cases.Reviews.{merge_order, merge_cases, duplicate_name, is_merge}
use shkandal.Contracts.Audits.{DuplicateOutcome}
use shkandal.Jobs.{Instant, Job}
use shkandal.Jobs.Enqueue.{enqueue_case_job}
use shkandal.Planning.{refresh_case_job}
use shkandal.Planning.Passes.{case_payload}
use shkandal.Planning.Tables.{Case}
use shkandal.Results.{Result, ok, err}
use shkandal.Sql.Rows.{find_row}

-- What _apply_pair takes from outside: whether it got the lock, the vector index, whose calls may
-- raise, and the clock and ids of the writes.
pub record PairServices : Type 0 where
  pub got_lock : Bool
  pub audit_id : ℕ
  pub upsert_case : Case → Option String
  pub delete_case : ℕ → Option String
  pub refresh_case_priority : ℕ
  pub new_job_id : ℕ
  pub now : Instant

-- How _apply_pair ends: without the lock, without two active Cases, with an error that rolls the
-- session back, or with the outcome that is recorded.
pub data PairEnd : Type 0 where
  pair_busy : PairEnd
  pair_not_active : PairEnd
  pair_failed : String → List Job → PairEnd
  pair_reviewed : String → CaseTables → List Job → PairEnd

-- The survivor as the merge has left it.
unfoldable pub survivor_after : Case → CaseTables → Case
unfolding find_row
survivor_after survivor t = elim (find_row (λ c. c.id == survivor.id) t.cases) [
  | none ↦ survivor
  | some c ↦ c
]

-- After a merge: the vectors of the two Cases, and a refresh job for the survivor.
unfoldable pub follow_merge : PairServices → Case → ℕ → List Job → Result String (List Job)
unfolding enqueue_case_job
follow_merge s survivor absorbed_id jobs = elim (s.upsert_case survivor) [
  | some message ↦ err message
  | none ↦ elim (s.delete_case absorbed_id) [
    | some message ↦ err message
    | none ↦
        elim (enqueue_case_job refresh_case_job survivor.id (case_payload survivor.id)
          s.refresh_case_priority none 3 s.new_job_id s.now jobs) [
            | none ↦ err "job insert conflicted but existing job was not found"
            | some (result, jobs') ↦ ok jobs'
          ]
  ]
]

-- The row of the audit; the smaller id stands first.
unfoldable pub add_pair : ℕ → Case → Case → ℕ → ℕ → String → Option ℕ → CaseTables → CaseTables
add_pair audit_id a b revision_a revision_b outcome run_id t =
    let a_first = leb a.id b.id in
    record t {
      duplicate_audits =
          t.duplicate_audits
          ++ record {
            id = audit_id;
            case_a_id = if a_first then a.id else b.id;
            case_b_id = if a_first then b.id else a.id;
            case_a_revision = if a_first then revision_a else revision_b;
            case_b_revision = if a_first then revision_b else revision_a;
            outcome = outcome;
            llm_run_id = run_id;
          }
            ∷ [];
    }

-- _apply_pair: one pair, for the revisions that were audited. The job store commits by itself, so its
-- table stands apart from the tables of the session.
unfoldable pub apply_pair :
    PairServices → ℕ → ℕ → ℕ → ℕ → DuplicateOutcome → Option ℕ → CaseTables → List Job → PairEnd
unfolding get_active_case merge_order merge_cases survivor_after follow_merge add_pair
apply_pair s case_id candidate_id revision_a revision_b output run_id t jobs =
    if not s.got_lock then pair_busy else elim (get_active_case case_id t) [
      | none ↦ pair_not_active
      | some a ↦ elim (get_active_case candidate_id t) [
        | none ↦ pair_not_active
        | some b ↦
            let current = a.evidence_revision == revision_a && b.evidence_revision == revision_b in
            let outcome = if current then duplicate_name output else "superseded" in
            let add = add_pair s.audit_id a b revision_a revision_b outcome run_id in
            let (survivor, absorbed) = merge_order a b in
            let merged = merge_cases survivor.id absorbed.id run_id t in
            elim (current && is_merge output) [
              | false ↦ pair_reviewed outcome (add t) jobs
              | true ↦ elim (follow_merge s (survivor_after survivor merged) absorbed.id jobs) [
                | err message ↦ pair_failed message jobs
                | ok jobs' ↦ pair_reviewed outcome (add merged) jobs'
              ]
            ]
      ]
    ]
