-- ===== src/Jobs/Invariant.antt =====
-- The rows that the job store can leave behind: what holds of one row, and that no two rows share
-- an id.
pub mod Preserved
use shkandal.Sql.Rows.{IsUnique}
use shkandal.Jobs.{
  Job, Status, queued, running, succeeded, failed, cancelled, Option, List, ℕ, String,
}
use shkandal.Prelude.{none, some, [], ◌∷◌, ◌≤◌, All, map, ◌≢◌}

-- What the status says about the lease.
abbrev pub LeaseFits : Status → Option ℕ → Option String → ℕ → Type 0
LeaseFits running (some t) (some w) attempts = 1 ≤ attempts
LeaseFits running _ _ attempts = ⊥
LeaseFits _ none none attempts = Unit
LeaseFits _ _ _ attempts = ⊥

-- Exactly one subject column is set (the table's check constraint).
abbrev pub OneSubject : Option ℕ → Option ℕ → Type 0
OneSubject (some a) none = Unit
OneSubject none (some c) = Unit
OneSubject _ _ = ⊥

pub record IsSound (j : Job) : Type 0 where
  pub lease : LeaseFits j.status j.locked_at j.locked_by j.attempt_count
  pub subject : OneSubject j.article_id j.case_id
  pub attempts : j.attempt_count ≤ j.max_attempts
  pub revisions : j.completed_revision ≤ j.requested_revision
  pub requested : 1 ≤ j.requested_revision

abbrev pub ids : List Job → List ℕ
ids rows = map (λ j. j.id) rows

-- The key of the two partial unique indexes.
abbrev pub subject_key : Job → String × Option ℕ × Option ℕ
subject_key j = (j.job_type, j.article_id, j.case_id)

pub record IsWellFormed (rows : List Job) : Type 0 where
  pub sound : All IsSound rows
  pub unique : IsUnique (ids rows)
  pub one_row_per_subject : IsUnique (map subject_key rows)
