-- ===== src/Execution/Schedule.antt =====
-- The schedule of an executor, and its index.
use native.Mathlib.Nat.{mod-lt}
use text.Mathlib.Text.{◌==◌ as str_eq}
use text.Mathlib.TextEquality.{eq_iff}
use shkandal.Prelude.{
  ℕ, refl, arith, [], true, false, inl, inr, ◌∷◌, ◌≡◌, String, List, Bool, any, All, keep_if, not,
  Bool-cases, ◌&&◌, ◌≢◌, ◌<◌, length, none, some, Option, rotate, ◌∙◌, ◌+◌, Option-cases,
}
use shkandal.Execution.{
  MlConfig, schedule_for, ClaimWorld, Executor, ClaimResult, returns, claim_next, may_claim,
  claim_of_type,
}
use shkandal.Execution.Claims.{first_claim, claim_next-rotates, tried}
use shkandal.Jobs.{ClaimedJob}
use shkandal.Planning.{job_type_schedule}
use shkandal.Sql.Rows.{IsUnique}

All-keep_if {κ} :
    (P : String → Type κ) (p : String → Bool) (xs : List String) → All P xs → All P (keep_if p xs)
All-keep_if P p [] h = tt
All-keep_if P p (x ∷ xs) h = elim (Bool-cases (p x)) [
  | inl kept ↦ rw kept (h.0, All-keep_if P p xs h.1)
  | inr out ↦ rw out (All-keep_if P p xs h.1)
]

IsUnique-keep_if : (p : String → Bool) (xs : List String) → IsUnique xs → IsUnique (keep_if p xs)
IsUnique-keep_if p [] u = tt
IsUnique-keep_if p (x ∷ xs) u = elim (Bool-cases (p x)) [
  | inl kept ↦ rw kept (All-keep_if _ p xs u.0, IsUnique-keep_if p xs u.1)
  | inr out ↦ rw out (IsUnique-keep_if p xs u.1)
]

-- The schedule of all job types has no repetition.
distinct_texts : List String → Bool
distinct_texts [] = true
distinct_texts (t ∷ ts) = not (any (λ u. str_eq u t) ts) && distinct_texts ts

distinct_texts-IsUnique : (ts : List String) → distinct_texts ts ≡ true → IsUnique ts
unfolding distinct_texts
distinct_texts-IsUnique [] h = tt
distinct_texts-IsUnique (t ∷ ts) h =
    (apart ts (ground arith), distinct_texts-IsUnique ts (ground arith))
  where
    apart : (us : List String) → any (λ u. str_eq u t) us ≡ false → All (λ u. u ≢ t) us
    apart [] k = tt
    apart (u ∷ us) k = (λ e. ground (arith, (eq_iff u t).1 e), apart us (ground arith))

job_type_schedule-IsUnique : IsUnique job_type_schedule
unfolding distinct_texts
job_type_schedule-IsUnique = distinct_texts-IsUnique job_type_schedule refl

schedule_for-IsUnique : (job_types : List String) → IsUnique (schedule_for job_types)
unfolding schedule_for
schedule_for-IsUnique job_types =
    IsUnique-keep_if (λ t. any (λ u. str_eq t u) job_types) job_type_schedule
      job_type_schedule-IsUnique

module _ (settings : MlConfig) (schedule : List String) (w : ClaimWorld) (s : Executor)
    (some_type : 0 < length schedule) where
  -- A claim that returned and left the index inside the schedule.
  Returned : ClaimResult → Type 0
  Returned r =
      (job : Option ClaimedJob) × (s' : Executor) × (r ≡ returns job s')
      × (s'.schedule_index < length schedule)

  first_claim-Returned :
      (types : List String) (k : ℕ) → Returned (first_claim settings schedule w s types k)
  unfolding first_claim Returned
  first_claim-Returned [] k =
      (none, tried settings schedule w s k, refl, mod-lt (s.schedule_index + k) some_type)
  first_claim-Returned (t ∷ rest) k = elim (Option-cases (claim_of_type settings w t s.db.jobs).0) [
    | inl e ↦ rw (first_claim, e) (first_claim-Returned rest (k + 1))
    | inr (job, e) ↦
        rw (first_claim, e) (some job, _, refl, mod-lt (s.schedule_index + (k + 1)) some_type)
  ]

-- For any set of job types, _claim_next returns from every executor whose index is inside its
-- schedule, with an index that is inside it again; the rounds allowed are enough.
pub claim_next-returns :
    (settings : MlConfig) (job_types : List String) (w : ClaimWorld) (s : Executor)
    → s.schedule_index < length (schedule_for job_types)
    → (job : Option ClaimedJob) × (s' : Executor) × (claim_next settings
          (schedule_for job_types)
          w
          s
        ≡ returns job s')
      × (s'.schedule_index < length (schedule_for job_types))
unfolding Returned claim_next
claim_next-returns settings job_types w s below =
    let schedule = schedule_for job_types in
    elim (Bool-cases (may_claim settings s)) [
      | inl may ↦
          let (job, s', e, inside) =
            first_claim-Returned settings schedule w s (omega arith)
              (rotate s.schedule_index schedule) 0 in
          (
            job,
            s',
            claim_next-rotates settings schedule w s (schedule_for-IsUnique job_types) below may
                ∙ e,
            inside,
          )
      | inr may_not ↦ (none, s, rw (claim_next, may_not) refl, below)
    ]
