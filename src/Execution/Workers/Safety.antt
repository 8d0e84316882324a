-- ===== src/Execution/Workers/Safety.antt =====
-- What no interleaving of the workers of a cycle can break.
use shkandal.Prelude.{
  ℕ, refl, arith, some, [], true, false, zero, suc, ◌∷◌, Bool, List, length, any, ◌≡◌, ◌++◌, ◌+◌,
  String, max, ◌≤◌, inl, inr, length-append, Bool-cases, sym, subst,
}
use shkandal.Execution.{
  execute, claim_try, defer_rate_limited_job, MlConfig, defer_transient_dependency_job, Database,
  ClaimWorld, HandlerResult, Executor, llm_rate_limit, superseded_or_busy, vector_store_unavailable,
  llm_dependency_unavailable, other_exception, handled, may_claim,
}
use shkandal.Execution.Workers.{
  cases, entities, events, Worker, is_claiming, tasks, claiming, holds_limit, looping, start,
  after_try, waiting, with_job, executing, Cycle, locking, returned, Namespace, same_namespace,
  namespace_of, Step, loop_test, take_claim_lock, Runs, try_claim, step, take_limit, started,
  handler_ends,
}
use shkandal.Jobs.{StoreConfig, ClaimedJob, Instant}

bit : Bool → ℕ
bit true = 1
bit false = 0

unfoldable pub count {ℓ} : {A : Type ℓ} → (A → Bool) → List A → ℕ
unfolding bit
count p [] = 0
count p (x ∷ xs) = bit (p x) + count p xs

count-append {ℓ} :
    {A : Type ℓ} (p : A → Bool) (xs ys : List A) → count p (xs ++ ys) ≡ count p xs + count p ys
unfolding count
count-append p [] ys = omega arith
count-append p (x ∷ xs) ys = omega (arith, count-append p xs ys)

count-none {ℓ} : {A : Type ℓ} (p : A → Bool) (xs : List A) → any p xs ≡ false → count p xs ≡ 0
unfolding count bit
count-none p [] h = refl
count-none p (x ∷ xs) h = ground (arith, count-none p xs)

-- The worker has a job that it did not finish.
unfoldable pub has_job : Worker → Bool
has_job looping = false
has_job locking = false
has_job (claiming attempted) = false
has_job (waiting job) = true
has_job (executing job) = true
has_job returned = false

-- The number of workers; the claims within the batch, the one that is under way counted; one holder
-- of the claim lock; every claimed job still with a worker, or counted at most once; one handler in
-- each namespace.
unfoldable pub IsSafe : MlConfig → Cycle → Type 0
unfolding count has_job is_claiming holds_limit
IsSafe settings c =
    (length c.workers ≡ max 1 settings.worker_concurrency)
    × c.executor.claimed_jobs + count is_claiming c.workers ≤ settings.claim_batch_size
    × count is_claiming c.workers ≤ 1
    × c.executor.processed_jobs + c.executor.failed_jobs + count has_job c.workers
      ≤ c.executor.claimed_jobs
    × ((n : Namespace) → count (holds_limit n) c.workers ≤ 1)

count-tasks : (p : Worker → Bool) (n : ℕ) → p looping ≡ false → count p (tasks n) ≡ 0
unfolding count bit tasks
count-tasks p zero h = refl
count-tasks p (suc n) h = rw h (omega (arith, count-tasks p n h))

length-tasks : (n : ℕ) → length (tasks n) ≡ n
unfolding tasks
length-tasks zero = refl
length-tasks (suc n) = omega (arith, length-tasks n)

start-IsSafe : (settings : MlConfig) (db : Database) → IsSafe settings (start settings db)
unfolding IsSafe start has_job is_claiming holds_limit
start-IsSafe settings db =
    let n = max 1 settings.worker_concurrency in
    (
      length-tasks n,
      omega (arith, count-tasks is_claiming n refl),
      omega (arith, count-tasks is_claiming n refl),
      omega (arith, count-tasks has_job n refl),
      λ m. omega (arith, count-tasks (holds_limit m) n refl),
    )

execute-counts :
    (settings : MlConfig) (store : StoreConfig) (randrange : ℕ → ℕ) (job : ClaimedJob)
    (result : HandlerResult) (now : Instant) (s s' : Executor)
    → execute settings store randrange job result now s ≡ some s'
    → (s'.claimed_jobs ≡ s.claimed_jobs)
      × (s'.processed_jobs + s'.failed_jobs ≤ s.processed_jobs + s.failed_jobs + 1)
unfolding execute defer_rate_limited_job defer_transient_dependency_job
execute-counts settings store randrange job handled now s s' e = ground arith
execute-counts settings store randrange job (llm_rate_limit retry message) now s s' e = ground arith
execute-counts settings store randrange job (superseded_or_busy message) now s s' e = ground arith
execute-counts settings store randrange job (vector_store_unavailable message) now s s' e =
    ground arith
execute-counts settings store randrange job (llm_dependency_unavailable message) now s s' e =
    ground arith
execute-counts settings store randrange job (other_exception message class_name) now s s' e =
    ground arith

claim_try-counts :
    (settings : MlConfig) (schedule : List String) (w : ClaimWorld) (attempted : List String)
    (s : Executor)
    → let (tried, s') = claim_try settings schedule w attempted s in
      (s'.claimed_jobs + bit (is_claiming (after_try tried)) ≤ s.claimed_jobs + 1)
      × (s'.claimed_jobs ≡ s.claimed_jobs + bit (has_job (after_try tried)))
      × (s'.processed_jobs ≡ s.processed_jobs)
      × (s'.failed_jobs ≡ s.failed_jobs)
      × ((n : Namespace) → holds_limit n (after_try tried) ≡ false)
unfolding claim_try bit is_claiming has_job after_try with_job holds_limit
claim_try-counts settings schedule w attempted s = ground arith

-- A worker that moves from `w` to `w'` keeps a cycle safe when the executor's counts move along.
moved-IsSafe :
    (settings : MlConfig) (before after : List Worker) (s s' : Executor) (w w' : Worker)
    → IsSafe settings (record { executor = s; workers = before ++ w ∷ after })
    → s'.claimed_jobs + bit (is_claiming w')
      ≤ max s.claimed_jobs (s.claimed_jobs + bit (is_claiming w))
    → count is_claiming before + (bit (is_claiming w') + count is_claiming after) ≤ 1
    → s'.processed_jobs + s'.failed_jobs + bit (has_job w') + s.claimed_jobs
      ≤ s.processed_jobs + s.failed_jobs + bit (has_job w) + s'.claimed_jobs
    → ((n : Namespace) → count (holds_limit n) (before ++ w' ∷ after) ≤ 1)
    → IsSafe settings (record { executor = s'; workers = before ++ w' ∷ after })
unfolding IsSafe count
moved-IsSafe settings before after s s' w w' safe claims lock jobs limits = (
  omega (arith, safe.0, length-append before (w ∷ after), length-append before (w' ∷ after)),
  omega (
    arith,
    safe.1,
    count-append is_claiming before (w ∷ after),
    count-append is_claiming before (w' ∷ after),
  ),
  omega (arith, count-append is_claiming before (w' ∷ after)),
  omega (
    arith,
    safe.3,
    count-append has_job before (w ∷ after),
    count-append has_job before (w' ∷ after),
  ),
  limits,
)

-- A worker that holds no semaphore afterwards leaves the semaphores as they were, or frees one.
limits-kept :
    (before after : List Worker) (w w' : Worker)
    → ((n : Namespace) → holds_limit n w' ≡ false)
    → ((n : Namespace) → count (holds_limit n) (before ++ w ∷ after) ≤ 1)
    → (n : Namespace) → count (holds_limit n) (before ++ w' ∷ after) ≤ 1
unfolding count bit
limits-kept before after w w' free limits n =
    rw (count-append (holds_limit n) before (w' ∷ after), free n)
      (omega (arith, limits n, count-append (holds_limit n) before (w ∷ after)))

same_namespace-eq : (a b : Namespace) → same_namespace a b ≡ true → a ≡ b
unfolding same_namespace
same_namespace-eq cases cases h = refl
same_namespace-eq cases entities h = cc
same_namespace-eq cases events h = cc
same_namespace-eq entities cases h = cc
same_namespace-eq entities entities h = refl
same_namespace-eq entities events h = cc
same_namespace-eq events cases h = cc
same_namespace-eq events entities h = cc
same_namespace-eq events events h = refl

-- A worker that takes the semaphore `m`, which nobody holds.
limits-taken :
    (before after : List Worker) (m : Namespace) (job : ClaimedJob)
    → any (holds_limit m) (before ++ waiting job ∷ after) ≡ false
    → namespace_of job.job_type ≡ some m
    → ((n : Namespace) → count (holds_limit n) (before ++ waiting job ∷ after) ≤ 1)
    → (n : Namespace) → count (holds_limit n) (before ++ executing job ∷ after) ≤ 1
unfolding count bit holds_limit
limits-taken before after m job free own limits n =
    let old = count-append (holds_limit n) before (waiting job ∷ after) in
    let new = count-append (holds_limit n) before (executing job ∷ after) in
    let held : holds_limit n (executing job) ≡ same_namespace n m = rw (holds_limit, own) refl in
    elim (Bool-cases (same_namespace n m)) [
      | inl same ↦
          let none_held = count-none (holds_limit m) (before ++ waiting job ∷ after) free in
          let none_of_n =
            subst (λ k. count (holds_limit k) (before ++ waiting job ∷ after) ≡ 0)
              (sym (same_namespace-eq n m same)) none_held in
          rw (new, held, same) (omega (arith, none_of_n, old))
      | inr other ↦ rw (new, held, other) (omega (arith, limits n, old))
    ]

bit_le : (b : Bool) → bit b ≤ 1
unfolding bit
bit_le true = omega arith
bit_le false = omega arith

-- The worker that gets the claim lock while the batch has room.
claims-IsSafe :
    (settings : MlConfig) (before after : List Worker) (s : Executor)
    → suc s.claimed_jobs ≤ settings.claim_batch_size
    → count is_claiming before + count is_claiming after ≡ 0
    → IsSafe settings (record { executor = s; workers = before ++ locking ∷ after })
    → IsSafe settings (record { executor = s; workers = before ++ claiming [] ∷ after })
unfolding IsSafe count bit is_claiming has_job holds_limit
claims-IsSafe settings before after s room no_claims safe = (
  omega (
    arith,
    safe.0,
    length-append before (locking ∷ after),
    length-append before (claiming [] ∷ after),
  ),
  omega (arith, count-append is_claiming before (claiming [] ∷ after)),
  omega (arith, count-append is_claiming before (claiming [] ∷ after)),
  omega (
    arith,
    safe.3,
    count-append has_job before (locking ∷ after),
    count-append has_job before (claiming [] ∷ after),
  ),
  limits-kept before after locking (claiming []) (λ n. refl) safe.4,
)

Step-IsSafe :
    (settings : MlConfig) (schedule : List String) (randrange : ℕ → ℕ) {c d : Cycle}
    → Step settings schedule randrange c d
    → IsSafe settings c
    → IsSafe settings d
unfolding IsSafe bit is_claiming has_job holds_limit may_claim
Step-IsSafe settings schedule randrange (loop_test before after s) safe =
    elim (Bool-cases s.stop_claiming) [
      | inl stop ↦ rw stop (
          moved-IsSafe settings before after s s looping returned safe (omega arith)
            (omega (arith, safe.2, count-append is_claiming before (looping ∷ after))) (omega arith)
            (limits-kept before after looping returned (λ n. refl) safe.4))
      | inr go ↦ rw go (
          moved-IsSafe settings before after s s looping locking safe (omega arith)
            (omega (arith, safe.2, count-append is_claiming before (looping ∷ after))) (omega arith)
            (limits-kept before after looping locking (λ n. refl) safe.4))
    ]
Step-IsSafe settings schedule randrange (take_claim_lock before after s free) safe =
    let no_claims = count-none is_claiming (before ++ locking ∷ after) free in
    let counted = count-append is_claiming before (locking ∷ after) in
    elim (Bool-cases (may_claim settings s)) [
      | inl may ↦
          let room : suc s.claimed_jobs ≤ settings.claim_batch_size = ground arith in
          rw may
            (claims-IsSafe settings before after s room (omega (arith, no_claims, counted)) safe)
      | inr full ↦ rw full (
          moved-IsSafe settings before after s s locking returned safe (omega arith)
            (omega (arith, no_claims, counted)) (omega arith)
            (limits-kept before after locking returned (λ n. refl) safe.4))
    ]
Step-IsSafe settings schedule randrange (try_claim before after s attempted w) safe =
    let counts = claim_try-counts settings schedule w attempted s in
    let counted = count-append is_claiming before (claiming attempted ∷ after) in
    moved-IsSafe settings before after s (claim_try settings schedule w attempted s).1
      (claiming attempted) (after_try (claim_try settings schedule w attempted s).0) safe
      (omega (arith, counts.0))
      (omega (
        arith,
        safe.2,
        counted,
        bit_le (is_claiming (after_try (claim_try settings schedule w attempted s).0)),
      ))
      (omega (arith, counts.1, counts.2, counts.3))
      (limits-kept before after (claiming attempted)
        (after_try (claim_try settings schedule w attempted s).0) counts.4 safe.4)
Step-IsSafe settings schedule randrange (take_limit before after s n job own free) safe =
    moved-IsSafe settings before after s s (waiting job) (executing job) safe (omega arith)
      (omega (arith, safe.2, count-append is_claiming before (waiting job ∷ after))) (omega arith)
      (limits-taken before after n job free own safe.4)
Step-IsSafe settings schedule randrange (handler_ends before after s s' job store result now e)
      safe =
    let counts = execute-counts settings store randrange job result now s s' e in
    moved-IsSafe settings before after s s' (executing job) looping safe (omega (arith, counts.0))
      (omega (arith, safe.2, count-append is_claiming before (executing job ∷ after)))
      (omega (arith, counts.0, counts.1))
      (limits-kept before after (executing job) looping (λ n. refl) safe.4)

-- Whatever the order in which the workers of a cycle move, whatever the handlers do and whatever
-- the other processes lock: the cycle has max(1, worker_concurrency) workers, claims at most
-- claim_batch_size jobs, one worker at a time holds the claim lock, at most one handler runs in
-- each namespace, and the jobs counted as processed or failed with those that a worker still has
-- are at most the claimed ones.
pub Runs-IsSafe :
    (settings : MlConfig) (schedule : List String) (randrange : ℕ → ℕ) (db : Database) (c : Cycle)
    → Runs settings schedule randrange (start settings db) c
    → IsSafe settings c
Runs-IsSafe settings schedule randrange db c started = start-IsSafe settings db
Runs-IsSafe settings schedule randrange db c (step runs next) =
    Step-IsSafe settings schedule randrange next (Runs-IsSafe settings schedule randrange db _ runs)
