-- ===== src/Execution/Workers/Progress.antt =====
-- The workers of a cycle do not block each other: the claim lock and the semaphores of the
-- namespaces leave somebody able to move.
use shkandal.Prelude.{
  ℕ, refl, ap, arith, [], true, false, zero, suc, inl, inr, ◌∷◌, ◌≡◌, List, Bool, all, String, any,
  is_some, Option-cases, ◌++◌, ◌&&◌, Bool-cases, max, if◌then◌else◌, sym, subst, ◌||◌,
}
use shkandal.Execution.{
  MlConfig, ClaimTry, again, claimed_job, Database, exhausted, may_claim, claim_try, Executor,
  execute, ClaimWorld, handled,
}
use shkandal.Execution.Workers.{
  looping, locking, claiming, waiting, executing, returned, namespace_of, Worker, with_job,
  after_try, tasks, Namespace, Cycle, start, holds_limit, Step, loop_test, Runs, take_claim_lock,
  step, started, try_claim, take_limit, handler_ends, is_claiming,
}
use shkandal.Jobs.{ClaimedJob, StoreConfig, Instant}

-- A worker waits only for a semaphore that there is.
unfoldable pub is_placed : Worker → Bool
unfolding namespace_of
is_placed looping = true
is_placed locking = true
is_placed (claiming attempted) = true
is_placed (waiting job) = is_some (namespace_of job.job_type)
is_placed (executing job) = true
is_placed returned = true

unfoldable pub is_executing : Worker → Bool
is_executing looping = false
is_executing locking = false
is_executing (claiming attempted) = false
is_executing (waiting job) = false
is_executing (executing job) = true
is_executing returned = false

-- The worker's task has not ended.
unfoldable pub is_active_worker : Worker → Bool
is_active_worker looping = true
is_active_worker locking = true
is_active_worker (claiming attempted) = true
is_active_worker (waiting job) = true
is_active_worker (executing job) = true
is_active_worker returned = false

all-append : (p : Worker → Bool) (xs ys : List Worker) → all p (xs ++ ys) ≡ all p xs && all p ys
all-append p [] ys = refl
all-append p (x ∷ xs) ys = ground (arith, all-append p xs ys)

any-append : (p : Worker → Bool) (xs ys : List Worker) → any p (xs ++ ys) ≡ any p xs || any p ys
any-append p [] ys = refl
any-append p (x ∷ xs) ys = ground (arith, any-append p xs ys)

-- A worker that moves to a place of its own.
placed_again :
    (before after : List Worker) (w w' : Worker)
    → all is_placed (before ++ w ∷ after) ≡ true
    → is_placed w' ≡ true
    → all is_placed (before ++ w' ∷ after) ≡ true
placed_again before after w w' h k =
    ground
      (arith, all-append is_placed before (w ∷ after), all-append is_placed before (w' ∷ after))

with_job-is_placed : (job : ClaimedJob) → is_placed (with_job job) ≡ true
unfolding with_job is_placed
with_job-is_placed job = elim (Option-cases (namespace_of job.job_type)) [
  | inl e ↦ rw (with_job, e) refl
  | inr (n, e) ↦ ground arith
]

after_try-is_placed : (t : ClaimTry) → is_placed (after_try t) ≡ true
unfolding after_try is_placed
after_try-is_placed exhausted = refl
after_try-is_placed (again attempted) = refl
after_try-is_placed (claimed_job job) = with_job-is_placed job

tasks-placed : (n : ℕ) → all is_placed (tasks n) ≡ true
unfolding tasks is_placed
tasks-placed zero = refl
tasks-placed (suc n) = tasks-placed n

module _ (settings : MlConfig) (schedule : List String) (randrange : ℕ → ℕ) where
  Step-placed :
      {c d : Cycle}
      → Step settings schedule randrange c d
      → all is_placed c.workers ≡ true
      → all is_placed d.workers ≡ true
  unfolding is_placed
  Step-placed (loop_test before after s) h =
      placed_again before after looping (if s.stop_claiming then returned else locking) h
        (ground arith)
  Step-placed (take_claim_lock before after s free) h =
      placed_again before after locking (if may_claim settings s then claiming [] else returned) h
        (ground arith)
  Step-placed (try_claim before after s attempted w) h =
      placed_again before after (claiming attempted)
        (after_try (claim_try settings schedule w attempted s).0) h
        (after_try-is_placed (claim_try settings schedule w attempted s).0)
  Step-placed (take_limit before after s n job own free) h =
      placed_again before after (waiting job) (executing job) h refl
  Step-placed (handler_ends before after s s' job store result now e) h =
      placed_again before after (executing job) looping h refl

  Runs-placed :
      (db : Database) {c : Cycle}
      → Runs settings schedule randrange (start settings db) c
      → all is_placed c.workers ≡ true
  unfolding start
  Runs-placed db started = tasks-placed (max 1 settings.worker_concurrency)
  Runs-placed db (step runs next) = Step-placed next (Runs-placed db runs)

-- Where a worker of a kind stands.
split_at :
    (p : Worker → Bool) (ws : List Worker)
    → any p ws ≡ true
    → (before : List Worker) × (w : Worker) × (after : List Worker) × (ws ≡ before ++ w ∷ after)
      × (p w ≡ true)
split_at p [] h = absurd (ground arith)
split_at p (w ∷ ws) h = elim (Bool-cases (p w)) [
  | inl this ↦ ([], w, ws, refl, this)
  | inr other ↦
      let (before, v, after, e, k) = split_at p ws (ground arith) in
      (w ∷ before, v, after, ap (λ l. w ∷ l) e, k)
]

no_holder :
    (n : Namespace) (ws : List Worker)
    → any is_executing ws ≡ false
    → any (holds_limit n) ws ≡ false
no_holder n [] h = refl
no_holder n (w ∷ ws) h = ground (arith, no_holder n ws, holder n w)
  where
    holder : (m : Namespace) (v : Worker) → is_executing v ≡ false → holds_limit m v ≡ false
    holder m looping k = unfold holds_limit in refl
    holder m locking k = unfold holds_limit in refl
    holder m (claiming attempted) k = unfold holds_limit in refl
    holder m (waiting job) k = unfold holds_limit in refl
    holder m (executing job) k = absurd (unfold is_executing in ground arith)
    holder m returned k = unfold holds_limit in refl

module _ (settings : MlConfig) (schedule : List String) (randrange : ℕ → ℕ) where
  -- Some step leads on from the cycle with these workers.
  CanMove : Executor → List Worker → Type 0
  CanMove s ws =
      (d : Cycle) × Step settings schedule randrange (record { executor = s; workers = ws }) d

  claimer_moves :
      (w : ClaimWorld) (s : Executor) (before after : List Worker) (v : Worker)
      → is_claiming v ≡ true
      → CanMove s (before ++ v ∷ after)
  unfolding CanMove is_claiming
  claimer_moves w s before after (claiming attempted) h = (_, try_claim before after s attempted w)
  claimer_moves w s before after looping h = cc
  claimer_moves w s before after locking h = cc
  claimer_moves w s before after (waiting job) h = cc
  claimer_moves w s before after (executing job) h = cc
  claimer_moves w s before after returned h = cc

  handler_moves :
      (store : StoreConfig) (now : Instant) (s : Executor) (before after : List Worker) (v : Worker)
      → is_executing v ≡ true
      → CanMove s (before ++ v ∷ after)
  unfolding CanMove is_executing execute
  handler_moves store now s before after (executing job) h =
      (_, handler_ends before after s _ job store handled now refl)
  handler_moves store now s before after looping h = cc
  handler_moves store now s before after locking h = cc
  handler_moves store now s before after (claiming attempted) h = cc
  handler_moves store now s before after (waiting job) h = cc
  handler_moves store now s before after returned h = cc

  -- With no lock and no semaphore held.
  free_moves :
      (s : Executor) (before after : List Worker) (v : Worker)
      → any is_claiming (before ++ v ∷ after) ≡ false
      → any is_executing (before ++ v ∷ after) ≡ false
      → is_placed v ≡ true
      → is_active_worker v ≡ true
      → CanMove s (before ++ v ∷ after)
  unfolding CanMove is_active_worker is_placed
  free_moves s before after looping lock idle placed h = (_, loop_test before after s)
  free_moves s before after locking lock idle placed h = (_, take_claim_lock before after s lock)
  free_moves s before after (waiting job) lock idle placed h =
      elim (Option-cases (namespace_of job.job_type)) [
        | inl e ↦ absurd (ground arith)
        | inr (n, e) ↦ (
          _,
          take_limit before after s n job e (no_holder n (before ++ waiting job ∷ after) idle),
        )
      ]
  free_moves s before after (claiming attempted) lock idle placed h = absurd (
      unfold is_claiming in
      ground (arith, any-append is_claiming before (claiming attempted ∷ after)))
  free_moves s before after (executing job) lock idle placed h = absurd (
      unfold is_executing in ground (arith, any-append is_executing before (executing job ∷ after)))
  free_moves s before after returned lock idle placed h = cc

  moves :
      (w : ClaimWorld) (store : StoreConfig) (now : Instant) (s : Executor) (ws : List Worker)
      → all is_placed ws ≡ true
      → any is_active_worker ws ≡ true
      → CanMove s ws
  moves w store now s ws placed active = elim (Bool-cases (any is_claiming ws)) [
    | inl lock ↦
        let (before, v, after, e, h) = split_at is_claiming ws lock in
        subst (CanMove s) (sym e) (claimer_moves w s before after v h)
    | inr no_lock ↦ elim (Bool-cases (any is_executing ws)) [
      | inl busy ↦
          let (before, v, after, e, h) = split_at is_executing ws busy in
          subst (CanMove s) (sym e) (handler_moves store now s before after v h)
      | inr idle ↦
          let (before, v, after, e, h) = split_at is_active_worker ws active in
          subst (CanMove s) (sym e) (
            free_moves s before after v (subst (λ l. any is_claiming l ≡ false) e no_lock)
              (subst (λ l. any is_executing l ≡ false) e idle)
              (ground (arith, all-append is_placed before (v ∷ after), ap (all is_placed) e)) h)
    ]
  ]

  -- The workers of a cycle never deadlock: in every cycle that can be reached, while some worker has
  -- not returned, some worker can make a step, whatever the job store answers and at any time, if
  -- the handlers that run come to an end.
  pub Runs-moves :
      (db : Database) (c : Cycle) (w : ClaimWorld)
      → Runs settings schedule randrange (start settings db) c
      → any is_active_worker c.workers ≡ true
      → (d : Cycle) × Step settings schedule randrange c d
  unfolding CanMove
  Runs-moves db c w runs active =
      moves w w.store w.now c.executor c.workers (Runs-placed settings schedule randrange db runs)
        active
