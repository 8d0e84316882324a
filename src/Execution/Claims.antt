-- ===== src/Execution/Claims.antt =====
-- The loop of _claim_next tries each job type of the schedule once, from the index on in a circle.
use mathlib.Core.List.{append_assoc}
use native.Mathlib.Nat.{mod-add-mod}
use text.Mathlib.Text.{◌==◌ as str_eq}
use text.Mathlib.TextEquality.{eq_iff}
use shkandal.Prelude.{
  ℕ, refl, sym, arith, none, some, [], false, ◌∷◌, List, String, All, get_elem?, ◌≢◌, rotate, ◌++◌,
  All-intro, take, any, length, ◌+◌, All-In, drop, ◌≡◌, ◌%◌, take-append-drop, ap, subst, zero, suc,
  ◌∙◌, ◌<◌, get_elem?-rotate, length-append, true, length-rotate,
}
use shkandal.Execution.{
  MlConfig, ClaimWorld, Executor, ClaimResult, returns, claim_of_type, claim_loop, claim_try,
  claim_next, may_claim,
}
use shkandal.Jobs.Claim.{claim_next_job}
use shkandal.Sql.Rows.{IsUnique, All-append}

IsUnique-split :
    (xs ys : List String)
    → IsUnique (xs ++ ys)
    → IsUnique xs × IsUnique ys × All (λ x. All (λ y. y ≢ x) ys) xs
IsUnique-split [] ys u = (tt, u, tt)
IsUnique-split (x ∷ xs) ys u =
    let (h, k) = All-split xs u.0 in
    let (ux, uy, apart) = IsUnique-split xs ys u.1 in ((h, ux), uy, (k, apart))
  where
    All-split :
        (zs : List String) → All (λ i. i ≢ x) (zs ++ ys) → All (λ i. i ≢ x) zs × All (λ i. i ≢ x) ys
    All-split [] h = (tt, h)
    All-split (z ∷ zs) h = let (a, b) = All-split zs h.1 in ((h.0, a), b)

IsUnique-join :
    (xs ys : List String)
    → IsUnique xs
    → IsUnique ys
    → All (λ x. All (λ y. y ≢ x) ys) xs
    → IsUnique (xs ++ ys)
IsUnique-join [] ys ux uy apart = uy
IsUnique-join (x ∷ xs) ys ux uy apart =
    (All-append (λ i. i ≢ x) xs ys ux.0 apart.0, IsUnique-join xs ys ux.1 uy apart.1)

apart-sym :
    (xs ys : List String) → All (λ x. All (λ y. y ≢ x) ys) xs → All (λ y. All (λ x. x ≢ y) xs) ys
apart-sym xs ys h =
    All-intro _ ys λ y m. All-intro _ xs λ x n e. All-In (λ z. z ≢ x) ys (All-In _ xs h n) m (sym e)

IsUnique-rotate : (n : ℕ) (xs : List String) → IsUnique xs → IsUnique (rotate n xs)
IsUnique-rotate n xs u =
    let (front, back, apart) =
      IsUnique-split (take n xs) (drop n xs) (rw (take-append-drop n xs) u) in
    IsUnique-join (drop n xs) (take n xs) back front (apart-sym (take n xs) (drop n xs) apart)

-- A type that comes later in a list of distinct types was not tried before.
not_tried :
    (done rest : List String) (t : String)
    → IsUnique (done ++ t ∷ rest)
    → any (λ d. str_eq t d) done ≡ false
not_tried [] rest t u = refl
not_tried (d ∷ done) rest t u =
    ground (arith, not_tried done rest t u.1, eq_iff t d, differs done u.0)
  where
    differs : (xs : List String) → All (λ i. i ≢ d) (xs ++ t ∷ rest) → t ≢ d
    differs [] h = h.0
    differs (x ∷ xs) h = differs xs h.1

at_length :
    (done rest : List String) (t : String) → get_elem? (done ++ t ∷ rest) (length done) ≡ some t
at_length [] rest t = refl
at_length (d ∷ done) rest t = at_length done rest t

module _ (settings : MlConfig) (schedule : List String) (w : ClaimWorld) (s : Executor) where
  -- The executor after `k` types were tried in vain.
  abbrev pub tried : ℕ → Executor
  tried k = record s { schedule_index = (s.schedule_index + k) % length schedule }

  -- The types in the order in which they are tried, the first of which has a job.
  unfoldable pub first_claim : List String → ℕ → ClaimResult
  unfolding claim_next_job
  first_claim [] k = returns none (tried k)
  first_claim (t ∷ rest) k =
      let (claimed, rows) = claim_of_type settings w t s.db.jobs in
      let later = first_claim rest (k + 1) in
      elim claimed [
        | none ↦ later
        | some job ↦ returns (some job) (record (tried (k + 1)) {
          claimed_jobs = s.claimed_jobs + 1;
          db = record s.db { jobs = rows };
        })
      ]

  step_index :
      (k : ℕ)
      → ((s.schedule_index + k) % length schedule + 1) % length schedule
        ≡ (s.schedule_index + (k + 1)) % length schedule
  step_index k =
      mod-add-mod (s.schedule_index + k) (length schedule) 1
      ∙ ap (λ x. x % length schedule) (omega arith)

  type_at :
      (done rest : List String) (t : String)
      → rotate s.schedule_index schedule ≡ done ++ t ∷ rest
      → s.schedule_index < length schedule
      → length done < length schedule
      → get_elem? schedule ((s.schedule_index + length done) % length schedule) ≡ some t
  type_at done rest t e below inside =
      sym (get_elem?-rotate s.schedule_index (length done) schedule below inside)
      ∙ (ap (λ l. get_elem? l (length done)) e ∙ at_length done rest t)

  claim_loop-first_claim :
      (fuel : ℕ) (done rest : List String)
      → rotate s.schedule_index schedule ≡ done ++ rest
      → IsUnique schedule
      → s.schedule_index < length schedule
      → length done + length rest ≡ length schedule
      → length rest < fuel
      → claim_loop fuel settings schedule w done (tried (length done))
        ≡ first_claim rest (length done)
  unfolding claim_loop claim_try first_claim
  claim_loop-first_claim zero done rest e u below size enough = absurd (omega arith)
  claim_loop-first_claim (suc fuel) done [] e u below size enough = ground arith
  claim_loop-first_claim (suc fuel) done (t ∷ rest) e u below size enough =
      let at = type_at done rest t e below (omega arith) in
      let new =
        not_tried done rest t (subst IsUnique e (IsUnique-rotate s.schedule_index schedule u)) in
      let later =
        claim_loop-first_claim fuel (done ++ t ∷ []) rest
          (e ∙ sym (append_assoc done (t ∷ []) rest)) u below
          (omega (arith, length-append done (t ∷ []))) (omega arith) in
      let count : length (done ++ t ∷ []) ≡ length done + 1 =
        omega (arith, length-append done (t ∷ [])) in
      ground (arith, rw (count, ← step_index (length done)) at later, step_index (length done))

-- A worker that may claim gets the job of the first type, in the circle that starts at the index of
-- the schedule, that has a claimable one, and the index then stands behind that type; when no type
-- has a job it gets none. This holds for a schedule without repetition and an index inside it, and
-- the rounds that the model allows the loop are enough.
pub claim_next-rotates :
    (settings : MlConfig) (schedule : List String) (w : ClaimWorld) (s : Executor)
    → IsUnique schedule
    → s.schedule_index < length schedule
    → may_claim settings s ≡ true
    → claim_next settings schedule w s
      ≡ first_claim settings schedule w s (rotate s.schedule_index schedule) 0
unfolding claim_next
claim_next-rotates settings schedule w s u below may =
    let index : (s.schedule_index + 0) % length schedule ≡ s.schedule_index = grind arith in
    let start : tried settings schedule w s 0 ≡ s =
      ap (λ i. record s { schedule_index = i }) index in
    let run =
      claim_loop-first_claim settings schedule w s (length schedule + 1) []
        (rotate s.schedule_index schedule) refl u below
        (omega (arith, length-rotate s.schedule_index schedule))
        (omega (arith, length-rotate s.schedule_index schedule)) in
    let run' =
      subst
        (λ x.
          claim_loop (length schedule + 1) settings schedule w [] x
          ≡ first_claim settings schedule w s (rotate s.schedule_index schedule) 0)
        start run in
    rw may run'
