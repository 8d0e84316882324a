-- ===== src/Jobs/Claiming/Best.antt =====
-- claim_next_job returns the first of the rows that may be claimed, and nothing only if there is none.
use Prim.Native.Nat.{Ordering}
use shkandal.Prelude.{
  ℕ, some, true, false, inl, inr, Option, ◌≡◌, ◌⊎◌, List, String, ◌≤◌, Bool, ◌+◌, ◌<◌, arith,
  Option-cases, ◌-◌, Bool-cases, In, All, ◌≢◌, ap, sym, ◌∙◌, All-intro, All-In, keep_if, keep_if-In,
  ==_refl, refl, none, [], ◌∷◌, ◌↔◌,
}
use shkandal.Jobs.{Instant, StoreConfig, Job, queued, running, ClaimedJob, has_id}
use shkandal.Jobs.Claim.{
  is_stale_running, is_due, is_claimable, has_type_in, is_eligible, ArticleTable, claim_next_job,
  select_next, claim_order, to_claimed, mark_running,
}
use shkandal.Jobs.Claiming.{claim_order-IsOrder}
use shkandal.Jobs.Lifecycle.Safety.{select_next-lem}
use shkandal.Sql.Order.{first_row, order_by}
use shkandal.Sql.Order.Laws.{first_row-order_by-none}
use shkandal.Sql.Rows.{update_where, update_where-written, update_where-others}

-- No time is set, or it has come.
abbrev pub IsReached : Instant → Option Instant → Type 0
IsReached now none = Unit
IsReached now (some t) = t ≤ now

-- A queued row whose time has come.
abbrev pub IsWaiting : Instant → Job → Type 0
IsWaiting now j = (j.status ≡ queued) × IsReached now j.run_after

-- A running row whose lease began before the stale-job timeout.
abbrev pub LeaseExpired : StoreConfig → Instant → Job → Type 0
LeaseExpired config now j =
    (j.status ≡ running)
    × ((t : Instant) × (j.locked_at ≡ some t) × (t + config.stale_job_timeout < now))

abbrev pub IsFree : StoreConfig → Instant → Job → Type 0
IsFree config now j = IsWaiting now j ⊎ LeaseExpired config now j

-- What one worker may take at one time.
abbrev pub MayTake : StoreConfig → Option (List String) → Instant → (ℕ → Bool) → Job → Type 0
MayTake config job_types now locked j =
    IsFree config now j
    × (j.attempt_count < j.max_attempts)
    × (has_type_in job_types j ≡ true)
    × (locked j.id ≡ false)

module _ (config : StoreConfig) (job_types : Option (List String)) (now : Instant)
    (locked : ℕ → Bool) (j : Job) where
  is_due-IsWaiting : is_due now j ≡ true → IsWaiting now j × (j.attempt_count < j.max_attempts)
  unfolding is_due
  is_due-IsWaiting h = ((ground arith, ground arith), ground arith)

  IsWaiting-is_due : IsWaiting now j → j.attempt_count < j.max_attempts → is_due now j ≡ true
  unfolding is_due
  IsWaiting-is_due w room = ground arith

  is_stale_running-LeaseExpired :
      is_stale_running (now - config.stale_job_timeout) j ≡ true
      → LeaseExpired config now j × (j.attempt_count < j.max_attempts)
  unfolding is_stale_running
  is_stale_running-LeaseExpired h = elim (Option-cases j.locked_at) [
    | inl e ↦ absurd (ground arith)
    | inr (t, e) ↦ ((ground arith, (t, e, ground arith)), ground arith)
  ]

  LeaseExpired-is_stale_running :
      LeaseExpired config now j
      → j.attempt_count < j.max_attempts
      → is_stale_running (now - config.stale_job_timeout) j ≡ true
  unfolding is_stale_running
  LeaseExpired-is_stale_running e room = ground arith

  pub is_claimable-MayTake :
      is_claimable config job_types now locked j ≡ true → MayTake config job_types now locked j
  unfolding is_claimable is_eligible
  is_claimable-MayTake h = elim (Bool-cases (is_due now j)) [
    | inl due ↦ let (w, room) = is_due-IsWaiting due in (inl w, room, ground arith, ground arith)
    | inr not_due ↦
        let (w, room) = is_stale_running-LeaseExpired (ground arith) in
        (inr w, room, ground arith, ground arith)
  ]

  pub MayTake-is_claimable :
      MayTake config job_types now locked j → is_claimable config job_types now locked j ≡ true
  unfolding is_claimable is_eligible
  MayTake-is_claimable (inl w, room, wanted, unlocked) =
      let due = IsWaiting-is_due w room in ground arith
  MayTake-is_claimable (inr w, room, wanted, unlocked) =
      let stale = LeaseExpired-is_stale_running w room in ground arith

-- What a claim that returns `c` did.
pub record IsClaim (config : StoreConfig) (worker_id : String) (job_types : Option (List String))
    (now : Instant) (articles : ArticleTable) (locked : ℕ → Bool) (rows : List Job) (c : ClaimedJob)
    (rows' : List Job) : Type 0 where
  pub row : Job
  pub listed : In row rows
  pub may_take : MayTake config job_types now locked row
  pub first :
      All
        (λ j.
          (¬ MayTake config job_types now locked j) ⊎ (claim_order articles j row ≢ Ordering.lt))
        rows
  pub handed : c ≡ to_claimed (mark_running worker_id now row)
  pub written : In (mark_running worker_id now row) rows'
  pub others : All (λ j. (j.id ≡ row.id) ⊎ In j rows') rows

module _ (config : StoreConfig) (worker_id : String) (job_types : Option (List String))
    (now : Instant) (articles : ArticleTable) (locked : ℕ → Bool) (rows : List Job) where
  -- A claim that returns a job took a row of the table that may be taken: it was queued and due, or
  -- it was running under a lease that began before the stale-job timeout; it has attempts left, is
  -- of a wanted job type, and no other transaction holds it. No row that may be taken stands before
  -- it in the order of the query. The job is the row, now running with the caller's lease and one
  -- attempt more; the rows with another id are unchanged.
  pub claim_next_job-IsClaim :
      {c : ClaimedJob} {rows' : List Job}
      → claim_next_job config worker_id job_types now articles locked rows ≡ (some c, rows')
      → IsClaim config worker_id job_types now articles locked rows c rows'
  unfolding claim_next_job
  claim_next_job-IsClaim {c} {rows'} e =
      elim (Option-cases (select_next config job_types now articles locked rows)) [
        | inl nothing ↦ absurd (ground arith)
        | inr (found, at) ↦
            let (m, chosen, least) = select_next-lem config job_types now articles locked rows at in
            let done : claim_next_job config worker_id job_types now articles locked rows ≡ (
              some (to_claimed (mark_running worker_id now found)),
              update_where (has_id found.id) (mark_running worker_id now) rows,
            ) =
              rw (at, claim_next_job) refl in
            let tables : update_where (has_id found.id) (mark_running worker_id now) rows ≡ rows' =
              ap (λ r. r.1) (sym done ∙ e) in
            record {
              row = found;
              listed = m;
              may_take = is_claimable-MayTake config job_types now locked found chosen;
              first = All-intro _ rows λ j n. not_before found least j n;
              handed = ground arith;
              written = rw (← tables) (
                  update_where-written (has_id found.id) (mark_running worker_id now) rows m
                    (==_refl found.id));
              others = All-intro _ rows λ j n. rw (← tables) (kept found j n);
            }
      ]
    where
      p : Job → Bool
      p = is_claimable config job_types now locked

      not_before :
          (found : Job)
          → All (λ j. claim_order articles j found ≢ Ordering.lt) (keep_if p rows)
          → (j : Job) → In j rows
          → (¬ MayTake config job_types now locked j) ⊎ (claim_order articles j found ≢ Ordering.lt)
      not_before found least j n = elim (Bool-cases (p j)) [
        | inl may ↦ inr (All-In _ (keep_if p rows) least (keep_if-In p rows n may))
        | inr may_not ↦
            inl (λ may. ground (arith, MayTake-is_claimable config job_types now locked j may))
      ]

      kept :
          (found j : Job)
          → In j rows
          → (j.id ≡ found.id)
            ⊎ In j (update_where (has_id found.id) (mark_running worker_id now) rows)
      kept found j n = elim (Bool-cases (has_id found.id j)) [
        | inl same ↦ inl (ground arith)
        | inr other ↦
            inr (update_where-others (has_id found.id) (mark_running worker_id now) rows n other)
      ]

  -- A claim returns nothing exactly when no row of the table may be taken.
  pub claim_next_job-none :
      ((claim_next_job config worker_id job_types now articles locked rows).0 ≡ none)
      ↔ All (λ j. ¬ MayTake config job_types now locked j) rows
  unfolding claim_next_job select_next
  claim_next_job-none = (nothing_left, nothing_taken)
    where
      p : Job → Bool
      p = is_claimable config job_types now locked

      order_empty :
          (ys : List Job) → ys ≡ [] → first_row (order_by (claim_order articles) ys) ≡ none
      order_empty ys e = rw e refl

      nothing_left :
          (claim_next_job config worker_id job_types now articles locked rows).0 ≡ none
          → All (λ j. ¬ MayTake config job_types now locked j) rows
      nothing_left e = elim (Option-cases (select_next config job_types now articles locked rows)) [
        | inl at ↦
            let empty =
              first_row-order_by-none (claim_order articles) (claim_order-IsOrder articles)
                (keep_if p rows) at in
            All-intro _ rows λ j m may.
              none_listed (keep_if p rows) empty
                (keep_if-In p rows m (MayTake-is_claimable config job_types now locked j may))
        | inr (found, at) ↦ absurd (ground arith)
      ]
        where
          none_listed : (ys : List Job) {j : Job} → ys ≡ [] → In j ys → ⊥
          none_listed [] e m = elim m [ ]
          none_listed (y ∷ ys) e m = cc

      nothing_taken :
          All (λ j. ¬ MayTake config job_types now locked j) rows
          → (claim_next_job config worker_id job_types now articles locked rows).0 ≡ none
      nothing_taken h =
          elim (Option-cases (select_next config job_types now articles locked rows)) [
            | inl at ↦ rw (at, claim_next_job) refl
            | inr (found, at) ↦
                let (m, chosen, _) = select_next-lem config job_types now articles locked rows at in
                absurd (
                  All-In _ rows h m (is_claimable-MayTake config job_types now locked found chosen))
          ]
