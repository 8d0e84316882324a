-- ===== src/Jobs/Retries.antt =====
-- What becomes of a row over several claims: failures until the attempts are used up, deferrals,
-- and revisions that are requested while a worker is busy. Also the delays between the attempts.
use shkandal.Prelude.{
  ℕ, arith, [], ◌∷◌, String, Option, List, leb, ◌≡◌, length, ◌+◌, ◌≤◌, refl, if◌then◌else◌, ltb,
  some, zero, suc, ◌==◌, ◌*◌, min, ◌-◌, false, Bool, get_elem?, max, ◌/◌, holds_of,
}
use shkandal.Jobs.{Job, Instant, StoreConfig, second}
use shkandal.Jobs.Claim.{mark_running}
use shkandal.Jobs.Finish.{fail_row, retry_delay, base_delay, max_jitter_seconds, last_index}
use shkandal.Text.{Text}

-- One attempt that fails: the claim, and what fail_job writes with the claimed counts.
abbrev pub fail_attempt : String → Text → Option ℕ → Instant → Instant → Instant → Job → Job
fail_attempt worker_id message processed claimed_at retry_at failed_at j =
    let c = mark_running worker_id claimed_at j in
    fail_row message (leb c.max_attempts c.attempt_count) processed retry_at failed_at c

-- Attempts of one job one after the other, each with its clock readings.
pub fail_attempts : String → Text → Option ℕ → List (Instant × Instant × Instant) → Job → Job
unfolding mark_running fail_row
fail_attempts worker_id message processed [] j = j
fail_attempts worker_id message processed ((claimed_at, retry_at, failed_at) ∷ rest) j =
    fail_attempts worker_id message processed rest
      (fail_attempt worker_id message processed claimed_at retry_at failed_at j)

-- A newer revision than the one in work has been requested.
abbrev pub has_newer : Option ℕ → Job → Bool
has_newer processed j = holds_of (λ p. ltb p j.requested_revision) processed

-- The delay after the n-th further attempt: the n-th of the table, or the last one of a shorter table.
abbrev pub nth_or_last : ℕ → List ℕ → ℕ → ℕ
nth_or_last d [] n = d
nth_or_last d (e ∷ ds) zero = d
nth_or_last d (e ∷ ds) (suc n) = nth_or_last e ds n

get_elem?-min :
    (d : ℕ) (ds : List ℕ) (n : ℕ)
    → get_elem? (d ∷ ds) (min n (length ds)) ≡ some (nth_or_last d ds n)
get_elem?-min d [] n = let e : min n 0 ≡ 0 = omega arith in rw e refl
get_elem?-min d (e ∷ ds) zero = let h : min 0 (suc (length ds)) ≡ 0 = omega arith in rw h refl
get_elem?-min d (e ∷ ds) (suc n) =
    let h : min (suc n) (suc (length ds)) ≡ suc (min n (length ds)) = omega arith in
    rw h (get_elem?-min e ds n)

base_delay-nth_or_last :
    (d : ℕ) (ds : List ℕ) (attempt_count : ℕ)
    → 1 ≤ attempt_count
    → base_delay (d ∷ ds) attempt_count ≡ some (nth_or_last d ds (attempt_count - 1))
unfolding base_delay
base_delay-nth_or_last d ds attempt_count some_made =
    let other : (attempt_count == 0) ≡ false = ground arith in
    let last : last_index (d ∷ ds) ≡ length ds = omega arith in
    rw (other, last) (get_elem?-min d ds (attempt_count - 1))

-- The largest jitter, in whole seconds, is within the share of the delay, or one second.
max_jitter_seconds-bound :
    (ratio base : ℕ)
    → max_jitter_seconds ratio base * (1000 * second) ≤ max (1000 * second) (base * ratio)
unfolding max_jitter_seconds
max_jitter_seconds-bound ratio base = share (base * ratio)
  where
    share : (n : ℕ) → max 1 (n / 1_000_000_000) * 1_000_000_000 ≤ max 1_000_000_000 n
    share n = omega arith

-- With a table of delays that is not empty, and a `randrange n` that stays below `n`, the delay
-- after the n-th failed attempt, `n` at least one, is the n-th delay of the table, or its last where
-- the table is shorter, plus a jitter: none if the ratio is 0, else at most the ratio's thousandths
-- of that delay, or one second if this is more.
pub retry_delay-bounds :
    (config : StoreConfig) (randrange : ℕ → ℕ) (attempt_count d : ℕ) (ds : List ℕ)
    → config.retry_delays ≡ d ∷ ds
    → 1 ≤ attempt_count
    → ((n : ℕ) → randrange (n + 1) ≤ n)
    → let base = nth_or_last d ds (attempt_count - 1) in
      (delay : ℕ) × (retry_delay config randrange attempt_count ≡ some delay)
      × (base ≤ delay)
      × (delay * 1000 ≤ (
          base * 1000
          + (if config.retry_jitter_ratio == 0
              then 0
              else max (1000 * second) (base * config.retry_jitter_ratio))))
unfolding retry_delay
retry_delay-bounds config randrange attempt_count d ds e some_made below =
    let base = nth_or_last d ds (attempt_count - 1) in
    let jitter = max_jitter_seconds config.retry_jitter_ratio base in
    let drawn = below jitter in
    let bound = max_jitter_seconds-bound config.retry_jitter_ratio base in
    (
      (if config.retry_jitter_ratio == 0 then base else base + randrange (jitter + 1) * second),
      rw (e, base_delay-nth_or_last d ds attempt_count some_made, retry_delay) refl,
      ground arith,
      ground (arith, drawn, bound),
    )
