-- ===== src/Cooldowns/Laws.antt =====
-- The pause never ends earlier than any observation asked for, and repeated rate limits without a
-- Retry-After escalate.
use shkandal.Prelude.{
  ℕ, refl, arith, none, some, [], true, inl, inr, ◌∷◌, Option, List, ◌≤◌, ◌<◌, leb, if◌then◌else◌,
  is_some, ◌≡◌, ◌+◌, ◌*◌, Bool-cases, false, ◌⊎◌, max, holds_of, ◌-◌, ◌&&◌,
}
use shkandal.Cooldowns.{
  active_resume_at, record_rate_limit, clear_expired_ambiguous_observation, LlmCooldown,
  ambiguous_observation_window, ambiguous_short, ambiguous_cooldown, inferred_hourly,
  inferred_hourly_cooldown,
}
use shkandal.Jobs.{Instant, second}
use shkandal.Text.{Text}

-- One thing that happens to the shared row: a rate limit, or a request that succeeds.
pub data Event : Type 0 where
  rate_limited : Option ℕ → Text → Instant → Event
  succeeded_request : Instant → Event

pub observe : Event → Option LlmCooldown → Option LlmCooldown
observe (rate_limited retry_after reason t) row = (record_rate_limit retry_after reason t row).1
observe (succeeded_request t) row = clear_expired_ambiguous_observation t row

pub observe_all : List Event → Option LlmCooldown → Option LlmCooldown
unfolding observe
observe_all [] row = row
observe_all (e ∷ events) row = observe_all events (observe e row)

-- The pause lasts at least until `t`.
abbrev PausedUntil : Instant → Option LlmCooldown → Type 0
PausedUntil t none = ⊥
PausedUntil t (some row) = t ≤ row.resume_at

observe-PausedUntil :
    (e : Event) (t : Instant) (row : Option LlmCooldown)
    → PausedUntil t row
    → PausedUntil t (observe e row)
unfolding observe record_rate_limit clear_expired_ambiguous_observation
observe-PausedUntil (rate_limited retry_after reason u) t (some row) h = ground arith
observe-PausedUntil (rate_limited retry_after reason u) t none h = elim h [ ]
observe-PausedUntil (succeeded_request u) t (some row) h = ground arith
observe-PausedUntil (succeeded_request u) t none h = elim h [ ]

observe_all-PausedUntil :
    (events : List Event) (t : Instant) (row : Option LlmCooldown)
    → PausedUntil t row
    → PausedUntil t (observe_all events row)
unfolding observe_all
observe_all-PausedUntil [] t row h = h
observe_all-PausedUntil (e ∷ events) t row h =
    observe_all-PausedUntil events t (observe e row) (observe-PausedUntil e t row h)

PausedUntil-active :
    (t now : Instant) (row : Option LlmCooldown)
    → PausedUntil t row
    → now < t
    → is_some (active_resume_at now row) ≡ true
unfolding active_resume_at
PausedUntil-active t now none h lt = elim h [ ]
PausedUntil-active t now (some row) h lt = ground arith

-- A provider that answers 429 with a Retry-After is left alone for that long: whatever rate limits
-- and successful requests are recorded afterwards, the cooldown is active at every time before the
-- observation plus the asked seconds.
pub record_rate_limit-respected :
    (seconds : ℕ) (reason : Text) (observed now : Instant) (row : Option LlmCooldown)
    (events : List Event)
    → now < observed + seconds * second
    → is_some (
        active_resume_at now
          (observe_all events (record_rate_limit (some seconds) reason observed row).1))
      ≡ true
record_rate_limit-respected seconds reason observed now row events before =
    PausedUntil-active (observed + seconds * second) now _
      (observe_all-PausedUntil events _ _ (paused row)) before
  where
    paused :
        (r : Option LlmCooldown)
        → PausedUntil
            (observed + seconds * second)
            (record_rate_limit (some seconds) reason observed r).1
    paused none = unfold record_rate_limit in omega arith
    paused (some r) = unfold record_rate_limit in omega arith

-- A time that is longer ago than the window, or none.
abbrev pub IsPast : Instant → Option Instant → Type 0
IsPast t none = Unit
IsPast t (some u) = u + ambiguous_observation_window < t

-- No rate limit without a Retry-After counts in the window before `t`.
abbrev pub IsCalm : Instant → Option LlmCooldown → Type 0
IsCalm t none = Unit
IsCalm t (some row) =
    IsPast t row.last_ambiguous_observed_at ⊎ (row.ambiguous_observation_count ≡ 0)

calm_test :
    (t : Instant) (last : Option Instant) (count : ℕ)
    → IsPast t last ⊎ (count ≡ 0)
    → (holds_of (λ u. leb (t - ambiguous_observation_window) u) last && leb 1 count) ≡ false
calm_test t none count calm = refl
calm_test t (some u) count (inl past) = ground arith
calm_test t (some u) count (inr zero_count) = ground arith

-- The end of the pause before, 0 if there is none.
abbrev pub pause_end : Option LlmCooldown → Instant
pause_end none = 0
pause_end (some row) = row.resume_at

-- Two rate limits without a Retry-After, the first with no such observation that counts in the
-- fifteen minutes before it: the first asks for a pause of five minutes; a second one within fifteen
-- minutes counts as an hourly limit, asks for an hour and counts two observations; a later one starts
-- again with five minutes. Whatever the shared row held before, the pause never gets shorter: each
-- decision ends at the asked time or at the end of the pause before, the later of the two.
pub record_rate_limit-escalates :
    (reason reason' : Text) (first second_at : Instant) (before : Option LlmCooldown)
    → IsCalm first before
    → let (d, row) = record_rate_limit none reason first before in
      let (d', _) = record_rate_limit none reason' second_at row in
      let soon = leb second_at (first + ambiguous_observation_window) in
      (d.kind ≡ ambiguous_short)
      × (d.resume_at ≡ max (first + ambiguous_cooldown) (pause_end before))
      × (d'.kind ≡ (if soon then inferred_hourly else ambiguous_short))
      × (d'.ambiguous_observation_count ≡ (if soon then 2 else 1))
      × (d'.resume_at
          ≡ max
              (second_at + (if soon then inferred_hourly_cooldown else ambiguous_cooldown))
              d.resume_at)
unfolding record_rate_limit
record_rate_limit-escalates reason reason' first second_at none calm =
    (refl, ground arith, ground arith, ground arith, ground arith)
record_rate_limit-escalates reason reason' first second_at (some row) calm =
    let short =
      calm_test first row.last_ambiguous_observed_at row.ambiguous_observation_count calm in
    (
      ground (arith, short),
      ground (arith, short),
      ground (arith, short),
      ground (arith, short),
      ground (arith, short),
    )

-- A request that succeeds after the pause has ended takes away the evidence of ambiguous rate
-- limits: the next one without a Retry-After is taken for a short one. One that succeeds while the
-- pause lasts leaves the row as it is.
pub clear_expired-restarts :
    (row : LlmCooldown) (succeeded_at observed : Instant) (reason : Text)
    → let cleared = clear_expired_ambiguous_observation succeeded_at (some row) in
      (if leb row.resume_at succeeded_at
        then (record_rate_limit none reason observed cleared).0.kind ≡ ambiguous_short
        else cleared ≡ some row)
unfolding clear_expired_ambiguous_observation record_rate_limit
clear_expired-restarts row succeeded_at observed reason =
    elim (Bool-cases (leb row.resume_at succeeded_at)) [
      | inl ended ↦ rw ended (ground arith)
      | inr lasts ↦ rw lasts (ground arith)
    ]
