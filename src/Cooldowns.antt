-- ===== src/Cooldowns.antt =====
-- packages/database/src/shkandal_database/llm_cooldowns.py: the shared pause after a provider's
-- rate limit. The table has one row for each scope; a store works on the row of its own scope, so
-- the state is that row, if there is one. The advisory lock makes record_rate_limit atomic.
pub mod Laws
use shkandal.Prelude.{
  ℕ, none, some, ◌*◌, Option, if◌then◌else◌, max, ◌+◌, leb, ltb, holds_of, ◌&&◌, ◌-◌, is_some,
}
use shkandal.Jobs.{Instant, second, minute}
use shkandal.Text.{Text}

-- LONG_RETRY_AFTER_THRESHOLD, AMBIGUOUS_COOLDOWN, AMBIGUOUS_OBSERVATION_WINDOW and
-- INFERRED_HOURLY_COOLDOWN.
abbrev pub long_retry_after_threshold : ℕ
long_retry_after_threshold = 30 * minute

abbrev pub ambiguous_cooldown : ℕ
ambiguous_cooldown = 5 * minute

abbrev pub ambiguous_observation_window : ℕ
ambiguous_observation_window = 15 * minute

abbrev pub inferred_hourly_cooldown : ℕ
inferred_hourly_cooldown = 60 * minute

pub data CooldownKind : Type 0 where
  provider_short provider_long inferred_hourly ambiguous_short : CooldownKind

pub record LlmCooldown : Type 0 where
  pub resume_at : Instant
  pub reason : Text
  pub cooldown_kind : CooldownKind
  pub ambiguous_observation_count : ℕ
  pub last_ambiguous_observed_at : Option Instant
  pub updated_at : Instant

pub record LlmCooldownDecision : Type 0 where
  pub resume_at : Instant
  pub kind : CooldownKind
  pub ambiguous_observation_count : ℕ

unfoldable pub active_resume_at : Instant → Option LlmCooldown → Option Instant
active_resume_at checked_at none = none
active_resume_at checked_at (some row) =
    if leb row.resume_at checked_at then none else some row.resume_at

-- What an observation is taken for: the pause, its kind, and the evidence that is kept.
pub record Classification : Type 0 where
  pub duration : ℕ
  pub kind : CooldownKind
  pub count : ℕ
  pub last_ambiguous : Option Instant

abbrev pub previous_observation : Option LlmCooldown → Option Instant
previous_observation none = none
previous_observation (some row) = row.last_ambiguous_observed_at

abbrev pub previous_count : Option LlmCooldown → ℕ
previous_count none = 0
previous_count (some row) = row.ambiguous_observation_count

-- The `if retry_after_seconds is not None` of record_rate_limit and its two branches.
unfoldable pub classify : Option ℕ → Instant → Option LlmCooldown → Classification
classify (some retry_after_seconds) observed existing =
    let duration = retry_after_seconds * second in
    record {
      duration = duration;
      kind = if ltb duration long_retry_after_threshold then provider_short else provider_long;
      count = 0;
      last_ambiguous = none;
    }
classify none observed existing =
    if holds_of (λ t. leb (observed - ambiguous_observation_window) t)
        (previous_observation existing)
      && leb 1 (previous_count existing)
    then record {
      duration = inferred_hourly_cooldown;
      kind = inferred_hourly;
      count = previous_count existing + 1;
      last_ambiguous = some observed;
    }
    else record {
      duration = ambiguous_cooldown;
      kind = ambiguous_short;
      count = 1;
      last_ambiguous = some observed;
    }

abbrev pub latest_resume : ℕ → Option LlmCooldown → ℕ
latest_resume requested none = max requested requested
latest_resume requested (some row) = max requested row.resume_at

unfoldable pub record_rate_limit :
    Option ℕ → Text → Instant → Option LlmCooldown → LlmCooldownDecision × Option LlmCooldown
unfolding classify
record_rate_limit retry_after_seconds reason observed existing =
    let c = classify retry_after_seconds observed existing in
    let resume_at = latest_resume (observed + c.duration) existing in
    (
      record { resume_at = resume_at; kind = c.kind; ambiguous_observation_count = c.count },
      some (record {
        resume_at = resume_at;
        reason = reason;
        cooldown_kind = c.kind;
        ambiguous_observation_count = c.count;
        last_ambiguous_observed_at = c.last_ambiguous;
        updated_at = observed;
      }),
    )

unfoldable pub clear_expired_ambiguous_observation :
    Instant → Option LlmCooldown → Option LlmCooldown
clear_expired_ambiguous_observation succeeded_at none = none
clear_expired_ambiguous_observation succeeded_at (some row) = some (
    if leb row.resume_at succeeded_at && is_some row.last_ambiguous_observed_at
    then record row {
      ambiguous_observation_count = 0;
      last_ambiguous_observed_at = none;
      updated_at = succeeded_at;
    }
    else row)
