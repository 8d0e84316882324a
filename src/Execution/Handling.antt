-- ===== src/Execution/Handling.antt =====
-- What the outcomes of a cycle's jobs do to the shared cooldown and to the rows that are put off.
use shkandal.Prelude.{ℕ, none, some, [], true, ◌∷◌, ◌≡◌, ◌>>=◌, Option, List, In, ◌-◌}
use shkandal.Cooldowns.{LlmCooldown}
use shkandal.Execution.{MlConfig, execute, Executor, HandlerResult}
use shkandal.Jobs.{Instant, StoreConfig, ClaimedJob, Job, queued}
use shkandal.Text.{Text}

-- Jobs that end one after the other, each with its handler's result and the time.
unfoldable pub execute_all :
    MlConfig
    → StoreConfig
    → (ℕ → ℕ)
    → List (ClaimedJob × HandlerResult × Instant)
    → Executor
    → Option Executor
execute_all settings store randrange [] s = some s
execute_all settings store randrange ((job, outcome, now) ∷ rest) s = do
  s' ← execute settings store randrange job outcome now s
  execute_all settings store randrange rest s'

-- The pause of the cycle stands: its end is `t`, the cooldown is `row`, and nobody claims.
IsPaused : Instant → Option LlmCooldown → Executor → Type 0
IsPaused t row s =
    (s.rate_limit_resume_at ≡ some t) × (s.db.cooldown ≡ row) × (s.stop_claiming ≡ true)

-- The row that a deferral leaves.
abbrev pub IsDeferred : Instant → Job → List Job → Type 0
IsDeferred t j rows =
    (j' : Job) × In j' rows
    × (j'.id ≡ j.id)
    × (j'.status ≡ queued)
    × (j'.run_after ≡ some t)
    × (j'.attempt_count ≡ j.attempt_count - 1)
    × (j'.locked_at ≡ none)
