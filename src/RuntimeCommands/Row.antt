-- ===== src/RuntimeCommands/Row.antt =====
-- The row of the outbox (backend/app/models/runtime_command.py, with the enumerations of
-- backend/app/domain/deployments.py) and the arguments of `create`.
use mcplica.Common.{ℕ, Bool, true, false, Option, Text}

pub data Status : Type 0 where
  pending dispatched running failed effective : Status

pub data Action : Type 0 where
  deploy stop : Action

pub record Command : Type 0 where
  pub id : ℕ
  pub sequence : ℕ
  pub project_id : ℕ
  pub deployment_id : ℕ
  pub build_id : ℕ
  pub transition_id : ℕ
  pub action : Action
  pub status : Status
  pub reason : Text
  pub subject_type : Option Text
  pub subject_id : Option ℕ
  pub idempotency_key : Text
  pub attempt_count : ℕ
  pub retryable : Bool
  pub next_attempt_at : ℕ
  pub dispatched_at : Option ℕ
  pub started_at : Option ℕ
  pub effective_at : Option ℕ
  pub failed_at : Option ℕ
  pub lease_expires_at : Option ℕ
  pub execution_token : Option ℕ
  pub last_error_code : Option Text
  pub last_error_summary : Option Text

abbrev pub id_of : Command → ℕ
id_of m = m.id

abbrev pub is_effective : Status → Bool
is_effective effective = true
is_effective _ = false

abbrev pub is_running : Status → Bool
is_running running = true
is_running _ = false

abbrev pub is_dispatched : Status → Bool
is_dispatched dispatched = true
is_dispatched _ = false

abbrev pub is_failed : Status → Bool
is_failed failed = true
is_failed _ = false

-- The arguments of `create`.
pub record NewCommand : Type 0 where
  pub command_id : ℕ
  pub project_id : ℕ
  pub deployment_id : ℕ
  pub build_id : ℕ
  pub transition_id : ℕ
  pub action : Action
  pub reason : Text
  pub subject_type : Option Text
  pub subject_id : Option ℕ
  pub idempotency_key : Text
