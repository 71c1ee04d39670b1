-- ===== src/RuntimeCommands/Executor.antt =====
-- `RuntimeCommandExecutor` of backend/app/services/deployment/command_executor.py: what a worker does
-- with a delivered command. A run is three transactions with other processes in between: the claim,
-- the checkpoints and effects of the runner, and the settlement. The runner (Docker, the edge) is a
-- parameter, by its outcome; `clock k` is the database time of the k-th transaction of the
-- settlement, and the table at the settlement is the one that the others have left. The heartbeat,
-- which renews the lease in the background, is `renew_execution`.
pub mod Settled
use mcplica.Common.{
  ℕ, zero, suc, ◌+◌, ◌*◌, ◌^◌, ◌≤◌, ◌≡◌, refl, min, Bool, true, false, Option, none, some, List, [],
  ◌∷◌, Text, codes, to_lower, Result, ok, err, ◌>>=◌, ◌>>◌, raise_if, arith, not, Result-cases, inl,
  inr, Option-cases, Bool-cases, if◌then◌else◌, >>=-eq-ok,
}
use mcplica.Common.Table.{find, update}
use mcplica.Errors.{
  ErrorClass, code, is_retryable_deployment_error, not_found_error, invalid_state_error,
  execution_ownership_error,
}
use mcplica.RuntimeCommands.{
  Command, Action, deploy, stop, Failure, OwnershipError, id_of, claim_for_execution,
  require_execution_owner, mark_effective, mark_failed, is_effective,
}
use mcplica.RuntimeCommands.Dispatcher.{Exc, domain, unexpected}
use mcplica.RuntimeCommands.Lifecycle.{Reach, here, next, Step}

-- `DeploymentStatus` of backend/app/domain/deployments.py.
pub data DeploymentStatus : Type 0 where
  pending deploying healthcheck running unhealthy stopping stopped failed : DeploymentStatus

-- The status that the command asked for.
abbrev pub has_taken_effect : Action → DeploymentStatus → Bool
has_taken_effect deploy running = true
has_taken_effect deploy _ = false
has_taken_effect stop stopped = true
has_taken_effect stop failed = true
has_taken_effect stop _ = false

ownership_exc : OwnershipError → Exc
ownership_exc OwnershipError.execution_ownership_lost =
    domain execution_ownership_error (codes "Runtime command execution ownership is stale")
ownership_exc OwnershipError.predecessor_not_effective =
    domain execution_ownership_error (codes "Runtime command predecessor is no longer effective")

abbrev lift : {A : Type 0} → (OwnershipError → Exc) → Result OwnershipError A → Result Exc A
lift f (ok a) = ok a
lift f (err e) = err (f e)

-- The row of the deployment, and whether its status is the one asked for.
check_deployment : Action → Option DeploymentStatus → Result Exc (Unit {0})
check_deployment action none =
    err (domain not_found_error (codes "Runtime command deployment was not found"))
check_deployment action (some status) = raise_if (not (has_taken_effect action status)) (
    domain invalid_state_error
      (codes "Runtime command completed without reaching its requested effective state"))

pub verify_and_mark_effective :
    (ℕ → ℕ) → ℕ → ℕ → Action → Option DeploymentStatus → List Command → Result Exc (List Command)
unfolding ownership_exc check_deployment
verify_and_mark_effective clock i token action deployment rows = do
  m ← lift ownership_exc (require_execution_owner (clock 0) i token rows)
  check_deployment action deployment
  lift ownership_exc (mark_effective (clock 1) i token rows)

safe_error : Exc → Text × Text
safe_error (domain c message) = (to_lower (code c), message)
safe_error unexpected =
    (codes "unexpected_runtime_command_error", codes "Runtime command failed unexpectedly")

abbrev pub is_retryable : Exc → Bool
is_retryable (domain c message) = is_retryable_deployment_error c
is_retryable unexpected = false

-- `min(300.0, float(2 ** min(attempt_count, 8)))` seconds; times count microseconds.
pub retry_delay : ℕ → ℕ
retry_delay attempt_count = min 300 (2 ^ min attempt_count 8) * 1000000

pub failure_of : ℕ → Exc → Failure
unfolding safe_error
failure_of attempt_count exc = record {
  code = (safe_error exc).0;
  summary = (safe_error exc).1;
  retryable = is_retryable exc;
  retry_delay = retry_delay attempt_count;
}

abbrev pub is_ownership_error : Exc → Bool
is_ownership_error (domain execution_ownership_error message) = true
is_ownership_error _ = false

-- How a run ends: recorded as effective, as a failure that is raised on, discarded because the
-- attempt has lost its command, or cancelled from outside.
pub data Settlement : Type 0 where
  recorded_effective discarded cancelled : Settlement
  recorded_failure : Exc → Settlement

-- The `except` clauses.
pub handle : (ℕ → ℕ) → Command → ℕ → Exc → List Command → Settlement × List Command
unfolding failure_of
handle clock command token exc rows =
    if is_ownership_error exc
    then (discarded, rows)
    else elim (mark_failed (clock 2) command.id token (failure_of command.attempt_count exc) rows) [
      | ok rows' ↦ (recorded_failure exc, rows')
      | err _ ↦ (discarded, rows)
    ]

-- What the runner did, its checkpoints included. A cancellation is the heartbeat's if it has set
-- `ownership_lost`.
pub data Outcome : Type 0 where
  completed : Outcome
  raised : Exc → Outcome
  cancelled_by : (ownership_lost : Bool) → Outcome

settle_completed :
    (ℕ → ℕ) → Command → ℕ → Option DeploymentStatus → List Command → Settlement × List Command
unfolding handle
settle_completed clock command token deployment rows =
    elim (verify_and_mark_effective clock command.id token command.action deployment rows) [
      | ok rows' ↦ (recorded_effective, rows')
      | err exc ↦ handle clock command token exc rows
    ]

pub settle :
    (ℕ → ℕ)
    → Command
    → ℕ
    → Outcome
    → Option DeploymentStatus
    → List Command
    → Settlement × List Command
settle clock command token completed deployment rows =
    settle_completed clock command token deployment rows
settle clock command token (raised exc) deployment rows = handle clock command token exc rows
settle clock command token (cancelled_by ownership_lost) deployment rows =
    (if ownership_lost then discarded else cancelled, rows)
