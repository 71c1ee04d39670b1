-- ===== src/RuntimeCommands/Dispatcher.antt =====
-- `RuntimeCommandDispatcher` of backend/app/services/deployment/command_dispatcher.py: one dispatch
-- cycle. `queue` is the outcome of `enqueue_runtime_command` for each command of the batch: the
-- queue is Redis, which may refuse. `clock k` is the database time of the k-th failure record.
pub mod Delivered
use mcplica.Common.{
  ℕ, ◌<◌, ◌≤◌, ◌+◌, ◌≡◌, ◌≢◌, ◌⊎◌, ◌∙◌, refl, ap, subst, arith, Bool, true, false, not, ◌&&◌,
  Option, none, some, List, [], ◌∷◌, length, Text, codes, to_lower, take, All, Option-cases, inl,
  inr,
}
use mcplica.Common.Table.{find, update, UniqueKeys, find-update}
use mcplica.Errors.{ErrorClass, code}
use mcplica.RuntimeCommands.Dispatch.{
  claim_due_for_dispatch_sound, IsDispatched, claim_due_for_dispatch-IsDispatched,
}
use mcplica.RuntimeCommands.{
  Command, id_of, Failure, dispatched, failed, is_dispatched, holds_lease, apply_failure,
  claim_due_for_dispatch, mark_dispatch_failed,
}

-- An exception: one of the hierarchy with its message, or any other.
pub data Exc : Type 0 where
  domain : ErrorClass → Text → Exc
  unexpected : Exc

pub dispatch_failure : ℕ → Exc → Failure
dispatch_failure interval (domain c message) = record {
  code = to_lower (code c);
  summary = message;
  retryable = true;
  retry_delay = interval;
}
dispatch_failure interval unexpected = record {
  code = codes "runtime_queue_unavailable";
  summary = codes "Runtime queue is unavailable";
  retryable = true;
  retry_delay = interval;
}

-- One round of the loop: a claimed command without a token is only logged.
pub deliver_one :
    ℕ → ℕ → (ℕ → ℕ → ℕ → Option Exc) → Command → Option ℕ → List Command → List Command
deliver_one interval now queue m none rows = rows
deliver_one interval now queue m (some token) rows = elim (queue m.id token m.attempt_count) [
  | none ↦ rows
  | some exc ↦ (mark_dispatch_failed now m.id token (dispatch_failure interval exc) rows).1
]

-- The loop over the claimed commands; `k` counts them.
pub deliver :
    ℕ → (ℕ → ℕ) → (ℕ → ℕ → ℕ → Option Exc) → ℕ → List Command → List Command → List Command
deliver interval clock queue k [] rows = rows
deliver interval clock queue k (m ∷ ms) rows =
    deliver interval clock queue (k + 1) ms
      (deliver_one interval (clock k) queue m m.execution_token rows)

-- The number of claimed commands, and the table after the cycle.
pub dispatch_once :
    ℕ
    → (ℕ → ℕ)
    → (ℕ → Bool)
    → ℕ
    → ℕ
    → ℕ
    → (ℕ → ℕ)
    → (ℕ → ℕ → ℕ → Option Exc)
    → List Command
    → ℕ × List Command
dispatch_once now fresh locked batch_size lease interval clock queue rows =
    let (claimed, rows') = claim_due_for_dispatch now fresh locked batch_size lease rows in
    (length claimed, deliver interval clock queue 0 claimed rows')
