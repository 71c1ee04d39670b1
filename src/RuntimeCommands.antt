-- ===== src/RuntimeCommands.antt =====
-- The outbox of runtime lifecycle commands: backend/app/repositories/runtime_commands.py, with the
-- row of backend/app/models/runtime_command.py. A repository method that runs in one transaction is
-- a function from the table to its result and the table that it commits; a raised
-- `ExecutionOwnershipError` rolls the transaction back. Identifiers and tokens (UUID) and times are
-- numbers. `now` is what `clock_timestamp()` gives in the transaction, `sequence` what the identity
-- column gives, `fresh k` the k-th `uuid4()` of the call, and `locked` tells the rows that another
-- transaction holds, which SKIP LOCKED passes over. `requested_by`, `request_id`, `created_at` and
-- `updated_at`, which are stored and never read here, are left out.
mod Row
pub mod Ordering
mod Steps
pub mod Lifecycle
pub mod Exclusive
pub mod Fencing
pub mod Dispatch
pub mod EffectState
pub mod Dispatcher
pub mod Executor
mod Examples
pub use Row.*
use mcplica.Common.{
  ℕ, ◌+◌, Bool, true, false, not, ◌&&◌, ◌||◌, Option, none, some, List, [], ◌∷◌, ◌++◌, leb, ltb,
  ◌==◌, is_just, if◌then◌else◌, any, filter, take, sort, Text, is_text, text_eq, Result, ok, err,
  ◌>>=◌,
}
use mcplica.Common.Table.{find, update, write_back}

new_row : ℕ → ℕ → NewCommand → Command
new_row now sequence c = record {
  id = c.command_id;
  sequence = sequence;
  project_id = c.project_id;
  deployment_id = c.deployment_id;
  build_id = c.build_id;
  transition_id = c.transition_id;
  action = c.action;
  status = pending;
  reason = c.reason;
  subject_type = c.subject_type;
  subject_id = c.subject_id;
  idempotency_key = c.idempotency_key;
  attempt_count = 0;
  retryable = true;
  next_attempt_at = now;
  dispatched_at = none;
  started_at = none;
  effective_at = none;
  failed_at = none;
  lease_expires_at = none;
  execution_token = none;
  last_error_code = none;
  last_error_summary = none;
}

find_by_key : Text → List Command → Option Command
find_by_key key [] = none
find_by_key key (m ∷ rows) = if text_eq m.idempotency_key key then some m else find_by_key key rows

pub create : ℕ → ℕ → NewCommand → List Command → Command × List Command
create now sequence c rows = elim (find_by_key c.idempotency_key rows) [
  | some existing ↦ (existing, rows)
  | none ↦ let m = new_row now sequence c in (m, rows ++ m ∷ [])
]

-- The row `p` is an earlier command of the transition of `m` that is not effective yet.
abbrev pub is_unfinished_predecessor : Command → Command → Bool
is_unfinished_predecessor m p =
    p.transition_id == m.transition_id && (ltb p.sequence m.sequence && not (is_effective p.status))

-- `exists(select(predecessor.id).where(…))`
pub has_unfinished_predecessor : List Command → Command → Bool
has_unfinished_predecessor rows m = any (is_unfinished_predecessor m) rows

-- `lease_expires_at` is NULL or past.
abbrev pub lease_is_free : ℕ → Option ℕ → Bool
lease_is_free now none = true
lease_is_free now (some expires) = leb expires now

-- The WHERE clause of `claim_due_for_dispatch`; the four statuses of its `in_` are all but `effective`.
pub is_due : ℕ → List Command → Command → Bool
is_due now rows m =
    not (is_effective m.status)
    && (m.retryable
        && (leb m.next_attempt_at now
            && (lease_is_free now m.lease_expires_at && not (has_unfinished_predecessor rows m))))

-- ORDER BY next_attempt_at, sequence
pub comes_before : Command → Command → Bool
comes_before a b =
    ltb a.next_attempt_at b.next_attempt_at
    || (a.next_attempt_at == b.next_attempt_at && leb a.sequence b.sequence)

pub due_commands : ℕ → (ℕ → Bool) → ℕ → List Command → List Command
unfolding is_due
due_commands now locked limit rows =
    take limit (sort comes_before (filter (λ m. is_due now rows m && not (locked m.id)) rows))

pub dispatch : ℕ → ℕ → ℕ → Command → Command
dispatch now expires token m = record m {
  status = dispatched;
  execution_token = some token;
  attempt_count = m.attempt_count + 1;
  dispatched_at = some now;
  failed_at = none;
  lease_expires_at = some expires;
  next_attempt_at = expires;
}

-- The loop over `models`; `k` counts the rounds.
dispatch_each : ℕ → ℕ → (ℕ → ℕ) → ℕ → List Command → List Command
dispatch_each now expires fresh k [] = []
dispatch_each now expires fresh k (m ∷ ms) =
    dispatch now expires (fresh k) m ∷ dispatch_each now expires fresh (k + 1) ms

pub claim_due_for_dispatch :
    ℕ → (ℕ → ℕ) → (ℕ → Bool) → ℕ → ℕ → List Command → List Command × List Command
claim_due_for_dispatch now fresh locked limit lease rows =
    let claimed = dispatch_each now (now + lease) fresh 0 (due_commands now locked limit rows) in
    (claimed, write_back id_of claimed rows)

-- The row carries this token, and its lease has not run out.
abbrev pub holds_lease : ℕ → ℕ → Command → Bool
holds_lease now token m =
    is_just m.execution_token token && not (lease_is_free now m.lease_expires_at)

pub start : ℕ → ℕ → Command → Command
start now lease m = record m {
  status = running;
  started_at = some now;
  failed_at = none;
  lease_expires_at = some (now + lease);
  next_attempt_at = now + lease;
}

pub claim_for_execution : ℕ → ℕ → ℕ → ℕ → List Command → Option Command × List Command
claim_for_execution now i token lease rows = elim (find id_of i rows) [
  | none ↦ (none, rows)
  | some m ↦
      if not (is_dispatched m.status && holds_lease now token m)
      then (none, rows)
      else if has_unfinished_predecessor rows m
      then (none, rows)
      else (some (start now lease m), update id_of i (start now lease) rows)
]

-- The `reason_code` of an `ExecutionOwnershipError`.
pub data OwnershipError : Type 0 where
  execution_ownership_lost predecessor_not_effective : OwnershipError

pub require_execution_owner : ℕ → ℕ → ℕ → List Command → Result OwnershipError Command
require_execution_owner now i token rows = elim (find id_of i rows) [
  | none ↦ err execution_ownership_lost
  | some m ↦
      if not (is_running m.status && holds_lease now token m)
      then err execution_ownership_lost
      else if has_unfinished_predecessor rows m
      then err predecessor_not_effective
      else ok m
]

pub data LeaseState : Type 0 where
  owned lost : LeaseState

pub record LeaseRenewal : Type 0 where
  pub state : LeaseState
  pub database_now : ℕ
  pub lease_expires_at : Option ℕ

pub extend_lease : ℕ → Command → Command
extend_lease expires m = record m { lease_expires_at = some expires; next_attempt_at = expires }

pub renew_execution : ℕ → ℕ → ℕ → ℕ → List Command → LeaseRenewal × List Command
renew_execution now i token lease rows = elim (require_execution_owner now i token rows) [
  | err _ ↦ (record { state = lost; database_now = now; lease_expires_at = none }, rows)
  | ok m ↦ (
    record { state = owned; database_now = now; lease_expires_at = some (now + lease) },
    update id_of i (extend_lease (now + lease)) rows,
  )
]

pub become_effective : ℕ → Command → Command
become_effective now m = record m {
  status = effective;
  retryable = false;
  effective_at = some now;
  failed_at = none;
  lease_expires_at = none;
  execution_token = none;
  last_error_code = none;
  last_error_summary = none;
}

pub mark_effective : ℕ → ℕ → ℕ → List Command → Result OwnershipError (List Command)
mark_effective now i token rows = do
  m ← require_execution_owner now i token rows
  ok (update id_of i (become_effective now) rows)

-- What a failure records: `error_code`, `error_summary`, `retryable`, `retry_delay_seconds`.
pub record Failure : Type 0 where
  pub code : Text
  pub summary : Text
  pub retryable : Bool
  pub retry_delay : ℕ

pub apply_failure : ℕ → Failure → Command → Command
apply_failure now f m = record m {
  status = failed;
  retryable = f.retryable;
  failed_at = some now;
  lease_expires_at = none;
  execution_token = none;
  next_attempt_at = now + f.retry_delay;
  last_error_code = some (take 128 f.code);
  last_error_summary = some (take 2000 f.summary);
}

pub mark_failed : ℕ → ℕ → ℕ → Failure → List Command → Result OwnershipError (List Command)
mark_failed now i token f rows = do
  m ← require_execution_owner now i token rows
  ok (update id_of i (apply_failure now f) rows)

-- `f.retryable` is `True` in this call, whatever the caller's record says.
pub mark_dispatch_failed : ℕ → ℕ → ℕ → Failure → List Command → Bool × List Command
mark_dispatch_failed now i token f rows = elim (find id_of i rows) [
  | none ↦ (false, rows)
  | some m ↦
      if not (is_dispatched m.status && holds_lease now token m)
      then (false, rows)
      else (true, update id_of i (apply_failure now (record f { retryable = true })) rows)
]
