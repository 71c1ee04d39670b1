-- ===== src/RuntimeCommands/Examples.antt =====
-- A transition of two commands, a stop and a deploy, through the outbox: concrete runs, and the
-- theorems at them.
use mcplica.Common.{
  Text, count_p, ◌≤◌, ℕ, ◌+◌, ◌≤◌, ◌≡◌, refl, Bool, true, false, Option, none, some, List, [], ◌∷◌,
  map, codes, first, zero, suc, arith, Result, ok, err, Memᴰ, All, length,
}
use mcplica.Common.Table.{find, update, write_back}
use mcplica.Errors.{client_timeout_error, invalid_state_error, not_found_error}
use mcplica.RuntimeCommands.{
  Command, NewCommand, Failure, stop, deploy, id_of, is_effective, lost, execution_ownership_lost,
  create, claim_due_for_dispatch, claim_for_execution, mark_effective, mark_failed,
  mark_dispatch_failed, renew_execution, require_execution_owner, new_row, find_by_key,
  due_commands, dispatch_each, dispatch, start, become_effective, extend_lease, apply_failure,
  has_unfinished_predecessor, is_failed,
}
use mcplica.RuntimeCommands.Lifecycle.{
  Reach, here, next, created, dispatch_claimed, execution_claimed, marked_effective, IsValid,
  Reach-IsValid, never_overtakes,
}
use mcplica.RuntimeCommands.Exclusive.{running_exclusive, runs_in}
use mcplica.RuntimeCommands.Fencing.{stale_token_refused, effective_final}
use mcplica.RuntimeCommands.Dispatch.{claim_due_for_dispatch_sound, IsDispatchOf}
use mcplica.RuntimeCommands.EffectState.{
  runtime_effect_update, runtime_effect_update_exact, latest_for_subject, IsReportOf,
}
use mcplica.RuntimeCommands.Dispatcher.{Exc, domain, dispatch_once}
use mcplica.RuntimeCommands.Dispatcher.Delivered.{dispatch_once_delivers, IsDelivered}
use mcplica.RuntimeCommands.Executor.{
  has_taken_effect, DeploymentStatus, completed, raised, settle, recorded_effective,
  recorded_failure, retry_delay, is_retryable,
}
use mcplica.RuntimeCommands.Executor.Settled.{
  completed_run_settled, IsFailedRow, effective_only_if_IsObserved, observed-effective,
  failure_recorded, IsObserved,
}

abbrev stop_old : NewCommand
stop_old = record {
  command_id = 1;
  project_id = 7;
  deployment_id = 70;
  build_id = 700;
  transition_id = 5;
  action = stop;
  reason = codes "deployment.replaced";
  subject_type = some (codes "deployment");
  subject_id = some 71;
  idempotency_key = codes "stop-70";
}

abbrev deploy_new : NewCommand
deploy_new = record stop_old {
  command_id = 2;
  deployment_id = 71;
  action = deploy;
  idempotency_key = codes "deploy-71";
}

abbrev tokens : ℕ → ℕ
tokens k = 100 + k

abbrev nobody : ℕ → Bool
nobody i = false

abbrev requested_one : List Command
requested_one = (create 10 1 stop_old []).1

abbrev requested : List Command
requested = (create 11 2 deploy_new requested_one).1

abbrev dispatched : List Command
dispatched = (claim_due_for_dispatch 20 tokens nobody 10 30 requested).1

abbrev executing : List Command
executing = (claim_for_execution 25 1 100 60 dispatched).1

-- Opens the operations, for the runs below.
runs : ℕ
unfolding create new_row find_by_key claim_due_for_dispatch due_commands has_unfinished_predecessor
    dispatch_each dispatch write_back find update claim_for_execution start require_execution_owner
    mark_effective become_effective renew_execution extend_lease mark_failed apply_failure
    mark_dispatch_failed
runs = 0

-- The deploy waits for the stop.
only_first_is_claimed :
    map id_of (claim_due_for_dispatch 20 tokens nobody 10 30 requested).0 ≡ 1 ∷ []
unfolding runs
only_first_is_claimed = refl

-- A late token loses, the right one wins.
late_token_loses : mark_effective 30 1 99 executing ≡ err execution_ownership_lost
unfolding runs
late_token_loses = refl

requested-Reach : Reach [] requested
unfolding runs
requested-Reach =
    next (next here (created 10 1 stop_old tt refl))
      (created 11 2 deploy_new ((ground arith, λ e. omega arith), tt) refl)

executing-Reach : Reach [] executing
unfolding runs
executing-Reach =
    next (next requested-Reach (dispatch_claimed 20 tokens nobody 10 30))
      (execution_claimed 25 1 100 60)

Reach-IsValid_example : IsValid executing
Reach-IsValid_example = Reach-IsValid executing-Reach

abbrev row : ℕ → List Command → Command
row i [] = (create 0 0 stop_old []).0
row zero (m ∷ ms) = m
row (suc i) (m ∷ ms) = row i ms

-- The rows after a transaction that may raise.
abbrev or_same : {E : Type 0} → Result E (List Command) → List Command → List Command
or_same (ok rows) old = rows
or_same (err e) old = old

abbrev stopped : List Command
stopped = or_same (mark_effective 40 1 100 executing) executing

abbrev deploying : List Command
deploying =
    (claim_for_execution 45 2 101 60
      (claim_due_for_dispatch 42 (λ k. 101 + k) nobody 10 30 stopped).1).1

stopped-Reach_from : Reach executing stopped
unfolding runs
stopped-Reach_from = next here (marked_effective 40 1 100 refl)

deploying-Reach : Reach [] deploying
unfolding runs
deploying-Reach =
    next
      (next (next executing-Reach (marked_effective 40 1 100 refl))
        (dispatch_claimed 42 (λ k. 101 + k) nobody 10 30))
      (execution_claimed 45 2 101 60)

never_overtakes_example : is_effective (row 0 deploying).status ≡ true
unfolding runs
never_overtakes_example =
    never_overtakes (row 1 deploying) (row 0 deploying) deploying-Reach (Memᴰ.tail (Memᴰ.head refl))
      (Memᴰ.head refl) refl refl (omega arith)

running_exclusive_example : count_p (runs_in 5) deploying ≤ 1
running_exclusive_example = running_exclusive 5 deploying-Reach

abbrev crash : Failure
crash = record { code = codes "crash"; summary = []; retryable = true; retry_delay = 5 }

stale_token_refused_example :
    (claim_for_execution 30 1 99 60 executing ≡ (none, executing))
    × ((renew_execution 30 1 99 60 executing).0.state ≡ lost)
    × ((renew_execution 30 1 99 60 executing).1 ≡ executing)
    × (mark_effective 30 1 99 executing ≡ err execution_ownership_lost)
    × (mark_failed 30 1 99 crash executing ≡ err execution_ownership_lost)
    × (mark_dispatch_failed 30 1 99 crash executing ≡ (false, executing))
unfolding runs
stale_token_refused_example =
    stale_token_refused 30 1 99 60 crash executing (row 0 executing) refl (ground arith)

effective_final_example : find id_of 1 deploying ≡ some (row 0 stopped)
unfolding runs
effective_final_example =
    effective_final 1 (row 0 stopped) (next executing-Reach (marked_effective 40 1 100 refl))
      (next (next here (dispatch_claimed 42 (λ k. 101 + k) nobody 10 30))
        (execution_claimed 45 2 101 60))
      refl refl

claim_due_for_dispatch_sound_example :
    let claimed = (claim_due_for_dispatch 20 tokens nobody 10 30 requested).0 in
    (length claimed ≤ 10)
    × All (λ y. (m : Command) × Memᴰ m requested × IsDispatchOf 20 50 requested m y) claimed
claim_due_for_dispatch_sound_example = claim_due_for_dispatch_sound 20 tokens nobody 10 30 requested

runtime_effect_update_exact_example :
    IsReportOf
      (row 1 executing)
      executing
      (runtime_effect_update 7 (codes "deployment") 71 executing)
unfolding runs latest_for_subject first
runtime_effect_update_exact_example =
    runtime_effect_update_exact 7 (codes "deployment") 71 executing (row 1 executing) refl

-- The queue refuses every command.
abbrev refusing : ℕ → ℕ → ℕ → Option Exc
refusing i token attempt = some (domain client_timeout_error (codes "redis"))

dispatch_once_delivers_example :
    let claimed = (claim_due_for_dispatch 20 tokens nobody 10 30 requested).0 in
    let (count, rows') = dispatch_once 20 tokens nobody 10 30 2 (λ k. 21) refusing requested in
    (count ≡ length claimed) × (count ≤ 10) × All (IsDelivered 2 (λ k. 21) refusing rows') claimed
dispatch_once_delivers_example =
    dispatch_once_delivers 20 tokens nobody 10 30 2 (λ k. 21) refusing requested
      (Reach-IsValid requested-Reach).keys (λ j. omega arith)

completed_run_settled_example :
    ((s : DeploymentStatus)
      → has_taken_effect (row 0 executing).action s ≡ true
      → (settle (λ k. 30) (row 0 executing) 100 completed (some s) executing).0
        ≡ recorded_effective)
    × ((s : DeploymentStatus)
        → has_taken_effect (row 0 executing).action s ≡ false
        → let (settlement, rows') =
            settle (λ k. 30) (row 0 executing) 100 completed (some s) executing in
          (message : Text) × (settlement ≡ recorded_failure (domain invalid_state_error message))
          × IsFailedRow 30
              (row 0 executing).attempt_count
              (domain invalid_state_error message)
              (row 0 executing).id
              rows')
    × (let (settlement, rows') = settle (λ k. 30) (row 0 executing) 100 completed none executing in
        (message : Text) × (settlement ≡ recorded_failure (domain not_found_error message))
        × IsFailedRow 30
            (row 0 executing).attempt_count
            (domain not_found_error message)
            (row 0 executing).id
            rows')
unfolding runs
completed_run_settled_example =
    completed_run_settled (λ k. 30) (row 0 executing) (row 0 executing) (row 0 executing)
      (row 0 executing) 100 executing refl refl refl

recorded_as_effective :
    (settle (λ k. 30) (row 0 executing) 100 completed (some DeploymentStatus.stopped) executing).0
    ≡ recorded_effective
unfolding runs
recorded_as_effective =
    observed-effective (λ k. 30) (row 0 executing) (row 0 executing) (row 0 executing) 100
      DeploymentStatus.stopped executing refl refl refl

effective_only_if_IsObserved_example :
    IsObserved
      (row 0 executing)
      completed
      (some DeploymentStatus.stopped)
      (settle (λ k. 30) (row 0 executing) 100 completed (some DeploymentStatus.stopped) executing).1
effective_only_if_IsObserved_example =
    effective_only_if_IsObserved (λ k. 30) (row 0 executing) 100 completed
      (some DeploymentStatus.stopped) executing recorded_as_effective

abbrev timeout : Exc
timeout = domain client_timeout_error (codes "docker")

failure_recorded_example :
    let (settlement, rows') =
      settle (λ k. 30) (row 0 executing) 100 (raised timeout) none executing in
    (settlement ≡ recorded_failure timeout)
    × ((m' : Command) × (find id_of 1 rows' ≡ some m')
        × (is_failed m'.status ≡ true)
        × (m'.retryable ≡ is_retryable timeout)
        × (m'.next_attempt_at ≡ 30 + retry_delay 1)
        × (m'.execution_token ≡ none))
unfolding runs
failure_recorded_example =
    failure_recorded (λ k. 30) (row 0 executing) (row 0 executing) 100 timeout none executing refl
      refl
