-- ===== src/RuntimeCommands/Executor/Settled.antt =====
-- What the settlement of a run records, on every outcome of the runner.
use mcplica.Common.{
  ap, ℕ, zero, suc, Text, codes, ◌+◌, ◌^◌, ◌≤◌, ◌≡◌, refl, min, true, false, Option, none, some,
  List, Result, ok, err, arith, Result-cases, inl, inr, >>=-eq-ok,
}
use mcplica.Common.Table.{find, update, find-update}
use mcplica.RuntimeCommands.{
  Command, Action, OwnershipError, id_of, require_execution_owner, mark_effective, mark_failed,
  is_effective, become_effective, apply_failure, is_failed,
}
use mcplica.RuntimeCommands.Dispatcher.{Exc, domain}
use mcplica.Errors.{invalid_state_error, not_found_error}
use mcplica.RuntimeCommands.Ordering.{owner_row}
use mcplica.RuntimeCommands.Executor.{
  DeploymentStatus, has_taken_effect, ownership_exc, lift, check_deployment,
  verify_and_mark_effective, handle, failure_of, is_retryable, is_ownership_error, retry_delay,
  recorded_effective, recorded_failure, Outcome, completed, raised, cancelled_by, settle,
  settle_completed,
}

lift-eq-ok :
    {A : Type 0} (f : OwnershipError → Exc) (r : Result OwnershipError A) {a : A}
    → lift f r ≡ ok a
    → r ≡ ok a
lift-eq-ok f (ok b) h = cc
lift-eq-ok f (err e) h = cc

check_deployment_ok :
    (action : Action) (deployment : Option DeploymentStatus)
    → check_deployment action deployment ≡ ok tt
    → (s : DeploymentStatus) × (deployment ≡ some s) × (has_taken_effect action s ≡ true)
unfolding check_deployment
check_deployment_ok action none h = cc
check_deployment_ok action (some s) h = (s, refl, ground arith)

verified :
    (clock : ℕ → ℕ) (i token : ℕ) (action : Action) (deployment : Option DeploymentStatus)
    (rows rows' : List Command)
    → verify_and_mark_effective clock i token action deployment rows ≡ ok rows'
    → (mark_effective (clock 1) i token rows ≡ ok rows')
      × ((s : DeploymentStatus) × (deployment ≡ some s) × (has_taken_effect action s ≡ true))
unfolding verify_and_mark_effective
verified clock i token action deployment rows rows' h =
    let (m, owner, rest) =
      >>=-eq-ok (lift ownership_exc (require_execution_owner (clock 0) i token rows)) _ h in
    let (u, checked, marked) = >>=-eq-ok (check_deployment action deployment) _ rest in
    (
      lift-eq-ok ownership_exc (mark_effective (clock 1) i token rows) marked,
      check_deployment_ok action deployment checked,
    )

handle-ne-effective :
    (clock : ℕ → ℕ) (command : Command) (token : ℕ) (exc : Exc) (rows : List Command)
    → ¬ ((handle clock command token exc rows).0 ≡ recorded_effective)
unfolding handle
handle-ne-effective clock command token exc rows h = ground arith

-- The row after `mark_effective`.
marked_row :
    (now i token : ℕ) (rows rows' : List Command)
    → mark_effective now i token rows ≡ ok rows'
    → (m : Command) × (find id_of i rows' ≡ some m) × (is_effective m.status ≡ true)
unfolding mark_effective become_effective
marked_row now i token rows rows' h =
    let (m, e, is) = >>=-eq-ok (require_execution_owner now i token rows) _ h in
    let (at, run, clear, held) = owner_row now i token rows e in
    let same : update id_of i (become_effective now) rows ≡ rows' = cc in
    (
      become_effective now m,
      rw (← same)
          (rw (find-update id_of i i (become_effective now) rows (λ x. refl)) (ground (arith, at))),
      refl,
    )

-- What a run that is recorded as effective has shown.
pub record IsObserved (command : Command) (outcome : Outcome) (deployment : Option DeploymentStatus)
    (rows' : List Command) : Type 0 where
  pub ran : outcome ≡ completed
  pub read_back :
      (s : DeploymentStatus) × (deployment ≡ some s) × (has_taken_effect command.action s ≡ true)
  pub recorded :
      (m : Command) × (find id_of command.id rows' ≡ some m) × (is_effective m.status ≡ true)

-- A run is recorded as effective only if the runner completed and the deployment was read back in a
-- status that the command asked for; the row is then effective.
pub effective_only_if_IsObserved :
    (clock : ℕ → ℕ) (command : Command) (token : ℕ) (outcome : Outcome)
    (deployment : Option DeploymentStatus) (rows : List Command)
    → (settle clock command token outcome deployment rows).0 ≡ recorded_effective
    → IsObserved command outcome deployment (settle clock command token outcome deployment rows).1
unfolding settle settle_completed
effective_only_if_IsObserved clock command token completed deployment rows h =
    elim (Result-cases
      (verify_and_mark_effective clock command.id token command.action deployment rows)) [
        | inl (rows', e) ↦
            let (marked, seen) =
              verified clock command.id token command.action deployment rows rows' e in
            rw (e, settle_completed)
              (record {
                ran = refl;
                read_back = seen;
                recorded = marked_row (clock 1) command.id token rows rows' marked;
              })
        | inr (exc, e) ↦
            absurd
              (handle-ne-effective clock command token exc rows (rw (e, settle_completed) at h))
      ]
effective_only_if_IsObserved clock command token (raised exc) deployment rows h =
    absurd (handle-ne-effective clock command token exc rows h)
effective_only_if_IsObserved clock command token (cancelled_by lost) deployment rows h =
    absurd (ground arith)

-- When the worker still owns the command, an error of the runner other than a loss of ownership
-- becomes a failure of the row, retryable exactly if the error is, and due again after the delay of
-- this attempt.
pub failure_recorded :
    (clock : ℕ → ℕ) (command m : Command) (token : ℕ) (exc : Exc)
    (deployment : Option DeploymentStatus) (rows : List Command)
    → require_execution_owner (clock 2) command.id token rows ≡ ok m
    → is_ownership_error exc ≡ false
    → let (settlement, rows') = settle clock command token (raised exc) deployment rows in
      (settlement ≡ recorded_failure exc)
      × ((m' : Command) × (find id_of command.id rows' ≡ some m')
          × (is_failed m'.status ≡ true)
          × (m'.retryable ≡ is_retryable exc)
          × (m'.next_attempt_at ≡ clock 2 + retry_delay command.attempt_count)
          × (m'.execution_token ≡ none))
unfolding settle handle mark_failed apply_failure failure_of
failure_recorded clock command m token exc deployment rows owner other =
    let f = apply_failure (clock 2) (failure_of command.attempt_count exc) in
    let at = (owner_row (clock 2) command.id token rows owner).0 in
    (
      ground arith,
      (
        f m,
        rw (other, handle)
            (rw (owner, mark_failed)
              (rw (find-update id_of command.id command.id f rows (λ x. refl))
                (ground (arith, at)))),
        refl,
        refl,
        refl,
        refl,
      ),
    )

pow-le : (n : ℕ) → n ≤ 8 → (1 ≤ 2 ^ n) × (2 ^ n ≤ 256)
pow-le zero h = (omega arith, omega arith)
pow-le (suc zero) h = (omega arith, omega arith)
pow-le (suc (suc zero)) h = (omega arith, omega arith)
pow-le (suc (suc (suc zero))) h = (omega arith, omega arith)
pow-le (suc (suc (suc (suc zero)))) h = (omega arith, omega arith)
pow-le (suc (suc (suc (suc (suc zero))))) h = (omega arith, omega arith)
pow-le (suc (suc (suc (suc (suc (suc zero)))))) h = (omega arith, omega arith)
pow-le (suc (suc (suc (suc (suc (suc (suc zero))))))) h = (omega arith, omega arith)
pow-le (suc (suc (suc (suc (suc (suc (suc (suc zero)))))))) h = (omega arith, omega arith)
pow-le (suc (suc (suc (suc (suc (suc (suc (suc (suc n))))))))) h = absurd (omega arith)

-- The delay before the next attempt is at least one second and at most 256 seconds, for every
-- attempt: the cap of 300 seconds is never reached.
pub retry_delay_bounds :
    (attempt_count : ℕ)
    → (1000000 ≤ retry_delay attempt_count) × (retry_delay attempt_count ≤ 256000000)
unfolding retry_delay
retry_delay_bounds n = omega (arith, pow-le (min n 8))

-- A completed run whose worker owns the command at both checks, and whose deployment has reached a
-- status that the command asked for, is recorded as effective.
pub observed-effective :
    (clock : ℕ → ℕ) (command m m' : Command) (token : ℕ) (status : DeploymentStatus)
    (rows : List Command)
    → require_execution_owner (clock 0) command.id token rows ≡ ok m
    → require_execution_owner (clock 1) command.id token rows ≡ ok m'
    → has_taken_effect command.action status ≡ true
    → (settle clock command token completed (some status) rows).0 ≡ recorded_effective
unfolding settle settle_completed verify_and_mark_effective check_deployment mark_effective
observed-effective clock command m m' token status rows first_check second_check reached =
    ground arith

-- Without the deployment, or with its status not reached, the run ends as if it had raised.
unreached :
    (clock : ℕ → ℕ) (command m : Command) (token : ℕ) (deployment : Option DeploymentStatus)
    (rows : List Command) (exc : Exc)
    → require_execution_owner (clock 0) command.id token rows ≡ ok m
    → check_deployment command.action deployment ≡ err exc
    → settle clock command token completed deployment rows
      ≡ settle clock command token (raised exc) deployment rows
unfolding settle settle_completed
unreached clock command m token deployment rows exc owner check =
    let fails : verify_and_mark_effective clock command.id token command.action deployment rows
        ≡ err exc =
      (unfold verify_and_mark_effective in rw (owner, verify_and_mark_effective) (rw check refl)) in
    ap
      (λ r. elim r [
        | ok rows' ↦ (recorded_effective, rows')
        | err e ↦ handle clock command token e rows
      ])
      fails

-- The row of a failure that is recorded at `now`.
pub record IsFailedRow (now attempt : ℕ) (exc : Exc) (i : ℕ) (rows : List Command) : Type 0 where
  pub row : Command
  pub at : find id_of i rows ≡ some row
  pub status : is_failed row.status ≡ true
  pub retryable : row.retryable ≡ is_retryable exc
  pub due : row.next_attempt_at ≡ now + retry_delay attempt
  pub token : row.execution_token ≡ none

unreached_failed :
    (clock : ℕ → ℕ) (command m m2 : Command) (token : ℕ) (deployment : Option DeploymentStatus)
    (rows : List Command) (exc : Exc)
    → require_execution_owner (clock 0) command.id token rows ≡ ok m
    → require_execution_owner (clock 2) command.id token rows ≡ ok m2
    → check_deployment command.action deployment ≡ err exc
    → is_ownership_error exc ≡ false
    → let (settlement, rows') = settle clock command token completed deployment rows in
      (settlement ≡ recorded_failure exc)
      × IsFailedRow (clock 2) command.attempt_count exc command.id rows'
unreached_failed clock command m m2 token deployment rows exc owner owner2 check other =
    let (is, (row, at, status, retryable, due, released)) =
      failure_recorded clock command m2 token exc deployment rows owner2 other in
    rw (unreached clock command m token deployment rows exc owner check) (
      is,
      record {
        row = row;
        at = at;
        status = status;
        retryable = retryable;
        due = due;
        token = released;
      },
    )

-- A completed run whose worker owns the command at the three checks is settled by what is read back:
-- a deployment in a status that the command asked for makes the run effective; a missing deployment
-- or another status makes it a failure, which is recorded on the row, as one that is not found or an
-- invalid state.
pub completed_run_settled :
    (clock : ℕ → ℕ) (command m m1 m2 : Command) (token : ℕ) (rows : List Command)
    → require_execution_owner (clock 0) command.id token rows ≡ ok m
    → require_execution_owner (clock 1) command.id token rows ≡ ok m1
    → require_execution_owner (clock 2) command.id token rows ≡ ok m2
    → ((s : DeploymentStatus)
        → has_taken_effect command.action s ≡ true
        → (settle clock command token completed (some s) rows).0 ≡ recorded_effective)
      × ((s : DeploymentStatus)
          → has_taken_effect command.action s ≡ false
          → let (settlement, rows') = settle clock command token completed (some s) rows in
            (message : Text) × (settlement ≡ recorded_failure (domain invalid_state_error message))
            × IsFailedRow
                (clock 2)
                command.attempt_count
                (domain invalid_state_error message)
                command.id
                rows')
      × (let (settlement, rows') = settle clock command token completed none rows in
          (message : Text) × (settlement ≡ recorded_failure (domain not_found_error message))
          × IsFailedRow
              (clock 2)
              command.attempt_count
              (domain not_found_error message)
              command.id
              rows')
unfolding check_deployment
completed_run_settled clock command m m1 m2 token rows owner owner1 owner2 = (
  λ s reached. observed-effective clock command m m1 token s rows owner owner1 reached,
  λ s missed.
      let message : Text =
        codes "Runtime command completed without reaching its requested effective state" in
      let failed =
        unreached_failed clock command m m2 token (some s) rows (domain invalid_state_error message)
          owner owner2 (rw missed refl) refl in
      (message, failed.0, failed.1),
  let message : Text = codes "Runtime command deployment was not found" in
      let failed =
        unreached_failed clock command m m2 token none rows (domain not_found_error message) owner
          owner2 refl refl in
      (message, failed.0, failed.1),
)
