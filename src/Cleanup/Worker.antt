-- ===== src/Cleanup/Worker.antt =====
-- The worker of backend/app/services/cleanup.py: `_process`, in its two transactions, with the audit
-- of a job that has ended. What deletes an object or a generation, and the queries on the other
-- tables that tell whether one is referenced, are parameters; `elsewhere` is what other
-- transactions do between the two.
use mcplica.Common.{
  ℕ, ◌-◌, ◌*◌, ◌^◌, min, Bool, true, false, not, Option, none, some, List, [], ◌∷◌, ◌==◌, is_some,
  if◌then◌else◌, Text, codes, to_lower,
}
use mcplica.Common.Table.{find}
use mcplica.Cleanup.Target.{TargetType, CleanupTarget}
use mcplica.Cleanup.Job.{CleanupJob, job_id}
use mcplica.Cleanup.{State}
use mcplica.Cleanup.Claim.{lock_claimed_target}
use mcplica.Cleanup.Settle.{mark_completed, Failure, mark_failed}

-- An exception: one of the program's own, with its code and text, or another, with its type's name.
pub data Raised : Type 0 where
  own : Text → Text → Raised
  other : Text → Raised

abbrev pub code_of : Raised → Text
code_of (own code text) = to_lower code
code_of (other name) = codes "cleanup_target_failed"

abbrev pub summary_of : Raised → Text
summary_of (own code text) = text
summary_of (other name) = name

-- The delay doubles with each attempt, up to an hour.
unfoldable pub retry_delay : ℕ → ℕ → ℕ
retry_delay interval_seconds attempt = min 3600 (interval_seconds * 2 ^ (attempt - 1))

abbrev pub failure_of : ℕ → ℕ → ℕ → Raised → Failure
failure_of interval_seconds max_attempts attempt e = record {
  error_code = code_of e;
  error_summary = summary_of e;
  max_attempts = max_attempts;
  retry_delay_seconds = retry_delay interval_seconds attempt;
}

-- `cleanup.failed` or `cleanup.completed`, with the row of the job.
pub data AuditEvent : Type 0 where
  cleanup_failed cleanup_completed : CleanupJob → AuditEvent

unfoldable pub append_terminal_audit : ℕ → State → List AuditEvent
append_terminal_audit j s = elim (find job_id j s.jobs) [
  | none ↦ []
  | some job ↦
      if not (is_some job.completed_at)
      then []
      else (if job.failed_targets == 0 then cleanup_completed job else cleanup_failed job) ∷ []
]

abbrev pub audit_if : Bool → ℕ → State → List AuditEvent
audit_if true j s = append_terminal_audit j s
audit_if false j s = []

-- The first transaction: it commits, or raises and is rolled back.
pub data Outcome : Type 0 where
  committed : State → List AuditEvent → Outcome
  rolled_back : Raised → Outcome

pub record Attempt : Type 0 where
  pub outcome : Outcome
  pub deletions : List TargetType

pub record Settings : Type 0 where
  pub interval_seconds : ℕ
  pub max_attempts : ℕ

-- The second transaction.
unfoldable pub record_failure :
    ℕ → ℕ → ℕ → ℕ → ℕ → CleanupTarget → Raised → State → State × List AuditEvent
record_failure now wall interval_seconds max_attempts token t e s =
    let (failed, s') =
      mark_failed now wall t.id (failure_of interval_seconds max_attempts t.attempt_count e) token
        t.attempt_count s in
    (s', audit_if failed t.job_id s')

module _ (is_referenced : TargetType → Bool) (delete : TargetType → Option Raised) where
  unfoldable pub finish : ℕ → ℕ → Bool → ℕ → CleanupTarget → State → Outcome
  finish now wall referenced token t s =
      let (completed, s') =
        mark_completed now wall t.id referenced (some (token, t.attempt_count)) s in
      committed s' (audit_if completed t.job_id s')

  unfoldable pub delete_claimed : ℕ → ℕ → ℕ → CleanupTarget → State → Attempt
  delete_claimed now wall token t s =
      if is_referenced t.target_type
      then record { outcome = finish now wall true token t s; deletions = [] }
      else record {
        outcome = elim (delete t.target_type) [
          | some e ↦ rolled_back e
          | none ↦ finish now wall false token t s
        ];
        deletions = t.target_type ∷ [];
      }

  -- `wall` is the time of the lock, `wall'` that of the completion.
  unfoldable pub attempt : ℕ → ℕ → ℕ → ℕ → CleanupTarget → State → Attempt
  attempt now wall wall' token t s = elim (lock_claimed_target wall t.id token t.attempt_count s) [
    | none ↦ record { outcome = committed s []; deletions = [] }
    | some claimed ↦ delete_claimed now wall' token claimed s
  ]

  unfoldable pub process_claimed :
      ℕ
      → ℕ
      → ℕ
      → ℕ
      → ℕ
      → Settings
      → (State → State)
      → ℕ
      → CleanupTarget
      → State
      → State × List AuditEvent
  process_claimed now wall wall' now' wall'' settings elsewhere token t s =
      elim (attempt now wall wall' token t s).outcome [
        | committed s' events ↦ (s', events)
        | rolled_back e ↦
            record_failure now' wall'' settings.interval_seconds settings.max_attempts token t e
              (elsewhere s)
      ]

  -- `_process`: a target without a token is passed over.
  unfoldable pub process :
      ℕ
      → ℕ
      → ℕ
      → ℕ
      → ℕ
      → Settings
      → (State → State)
      → CleanupTarget
      → State
      → State × List AuditEvent
  process now wall wall' now' wall'' settings elsewhere t s = elim t.execution_token [
    | none ↦ (s, [])
    | some token ↦ process_claimed now wall wall' now' wall'' settings elsewhere token t s
  ]
