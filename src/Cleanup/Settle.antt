-- ===== src/Cleanup/Settle.antt =====
-- The end of an attempt: `mark_completed`, `mark_failed`, `make_job_due` and `_refresh_job` of
-- backend/app/repositories/cleanup.py.
use mcplica.Common.{
  ℕ, ◌+◌, Bool, true, false, not, ◌&&◌, Option, none, some, List, [], ◌∷◌, map, ltb, leb, ◌==◌,
  is_some, if◌then◌else◌, count_p, take, Text,
}
use mcplica.Common.Table.{find, update}
use mcplica.Cleanup.Target.{
  TargetStatus, CleanupTarget, target_id, is_terminal_target, is_running, is_retrying, is_completed,
  is_skipped, is_failed,
}
use mcplica.Cleanup.Job.{JobStatus, CleanupJob, job_id}
use mcplica.Cleanup.{State}
use mcplica.Cleanup.Claim.{is_attempt}

abbrev pub in_job : ℕ → CleanupTarget → Bool
in_job j t = t.job_id == j

-- The number of targets of a job with a status.
unfoldable pub count_status : (TargetStatus → Bool) → ℕ → List CleanupTarget → ℕ
count_status p j ts = count_p (λ t. t.job_id == j && p t.status) ts

abbrev pub any_status : TargetStatus → Bool
any_status s = true

abbrev pub later : CleanupTarget → Option CleanupTarget → Option CleanupTarget
later t none = some t
later t (some u) = if ltb t.updated_at u.updated_at then some u else some t

-- The target of the job with an error, ORDER BY updated_at DESC LIMIT 1
unfoldable pub error_target : ℕ → List CleanupTarget → Option CleanupTarget
error_target j [] = none
error_target j (t ∷ ts) =
    let rest = error_target j ts in
    if t.job_id == j && is_some t.last_error_code then later t rest else rest

abbrev pub code_of : Option CleanupTarget → Option Text
code_of none = none
code_of (some t) = t.last_error_code

abbrev pub summary_of : Option CleanupTarget → Option Text
summary_of none = none
summary_of (some t) = t.last_error_summary

unfoldable pub job_status : ℕ → List CleanupTarget → JobStatus
job_status j ts =
    let failures = count_status is_failed j ts in
    if count_status any_status j ts
      == count_status is_completed j ts + count_status is_skipped j ts + failures
    then (if failures == 0 then JobStatus.completed else JobStatus.failed)
    else if not (count_status is_retrying j ts == 0)
    then JobStatus.retrying
    else if not (count_status is_running j ts == 0)
    then JobStatus.running
    else JobStatus.pending

abbrev pub is_final : JobStatus → Bool
is_final JobStatus.completed = true
is_final JobStatus.failed = true
is_final _ = false

unfoldable pub refreshed : ℕ → List CleanupTarget → CleanupJob → CleanupJob
refreshed wall ts j = record j {
  status = job_status j.id ts;
  total_targets = count_status any_status j.id ts;
  completed_targets = count_status is_completed j.id ts;
  skipped_targets = count_status is_skipped j.id ts;
  failed_targets = count_status is_failed j.id ts;
  last_error_code = code_of (error_target j.id ts);
  last_error_summary = summary_of (error_target j.id ts);
  completed_at = if is_final (job_status j.id ts) then some wall else none;
}

unfoldable pub refresh_job : ℕ → ℕ → State → State
refresh_job wall j s = record s { jobs = update job_id j (refreshed wall s.targets) s.jobs }

-- A changed target with its job recounted.
unfoldable pub settle_target : ℕ → CleanupTarget → (CleanupTarget → CleanupTarget) → State → State
settle_target wall t f s =
    refresh_job wall t.job_id (record s { targets = update target_id t.id f s.targets })

unfoldable pub complete_target : ℕ → Bool → CleanupTarget → CleanupTarget
complete_target now skipped_referenced t = record t {
  status = if skipped_referenced then TargetStatus.skipped_referenced else TargetStatus.completed;
  lease_expires_at = none;
  execution_token = none;
  last_error_code = none;
  last_error_summary = none;
  updated_at = now;
}

abbrev pub is_shown : Option (ℕ × ℕ) → CleanupTarget → Bool
is_shown none t = false
is_shown (some (token, attempt)) t = is_attempt token attempt t

-- `owner` is the token with the attempt, where the caller gives them.
unfoldable pub mark_completed : ℕ → ℕ → ℕ → Bool → Option (ℕ × ℕ) → State → Bool × State
mark_completed now wall i skipped_referenced owner s = elim (find target_id i s.targets) [
  | none ↦ (false, s)
  | some t ↦
      if is_terminal_target t.status
      then (false, s)
      else if is_running t.status && not (is_shown owner t)
      then (false, s)
      else (true, settle_target wall t (complete_target now skipped_referenced) s)
]

pub record Failure : Type 0 where
  pub error_code : Text
  pub error_summary : Text
  pub max_attempts : ℕ
  pub retry_delay_seconds : ℕ

unfoldable pub fail_target : ℕ → ℕ → Failure → CleanupTarget → CleanupTarget
fail_target now wall e t = record t {
  status =
      if leb e.max_attempts t.attempt_count then TargetStatus.failed else TargetStatus.retrying;
  lease_expires_at = none;
  execution_token = none;
  next_attempt_at = wall + e.retry_delay_seconds;
  last_error_code = some (take 128 e.error_code);
  last_error_summary = some (take 2000 e.error_summary);
  updated_at = now;
}

unfoldable pub mark_failed : ℕ → ℕ → ℕ → Failure → ℕ → ℕ → State → Bool × State
mark_failed now wall i e token attempt s = elim (find target_id i s.targets) [
  | none ↦ (false, s)
  | some t ↦
      if is_running t.status && is_attempt token attempt t
      then (true, settle_target wall t (fail_target now wall e) s)
      else (false, s)
]

abbrev pub awaits_attempt : TargetStatus → Bool
awaits_attempt TargetStatus.pending = true
awaits_attempt TargetStatus.retrying = true
awaits_attempt _ = false

abbrev pub make_due : ℕ → ℕ → ℕ → CleanupTarget → CleanupTarget
make_due now wall j t =
    if t.job_id == j && awaits_attempt t.status
    then record t { next_attempt_at = wall; updated_at = now }
    else t

unfoldable pub make_job_due : ℕ → ℕ → ℕ → State → State
make_job_due now wall j s = record s { targets = map (make_due now wall j) s.targets }
