-- ===== src/Cleanup/Claim.antt =====
-- `claim_due_targets` and `lock_claimed_target` of backend/app/repositories/cleanup.py.
use mcplica.Common.{
  ℕ, zero, suc, ◌+◌, Bool, true, false, not, ◌&&◌, ◌||◌, Option, none, some, List, [], ◌∷◌, ltb,
  leb, ◌==◌, is_just, is_some, if◌then◌else◌,
}
use mcplica.Common.Table.{find, update}
use mcplica.Cleanup.Target.{TargetStatus, CleanupTarget, target_id, is_terminal_target, is_running}
use mcplica.Cleanup.Job.{JobStatus, CleanupJob, job_id}
use mcplica.Cleanup.{State}

-- A column that is NULL or at most `t`.
abbrev pub is_past : ℕ → Option ℕ → Bool
is_past t none = true
is_past t (some at) = leb at t

-- A status other than PENDING, RUNNING and RETRYING is terminal.
abbrev pub is_due : ℕ → CleanupTarget → Bool
is_due cutoff t =
    not (is_terminal_target t.status)
    && leb t.next_attempt_at cutoff
    && is_past cutoff t.lease_expires_at

abbrev pub comes_before : CleanupTarget → CleanupTarget → Bool
comes_before t u =
    ltb t.next_attempt_at u.next_attempt_at
    || t.next_attempt_at == u.next_attempt_at && ltb t.created_at u.created_at

abbrev pub earlier : CleanupTarget → Option CleanupTarget → Option CleanupTarget
earlier t none = some t
earlier t (some u) = if comes_before u t then some u else some t

-- ORDER BY next_attempt_at, created_at LIMIT 1
unfoldable pub first_due : (CleanupTarget → Bool) → List CleanupTarget → Option CleanupTarget
first_due p [] = none
first_due p (t ∷ ts) = let rest = first_due p ts in if p t then earlier t rest else rest

-- The rows that other transactions hold while one turn of the loop reads: SKIP LOCKED passes over
-- them.
pub record Locks : Type 0 where
  pub job_locked : ℕ → Bool
  pub target_locked : ℕ → Bool

-- The due target whose job is locked, and the target that is taken of this job.
unfoldable pub due_job : Locks → ℕ → State → Option ℕ
due_job l cutoff s =
    elim (first_due
      (λ t.
        is_due cutoff t && (is_some (find job_id t.job_id s.jobs) && not (l.job_locked t.job_id)))
      s.targets) [ none ↦ none | some t ↦ some t.job_id ]

unfoldable pub due_target : Locks → ℕ → ℕ → State → Option CleanupTarget
due_target l cutoff j s =
    first_due (λ t. is_due cutoff t && (t.job_id == j && not (l.target_locked t.id))) s.targets

unfoldable pub start_target : ℕ → ℕ → ℕ → ℕ → CleanupTarget → CleanupTarget
start_target now wall lease_seconds token t = record t {
  status = TargetStatus.running;
  attempt_count = t.attempt_count + 1;
  execution_token = some token;
  lease_expires_at = some (wall + lease_seconds);
  next_attempt_at = wall + lease_seconds;
  last_error_code = none;
  last_error_summary = none;
  updated_at = now;
}

abbrev pub start_job : CleanupJob → CleanupJob
start_job j = record j { status = JobStatus.running; completed_at = none }

unfoldable pub claim : ℕ → ℕ → ℕ → ℕ → CleanupTarget → State → State
claim now wall lease_seconds token t s = record {
  jobs = update job_id t.job_id start_job s.jobs;
  targets = update target_id t.id (start_target now wall lease_seconds token) s.targets;
}

-- A turn of the loop: no job is due; the target is held by somebody else, and the loop goes on; or
-- a target is claimed.
pub data Turn : Type 0 where
  finished held : Turn
  claimed : CleanupTarget → Turn

unfoldable pub turn : Locks → ℕ → State → Turn
turn l cutoff s = elim (due_job l cutoff s) [
  | none ↦ finished
  | some j ↦ elim (due_target l cutoff j s) [ none ↦ held | some t ↦ claimed t ]
]

abbrev pub with_claim :
    CleanupTarget → Option (List CleanupTarget × State) → Option (List CleanupTarget × State)
with_claim t none = none
with_claim t (some (ts, s)) = some (t ∷ ts, s)

-- The loop, one turn for each element of `locks`; `none` if it has not ended by then. The token of
-- a claim is `fresh` of the number of claims that the limit still allows.
unfoldable pub claim_turns :
    ℕ → ℕ → ℕ → ℕ → (ℕ → ℕ) → List Locks → ℕ → State → Option (List CleanupTarget × State)
claim_turns now wall cutoff lease_seconds fresh locks zero s = some ([], s)
claim_turns now wall cutoff lease_seconds fresh [] (suc n) s = none
claim_turns now wall cutoff lease_seconds fresh (l ∷ locks) (suc n) s = elim (turn l cutoff s) [
  | finished ↦ some ([], s)
  | held ↦ claim_turns now wall cutoff lease_seconds fresh locks (suc n) s
  | claimed t ↦ with_claim (start_target now wall lease_seconds (fresh n) t) (
      claim_turns now wall cutoff lease_seconds fresh locks n
        (claim now wall lease_seconds (fresh n) t s))
]

-- Without `eligible_at` the time of the claim counts.
abbrev pub cutoff_of : ℕ → Option ℕ → ℕ
cutoff_of wall none = wall
cutoff_of wall (some eligible_at) = eligible_at

abbrev pub claim_due_targets :
    ℕ → ℕ → Option ℕ → ℕ → (ℕ → ℕ) → List Locks → ℕ → State → Option (List CleanupTarget × State)
claim_due_targets now wall eligible_at lease_seconds fresh locks limit s =
    claim_turns now wall (cutoff_of wall eligible_at) lease_seconds fresh locks limit s

-- The token and the attempt that a worker shows.
abbrev pub is_attempt : ℕ → ℕ → CleanupTarget → Bool
is_attempt token attempt t = is_just t.execution_token token && t.attempt_count == attempt

abbrev pub is_future : ℕ → Option ℕ → Bool
is_future t none = false
is_future t (some at) = ltb t at

unfoldable pub lock_claimed_target : ℕ → ℕ → ℕ → ℕ → State → Option CleanupTarget
lock_claimed_target wall i token attempt s = elim (find target_id i s.targets) [
  | none ↦ none
  | some t ↦
      if is_running t.status && is_attempt token attempt t && is_future wall t.lease_expires_at
      then some t
      else none
]
