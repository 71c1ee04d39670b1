-- ===== src/Cleanup.antt =====
-- The cleanup of external objects: `CleanupRepository` of backend/app/repositories/cleanup.py. The state
-- is the two tables; a method is one transaction, from the state to its answer and the state that it
-- commits. `wall` is what `datetime.now` gives and `now` the database time, which stamps
-- `updated_at`. Identifiers and tokens are what `uuid4` gives; a violated constraint is the error
-- that rolls the transaction back.
pub mod Target
pub mod Job
pub mod Capture
pub mod Claim
pub mod Settle
pub mod Accounts
pub mod Due
pub mod Termination
pub mod SettledAccounts
pub mod ClaimedAccounts
pub mod NewAccounts
pub mod Invariant
pub mod Finality
pub mod Captured
pub mod Worker
pub mod Deletion
mod Examples
use mcplica.Common.{
  ℕ, zero, suc, ◌+◌, ◌≡◌, Bool, true, false, not, ◌&&◌, ◌||◌, Option, none, some, List, [], ◌∷◌,
  ◌++◌, ltb, leb, ◌==◌, is_just, is_some, if◌then◌else◌, any, count_p, take, Text, text_eq, Result,
  ok, err, ◌>>=◌, codes,
}
use mcplica.Common.Table.{find, update}
use mcplica.Cleanup.Target.{
  TargetStatus, TargetType, object, vector_generation, CleanupTarget, target_id, is_terminal_target,
  is_running, is_retrying, is_completed, is_skipped, is_failed, key_of,
}
use mcplica.Cleanup.Job.{JobKind, JobStatus, CleanupJob, job_id, find_by_key}

pub record State : Type 0 where
  pub jobs : List CleanupJob
  pub targets : List CleanupTarget

pub data CleanupError : Type 0 where
  integrity_error : CleanupError

pub record NewJob : Type 0 where
  pub new_id : ℕ
  pub kind : JobKind
  pub idempotency_key : Text
  pub project_id : Option ℕ
  pub requested_by : Option ℕ
  pub request_id : Option Text

unfoldable pub new_job : NewJob → CleanupJob
new_job c = record {
  id = c.new_id;
  kind = c.kind;
  status = JobStatus.pending;
  project_id = c.project_id;
  requested_by = c.requested_by;
  request_id = c.request_id;
  idempotency_key = c.idempotency_key;
  total_targets = 0;
  completed_targets = 0;
  skipped_targets = 0;
  failed_targets = 0;
  last_error_code = none;
  last_error_summary = none;
  completed_at = none;
}

unfoldable pub create_job : NewJob → State → Result CleanupError (CleanupJob × State)
create_job c s = elim (find_by_key c.idempotency_key s.jobs) [
  | some existing ↦ ok (existing, s)
  | none ↦
      if is_some (find job_id c.new_id s.jobs)
      then err integrity_error
      else ok (new_job c, record s { jobs = s.jobs ++ new_job c ∷ [] })
]

-- `ON CONFLICT (job_id, target_key) DO NOTHING`
abbrev pub is_duplicate : ℕ → Text → CleanupTarget → Bool
is_duplicate j key t = t.job_id == j && text_eq t.target_key key

unfoldable pub new_target : ℕ → ℕ → ℕ → Text → TargetType → ℕ → CleanupTarget
new_target now i j key type at = record {
  id = i;
  job_id = j;
  target_key = key;
  target_type = type;
  status = TargetStatus.pending;
  attempt_count = 0;
  next_attempt_at = at;
  lease_expires_at = none;
  execution_token = none;
  last_error_code = none;
  last_error_summary = none;
  created_at = now;
  updated_at = now;
}

abbrev pub one_target_more : CleanupJob → CleanupJob
one_target_more j = record j { total_targets = j.total_targets + 1 }

-- INSERT into the targets, with the foreign key to a job, and the count of the job.
unfoldable pub add_target : ℕ → ℕ → ℕ → Text → TargetType → ℕ → State → Result CleanupError State
add_target now i j key type at s =
    if any (is_duplicate j key) s.targets
    then ok s
    else if is_some (find target_id i s.targets)
    then err integrity_error
    else if not (is_some (find job_id j s.jobs))
    then err integrity_error
    else ok record {
      jobs = update job_id j one_target_more s.jobs;
      targets = s.targets ++ new_target now i j key type at ∷ [];
    }

abbrev pub or_wall : ℕ → Option ℕ → ℕ
or_wall wall none = wall
or_wall wall (some at) = at

module _ (sha256 : Text → Text) (str : ℕ → Text) where
  abbrev pub add_object_target : ℕ → ℕ → ℕ → ℕ → Text → Option ℕ → State → Result CleanupError State
  add_object_target now wall i j storage_key not_before s =
      add_target now i j (key_of sha256 str (object storage_key)) (object storage_key)
        (or_wall wall not_before) s

  abbrev pub add_vector_target : ℕ → ℕ → ℕ → ℕ → Text → ℕ → ℕ → State → Result CleanupError State
  add_vector_target now wall i j collection project generation s =
      add_target now i j (key_of sha256 str (vector_generation collection project generation))
        (vector_generation collection project generation) wall s

  -- The rows of a capture, one call for each; `fresh n` is the n-th identifier.
  abbrev pub add_each :
      ℕ → ℕ → (ℕ → ℕ) → ℕ → ℕ → List TargetType → State → Result CleanupError State
  add_each now wall fresh n j [] s = ok s
  add_each now wall fresh n j (object key ∷ types) s =
      add_object_target now wall (fresh n) j key none s >>= λ s'.
      add_each now wall fresh (suc n) j types s'
  add_each now wall fresh n j (vector_generation collection project generation ∷ types) s =
      add_vector_target now wall (fresh n) j collection project generation s >>= λ s'.
      add_each now wall fresh (suc n) j types s'

abbrev pub finish_empty : ℕ → CleanupJob → CleanupJob
finish_empty wall j =
    if j.total_targets == 0
    then record j { status = JobStatus.completed; completed_at = some wall }
    else j

unfoldable pub finalize_empty_job : ℕ → ℕ → State → State
finalize_empty_job wall j s = record s { jobs = update job_id j (finish_empty wall) s.jobs }
