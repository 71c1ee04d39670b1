-- ===== src/Cleanup/Job.antt =====
-- A cleanup job: the row of backend/app/models/cleanup.py with the enumerations of
-- backend/app/domain/cleanup.py.
use mcplica.Common.{ℕ, Option, none, some, List, [], ◌∷◌, Text, text_eq, if◌then◌else◌}

pub data JobKind : Type 0 where
  project_delete source_delete retention orphan_guard : JobKind

pub data JobStatus : Type 0 where
  pending running retrying completed failed : JobStatus

pub record CleanupJob : Type 0 where
  pub id : ℕ
  pub kind : JobKind
  pub status : JobStatus
  pub project_id : Option ℕ
  pub requested_by : Option ℕ
  pub request_id : Option Text
  pub idempotency_key : Text
  pub total_targets : ℕ
  pub completed_targets : ℕ
  pub skipped_targets : ℕ
  pub failed_targets : ℕ
  pub last_error_code : Option Text
  pub last_error_summary : Option Text
  pub completed_at : Option ℕ

abbrev pub job_id : CleanupJob → ℕ
job_id j = j.id

-- SELECT … WHERE idempotency_key = key
unfoldable pub find_by_key : Text → List CleanupJob → Option CleanupJob
find_by_key key [] = none
find_by_key key (j ∷ jobs) = if text_eq j.idempotency_key key then some j else find_by_key key jobs
