-- ===== src/BuildLifecycle/Row.antt =====
-- The row of a Build: backend/app/models/build.py, with the columns of BuildAdmission in `base`, and the
-- exceptions of the repository.
use mcplica.Common.{ℕ, Bool, true, false, not, ◌&&◌, ◌||◌, Option, is_some, is_just, Text}
use mathlib.Core.Logic.{ite}
use mcplica.BuildStatus.{BuildStatus, BuildStatus-discrete, ready}
use mcplica.BuildAdmission.{Build}

pub record BuildRow : Type 0 where
  pub base : Build
  pub sequence : ℕ
  pub pipeline_stage : Option BuildStatus
  pub previous_build_id : Option ℕ
  pub canonical_snapshot_id : Option ℕ
  pub analysis_model : Option Text
  pub validation_model : Option Text
  pub prompt_bundle_version : Option Text
  pub embedding_model : Option Text
  pub embedding_dimensions : Option ℕ
  pub enrichment_json : Option Text
  pub enrichment_sha256 : Option Text
  pub manifest_sha256 : Option Text
  pub manifest_storage_key : Option Text
  pub artifact_sha256 : Option Text
  pub artifact_storage_key : Option Text
  pub error_code : Option Text
  pub error_summary : Option Text
  pub started_at : Option ℕ
  pub completed_at : Option ℕ
  pub cancellation_requested_by : Option ℕ
  pub cancellation_acknowledged_at : Option ℕ

abbrev pub row_id : BuildRow → ℕ
row_id r = r.base.id

abbrev pub status_of : BuildRow → BuildStatus
status_of r = r.base.status

abbrev pub is_status : BuildStatus → BuildStatus → Bool
is_status a b = ite (BuildStatus-discrete a b) true false

-- The exceptions of the repository; `integrity_error` is the database's.
pub data BuildError : Type 0 where
  not_found execution_ownership_lost cancellation_requested invalid_state conflict : BuildError
  value_error integrity_error : BuildError

-- The CHECK `ck_builds_ready_complete`, which no method tests before its UPDATE.
abbrev pub is_ready : BuildStatus → Bool
is_ready ready = true
is_ready _ = false

unfoldable pub is_complete : BuildRow → Bool
is_complete r =
    is_some r.canonical_snapshot_id
    && is_some r.enrichment_json
    && is_some r.enrichment_sha256
    && is_some r.manifest_sha256
    && is_some r.manifest_storage_key
    && is_some r.artifact_sha256
    && is_some r.artifact_storage_key
    && is_some r.analysis_model
    && is_some r.validation_model
    && is_some r.prompt_bundle_version
    && not (is_some r.error_code)
    && not (is_some r.error_summary)

abbrev pub ready_complete : BuildRow → Bool
ready_complete r = not (is_ready (status_of r)) || is_complete r

abbrev pub is_owned_by : ℕ → BuildRow → Bool
is_owned_by token r = is_just r.base.admission_token token

abbrev pub is_requested : BuildRow → Bool
is_requested r = is_some r.base.cancellation_requested_at
