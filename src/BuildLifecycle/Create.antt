-- ===== src/BuildLifecycle/Create.antt =====
-- The creation of a Build: `BuildRepository.create` of backend/app/repositories/builds.py.
use mcplica.Common.{
  ℕ, ◌+◌, Bool, not, ◌&&◌, Option, none, some, List, [], ◌∷◌, ◌++◌, ltb, ◌==◌, is_some,
  if◌then◌else◌, any, max, Text, Result, ok, err,
}
use mcplica.Common.Table.{find}
use mcplica.BuildStatus.{queued, is_terminal}
use mcplica.BuildLifecycle.Row.{
  BuildRow, BuildError, row_id, status_of, is_ready, conflict, integrity_error,
}

pub record NewBuild : Type 0 where
  pub build_id : ℕ
  pub project_id : ℕ
  pub requested_by : ℕ
  pub analysis_model : Text
  pub validation_model : Text
  pub embedding_model : Option Text
  pub prompt_bundle_version : Text

abbrev pub in_project : ℕ → BuildRow → Bool
in_project p r = r.base.project_id == p

-- `active_for_project`
abbrev pub is_active_in : ℕ → BuildRow → Bool
is_active_in p r = in_project p r && not (is_terminal (status_of r))

-- `max(sequence)` of the project, 0 without a Build
unfoldable pub max_sequence : ℕ → List BuildRow → ℕ
max_sequence p [] = 0
max_sequence p (r ∷ rs) =
    let rest = max_sequence p rs in if in_project p r then max r.sequence rest else rest

abbrev pub newer : BuildRow → Option BuildRow → Option BuildRow
newer r none = some r
newer r (some s) = if ltb s.sequence r.sequence then some r else some s

-- The READY Build of the project with the greatest sequence
unfoldable pub latest_ready : ℕ → List BuildRow → Option BuildRow
latest_ready p [] = none
latest_ready p (r ∷ rs) =
    let rest = latest_ready p rs in
    if in_project p r && is_ready (status_of r) then newer r rest else rest

abbrev pub id_of_row : Option BuildRow → Option ℕ
id_of_row none = none
id_of_row (some r) = some r.base.id

unfoldable pub new_build : ℕ → NewBuild → List BuildRow → BuildRow
new_build now c rows = record {
  base = record {
    id = c.build_id;
    project_id = c.project_id;
    requested_by = c.requested_by;
    status = queued;
    created_at = now;
    cancellation_requested_at = none;
    admission_token = none;
    admission_acquired_at = none;
    admission_enqueued_at = none;
    admission_heartbeat_at = none;
    admission_lease_expires_at = none;
    admission_released_at = none;
    admission_attempt_count = 0;
  };
  sequence = max_sequence c.project_id rows + 1;
  pipeline_stage = some queued;
  previous_build_id = id_of_row (latest_ready c.project_id rows);
  canonical_snapshot_id = none;
  analysis_model = some c.analysis_model;
  validation_model = some c.validation_model;
  prompt_bundle_version = some c.prompt_bundle_version;
  embedding_model = c.embedding_model;
  embedding_dimensions = none;
  enrichment_json = none;
  enrichment_sha256 = none;
  manifest_sha256 = none;
  manifest_storage_key = none;
  artifact_sha256 = none;
  artifact_storage_key = none;
  error_code = none;
  error_summary = none;
  started_at = none;
  completed_at = none;
  cancellation_requested_by = none;
  cancellation_acknowledged_at = none;
}

-- A primary key that is taken violates the table's constraint.
unfoldable pub create : ℕ → NewBuild → List BuildRow → Result BuildError (List BuildRow)
create now c rows =
    if any (is_active_in c.project_id) rows
    then err conflict
    else if is_some (find row_id c.build_id rows)
    then err integrity_error
    else ok (rows ++ new_build now c rows ∷ [])
