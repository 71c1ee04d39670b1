-- ===== src/BuildLifecycle.antt =====
-- The life of a Build: the methods of `BuildRepository` in backend/app/repositories/builds.py that
-- write a row, with `require_build_execution_owner` of backend/app/repositories/build_execution.py. A
-- method is one transaction, from the table to the table that it commits or the exception that
-- rolls it back; `now` is the database time, `wall` what `datetime.now` gives. A row is that of
-- BuildAdmission with the columns that the pipeline writes. The rows of `BuildSourceVersion` and
-- `DocumentIndexGeneration`, and the advisory lock of `lock_object_reference`, are left out.
pub mod Row
pub mod Create
pub mod Evolution
pub mod Steps
pub mod Invariant
pub mod Outcome
pub mod Fencing
mod Examples
use mcplica.Common.{
  ℕ, zero, suc, ◌+◌, ◌≡◌, Bool, true, false, not, ◌&&◌, ◌||◌, Option, none, some, List, [], ◌∷◌,
  ◌++◌, ltb, leb, ◌==◌, is_just, is_some, if◌then◌else◌, any, max, take, Text, Result, ok, err,
  ◌>>=◌, ◌>>◌, raise_if,
}
use mathlib.Core.Logic.{ite}
use mcplica.Common.Table.{find, update}
use mcplica.BuildStatus.{
  BuildStatus, BuildStatus-discrete, StatusError, queued, parsing, indexing, analyzing, compiling,
  packaging, ready, failed, cancelled, is_terminal, is_queued, next_status,
}
use mcplica.BuildAdmission.{Build, clear_admission, owns_lease}
use mcplica.BuildLifecycle.Row.{
  BuildRow, BuildError, row_id, status_of, is_status, not_found, execution_ownership_lost,
  cancellation_requested, invalid_state, value_error, integrity_error, ready_complete, is_owned_by,
  is_requested,
}

-- UPDATE … WHERE id = i AND p: the table with a row changed, or `none` for a row count of zero.
pub update_where :
    ℕ
    → (BuildRow → Bool)
    → (BuildRow → BuildRow)
    → List BuildRow
    → Result BuildError (Option (List BuildRow))
update_where i p f rows = elim (find row_id i rows) [
  | none ↦ ok none
  | some r ↦
      if not (p r)
      then ok none
      else if ready_complete (f r)
      then ok (some (update row_id i f rows))
      else err integrity_error
]

-- `if result.rowcount != 1: raise InvalidStateError`
abbrev pub exactly_one : Option (List BuildRow) → Result BuildError (List BuildRow)
exactly_one none = err invalid_state
exactly_one (some rows) = ok rows

-- `require_build_execution_owner`
pub require_owner : ℕ → ℕ → ℕ → Bool → List BuildRow → Result BuildError BuildRow
require_owner now i token allow_cancellation rows = elim (find row_id i rows) [
  | none ↦ err not_found
  | some r ↦
      if not (owns_lease now token r.base)
      then err execution_ownership_lost
      else if is_some r.base.cancellation_requested_at && not allow_cancellation
      then err cancellation_requested
      else ok r
]

-- The test of `transition` on its two statuses.
pub is_next : BuildStatus → BuildStatus → Result BuildError (Unit {0})
is_next expected target = elim (next_status expected) [
  | ok s ↦ raise_if (not (is_status s target)) invalid_state
  | err e ↦ err value_error
]

abbrev pub maybe_released : ℕ → Bool → Build → Build
maybe_released wall true b = clear_admission wall b
maybe_released wall false b = b

pub enter : ℕ → BuildStatus → BuildStatus → BuildRow → BuildRow
enter wall expected target r = record r {
  base = record (maybe_released wall (is_terminal target) r.base) { status = target };
  pipeline_stage = some target;
  started_at = if is_queued expected then some wall else r.started_at;
  completed_at = if is_terminal target then some wall else r.completed_at;
}

pub transition :
    ℕ → ℕ → ℕ → BuildStatus → BuildStatus → ℕ → List BuildRow → Result BuildError (List BuildRow)
transition now wall i expected target token rows = do
  r ← require_owner now i token false rows
  is_next expected target
  updated ←
      update_where i
        (λ r. is_owned_by token r && (is_status (status_of r) expected && not (is_requested r)))
        (enter wall expected target) rows
  exactly_one updated

pub mark_ready : ℕ → ℕ → ℕ → ℕ → List BuildRow → Result BuildError (List BuildRow)
mark_ready now wall i token rows = transition now wall i packaging ready token rows

-- `_stage_update`; `f` writes the columns.
pub stage_update :
    ℕ
    → ℕ
    → BuildStatus
    → ℕ
    → (BuildRow → BuildRow)
    → List BuildRow
    → Result BuildError (List BuildRow)
stage_update now i status token f rows = do
  r ← require_owner now i token false rows
  updated ←
      update_where i
        (λ r. is_owned_by token r && (is_status (status_of r) status && not (is_requested r))) f
        rows
  exactly_one updated

-- What the five setters write, with the status in which they may.
pub data StageValues : Type 0 where
  canonical_snapshot : ℕ → StageValues
  embedding : Option Text → ℕ → StageValues
  enrichment manifest artifact : Text → Text → StageValues

abbrev pub stage_of : StageValues → BuildStatus
stage_of (canonical_snapshot id) = parsing
stage_of (embedding model dimensions) = indexing
stage_of (enrichment json sha256) = analyzing
stage_of (manifest sha256 key) = compiling
stage_of (artifact sha256 key) = packaging

pub write_values : StageValues → BuildRow → BuildRow
write_values (canonical_snapshot id) r = record r { canonical_snapshot_id = some id }
write_values (embedding model dimensions) r = record r {
  embedding_model = model;
  embedding_dimensions = some dimensions;
}
write_values (enrichment json sha256) r = record r {
  enrichment_json = some json;
  enrichment_sha256 = some sha256;
}
write_values (manifest sha256 key) r = record r {
  manifest_sha256 = some sha256;
  manifest_storage_key = some key;
}
write_values (artifact sha256 key) r = record r {
  artifact_sha256 = some sha256;
  artifact_storage_key = some key;
}

-- `set_canonical_snapshot`, `set_embedding_metadata`, `set_enrichment`, `set_manifest` and
-- `set_artifact`; the last two test the ownership twice.
pub set_values : ℕ → ℕ → ℕ → StageValues → List BuildRow → Result BuildError (List BuildRow)
set_values now i token v rows = stage_update now i (stage_of v) token (write_values v) rows

pub become_failed : ℕ → Text → Text → BuildRow → BuildRow
become_failed wall code summary r = record r {
  base = record (clear_admission wall r.base) { status = failed };
  error_code = some (take 128 code);
  error_summary = some (take 1000 summary);
  completed_at = some wall;
}

-- The row count is not looked at.
abbrev pub or_unchanged : List BuildRow → Option (List BuildRow) → List BuildRow
or_unchanged rows none = rows
or_unchanged rows (some rows') = rows'

pub fail : ℕ → ℕ → ℕ → Text → Text → ℕ → List BuildRow → Result BuildError (List BuildRow)
fail now wall i code summary token rows = do
  r ← require_owner now i token false rows
  updated ←
      update_where i
        (λ r. is_owned_by token r && (not (is_terminal (status_of r)) && not (is_requested r)))
        (become_failed wall code summary) rows
  ok (or_unchanged rows updated)

pub ask_cancellation : ℕ → ℕ → BuildRow → BuildRow
ask_cancellation wall requested_by r = record r {
  base = record r.base { cancellation_requested_at = some wall };
  cancellation_requested_by = some requested_by;
}

pub request_cancellation : ℕ → ℕ → ℕ → List BuildRow → Result BuildError (List BuildRow)
request_cancellation wall i requested_by rows = elim (find row_id i rows) [
  | none ↦ err invalid_state
  | some r ↦
      if is_terminal (status_of r)
      then err invalid_state
      else if is_requested r
      then ok rows
      else ok (update row_id i (ask_cancellation wall requested_by) rows)
]

pub become_cancelled : ℕ → BuildRow → BuildRow
become_cancelled wall r = record r {
  base = record (clear_admission wall r.base) { status = cancelled };
  completed_at = some wall;
  cancellation_acknowledged_at = some wall;
  manifest_sha256 = none;
  manifest_storage_key = none;
  artifact_sha256 = none;
  artifact_storage_key = none;
}

-- With no row updated, a Build that is cancelled already is returned as it is.
abbrev pub or_cancelled :
    ℕ → List BuildRow → Option (List BuildRow) → Result BuildError (List BuildRow)
or_cancelled i rows (some rows') = ok rows'
or_cancelled i rows none = elim (find row_id i rows) [
  | none ↦ err invalid_state
  | some r ↦ if is_status (status_of r) cancelled then ok rows else err invalid_state
]

pub acknowledge_cancellation : ℕ → ℕ → ℕ → ℕ → List BuildRow → Result BuildError (List BuildRow)
acknowledge_cancellation now wall i token rows = do
  r ← require_owner now i token true rows
  updated ←
      update_where i
        (λ r. is_owned_by token r && (not (is_terminal (status_of r)) && is_requested r))
        (become_cancelled wall) rows
  or_cancelled i rows updated
