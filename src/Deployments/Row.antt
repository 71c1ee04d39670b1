-- ===== src/Deployments/Row.antt =====
-- The row of a deployment (backend/app/models/deployment.py) with the columns of the project that the
-- repository writes, and the evidence of an activation of backend/app/domain/deployments.py.
use mcplica.Common.{
  ℕ, List, Bool, true, false, not, ◌&&◌, ◌||◌, Option, some, is_some, is_just, Text, text_eq,
  is_text, codes,
}
use mcplica.RuntimeCommands.Executor.{
  DeploymentStatus, pending, deploying, healthcheck, running, stopping, stopped, failed, unhealthy,
}

pub data Intent : Type 0 where
  normal security_refresh rollback : Intent

pub data Phase : Type 0 where
  verified retiring_previous phase_running legacy_running phase_failed : Phase

pub record Deployment : Type 0 where
  pub id : ℕ
  pub project_id : ℕ
  pub build_id : ℕ
  pub intent : Intent
  pub previous_active_deployment_id : Option ℕ
  pub status : DeploymentStatus
  pub hostname : Text
  pub container_name : Text
  pub container_id : Option Text
  pub image_ref : Text
  pub image_digest : Option Text
  pub runtime_version : Text
  pub network_name : Text
  pub manifest_sha256 : Text
  pub auth_overlay_sha256 : Option Text
  pub route_priority : ℕ
  pub stop_old_first : Bool
  pub health_status : Option Text
  pub deployed_by : ℕ
  pub started_at : Option ℕ
  pub activated_at : Option ℕ
  pub activation_phase : Option Phase
  pub activation_verified_at : Option ℕ
  pub activation_proof_sha256 : Option Text
  pub stopped_at : Option ℕ
  pub failed_at : Option ℕ
  pub error_code : Option Text
  pub error_summary : Option Text

pub record Project : Type 0 where
  pub id : ℕ
  pub is_enabled : Bool
  pub active_build_id : Option ℕ
  pub active_deployment_id : Option ℕ

pub record State : Type 0 where
  pub projects : List Project
  pub deployments : List Deployment

abbrev pub row_id : Deployment → ℕ
row_id d = d.id

abbrev pub project_key : Project → ℕ
project_key p = p.id

abbrev pub is_running : DeploymentStatus → Bool
is_running running = true
is_running _ = false

abbrev pub is_healthcheck : DeploymentStatus → Bool
is_healthcheck healthcheck = true
is_healthcheck _ = false

-- DEPLOYING or HEALTHCHECK
abbrev pub is_starting : DeploymentStatus → Bool
is_starting deploying = true
is_starting healthcheck = true
is_starting _ = false

-- The statuses of the index `uq_deployments_one_in_progress_per_project`
abbrev pub is_in_progress : DeploymentStatus → Bool
is_in_progress pending = true
is_in_progress deploying = true
is_in_progress healthcheck = true
is_in_progress _ = false

-- STOPPING or STOPPED
abbrev pub is_retired : DeploymentStatus → Bool
is_retired stopping = true
is_retired stopped = true
is_retired _ = false

abbrev pub is_stopping : DeploymentStatus → Bool
is_stopping stopping = true
is_stopping _ = false

-- What the proof of an activation is about.
pub record ActivationProof : Type 0 where
  pub deployment_id : ℕ
  pub project_id : ℕ
  pub build_id : ℕ
  pub container_id : Text
  pub image_digest : Text
  pub hostname : Text
  pub manifest_sha256 : Text
  pub runtime_version : Text
  pub verified_at : ℕ

abbrev pub identity : Deployment → Text → Text → ℕ → ActivationProof
identity d container digest at = record {
  deployment_id = d.id;
  project_id = d.project_id;
  build_id = d.build_id;
  container_id = container;
  image_digest = digest;
  hostname = d.hostname;
  manifest_sha256 = d.manifest_sha256;
  runtime_version = d.runtime_version;
  verified_at = at;
}

abbrev pub is_proof :
    (ActivationProof → Text)
    → (Text → Text → ℕ → ActivationProof)
    → Option Text
    → Option Text
    → Option ℕ
    → Option Text
    → Bool
is_proof hash make (some container) (some digest) (some at) (some proof) =
    text_eq (hash (make container digest at)) proof
is_proof hash make _ _ _ _ = false

-- `hash` is the SHA-256 of the JSON text of a proof. The row holds the hash of its own identity.
unfoldable pub has_proof : (ActivationProof → Text) → Deployment → Bool
has_proof hash d =
    is_proof hash (identity d) d.container_id d.image_digest d.activation_verified_at
      d.activation_proof_sha256

abbrev pub is_legacy : Option Phase → Bool
is_legacy (some legacy_running) = true
is_legacy _ = false

unfoldable pub has_successful_activation : (ActivationProof → Text) → Deployment → Bool
has_successful_activation hash d =
    (is_some d.activated_at
      && is_some d.started_at
      && is_some d.container_id
      && is_some d.image_digest)
    && (is_legacy d.activation_phase || has_proof hash d)

unfoldable pub is_rollback_eligible : (ActivationProof → Text) → Option ℕ → Deployment → Bool
is_rollback_eligible hash active d = not (is_just active d.id) && has_successful_activation hash d

unfoldable pub is_restart_eligible : (ActivationProof → Text) → Option ℕ → Deployment → Bool
is_restart_eligible hash active d =
    is_just active d.id && is_running d.status && has_successful_activation hash d

-- VERIFIED, RETIRING_PREVIOUS or RUNNING: the phases that ask for a proof
abbrev pub is_proven_phase : Option Phase → Bool
is_proven_phase (some verified) = true
is_proven_phase (some retiring_previous) = true
is_proven_phase (some phase_running) = true
is_proven_phase _ = false

abbrev pub is_running_phase : Option Phase → Bool
is_running_phase (some phase_running) = true
is_running_phase (some legacy_running) = true
is_running_phase _ = false

abbrev pub is_retiring : Option Phase → Bool
is_retiring (some retiring_previous) = true
is_retiring _ = false

-- VERIFIED or RETIRING_PREVIOUS
abbrev pub may_retire : Option Phase → Bool
may_retire (some verified) = true
may_retire (some retiring_previous) = true
may_retire _ = false

-- `ck_deployments_running_complete`
unfoldable pub running_complete : Deployment → Bool
running_complete d =
    not (is_running d.status)
    || is_some d.container_id
      && is_some d.image_digest
      && is_some d.started_at
      && is_some d.activated_at
      && is_running_phase d.activation_phase
      && is_text d.health_status (codes "healthy")

-- `ck_deployments_activation_proof`, without the pattern of the digest
abbrev pub has_activation_proof : Deployment → Bool
has_activation_proof d =
    not (is_proven_phase d.activation_phase)
    || is_some d.activation_verified_at && is_some d.activation_proof_sha256

-- `ck_deployments_activation_success_evidence`, without the pattern of the digest
abbrev pub has_success_evidence : Deployment → Bool
has_success_evidence d =
    not (is_some d.activated_at)
    || is_some d.started_at
      && is_some d.container_id
      && is_some d.image_digest
      && (is_legacy d.activation_phase
          || is_some d.activation_verified_at && is_some d.activation_proof_sha256)

-- FAILED or UNHEALTHY
abbrev pub is_failure : DeploymentStatus → Bool
is_failure failed = true
is_failure unhealthy = true
is_failure _ = false

-- `ck_deployments_failure_complete`
abbrev pub failure_complete : Deployment → Bool
failure_complete d = not (is_failure d.status) || is_some d.failed_at && is_some d.error_code

abbrev pub is_stopped : DeploymentStatus → Bool
is_stopped stopped = true
is_stopped _ = false

-- `ck_deployments_stopped_complete`
abbrev pub stopped_complete : Deployment → Bool
stopped_complete d = not (is_stopped d.status) || is_some d.stopped_at

-- The CHECK constraints that relate status, activation and failure.
unfoldable pub meets_checks : Deployment → Bool
meets_checks d =
    running_complete d
    && (has_activation_proof d
        && (has_success_evidence d && (failure_complete d && stopped_complete d)))
