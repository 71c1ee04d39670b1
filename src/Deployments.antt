-- ===== src/Deployments.antt =====
-- Deployments and their activation: `DeploymentRepository` of backend/app/repositories/deployments.py. The
-- state is the deployments and the projects; a method is one transaction, from the state to the state
-- that it commits. `now` is what `datetime.now` gives. A method that the source lets return `None` or
-- `False` returns `none`; a violated constraint of the table rolls back and is the error.
pub mod Row
pub mod Activation
pub mod Evidence
pub mod Proofs
pub mod Running
pub mod Moves
pub mod Transactions
pub mod Activated
pub mod Safety
pub mod Completed
pub mod Invariant
pub mod Deletion
pub mod Serving
mod Examples
use mcplica.Common.{
  ℕ, ◌+◌, max, Bool, true, false, not, ◌&&◌, ◌||◌, Option, none, some, List, [], ◌∷◌, ◌++◌, is_some,
  is_just, if◌then◌else◌, any, ltb, ◌==◌, take, Text, text_eq, is_text, codes, Result, ok, err,
  ◌>>=◌,
}
use mcplica.Common.Table.{find, update}
use mcplica.RuntimeCommands.Executor.{
  DeploymentStatus, pending, deploying, healthcheck, running, unhealthy, stopping, stopped, failed,
}
use mcplica.Deployments.Row.{
  Intent, Phase, verified, retiring_previous, phase_running, legacy_running, phase_failed,
  Deployment, Project, State, row_id, project_key, is_running, is_healthcheck, is_starting,
  is_in_progress, is_retired, is_stopping, ActivationProof, is_retiring, may_retire, meets_checks,
}

pub data DeploymentError : Type 0 where
  integrity_error : DeploymentError

abbrev pub change : ℕ → (Deployment → Deployment) → State → State
change i f s = record s { deployments = update row_id i f s.deployments }

abbrev pub point : ℕ → Option ℕ → Option ℕ → State → State
point p build deployment s = record s {
  projects =
      update project_key p
        (λ x. record x { active_build_id = build; active_deployment_id = deployment }) s.projects;
}

-- `next_route_priority`
unfoldable pub max_priority : ℕ → List Deployment → ℕ
max_priority p [] = 0
max_priority p (d ∷ ds) =
    let rest = max_priority p ds in if d.project_id == p then max d.route_priority rest else rest

abbrev pub next_route_priority : ℕ → State → ℕ
next_route_priority p s =
    let current = max_priority p s.deployments in
    max 100 ((if current == 0 then 99 else current) + 1)

abbrev pub mem_id : ℕ → List ℕ → Bool
mem_id i [] = false
mem_id i (j ∷ js) = i == j || mem_id i js

-- A stopping deployment that the transition itself stops does not count.
unfoldable pub has_in_progress : ℕ → List ℕ → State → Bool
has_in_progress p transition_stopping s =
    any
      (λ d.
        d.project_id == p
        && (is_in_progress d.status
            || is_stopping d.status && not (mem_id d.id transition_stopping)))
      s.deployments

pub record NewDeployment : Type 0 where
  pub deployment_id : ℕ
  pub project_id : ℕ
  pub build_id : ℕ
  pub intent : Intent
  pub previous_active_deployment_id : Option ℕ
  pub hostname : Text
  pub container_name : Text
  pub image_ref : Text
  pub runtime_version : Text
  pub network_name : Text
  pub manifest_sha256 : Text
  pub route_priority : ℕ
  pub stop_old_first : Bool
  pub deployed_by : ℕ

unfoldable pub new_deployment : NewDeployment → Deployment
new_deployment c = record {
  id = c.deployment_id;
  project_id = c.project_id;
  build_id = c.build_id;
  intent = c.intent;
  previous_active_deployment_id = c.previous_active_deployment_id;
  status = pending;
  hostname = c.hostname;
  container_name = c.container_name;
  container_id = none;
  image_ref = c.image_ref;
  image_digest = none;
  runtime_version = c.runtime_version;
  network_name = c.network_name;
  manifest_sha256 = c.manifest_sha256;
  auth_overlay_sha256 = none;
  route_priority = c.route_priority;
  stop_old_first = c.stop_old_first;
  health_status = none;
  deployed_by = c.deployed_by;
  started_at = none;
  activated_at = none;
  activation_phase = none;
  activation_verified_at = none;
  activation_proof_sha256 = none;
  stopped_at = none;
  failed_at = none;
  error_code = none;
  error_summary = none;
}

-- The unique keys and indexes, and the range of the route priority.
unfoldable pub violates : NewDeployment → Deployment → Bool
violates c d =
    d.id == c.deployment_id
    || text_eq d.container_name c.container_name
    || d.project_id == c.project_id
      && (d.route_priority == c.route_priority || is_in_progress d.status)

unfoldable pub create : NewDeployment → State → Result DeploymentError State
create c s =
    if any (violates c) s.deployments
      || not (ltb 0 c.route_priority && ltb c.route_priority 2147482647)
    then err integrity_error
    else ok record s { deployments = s.deployments ++ new_deployment c ∷ [] }

-- `transition`: the update of a row whose status is expected; `none` for no row.
unfoldable pub transition :
    ℕ
    → (DeploymentStatus → Bool)
    → DeploymentStatus
    → (Deployment → Deployment)
    → State
    → Option State
transition i expected status values s = elim (find row_id i s.deployments) [
  | none ↦ none
  | some d ↦
      if expected d.status
      then some (change i (λ x. record (values x) { status = status }) s)
      else none
]

-- The index `uq_deployments_one_running_per_project`
abbrev pub is_rival : ℕ → ℕ → Deployment → Bool
is_rival p i d = d.project_id == p && not (d.id == i) && is_running d.status

-- The CHECK constraints on the row that an UPDATE wrote, if it hit one.
unfoldable pub checked : Option ℕ → State → Result DeploymentError State
checked none s = ok s
checked (some i) s = elim (find row_id i s.deployments) [
  | none ↦ ok s
  | some d ↦ if meets_checks d then ok s else err integrity_error
]

-- An update to RUNNING, against the CHECK constraints of the row and the index of the running
-- deployments.
unfoldable pub write_running :
    Deployment → (Deployment → Deployment) → State → Result DeploymentError State
write_running d f s =
    if any (is_rival d.project_id d.id) s.deployments || not (meets_checks (f d))
    then err integrity_error
    else ok (change d.id f s)

abbrev pub clear_pointer : ℕ → Project → Project
clear_pointer i p =
    if is_just p.active_deployment_id i then record p { active_deployment_id = none } else p

unfoldable pub clear_active : ℕ → ℕ → State → State
clear_active p i s = record s { projects = update project_key p (clear_pointer i) s.projects }

unfoldable pub become_stopped : ℕ → Deployment → Deployment
become_stopped now d = record d {
  status = stopped;
  health_status = some (codes "stopped");
  stopped_at = some now;
}

abbrev pub mark_stopped : ℕ → ℕ → State → State
mark_stopped now i s = change i (become_stopped now) s

unfoldable pub become_failed : ℕ → Text → Text → Bool → Deployment → Deployment
become_failed now code summary is_unhealthy d = record d {
  status = if is_unhealthy then unhealthy else failed;
  health_status = some (if is_unhealthy then codes "unhealthy" else codes "failed");
  activation_phase = some phase_failed;
  failed_at = some now;
  error_code = some (take 128 code);
  error_summary = some (take 2000 summary);
}

unfoldable pub mark_failed : ℕ → ℕ → Text → Text → Bool → State → Option State
mark_failed now i code summary is_unhealthy s = elim (find row_id i s.deployments) [
  | none ↦ none
  | some d ↦
      if is_in_progress d.status
      then some (change i (become_failed now code summary is_unhealthy) s)
      else none
]

unfoldable pub become_reset : Deployment → Deployment
become_reset d = record d {
  status = pending;
  container_id = none;
  image_digest = none;
  health_status = none;
  started_at = none;
  activated_at = none;
  activation_phase = none;
  activation_verified_at = none;
  activation_proof_sha256 = none;
  failed_at = none;
  error_code = none;
  error_summary = none;
}

unfoldable pub reset_for_retry : ℕ → State → Option State
reset_for_retry i s = elim (find row_id i s.deployments) [
  | none ↦ none
  | some d ↦ if is_starting d.status then some (change i become_reset s) else none
]
