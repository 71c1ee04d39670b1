-- ===== src/Deployments/Activation.antt =====
-- The activation of a deployment: `begin_activation`, `refresh_activation_proof`,
-- `mark_retiring_previous`, `restore_previous_after_failed_activation` and `complete_activation` of
-- backend/app/repositories/deployments.py.
use mcplica.Common.{
  ℕ, Bool, true, false, not, ◌&&◌, ◌||◌, Option, none, some, is_some, is_just, if◌then◌else◌, any,
  ◌==◌, take, Text, text_eq, is_text, codes, Result, ok, ◌>>=◌,
}
use mcplica.Common.Table.{find}
use mcplica.RuntimeCommands.Executor.{healthcheck, running, unhealthy, stopping}
use mcplica.Deployments.Row.{
  Phase, verified, retiring_previous, phase_running, phase_failed, Deployment, Project, State,
  row_id, project_key, is_running, is_healthcheck, is_starting, is_retired, is_stopping,
  ActivationProof, is_retiring, may_retire,
}
use mcplica.Deployments.{
  DeploymentError, change, point, is_rival, write_running, checked, become_stopped,
}

-- `_proof_matches`
unfoldable pub proof_matches : Deployment → ActivationProof → Bool
proof_matches d proof =
    (proof.deployment_id == d.id
      && (proof.project_id == d.project_id && proof.build_id == d.build_id))
    && (is_text d.container_id proof.container_id && is_text d.image_digest proof.image_digest)
    && (text_eq proof.hostname d.hostname
        && (text_eq proof.manifest_sha256 d.manifest_sha256
            && text_eq proof.runtime_version d.runtime_version))

-- `project.active_deployment_id in {None, deployment_id, previous_id}`
abbrev pub may_replace : Option ℕ → ℕ → Option ℕ → Bool
may_replace none i previous = true
may_replace (some a) i previous = a == i || is_just previous a

-- The predecessor that still serves is told to stop.
abbrev pub stop_running : Deployment → Deployment
stop_running d = if is_running d.status then record d { status = stopping } else d

unfoldable pub stop_previous : Option ℕ → Option ℕ → State → State
stop_previous none active s = s
stop_previous (some previous) active s =
    if is_just active previous then change previous stop_running s else s

module _ (hash : ActivationProof → Text) where
  unfoldable pub become_verified : ActivationProof → Deployment → Deployment
  become_verified proof d =
      if is_starting d.status
      then record d {
        status = healthcheck;
        health_status = some (codes "activating");
        activation_phase = some verified;
        activation_verified_at = some proof.verified_at;
        activation_proof_sha256 = some (hash proof);
        error_code = none;
        error_summary = none;
      }
      else d

  unfoldable pub begin_activation : ℕ → ActivationProof → State → Option State
  begin_activation i proof s = elim (find row_id i s.deployments) [
    | none ↦ none
    | some d ↦
        if not (is_starting d.status)
        then none
        else elim (find project_key d.project_id s.projects) [
          | none ↦ none
          | some p ↦
              if not p.is_enabled
                || not (proof_matches d proof)
                || not (may_replace p.active_deployment_id i d.previous_active_deployment_id)
              then none
              else some (
                  point d.project_id (some d.build_id) (some d.id) (
                    change i (become_verified proof)
                      (stop_previous d.previous_active_deployment_id p.active_deployment_id s)))
        ]
  ]

  abbrev pub refreshed_phase : Option Phase → Phase
  refreshed_phase (some retiring_previous) = retiring_previous
  refreshed_phase _ = verified

  unfoldable pub become_refreshed : ActivationProof → Deployment → Deployment
  become_refreshed proof d =
      if is_running d.status
      then record d { health_status = some (codes "healthy") }
      else record d {
        activation_phase = some (refreshed_phase d.activation_phase);
        activation_verified_at = some proof.verified_at;
        activation_proof_sha256 = some (hash proof);
        health_status = some (codes "activating");
      }

  unfoldable pub refresh_activation_proof : ℕ → ActivationProof → State → Option State
  refresh_activation_proof i proof s = elim (find row_id i s.deployments) [
    | none ↦ none
    | some d ↦
        if (is_healthcheck d.status || is_running d.status) && proof_matches d proof
        then some (change i (become_refreshed proof) s)
        else none
  ]

abbrev pub has_columns : Deployment → Bool
has_columns d = is_some d.activation_verified_at && is_some d.activation_proof_sha256

abbrev pub become_retiring : Deployment → Deployment
become_retiring d = record d { activation_phase = some retiring_previous }

unfoldable pub mark_retiring_previous : ℕ → State → Option State
mark_retiring_previous i s = elim (find row_id i s.deployments) [
  | none ↦ none
  | some d ↦
      if is_healthcheck d.status && may_retire d.activation_phase && has_columns d
      then some (change i become_retiring s)
      else none
]

unfoldable pub become_unhealthy : ℕ → Text → Text → Deployment → Deployment
become_unhealthy now code summary d =
    if is_healthcheck d.status || is_running d.status
    then record d {
      status = unhealthy;
      health_status = some (codes "unhealthy");
      activation_phase = some phase_failed;
      failed_at = some now;
      error_code = some (take 128 code);
      error_summary = some (take 2000 summary);
    }
    else d

unfoldable pub become_restored : Deployment → Deployment
become_restored d = record d {
  status = running;
  health_status = some (codes "healthy");
  stopped_at = none;
}

abbrev pub find_previous : Option ℕ → State → Option Deployment
find_previous none s = none
find_previous (some i) s = find row_id i s.deployments

-- The predecessor runs again if its runtime is ready and it has run before.
unfoldable pub restore : Bool → ℕ → Option Deployment → State → Result DeploymentError State
restore ready p none s = ok (point p none none s)
restore ready p (some previous) s =
    if ready && is_retired previous.status && is_some previous.started_at
    then (write_running previous become_restored s >>= λ s'.
        ok (point p (some previous.build_id) (some previous.id) s'))
    else ok (point p none none s)

-- Without the row, or with another deployment active, nothing is written.
unfoldable pub restore_previous_after_failed_activation :
    ℕ → ℕ → Bool → Text → Text → State → Result DeploymentError State
restore_previous_after_failed_activation now i ready code summary s =
    elim (find row_id i s.deployments) [
      | none ↦ ok s
      | some d ↦ elim (find project_key d.project_id s.projects) [
        | none ↦ ok s
        | some p ↦
            if not (is_just p.active_deployment_id i)
            then ok s
            else restore ready d.project_id (find_previous d.previous_active_deployment_id s)
                (change i (become_unhealthy now code summary) s)
      ]
    ]

unfoldable pub become_active : ℕ → Deployment → Deployment
become_active now d = record d {
  status = running;
  health_status = some (codes "healthy");
  started_at = some now;
  activated_at = some now;
  activation_phase = some phase_running;
  error_code = none;
  error_summary = none;
}

-- A predecessor has to be in the project and retired.
abbrev pub is_out_of_the_way : ℕ → Deployment → Bool
is_out_of_the_way p d =
    d.project_id == p && (is_stopping d.status || is_retired d.status && is_some d.stopped_at)

abbrev pub may_follow : Option ℕ → ℕ → State → Bool
may_follow none p s = true
may_follow (some previous) p s = elim (find row_id previous s.deployments) [
  | none ↦ false
  | some d ↦ is_out_of_the_way p d
]

abbrev pub stop_stopping : ℕ → Deployment → Deployment
stop_stopping now d = if is_stopping d.status then become_stopped now d else d

unfoldable pub finish_previous : ℕ → Option ℕ → State → State
finish_previous now none s = s
finish_previous now (some previous) s = change previous (stop_stopping now) s

abbrev pub is_ready_to_run : Deployment → Bool
is_ready_to_run d = is_healthcheck d.status && is_retiring d.activation_phase && has_columns d

abbrev pub serves : Project → ℕ → Bool
serves p i = p.is_enabled && is_just p.active_deployment_id i

-- `ok none` where the source returns `None`.
unfoldable pub complete_activation : ℕ → ℕ → State → Result DeploymentError (Option State)
complete_activation now i s = elim (find row_id i s.deployments) [
  | none ↦ ok none
  | some d ↦
      if not (is_ready_to_run d) then ok none else elim (find project_key d.project_id s.projects) [
        | none ↦ ok none
        | some p ↦
            if not (serves p i)
              || not (may_follow d.previous_active_deployment_id d.project_id s)
              || any (is_rival d.project_id d.id) s.deployments
            then ok none
            else (checked d.previous_active_deployment_id
                  (finish_previous now d.previous_active_deployment_id s)
                >>= λ s1. write_running d (become_active now) s1 >>= λ s'. ok (some s'))
      ]
]
