-- ===== src/Deployments/Examples.antt =====
-- One deployment from its creation to its activation.
use mcplica.Common.{
  ℕ, ◌≡◌, refl, true, false, Option, none, some, is_some, [], ◌∷◌, Text, codes, ok, Result, err,
}
use mcplica.Common.Table.{find, update}
use mcplica.RuntimeCommands.Executor.{deploying, healthcheck}
use mcplica.Deployments.Row.{
  normal, project_key, Deployment, Project, State, is_running, is_in_progress, is_starting,
  is_healthcheck, ActivationProof, has_proof, has_successful_activation, is_rollback_eligible,
  running_complete, meets_checks,
}
use mcplica.Deployments.{
  DeploymentError, NewDeployment, mark_stopped, new_deployment, create, transition, checked,
  write_running, become_stopped,
}
use mcplica.Deployments.Activation.{
  proof_matches, stop_previous, become_verified, begin_activation, mark_retiring_previous,
  become_active, finish_previous, complete_activation,
}
use mcplica.Deployments.Evidence.{SameEvidence}
use mcplica.Deployments.Activated.{prepare, provision}
use mcplica.Deployments.Moves.{row}
use mcplica.Deployments.Invariant.{
  created, deploying_again, prepared, activation_begun, retiring, activation_completed,
  projects_changed, marked_stopped, project_deleted, Reach, any_project, all_but, nothing, more,
  empty,
}
use mcplica.Deployments.Deletion.{delete_project, delete_project-IsDeletion}
use mcplica.Deployments.Serving.{running_proven, evidence_stays, complete_activation_returns}

-- Opens the operations, for the runs below.
runs : ℕ
unfolding find update new_deployment create transition write_running become_stopped proof_matches
    stop_previous become_verified begin_activation mark_retiring_previous become_active
    finish_previous complete_activation has_proof has_successful_activation is_rollback_eligible
    running_complete meets_checks checked
runs = 0

abbrev asked_for : NewDeployment
asked_for = record {
  deployment_id = 1;
  project_id = 7;
  build_id = 3;
  intent = normal;
  previous_active_deployment_id = none;
  hostname = codes "h";
  container_name = codes "c";
  image_ref = codes "i";
  runtime_version = codes "v";
  network_name = codes "n";
  manifest_sha256 = codes "m";
  route_priority = 100;
  stop_old_first = false;
  deployed_by = 2;
}

abbrev the_proof : ActivationProof
the_proof = record {
  deployment_id = 1;
  project_id = 7;
  build_id = 3;
  container_id = codes "k";
  image_digest = codes "d";
  hostname = codes "h";
  manifest_sha256 = codes "m";
  runtime_version = codes "v";
  verified_at = 20;
}

abbrev hash : ActivationProof → Text
hash p = p.container_id

abbrev only_project : Project
only_project = record {
  id = 7;
  is_enabled = true;
  active_build_id = none;
  active_deployment_id = none;
}

abbrev initial : State
initial = record { projects = only_project ∷ []; deployments = [] }

abbrev get : Option State → State
get none = initial
get (some s) = s

abbrev get_ok : Result DeploymentError State → State
get_ok (err e) = initial
get_ok (ok s) = s

abbrev get_both : Result DeploymentError (Option State) → State
get_both (err e) = initial
get_both (ok o) = get o

abbrev requested : State
requested = get_ok (create asked_for initial)

abbrev deployed : State
deployed = get (transition 1 is_in_progress deploying (λ d. d) requested)

abbrev mounted : State
mounted =
    get (transition 1 is_starting healthcheck (prepare none (some (codes "starting"))) deployed)

abbrev provided : State
provided =
    get (transition 1 is_healthcheck healthcheck (provision (codes "k") (codes "d") none) mounted)

abbrev begun : State
begun = get (begin_activation hash 1 the_proof provided)

abbrev retired : State
retired = get (mark_retiring_previous 1 begun)

abbrev serving : State
serving = get_both (complete_activation 30 1 retired)

is_retired : Reach hash any_project empty retired
unfolding runs
is_retired =
    more
      (more
        (more
          (more
            (more (more nothing (projects_changed (only_project ∷ []) (λ p h. nobody p h)))
              (created {t = requested} asked_for refl))
            (deploying_again {t = deployed} 1 refl))
          (prepared {t = mounted} 1 none (some (codes "starting")) refl))
        (activation_begun {t = provided} {u = begun} 1 (codes "k") (codes "d") none the_proof refl
          refl))
      (retiring {t = retired} 1 refl)
  where
    nobody :
        (p : ℕ)
        → is_some (find project_key p []) ≡ true
        → is_some (find project_key p (only_project ∷ [])) ≡ true
    nobody p h = (unfold find in cc)

is_serving : Reach hash any_project empty serving
unfolding runs
is_serving = more is_retired (activation_completed {t = serving} 30 1 refl)

abbrev or_new : Option Deployment → Deployment
or_new none = new_deployment asked_for
or_new (some d) = d

abbrev active : Deployment
active = or_new (row 1 serving)

is_active : (row 1 serving ≡ some active) × (is_running active.status ≡ true)
unfolding runs
is_active = (refl, refl)

is_activated : (is_some active.activated_at ≡ true)
unfolding runs
is_activated = refl

running_proven_example :
    (has_successful_activation hash active ≡ true)
    × ((j : ℕ) (e : Deployment)
        → row j serving ≡ some e
        → is_running e.status ≡ true
        → e.project_id ≡ active.project_id
        → j ≡ 1)
running_proven_example = running_proven hash serving 1 active is_serving is_active.0 is_active.1

-- The deployment is stopped, and another project is deleted.
abbrev after : State
after = delete_project 8 (mark_stopped 50 1 serving)

is_after : Reach hash (all_but 7) serving after
unfolding runs
is_after =
    project_deleted 8 (more nothing (marked_stopped 50 1)) refl
      (delete_project-IsDeletion 8 (mark_stopped 50 1 serving) (tt, tt))

evidence_stays_example :
    (e : Deployment) × (row 1 after ≡ some e)
    × SameEvidence hash active e
    × (is_rollback_eligible hash none e ≡ true)
unfolding runs
evidence_stays_example =
    evidence_stays hash 1 active none is_serving is_after is_active.0 is_activated refl

complete_activation_returns_example : (r : Option State) × (complete_activation 30 1 retired ≡ ok r)
complete_activation_returns_example = complete_activation_returns hash 30 1 retired is_retired
