-- ===== src/Deployments/Invariant.antt =====
-- The states that the transactions of backend/app/services/deployment/service.py reach, in any interleaving.
use mcplica.Common.{
  ℕ, List, [], ◌∷◌, ◌++◌, ltb, ◌≢◌, ◌≡◌, refl, sym, ap, subst, Bool, true, not, ◌&&◌, ◌||◌, Option,
  some, none, is_some, false, ◌∙◌, ◌==◌, arith, any, Text, Bool-cases, ◌⊎◌, inl, inr, ok, err,
}
use mcplica.Common.Table.{find, find-append, find-concat}
use mcplica.RuntimeCommands.Executor.{deploying, healthcheck, stopping}
use mcplica.Deployments.Row.{
  Deployment, Project, State, row_id, project_key, is_running, is_healthcheck, is_starting,
  is_in_progress, ActivationProof, running_complete,
}
use mcplica.Deployments.{
  integrity_error, NewDeployment, new_deployment, violates, create, transition, mark_stopped,
  mark_failed, reset_for_retry,
}
use mcplica.Deployments.Activation.{
  begin_activation, refresh_activation_proof, mark_retiring_previous,
  restore_previous_after_failed_activation, complete_activation,
}
use mcplica.Deployments.Evidence.{IsProven, SameEvidence, SameEvidence-refl}
use mcplica.Deployments.Proofs.{to_starting-Advances, to_stopping-Advances}
use mcplica.Deployments.Moves.{row, IsConsistent}
use mcplica.Deployments.Safety.{IsSafe, Moves-IsSafe, SameEvidence-trans, same_rows-IsSafe}
use mcplica.Deployments.Completed.{restore_previous-IsSafe, complete_activation-IsSafe}
use mcplica.Deployments.Activated.{provision, prepare, may_stop, activate-Moves}
use mcplica.Deployments.Transactions.{
  transition-Moves, mark_stopped-Moves, mark_failed-Moves, reset_for_retry-Moves, refresh-Moves,
  mark_retiring-Moves,
}

-- The transactions of the service that write a deployment. The rest of the program adds projects and
-- writes their columns.
pub data Step (hash : ActivationProof → Text) (s : State) : State → Type 0 where
  created : {t : State} (c : NewDeployment) → create c s ≡ ok t → Step hash s t
  deploying_again :
      {t : State} (i : ℕ)
      → transition i is_in_progress deploying (λ d. d) s ≡ some t
      → Step hash s t
  prepared :
      {t : State} (i : ℕ) (overlay health : Option Text)
      → transition i is_starting healthcheck (prepare overlay health) s ≡ some t
      → Step hash s t
  activation_begun :
      {t u : State} (i : ℕ) (container digest : Text) (health : Option Text) (p : ActivationProof)
      → transition i is_healthcheck healthcheck (provision container digest health) s ≡ some t
      → begin_activation hash i p t ≡ some u
      → Step hash s u
  told_to_stop :
      {t : State} (i : ℕ) → transition i may_stop stopping (λ d. d) s ≡ some t → Step hash s t
  proof_refreshed :
      {t : State} (i : ℕ) (p : ActivationProof)
      → refresh_activation_proof hash i p s ≡ some t
      → Step hash s t
  retiring : {t : State} (i : ℕ) → mark_retiring_previous i s ≡ some t → Step hash s t
  activation_completed :
      {t : State} (now i : ℕ) → complete_activation now i s ≡ ok (some t) → Step hash s t
  activation_failed :
      {t : State} (now i : ℕ) (ready : Bool) (code summary : Text)
      → restore_previous_after_failed_activation now i ready code summary s ≡ ok t
      → Step hash s t
  marked_stopped : (now i : ℕ) → Step hash s (mark_stopped now i s)
  marked_failed :
      {t : State} (now i : ℕ) (code summary : Text) (is_unhealthy : Bool)
      → mark_failed now i code summary is_unhealthy s ≡ some t
      → Step hash s t
  reset : {t : State} (i : ℕ) → reset_for_retry i s ≡ some t → Step hash s t
  projects_changed :
      (ps : List Project)
      → ((p : ℕ)
          → is_some (find project_key p s.projects) ≡ true
          → is_some (find project_key p ps) ≡ true)
      → Step hash s (record s { projects = ps })

-- `ProjectRepository.delete` of backend/app/repositories/projects.py, with the ON DELETE CASCADE of the
-- deployments: the project and its deployments go, the others are read as before.
pub record IsDeletion (p : ℕ) (s t : State) : Type 0 where
  pub gone : find project_key p t.projects ≡ none
  pub other_projects :
      (q : ℕ) → q ≢ p → find project_key q t.projects ≡ find project_key q s.projects
  pub cascaded :
      (j : ℕ) (d : Deployment) → row j t ≡ some d → (row j s ≡ some d) × (d.project_id ≢ p)
  pub kept : (j : ℕ) (d : Deployment) → row j s ≡ some d → d.project_id ≢ p → row j t ≡ some d

-- Transactions in any order, among them deletions of the projects that may go.
pub data Reach (hash : ActivationProof → Text) (may_go : ℕ → Bool) (s : State)
    : State → Type 0 where
  nothing : Reach hash may_go s s
  more : {t u : State} → Reach hash may_go s t → Step hash t u → Reach hash may_go s u
  project_deleted :
      {t u : State} (p : ℕ)
      → Reach hash may_go s t
      → may_go p ≡ true
      → IsDeletion p t u
      → Reach hash may_go s u

abbrev pub any_project : ℕ → Bool
any_project p = true

abbrev pub all_but : ℕ → ℕ → Bool
all_but q p = not (p == q)

abbrev pub empty : State
empty = record { projects = []; deployments = [] }

create-ok :
    (c : NewDeployment) (s t : State)
    → create c s ≡ ok t
    → t.deployments ≡ s.deployments ++ new_deployment c ∷ []
unfolding create
create-ok c s t h =
    elim (Bool-cases (
      any (violates c) s.deployments
      || not (ltb 0 c.route_priority && ltb c.route_priority 2147482647))) [
        | inl e ↦ let k : err integrity_error ≡ ok t = rw (e, create) at h in cc
        | inr e ↦
            let k : ok (record s { deployments = s.deployments ++ new_deployment c ∷ [] }) ≡ ok t =
              rw (e, create) at h in
            let same : t ≡ record s { deployments = s.deployments ++ new_deployment c ∷ [] } = cc in
            ap (λ z. z.deployments) same
      ]

module _ (hash : ActivationProof → Text) where
  create-IsSafe : (c : NewDeployment) (s t : State) → create c s ≡ ok t → IsSafe hash s t
  create-IsSafe c s t h = record {
    consistent = λ v. record {
      proven = λ j d at. elim (found j d at) [
        | inl was ↦ v.proven j d was
        | inr is ↦ subst (λ z. IsProven hash z) (sym is) fresh
      ];
      one_running = λ i j d e at at' r r' p. elim (found i d at) [
        | inr is ↦
            (let k : is_running (new_deployment c).status ≡ true =
                subst (λ z. is_running z.status ≡ true) is r in
              absurd (idle k))
        | inl was ↦ elim (found j e at') [
          | inr is ↦
              (let k : is_running (new_deployment c).status ≡ true =
                  subst (λ z. is_running z.status ≡ true) is r' in
                absurd (idle k))
          | inl was' ↦ v.one_running i j d e was was' r r' p
        ]
      ];
    };
    evidence = λ v j d at a. (
      d,
      subst (λ z. find row_id j z ≡ some d) (sym (create-ok c s t h))
          (find-append row_id j s.deployments (new_deployment c ∷ []) at),
      SameEvidence-refl hash d,
    );
  }
    where
      found :
          (j : ℕ) (d : Deployment) → row j t ≡ some d → (row j s ≡ some d) ⊎ (d ≡ new_deployment c)
      found j d at =
          elim (find-concat row_id j s.deployments (new_deployment c)
            (subst (λ z. find row_id j z ≡ some d) (create-ok c s t h) at)) [
              | inl was ↦ inl was
              | inr (n, is) ↦ inr is
            ]

      idle : is_running (new_deployment c).status ≢ true
      idle = (unfold new_deployment in λ k. cc)

      fresh : IsProven hash (new_deployment c)
      fresh =
          (unfold new_deployment in
            (unfold running_complete in
              record {
                proof = λ q. cc;
                activated = λ q. cc;
                started = λ q. cc;
                runs = λ q. cc;
                complete = refl;
                failure = refl;
                stopped = refl;
              }))

  pub Step-IsSafe : (s t : State) → Step hash s t → IsSafe hash s t
  Step-IsSafe s t (created c h) = create-IsSafe c s t h
  Step-IsSafe s t (deploying_again i h) = Moves-IsSafe hash s t (
      transition-Moves hash i is_in_progress deploying (λ d. d) s (λ x. refl)
        (λ d p. to_starting-Advances hash d d.auth_overlay_sha256 d.health_status deploying p refl)
        h)
  Step-IsSafe s t (prepared i overlay health h) = Moves-IsSafe hash s t (
      transition-Moves hash i is_starting healthcheck (prepare overlay health) s (λ x. refl)
        (λ d p. to_starting-Advances hash d overlay health healthcheck (ground arith) refl) h)
  Step-IsSafe s t (activation_begun {t = u} i container digest health p h k) =
      Moves-IsSafe hash s t (activate-Moves hash i container digest health p s u t h k)
  Step-IsSafe s t (told_to_stop i h) = Moves-IsSafe hash s t (
      transition-Moves hash i may_stop stopping (λ d. d) s (λ x. refl)
        (λ d p. to_stopping-Advances hash d) h)
  Step-IsSafe s t (proof_refreshed i p h) = Moves-IsSafe hash s t (refresh-Moves hash i p s h)
  Step-IsSafe s t (retiring i h) = Moves-IsSafe hash s t (mark_retiring-Moves hash i s h)
  Step-IsSafe s t (activation_completed now i h) = complete_activation-IsSafe hash now i s t h
  Step-IsSafe s t (activation_failed now i ready code summary h) =
      restore_previous-IsSafe hash now i ready code summary s t h
  Step-IsSafe s t (marked_stopped now i) = Moves-IsSafe hash s t (mark_stopped-Moves hash now i s)
  Step-IsSafe s t (marked_failed now i code summary is_unhealthy h) =
      Moves-IsSafe hash s t (mark_failed-Moves hash now i code summary is_unhealthy s h)
  Step-IsSafe s t (reset i h) = Moves-IsSafe hash s t (reset_for_retry-Moves hash i s h)
  Step-IsSafe s t (projects_changed ps h) = same_rows-IsSafe hash s t refl

  IsDeletion-IsConsistent :
      (p : ℕ) (s t : State) → IsDeletion p s t → IsConsistent hash s → IsConsistent hash t
  IsDeletion-IsConsistent p s t d c = record {
    proven = λ j x at. c.proven j x (d.cascaded j x at).0;
    one_running = λ i j x y at at' r r' q.
        c.one_running i j x y (d.cascaded i x at).0 (d.cascaded j y at').0 r r' q;
  }

  pub Reach-IsConsistent :
      {may_go : ℕ → Bool} {s t : State}
      → Reach hash may_go s t
      → IsConsistent hash s
      → IsConsistent hash t
  Reach-IsConsistent nothing c = c
  Reach-IsConsistent (more {t} {u} r h) c = (Step-IsSafe t u h).consistent (Reach-IsConsistent r c)
  Reach-IsConsistent (project_deleted {t} {u} p r g d) c =
      IsDeletion-IsConsistent p t u d (Reach-IsConsistent r c)

  -- The evidence of a deployment whose project does not go.
  pub Reach-evidence :
      {may_go : ℕ → Bool} {s t : State} (j : ℕ) (d : Deployment)
      → Reach hash may_go s t
      → IsConsistent hash s
      → row j s ≡ some d
      → is_some d.activated_at ≡ true
      → may_go d.project_id ≡ false
      → (e : Deployment) × (row j t ≡ some e) × SameEvidence hash d e
  Reach-evidence j d nothing c at a stays = (d, at, SameEvidence-refl hash d)
  Reach-evidence j d (more {t} {u} r h) c at a stays =
      let (e, at', k) = Reach-evidence j d r c at a stays in
      let (e', at'', k') =
        (Step-IsSafe t u h).evidence (Reach-IsConsistent r c) j e at' (rw k.activated a) in
      (e', at'', SameEvidence-trans hash d e e' k k')
  Reach-evidence {may_go} j d (project_deleted p r g del) c at a stays =
      let (e, at', k) = Reach-evidence j d r c at a stays in
      let other : e.project_id ≢ p =
        λ q. (let goes : may_go d.project_id ≡ true = rw (sym k.project ∙ q) g in cc) in
      (e, del.kept j e at' other, k)

  pub Reach-IsProven : {t : State} → Reach hash any_project empty t → IsConsistent hash t
  Reach-IsProven {t} r = Reach-IsConsistent r record {
    proven = λ j d at. none_there j at;
    one_running = λ i j d e at at' r r' p. none_there i at;
  }
    where
      none_there : {P : Type 0} (j : ℕ) {d : Deployment} → row j empty ≡ some d → P
      none_there j at = (unfold find in cc)
