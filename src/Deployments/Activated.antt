-- ===== src/Deployments/Activated.antt =====
-- The transactions of an activation: what they do to the rows.
use mathlib.Core.Option
use mcplica.Common.{
  ℕ, ◌≡◌, refl, sym, ap, ◌∙◌, subst, Bool, true, false, not, ◌||◌, Option, none, some, arith,
  is_just, if◌then◌else◌, ◌==◌, Text, Bool-cases, Option-cases, ◌⊎◌, inl, inr,
}
use mcplica.Common.Table.{find, update, find-update}
use mcplica.RuntimeCommands.Executor.{DeploymentStatus, healthcheck, stopping, stopped, failed}
use mcplica.Deployments.Row.{
  Deployment, Project, State, row_id, project_key, is_running, is_healthcheck, is_starting,
  ActivationProof,
}
use mcplica.Deployments.{change, point, transition}
use mcplica.Deployments.Activation.{
  proof_matches, may_replace, stop_running, stop_previous, become_verified, begin_activation,
}
use mcplica.Deployments.Evidence.{Advances, Advances-refl, stop_running-Advances}
use mcplica.Deployments.Proofs.{provisioned_verified-Advances}
use mcplica.Deployments.Moves.{Carries, row, Moves, changed_self, changed_other}
use mcplica.Deployments.Transactions.{tested}

-- The predecessor is stopped, or not.
stopped_row :
    (previous active : Option ℕ) (j : ℕ) (s : State)
    → (row j (stop_previous previous active s) ≡ row j s)
      ⊎ (row j (stop_previous previous active s) ≡ Option.map stop_running (row j s))
unfolding stop_previous
stopped_row none active j s = inl refl
stopped_row (some k) active j s = elim (Bool-cases (is_just active k)) [
  | inr e ↦ inl (rw (e, stop_previous) refl)
  | inl e ↦
      let changed : row j (change k stop_running s)
          ≡ (if k == j then Option.map stop_running (row j s) else row j s) =
        find-update row_id k j stop_running s.deployments (λ x. kept x) in
      elim (Bool-cases (k == j)) [
        | inr n ↦ inl (rw (e, stop_previous) (rw n at changed))
        | inl q ↦ inr (rw (e, stop_previous) (rw q at changed))
      ]
]
  where
    kept : (x : Deployment) → (stop_running x).id ≡ x.id
    kept x = ground arith

abbrev pub provision : Text → Text → Option Text → Deployment → Deployment
provision container digest health d = record d {
  container_id = some container;
  image_digest = some digest;
  health_status = health;
}

abbrev pub prepare : Option Text → Option Text → Deployment → Deployment
prepare overlay health d = record d { auth_overlay_sha256 = overlay; health_status = health }

-- The statuses from which a deployment can be stopped.
abbrev pub may_stop : DeploymentStatus → Bool
may_stop stopping = false
may_stop stopped = false
may_stop failed = false
may_stop _ = true

module _ (hash : ActivationProof → Text) where
  Carries-stopped :
      (o r : Option Deployment)
      → (r ≡ o) ⊎ (r ≡ Option.map stop_running o)
      → Carries (Advances hash) o r
  Carries-stopped none r (inl e) = rw e tt
  Carries-stopped none r (inr e) = rw e tt
  Carries-stopped (some d) r (inl e) = rw e (Advances-refl hash d)
  Carries-stopped (some d) r (inr e) = rw e (stop_running-Advances hash d)

  begin_activation-ok :
      (i : ℕ) (p : ActivationProof) (s : State) {u : State}
      → begin_activation hash i p s ≡ some u
      → (d : Deployment) × (x : Project) × (row i s ≡ some d)
        × (is_starting d.status ≡ true)
        × (proof_matches d p ≡ true)
        × (u.deployments
            ≡ update row_id i
                (become_verified hash p)
                (stop_previous d.previous_active_deployment_id x.active_deployment_id
                  s).deployments)
  unfolding begin_activation
  begin_activation-ok i p s {u} h = elim (Option-cases (row i s)) [
    | inl e ↦ let k : none ≡ some u = rw (e, begin_activation) at h in cc
    | inr (d, e) ↦ elim (Bool-cases (is_starting d.status)) [
      | inr q ↦ let k : none ≡ some u = rw (e, begin_activation, q) at h in cc
      | inl q ↦ elim (Option-cases (find project_key d.project_id s.projects)) [
        | inl n ↦ let k : none ≡ some u = rw (e, begin_activation, q, n) at h in cc
        | inr (x, n) ↦
            elim (Bool-cases (
              not x.is_enabled
              || not (proof_matches d p)
              || not (may_replace x.active_deployment_id i d.previous_active_deployment_id))) [
                | inl b ↦ let k : none ≡ some u = rw (e, begin_activation, q, n, b) at h in cc
                | inr b ↦
                    let s' : State = point d.project_id (some d.build_id) (some d.id) (
                      change i (become_verified hash p)
                        (stop_previous d.previous_active_deployment_id x.active_deployment_id s)) in
                    let k : some s' ≡ some u = rw (e, begin_activation, q, n, b) at h in
                    let same : u ≡ s' = cc in
                    (d, x, e, q, ground arith, ap (λ z. z.deployments) same)
              ]
      ]
    ]
  ]

  provisioned :
      (i : ℕ) (f g : Deployment → Deployment) (previous active : Option ℕ) (d : Deployment)
      (s : State)
      → ((x : Deployment) → (f x).id ≡ x.id)
      → ((x : Deployment) → (g x).id ≡ x.id)
      → row i s ≡ some d
      → is_running (f d).status ≡ false
      → Advances hash d (g (f d))
      → Moves hash s (change i g (stop_previous previous active (change i f s)))
  provisioned i f g previous active d s ids ids' at idle a j =
      let t : State = change i f s in
      let t1 : State = stop_previous previous active t in
      elim (Bool-cases (i == j)) [
        | inr n ↦
            let there : row j t ≡ row j s = changed_other hash i f s j ids n in
            let stops : Carries (Advances hash) (row j t) (row j t1) =
              Carries-stopped (row j t) (row j t1) (stopped_row previous active j t) in
            let known : Carries (Advances hash) (row j s) (row j t1) =
              subst (λ z. Carries (Advances hash) z (row j t1)) there stops in
            subst (λ z. Carries (Advances hash) (row j s) z)
              (sym (changed_other hash i g t1 j ids' n)) known
        | inl q ↦
            let same : i ≡ j = ground arith in
            let here : row i t ≡ some (f d) = changed_self hash i f s d ids at in
            let here' : row i t1 ≡ some (f d) = unstopped here (stopped_row previous active i t) in
            let there : row i (change i g t1) ≡ some (g (f d)) =
              changed_self hash i g t1 (f d) ids' here' in
            subst (λ z. Carries (Advances hash) (row z s) (row z (change i g t1))) same
              (subst (λ o. Carries (Advances hash) o (row i (change i g t1))) (sym at)
                (subst (λ o. Carries (Advances hash) (some d) o) (sym there) a))
      ]
    where
      unstopped :
          {o r : Option Deployment}
          → o ≡ some (f d)
          → (r ≡ o) ⊎ (r ≡ Option.map stop_running o)
          → r ≡ some (f d)
      unstopped e (inl h) = h ∙ e
      unstopped {o} {r} e (inr h) =
          let k : r ≡ Option.map stop_running (some (f d)) =
            h ∙ ap (λ z. Option.map stop_running z) e in
          k ∙ rw idle refl

  -- The transaction that ends a start: the runtime is recorded and the activation begins.
  pub activate-Moves :
      (i : ℕ) (container digest : Text) (health : Option Text) (p : ActivationProof) (s t u : State)
      → transition i is_healthcheck healthcheck (provision container digest health) s ≡ some t
      → begin_activation hash i p t ≡ some u
      → Moves hash s u
  unfolding transition
  activate-Moves i container digest health p s t u h k =
      let f : Deployment → Deployment =
        λ d. record (provision container digest health d) { status = healthcheck } in
      let (d, at, check, made) = tested i (λ d. is_healthcheck d.status) f s (row i s) refl h in
      let (d1, x, at1, starting, matches, rows) = begin_activation-ok i p t k in
      moved d d1 x.active_deployment_id at check made at1 matches rows
    where
      kept : (z : Deployment) → (become_verified hash p z).id ≡ z.id
      kept z = (unfold become_verified in ground arith)

      f : Deployment → Deployment
      f d = record (provision container digest health d) { status = healthcheck }

      moved :
          (d d1 : Deployment) (active : Option ℕ)
          → row i s ≡ some d
          → is_healthcheck d.status ≡ true
          → t ≡ change i f s
          → row i t ≡ some d1
          → proof_matches d1 p ≡ true
          → u.deployments
            ≡ update row_id i
                (become_verified hash p)
                (stop_previous d1.previous_active_deployment_id active t).deployments
          → Moves hash s u
      moved d d1 active at check made at1 matches rows j =
          let here : row i t ≡ some (f d) =
            subst (λ z. row i z ≡ some (f d)) (sym made)
              (changed_self hash i f s d (λ x. refl) at) in
          let same : d1 ≡ f d = (let e : some d1 ≡ some (f d) = sym at1 ∙ here in cc) in
          let m : proof_matches (f d) p ≡ true =
            subst (λ z. proof_matches z p ≡ true) same matches in
          let a : Advances hash d (become_verified hash p (f d)) =
            provisioned_verified-Advances hash d container digest health p check m in
          let moves : Carries (Advances hash) (row j s) (
              row j (
                change i (become_verified hash p)
                  (stop_previous d1.previous_active_deployment_id active (change i f s)))) =
            provisioned i f (become_verified hash p) d1.previous_active_deployment_id active d s
              (λ x. refl) kept at refl a j in
          let moves' : Carries (Advances hash) (row j s) (
              row j (
                change i (become_verified hash p)
                  (stop_previous d1.previous_active_deployment_id active t))) =
            subst
              (λ z. Carries (Advances hash) (row j s) (
                row j (
                  change i (become_verified hash p)
                    (stop_previous d1.previous_active_deployment_id active z))))
              (sym made) moves in
          subst (λ z. Carries (Advances hash) (row j s) (find row_id j z)) (sym rows) moves'
