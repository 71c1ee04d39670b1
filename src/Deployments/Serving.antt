-- ===== src/Deployments/Serving.antt =====
-- What a deployment that runs, or that ever ran, proves.
use mcplica.Common.{
  ℕ, ◌≡◌, refl, true, false, not, ◌&&◌, ◌||◌, Option, none, some, arith, is_some, is_just, any,
  Text, Bool-cases, Option-cases, inl, inr, ok,
}
use mcplica.Common.Table.{find, key_of_find}
use mcplica.Deployments.Row.{
  Deployment, State, row_id, project_key, is_running, ActivationProof, meets_checks,
  has_successful_activation, has_proof, is_proof, identity, is_rollback_eligible,
}
use mcplica.Deployments.{change, is_rival, checked, write_running}
use mcplica.Deployments.Activation.{
  become_active, may_follow, finish_previous, is_ready_to_run, serves, complete_activation,
}
use mcplica.Deployments.Evidence.{IsProven, SameEvidence}
use mcplica.Deployments.Running.{become_active-meets_checks, IsProven-meets_checks}
use mcplica.Deployments.Moves.{row, IsConsistent, Moves-IsConsistent}
use mcplica.Deployments.Completed.{finish_previous-rivals, finish_previous-Moves}
use mcplica.Deployments.Invariant.{
  Reach, any_project, all_but, empty, Reach-IsConsistent, Reach-evidence, Reach-IsProven,
}

module _ (hash : ActivationProof → Text) where
  activated_successful :
      (d : Deployment)
      → IsProven hash d
      → is_some d.activated_at ≡ true
      → has_successful_activation hash d ≡ true
  unfolding has_successful_activation has_proof
  activated_successful d h a =
      let known : is_proof hash (identity d) d.container_id d.image_digest d.activation_verified_at
            d.activation_proof_sha256
          ≡ true =
        (h.activated a).0 in
      let started = (h.activated a).1 in
      let runtime : (is_some d.container_id && is_some d.image_digest) ≡ true = ground arith in
      ground (arith, known)

  -- On every reachable state a running deployment has a successful activation: it was activated with
  -- a proof about this very deployment, its container and its image; and it is the only one of its
  -- project that runs.
  pub running_proven :
      (s : State) (i : ℕ) (d : Deployment)
      → Reach hash any_project empty s
      → row i s ≡ some d
      → is_running d.status ≡ true
      → (has_successful_activation hash d ≡ true)
        × ((j : ℕ) (e : Deployment)
            → row j s ≡ some e
            → is_running e.status ≡ true
            → e.project_id ≡ d.project_id
            → j ≡ i)
  running_proven s i d r at runs =
      let c = Reach-IsProven hash r in
      let p = c.proven i d at in
      (
        activated_successful d p (p.runs runs),
        λ j e at' runs' same. c.one_running j i e d at' at runs' runs same,
      )

  -- Once a deployment was activated, its row stays, with the same runtime and the same proof, and
  -- it can be rolled back to whenever it is not the active one, whatever transactions follow but the
  -- deletion of its project.
  pub evidence_stays :
      {s t : State} (i : ℕ) (d : Deployment) (active : Option ℕ)
      → Reach hash any_project empty s
      → Reach hash (all_but d.project_id) s t
      → row i s ≡ some d
      → is_some d.activated_at ≡ true
      → is_just active i ≡ false
      → (e : Deployment) × (row i t ≡ some e)
        × SameEvidence hash d e
        × (is_rollback_eligible hash active e ≡ true)
  unfolding is_rollback_eligible
  evidence_stays {s} {t} i d active from r at a other =
      let c = Reach-IsProven hash from in
      let (e, there, same) = Reach-evidence hash i d r c at a (ground arith) in
      let id_of : e.id ≡ i = key_of_find row_id i t.deployments there in
      let successful : has_successful_activation hash e ≡ true =
        activated_successful e ((Reach-IsConsistent hash r c).proven i e there)
          (rw same.activated a) in
      (e, there, same, rw (id_of, other, successful) refl)

  IsConsistent-checked : (o : Option ℕ) (s : State) → IsConsistent hash s → checked o s ≡ ok s
  unfolding checked
  IsConsistent-checked none s c = refl
  IsConsistent-checked (some i) s c = elim (Option-cases (row i s)) [
    | inl e ↦ rw (e, checked) refl
    | inr (d, e) ↦ let m = IsProven-meets_checks hash d (c.proven i d e) in rw (e, checked, m) refl
  ]

  -- On a reachable state `complete_activation` returns, with or without a completed activation: neither
  -- its update of the predecessor nor that to RUNNING breaks the CHECK constraints on status,
  -- activation and failure, the patterns of the digests apart, or the index that allows one running
  -- deployment for a project.
  pub complete_activation_returns :
      (now i : ℕ) (s : State)
      → Reach hash any_project empty s
      → (r : Option State) × (complete_activation now i s ≡ ok r)
  unfolding complete_activation write_running
  complete_activation_returns now i s reached = elim (Option-cases (row i s)) [
    | inl e ↦ (none, rw (e, complete_activation) refl)
    | inr (d, e) ↦ elim (Bool-cases (is_ready_to_run d)) [
      | inr q ↦ (none, rw (e, complete_activation, q) refl)
      | inl q ↦ elim (Option-cases (find project_key d.project_id s.projects)) [
        | inl n ↦ (none, rw (e, complete_activation, q, n) refl)
        | inr (x, n) ↦
            elim (Bool-cases (
              not (serves x i)
              || not (may_follow d.previous_active_deployment_id d.project_id s)
              || any (is_rival d.project_id d.id) s.deployments)) [
                | inl b ↦ (none, rw (e, complete_activation, q, n, b) refl)
                | inr b ↦
                    let s1 : State = finish_previous now d.previous_active_deployment_id s in
                    let free : any (is_rival d.project_id d.id) s.deployments ≡ false =
                      ground arith in
                    let free' : any (is_rival d.project_id d.id) s1.deployments ≡ false =
                      finish_previous-rivals now d.previous_active_deployment_id d.project_id d.id s
                        free in
                    let c1 =
                      Moves-IsConsistent hash s s1
                        (finish_previous-Moves hash now d.previous_active_deployment_id s)
                        (Reach-IsProven hash reached) in
                    let met : checked d.previous_active_deployment_id s1 ≡ ok s1 =
                      IsConsistent-checked d.previous_active_deployment_id s1 c1 in
                    let check : meets_checks (become_active now d) ≡ true =
                      become_active-meets_checks hash now d
                        ((Reach-IsProven hash reached).proven i d e) q in
                    (
                      some (change d.id (become_active now) s1),
                      rw (e, complete_activation, q, n, b, met, write_running, free', check) refl,
                    )
              ]
      ]
    ]
  ]
