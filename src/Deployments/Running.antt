-- ===== src/Deployments/Running.antt =====
-- How a row comes to run.
use mcplica.Common.{ℕ, ◌≡◌, refl, true, ◌&&◌, arith, is_some, false, Bool-cases, inl, inr, Text}
use mcplica.Deployments.Row.{
  Deployment, has_activation_proof, has_success_evidence, is_proven_phase, is_in_progress,
  is_retired, ActivationProof, identity, is_proof, has_proof, running_complete, meets_checks,
}
use mcplica.Deployments.Activation.{become_restored, become_active, is_ready_to_run}
use mcplica.Deployments.Evidence.{IsProven, SameEvidence}

module _ (hash : ActivationProof → Text) where
  -- A row that is written as RUNNING.
  pub record Activates (d e : Deployment) : Type 0 where
    pub same_id : e.id ≡ d.id
    pub same_project : e.project_id ≡ d.project_id
    pub proven : IsProven hash d → meets_checks e ≡ true → IsProven hash e
    pub evidence : IsProven hash d → is_some d.activated_at ≡ true → SameEvidence hash d e

  pub become_active-Activates :
      (now : ℕ) (d : Deployment) → is_ready_to_run d ≡ true → Activates d (become_active now d)
  unfolding become_active has_proof meets_checks running_complete
  become_active-Activates now d r = record {
    same_id = refl;
    same_project = refl;
    proven = λ h c. record {
      proof = λ q. h.proof (ground arith);
      activated = λ a. (h.proof (ground arith), refl, refl);
      started = λ s. refl;
      runs = λ s. refl;
      complete = ground (arith, c);
      failure = refl;
      stopped = refl;
    };
    evidence = λ h a. ground (arith, (h.activated a).2);
  }

  pub become_restored-Activates :
      (d : Deployment)
      → (is_retired d.status && is_some d.started_at) ≡ true
      → Activates d (become_restored d)
  unfolding become_restored has_proof meets_checks running_complete
  become_restored-Activates d r = record {
    same_id = refl;
    same_project = refl;
    proven = λ h c. record {
      proof = h.proof;
      activated = λ a. ((h.activated a).0, (h.activated a).1, refl);
      started = h.started;
      runs = λ s. h.started (ground arith);
      complete = ground (arith, c);
      failure = refl;
      stopped = refl;
    };
    evidence = λ h a. record {
      project = refl;
      build = refl;
      container = refl;
      digest = refl;
      activated = refl;
      verified = refl;
      proof = refl;
      valid = refl;
    };
  }

  -- Whoever is ready to run meets the CHECK when it does.
  pub become_active-meets_checks :
      (now : ℕ) (d : Deployment)
      → IsProven hash d
      → is_ready_to_run d ≡ true
      → meets_checks (become_active now d) ≡ true
  unfolding become_active meets_checks running_complete has_proof
  become_active-meets_checks now d h r =
      let proven : is_proof hash (identity d) d.container_id d.image_digest d.activation_verified_at
            d.activation_proof_sha256
          ≡ true =
        h.proof (ground arith) in
      let runtime : (is_some d.container_id && is_some d.image_digest) ≡ true = ground arith in
      ground arith

  pub IsProven-meets_checks : (d : Deployment) → IsProven hash d → meets_checks d ≡ true
  unfolding meets_checks has_proof
  IsProven-meets_checks d h =
      let proven : has_activation_proof d ≡ true = known d h.proof in
      let successful : has_success_evidence d ≡ true = evident d h.activated in
      rw (h.complete, proven, successful, h.failure, h.stopped) refl
    where
      known :
          (d : Deployment)
          → (is_proven_phase d.activation_phase ≡ true → has_proof hash d ≡ true)
          → has_activation_proof d ≡ true
      known d h = elim (Bool-cases (is_proven_phase d.activation_phase)) [
        | inl e ↦
            let p : is_proof hash (identity d) d.container_id d.image_digest
                  d.activation_verified_at d.activation_proof_sha256
                ≡ true =
              h e in
            ground arith
        | inr e ↦ ground arith
      ]

      evident :
          (d : Deployment)
          → (is_some d.activated_at ≡ true
              → (has_proof hash d ≡ true)
                × (is_some d.started_at ≡ true)
                × (is_in_progress d.status ≡ false))
          → has_success_evidence d ≡ true
      evident d h = elim (Bool-cases (is_some d.activated_at)) [
        | inl e ↦
            let (p, s, q) = h e in
            let p' : is_proof hash (identity d) d.container_id d.image_digest
                  d.activation_verified_at d.activation_proof_sha256
                ≡ true =
              p in
            ground arith
        | inr e ↦ ground arith
      ]
