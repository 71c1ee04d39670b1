-- ===== src/Deployments/Evidence.antt =====
-- What a row proves, and how the methods change a row.
use mcplica.Common.{ℕ, ◌≡◌, refl, Bool, true, false, arith, is_some, Text, Bool-cases, inl, inr}
use mcplica.RuntimeCommands.Executor.{stopping}
use mcplica.Deployments.Row.{
  Deployment, is_running, is_starting, is_in_progress, is_stopping, ActivationProof, has_proof,
  is_proven_phase, running_complete, failure_complete, stopped_complete,
}
use mcplica.Deployments.{become_stopped, become_failed, become_reset}
use mcplica.Deployments.Activation.{stop_running, stop_stopping}

module _ (hash : ActivationProof → Text) where
  -- A phase that asks for a proof has one, of this deployment. A deployment that was started was
  -- activated, is proven and does not start again; one that runs was activated; the row meets the CHECKs
  -- on status, activation and failure.
  pub record IsProven (d : Deployment) : Type 0 where
    pub proof : is_proven_phase d.activation_phase ≡ true → has_proof hash d ≡ true
    pub activated :
        is_some d.activated_at ≡ true
        → (has_proof hash d ≡ true)
          × (is_some d.started_at ≡ true)
          × (is_in_progress d.status ≡ false)
    pub started : is_some d.started_at ≡ true → is_some d.activated_at ≡ true
    pub runs : is_running d.status ≡ true → is_some d.activated_at ≡ true
    pub complete : running_complete d ≡ true
    pub failure : failure_complete d ≡ true
    pub stopped : stopped_complete d ≡ true

  -- The columns that establish an activation.
  pub record SameEvidence (d e : Deployment) : Type 0 where
    pub project : e.project_id ≡ d.project_id
    pub build : e.build_id ≡ d.build_id
    pub container : e.container_id ≡ d.container_id
    pub digest : e.image_digest ≡ d.image_digest
    pub activated : e.activated_at ≡ d.activated_at
    pub verified : e.activation_verified_at ≡ d.activation_verified_at
    pub proof : e.activation_proof_sha256 ≡ d.activation_proof_sha256
    pub valid : has_proof hash e ≡ has_proof hash d

  -- What a method does to a row.
  pub record Advances (d e : Deployment) : Type 0 where
    pub same_id : e.id ≡ d.id
    pub same_project : e.project_id ≡ d.project_id
    pub proven : IsProven d → IsProven e
    pub runs : is_running e.status ≡ true → is_running d.status ≡ true
    pub evidence : IsProven d → is_some d.activated_at ≡ true → SameEvidence d e

  pub SameEvidence-refl : (d : Deployment) → SameEvidence d d
  SameEvidence-refl d = record {
    project = refl;
    build = refl;
    container = refl;
    digest = refl;
    activated = refl;
    verified = refl;
    proof = refl;
    valid = refl;
  }

  pub Advances-refl : (d : Deployment) → Advances d d
  Advances-refl d = record {
    same_id = refl;
    same_project = refl;
    proven = λ h. h;
    runs = λ h. h;
    evidence = λ h a. SameEvidence-refl d;
  }

  pub become_stopped-Advances : (now : ℕ) (d : Deployment) → Advances d (become_stopped now d)
  unfolding become_stopped has_proof running_complete
  become_stopped-Advances now d = record {
    same_id = refl;
    same_project = refl;
    proven = λ h. record {
      proof = h.proof;
      activated = λ a. ((h.activated a).0, (h.activated a).1, refl);
      started = h.started;
      runs = λ r. cc;
      complete = refl;
      failure = ground (arith, h.failure);
      stopped = ground (arith, h.stopped);
    };
    runs = λ r. cc;
    evidence = λ h a. record {
      project = refl;
      build = refl;
      container = refl;
      digest = refl;
      activated = refl;
      verified = refl;
      proof = refl;
      valid = refl;
    };
  }

  pub become_failed-Advances :
      (now : ℕ) (code summary : Text) (is_unhealthy : Bool) (d : Deployment)
      → is_in_progress d.status ≡ true
      → Advances d (become_failed now code summary is_unhealthy d)
  unfolding become_failed has_proof running_complete
  become_failed-Advances now code summary is_unhealthy d p = record {
    same_id = refl;
    same_project = refl;
    proven = λ h. record {
      proof = λ q. cc;
      activated = λ a. ground (arith, (h.activated a).2);
      started = h.started;
      runs = λ r. ground arith;
      complete = ground arith;
      failure = ground (arith, h.failure);
      stopped = ground (arith, h.stopped);
    };
    runs = λ r. ground arith;
    evidence = λ h a. ground (arith, (h.activated a).2);
  }

  pub become_reset-Advances :
      (d : Deployment) → is_starting d.status ≡ true → Advances d (become_reset d)
  unfolding become_reset has_proof running_complete
  become_reset-Advances d p = record {
    same_id = refl;
    same_project = refl;
    proven = λ h. record {
      proof = λ q. cc;
      activated = λ a. cc;
      started = λ a. cc;
      runs = λ r. cc;
      complete = refl;
      failure = ground (arith, h.failure);
      stopped = ground (arith, h.stopped);
    };
    runs = λ r. cc;
    evidence = λ h a. ground (arith, (h.activated a).2);
  }

  pub stop_running-Advances : (d : Deployment) → Advances d (stop_running d)
  unfolding has_proof running_complete
  stop_running-Advances d = elim (Bool-cases (is_running d.status)) [
    | inr e ↦ rw e (Advances-refl d)
    | inl e ↦ rw e (stopped_running d e)
  ]
    where
      stopped_running :
          (d : Deployment)
          → is_running d.status ≡ true
          → Advances d (record d { status = stopping })
      stopped_running d e = record {
        same_id = refl;
        same_project = refl;
        proven = λ h. record {
          proof = h.proof;
          activated = λ a. ((h.activated a).0, (h.activated a).1, refl);
          started = h.started;
          runs = λ r. cc;
          complete = refl;
          failure = ground (arith, h.failure);
          stopped = ground (arith, h.stopped);
        };
        runs = λ r. cc;
        evidence = λ h a. record {
          project = refl;
          build = refl;
          container = refl;
          digest = refl;
          activated = refl;
          verified = refl;
          proof = refl;
          valid = refl;
        };
      }

  pub stop_stopping-Advances : (now : ℕ) (d : Deployment) → Advances d (stop_stopping now d)
  stop_stopping-Advances now d = elim (Bool-cases (is_stopping d.status)) [
    | inr e ↦ rw e (Advances-refl d)
    | inl e ↦ rw e (become_stopped-Advances now d)
  ]
