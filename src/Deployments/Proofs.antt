-- ===== src/Deployments/Proofs.antt =====
-- How the activation changes a row.
use mcplica.Common.{
  ℕ, ◌≡◌, refl, sym, true, ◌&&◌, ◌||◌, Option, none, some, arith, Text, text_eq, text_eq→eq,
  text_eq_refl, is_text, codes, Bool-cases, inl, inr, take,
}
use mcplica.RuntimeCommands.Executor.{DeploymentStatus, healthcheck, unhealthy, stopping}
use mcplica.Deployments.Row.{
  Deployment, is_running, is_healthcheck, is_starting, is_in_progress, phase_failed,
  ActivationProof, identity, is_proof, has_proof, may_retire, running_complete,
}
use mcplica.Deployments.Activation.{
  proof_matches, become_verified, become_refreshed, become_retiring, become_unhealthy, has_columns,
}
use mcplica.Deployments.Evidence.{SameEvidence, Advances, Advances-refl}

is_text-some :
    (o : Option Text) (t : Text) → is_text o t ≡ true → (s : Text) × (o ≡ some s) × (s ≡ t)
is_text-some none t h = cc
is_text-some (some s) t h = (s, refl, text_eq→eq s t h)

module _ (hash : ActivationProof → Text) where
  pub become_retiring-Advances :
      (d : Deployment)
      → (is_healthcheck d.status && may_retire d.activation_phase && has_columns d) ≡ true
      → Advances hash d (become_retiring d)
  unfolding has_proof running_complete
  become_retiring-Advances d p = record {
    same_id = refl;
    same_project = refl;
    proven = λ h. record {
      proof = λ q. h.proof (ground arith);
      activated = λ a. h.activated a;
      started = h.started;
      runs = h.runs;
      complete = ground arith;
      failure = ground (arith, h.failure);
      stopped = ground (arith, h.stopped);
    };
    runs = λ r. r;
    evidence = λ h a. ground (arith, (h.activated a).2);
  }

  pub become_unhealthy-Advances :
      (now : ℕ) (code summary : Text) (d : Deployment)
      → Advances hash d (become_unhealthy now code summary d)
  unfolding become_unhealthy has_proof running_complete
  become_unhealthy-Advances now code summary d =
      elim (Bool-cases (is_healthcheck d.status || is_running d.status)) [
        | inr e ↦ rw e (Advances-refl hash d)
        | inl e ↦ rw e (now_unhealthy d)
      ]
    where
      now_unhealthy :
          (d : Deployment)
          → Advances hash d (record d {
            status = unhealthy;
            health_status = some (codes "unhealthy");
            activation_phase = some phase_failed;
            failed_at = some now;
            error_code = some (take 128 code);
            error_summary = some (take 2000 summary);
          })
      now_unhealthy d = record {
        same_id = refl;
        same_project = refl;
        proven = λ h. record {
          proof = λ q. cc;
          activated = λ a. ((h.activated a).0, (h.activated a).1, refl);
          started = h.started;
          runs = λ r. cc;
          complete = refl;
          failure = ground (arith, h.failure);
          stopped = ground (arith, h.stopped);
        };
        runs = λ r. cc;
        evidence = λ h a. record {
          project = refl;
          build = refl;
          container = refl;
          digest = refl;
          activated = refl;
          verified = refl;
          proof = refl;
          valid = refl;
        };
      }

  -- A proof that matches a row is about this row.
  pub proof_matches-has_proof :
      (d : Deployment) (p : ActivationProof)
      → proof_matches d p ≡ true
      → is_proof hash
          (identity d)
          d.container_id
          d.image_digest
          (some p.verified_at)
          (some (hash p))
        ≡ true
  unfolding proof_matches
  proof_matches-has_proof d p h =
      let c : is_text d.container_id p.container_id ≡ true = ground arith in
      let g : is_text d.image_digest p.image_digest ≡ true = ground arith in
      let host : text_eq p.hostname d.hostname ≡ true = ground arith in
      let manifest : text_eq p.manifest_sha256 d.manifest_sha256 ≡ true = ground arith in
      let version : text_eq p.runtime_version d.runtime_version ≡ true = ground arith in
      let id1 : d.id ≡ p.deployment_id = ground arith in
      let id2 : d.project_id ≡ p.project_id = ground arith in
      let id3 : d.build_id ≡ p.build_id = ground arith in
      let (x, at, x_eq) = is_text-some d.container_id p.container_id c in
      let (y, at', y_eq) = is_text-some d.image_digest p.image_digest g in
      let host_eq : d.hostname ≡ p.hostname = sym (text_eq→eq p.hostname d.hostname host) in
      let manifest_eq : d.manifest_sha256 ≡ p.manifest_sha256 =
        sym (text_eq→eq p.manifest_sha256 d.manifest_sha256 manifest) in
      let version_eq : d.runtime_version ≡ p.runtime_version =
        sym (text_eq→eq p.runtime_version d.runtime_version version) in
      let same : identity d x y p.verified_at ≡ p =
        rw (id1, id2, id3, x_eq, y_eq, host_eq, manifest_eq, version_eq) refl in
      rw (at, at', same) (text_eq_refl (hash p))

  pub become_verified-Advances :
      (d : Deployment) (p : ActivationProof)
      → is_starting d.status ≡ true
      → proof_matches d p ≡ true
      → Advances hash d (become_verified hash p d)
  unfolding become_verified has_proof running_complete
  become_verified-Advances d p starting matches =
      let known = proof_matches-has_proof d p matches in
      rw (starting, become_verified)
        record {
          same_id = refl;
          same_project = refl;
          proven = λ h. record {
            proof = λ q. known;
            activated = λ a. ground (arith, (h.activated a).2);
            started = h.started;
            runs = λ r. cc;
            complete = refl;
            failure = ground (arith, h.failure);
            stopped = ground (arith, h.stopped);
          };
          runs = λ r. cc;
          evidence = λ h a. ground (arith, (h.activated a).2);
        }

  pub become_refreshed-Advances :
      (d : Deployment) (p : ActivationProof)
      → ((is_healthcheck d.status || is_running d.status) && proof_matches d p) ≡ true
      → Advances hash d (become_refreshed hash p d)
  unfolding become_refreshed has_proof running_complete
  become_refreshed-Advances d p h = elim (Bool-cases (is_running d.status)) [
    | inl e ↦
        rw (e, become_refreshed)
          record {
            same_id = refl;
            same_project = refl;
            proven = λ k. record {
              proof = k.proof;
              activated = k.activated;
              started = k.started;
              runs = k.runs;
              complete = ground (arith, k.complete);
              failure = ground (arith, k.failure);
              stopped = ground (arith, k.stopped);
            };
            runs = λ r. e;
            evidence = λ k a. record {
              project = refl;
              build = refl;
              container = refl;
              digest = refl;
              activated = refl;
              verified = refl;
              proof = refl;
              valid = refl;
            };
          }
    | inr e ↦
        let m : proof_matches d p ≡ true = ground arith in
        let check : is_healthcheck d.status ≡ true = ground arith in
        let known = proof_matches-has_proof d p m in
        rw (e, become_refreshed)
          record {
            same_id = refl;
            same_project = refl;
            proven = λ k. record {
              proof = λ q. known;
              activated = λ a. ground (arith, (k.activated a).2);
              started = k.started;
              runs = k.runs;
              complete = ground arith;
              failure = ground (arith, k.failure);
              stopped = ground (arith, k.stopped);
            };
            runs = λ r. r;
            evidence = λ k a. ground (arith, (k.activated a).2);
          }
  ]

  -- The statuses that a transition sets.
  pub to_starting-Advances :
      (d : Deployment) (overlay : Option Text) (health : Option Text) (s : DeploymentStatus)
      → is_in_progress d.status ≡ true
      → is_starting s ≡ true
      → Advances hash d
          (record d { auth_overlay_sha256 = overlay; health_status = health; status = s })
  unfolding has_proof running_complete
  to_starting-Advances d overlay health s p q = record {
    same_id = refl;
    same_project = refl;
    proven = λ h. record {
      proof = h.proof;
      activated = λ a. ground (arith, (h.activated a).2);
      started = h.started;
      runs = λ r. ground arith;
      complete = ground arith;
      failure = ground (arith, h.failure);
      stopped = ground (arith, h.stopped);
    };
    runs = λ r. ground arith;
    evidence = λ h a. ground (arith, (h.activated a).2);
  }

  pub to_stopping-Advances : (d : Deployment) → Advances hash d (record d { status = stopping })
  unfolding has_proof running_complete
  to_stopping-Advances d = record {
    same_id = refl;
    same_project = refl;
    proven = λ h. record {
      proof = h.proof;
      activated = λ a. ((h.activated a).0, (h.activated a).1, refl);
      started = h.started;
      runs = λ r. cc;
      complete = refl;
      failure = ground (arith, h.failure);
      stopped = ground (arith, h.stopped);
    };
    runs = λ r. cc;
    evidence = λ h a. SameEvidence-with_status d;
  }
    where
      SameEvidence-with_status :
          (d : Deployment) → SameEvidence hash d (record d { status = stopping })
      SameEvidence-with_status d = record {
        project = refl;
        build = refl;
        container = refl;
        digest = refl;
        activated = refl;
        verified = refl;
        proof = refl;
        valid = refl;
      }

  -- The runtime of a start is recorded, and its proof in the same transaction.
  pub provisioned_verified-Advances :
      (d : Deployment) (container digest : Text) (health : Option Text) (p : ActivationProof)
      → is_healthcheck d.status ≡ true
      → proof_matches
          (record d {
            container_id = some container;
            image_digest = some digest;
            health_status = health;
            status = healthcheck;
          })
          p
        ≡ true
      → Advances hash d (
          become_verified hash p (record d {
            container_id = some container;
            image_digest = some digest;
            health_status = health;
            status = healthcheck;
          }))
  unfolding become_verified has_proof running_complete
  provisioned_verified-Advances d container digest health p check matches =
      let known =
        proof_matches-has_proof
          (record d {
            container_id = some container;
            image_digest = some digest;
            health_status = health;
            status = healthcheck;
          })
          p matches in
      record {
        same_id = refl;
        same_project = refl;
        proven = λ h. record {
          proof = λ q. known;
          activated = λ a. ground (arith, (h.activated a).2);
          started = h.started;
          runs = λ r. cc;
          complete = refl;
          failure = ground (arith, h.failure);
          stopped = ground (arith, h.stopped);
        };
        runs = λ r. cc;
        evidence = λ h a. ground (arith, (h.activated a).2);
      }
