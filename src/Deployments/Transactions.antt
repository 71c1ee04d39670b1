-- ===== src/Deployments/Transactions.antt =====
-- What each transaction does to the rows.
use mcplica.Common.{
  ℕ, ◌≡◌, refl, sym, ◌∙◌, Bool, true, ◌&&◌, ◌||◌, Option, none, some, arith, if◌then◌else◌, Text,
  Bool-cases, inl, inr,
}
use mcplica.RuntimeCommands.Executor.{DeploymentStatus}
use mcplica.Deployments.Row.{
  Deployment, State, is_running, is_healthcheck, is_starting, is_in_progress, ActivationProof,
  may_retire,
}
use mcplica.Deployments.{
  change, transition, become_stopped, mark_stopped, become_failed, mark_failed, become_reset,
  reset_for_retry,
}
use mcplica.Deployments.Activation.{
  proof_matches, become_refreshed, refresh_activation_proof, has_columns, become_retiring,
  mark_retiring_previous,
}
use mcplica.Deployments.Evidence.{
  Advances, become_stopped-Advances, become_failed-Advances, become_reset-Advances,
}
use mcplica.Deployments.Proofs.{become_retiring-Advances, become_refreshed-Advances}
use mcplica.Deployments.Moves.{row, Moves, Moves-change}

-- An update of a row that passed a test.
pub tested :
    (i : ℕ) (test : Deployment → Bool) (f : Deployment → Deployment) (s : State)
    (o : Option Deployment) {t : State}
    → row i s ≡ o
    → (elim o [ none ↦ none | some d ↦ if test d then some (change i f s) else none ]) ≡ some t
    → (d : Deployment) × (row i s ≡ some d) × (test d ≡ true) × (t ≡ change i f s)
tested i test f s none at h = cc
tested i test f s (some d) {t} at h = elim (Bool-cases (test d)) [
  | inr e ↦ let k : none ≡ some t = rw e at h in cc
  | inl e ↦ let k : some (change i f s) ≡ some t = rw e at h in (d, at, e, cc)
]

module _ (hash : ActivationProof → Text) where
  tested-Moves :
      (i : ℕ) (test : Deployment → Bool) (f : Deployment → Deployment) (s : State) {t : State}
      → ((x : Deployment) → (f x).id ≡ x.id)
      → ((d : Deployment) → test d ≡ true → Advances hash d (f d))
      → (d : Deployment) × (row i s ≡ some d) × (test d ≡ true) × (t ≡ change i f s)
      → Moves hash s t
  tested-Moves i test f s ids a (d, at, passed, made) = rw made (
      Moves-change hash i f s ids λ x at'.
        let k : some x ≡ some d = sym at' ∙ at in let same : x ≡ d = cc in a x (rw same passed))

  pub transition-Moves :
      (i : ℕ) (expected : DeploymentStatus → Bool) (status : DeploymentStatus)
      (values : Deployment → Deployment) (s : State) {t : State}
      → ((x : Deployment) → (values x).id ≡ x.id)
      → ((d : Deployment)
          → expected d.status ≡ true
          → Advances hash d (record (values d) { status = status }))
      → transition i expected status values s ≡ some t
      → Moves hash s t
  unfolding transition
  transition-Moves i expected status values s ids a h =
      tested-Moves i (λ d. expected d.status) (λ d. record (values d) { status = status }) s ids a
        (tested i (λ d. expected d.status) (λ d. record (values d) { status = status }) s (row i s)
          refl h)

  pub mark_stopped-Moves : (now i : ℕ) (s : State) → Moves hash s (mark_stopped now i s)
  mark_stopped-Moves now i s =
      Moves-change hash i (become_stopped now) s (λ x. (unfold become_stopped in refl))
        (λ d at. become_stopped-Advances hash now d)

  pub mark_failed-Moves :
      (now i : ℕ) (code summary : Text) (is_unhealthy : Bool) (s : State) {t : State}
      → mark_failed now i code summary is_unhealthy s ≡ some t
      → Moves hash s t
  unfolding mark_failed
  mark_failed-Moves now i code summary is_unhealthy s h =
      let f : Deployment → Deployment = become_failed now code summary is_unhealthy in
      tested-Moves i (λ d. is_in_progress d.status) f s (λ x. (unfold become_failed in refl))
        (λ d p. become_failed-Advances hash now code summary is_unhealthy d p)
        (tested i (λ d. is_in_progress d.status) f s (row i s) refl h)

  pub reset_for_retry-Moves :
      (i : ℕ) (s : State) {t : State} → reset_for_retry i s ≡ some t → Moves hash s t
  unfolding reset_for_retry
  reset_for_retry-Moves i s h =
      tested-Moves i (λ d. is_starting d.status) become_reset s (λ x. (unfold become_reset in refl))
        (λ d p. become_reset-Advances hash d p)
        (tested i (λ d. is_starting d.status) become_reset s (row i s) refl h)

  pub refresh-Moves :
      (i : ℕ) (p : ActivationProof) (s : State) {t : State}
      → refresh_activation_proof hash i p s ≡ some t
      → Moves hash s t
  unfolding refresh_activation_proof
  refresh-Moves i p s h =
      let test : Deployment → Bool =
        λ d. (is_healthcheck d.status || is_running d.status) && proof_matches d p in
      tested-Moves i test (become_refreshed hash p) s (λ x. kept x)
        (λ d q. become_refreshed-Advances hash d p q)
        (tested i test (become_refreshed hash p) s (row i s) refl h)
    where
      kept : (x : Deployment) → (become_refreshed hash p x).id ≡ x.id
      kept x = (unfold become_refreshed in ground arith)

  pub mark_retiring-Moves :
      (i : ℕ) (s : State) {t : State} → mark_retiring_previous i s ≡ some t → Moves hash s t
  unfolding mark_retiring_previous
  mark_retiring-Moves i s h =
      let test : Deployment → Bool =
        λ d. is_healthcheck d.status && may_retire d.activation_phase && has_columns d in
      tested-Moves i test become_retiring s (λ x. refl) (λ d q. become_retiring-Advances hash d q)
        (tested i test become_retiring s (row i s) refl h)
