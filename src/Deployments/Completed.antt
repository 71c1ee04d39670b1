-- ===== src/Deployments/Completed.antt =====
-- The two transactions that let a deployment run: a completed activation, and the restored predecessor of
-- a failed one.
use mcplica.Common.{
  ℕ, List, [], ◌∷◌, ◌≡◌, refl, sym, ap, ◌∙◌, subst, Bool, true, false, not, ◌||◌, Option, none,
  some, arith, is_just, any, ◌==◌, Text, Bool-cases, Option-cases, inl, inr, ok, err, >>=-eq-ok,
  ◌>>=◌,
}
use mcplica.Common.Table.{find, update, key_of_find}
use mcplica.Deployments.Row.{
  Deployment, State, row_id, project_key, is_running, is_healthcheck, is_retired, is_stopping,
  ActivationProof, meets_checks,
}
use mcplica.Deployments.{change, is_rival, write_running, checked, integrity_error, become_stopped}
use mcplica.Deployments.Activation.{
  become_unhealthy, find_previous, restore, restore_previous_after_failed_activation, become_active,
  may_follow, stop_stopping, finish_previous, is_ready_to_run, serves, complete_activation,
}
use mcplica.Deployments.Evidence.{stop_stopping-Advances}
use mcplica.Deployments.Proofs.{become_unhealthy-Advances}
use mcplica.Deployments.Running.{become_active-Activates}
use mcplica.Deployments.Moves.{row, Moves, Moves-change, Carries-refl, changed_self, changed_other}
use mcplica.Deployments.Safety.{
  IsSafe, Moves-IsSafe, IsSafe-trans, same_rows-IsSafe, write_running-IsSafe, restore-IsSafe,
}

-- A stopped predecessor is nobody's rival.
pub finish_previous-rivals :
    (now : ℕ) (o : Option ℕ) (p i : ℕ) (s : State)
    → any (is_rival p i) s.deployments ≡ false
    → any (is_rival p i) (finish_previous now o s).deployments ≡ false
unfolding finish_previous update
finish_previous-rivals now none p i s h = h
finish_previous-rivals now (some k) p i s h = stopped_too s.deployments h
  where
    no_rival :
        (d : Deployment) → is_rival p i d ≡ false → is_rival p i (stop_stopping now d) ≡ false
    no_rival d h = (unfold become_stopped in ground arith)

    stopped_too :
        (ds : List Deployment)
        → any (is_rival p i) ds ≡ false
        → any (is_rival p i) (update row_id k (stop_stopping now) ds) ≡ false
    stopped_too [] h = refl
    stopped_too (d ∷ ds) h = elim (Bool-cases (d.id == k)) [
      | inl e ↦ rw e (rw (no_rival d (ground arith)) (ground arith))
      | inr e ↦ rw (e, stopped_too ds (ground arith)) (ground arith)
    ]

checked-ok : (o : Option ℕ) (s : State) {t : State} → checked o s ≡ ok t → t ≡ s
unfolding checked
checked-ok none s {t} h = let k : ok s ≡ ok t = h in cc
checked-ok (some i) s {t} h = elim (Option-cases (row i s)) [
  | inl e ↦ let k : ok s ≡ ok t = rw (e, checked) at h in cc
  | inr (d, e) ↦ elim (Bool-cases (meets_checks d)) [
    | inl m ↦ let k : ok s ≡ ok t = rw (e, checked, m) at h in cc
    | inr m ↦ let k : err integrity_error ≡ ok t = rw (e, checked, m) at h in cc
  ]
]

module _ (hash : ActivationProof → Text) where
  -- A row that a change does not touch is read as before.
  untouched :
      (i : ℕ) (f : Deployment → Deployment) (s : State) (d : Deployment)
      → ((x : Deployment) → (f x).id ≡ x.id)
      → f d ≡ d
      → row d.id s ≡ some d
      → row d.id (change i f s) ≡ some d
  untouched i f s d ids fixed at = elim (Bool-cases (i == d.id)) [
    | inr n ↦ changed_other hash i f s d.id ids n ∙ at
    | inl q ↦
        let same : i ≡ d.id = ground arith in
        let here : row d.id (change d.id f s) ≡ some (f d) = changed_self hash d.id f s d ids at in
        subst (λ z. row d.id (change z f s) ≡ some d) (sym same) (here ∙ ap some fixed)
  ]

  own_row : (i : ℕ) (s : State) (d : Deployment) → row i s ≡ some d → row d.id s ≡ some d
  own_row i s d at = subst (λ z. row z s ≡ some d) (sym (key_of_find row_id i s.deployments at)) at

  pub restore_previous-IsSafe :
      (now i : ℕ) (ready : Bool) (code summary : Text) (s t : State)
      → restore_previous_after_failed_activation now i ready code summary s ≡ ok t
      → IsSafe hash s t
  unfolding restore_previous_after_failed_activation
  restore_previous-IsSafe now i ready code summary s t h = elim (Option-cases (row i s)) [
    | inl e ↦
        let k : ok s ≡ ok t = rw (e, restore_previous_after_failed_activation) at h in
        let same : t ≡ s = cc in same_rows-IsSafe hash s t (ap (λ z. z.deployments) same)
    | inr (d, e) ↦ elim (Option-cases (find project_key d.project_id s.projects)) [
      | inl n ↦
          let k : ok s ≡ ok t = rw (e, restore_previous_after_failed_activation, n) at h in
          let same : t ≡ s = cc in same_rows-IsSafe hash s t (ap (λ z. z.deployments) same)
      | inr (x, n) ↦ elim (Bool-cases (is_just x.active_deployment_id i)) [
        | inr b ↦
            let k : ok s ≡ ok t = rw (e, restore_previous_after_failed_activation, n, b) at h in
            let same : t ≡ s = cc in same_rows-IsSafe hash s t (ap (λ z. z.deployments) same)
        | inl b ↦
            let s1 : State = change i (become_unhealthy now code summary) s in
            let k : restore ready d.project_id (find_previous d.previous_active_deployment_id s) s1
                ≡ ok t =
              rw (e, restore_previous_after_failed_activation, n, b) at h in
            IsSafe-trans hash s s1 t
              (Moves-IsSafe hash s s1 (
                Moves-change hash i (become_unhealthy now code summary) s (λ z. kept z)
                  (λ z at. become_unhealthy-Advances hash now code summary z)))
              (restore-IsSafe hash ready d.project_id
                (find_previous d.previous_active_deployment_id s) s1 t
                (λ z at r.
                  untouched i (become_unhealthy now code summary) s z (λ y. kept y) (fixed z r)
                    (previous_row d.previous_active_deployment_id z at))
                k)
      ]
    ]
  ]
    where
      kept : (z : Deployment) → (become_unhealthy now code summary z).id ≡ z.id
      kept z = (unfold become_unhealthy in ground arith)

      fixed :
          (z : Deployment) → is_retired z.status ≡ true → become_unhealthy now code summary z ≡ z
      fixed z r =
          let other : (is_healthcheck z.status || is_running z.status) ≡ false = ground arith in
          (unfold become_unhealthy in rw (other, become_unhealthy) refl)

      previous_row :
          (o : Option ℕ) (z : Deployment) → find_previous o s ≡ some z → row z.id s ≡ some z
      previous_row none z at = cc
      previous_row (some k) z at = own_row k s z at

  pub finish_previous-Moves :
      (now : ℕ) (o : Option ℕ) (s : State) → Moves hash s (finish_previous now o s)
  unfolding finish_previous
  finish_previous-Moves now none s j = Carries-refl hash (row j s)
  finish_previous-Moves now (some k) s j =
      Moves-change hash k (stop_stopping now) s (λ z. kept z)
        (λ z at. stop_stopping-Advances hash now z) j
    where
      kept : (z : Deployment) → (stop_stopping now z).id ≡ z.id
      kept z = (unfold become_stopped in ground arith)

  finish_previous-row :
      (now : ℕ) (o : Option ℕ) (s : State) (d : Deployment)
      → is_stopping d.status ≡ false
      → row d.id s ≡ some d
      → row d.id (finish_previous now o s) ≡ some d
  unfolding finish_previous
  finish_previous-row now none s d n at = at
  finish_previous-row now (some k) s d n at =
      untouched k (stop_stopping now) s d (λ z. kept z) (rw n refl) at
    where
      kept : (z : Deployment) → (stop_stopping now z).id ≡ z.id
      kept z = (unfold become_stopped in ground arith)

  pub complete_activation-IsSafe :
      (now i : ℕ) (s t : State) → complete_activation now i s ≡ ok (some t) → IsSafe hash s t
  unfolding complete_activation
  complete_activation-IsSafe now i s t h = elim (Option-cases (row i s)) [
    | inl e ↦ let k : ok none ≡ ok (some t) = rw (e, complete_activation) at h in cc
    | inr (d, e) ↦ elim (Bool-cases (is_ready_to_run d)) [
      | inr q ↦ let k : ok none ≡ ok (some t) = rw (e, complete_activation, q) at h in cc
      | inl q ↦ elim (Option-cases (find project_key d.project_id s.projects)) [
        | inl n ↦ let k : ok none ≡ ok (some t) = rw (e, complete_activation, q, n) at h in cc
        | inr (x, n) ↦
            elim (Bool-cases (
              not (serves x i)
              || not (may_follow d.previous_active_deployment_id d.project_id s)
              || any (is_rival d.project_id d.id) s.deployments)) [
                | inl b ↦
                    let k : ok none ≡ ok (some t) = rw (e, complete_activation, q, n, b) at h in cc
                | inr b ↦
                    let s1 : State = finish_previous now d.previous_active_deployment_id s in
                    let k : (checked d.previous_active_deployment_id s1 >>= λ s2.
                    write_running d (become_active now) s2 >>= λ s'. ok (some s'))
                        ≡ ok (some t) =
                      rw (e, complete_activation, q, n, b) at h in
                    let (s2, met, k2) =
                      >>=-eq-ok (checked d.previous_active_deployment_id s1) _ k in
                    let is_s1 : s2 ≡ s1 = checked-ok d.previous_active_deployment_id s1 met in
                    let k1 : (write_running d (become_active now) s1 >>= λ s'. ok (some s'))
                        ≡ ok (some t) =
                      rw is_s1 at k2 in
                    let (s', wrote, rest) =
                      >>=-eq-ok (write_running d (become_active now) s1) _ k1 in
                    let rest' : ok (some s') ≡ ok (some t) = rest in
                    let same : t ≡ s' = cc in
                    subst (λ z. IsSafe hash s z) (sym same)
                      (IsSafe-trans hash s s1 s'
                        (Moves-IsSafe hash s s1
                          (finish_previous-Moves now d.previous_active_deployment_id s))
                        (write_running-IsSafe hash d (become_active now) s1 s'
                          (finish_previous-row now d.previous_active_deployment_id s d
                            (ground arith) (own_row i s d e))
                          (λ z. (unfold become_active in refl))
                          (become_active-Activates hash now d q) wrote))
              ]
      ]
    ]
  ]
