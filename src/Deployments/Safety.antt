-- ===== src/Deployments/Safety.antt =====
-- What every transaction keeps, and that a restored predecessor keeps it.
use mcplica.Common.{
  ℕ, ◌≡◌, refl, sym, ap, ◌∙◌, subst, Bool, true, ◌&&◌, Option, none, some, arith, is_some, ◌==◌,
  Text, Bool-cases, inl, inr, ok, >>=-eq-ok, ◌>>=◌,
}
use mcplica.Common.Table.{find}
use mcplica.Deployments.Row.{Deployment, State, row_id, is_retired, ActivationProof}
use mcplica.Deployments.{change, point, write_running}
use mcplica.Deployments.Activation.{become_restored, restore}
use mcplica.Deployments.Evidence.{IsProven, SameEvidence, SameEvidence-refl, Advances}
use mcplica.Deployments.Running.{Activates, become_restored-Activates}
use mcplica.Deployments.Moves.{
  Carries, row, Moves, Carries-refl, changed_self, changed_other, write_running-ok, IsConsistent,
  Moves-IsConsistent, write_running-IsConsistent,
}

module _ (hash : ActivationProof → Text) where
  -- What every transaction keeps: consistency, and the evidence of each activated deployment.
  pub record IsSafe (s t : State) : Type 0 where
    pub consistent : IsConsistent hash s → IsConsistent hash t
    pub evidence :
        IsConsistent hash s
        → (j : ℕ) (d : Deployment) → row j s ≡ some d
        → is_some d.activated_at ≡ true
        → (e : Deployment) × (row j t ≡ some e) × SameEvidence hash d e

  pub Moves-IsSafe : (s t : State) → Moves hash s t → IsSafe s t
  Moves-IsSafe s t m = record {
    consistent = Moves-IsConsistent hash s t m;
    evidence = λ c j d at a. there (row j s) (row j t) d (m j) at a (c.proven j d at);
  }
    where
      there :
          (o r : Option Deployment) (d : Deployment)
          → Carries (Advances hash) o r
          → o ≡ some d
          → is_some d.activated_at ≡ true
          → IsProven hash d
          → (e : Deployment) × (r ≡ some e) × SameEvidence hash d e
      there none r d m at a p = cc
      there (some x) none d m at a p = elim m [ ]
      there (some x) (some y) d m at a p =
          let same : x ≡ d = cc in
          let m' : Advances hash d y = subst (λ z. Advances hash z y) same m in
          (y, refl, m'.evidence p a)

  pub SameEvidence-trans :
      (x y z : Deployment) → SameEvidence hash x y → SameEvidence hash y z → SameEvidence hash x z
  SameEvidence-trans x y z a b = record {
    project = b.project ∙ a.project;
    build = b.build ∙ a.build;
    container = b.container ∙ a.container;
    digest = b.digest ∙ a.digest;
    activated = b.activated ∙ a.activated;
    verified = b.verified ∙ a.verified;
    proof = b.proof ∙ a.proof;
    valid = b.valid ∙ a.valid;
  }

  pub IsSafe-trans : (s t u : State) → IsSafe s t → IsSafe t u → IsSafe s u
  IsSafe-trans s t u a b = record {
    consistent = λ c. b.consistent (a.consistent c);
    evidence = λ c j d at h.
        let (e, at', k) = a.evidence c j d at h in
        let (e', at'', k') = b.evidence (a.consistent c) j e at' (rw k.activated h) in
        (e', at'', SameEvidence-trans d e e' k k');
  }

  -- The transaction leaves the rows.
  pub same_rows-IsSafe : (s t : State) → t.deployments ≡ s.deployments → IsSafe s t
  same_rows-IsSafe s t same = Moves-IsSafe s t (λ j.
      subst (λ z. Carries (Advances hash) (row j s) (find row_id j z)) (sym same)
        (Carries-refl hash (row j s)))

  pub write_running-IsSafe :
      (d : Deployment) (f : Deployment → Deployment) (s t : State)
      → row d.id s ≡ some d
      → ((x : Deployment) → (f x).id ≡ x.id)
      → Activates hash d (f d)
      → write_running d f s ≡ ok t
      → IsSafe s t
  write_running-IsSafe d f s t at ids a h = record {
    consistent = write_running-IsConsistent hash d f s t at ids a h;
    evidence = λ c j x there active.
        let (none_rivals, complete, made) = write_running-ok hash d f s t h in
        elim (Bool-cases (d.id == j)) [
          | inr n ↦ (
            x,
            subst (λ z. row j z ≡ some x) (sym made) (changed_other hash d.id f s j ids n ∙ there),
            SameEvidence-refl hash x,
          )
          | inl q ↦
              let same : d.id ≡ j = ground arith in
              let is_d : x ≡ d =
                (let e : some x ≡ some d = sym there ∙ subst (λ z. row z s ≡ some d) same at in
                  cc) in
              (
                f d,
                subst (λ z. row j z ≡ some (f d)) (sym made)
                    (subst (λ z. row z (change d.id f s) ≡ some (f d)) same
                      (changed_self hash d.id f s d ids at)),
                subst (λ z. SameEvidence hash z (f d)) (sym is_d)
                    (a.evidence (c.proven d.id d at)
                      (subst (λ z. is_some z.activated_at ≡ true) is_d active)),
              )
        ];
  }

  pub restore-IsSafe :
      (ready : Bool) (p : ℕ) (o : Option Deployment) (s t : State)
      → ((d : Deployment) → o ≡ some d → is_retired d.status ≡ true → row d.id s ≡ some d)
      → restore ready p o s ≡ ok t
      → IsSafe s t
  unfolding restore
  restore-IsSafe ready p none s t read h =
      let k : ok (point p none none s) ≡ ok t = h in
      let same : t ≡ point p none none s = cc in same_rows-IsSafe s t (ap (λ z. z.deployments) same)
  restore-IsSafe ready p (some d) s t read h =
      elim (Bool-cases (ready && is_retired d.status && is_some d.started_at)) [
        | inr n ↦
            let k : ok (point p none none s) ≡ ok t = rw (n, restore) at h in
            let same : t ≡ point p none none s = cc in
            same_rows-IsSafe s t (ap (λ z. z.deployments) same)
        | inl q ↦
            let k : (write_running d become_restored s >>= λ s'.
            ok (point p (some d.build_id) (some d.id) s'))
                ≡ ok t =
              rw (q, restore) at h in
            let (s', wrote, rest) = >>=-eq-ok (write_running d become_restored s) _ k in
            let rest' : ok (point p (some d.build_id) (some d.id) s') ≡ ok t = rest in
            let same : t ≡ point p (some d.build_id) (some d.id) s' = cc in
            IsSafe-trans s s' t
              (write_running-IsSafe d become_restored s s' (read d refl (ground arith))
                (λ x. (unfold become_restored in refl))
                (become_restored-Activates hash d (ground arith)) wrote)
              (same_rows-IsSafe s' t (ap (λ z. z.deployments) same))
      ]
