-- ===== src/Deployments/Moves.antt =====
-- States that keep their rows, what is consistent of a state, and the update that lets a deployment run.
use mathlib.Core.Option
use mcplica.Common.{
  ℕ, ◌≡◌, ◌≢◌, refl, sym, ap, ◌∙◌, subst, true, false, not, ◌||◌, Option, none, some, List, [], ◌∷◌,
  arith, if◌then◌else◌, any, ◌==◌, Text, Bool-cases, ◌⊎◌, inl, inr, ok, err, Empty, Memᴰ,
}
use mcplica.Common.Table.{find, find-update, key_of_find, mem_of_find}
use mcplica.Deployments.Row.{Deployment, State, row_id, is_running, ActivationProof, meets_checks}
use mcplica.Deployments.{integrity_error, change, is_rival, write_running}
use mcplica.Deployments.Running.{Activates}
use mcplica.Deployments.Evidence.{IsProven, Advances, Advances-refl}

-- A row and what it becomes; no row is removed or appears.
abbrev pub Carries :
    (Deployment → Deployment → Type 0) → Option Deployment → Option Deployment → Type 0
Carries R none none = Unit
Carries R none (some e) = Empty
Carries R (some d) none = Empty
Carries R (some d) (some e) = R d e

abbrev pub row : ℕ → State → Option Deployment
row j s = find row_id j s.deployments

module _ (hash : ActivationProof → Text) where
  abbrev pub Moves : State → State → Type 0
  Moves s t = (j : ℕ) → Carries (Advances hash) (row j s) (row j t)

  pub record IsConsistent (s : State) : Type 0 where
    pub proven : (j : ℕ) (d : Deployment) → row j s ≡ some d → IsProven hash d
    pub one_running :
        (i j : ℕ) (d e : Deployment)
        → row i s ≡ some d
        → row j s ≡ some e
        → is_running d.status ≡ true
        → is_running e.status ≡ true
        → d.project_id ≡ e.project_id
        → i ≡ j

  pub Carries-refl : (o : Option Deployment) → Carries (Advances hash) o o
  Carries-refl none = tt
  Carries-refl (some d) = Advances-refl hash d

  Carries-some :
      (o r : Option Deployment) (e : Deployment)
      → Carries (Advances hash) o r
      → r ≡ some e
      → (d : Deployment) × (o ≡ some d) × Advances hash d e
  Carries-some o none e c h = cc
  Carries-some none (some x) e c h = elim c [ ]
  Carries-some (some d) (some x) e c h =
      let same : x ≡ e = cc in (d, refl, subst (λ z. Advances hash d z) same c)

  pub Moves-IsConsistent : (s t : State) → Moves s t → IsConsistent s → IsConsistent t
  Moves-IsConsistent s t m c = record {
    proven = λ j e at.
        let (d, was, a) = Carries-some (row j s) (row j t) e (m j) at in
        a.proven (c.proven j d was);
    one_running = λ i j d e at at' r r' p.
        let (d0, was, a) = Carries-some (row i s) (row i t) d (m i) at in
        let (e0, was', b) = Carries-some (row j s) (row j t) e (m j) at' in
        c.one_running i j d0 e0 was was' (a.runs r) (b.runs r')
          (sym a.same_project ∙ p ∙ b.same_project);
  }

  pub Moves-change :
      (i : ℕ) (f : Deployment → Deployment) (s : State)
      → ((x : Deployment) → (f x).id ≡ x.id)
      → ((d : Deployment) → row i s ≡ some d → Advances hash d (f d))
      → Moves s (change i f s)
  Moves-change i f s ids a j =
      subst (λ z. Carries (Advances hash) (row j s) z)
        (sym (find-update row_id i j f s.deployments ids))
        (elim (Bool-cases (i == j)) [
          | inr e ↦ rw e (Carries-refl (row j s))
          | inl e ↦
              let same : i ≡ j = ground arith in rw e (at_row (row j s) (λ d at. a d (rw same at)))
        ])
    where
      at_row :
          (o : Option Deployment)
          → ((d : Deployment) → o ≡ some d → Advances hash d (f d))
          → Carries (Advances hash) o (Option.map f o)
      at_row none g = tt
      at_row (some d) g = g d refl

  pub changed_self :
      (i : ℕ) (f : Deployment → Deployment) (s : State) (d : Deployment)
      → ((x : Deployment) → (f x).id ≡ x.id)
      → row i s ≡ some d
      → row i (change i f s) ≡ some (f d)
  changed_self i f s d ids at =
      let k = find-update row_id i i f s.deployments ids in
      let same : (i == i) ≡ true = ground arith in k ∙ rw (same, at) refl

  pub changed_other :
      (i : ℕ) (f : Deployment → Deployment) (s : State) (j : ℕ)
      → ((x : Deployment) → (f x).id ≡ x.id)
      → (i == j) ≡ false
      → row j (change i f s) ≡ row j s
  changed_other i f s j ids n = let k = find-update row_id i j f s.deployments ids in k ∙ rw n refl

  pub changed_row :
      (i : ℕ) (f : Deployment → Deployment) (s : State) (j : ℕ) (e : Deployment)
      → ((x : Deployment) → (f x).id ≡ x.id)
      → row j (change i f s) ≡ some e
      → ((i ≡ j) × (x : Deployment) × (row j s ≡ some x) × (e ≡ f x))
        ⊎ (((i == j) ≡ false) × (row j s ≡ some e))
  changed_row i f s j e ids at =
      let k : (if i == j then Option.map f (row j s) else row j s) ≡ some e =
        sym (find-update row_id i j f s.deployments ids) ∙ at in
      elim (Bool-cases (i == j)) [
        | inr n ↦ inr (n, rw n at k)
        | inl q ↦
            (let (x, was, e_is) = mapped (row j s) (rw q at k) in inl (ground arith, x, was, e_is))
      ]
    where
      mapped :
          (o : Option Deployment)
          → Option.map f o ≡ some e
          → (x : Deployment) × (o ≡ some x) × (e ≡ f x)
      mapped none h = cc
      mapped (some x) h = let k : some (f x) ≡ some e = h in (x, refl, cc)

  pub write_running-ok :
      (d : Deployment) (f : Deployment → Deployment) (s t : State)
      → write_running d f s ≡ ok t
      → (any (is_rival d.project_id d.id) s.deployments ≡ false)
        × (meets_checks (f d) ≡ true)
        × (t ≡ change d.id f s)
  unfolding write_running
  write_running-ok d f s t h =
      elim (Bool-cases
        (any (is_rival d.project_id d.id) s.deployments || not (meets_checks (f d)))) [
          | inl e ↦ let k : err integrity_error ≡ ok t = rw (e, write_running) at h in cc
          | inr e ↦
              let k : ok (change d.id f s) ≡ ok t = rw (e, write_running) at h in
              (ground arith, ground arith, cc)
        ]

  no_rival :
      (p i j : ℕ) (s : State) (e : Deployment)
      → any (is_rival p i) s.deployments ≡ false
      → (i == j) ≡ false
      → row j s ≡ some e
      → is_running e.status ≡ true
      → e.project_id ≢ p
  no_rival p i j s e none_rivals n at r q =
      let same : e.id ≡ j = key_of_find row_id j s.deployments at in
      let one : is_rival p i e ≡ true = ground arith in
      any-none s.deployments (mem_of_find row_id j s.deployments at) none_rivals one
    where
      any-none :
          (ds : List Deployment)
          → Memᴰ e ds
          → any (is_rival p i) ds ≡ false
          → is_rival p i e ≡ true
          → ⊥
      any-none [] m h k = elim m [ ]
      any-none (x ∷ ds) (Memᴰ.head q) h k =
          let k' : is_rival p i x ≡ true = subst (λ z. is_rival p i z ≡ true) q k in
          let h' : (is_rival p i x || any (is_rival p i) ds) ≡ false = h in ground arith
      any-none (x ∷ ds) (Memᴰ.tail m) h k = any-none ds m (ground arith) k

  pub write_running-IsConsistent :
      (d : Deployment) (f : Deployment → Deployment) (s t : State)
      → row d.id s ≡ some d
      → ((x : Deployment) → (f x).id ≡ x.id)
      → Activates hash d (f d)
      → write_running d f s ≡ ok t
      → IsConsistent s
      → IsConsistent t
  write_running-IsConsistent d f s t there ids a h c =
      let (none_rivals, complete, made) = write_running-ok d f s t h in
      rw made record {
        proven = λ j e at. elim (changed_row d.id f s j e ids at) [
          | inr (n, was) ↦ c.proven j e was
          | inl (q, x, was, made_of) ↦
              subst (λ z. IsProven hash z) (sym (is_f j e x q was made_of))
                (a.proven (c.proven d.id d there) complete)
        ];
        one_running = λ i j d1 d2 at1 at2 r1 r2 p. elim (changed_row d.id f s i d1 ids at1) [
          | inl (q, x, was, made_of) ↦ elim (changed_row d.id f s j d2 ids at2) [
            | inl (q', x', was', made_of') ↦ sym q ∙ q'
            | inr (n, was') ↦ absurd (
                no_rival d.project_id d.id j s d2 none_rivals n was' r2
                  (sym p ∙ of_project i d1 x q was made_of))
          ]
          | inr (n, was) ↦ elim (changed_row d.id f s j d2 ids at2) [
            | inl (q', x', was', made_of') ↦ absurd (
                no_rival d.project_id d.id i s d1 none_rivals n was r1
                  (p ∙ of_project j d2 x' q' was' made_of'))
            | inr (n', was') ↦ c.one_running i j d1 d2 was was' r1 r2 p
          ]
        ];
      }
    where
      is_f : (j : ℕ) (e x : Deployment) → d.id ≡ j → row j s ≡ some x → e ≡ f x → e ≡ f d
      is_f j e x q was made_of =
          let k : some x ≡ some d = sym was ∙ (subst (λ z. row z s ≡ some d) q there) in
          let same : x ≡ d = cc in made_of ∙ ap f same

      of_project :
          (j : ℕ) (e x : Deployment)
          → d.id ≡ j
          → row j s ≡ some x
          → e ≡ f x
          → e.project_id ≡ d.project_id
      of_project j e x q was made_of =
          ap (λ z. z.project_id) (is_f j e x q was made_of) ∙ a.same_project
