-- ===== src/Cleanup/Captured.antt =====
-- The targets that a capture of Cleanup/Capture leaves in the tables.
use mcplica.Common.{
  ℕ, suc, ◌≡◌, ◌⊎◌, refl, ap, ◌&&◌, ◌==◌, text_eq, All-append, Bool, true, Option, List, [], ◌∷◌,
  ◌++◌, arith, is_some, any, All, Text, text_eq_refl, ok, err, >>=-eq-ok, Bool-cases, inl, inr,
  Option-cases,
}
use mcplica.Common.Table.{find, update}
use mcplica.Cleanup.Target.{TargetType, object, vector_generation, CleanupTarget, target_id, key_of}
use mcplica.Cleanup.Job.{CleanupJob, job_id}
use mcplica.Cleanup.{
  State, integrity_error, NewJob, create_job, new_target, is_duplicate, one_target_more, add_target,
  add_each, finalize_empty_job,
}
use mcplica.Cleanup.Finality.{added_targets}
use mcplica.Cleanup.Capture.{capture}

any-append :
    (p : CleanupTarget → Bool) (ts us : List CleanupTarget)
    → any p ts ≡ true
    → any p (ts ++ us) ≡ true
any-append p [] us h = cc
any-append p (t ∷ ts) us h = ground (arith, any-append p ts us)

any-snoc :
    (p : CleanupTarget → Bool) (ts : List CleanupTarget) (t : CleanupTarget)
    → p t ≡ true
    → any p (ts ++ t ∷ []) ≡ true
any-snoc p [] t h = ground arith
any-snoc p (u ∷ ts) t h = ground (arith, any-snoc p ts t h)

-- A target that is in the job already, or a new row behind the others.
add_target-cases :
    (now i j : ℕ) (key : Text) (type : TargetType) (at : ℕ) (s : State) {s' : State}
    → add_target now i j key type at s ≡ ok s'
    → ((any (is_duplicate j key) s.targets ≡ true) × (s'.targets ≡ s.targets))
      ⊎ (s'.targets ≡ s.targets ++ new_target now i j key type at ∷ [])
unfolding add_target
add_target-cases now i j key type at s {s'} h =
    elim (Bool-cases (any (is_duplicate j key) s.targets)) [
      | inl e ↦
          let k : ok s ≡ ok s' = rw (e, add_target) at h in
          let same : s' ≡ s = cc in inl (e, ap (λ z. z.targets) same)
      | inr e ↦ elim (Option-cases (find target_id i s.targets)) [
        | inr (x, d) ↦ let k : err integrity_error ≡ ok s' = rw (e, add_target, d) at h in cc
        | inl d ↦ elim (Bool-cases (is_some (find job_id j s.jobs))) [
          | inr n ↦ let k : err integrity_error ≡ ok s' = rw (e, add_target, d, n) at h in cc
          | inl n ↦
              let s'' : State = record {
                jobs = update job_id j one_target_more s.jobs;
                targets = s.targets ++ new_target now i j key type at ∷ [];
              } in
              let k : ok s'' ≡ ok s' = rw (e, add_target, d, n) at h in
              let same : s' ≡ s'' = cc in inr (ap (λ z. z.targets) same)
        ]
      ]
    ]

add_target-keeps :
    (p : CleanupTarget → Bool) (now i j : ℕ) (key : Text) (type : TargetType) (at : ℕ) (s : State)
    {s' : State}
    → add_target now i j key type at s ≡ ok s'
    → any p s.targets ≡ true
    → any p s'.targets ≡ true
add_target-keeps p now i j key type at s h a =
    let (rows, e) = added_targets now i j key type at s h in rw e (any-append p s.targets rows a)

module _ (sha256 : Text → Text) (str : ℕ → Text) where
  -- A target stands under the digest of its own object or generation.
  abbrev pub HasOwnKey : CleanupTarget → Type 0
  HasOwnKey t = t.target_key ≡ key_of sha256 str t.target_type

  -- A target of the job, of an object or a generation with the digest of `type`.
  abbrev pub is_target_of : ℕ → TargetType → CleanupTarget → Bool
  is_target_of j type t =
      t.job_id == j && text_eq (key_of sha256 str t.target_type) (key_of sha256 str type)

  abbrev pub IsCaptured : ℕ → State → TargetType → Type 0
  IsCaptured j s type = any (is_target_of j type) s.targets ≡ true

  duplicate-captured :
      (j : ℕ) (type : TargetType) (ts : List CleanupTarget)
      → All HasOwnKey ts
      → any (is_duplicate j (key_of sha256 str type)) ts ≡ true
      → any (is_target_of j type) ts ≡ true
  duplicate-captured j type [] own h = h
  duplicate-captured j type (t ∷ ts) own h =
      elim (Bool-cases (is_duplicate j (key_of sha256 str type) t)) [
        | inl e ↦ let here : is_target_of j type t ≡ true = rw own.0 at e in rw here refl
        | inr e ↦ let rest = duplicate-captured j type ts own.1 (rw e at h) in ground (arith, rest)
      ]

  add_target-IsCaptured :
      (now i j : ℕ) (type : TargetType) (at : ℕ) (s : State) {s' : State}
      → add_target now i j (key_of sha256 str type) type at s ≡ ok s'
      → All HasOwnKey s.targets
      → All HasOwnKey s'.targets × IsCaptured j s' type
  add_target-IsCaptured now i j type at s {s'} h own =
      let key : Text = key_of sha256 str type in
      elim (add_target-cases now i j key type at s h) [
        | inl (e, same) ↦ rw same (own, duplicate-captured j type s.targets own e)
        | inr same ↦
            let t : CleanupTarget = new_target now i j key type at in
            rw same (
              All-append HasOwnKey s.targets (t ∷ []) own ((unfold new_target in refl), tt),
              any-snoc (is_target_of j type) s.targets t
                  (unfold new_target in ground (arith, text_eq_refl key)),
            )
      ]

  add_each-keeps :
      (p : CleanupTarget → Bool) (now wall : ℕ) (fresh : ℕ → ℕ) (n j : ℕ) (types : List TargetType)
      (s : State) {s' : State}
      → add_each sha256 str now wall fresh n j types s ≡ ok s'
      → any p s.targets ≡ true
      → any p s'.targets ≡ true
  add_each-keeps p now wall fresh n j [] s {s'} h a =
      let k : ok s ≡ ok s' = h in let same : s' ≡ s = cc in rw same a
  add_each-keeps p now wall fresh n j (object key ∷ types) s h a =
      let (s1, added, rest) =
        >>=-eq-ok (add_target now (fresh n) j (key_of sha256 str (object key)) (object key) wall s)
          _ h in
      add_each-keeps p now wall fresh (suc n) j types s1 rest (
        add_target-keeps p now (fresh n) j (key_of sha256 str (object key)) (object key) wall s
          added a)
  add_each-keeps p now wall fresh n j (vector_generation collection project id ∷ types) s h a =
      let type : TargetType = vector_generation collection project id in
      let (s1, added, rest) =
        >>=-eq-ok (add_target now (fresh n) j (key_of sha256 str type) type wall s) _ h in
      add_each-keeps p now wall fresh (suc n) j types s1 rest
        (add_target-keeps p now (fresh n) j (key_of sha256 str type) type wall s added a)

  add_each-IsCaptured :
      (now wall : ℕ) (fresh : ℕ → ℕ) (n j : ℕ) (types : List TargetType) (s : State) {s' : State}
      → add_each sha256 str now wall fresh n j types s ≡ ok s'
      → All HasOwnKey s.targets
      → All HasOwnKey s'.targets × All (IsCaptured j s') types
  add_each-IsCaptured now wall fresh n j [] s {s'} h own =
      let k : ok s ≡ ok s' = h in let same : s' ≡ s = cc in (rw same own, tt)
  add_each-IsCaptured now wall fresh n j (object key ∷ types) s h own =
      let type : TargetType = object key in
      let (s1, added, rest) =
        >>=-eq-ok (add_target now (fresh n) j (key_of sha256 str type) type wall s) _ h in
      let (own1, one) = add_target-IsCaptured now (fresh n) j type wall s added own in
      let (own', all) = add_each-IsCaptured now wall fresh (suc n) j types s1 rest own1 in
      (own', (add_each-keeps (is_target_of j type) now wall fresh (suc n) j types s1 rest one, all))
  add_each-IsCaptured now wall fresh n j (vector_generation collection project id ∷ types) s h own =
      let type : TargetType = vector_generation collection project id in
      let (s1, added, rest) =
        >>=-eq-ok (add_target now (fresh n) j (key_of sha256 str type) type wall s) _ h in
      let (own1, one) = add_target-IsCaptured now (fresh n) j type wall s added own in
      let (own', all) = add_each-IsCaptured now wall fresh (suc n) j types s1 rest own1 in
      (own', (add_each-keeps (is_target_of j type) now wall fresh (suc n) j types s1 rest one, all))

  create_job-targets :
      (c : NewJob) (s : State) {j : CleanupJob} {s1 : State}
      → create_job c s ≡ ok (j, s1)
      → s1.targets ≡ s.targets
  unfolding create_job
  create_job-targets c s {j} {s1} h = ground arith

  -- A capture that returns leaves nothing out, where every target stands under the digest of its own
  -- object or generation: for each object and generation that it was given, the job has a target whose
  -- own object or generation has the same digest, of this capture or of an earlier one under the same
  -- idempotency key; and every target still stands under its own digest.
  pub capture_complete :
      (now wall : ℕ) (fresh : ℕ → ℕ) (c : NewJob) (types : List TargetType) (s : State)
      {found : Option CleanupJob} {s' : State}
      → capture sha256 str now wall fresh c types s ≡ ok (found, s')
      → All HasOwnKey s.targets
      → (j : CleanupJob) × (s1 : State) × (create_job c s ≡ ok (j, s1))
        × All (IsCaptured j.id s') types
        × All HasOwnKey s'.targets
  unfolding capture finalize_empty_job
  capture_complete now wall fresh c types s {found} {s'} h own =
      let ((j, s1), made, h1) = >>=-eq-ok (create_job c s) _ h in
      let (s2, added, h2) = >>=-eq-ok (add_each sha256 str now wall fresh 0 j.id types s1) _ h1 in
      let k : ok (
        find job_id j.id (finalize_empty_job wall j.id s2).jobs,
        finalize_empty_job wall j.id s2,
      )
          ≡ ok (found, s') =
        h2 in
      let same : s' ≡ finalize_empty_job wall j.id s2 = cc in
      let own1 : All HasOwnKey s1.targets = rw (create_job-targets c s made) own in
      let (own', all) = add_each-IsCaptured now wall fresh 0 j.id types s1 added own1 in
      (j, s1, made, rw same all, rw same own')
