-- ===== src/AuthSelection/Choice.antt =====
-- What a selected credential satisfies.
use mcplica.Common.{
  suc, ◌≡◌, refl, ap, ◌∙◌, is_ok, Bool, true, false, Option, some, List, [], ◌∷◌, ◌++◌, ◌⊎◌, inl,
  inr, Text, filter, ok, err, All, Memᴰ, mem-filter, All-of_mem, All-mem, All-filter_passed, length,
  Bool-cases, Result-cases, Option-cases,
}
use mcplica.AuthSelection.{
  AuthSchemeSpec, CredentialCandidate, AuthSelectionPlan, AuthAlternativeRejection, get,
  credential_is_compatible, is_bound, eligible, prefer_bound, only, judge, plan_for,
  select_auth_alternative, rejection, undefined,
}

mem_one : {A : Type 0} {x y : A} (xs : List A) → xs ≡ y ∷ [] → Memᴰ x xs → x ≡ y
mem_one {x} {y} xs h m = only_member (rw h at m)
  where
    only_member : Memᴰ x (y ∷ []) → x ≡ y
    only_member (Memᴰ.head e) = e
    only_member (Memᴰ.tail n) = elim n [ ]

mem-filter_back :
    {A : Type 0} {x : A} (p : A → Bool) (xs : List A)
    → Memᴰ x (filter p xs)
    → Memᴰ x xs × (p x ≡ true)
mem-filter_back {x} p xs m =
    All-mem (λ y. Memᴰ y xs × (p y ≡ true)) (filter p xs)
      (All-filter_passed (λ y. Memᴰ y xs) p xs (All-of_mem (λ y. Memᴰ y xs) xs (λ y n. n))) m

prefer_one :
    (fits named : CredentialCandidate → Bool) (xs bound : List CredentialCandidate)
    (c : CredentialCandidate)
    → filter named (filter fits xs) ≡ bound
    → prefer_bound bound (filter fits xs) ≡ c ∷ []
    → Memᴰ c xs
      × (fits c ≡ true)
      × ((d : CredentialCandidate)
          → Memᴰ d xs
          → fits d ≡ true
          → (d ≡ c) ⊎ ((named c ≡ true) × (named d ≡ false)))
prefer_one fits named xs [] c eb one =
    let here : Memᴰ c (filter fits xs) = rw one (Memᴰ.head refl) in
    let (m, f) = mem-filter_back fits xs here in
    (m, f, λ d md fd. inl (mem_one (filter fits xs) one (mem-filter fits xs md fd)))
prefer_one fits named xs (b ∷ bs) c eb h =
    let one : filter named (filter fits xs) ≡ c ∷ [] = eb ∙ h in
    let here : Memᴰ c (filter named (filter fits xs)) = rw one (Memᴰ.head refl) in
    let (among, is_named) = mem-filter_back named (filter fits xs) here in
    let (m, f) = mem-filter_back fits xs among in
    (
      m,
      f,
      λ d md fd. elim (Bool-cases (named d)) [
        | inl e ↦
            inl (mem_one _ one (mem-filter named (filter fits xs) (mem-filter fits xs md fd) e))
        | inr e ↦ inr (is_named, e)
      ],
    )

module _ (casefold : Text → Text) where
  -- The credential is compatible, and any other compatible one is not bound to the scheme by name
  -- while this one is.
  abbrev pub IsTheOnly :
      Text → AuthSchemeSpec → List Text → List CredentialCandidate → CredentialCandidate → Type 0
  IsTheOnly name scheme required credentials c =
      Memᴰ c credentials
      × (credential_is_compatible casefold c scheme required ≡ true)
      × ((d : CredentialCandidate)
          → Memᴰ d credentials
          → credential_is_compatible casefold d scheme required ≡ true
          → (d ≡ c) ⊎ ((is_bound casefold name c ≡ true) × (is_bound casefold name d ≡ false)))

  eligible_one :
      (name : Text) (scheme : AuthSchemeSpec) (required : List Text)
      (credentials : List CredentialCandidate) (c : CredentialCandidate)
      → eligible casefold name scheme required credentials ≡ c ∷ []
      → IsTheOnly name scheme required credentials c
  eligible_one name scheme required credentials c h =
      prefer_one (λ d. credential_is_compatible casefold d scheme required) (is_bound casefold name)
        credentials _ c refl h

  only_ok :
      (name : Text) (scheme : AuthSchemeSpec) (required : List Text)
      (found : List CredentialCandidate) (plan : AuthSelectionPlan)
      → only casefold name scheme required found ≡ ok plan
      → (c : CredentialCandidate) × (found ≡ c ∷ [])
        × (plan ≡ plan_for casefold name scheme required c)
  only_ok name scheme required [] plan h = cc
  only_ok name scheme required (c ∷ []) plan h = (c, refl, cc)
  only_ok name scheme required (c ∷ d ∷ ds) plan h = cc

  -- An alternative with one scheme, which is known, and the credential that the plan uses.
  abbrev pub IsChosen :
      List (Text × AuthSchemeSpec)
      → List CredentialCandidate
      → List (Text × List Text)
      → AuthSelectionPlan
      → Type 0
  IsChosen schemes credentials alternative plan =
      (name : Text) × (required : List Text) × (scheme : AuthSchemeSpec) × (c : CredentialCandidate)
      × (alternative ≡ (name, required) ∷ [])
      × (get name schemes ≡ some scheme)
      × IsTheOnly name scheme required credentials c
      × (plan ≡ plan_for casefold name scheme required c)

  judge_sound :
      (schemes : List (Text × AuthSchemeSpec)) (credentials : List CredentialCandidate)
      (alternative : List (Text × List Text)) (plan : AuthSelectionPlan)
      → judge casefold schemes credentials alternative ≡ ok plan
      → IsChosen schemes credentials alternative plan
  unfolding judge
  judge_sound schemes credentials [] plan h = cc
  judge_sound schemes credentials (a ∷ b ∷ rest) plan h = cc
  judge_sound schemes credentials ((name, required) ∷ []) plan h =
      elim (Option-cases (get name schemes)) [
        | inl none_known ↦
            let k : err (rejection undefined (some name) []) ≡ ok plan =
              rw (none_known, judge) at h in
            cc
        | inr (scheme, known) ↦
            let k : only casefold name scheme required
                  (eligible casefold name scheme required credentials)
                ≡ ok plan =
              rw (known, judge) at h in
            let (c, one, is) = only_ok name scheme required _ plan k in
            (
              name,
              required,
              scheme,
              c,
              refl,
              known,
              eligible_one name scheme required credentials c one,
              is,
            )
      ]

  -- A plan is for the first alternative that is not rejected: there is one rejection for each
  -- alternative before it, and it stands for one known scheme with one compatible credential, the
  -- only one, or the only one bound to the scheme by name.
  pub select_auth_alternative_sound :
      (schemes : List (Text × AuthSchemeSpec)) (credentials : List CredentialCandidate)
      (alternatives : List (List (Text × List Text))) (plan : AuthSelectionPlan)
      (rejections : List AuthAlternativeRejection)
      → select_auth_alternative casefold alternatives schemes credentials ≡ (some plan, rejections)
      → (before : List (List (Text × List Text))) × (chosen : List (Text × List Text))
        × (after : List (List (Text × List Text))) × (alternatives ≡ before ++ chosen ∷ after)
        × (length before ≡ length rejections)
        × All (λ a. is_ok (judge casefold schemes credentials a) ≡ false) before
        × IsChosen schemes credentials chosen plan
  unfolding select_auth_alternative
  select_auth_alternative_sound schemes credentials [] plan rejections h = cc
  select_auth_alternative_sound schemes credentials (a ∷ alternatives) plan rejections h =
      elim (Result-cases (judge casefold schemes credentials a)) [
        | inl (p, e) ↦
            let k : (some p, []) ≡ (some plan, rejections) = rw (e, select_auth_alternative) at h in
            let same : p ≡ plan = cc in
            let none_rejected : [] ≡ rejections = cc in
            (
              [],
              a,
              alternatives,
              refl,
              ap (λ (t : List AuthAlternativeRejection). length t) none_rejected,
              tt,
              judge_sound schemes credentials a plan (rw same at e),
            )
        | inr (r, e) ↦
            let rest = select_auth_alternative casefold alternatives schemes credentials in
            let k : (rest.0, r ∷ rest.1) ≡ (some plan, rejections) =
              rw (e, select_auth_alternative) at h in
            let found : rest ≡ (some plan, rest.1) =
              ap (λ (o : Option AuthSelectionPlan × List AuthAlternativeRejection). (o.0, rest.1))
                k in
            let (before, chosen, after, split, count, rejected, is) =
              select_auth_alternative_sound schemes credentials alternatives plan (rest.1) found in
            (
              a ∷ before,
              chosen,
              after,
              ap (λ (t : List (List (Text × List Text))). a ∷ t) split,
              ap (λ n. suc n) count
                  ∙ ap
                      (λ (o : Option AuthSelectionPlan × List AuthAlternativeRejection).
                        length (o.1))
                      k,
              (rw e refl, rejected),
              is,
            )
      ]
