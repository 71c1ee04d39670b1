-- ===== src/AuthSelection/Scopes.antt =====
-- The scopes of a selected plan.
use mcplica.Common.{
  ◌≡◌, refl, true, false, some, List, [], ◌∷◌, arith, inl, inr, Text, mem_text, All, All-sort,
  Bool-cases,
}
use mcplica.AuthSelection.{
  AuthSchemeSpec, CredentialCandidate, AuthSelectionPlan, AuthAlternativeRejection, get,
  credential_is_compatible, plan_for, select_auth_alternative, is_subset, distinct, or_default,
  default_scopes, text_leq,
}
use mcplica.AuthSelection.Choice.{select_auth_alternative_sound}

distinct-All : (P : Text → Type 0) (ts : List Text) → All P ts → All P (distinct ts)
distinct-All P [] h = tt
distinct-All P (t ∷ ts) h = elim (Bool-cases (mem_text t (distinct ts))) [
  | inl e ↦ rw e (distinct-All P ts h.1)
  | inr e ↦ rw e (h.0, distinct-All P ts h.1)
]

is_subset-All : (ts of : List Text) → is_subset ts of ≡ true → All (λ t. mem_text t of ≡ true) ts
is_subset-All [] of h = tt
is_subset-All (t ∷ ts) of h = (ground arith, is_subset-All ts of (ground arith))

or_default-All :
    (P : Text → Type 0) (ts us : List Text) → All P ts → All P us → All P (or_default ts us)
or_default-All P [] us ht hu = hu
or_default-All P (t ∷ ts) us ht hu = ht

compatible_scopes :
    (casefold : Text → Text) (c : CredentialCandidate) (scheme : AuthSchemeSpec)
    (required : List Text)
    → credential_is_compatible casefold c scheme required ≡ true
    → scheme.oauth ≡ true
    → (is_subset required (scheme.advertised_scopes) ≡ true)
      × (is_subset (default_scopes (c.metadata)) (scheme.advertised_scopes) ≡ true)
unfolding credential_is_compatible
compatible_scopes casefold c scheme required h o = (ground arith, ground arith)

plan_for-scopes :
    (casefold : Text → Text) (name : Text) (scheme : AuthSchemeSpec) (required : List Text)
    (c : CredentialCandidate)
    → credential_is_compatible casefold c scheme required ≡ true
    → All
        (λ t. mem_text t (scheme.advertised_scopes) ≡ true)
        ((plan_for casefold name scheme required c).scopes)
plan_for-scopes casefold name scheme required c fits = elim (Bool-cases (scheme.oauth)) [
  | inr e ↦ rw e tt
  | inl e ↦
      let (asked, by_default) = compatible_scopes casefold c scheme required fits e in
      let scopes = or_default required (default_scopes (c.metadata)) in
      let Granted : Text → Type 0 = λ t. mem_text t (scheme.advertised_scopes) ≡ true in
      rw e (
        All-sort text_leq Granted (distinct scopes) (
          distinct-All Granted scopes (
            or_default-All Granted required (default_scopes (c.metadata))
              (is_subset-All required (scheme.advertised_scopes) asked)
              (is_subset-All (default_scopes (c.metadata)) (scheme.advertised_scopes) by_default))))
]

-- A plan asks only for scopes that its scheme advertises, and for none where the scheme is not OAuth.
pub selected_scopes_advertised :
    (casefold : Text → Text) (schemes : List (Text × AuthSchemeSpec))
    (credentials : List CredentialCandidate) (alternatives : List (List (Text × List Text)))
    (plan : AuthSelectionPlan) (rejections : List AuthAlternativeRejection)
    → select_auth_alternative casefold alternatives schemes credentials ≡ (some plan, rejections)
    → (scheme : AuthSchemeSpec) × (get (plan.scheme_name) schemes ≡ some scheme)
      × All (λ t. mem_text t (scheme.advertised_scopes) ≡ true) (plan.scopes)
      × (scheme.oauth ≡ false → plan.scopes ≡ [])
selected_scopes_advertised casefold schemes credentials alternatives plan rejections h =
    let (before, chosen, after, split, count, rejected, is_chosen) =
      select_auth_alternative_sound casefold schemes credentials alternatives plan rejections h in
    let (name, required, scheme, c, at, known, (m, fits, unique), is) = is_chosen in
    (
      scheme,
      rw is known,
      rw is (plan_for-scopes casefold name scheme required c fits),
      λ o. rw (is, o) refl,
    )
