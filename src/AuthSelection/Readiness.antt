-- ===== src/AuthSelection/Readiness.antt =====
-- Readiness of the credential mapping: backend/app/services/builds/readiness.py, and the records of
-- backend/app/domain/sources.py and backend/app/domain/credentials.py that it reads.
use mcplica.Common.{
  ◌≡◌, refl, Bool, true, false, not, ◌↔◌, Option, none, some, List, [], ◌∷◌, map, ◌⊎◌, inl, inr, ℕ,
  Text, text_eq, is_empty, strip, codes, filter, first, if◌then◌else◌, Result, ok, err, is_some,
  All, Bool-cases, Option-cases, sort,
}
use mcplica.AuthSelection.{
  CredentialScheme, string, other, Metadata, AuthSchemeSpec, CredentialCandidate, AuthSelectionPlan,
  get, credential_is_compatible, select_auth_alternative, sorted_set, text_leq,
}

-- The fields that are read, as Python's `str` where they are.
pub record SecuritySchemeDiscoveryRecord : Type 0 where
  pub name : Text
  pub type : Text
  pub location : Option Text
  pub parameter_name : Option Text
  pub advertised_scopes : List Text

pub record OperationSecurityRequirementRecord : Type 0 where
  pub operation_key : Text
  pub alternatives : List (List (Text × List Text))
  pub anonymous_allowed : Bool

pub record SourceConfigurationDiscoveryRecord : Type 0 where
  pub security_schemes : List SecuritySchemeDiscoveryRecord
  pub security_requirements : List OperationSecurityRequirementRecord

pub record CredentialRecord : Type 0 where
  pub id : ℕ
  pub scheme_type : CredentialScheme
  pub metadata : Metadata
  pub revoked_at : Option ℕ

pub record CredentialMappingReadiness : Type 0 where
  pub required : Bool
  pub complete : Bool
  pub bound_scheme_names : List Text
  pub unresolved_operation_keys : List Text

pub data BindingError : Type 0 where
  unbound undiscovered incompatible : BindingError

abbrev pub at_location : Option Text → Option CredentialScheme
at_location none = none
at_location (some l) =
    if text_eq l (codes "header")
    then some CredentialScheme.api_key_header
    else if text_eq l (codes "query")
    then some CredentialScheme.api_key_query
    else none

abbrev pub expected_scheme : SecuritySchemeDiscoveryRecord → Option CredentialScheme
expected_scheme s =
    if text_eq (s.type) (codes "http_bearer")
    then some CredentialScheme.bearer
    else if text_eq (s.type) (codes "http_basic")
    then some CredentialScheme.basic
    else if text_eq (s.type) (codes "oauth2_client_credentials")
    then some CredentialScheme.oauth2_client_credentials
    else if text_eq (s.type) (codes "static_headers")
    then some CredentialScheme.static_headers
    else if text_eq (s.type) (codes "api_key")
    then at_location (s.location)
    else none

pub scheme_spec : SecuritySchemeDiscoveryRecord → AuthSchemeSpec
scheme_spec s = record {
  name = s.name;
  expected_credential_scheme = expected_scheme s;
  parameter_name = if text_eq (s.type) (codes "api_key") then s.parameter_name else none;
  advertised_scopes = s.advertised_scopes;
  oauth = text_eq (s.type) (codes "oauth2_client_credentials");
}

abbrev pub candidate : CredentialRecord → CredentialCandidate
candidate c = record { id = c.id; scheme_type = c.scheme_type; metadata = c.metadata }

abbrev pub is_active : CredentialRecord → Bool
is_active c = not (is_some (c.revoked_at))

module _ (casefold : Text → Text) where
  pub bind_named :
      SourceConfigurationDiscoveryRecord
      → CredentialScheme
      → Metadata
      → Text
      → Result BindingError (Unit {0})
  bind_named discovery scheme_type metadata name =
      elim (first (λ s. text_eq (s.name) name) (discovery.security_schemes)) [
        | none ↦ err undiscovered
        | some s ↦
            if credential_is_compatible casefold
              (record { id = 0; scheme_type = scheme_type; metadata = metadata }) (scheme_spec s) []
            then ok tt
            else err incompatible
      ]

  pub validate_credential_binding :
      SourceConfigurationDiscoveryRecord
      → CredentialScheme
      → Metadata
      → Result BindingError (Unit {0})
  validate_credential_binding discovery scheme_type metadata =
      elim (get (codes "security_scheme") metadata) [
        | some (string t) ↦
            if is_empty (strip t)
            then err unbound
            else bind_named discovery scheme_type metadata (strip t)
        | some other ↦ err unbound
        | none ↦ err unbound
      ]

  -- The selection for one operation.
  abbrev pub selection :
      SourceConfigurationDiscoveryRecord
      → List CredentialRecord
      → OperationSecurityRequirementRecord
      → Option AuthSelectionPlan
  selection discovery credentials o =
      (select_auth_alternative casefold (o.alternatives)
        (map (λ s. (s.name, scheme_spec s)) (discovery.security_schemes))
        (map candidate (filter is_active credentials))).0

  -- The loop, as the state of its three variables.
  abbrev pub Found : Type 0
  Found = Bool × List Text × List Text

  abbrev pub add_selection : Text → Option AuthSelectionPlan → Found → Found
  add_selection key none (required, bound, unresolved) = (true, bound, key ∷ unresolved)
  add_selection key (some plan) (required, bound, unresolved) =
      (true, plan.scheme_name ∷ bound, unresolved)

  abbrev pub evaluate :
      SourceConfigurationDiscoveryRecord
      → List CredentialRecord
      → List OperationSecurityRequirementRecord
      → Found
  evaluate discovery credentials [] = (false, [], [])
  evaluate discovery credentials (o ∷ os) =
      let rest = evaluate discovery credentials os in
      if o.anonymous_allowed
      then rest
      else add_selection (o.operation_key) (selection discovery credentials o) rest

  abbrev pub is_empty_list : List Text → Bool
  is_empty_list [] = true
  is_empty_list (t ∷ ts) = false

  pub credential_mapping_readiness :
      SourceConfigurationDiscoveryRecord → List CredentialRecord → CredentialMappingReadiness
  credential_mapping_readiness discovery credentials =
      let (required, bound, unresolved) =
        evaluate discovery credentials (discovery.security_requirements) in
      record {
        required = required;
        complete = is_empty_list unresolved;
        bound_scheme_names = sorted_set bound;
        unresolved_operation_keys = sort text_leq unresolved;
      }

  -- Anonymous, or with a credential.
  abbrev pub IsServed :
      SourceConfigurationDiscoveryRecord
      → List CredentialRecord
      → OperationSecurityRequirementRecord
      → Type 0
  IsServed discovery credentials o =
      (o.anonymous_allowed ≡ true)
      ⊎ ((plan : AuthSelectionPlan) × (selection discovery credentials o ≡ some plan))

  unserved_lem :
      (discovery : SourceConfigurationDiscoveryRecord) (credentials : List CredentialRecord)
      (o : OperationSecurityRequirementRecord)
      → o.anonymous_allowed ≡ false
      → selection discovery credentials o ≡ none
      → ¬ IsServed discovery credentials o
  unserved_lem discovery credentials o e n (inl h) = cc
  unserved_lem discovery credentials o e n (inr (plan, h)) = cc

  evaluate-IsServed :
      (discovery : SourceConfigurationDiscoveryRecord) (credentials : List CredentialRecord)
      (os : List OperationSecurityRequirementRecord)
      → ((evaluate discovery credentials os).2 ≡ []) ↔ All (IsServed discovery credentials) os
  evaluate-IsServed discovery credentials [] = (λ h. tt, λ h. refl)
  evaluate-IsServed discovery credentials (o ∷ os) =
      let rest = evaluate-IsServed discovery credentials os in
      elim (Bool-cases (o.anonymous_allowed)) [
        | inl e ↦ (λ h. (inl e, rest.0 (rw e at h)), λ h. rw e (rest.1 h.1))
        | inr e ↦ elim (Option-cases (selection discovery credentials o)) [
          | inl unserved ↦ (
            λ h.
                let k : o.operation_key ∷ (evaluate discovery credentials os).2 ≡ [] =
                  rw (e, unserved) at h in
                cc,
            λ h. absurd (unserved_lem discovery credentials o e unserved h.0),
          )
          | inr (plan, served) ↦ (
            λ h. (inr (plan, served), rest.0 (rw (e, served) at h)),
            λ h. rw (e, served) (rest.1 h.1),
          )
        ]
      ]

  is_empty_list_iff : (ts : List Text) → (is_empty_list ts ≡ true) ↔ (ts ≡ [])
  is_empty_list_iff [] = (λ h. refl, λ h. refl)
  is_empty_list_iff (t ∷ ts) = (λ h. cc, λ h. cc)

  -- The mapping is complete exactly if every operation is anonymous or has a selected credential.
  pub readiness_complete_iff :
      (discovery : SourceConfigurationDiscoveryRecord) (credentials : List CredentialRecord)
      → ((credential_mapping_readiness discovery credentials).complete ≡ true)
        ↔ All (IsServed discovery credentials) (discovery.security_requirements)
  unfolding credential_mapping_readiness
  readiness_complete_iff discovery credentials =
      let a =
        is_empty_list_iff ((evaluate discovery credentials (discovery.security_requirements)).2) in
      let b = evaluate-IsServed discovery credentials (discovery.security_requirements) in
      (λ h. b.0 (a.0 h), λ h. a.1 (b.1 h))
