-- ===== src/AuthSelection/Examples.antt =====
-- Two bearer credentials, one of them bound to the scheme by name. The identity stands for `casefold`.
use mcplica.Common.{
  ◌≡◌, ◌↔◌, refl, true, false, none, some, List, [], ◌∷◌, ◌++◌, Text, codes, mem_text, All, is_ok,
  length, is_space, strip, lstrip, rstrip,
}
use mcplica.AuthSelection.{
  CredentialScheme, string, AuthSchemeSpec, CredentialCandidate, AuthSelectionPlan,
  client_secret_basic, get, explicit_scheme_name, credential_is_compatible, judge,
  select_auth_alternative,
}
use mcplica.AuthSelection.Choice.{IsChosen, select_auth_alternative_sound}
use mcplica.AuthSelection.Scopes.{selected_scopes_advertised}
use mcplica.AuthSelection.Readiness.{
  SourceConfigurationDiscoveryRecord, CredentialRecord, IsServed, credential_mapping_readiness,
  readiness_complete_iff,
}

abbrev same : Text → Text
same t = t

abbrev schemes : List (Text × AuthSchemeSpec)
schemes =
    (
      codes "main",
      record {
        name = codes "main";
        expected_credential_scheme = some CredentialScheme.bearer;
        parameter_name = none;
        advertised_scopes = [];
        oauth = false;
      },
    )
    ∷ []

abbrev credentials : List CredentialCandidate
credentials =
    record { id = 1; scheme_type = CredentialScheme.bearer; metadata = [] }
    ∷ record {
      id = 2;
      scheme_type = CredentialScheme.bearer;
      metadata = (codes "security_scheme", string (codes "main")) ∷ [];
    }
    ∷ []

abbrev alternatives : List (List (Text × List Text))
alternatives = [] ∷ ((codes "main", []) ∷ []) ∷ []

abbrev plan : AuthSelectionPlan
plan = record {
  scheme_name = codes "main";
  credential_id = 2;
  scopes = [];
  token_auth_method = client_secret_basic;
}

selected :
    select_auth_alternative same alternatives schemes credentials
    ≡ (some plan, (select_auth_alternative same alternatives schemes credentials).1)
unfolding select_auth_alternative judge credential_is_compatible explicit_scheme_name is_space strip
    lstrip rstrip
selected = refl

select_auth_alternative_sound_example :
    let rejections = (select_auth_alternative same alternatives schemes credentials).1 in
    (before : List (List (Text × List Text))) × (chosen : List (Text × List Text)) × (after : List
      (List (Text × List Text)))
    × (alternatives ≡ before ++ chosen ∷ after)
    × (length before ≡ length rejections)
    × All (λ a. is_ok (judge same schemes credentials a) ≡ false) before
    × IsChosen same schemes credentials chosen plan
select_auth_alternative_sound_example =
    select_auth_alternative_sound same schemes credentials alternatives plan _ selected

selected_scopes_advertised_example :
    (scheme : AuthSchemeSpec) × (get (codes "main") schemes ≡ some scheme)
    × All (λ t. mem_text t (scheme.advertised_scopes) ≡ true) (plan.scopes)
    × (scheme.oauth ≡ false → plan.scopes ≡ [])
selected_scopes_advertised_example =
    selected_scopes_advertised same schemes credentials alternatives plan _ selected

abbrev discovery : SourceConfigurationDiscoveryRecord
discovery = record {
  security_schemes =
      record {
        name = codes "main";
        type = codes "http_bearer";
        location = none;
        parameter_name = none;
        advertised_scopes = [];
      }
      ∷ [];
  security_requirements =
      record { operation_key = codes "get"; alternatives = alternatives; anonymous_allowed = false }
      ∷ [];
}

abbrev revoked : CredentialRecord
revoked = record {
  id = 1;
  scheme_type = CredentialScheme.bearer;
  metadata = [];
  revoked_at = some 9;
}

readiness_complete_iff_example :
    ((credential_mapping_readiness same discovery (revoked ∷ [])).complete ≡ true)
    ↔ All (IsServed same discovery (revoked ∷ [])) (discovery.security_requirements)
readiness_complete_iff_example = readiness_complete_iff same discovery (revoked ∷ [])
