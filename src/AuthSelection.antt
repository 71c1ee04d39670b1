-- ===== src/AuthSelection.antt =====
-- The choice of a credential for an operation: backend/app/services/builds/auth_selection.py.
-- `str.casefold` is the parameter `casefold`. A metadata value is a string or something else; a dict
-- is its items, where the last one with a key counts.
pub mod Choice
pub mod Scopes
pub mod Readiness
mod Examples
use mcplica.Common.{
  ℕ, ◌≡◌, Bool, true, false, not, ◌&&◌, ◌||◌, Option, none, some, List, [], ◌∷◌, map, ◌==◌,
  if◌then◌else◌, leb, ltb, Text, text_eq, mem_text, is_empty, codes, all, filter, Result, ok, err,
  sort, is_space, strip,
}

pub data CredentialScheme : Type 0 where
  bearer api_key_header api_key_query basic oauth2_client_credentials static_headers :
      CredentialScheme

-- `is` on two members.
abbrev pub is_same_scheme : CredentialScheme → CredentialScheme → Bool
is_same_scheme bearer bearer = true
is_same_scheme api_key_header api_key_header = true
is_same_scheme api_key_query api_key_query = true
is_same_scheme basic basic = true
is_same_scheme oauth2_client_credentials oauth2_client_credentials = true
is_same_scheme static_headers static_headers = true
is_same_scheme _ _ = false

pub data MetadataValue : Type 0 where
  string : Text → MetadataValue
  other : MetadataValue

abbrev pub Metadata : Type 0
Metadata = List (Text × MetadataValue)

abbrev pub get {ℓ} : {A : Type ℓ} → Text → List (Text × A) → Option A
get key [] = none
get key ((k, v) ∷ rest) = elim (get key rest) [
  | some w ↦ some w
  | none ↦ elim (text_eq k key) [ true ↦ some v | false ↦ none ]
]

pub record AuthSchemeSpec : Type 0 where
  name : Text
  expected_credential_scheme : Option CredentialScheme
  parameter_name : Option Text
  advertised_scopes : List Text
  oauth : Bool

pub record CredentialCandidate : Type 0 where
  id : ℕ
  scheme_type : CredentialScheme
  metadata : Metadata

pub data TokenAuthMethod : Type 0 where
  client_secret_basic client_secret_post : TokenAuthMethod

pub record AuthSelectionPlan : Type 0 where
  scheme_name : Text
  credential_id : ℕ
  scopes : List Text
  token_auth_method : TokenAuthMethod

pub data RejectionReason : Type 0 where
  combined_requirement_unsupported undefined missing ambiguous : RejectionReason

pub record AuthAlternativeRejection : Type 0 where
  reason : RejectionReason
  security_scheme : Option Text
  compatible_credential_ids : List ℕ

-- `text.split()`
pub starts_word : Text → Bool
starts_word [] = false
starts_word (c ∷ cs) = not (is_space c)

abbrev pub onto_word : ℕ → List Text → List Text
onto_word c [] = (c ∷ []) ∷ []
onto_word c (w ∷ ws) = (c ∷ w) ∷ ws

abbrev pub words : Text → List Text
words [] = []
words (c ∷ cs) =
    let rest = words cs in
    if is_space c then rest else if starts_word cs then onto_word c rest else (c ∷ []) ∷ rest

abbrev pub text_leq : Text → Text → Bool
text_leq [] t = true
text_leq (c ∷ cs) [] = false
text_leq (c ∷ cs) (d ∷ ds) = ltb c d || (c == d && text_leq cs ds)

-- `sorted(set(texts))`
abbrev pub distinct : List Text → List Text
distinct [] = []
distinct (t ∷ ts) = let rest = distinct ts in if mem_text t rest then rest else t ∷ rest

abbrev pub sorted_set : List Text → List Text
sorted_set ts = sort text_leq (distinct ts)

abbrev pub is_subset : List Text → List Text → Bool
is_subset ts of = all (λ t. mem_text t of) ts

abbrev pub default_scopes : Metadata → List Text
default_scopes metadata = elim (get (codes "scope") metadata) [
  | some (string t) ↦ words t
  | some other ↦ []
  | none ↦ []
]

-- `required_scopes or default_scopes`
abbrev pub or_default : List Text → List Text → List Text
or_default [] scopes = scopes
or_default (t ∷ ts) scopes = t ∷ ts

abbrev pub method_is_supported : Option MetadataValue → Bool
method_is_supported none = true
method_is_supported (some (string t)) =
    text_eq t (codes "client_secret_basic") || text_eq t (codes "client_secret_post")
method_is_supported (some other) = false

abbrev pub method_of : Option MetadataValue → TokenAuthMethod
method_of none = client_secret_basic
method_of (some (string t)) =
    if text_eq t (codes "client_secret_post") then client_secret_post else client_secret_basic
method_of (some other) = client_secret_basic

abbrev pub scheme_matches : Option CredentialScheme → CredentialScheme → Bool
scheme_matches none s = false
scheme_matches (some e) s = is_same_scheme s e

abbrev pub ids : List CredentialCandidate → List ℕ
ids candidates = sort leb (map (λ c. c.id) candidates)

-- An alternative that is not chosen.
abbrev pub rejection : RejectionReason → Option Text → List ℕ → AuthAlternativeRejection
rejection reason name found = record {
  reason = reason;
  security_scheme = name;
  compatible_credential_ids = found;
}

-- `explicitly_bound` if there are any, else all candidates.
abbrev pub prefer_bound :
    List CredentialCandidate → List CredentialCandidate → List CredentialCandidate
prefer_bound [] candidates = candidates
prefer_bound (c ∷ cs) candidates = c ∷ cs

module _ (casefold : Text → Text) where
  -- `_explicit_scheme_name`
  pub explicit_scheme_name : Metadata → Option Text
  explicit_scheme_name metadata = elim (get (codes "security_scheme") metadata) [
    | some (string t) ↦ if is_empty (strip t) then none else some (casefold (strip t))
    | some other ↦ none
    | none ↦ none
  ]

  abbrev pub name_agrees : Option Text → Text → Bool
  name_agrees none name = true
  name_agrees (some t) name = text_eq t (casefold name)

  abbrev pub parameter_agrees : Option Text → Option MetadataValue → Bool
  parameter_agrees none value = true
  parameter_agrees (some p) (some (string t)) = text_eq (casefold t) (casefold p)
  parameter_agrees (some p) (some other) = false
  parameter_agrees (some p) none = false

  pub credential_is_compatible : CredentialCandidate → AuthSchemeSpec → List Text → Bool
  credential_is_compatible c scheme required =
      if not (scheme_matches (scheme.expected_credential_scheme) (c.scheme_type))
      then false
      else if not (name_agrees (explicit_scheme_name (c.metadata)) (scheme.name))
      then false
      else if not (parameter_agrees (scheme.parameter_name) (get (codes "name") (c.metadata)))
      then false
      else if not (scheme.oauth)
      then is_empty_list required
      else if not (is_subset required (scheme.advertised_scopes))
      then false
      else if not (is_subset (default_scopes (c.metadata)) (scheme.advertised_scopes))
      then false
      else method_is_supported (get (codes "token_auth_method") (c.metadata))
    where
      is_empty_list : List Text → Bool
      is_empty_list [] = true
      is_empty_list (t ∷ ts) = false

  abbrev pub is_bound : Text → CredentialCandidate → Bool
  is_bound name c = elim (explicit_scheme_name (c.metadata)) [
    | some t ↦ text_eq t (casefold name)
    | none ↦ false
  ]

  abbrev pub eligible :
      Text → AuthSchemeSpec → List Text → List CredentialCandidate → List CredentialCandidate
  eligible name scheme required credentials =
      let candidates = filter (λ c. credential_is_compatible c scheme required) credentials in
      prefer_bound (filter (is_bound name) candidates) candidates

  -- The plan for the one credential that is left.
  abbrev pub plan_for : Text → AuthSchemeSpec → List Text → CredentialCandidate → AuthSelectionPlan
  plan_for name scheme required c = record {
    scheme_name = name;
    credential_id = c.id;
    scopes =
        if scheme.oauth then sorted_set (or_default required (default_scopes (c.metadata))) else [];
    token_auth_method = method_of (get (codes "token_auth_method") (c.metadata));
  }

  abbrev pub only :
      Text
      → AuthSchemeSpec
      → List Text
      → List CredentialCandidate
      → Result AuthAlternativeRejection AuthSelectionPlan
  only name scheme required [] = err (rejection missing (some name) [])
  only name scheme required (c ∷ []) = ok (plan_for name scheme required c)
  only name scheme required (c ∷ d ∷ ds) = err (rejection ambiguous (some name) (ids (c ∷ d ∷ ds)))

  -- One turn of the loop.
  pub judge :
      List (Text × AuthSchemeSpec)
      → List CredentialCandidate
      → List (Text × List Text)
      → Result AuthAlternativeRejection AuthSelectionPlan
  judge schemes credentials [] = err (rejection combined_requirement_unsupported none [])
  judge schemes credentials ((name, required) ∷ []) = elim (get name schemes) [
    | none ↦ err (rejection undefined (some name) [])
    | some scheme ↦ only name scheme required (eligible name scheme required credentials)
  ]
  judge schemes credentials (a ∷ b ∷ cs) = err (rejection combined_requirement_unsupported none [])

  abbrev pub continue_with :
      Result AuthAlternativeRejection AuthSelectionPlan
      → Option AuthSelectionPlan × List AuthAlternativeRejection
      → Option AuthSelectionPlan × List AuthAlternativeRejection
  continue_with (ok plan) rest = (some plan, [])
  continue_with (err r) rest = (rest.0, r ∷ rest.1)

  pub select_auth_alternative :
      List (List (Text × List Text))
      → List (Text × AuthSchemeSpec)
      → List CredentialCandidate
      → Option AuthSelectionPlan × List AuthAlternativeRejection
  select_auth_alternative [] schemes credentials = (none, [])
  select_auth_alternative (a ∷ alternatives) schemes credentials =
      continue_with (judge schemes credentials a)
        (select_auth_alternative alternatives schemes credentials)
