-- ===== src/Errors.antt =====
-- The exceptions of backend/app/core/exceptions.py: one class hierarchy under `MCPlicaError`, each
-- class with an error code of its own and a status code that it states or inherits.
mod Laws
use mathlib.Core.Logic.{ite}
use mcplica.Common.{
  ℕ, zero, suc, ◌+◌, Bool, true, false, ◌&&◌, ◌||◌, Option, none, some, List, [], ◌∷◌, map, leb,
  any, text_eq, if◌then◌else◌, Text, codes,
}

pub data ErrorClass : Type 0 where
  mcplica_error not_found_error conflict_error invalid_state_error : ErrorClass
  execution_ownership_error deployability_error permission_denied_error : ErrorClass
  authentication_error rate_limit_error validation_error payload_too_large_error : ErrorClass
  security_policy_error client_error client_connection_error client_timeout_error : ErrorClass
  client_authentication_error client_rate_limit_error client_response_error : ErrorClass
  client_unavailable_error source_parse_error reference_resolution_error : ErrorClass
  canonicalization_error indexing_error ai_analysis_error compilation_error : ErrorClass
  coverage_validation_error manifest_validation_error protocol_validation_error : ErrorClass
  packaging_error docker_operation_error runtime_startup_error runtime_health_error : ErrorClass
  hostname_conflict_error secret_materialization_error : ErrorClass

-- The `code` attribute; every class sets it.
pub code : ErrorClass → Text
code mcplica_error = codes "MCPLICA_ERROR"
code not_found_error = codes "NOT_FOUND"
code conflict_error = codes "CONFLICT"
code invalid_state_error = codes "INVALID_STATE"
code execution_ownership_error = codes "EXECUTION_OWNERSHIP_LOST"
code deployability_error = codes "DEPLOYABILITY_PREFLIGHT_FAILED"
code permission_denied_error = codes "PERMISSION_DENIED"
code authentication_error = codes "AUTHENTICATION_REQUIRED"
code rate_limit_error = codes "RATE_LIMITED"
code validation_error = codes "VALIDATION_ERROR"
code payload_too_large_error = codes "PAYLOAD_TOO_LARGE"
code security_policy_error = codes "SECURITY_POLICY_BLOCK"
code client_error = codes "CLIENT_ERROR"
code client_connection_error = codes "CLIENT_CONNECTION_ERROR"
code client_timeout_error = codes "CLIENT_TIMEOUT"
code client_authentication_error = codes "CLIENT_AUTHENTICATION_ERROR"
code client_rate_limit_error = codes "CLIENT_RATE_LIMIT"
code client_response_error = codes "CLIENT_RESPONSE_ERROR"
code client_unavailable_error = codes "CLIENT_UNAVAILABLE"
code source_parse_error = codes "SOURCE_PARSE_ERROR"
code reference_resolution_error = codes "REFERENCE_RESOLUTION_ERROR"
code canonicalization_error = codes "CANONICALIZATION_ERROR"
code indexing_error = codes "INDEXING_ERROR"
code ai_analysis_error = codes "AI_ANALYSIS_ERROR"
code compilation_error = codes "COMPILATION_ERROR"
code coverage_validation_error = codes "COVERAGE_VALIDATION_ERROR"
code manifest_validation_error = codes "MANIFEST_VALIDATION_ERROR"
code protocol_validation_error = codes "PROTOCOL_VALIDATION_ERROR"
code packaging_error = codes "PACKAGING_ERROR"
code docker_operation_error = codes "DOCKER_OPERATION_ERROR"
code runtime_startup_error = codes "RUNTIME_STARTUP_ERROR"
code runtime_health_error = codes "RUNTIME_HEALTH_ERROR"
code hostname_conflict_error = codes "HOSTNAME_CONFLICT"
code secret_materialization_error = codes "SECRET_MATERIALIZATION_ERROR"

-- The base class; `MCPlicaError` itself derives from `Exception`.
pub parent : ErrorClass → Option ErrorClass
parent mcplica_error = none
parent execution_ownership_error = some invalid_state_error
parent deployability_error = some invalid_state_error
parent rate_limit_error = some authentication_error
parent payload_too_large_error = some validation_error
parent client_connection_error = some client_error
parent client_timeout_error = some client_error
parent client_authentication_error = some client_error
parent client_rate_limit_error = some client_error
parent client_response_error = some client_error
parent client_unavailable_error = some client_error
parent source_parse_error = some validation_error
parent reference_resolution_error = some source_parse_error
parent canonicalization_error = some validation_error
parent compilation_error = some validation_error
parent coverage_validation_error = some validation_error
parent manifest_validation_error = some validation_error
parent protocol_validation_error = some validation_error
parent docker_operation_error = some client_error
parent runtime_startup_error = some docker_operation_error
parent runtime_health_error = some docker_operation_error
parent hostname_conflict_error = some conflict_error
parent _ = some mcplica_error

-- The `status_code` attribute, where the class states one.
pub own_status_code : ErrorClass → Option ℕ
own_status_code mcplica_error = some 400
own_status_code not_found_error = some 404
own_status_code conflict_error = some 409
own_status_code invalid_state_error = some 409
own_status_code permission_denied_error = some 403
own_status_code authentication_error = some 401
own_status_code rate_limit_error = some 429
own_status_code validation_error = some 422
own_status_code payload_too_large_error = some 413
own_status_code security_policy_error = some 403
own_status_code client_error = some 502
own_status_code client_timeout_error = some 504
own_status_code client_rate_limit_error = some 503
own_status_code client_unavailable_error = some 503
own_status_code secret_materialization_error = some 500
own_status_code _ = none

-- The class and its bases. The hierarchy is at most four classes deep (`ancestors-end`).
chain : ℕ → Option ErrorClass → List ErrorClass
chain zero c = []
chain (suc n) none = []
chain (suc n) (some c) = c ∷ chain n (parent c)

pub ancestors : ErrorClass → List ErrorClass
unfolding chain parent
ancestors c = chain 4 (some c)

first_status : List ErrorClass → ℕ
first_status [] = 0
first_status (c ∷ cs) = elim (own_status_code c) [ some n ↦ n | none ↦ first_status cs ]

-- Attribute lookup along the bases.
pub status_code : ErrorClass → ℕ
unfolding first_status own_status_code ancestors
status_code c = first_status (ancestors c)

ErrorClass-discrete : Discrete ErrorClass
ErrorClass-discrete = hlevel

-- `isinstance(error, base)`
pub is_instance : ErrorClass → ErrorClass → Bool
unfolding ancestors ErrorClass-discrete
is_instance base c = any (λ a. ite (ErrorClass-discrete a base) true false) (ancestors c)

-- `is_retryable_deployment_error` of backend/app/services/deployment/service.py, on this hierarchy.
unfoldable pub is_retryable_deployment_error : ErrorClass → Bool
unfolding is_instance
is_retryable_deployment_error c =
    is_instance client_connection_error c
    || (is_instance client_timeout_error c
        || (is_instance client_unavailable_error c || is_instance docker_operation_error c))
