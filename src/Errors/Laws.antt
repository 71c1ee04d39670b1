-- ===== src/Errors/Laws.antt =====
-- Codes, statuses and the retry decision over the whole hierarchy.
use mcplica.Common.{◌≡◌, ◌≤◌, ◌⊎◌, refl, true, List, [], ◌∷◌, Option, none, some, arith}
use mcplica.Errors.{
  ErrorClass, ancestors, status_code, is_retryable_deployment_error, mcplica_error,
  client_connection_error, client_timeout_error, client_unavailable_error, docker_operation_error,
  runtime_startup_error, runtime_health_error,
}

abbrev last : List ErrorClass → Option ErrorClass
last [] = none
last (c ∷ []) = some c
last (c ∷ d ∷ cs) = last (d ∷ cs)

-- Every chain of bases ends at `MCPlicaError` within four classes.
pub ancestors-end : (c : ErrorClass) → last (ancestors c) ≡ some mcplica_error
unfolding ancestors
ancestors-end ErrorClass.mcplica_error = refl
ancestors-end _ = refl

-- Every error is answered with a status from 400 to 504; a deployment error that is retried has a
-- server error status.
pub status_code_class :
    (c : ErrorClass)
    → (400 ≤ status_code c)
      × (status_code c ≤ 504)
      × (is_retryable_deployment_error c ≡ true → 500 ≤ status_code c)
unfolding status_code is_retryable_deployment_error
status_code_class ErrorClass.mcplica_error = (omega arith, omega arith, λ e. cc)
status_code_class _ = (omega arith, omega arith, λ e. ground arith)

-- The retry decision, as the list of the classes that it takes.
pub retryable_classes :
    (c : ErrorClass)
    → is_retryable_deployment_error c ≡ true
    → (c ≡ client_connection_error)
      ⊎ ((c ≡ client_timeout_error)
          ⊎ ((c ≡ client_unavailable_error)
              ⊎ ((c ≡ docker_operation_error)
                  ⊎ ((c ≡ runtime_startup_error) ⊎ (c ≡ runtime_health_error)))))
unfolding is_retryable_deployment_error
retryable_classes ErrorClass.mcplica_error e = cc
retryable_classes _ e = ground arith
