-- ===== src/Router/Fallback/Classify.antt =====
-- router/src/fallback.ts: the classes of allocation failures.
use surfgate.Common.{◌≡◌, ◌↔◌, ◌⊎◌, Bool, true, false, List, [], ◌∷◌, if◌then◌else◌, arith}
use surfgate.Provider.Error.{
  ErrorCode, configuration_error, authorization_error, operation_aborted, operation_timeout,
  rate_limited, capacity_exhausted, transient_upstream_failure, unsupported, connection_failed,
  invalid_response, termination_failed, unknown_error, Operation, allocate, terminate, is_retryable,
}
use surfgate.Router.Reason.{ReasonCode, fallback_eligible, fallback_not_eligible}

pub data FailureClass : Type 0 where
  provider_transient allocation_timeout provider_rate_limited provider_capacity_exhausted
        connection_failure runtime_incompatibility provider_configuration provider_authentication
        operation_canceled invalid_client_request policy_denial security_denial
        tenant_quota_exhausted no_compatible_candidate malformed_request invalid_provider_response
        termination_failure unknown :
      FailureClass

-- `FALLBACK_ELIGIBLE_FAILURES.has(failureClass)`
abbrev pub is_fallback_eligible : FailureClass → Bool
is_fallback_eligible provider_transient = true
is_fallback_eligible allocation_timeout = true
is_fallback_eligible provider_rate_limited = true
is_fallback_eligible provider_capacity_exhausted = true
is_fallback_eligible connection_failure = true
is_fallback_eligible runtime_incompatibility = true
is_fallback_eligible _ = false

pub record Classification : Type 0 where
  pub failure_class : FailureClass
  pub eligible : Bool
  pub reason_codes : List ReasonCode

-- `classifyFallbackFailure`; the schema of its result restates how the result is built.
unfoldable pub classify_fallback_failure : FailureClass → Classification
classify_fallback_failure f = record {
  failure_class = f;
  eligible = is_fallback_eligible f;
  reason_codes = (if is_fallback_eligible f then fallback_eligible else fallback_not_eligible) ∷ [];
}

-- `PROVIDER_ERROR_FAILURE_CLASS[code]`
abbrev pub failure_class_of : ErrorCode → FailureClass
failure_class_of configuration_error = provider_configuration
failure_class_of authorization_error = provider_authentication
failure_class_of operation_aborted = operation_canceled
failure_class_of operation_timeout = allocation_timeout
failure_class_of rate_limited = provider_rate_limited
failure_class_of capacity_exhausted = provider_capacity_exhausted
failure_class_of transient_upstream_failure = provider_transient
failure_class_of unsupported = runtime_incompatibility
failure_class_of connection_failed = connection_failure
failure_class_of invalid_response = invalid_provider_response
failure_class_of termination_failed = termination_failure
failure_class_of unknown_error = unknown

abbrev is_terminate : Operation → Bool
is_terminate terminate = true
is_terminate _ = false

-- The class of an error outside allocation.
abbrev pub other_failure_class : ErrorCode → Operation → FailureClass
other_failure_class configuration_error o = provider_configuration
other_failure_class authorization_error o = provider_authentication
other_failure_class operation_aborted o = operation_canceled
other_failure_class _ o = if is_terminate o then termination_failure else unknown

-- `classifyProviderErrorForFallback`
unfoldable pub classify_provider_error : ErrorCode → Operation → Classification
unfolding classify_fallback_failure
classify_provider_error code allocate = classify_fallback_failure (failure_class_of code)
classify_provider_error code o = classify_fallback_failure (other_failure_class code o)

-- Only an allocation falls back, and it does exactly on the errors that the provider contract
-- marks as retryable, and on an unsupported runtime.
pub classify-eligible_iff :
    (code : ErrorCode) (o : Operation)
    → ((classify_provider_error code o).eligible ≡ true)
      ↔ ((o ≡ allocate) × ((is_retryable code ≡ true) ⊎ (code ≡ unsupported)))
unfolding classify_provider_error is_retryable
classify-eligible_iff code o = ground arith
