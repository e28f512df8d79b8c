-- ===== src/Provider/Error.antt =====
-- provider-core/src/provider-error.ts: the codes of provider errors, and which may be retried.
use surfgate.Common.{Bool, true, false}

pub data ErrorCode : Type 0 where
  configuration_error authorization_error operation_aborted operation_timeout rate_limited
        capacity_exhausted transient_upstream_failure unsupported connection_failed invalid_response
        termination_failed unknown_error :
      ErrorCode

pub data Operation : Type 0 where
  descriptor health allocate terminate : Operation

-- `RETRYABLE_PROVIDER_ERROR_CODES.has(code)`
unfoldable pub is_retryable : ErrorCode → Bool
is_retryable operation_timeout = true
is_retryable rate_limited = true
is_retryable capacity_exhausted = true
is_retryable transient_upstream_failure = true
is_retryable connection_failed = true
is_retryable _ = false
