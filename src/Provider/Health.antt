-- ===== src/Provider/Health.antt =====
-- provider-core/src/provider-health.ts: the health of a provider.
use surfgate.Common.{ℕ, Bool, true, false, Option}
use surfgate.Contracts.Tasks.{Timestamp}

pub data HealthStatus : Type 0 where
  healthy degraded unavailable : HealthStatus

pub data CapacitySignal : Type 0 where
  available constrained exhausted unknown : CapacitySignal

pub data HealthDiagnosticCode : Type 0 where
  provider_healthy provider_degraded provider_unavailable provider_not_configured :
      HealthDiagnosticCode

-- `latencyMs` is given in thousandths of a millisecond.
pub record ProviderHealth : Type 0 where
  pub status : HealthStatus
  pub configured : Bool
  pub diagnostic_code : HealthDiagnosticCode
  pub capacity : CapacitySignal
  pub checked_at : Timestamp
  pub latency_ms : Option ℕ
  pub retry_after_ms : Option ℕ

-- The members of the union, by status, configuration, diagnostic code and capacity.
is_member : HealthStatus → Bool → HealthDiagnosticCode → CapacitySignal → Bool
is_member healthy true provider_healthy c = true
is_member degraded true provider_degraded c = true
is_member unavailable true provider_unavailable c = true
is_member unavailable false provider_not_configured unknown = true
is_member _ _ _ _ = false

-- `ProviderHealthSchema`
unfoldable pub is_health : ProviderHealth → Bool
unfolding is_member
is_health h = is_member h.status h.configured h.diagnostic_code h.capacity
