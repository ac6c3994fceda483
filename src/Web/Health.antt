-- ===== src/Web/Health.antt =====
-- health-store.ts: whether the gateway has flagged the system as degraded.
use apply_agent.Prelude.{ℕ, String, Option, none, some}

pub data HealthStatus : Type 0 where
  ok degraded : HealthStatus

-- The store; `updated_at` in milliseconds.
pub record HealthState : Type 0 where
  pub status : HealthStatus
  pub code : Option String
  pub trace_id : Option String
  pub updated_at : ℕ

abbrev pub healthy : HealthState
healthy = record { status = ok; code = none; trace_id = none; updated_at = 0 }

-- `setOk`
set_ok : ℕ → HealthState → HealthState
set_ok now s = elim s.status [
  | ok ↦ s
  | degraded ↦ record { status = ok; code = none; trace_id = none; updated_at = now }
]

-- `reportApiHealth`
unfoldable pub report_api_health :
    Option HealthStatus → (code trace_id : Option String) → (now : ℕ) → HealthState → HealthState
unfolding set_ok
report_api_health none code trace_id now s = s
report_api_health (some ok) code trace_id now s = set_ok now s
report_api_health (some degraded) code trace_id now s = record {
  status = degraded;
  code = code;
  trace_id = trace_id;
  updated_at = now;
}
