-- ===== src/Web/ErrorRouter/Codes.antt =====
-- The gateway's codes in the web client's matrix.
use apply_agent.Prelude.{◌≡◌, refl, true, some, is_some, to_lower_case, lower}
use apply_agent.Api.AppError.{
  ErrorCode, code_text, validation_failed, input_format_unsupported, auth_required,
  auth_invalid_credentials, auth_session_expired, auth_forbidden, auth_email_not_verified,
  resource_not_found, resource_conflict, resource_gone, rate_limited, quota_exceeded,
  upstream_timeout, upstream_unavailable, db_unavailable, cache_unavailable, llm_unavailable,
  llm_budget_exhausted, llm_content_refused, llm_fabrication_blocked, agent_timeout,
  agent_interrupt_pending, agent_task_failed, network_offline, network_blocked,
  client_version_stale, internal, validation, not_found, conflict, unauthorized, forbidden,
  upstream,
}
use apply_agent.Api.AppError.Envelope.{is_degraded_code}
use apply_agent.Web.ErrorRouter.{is_degraded_text}
use apply_agent.Web.ErrorRouter.Keys.{keys_for}

pub is_some-keys_for : (c : ErrorCode) → is_some (keys_for (some (code_text c))) ≡ true
unfolding keys_for code_text to_lower_case lower
is_some-keys_for validation_failed = refl
is_some-keys_for input_format_unsupported = refl
is_some-keys_for auth_required = refl
is_some-keys_for auth_invalid_credentials = refl
is_some-keys_for auth_session_expired = refl
is_some-keys_for auth_forbidden = refl
is_some-keys_for auth_email_not_verified = refl
is_some-keys_for resource_not_found = refl
is_some-keys_for resource_conflict = refl
is_some-keys_for resource_gone = refl
is_some-keys_for rate_limited = refl
is_some-keys_for quota_exceeded = refl
is_some-keys_for upstream_timeout = refl
is_some-keys_for upstream_unavailable = refl
is_some-keys_for db_unavailable = refl
is_some-keys_for cache_unavailable = refl
is_some-keys_for llm_unavailable = refl
is_some-keys_for llm_budget_exhausted = refl
is_some-keys_for llm_content_refused = refl
is_some-keys_for llm_fabrication_blocked = refl
is_some-keys_for agent_timeout = refl
is_some-keys_for agent_interrupt_pending = refl
is_some-keys_for agent_task_failed = refl
is_some-keys_for network_offline = refl
is_some-keys_for network_blocked = refl
is_some-keys_for client_version_stale = refl
is_some-keys_for internal = refl
is_some-keys_for validation = refl
is_some-keys_for not_found = refl
is_some-keys_for conflict = refl
is_some-keys_for unauthorized = refl
is_some-keys_for forbidden = refl
is_some-keys_for upstream = refl

-- The two lists of the codes of a degraded system, `DEGRADED_CODES` and that of `isDegraded`, agree.
pub is_degraded_text-code_text :
    (c : ErrorCode) → is_degraded_text (code_text c) ≡ is_degraded_code c
unfolding is_degraded_text code_text is_degraded_code
is_degraded_text-code_text validation_failed = refl
is_degraded_text-code_text input_format_unsupported = refl
is_degraded_text-code_text auth_required = refl
is_degraded_text-code_text auth_invalid_credentials = refl
is_degraded_text-code_text auth_session_expired = refl
is_degraded_text-code_text auth_forbidden = refl
is_degraded_text-code_text auth_email_not_verified = refl
is_degraded_text-code_text resource_not_found = refl
is_degraded_text-code_text resource_conflict = refl
is_degraded_text-code_text resource_gone = refl
is_degraded_text-code_text rate_limited = refl
is_degraded_text-code_text quota_exceeded = refl
is_degraded_text-code_text upstream_timeout = refl
is_degraded_text-code_text upstream_unavailable = refl
is_degraded_text-code_text db_unavailable = refl
is_degraded_text-code_text cache_unavailable = refl
is_degraded_text-code_text llm_unavailable = refl
is_degraded_text-code_text llm_budget_exhausted = refl
is_degraded_text-code_text llm_content_refused = refl
is_degraded_text-code_text llm_fabrication_blocked = refl
is_degraded_text-code_text agent_timeout = refl
is_degraded_text-code_text agent_interrupt_pending = refl
is_degraded_text-code_text agent_task_failed = refl
is_degraded_text-code_text network_offline = refl
is_degraded_text-code_text network_blocked = refl
is_degraded_text-code_text client_version_stale = refl
is_degraded_text-code_text internal = refl
is_degraded_text-code_text validation = refl
is_degraded_text-code_text not_found = refl
is_degraded_text-code_text conflict = refl
is_degraded_text-code_text unauthorized = refl
is_degraded_text-code_text forbidden = refl
is_degraded_text-code_text upstream = refl
