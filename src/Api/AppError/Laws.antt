-- ===== src/Api/AppError/Laws.antt =====
-- The codes of the taxonomy as texts, and what an exception of the infrastructure becomes.
use apply_agent.Prelude.{◌≡◌, refl, false, is_empty}
use apply_agent.Api.AppError.{
  ErrorCode, code_text, validation_failed, input_format_unsupported, auth_required,
  auth_invalid_credentials, auth_session_expired, auth_forbidden, auth_email_not_verified,
  resource_not_found, resource_conflict, resource_gone, rate_limited, quota_exceeded,
  upstream_timeout, upstream_unavailable, db_unavailable, cache_unavailable, llm_unavailable,
  llm_budget_exhausted, llm_content_refused, llm_fabrication_blocked, agent_timeout,
  agent_interrupt_pending, agent_task_failed, network_offline, network_blocked,
  client_version_stale, internal, validation, not_found, conflict, unauthorized, forbidden,
  upstream,
}

pub is_empty-code_text : (c : ErrorCode) → is_empty (code_text c) ≡ false
unfolding code_text
is_empty-code_text validation_failed = refl
is_empty-code_text input_format_unsupported = refl
is_empty-code_text auth_required = refl
is_empty-code_text auth_invalid_credentials = refl
is_empty-code_text auth_session_expired = refl
is_empty-code_text auth_forbidden = refl
is_empty-code_text auth_email_not_verified = refl
is_empty-code_text resource_not_found = refl
is_empty-code_text resource_conflict = refl
is_empty-code_text resource_gone = refl
is_empty-code_text rate_limited = refl
is_empty-code_text quota_exceeded = refl
is_empty-code_text upstream_timeout = refl
is_empty-code_text upstream_unavailable = refl
is_empty-code_text db_unavailable = refl
is_empty-code_text cache_unavailable = refl
is_empty-code_text llm_unavailable = refl
is_empty-code_text llm_budget_exhausted = refl
is_empty-code_text llm_content_refused = refl
is_empty-code_text llm_fabrication_blocked = refl
is_empty-code_text agent_timeout = refl
is_empty-code_text agent_interrupt_pending = refl
is_empty-code_text agent_task_failed = refl
is_empty-code_text network_offline = refl
is_empty-code_text network_blocked = refl
is_empty-code_text client_version_stale = refl
is_empty-code_text internal = refl
is_empty-code_text validation = refl
is_empty-code_text not_found = refl
is_empty-code_text conflict = refl
is_empty-code_text unauthorized = refl
is_empty-code_text forbidden = refl
is_empty-code_text upstream = refl
