-- ===== src/Api/AppError.antt =====
-- errors.ts: the taxonomy of the gateway's errors, their actions and their classes.
pub mod Errors
pub mod Infra
pub mod TraceCode
pub mod Envelope
pub mod Laws
pub mod Outage
mod Tests
use apply_agent.Prelude.{ℕ, String, Option, some, List, Json}

pub data ErrorCode : Type 0 where
  validation_failed input_format_unsupported auth_required auth_invalid_credentials : ErrorCode
  auth_session_expired auth_forbidden auth_email_not_verified resource_not_found : ErrorCode
  resource_conflict resource_gone rate_limited quota_exceeded upstream_timeout : ErrorCode
  upstream_unavailable db_unavailable cache_unavailable llm_unavailable llm_budget_exhausted :
      ErrorCode
  llm_content_refused llm_fabrication_blocked agent_timeout agent_interrupt_pending : ErrorCode
  agent_task_failed network_offline network_blocked client_version_stale internal validation :
      ErrorCode
  not_found conflict unauthorized forbidden upstream : ErrorCode

-- The code as the envelope shows it.
unfoldable pub code_text : ErrorCode → String
code_text validation_failed = "VALIDATION_FAILED"
code_text input_format_unsupported = "INPUT_FORMAT_UNSUPPORTED"
code_text auth_required = "AUTH_REQUIRED"
code_text auth_invalid_credentials = "AUTH_INVALID_CREDENTIALS"
code_text auth_session_expired = "AUTH_SESSION_EXPIRED"
code_text auth_forbidden = "AUTH_FORBIDDEN"
code_text auth_email_not_verified = "AUTH_EMAIL_NOT_VERIFIED"
code_text resource_not_found = "RESOURCE_NOT_FOUND"
code_text resource_conflict = "RESOURCE_CONFLICT"
code_text resource_gone = "RESOURCE_GONE"
code_text rate_limited = "RATE_LIMITED"
code_text quota_exceeded = "QUOTA_EXCEEDED"
code_text upstream_timeout = "UPSTREAM_TIMEOUT"
code_text upstream_unavailable = "UPSTREAM_UNAVAILABLE"
code_text db_unavailable = "DB_UNAVAILABLE"
code_text cache_unavailable = "CACHE_UNAVAILABLE"
code_text llm_unavailable = "LLM_UNAVAILABLE"
code_text llm_budget_exhausted = "LLM_BUDGET_EXHAUSTED"
code_text llm_content_refused = "LLM_CONTENT_REFUSED"
code_text llm_fabrication_blocked = "LLM_FABRICATION_BLOCKED"
code_text agent_timeout = "AGENT_TIMEOUT"
code_text agent_interrupt_pending = "AGENT_INTERRUPT_PENDING"
code_text agent_task_failed = "AGENT_TASK_FAILED"
code_text network_offline = "NETWORK_OFFLINE"
code_text network_blocked = "NETWORK_BLOCKED"
code_text client_version_stale = "CLIENT_VERSION_STALE"
code_text internal = "INTERNAL"
code_text validation = "VALIDATION"
code_text not_found = "NOT_FOUND"
code_text conflict = "CONFLICT"
code_text unauthorized = "UNAUTHORIZED"
code_text forbidden = "FORBIDDEN"
code_text upstream = "UPSTREAM"

pub data Channel : Type 0 where
  email in_app : Channel

pub record FieldMessage : Type 0 where
  pub name : String
  pub msg : String

pub data ErrorAction : Type 0 where
  retry : (after : Option ℕ) → ErrorAction
  reauth : (redirect : String) → ErrorAction
  contact : Channel → ErrorAction
  wait : (until reason : String) → ErrorAction
  fix_input : List FieldMessage → ErrorAction
  no_action : ErrorAction

pub data Layer : Type 0 where
  web api agents pg redis llm : Layer

pub record CauseHint : Type 0 where
  pub code : Option ErrorCode
  pub layer : Option Layer
  pub message : Option String

-- `class AppError`; `details` of `none` is `undefined`.
pub record AppError : Type 0 where
  pub message : String
  pub code : ErrorCode
  pub status : ℕ
  pub message_key : Option String
  pub action : Option ErrorAction
  pub details : Option Json
  pub cause_hint : Option CauseHint

-- The subclasses
pub data ErrorClass : Type 0 where
  validation_error unauthorized_error auth_invalid_credentials_error : ErrorClass
  session_expired_error forbidden_error not_found_error conflict_error gone_error : ErrorClass
  rate_limited_error quota_exceeded_error upstream_error upstream_timeout_error : ErrorClass
  db_unavailable_error cache_unavailable_error llm_unavailable_error : ErrorClass
  input_format_unsupported_error payload_too_large_error email_not_verified_error : ErrorClass
  internal_error : ErrorClass

unfoldable pub class_code : ErrorClass → ErrorCode
class_code validation_error = validation_failed
class_code unauthorized_error = auth_required
class_code auth_invalid_credentials_error = auth_invalid_credentials
class_code session_expired_error = auth_session_expired
class_code forbidden_error = auth_forbidden
class_code not_found_error = resource_not_found
class_code conflict_error = resource_conflict
class_code gone_error = resource_gone
class_code rate_limited_error = rate_limited
class_code quota_exceeded_error = quota_exceeded
class_code upstream_error = upstream_unavailable
class_code upstream_timeout_error = upstream_timeout
class_code db_unavailable_error = db_unavailable
class_code cache_unavailable_error = cache_unavailable
class_code llm_unavailable_error = llm_unavailable
class_code input_format_unsupported_error = input_format_unsupported
class_code payload_too_large_error = validation_failed
class_code email_not_verified_error = auth_email_not_verified
class_code internal_error = internal

unfoldable pub class_status : ErrorClass → ℕ
class_status validation_error = 400
class_status unauthorized_error = 401
class_status auth_invalid_credentials_error = 401
class_status session_expired_error = 401
class_status forbidden_error = 403
class_status not_found_error = 404
class_status conflict_error = 409
class_status gone_error = 410
class_status rate_limited_error = 429
class_status quota_exceeded_error = 429
class_status upstream_error = 502
class_status upstream_timeout_error = 504
class_status db_unavailable_error = 503
class_status cache_unavailable_error = 503
class_status llm_unavailable_error = 503
class_status input_format_unsupported_error = 400
class_status payload_too_large_error = 413
class_status email_not_verified_error = 401
class_status internal_error = 500

-- The constructor, called with an object of the new form
unfoldable pub app_error :
    ErrorClass
    → String
    → (details : Option Json) → (message_key : String) → ErrorAction
    → Option CauseHint
    → AppError
unfolding class_code class_status
app_error c message details message_key action hint = record {
  message = message;
  code = class_code c;
  status = class_status c;
  message_key = some message_key;
  action = some action;
  details = details;
  cause_hint = hint;
}
