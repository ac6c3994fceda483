-- ===== src/Api/AppError/Errors.antt =====
-- errors.ts: the factory `Errors`, which pairs each class with its message key and its action.
use apply_agent.Prelude.{
  ℕ, String, ◌<>◌, Option, none, some, List, Json, num, str, obj, end, field, pos, text_take,
  to_decimal, optional_field, map_option,
}
use apply_agent.Api.AppError.{
  AppError, app_error, ErrorAction, retry, reauth, contact, fix_input, no_action, in_app,
  FieldMessage, CauseHint, Layer, agents, pg, redis, llm, validation_error, unauthorized_error,
  auth_invalid_credentials_error, session_expired_error, forbidden_error, not_found_error,
  conflict_error, gone_error, rate_limited_error, quota_exceeded_error, upstream_error,
  upstream_timeout_error, db_unavailable_error, cache_unavailable_error, llm_unavailable_error,
  input_format_unsupported_error, payload_too_large_error, email_not_verified_error, internal_error,
}

fix_or_none : Option (List FieldMessage) → ErrorAction
fix_or_none none = no_action
fix_or_none (some fields) = fix_input fields

unfoldable pub validation :
    (msg : String) → (details : Option Json) → (fields : Option (List FieldMessage)) → AppError
unfolding app_error fix_or_none
validation msg details fields =
    app_error validation_error msg details "errors.validation.failed" (fix_or_none fields) none

unfoldable pub input_format_unsupported : (msg : String) → (details : Option Json) → AppError
unfolding app_error
input_format_unsupported msg details =
    app_error input_format_unsupported_error msg details "errors.input.formatUnsupported" no_action
      none

unfoldable pub payload_too_large : (msg : String) → (details : Option Json) → AppError
unfolding app_error
payload_too_large msg details =
    app_error payload_too_large_error msg details "errors.input.payloadTooLarge" no_action none

unfoldable pub auth_required : (msg : String) → AppError
unfolding app_error
auth_required msg =
    app_error unauthorized_error msg none "errors.auth.required" (reauth "/auth") none

unfoldable pub invalid_creds : AppError
unfolding app_error
invalid_creds =
    app_error auth_invalid_credentials_error "Invalid email or password" none
      "errors.auth.invalidCredentials" no_action none

unfoldable pub session_expired : AppError
unfolding app_error
session_expired =
    app_error session_expired_error "Session expired" none "errors.auth.sessionExpired"
      (reauth "/auth?reason=session_expired") none

unfoldable pub forbidden : (msg : String) → AppError
unfolding app_error
forbidden msg = app_error forbidden_error msg none "errors.auth.forbidden" no_action none

unfoldable pub email_not_verified : AppError
unfolding app_error
email_not_verified =
    app_error email_not_verified_error "Email not verified" none "errors.auth.emailNotVerified"
      (contact in_app) none

unfoldable pub not_found : (msg : String) → AppError
unfolding app_error
not_found msg = app_error not_found_error msg none "errors.resource.notFound" no_action none

unfoldable pub conflict : (msg : String) → (details : Option Json) → AppError
unfolding app_error
conflict msg details =
    app_error conflict_error msg details "errors.resource.conflict" no_action none

unfoldable pub gone : (msg : String) → AppError
unfolding app_error
gone msg = app_error gone_error msg none "errors.resource.gone" no_action none

-- The argument of `rateLimited`
pub record Throttle : Type 0 where
  pub scope : Option String
  pub limit : Option ℕ
  pub window_seconds : Option ℕ
  pub retry_after_seconds : ℕ

number : ℕ → Json
number n = num (pos n)

throttle_json : Throttle → Json
unfolding number
throttle_json o = obj (
    optional_field "scope" (map_option str o.scope) (
      optional_field "limit" (map_option number o.limit) (
        optional_field "windowSeconds" (map_option number o.window_seconds)
          (field "retryAfterSeconds" (number o.retry_after_seconds) end))))

scope_text : Option String → String
scope_text none = ""
scope_text (some String.[]) = ""
scope_text (some (String.◌∷◌ c s)) = " for " <> String.◌∷◌ c s

unfoldable pub rate_limited : Throttle → AppError
unfolding app_error throttle_json number scope_text
rate_limited o =
    app_error rate_limited_error
      ("Rate limit exceeded"
        <> (scope_text o.scope
            <> (". Try again in " <> (to_decimal o.retry_after_seconds <> "s."))))
      (some (throttle_json o)) "errors.throttling.rateLimited" (retry (some o.retry_after_seconds))
      none

unfoldable pub quota_exceeded : (details : Option Json) → AppError
unfolding app_error
quota_exceeded details =
    app_error quota_exceeded_error "Quota exceeded" details "errors.throttling.quotaExceeded"
      (contact in_app) none

-- `cause ? { layer, message: cause.message.slice(0, 200) } : undefined`
hint_of : Layer → Option String → Option CauseHint
hint_of layer none = none
hint_of layer (some message) =
    some (record { code = none; layer = some layer; message = some (text_take 200 message) })

unfoldable pub upstream_unavailable : (cause : Option String) → AppError
unfolding app_error hint_of
upstream_unavailable cause =
    app_error upstream_error "Upstream service unavailable" none "errors.upstream.unavailable"
      (retry (some 5)) (hint_of agents cause)

unfoldable pub upstream_timeout : (cause : Option String) → AppError
unfolding app_error hint_of
upstream_timeout cause =
    app_error upstream_timeout_error "Upstream request timed out" none "errors.upstream.timeout"
      (retry (some 5)) (hint_of agents cause)

unfoldable pub db_unavailable : (cause : Option String) → AppError
unfolding app_error hint_of
db_unavailable cause =
    app_error db_unavailable_error "Database temporarily unavailable" none
      "errors.system.dbUnavailable" (retry (some 5)) (hint_of pg cause)

unfoldable pub cache_unavailable : (cause : Option String) → AppError
unfolding app_error hint_of
cache_unavailable cause =
    app_error cache_unavailable_error "Cache temporarily unavailable" none
      "errors.system.cacheUnavailable" (retry (some 5)) (hint_of redis cause)

unfoldable pub llm_unavailable : (cause : Option String) → AppError
unfolding app_error hint_of
llm_unavailable cause =
    app_error llm_unavailable_error "Reasoning engine unavailable" none "errors.llm.unavailable"
      (retry (some 10)) (hint_of llm cause)

unfoldable pub internal : AppError
unfolding app_error
internal =
    app_error internal_error "Internal server error" none "errors.system.internal" (retry (some 5))
      none
