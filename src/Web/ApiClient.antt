-- ===== src/Web/ApiClient.antt =====
-- api.ts of the web client: what `api` makes of the answers of the gateway.
pub mod Laws
pub mod Retry
pub mod Origin
pub mod Download
pub mod Token
pub mod Direct
pub mod Calls
mod Tests
use apply_agent.Prelude.{
  ℕ, ◌*◌, String, ◌<>◌, ◌==◌, Bool, true, false, not, ◌&&◌, ◌||◌, Option, none, some, List, [], ◌∷◌,
  Json, null, bool, num, str, arr, obj, Fields, end, field, pos, negsuc, min, nat_beq, leb,
  json_field, is_empty, is_some, if◌then◌else◌, get_or_else, or_option, to_upper_case,
}
use apply_agent.Prelude.Assoc.{Assoc, lookup, insert}
use apply_agent.Web.Health.{HealthStatus, ok, degraded, HealthState, report_api_health}
use apply_agent.Api.AppError.TraceCode.{trace_code_from_trace_id}
use apply_agent.Api.AppError.Envelope.{non_empty}

-- A response as the page can read it: the headers by name in lower case, and the body, `none` if it
-- is no JSON.
pub record Received : Type 0 where
  pub status : ℕ
  pub status_text : String
  pub headers : Assoc String
  pub body : Option Json

-- `action` is what the body has there, cast and not checked.
pub record ErrorMeta : Type 0 where
  pub code : Option String
  pub message_key : Option String
  pub trace_id : Option String
  pub trace_code : Option String
  pub request_id : Option String
  pub timestamp : Option String
  pub action : Option Json
  pub details : Option Json

abbrev pub no_meta : ErrorMeta
no_meta = record {
  code = none;
  message_key = none;
  trace_id = none;
  trace_code = none;
  request_id = none;
  timestamp = none;
  action = none;
  details = none;
}

-- `typeof v === "string" ? v : undefined`
abbrev pub text_of : Option Json → Option String
text_of (some (str s)) = some s
text_of _ = none

-- `v && typeof v === "object"`
abbrev object_of : Option Json → Option Json
object_of (some (obj fs)) = some (obj fs)
object_of (some (arr xs)) = some (arr xs)
object_of _ = none

unfoldable meta_of : Fields → ErrorMeta
meta_of e = record {
  code = text_of (json_field "code" e);
  message_key = text_of (json_field "messageKey" e);
  trace_id =
      non_empty (or_option (text_of (json_field "traceId" e)) (text_of (json_field "trace_id" e)));
  trace_code = text_of (json_field "traceCode" e);
  request_id =
      non_empty
        (or_option (text_of (json_field "requestId" e)) (text_of (json_field "request_id" e)));
  timestamp = text_of (json_field "timestamp" e);
  action = object_of (json_field "action" e);
  details = json_field "details" e;
}

meta_of_error : Option Json → ErrorMeta
unfolding meta_of
meta_of_error (some (obj e)) = meta_of e
meta_of_error _ = no_meta

-- `extractErrorMeta`
unfoldable pub extract_error_meta : Json → ErrorMeta
unfolding meta_of_error
extract_error_meta (obj body) = meta_of_error (json_field "error" body)
extract_error_meta _ = no_meta

unfoldable pub message_of_error : Option Json → String
message_of_error (some (str s)) = s
message_of_error (some (obj e)) = get_or_else (text_of (json_field "message" e)) "Request failed"
message_of_error _ = "Request failed"

-- `extractErrorMessage`
unfoldable pub extract_error_message : Json → String
unfolding message_of_error
extract_error_message (obj body) = message_of_error (json_field "error" body)
extract_error_message _ = "Request failed"

pub record TraceHeaders : Type 0 where
  pub trace_id : Option String
  pub request_id : Option String
  pub health_status : Option HealthStatus

health_of : Option String → Option HealthStatus
health_of none = none
health_of (some h) = if h == "degraded" then some degraded else none

-- `readTraceHeaders`
unfoldable pub read_trace_headers : Assoc String → TraceHeaders
unfolding health_of
read_trace_headers headers = record {
  trace_id = non_empty (lookup "x-trace-id" headers);
  request_id = non_empty (lookup "x-request-id" headers);
  health_status = health_of (lookup "x-relay-health" headers);
}

pub record ApiError : Type 0 where
  pub status : ℕ
  pub message : String
  pub code : Option String
  pub message_key : Option String
  pub trace_id : Option String
  pub trace_code : Option String
  pub request_id : Option String
  pub timestamp : Option String
  pub action : Option Json
  pub details : Option Json
  pub health_status : Option HealthStatus

code_of_trace : Option String → Option String
code_of_trace none = none
code_of_trace (some id) = if is_empty id then none else some (trace_code_from_trace_id id)

-- `new ApiError(status, message, meta)`
unfoldable pub api_error : ℕ → String → ErrorMeta → Option HealthStatus → ApiError
unfolding code_of_trace
api_error status message meta health = record {
  status = status;
  message = message;
  code = non_empty meta.code;
  message_key = non_empty meta.message_key;
  trace_id = non_empty meta.trace_id;
  trace_code = or_option meta.trace_code (code_of_trace meta.trace_id);
  request_id = non_empty meta.request_id;
  timestamp = non_empty meta.timestamp;
  action = meta.action;
  details = meta.details;
  health_status = health;
}

-- How `fetch` ends; `aborted` tells the timeout or the caller's signal from a rejection.
pub data Fetched : Type 0 where
  responded : Received → Fetched
  rejected : (aborted : Bool) → Fetched

-- What `api` does: it returns the parsed body, or throws an ApiError or the parser's SyntaxError.
pub data Answer : Type 0 where
  returns : Json → Answer
  throws : ApiError → Answer
  throws_syntax_error : Answer

network_meta : (code message_key : String) → ErrorMeta
network_meta code key = record no_meta { code = some code; message_key = some key }

-- The `catch` around `fetch`; `online` of `none` is a page without a `navigator`.
unfoldable pub network_error : (online : Option Bool) → (aborted : Bool) → ApiError
unfolding network_meta api_error
network_error (some false) aborted =
    api_error 0 "You appear to be offline. Reconnect and try again."
      (network_meta "NETWORK_OFFLINE" "errors.network.offline") none
network_error online true =
    api_error 0 "The request took longer than expected. Check your connection and try again."
      (network_meta "UPSTREAM_TIMEOUT" "errors.upstream.timeout") none
network_error online false =
    api_error 0 "Couldn't reach the server. A proxy or VPN may be blocking localhost."
      (network_meta "NETWORK_BLOCKED" "errors.network.blocked") none

-- The body of an error, or `{ error: res.statusText }`
error_body : Received → Json
error_body r = get_or_else r.body (obj (field "error" (str r.status_text) end))

-- `{ ...extractErrorMeta(body), ...readTraceHeaders(res) }` without the health
merged_meta : ErrorMeta → TraceHeaders → ErrorMeta
merged_meta m h = record m {
  trace_id = or_option h.trace_id m.trace_id;
  request_id = or_option h.request_id m.request_id;
}

-- `if (!res.ok)`
unfoldable pub fail : ℕ → Received → HealthState → HealthState × Answer
unfolding error_body merged_meta
fail now r s =
    let headers = read_trace_headers r.headers in
    let meta = merged_meta (extract_error_meta (error_body r)) headers in
    (
      report_api_health headers.health_status meta.code meta.trace_id now s,
      throws (api_error r.status (extract_error_message (error_body r)) meta headers.health_status),
    )

succeed : ℕ → Received → HealthState → HealthState × Answer
succeed now r s =
    let flagged = get_or_else (lookup "x-relay-health" r.headers) "" == "degraded" in
    (
      if flagged then s else report_api_health (some ok) none none now s,
      elim r.body [ none ↦ throws_syntax_error | some v ↦ returns v ],
    )

-- `res.ok`
unfoldable pub is_ok : ℕ → Bool
is_ok status = leb 200 status && leb status 299

-- `apiOnce`, from how `fetch` ends
unfoldable pub after_fetch :
    (online : Option Bool) → (now : ℕ) → Fetched → HealthState → HealthState × Answer
unfolding fail succeed is_ok
after_fetch online now (rejected aborted) s = (s, throws (network_error online aborted))
after_fetch online now (responded r) s = if is_ok r.status then succeed now r s else fail now r s
