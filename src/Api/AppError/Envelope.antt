-- ===== src/Api/AppError/Envelope.antt =====
-- errors.ts: the error envelope, `toErrorResponse` and the handler of a Hono app's errors.
use apply_agent.Prelude.{
  ℕ, String, Bool, true, false, Option, none, some, List, [], ◌∷◌, Json, num, str, arr, obj, Items,
  nil, cons, end, field, pos, is_empty, optional_field, map_option, if◌then◌else◌, get_or_else,
}
use apply_agent.Prelude.Assoc.{Assoc, insert}
use apply_agent.Api.AppError.{
  AppError, ErrorCode, code_text, db_unavailable, cache_unavailable, upstream_unavailable,
  upstream_timeout, llm_unavailable, ErrorAction, retry, reauth, contact, wait, fix_input,
  no_action, Channel, email, in_app, FieldMessage, CauseHint, Layer, web, api, agents, pg, redis,
  llm,
}
use apply_agent.Api.AppError.Errors.{internal}
use apply_agent.Api.AppError.TraceCode.{trace_code_from_trace_id}
use apply_agent.Api.AppError.Infra.{Thrown, app, native, other, translate_infra_error}

-- What stands under `error`; `timestamp` is the text of the time.
pub record ErrorEnvelope : Type 0 where
  pub code : ErrorCode
  pub message : String
  pub message_key : Option String
  pub trace_id : String
  pub trace_code : String
  pub request_id : Option String
  pub timestamp : String
  pub details : Option Json
  pub action : Option ErrorAction
  pub cause : Option CauseHint

-- `v ? { key: v } : {}`, on a text
unfoldable pub non_empty : Option String → Option String
non_empty none = none
non_empty (some s) = if is_empty s then none else some s

unfoldable pub app_error_of : Thrown → AppError
app_error_of (app e) = e
app_error_of (native e) = get_or_else (translate_infra_error (native e)) internal
app_error_of other = get_or_else (translate_infra_error other) internal

-- `toErrorResponse`; `fresh` is `crypto.randomUUID()` and `now` the time.
unfoldable pub to_error_response :
    (trace_id request_id : Option String) → (fresh now : String) → Thrown → ErrorEnvelope × AppError
unfolding app_error_of non_empty
to_error_response trace_id request_id fresh now thrown =
    let e = app_error_of thrown in
    let id = get_or_else trace_id fresh in
    (
      record {
        code = e.code;
        message = e.message;
        message_key = non_empty e.message_key;
        trace_id = id;
        trace_code = trace_code_from_trace_id id;
        request_id = non_empty request_id;
        timestamp = now;
        details = e.details;
        action = e.action;
        cause = e.cause_hint;
      },
      e,
    )

channel_text : Channel → String
channel_text email = "email"
channel_text in_app = "in-app"

layer_text : Layer → String
layer_text web = "web"
layer_text api = "api"
layer_text agents = "agents"
layer_text pg = "pg"
layer_text redis = "redis"
layer_text llm = "llm"

fields_json : List FieldMessage → Items
fields_json [] = nil
fields_json (f ∷ fs) =
    cons (obj (field "name" (str f.name) (field "msg" (str f.msg) end))) (fields_json fs)

-- The action as the envelope's JSON shows it
unfoldable pub action_json : ErrorAction → Json
unfolding channel_text fields_json
action_json (retry after) =
    obj (
      field "kind" (str "retry") (optional_field "after" (map_option (λ n. num (pos n)) after) end))
action_json (reauth redirect) =
    obj (field "kind" (str "reauth") (field "redirect" (str redirect) end))
action_json (contact channel) =
    obj (field "kind" (str "contact") (field "channel" (str (channel_text channel)) end))
action_json (wait until reason) =
    obj (field "kind" (str "wait") (field "until" (str until) (field "reason" (str reason) end)))
action_json (fix_input fields) =
    obj (field "kind" (str "fix-input") (field "fields" (arr (fields_json fields)) end))
action_json no_action = obj (field "kind" (str "none") end)

hint_json : CauseHint → Json
unfolding layer_text
hint_json h = obj (
    optional_field "code" (map_option (λ c. str (code_text c)) h.code) (
      optional_field "layer" (map_option (λ l. str (layer_text l)) h.layer)
        (optional_field "message" (map_option str h.message) end)))

-- The body that `c.json` sends
unfoldable pub envelope_json : ErrorEnvelope → Json
unfolding hint_json
envelope_json e =
    let tail = optional_field "details" e.details (
      optional_field "action" (map_option action_json e.action)
        (optional_field "cause" (map_option hint_json e.cause) end)) in
    let ids = field "traceId" (str e.trace_id) (
      field "traceCode" (str e.trace_code) (
        optional_field "requestId" (map_option str e.request_id)
          (field "timestamp" (str e.timestamp) tail))) in
    obj (
      field "error"
        (obj (
          field "code" (str (code_text e.code)) (
            field "message" (str e.message)
              (optional_field "messageKey" (map_option str e.message_key) ids))))
        end)

-- `DEGRADED_CODES.has`
unfoldable pub is_degraded_code : ErrorCode → Bool
is_degraded_code db_unavailable = true
is_degraded_code cache_unavailable = true
is_degraded_code upstream_unavailable = true
is_degraded_code upstream_timeout = true
is_degraded_code llm_unavailable = true
is_degraded_code _ = false

-- What the gateway sends: the headers that the handler sets, by name in lower case.
pub record Response : Type 0 where
  pub status : ℕ
  pub headers : Assoc String
  pub body : Json

-- The `traceId` and `requestId` that the middleware has put into the context
pub record Context : Type 0 where
  pub trace_id : Option String
  pub request_id : Option String

unfoldable pub request_header : Option String → Assoc String → Assoc String
request_header none headers = headers
request_header (some id) headers = if is_empty id then headers else insert "x-request-id" id headers

unfoldable pub health_header : ErrorCode → Assoc String → Assoc String
health_header c headers =
    if is_degraded_code c then insert "x-relay-health" "degraded" headers else headers

-- `errorHandler`
unfoldable pub error_handler : Context → (fresh now : String) → Thrown → Response
unfolding to_error_response envelope_json request_header health_header
error_handler c fresh now thrown =
    let trace_id = get_or_else c.trace_id fresh in
    let (envelope, e) = to_error_response (some trace_id) c.request_id fresh now thrown in
    record {
      status = e.status;
      headers =
          health_header e.code (request_header c.request_id (insert "x-trace-id" trace_id []));
      body = envelope_json envelope;
    }
