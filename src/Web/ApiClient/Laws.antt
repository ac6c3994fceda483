-- ===== src/Web/ApiClient/Laws.antt =====
-- The errors of the gateway as the web client reads them.
use apply_agent.Web.ApiClient.Origin.{readable, receive}
use apply_agent.Prelude.{
  [], ℕ, String, ◌==◌, Bool, true, false, Option, none, some, ◌≡◌, refl, Json, str, Fields, field,
  end, json_field, optional_field, map_option, or_option, Bool-cases, inl, inr, if◌then◌else◌,
  is_empty, get_or_else,
}
use apply_agent.Prelude.Assoc.{lookup, insert}
use apply_agent.Api.AppError.{
  AppError, ErrorCode, code_text, ErrorAction, retry, reauth, contact, wait, fix_input, no_action,
}
use apply_agent.Api.AppError.Laws.{is_empty-code_text}
use apply_agent.Api.AppError.Infra.{Thrown}
use apply_agent.Api.AppError.TraceCode.{trace_code_from_trace_id}
use apply_agent.Api.AppError.Envelope.{
  ErrorEnvelope, envelope_json, action_json, non_empty, is_degraded_code, health_header,
  request_header, error_handler, app_error_of, Context,
}
use apply_agent.Web.ApiClient.{
  meta_of, extract_error_meta, text_of, object_of, extract_error_message, ApiError, after_fetch,
  responded, throws, is_ok, read_trace_headers, api_error,
}
use apply_agent.Web.Health.{HealthStatus, degraded, HealthState, report_api_health}

json_field-field :
    (key other : String) (v : Json) (rest : Fields)
    → json_field key (field other v rest) ≡ (if other == key then some v else json_field key rest)
unfolding json_field
json_field-field key other v rest = refl

json_field-end : (key : String) → json_field key end ≡ none
unfolding json_field
json_field-end key = refl

json_field-optional_field :
    (key other : String) (v : Option Json) (rest : Fields)
    → json_field key (optional_field other v rest)
      ≡ (if other == key then or_option v (json_field key rest) else json_field key rest)
unfolding json_field optional_field
json_field-optional_field key other none rest = elim (Bool-cases (other == key)) [
  | inl e ↦ rw e
  | inr e ↦ rw e
]
json_field-optional_field key other (some v) rest = refl

text_of-map_option : (s : Option String) → text_of (map_option str s) ≡ s
text_of-map_option none = refl
text_of-map_option (some s) = refl

object_of-action_json :
    (a : Option ErrorAction) → object_of (map_option action_json a) ≡ map_option action_json a
unfolding action_json
object_of-action_json none = refl
object_of-action_json (some (retry after)) = refl
object_of-action_json (some (reauth redirect)) = refl
object_of-action_json (some (contact channel)) = refl
object_of-action_json (some (wait until reason)) = refl
object_of-action_json (some (fix_input fields)) = refl
object_of-action_json (some no_action) = refl

or_option-none : {A : Type 0} (o : Option A) → or_option o none ≡ o
or_option-none none = refl
or_option-none (some a) = refl

extract_error_meta-envelope_json :
    (e : ErrorEnvelope)
    → extract_error_meta (envelope_json e) ≡ record {
      code = some (code_text e.code);
      message_key = e.message_key;
      trace_id = non_empty (some e.trace_id);
      trace_code = some e.trace_code;
      request_id = non_empty e.request_id;
      timestamp = some e.timestamp;
      action = map_option action_json e.action;
      details = e.details;
    }
unfolding extract_error_meta envelope_json meta_of
extract_error_meta-envelope_json e = simp (
  json_field-field, json_field-end, json_field-optional_field, or_option-none, text_of-map_option,
  object_of-action_json,
)

extract_error_message-envelope_json :
    (e : ErrorEnvelope) → extract_error_message (envelope_json e) ≡ e.message
unfolding extract_error_message envelope_json
extract_error_message-envelope_json e = simp json_field-field

non_empty_twice : (s : Option String) → non_empty (non_empty s) ≡ non_empty s
unfolding non_empty
non_empty_twice none = refl
non_empty_twice (some s) = elim (Bool-cases (is_empty s)) [ inl e ↦ rw e | inr e ↦ rw e (rw e) ]

-- The health that a page reads off an answer to an error with this code
abbrev pub health_seen : (cross_origin : Bool) → ErrorCode → Option HealthStatus
health_seen true code = none
health_seen false code = if is_degraded_code code then some degraded else none

-- The error that a page sees for an error of the gateway
abbrev pub seen :
    (cross_origin : Bool)
    → AppError
    → (trace_id : String) → (request_id : Option String) → (now : String) → ApiError
seen cross_origin e trace_id request_id now = record {
  status = e.status;
  message = e.message;
  code = some (code_text e.code);
  message_key = non_empty e.message_key;
  trace_id = non_empty (some trace_id);
  trace_code = some (trace_code_from_trace_id trace_id);
  request_id = non_empty request_id;
  timestamp = non_empty (some now);
  action = map_option action_json e.action;
  details = e.details;
  health_status = health_seen cross_origin e.code;
}

same_origin_headers :
    (code : ErrorCode) (trace_id : String) (request_id : Option String)
    → read_trace_headers
        (health_header code (request_header request_id (insert "x-trace-id" trace_id [])))
      ≡ record {
        trace_id = non_empty (some trace_id);
        request_id = non_empty request_id;
        health_status = health_seen false code;
      }
unfolding read_trace_headers health_header request_header insert lookup non_empty
same_origin_headers code trace_id none = elim (Bool-cases (is_degraded_code code)) [
  | inl e ↦ rw e
  | inr e ↦ rw e
]
same_origin_headers code trace_id (some r) = elim (Bool-cases (is_degraded_code code)) [
  | inl e ↦ elim (Bool-cases (is_empty r)) [ inl f ↦ rw (e, f) | inr f ↦ rw (e, f) (rw f) ]
  | inr e ↦ elim (Bool-cases (is_empty r)) [ inl f ↦ rw (e, f) | inr f ↦ rw (e, f) (rw f) ]
]

cross_origin_headers :
    (code : ErrorCode) (trace_id : String) (request_id : Option String)
    → readable (health_header code (request_header request_id (insert "x-trace-id" trace_id [])))
      ≡ []
unfolding readable health_header request_header insert
cross_origin_headers code trace_id none = elim (Bool-cases (is_degraded_code code)) [
  | inl e ↦ rw e
  | inr e ↦ rw e
]
cross_origin_headers code trace_id (some r) = elim (Bool-cases (is_degraded_code code)) [
  | inl e ↦ elim (Bool-cases (is_empty r)) [ inl f ↦ rw (e, f) | inr f ↦ rw (e, f) ]
  | inr e ↦ elim (Bool-cases (is_empty r)) [ inl f ↦ rw (e, f) | inr f ↦ rw (e, f) ]
]

or_option_self : {A : Type 0} (o : Option A) → or_option o o ≡ o
or_option_self none = refl
or_option_self (some a) = refl

non_empty-code_text : (c : ErrorCode) → non_empty (some (code_text c)) ≡ some (code_text c)
unfolding non_empty
non_empty-code_text c = rw (is_empty-code_text c)

no_headers :
    read_trace_headers [] ≡ record { trace_id = none; request_id = none; health_status = none }
unfolding read_trace_headers lookup non_empty
no_headers = refl

ruleset envelope = (
  extract_error_meta-envelope_json, extract_error_message-envelope_json, non_empty_twice,
  or_option_self, non_empty-code_text,
)

-- An error that the gateway sends arrives: whatever is thrown, a page throws an ApiError with the
-- same status, code, message, message key, ids, time, details and action. The page reads the health off
-- the header if it is of the gateway's own origin, and nothing otherwise. The status is that of an error.
pub gateway_error_arrives :
    (cross_origin : Bool) (status_text fresh now : String) (c : Context) (thrown : Thrown)
    (online : Option Bool) (clock : ℕ) (health : HealthState)
    → is_ok (app_error_of thrown).status ≡ false
    → after_fetch online clock
        (responded (receive cross_origin status_text (error_handler c fresh now thrown)))
        health
      ≡ (
        report_api_health
            (health_seen cross_origin (app_error_of thrown).code)
            (some (code_text (app_error_of thrown).code))
            (non_empty (some (get_or_else c.trace_id fresh)))
            clock
            health,
        throws (
            seen cross_origin
              (app_error_of thrown)
              (get_or_else c.trace_id fresh)
              c.request_id
              now),
      )
unfolding after_fetch receive error_handler api_error
gateway_error_arrives true status_text fresh now c thrown online clock health h =
    rw (h, cross_origin_headers, no_headers) (simp envelope)
gateway_error_arrives false status_text fresh now c thrown online clock health h =
    rw (h, same_origin_headers) (simp envelope)
