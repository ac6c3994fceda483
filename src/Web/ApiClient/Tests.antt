-- ===== src/Web/ApiClient/Tests.antt =====
-- The web client at concrete answers, and the witnesses of the theorems about it.
use apply_agent.Prelude.{
  ℕ, suc, ◌≡◌, refl, true, none, some, [], num, str, obj, field, end, pos, json_field, nat_beq,
  if◌then◌else◌, to_upper_case, upper,
}
use apply_agent.Api.AppError.{AppError, code_text}
use apply_agent.Api.AppError.Errors.{conflict}
use apply_agent.Api.AppError.Infra.{app}
use apply_agent.Api.AppError.Envelope.{Context, app_error_of, error_handler, non_empty}
use apply_agent.Web.ApiClient.{
  extract_error_meta, api_error, Fetched, responded, throws, after_fetch, is_ok,
}
use apply_agent.Web.Health.{healthy, report_api_health}
use apply_agent.Web.ApiClient.Origin.{receive}
use apply_agent.Web.ApiClient.Laws.{gateway_error_arrives, seen, health_seen}
use apply_agent.Web.ApiClient.Retry.{
  is_retryable, Network, Options, Page, api, api_once, request_of, is_idempotent,
}
use apply_agent.Web.ApiClient.Retry.Sends.{Counts, Sent, api-Sent}

abbrev context : Context
context = record {
  trace_id = some "9b2f41c8-77de-4c11-9a51-000000000000";
  request_id = some "req-1";
}

abbrev stale : AppError
unfolding conflict
stale = conflict "Version conflict" (some (obj (field "version" (num (pos 4)) end)))

gateway_error_arrives_example :
    after_fetch
      (some true)
      10
      (responded (receive true "Conflict" (error_handler context "fresh" "now" (app stale))))
      healthy
    ≡ (
      report_api_health
          (health_seen true (app_error_of (app stale)).code)
          (some (code_text (app_error_of (app stale)).code))
          (non_empty (some "9b2f41c8-77de-4c11-9a51-000000000000"))
          10
          healthy,
      throws (
          seen true
            (app_error_of (app stale))
            "9b2f41c8-77de-4c11-9a51-000000000000"
            (some "req-1")
            "now"),
    )
unfolding app_error_of is_ok stale
gateway_error_arrives_example =
    gateway_error_arrives true "Conflict" "fresh" "now" context (app stale) (some true) 10 healthy
      refl

-- A gateway whose pool is restarting: the first answer is an error, the later ones are not.
abbrev restarting : ℕ → Fetched
restarting n =
    if nat_beq n 0
    then responded (record {
      status = 503;
      status_text = "Service Unavailable";
      headers = [];
      body = some (
          obj (
            field "error"
              (obj (field "code" (str "DB_UNAVAILABLE") (field "message" (str "down") end))) end));
    })
    else responded
        (record { status = 200; status_text = "OK"; headers = []; body = some (num (pos 7)) })

abbrev network : Network
network = record {
  State = ℕ;
  fetch = λ r n. (suc n, restarting n);
  sleep = λ ms n. n;
  online = λ n. some true;
  now = λ n. n;
}

abbrev counts : Counts network
counts = record { count = λ n. n; count-fetch = λ r n. refl; count-sleep = λ ms n. refl }

abbrev page : Page
page = record { token = some "t"; locale = "en" }

abbrev get_options : Options
get_options = record { method = none; headers = []; body = none }

api-Sent_example :
    Sent network counts get_options 0
      (api network page "/api/jobs" get_options 0 healthy).0.0
      (api_once network (request_of page "/api/jobs" get_options) 0 healthy).1
api-Sent_example = api-Sent network counts page "/api/jobs" get_options 0 healthy

get_is_retried : (api network page "/api/jobs" get_options 0 healthy).0.0 ≡ 2
unfolding api api_once after_fetch is_retryable api_error non_empty extract_error_meta json_field
    is_idempotent to_upper_case upper
get_is_retried = refl

post_is_not_retried :
    (api network page "/api/jobs" (record get_options { method = some "post" }) 0 healthy).0.0 ≡ 1
unfolding api api_once after_fetch is_retryable api_error non_empty extract_error_meta json_field
    is_idempotent to_upper_case upper
post_is_not_retried = refl
