-- ===== src/Web/ErrorRouter/Tests.antt =====
-- The error router at concrete errors, and the witness of the theorem about an outage.
use apply_agent.Prelude.{
  ◌≡◌, refl, true, false, none, some, if◌then◌else◌, to_lower_case, lower, upper,
}
use apply_agent.Api.AppError.{code_text}
use apply_agent.Api.AppError.Errors.{not_found}
use apply_agent.Api.AppError.Infra.{native, NativeError, translate_infra_error}
use apply_agent.Api.AppError.Errors
use apply_agent.Api.AppError.Envelope.{Context, error_handler, non_empty}
use apply_agent.Web.ApiClient.{ApiError, responded, throws, after_fetch}
use apply_agent.Web.Health.{healthy, degraded}
use apply_agent.Web.ApiClient.Origin.{receive}
use apply_agent.Web.ErrorRouter.Matrix.{ErrorContext, auth}
use apply_agent.Web.ErrorRouter.{api, resolve_error}
use apply_agent.Web.ErrorRouter.Keys.{message_key_to_title_body, keys_for, remap_domain}
use apply_agent.Web.ErrorRouter.Laws.{outage_is_shown, ShowsOutage}

db_key :
    keys_for (some "DB_UNAVAILABLE")
    ≡ some (record {
      title_key = "errors.system.unavailable.title";
      body_key = "errors.system.unavailable.body";
    })
unfolding keys_for remap_domain to_lower_case lower upper message_key_to_title_body
db_key = refl

-- A code with an empty part after the second one throws.
odd_code_throws : keys_for (some "QUOTA_DAILY_") ≡ none
unfolding keys_for remap_domain to_lower_case lower upper
odd_code_throws = refl

abbrev context : Context
context = record {
  trace_id = some "9b2f41c8-77de-4c11-9a51-000000000000";
  request_id = some "req-1";
}

abbrev on_login : ErrorContext
on_login = record { page = some auth; in_form = false }

abbrev dead_pool : NativeError
dead_pool = record {
  name = "Error";
  message = "Connection terminated unexpectedly";
  stack = none;
  code = none;
}

dead_pool_is_translated :
    translate_infra_error (native dead_pool) ≡ some (Errors.db_unavailable (some dead_pool.message))
unfolding translate_infra_error lower
dead_pool_is_translated = refl

outage_is_shown_example :
    (w : ApiError) × (after_fetch
        (some true)
        10
        (responded (
          receive true "Service Unavailable"
            (error_handler context "fresh" "now" (native dead_pool))))
        healthy
      ≡ (
        if true then healthy else record {
          status = degraded;
          code = some (code_text (Errors.db_unavailable (some dead_pool.message)).code);
          trace_id = non_empty (some "9b2f41c8-77de-4c11-9a51-000000000000");
          updated_at = 10;
        },
        throws w,
      ))
    × ShowsOutage (resolve_error (api w) on_login)
outage_is_shown_example =
    outage_is_shown true "Service Unavailable" "fresh" "now" context dead_pool
      (Errors.db_unavailable (some dead_pool.message)) (some true) 10 healthy on_login
      dead_pool_is_translated
