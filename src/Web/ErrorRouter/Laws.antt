-- ===== src/Web/ErrorRouter/Laws.antt =====
-- What the user sees of the errors of the gateway.
use apply_agent.Prelude.{
  ℕ, String, Bool, true, false, Option, none, some, [], ◌∷◌, ◌≡◌, refl, ◌∙◌, ap, inl, inr, num, pos,
  json_field, optional_field, get_or_else, is_some, if◌then◌else◌, Option-cases, Bool-cases,
}
use apply_agent.Api.AppError.{AppError, code_text}
use apply_agent.Api.AppError.Infra.{native, NativeError, translate_infra_error}
use apply_agent.Api.AppError.Errors.{db_unavailable, cache_unavailable, upstream_timeout}
use apply_agent.Api.AppError.Envelope.{
  Context, error_handler, is_degraded_code, non_empty, action_json,
}
use apply_agent.Api.AppError.Outage.{
  IsOutage, db, cache, timeout, translated-IsOutage, app_error_of-translated,
}
use apply_agent.Web.ApiClient.{ApiError, after_fetch, responded, throws, is_ok}
use apply_agent.Web.Health.{HealthState, degraded, report_api_health}
use apply_agent.Web.ApiClient.Origin.{receive}
use apply_agent.Web.ApiClient.Laws.{seen, health_seen, gateway_error_arrives}
use apply_agent.Web.ErrorRouter.Matrix.{retry, report, ErrorContext, toast, error, row_for}
use apply_agent.Web.ErrorRouter.{
  after, ResolvedError, api, resolve_error, is_degraded, cta_for, cta_ids_for, titles_of,
}
use apply_agent.Web.ErrorRouter.Codes.{is_some-keys_for, is_degraded_text-code_text}

degraded_seen :
    (cross : Bool) (e : AppError) (id : String) (rid : Option String) (now : String)
    → is_degraded (api (seen cross e id rid now)) ≡ is_degraded_code e.code
unfolding is_degraded
degraded_seen true e id rid now = is_degraded_text-code_text e.code
degraded_seen false e id rid now = elim (Bool-cases (is_degraded_code e.code)) [
  | inl p ↦ rw p
  | inr p ↦ rw p (is_degraded_text-code_text e.code ∙ p)
]

titles_seen :
    (cross : Bool) (e : AppError) (id : String) (rid : Option String) (now : String)
    → is_some (titles_of (seen cross e id rid now)) ≡ true
unfolding titles_of
titles_seen cross e id rid now = elim (Option-cases (non_empty e.message_key)) [
  | inl p ↦ rw p (is_some-keys_for e.code)
  | inr (k, p) ↦ rw p
]

titles_resolve :
    (e : ApiError) (ctx : ErrorContext)
    → is_some (titles_of e) ≡ true
    → is_some (resolve_error (api e) ctx) ≡ true
unfolding resolve_error
titles_resolve e ctx h = elim (Option-cases (titles_of e)) [
  | inl p ↦ (let nothing : false ≡ true = rw p at h in cc)
  | inr (k, p) ↦ rw (p, is_some)
]

-- Every error of the gateway that a page sees, from either origin: it resolves to a title, a body and
-- calls to action, and `isDegraded` holds of it exactly if the gateway counts its code as degraded.
pub seen_error_resolves :
    (cross_origin : Bool) (e : AppError) (trace_id : String) (request_id : Option String)
    (now : String) (ctx : ErrorContext)
    → (is_some (resolve_error (api (seen cross_origin e trace_id request_id now)) ctx) ≡ true)
      × (is_degraded (api (seen cross_origin e trace_id request_id now)) ≡ is_degraded_code e.code)
seen_error_resolves cross e id rid now ctx = (
  titles_resolve (seen cross e id rid now) ctx (titles_seen cross e id rid now),
  degraded_seen cross e id rid now,
)

-- The toast with its two calls to action
abbrev pub ShowsOutage : Option ResolvedError → Type 0
ShowsOutage none = ⊥
ShowsOutage (some r) =
    (r.surface ≡ toast)
    × (r.severity ≡ error)
    × (r.ctas
        ≡ record {
          id = retry;
          label_key = "errors._common.retry";
          payload = some (after (some (num (pos 5))));
        }
          ∷ record { id = report; label_key = "errors._common.reportProblem"; payload = none }
          ∷ [])

outage_status : (a : AppError) → IsOutage a → is_ok a.status ≡ false
unfolding is_ok db_unavailable cache_unavailable upstream_timeout
outage_status _ (db m) = refl
outage_status _ (cache m) = refl
outage_status _ (timeout m) = refl

outage_code : (a : AppError) → IsOutage a → is_degraded_code a.code ≡ true
unfolding is_degraded_code db_unavailable cache_unavailable upstream_timeout
outage_code _ (db m) = refl
outage_code _ (cache m) = refl
outage_code _ (timeout m) = refl

outage_resolves :
    (cross : Bool) (id : String) (rid : Option String) (now : String) (ctx : ErrorContext)
    (a : AppError)
    → IsOutage a
    → ShowsOutage (resolve_error (api (seen cross a id rid now)) ctx)
unfolding resolve_error row_for cta_for cta_ids_for titles_of db_unavailable cache_unavailable
    upstream_timeout code_text action_json json_field non_empty optional_field
outage_resolves cross id rid now ctx _ (db m) = (refl, refl, refl)
outage_resolves cross id rid now ctx _ (cache m) = (refl, refl, refl)
outage_resolves cross id rid now ctx _ (timeout m) = (refl, refl, refl)

outage_health :
    (cross : Bool) (a : AppError) (id : Option String) (clock : ℕ) (health : HealthState)
    → IsOutage a
    → report_api_health (health_seen cross a.code) (some (code_text a.code)) id clock health ≡ (
        if cross then health else record {
          status = degraded;
          code = some (code_text a.code);
          trace_id = id;
          updated_at = clock;
        })
unfolding report_api_health
outage_health true a id clock health o = refl
outage_health false a id clock health o = rw (outage_code a o)

-- An exception of the infrastructure that the gateway recognises, as a page sees it. What the code does
-- is not what section 4.3.3 of docs/architecture/error-handling.md asks for, a global banner and no
-- toast for DB_UNAVAILABLE and CACHE_UNAVAILABLE: the page shows a toast that offers to retry after 5
-- seconds and to report, and the health store, which drives the banner, says "degraded", with the code
-- and the trace id, only if the page is of the gateway's origin. To a page of another origin the gateway
-- does not expose the header, and the health store stays as it is, so that it has the toast alone.
pub outage_is_shown :
    (cross_origin : Bool) (status_text fresh now : String) (c : Context) (e : NativeError)
    (a : AppError) (online : Option Bool) (clock : ℕ) (health : HealthState) (ctx : ErrorContext)
    → translate_infra_error (native e) ≡ some a
    → (w : ApiError) × (after_fetch online clock
          (responded (receive cross_origin status_text (error_handler c fresh now (native e))))
          health
        ≡ (
          if cross_origin then health else record {
            status = degraded;
            code = some (code_text a.code);
            trace_id = non_empty (some (get_or_else c.trace_id fresh));
            updated_at = clock;
          },
          throws w,
        ))
      × ShowsOutage (resolve_error (api w) ctx)
outage_is_shown cross text fresh now c e a online clock health ctx h =
    let id = get_or_else c.trace_id fresh in
    let outage = translated-IsOutage e a h in
    let same = app_error_of-translated e a h in
    let arrives = gateway_error_arrives cross text fresh now c (native e) online clock health in
    let health_after = outage_health cross a (non_empty (some id)) clock health outage in
    let answer = throws (seen cross a id c.request_id now) in
    (
      seen cross a id c.request_id now,
      (rw same at arrives) (outage_status a outage) ∙ ap (λ s. (s, answer)) health_after,
      outage_resolves cross id c.request_id now ctx a outage,
    )
