-- ===== src/Web/ErrorRouter.antt =====
-- errors/resolve.ts: what the user sees of an error; Matrix has the decision, Keys the texts.
pub mod Keys
pub mod Matrix
mod Codes
pub mod Laws
mod Tests
use apply_agent.Prelude.{
  zero, suc, String, ◌<>◌, ◌==◌, Bool, true, false, ◌||◌, Option, none, some, List, [], ◌∷◌, map,
  Json, num, str, obj, pos, negsuc, ℤ, json_field, truthy, is_empty, if◌then◌else◌, get_or_else,
}
use apply_agent.Web.ApiClient.{ApiError, api_error, ErrorMeta, text_of, no_meta}
use apply_agent.Web.Health.{HealthStatus, degraded}
use apply_agent.Web.ErrorRouter.Matrix.{
  SurfaceKind, toast, inline, banner, full_page, silent, Severity, info, warning, error, critical,
  CtaId, retry, reauth, report, open_doc, dismiss, contact, PageName, auth, dock, studio_resume,
  studio_mock, applications, today, trends, settings, generic, ErrorContext, Row, row_for, one_of,
  infra_codes,
}
use apply_agent.Web.ErrorRouter.Keys.{Titles, keys_for, message_key_to_title_body}

-- `data` of a call to action: the wait of a retry, where it has one, or the address of a login.
pub data CtaData : Type 0 where
  after : Option Json → CtaData
  redirect : Option Json → CtaData

pub record Cta : Type 0 where
  pub id : CtaId
  pub label_key : String
  pub payload : Option CtaData

-- `CTA_LABEL_KEYS`
cta_label_key : CtaId → String
cta_label_key retry = "errors._common.retry"
cta_label_key reauth = "errors._common.signIn"
cta_label_key report = "errors._common.reportProblem"
cta_label_key open_doc = "errors._common.learnMore"
cta_label_key dismiss = "errors._common.dismiss"
cta_label_key contact = "errors._common.contact"

-- A property of the action's object
action_field : String → Option Json → Option Json
action_field key (some (obj a)) = json_field key a
action_field key _ = none

abbrev has_kind : String → Option Json → Bool
has_kind kind action = get_or_else (text_of (action_field "kind" action)) "" == kind

payload_for : CtaId → Option Json → Option CtaData
unfolding action_field
payload_for retry action =
    if has_kind "retry" action then some (after (action_field "after" action)) else none
payload_for reauth action =
    if has_kind "reauth" action then some (redirect (action_field "redirect" action)) else none
payload_for _ action = none

-- `ctaFor`
unfoldable pub cta_for : CtaId → Option Json → Cta
unfolding cta_label_key payload_for
cta_for id action = record {
  id = id;
  label_key = cta_label_key id;
  payload = payload_for id action;
}

is_report : CtaId → Bool
is_report report = true
is_report _ = false

only_reports : List CtaId → List CtaId
only_reports [] = []
only_reports (id ∷ ids) = let rest = only_reports ids in if is_report id then id ∷ rest else rest

-- The ids that are left where the server recommends to do nothing
unfoldable pub cta_ids_for : List CtaId → Option Json → List CtaId
unfolding only_reports is_report action_field
cta_ids_for ids action = if has_kind "none" action then only_reports ids else ids

-- `bodyVars`: the entries of the object, `none` where it is missing.
pub record BodyVars : Type 0 where
  pub seconds : Option ℤ
  pub spent_cents : Option ℤ

abbrev number_of : Option Json → Option ℤ
number_of (some (num n)) = some n
number_of _ = none

details_field : String → Option Json → Option ℤ
details_field key (some (obj d)) = number_of (json_field key d)
details_field key _ = none

-- `action.after` of a retry, where it is truthy
retry_seconds : Option Json → Option ℤ
unfolding action_field
retry_seconds action =
    let after = number_of (action_field "after" action) in
    if has_kind "retry" action
    then elim after [
      | none ↦ none
      | some (pos zero) ↦ none
      | some (pos (suc n)) ↦ some (pos (suc n))
      | some (negsuc n) ↦ some (negsuc n)
    ]
    else none

over : Option ℤ → Option ℤ → Option ℤ
over none old = old
over (some new) old = some new

-- `bodyVarsFor`
unfoldable pub body_vars_for : ApiError → BodyVars
unfolding details_field retry_seconds over
body_vars_for e = record {
  seconds = over (details_field "retryAfterSeconds" e.details) (retry_seconds e.action);
  spent_cents = details_field "spentCents" e.details;
}

pub record Copyable : Type 0 where
  pub trace_id : Option String
  pub trace_code : Option String
  pub request_id : Option String
  pub timestamp : Option String
  pub code : Option String

pub record ResolvedError : Type 0 where
  pub surface : SurfaceKind
  pub severity : Severity
  pub titles : Titles
  pub body_vars : BodyVars
  pub ctas : List Cta
  pub trace_code : Option String
  pub copyable : Copyable

-- What a page has caught: an ApiError, another `Error` with its message, or another value.
pub data Caught : Type 0 where
  api : ApiError → Caught
  plain : (message : String) → Caught
  value : Caught

synthetic : String → ApiError
synthetic message =
    api_error 0 message
      (record no_meta { code = some "INTERNAL"; message_key = some "errors.system.internal" }) none

unfoldable pub api_error_of : Caught → ApiError
unfolding synthetic
api_error_of (api e) = e
api_error_of (plain message) = synthetic message
api_error_of value = synthetic "Unknown error"

unfoldable titles_of : ApiError → Option Titles
titles_of e = elim e.message_key [
  | some key ↦ some (message_key_to_title_body key)
  | none ↦ keys_for e.code
]

-- `resolveError`; `none` is the TypeError that `keysFor` may throw.
unfoldable pub resolve_error : Caught → ErrorContext → Option ResolvedError
unfolding titles_of api_error_of
resolve_error caught ctx =
    let e = api_error_of caught in
    let row = row_for e.code ctx in
    elim (titles_of e) [
      | none ↦ none
      | some titles ↦ some (record {
        surface = row.surface;
        severity = row.severity;
        titles = titles;
        body_vars = body_vars_for e;
        ctas = map (λ id. cta_for id e.action) (cta_ids_for row.cta_ids e.action);
        trace_code = e.trace_code;
        copyable = record {
          trace_id = e.trace_id;
          trace_code = e.trace_code;
          request_id = e.request_id;
          timestamp = e.timestamp;
          code = e.code;
        };
      })
    ]

unfoldable pub is_degraded_text : String → Bool
unfolding one_of infra_codes
is_degraded_text code = one_of infra_codes code || (code == "LLM_UNAVAILABLE")

-- `isDegraded`
unfoldable pub is_degraded : Caught → Bool
unfolding is_degraded_text
is_degraded (api e) = elim e.health_status [
  | some degraded ↦ true
  | _ ↦ is_degraded_text (get_or_else e.code "")
]
is_degraded _ = false
