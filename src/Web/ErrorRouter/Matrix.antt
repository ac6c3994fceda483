-- ===== src/Web/ErrorRouter/Matrix.antt =====
-- errors/resolve.ts: `rowFor`, the decision matrix from a code and a page to a surface, a severity and
-- the calls to action.
use apply_agent.Prelude.{
  String, ◌==◌, Bool, true, false, ◌||◌, Option, none, some, List, [], ◌∷◌, if◌then◌else◌,
}

pub data SurfaceKind : Type 0 where
  toast inline banner full_page silent : SurfaceKind

pub data Severity : Type 0 where
  info warning error critical : Severity

pub data CtaId : Type 0 where
  retry reauth report open_doc dismiss contact : CtaId

pub data PageName : Type 0 where
  auth dock studio_resume studio_mock applications today trends settings generic : PageName

pub record ErrorContext : Type 0 where
  pub page : Option PageName
  pub in_form : Bool

pub record Row : Type 0 where
  pub surface : SurfaceKind
  pub severity : Severity
  pub cta_ids : List CtaId

is_auth_page : Option PageName → Bool
is_auth_page (some auth) = true
is_auth_page _ = false

is_chat_page : Option PageName → Bool
is_chat_page (some dock) = true
is_chat_page (some studio_mock) = true
is_chat_page _ = false

abbrev row : SurfaceKind → Severity → List CtaId → Row
row surface severity ids = record { surface = surface; severity = severity; cta_ids = ids }

unfoldable pub one_of : List String → String → Bool
one_of [] code = false
one_of (c ∷ cs) code = let rest = one_of cs code in (c == code) || rest

form_codes : List String
form_codes = "VALIDATION_FAILED" ∷ "INPUT_FORMAT_UNSUPPORTED" ∷ []

login_codes : List String
login_codes = "AUTH_INVALID_CREDENTIALS" ∷ "AUTH_EMAIL_NOT_VERIFIED" ∷ "AUTH_REQUIRED" ∷ []

notice_codes : List String
notice_codes = "AUTH_FORBIDDEN" ∷ "RESOURCE_NOT_FOUND" ∷ "RESOURCE_CONFLICT" ∷ "RESOURCE_GONE" ∷ []

unfoldable pub infra_codes : List String
infra_codes =
    "DB_UNAVAILABLE" ∷ "CACHE_UNAVAILABLE" ∷ "UPSTREAM_UNAVAILABLE" ∷ "UPSTREAM_TIMEOUT" ∷ []

-- The cases for LLM_…, AGENT_…, NETWORK_… and CLIENT_… codes, and the default.
row_of_service : String → ErrorContext → Row
unfolding is_chat_page one_of
row_of_service code ctx =
    if code == "LLM_UNAVAILABLE"
    then row (if is_chat_page ctx.page then inline else toast) error (retry ∷ report ∷ [])
    else if code == "LLM_BUDGET_EXHAUSTED"
    then row toast warning (contact ∷ [])
    else if code == "LLM_CONTENT_REFUSED"
    then row inline warning (dismiss ∷ [])
    else if code == "LLM_FABRICATION_BLOCKED"
    then row inline warning (open_doc ∷ [])
    else if (code == "AGENT_TIMEOUT") || (code == "AGENT_TASK_FAILED")
    then row toast error (retry ∷ report ∷ [])
    else if code == "AGENT_INTERRUPT_PENDING"
    then row silent info []
    else if code == "NETWORK_OFFLINE"
    then row banner warning (dismiss ∷ [])
    else if code == "NETWORK_BLOCKED"
    then row banner warning (open_doc ∷ [])
    else if code == "CLIENT_VERSION_STALE"
    then row banner info (retry ∷ [])
    else row toast error (retry ∷ report ∷ [])

row_of_code : String → ErrorContext → Row
unfolding is_auth_page one_of form_codes login_codes notice_codes infra_codes row_of_service
row_of_code code ctx =
    if one_of form_codes code
    then row (if ctx.in_form || is_auth_page ctx.page then inline else toast) warning []
    else if one_of login_codes code
    then row (if is_auth_page ctx.page then inline else toast) warning
        (if code == "AUTH_REQUIRED" then reauth ∷ [] else dismiss ∷ [])
    else if code == "AUTH_SESSION_EXPIRED"
    then row banner warning (reauth ∷ [])
    else if one_of notice_codes code
    then row toast warning (dismiss ∷ [])
    else if code == "RATE_LIMITED"
    then row toast warning (dismiss ∷ [])
    else if code == "QUOTA_EXCEEDED"
    then row toast warning (contact ∷ [])
    else if one_of infra_codes code
    then row toast error (retry ∷ report ∷ [])
    else row_of_service code ctx

-- `rowFor`
unfoldable pub row_for : Option String → ErrorContext → Row
unfolding row_of_code
row_for none ctx = row toast error (retry ∷ report ∷ [])
row_for (some code) ctx = row_of_code code ctx
