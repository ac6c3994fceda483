-- ===== src/Web/ApiClient/Origin.antt =====
-- What a page reads of the gateway's answer. api/src/index.ts: the CORS middleware lists the response
-- headers that a page of another origin may read; the browser hides the others from `res.headers`.
use apply_agent.Prelude.{String, ◌==◌, Bool, false, ◌||◌, some, List, [], ◌∷◌, ◌++◌, if◌then◌else◌}
use apply_agent.Prelude.Assoc.{Assoc}
use apply_agent.Api.AppError.Envelope.{Response}
use apply_agent.Web.ApiClient.{Received}

-- `RESUME_ARTIFACT_AUDIT_HEADER_NAMES`
abbrev audit_header_names : List String
audit_header_names =
    "x-relay-artifact-renderer-version" ∷ "x-relay-artifact-format" ∷ "x-relay-artifact-locale"
    ∷ "x-relay-artifact-length-budget" ∷ "x-relay-artifact-target-pages"
    ∷ "x-relay-artifact-page-count" ∷ "x-relay-artifact-within-budget" ∷ []

-- `exposeHeaders`, in lower case
abbrev expose_headers : List String
expose_headers =
    "content-disposition" ∷ "x-relay-artifact-compilation-id" ∷ "x-relay-artifact-application-id"
    ∷ "x-relay-artifact-purpose" ∷ audit_header_names

-- The response headers that the Fetch standard lets every page read.
abbrev safelisted : List String
safelisted =
    "cache-control" ∷ "content-language" ∷ "content-length" ∷ "content-type" ∷ "expires"
    ∷ "last-modified" ∷ "pragma" ∷ []

includes : List String → String → Bool
includes [] name = false
includes (n ∷ names) name = let rest = includes names name in (n == name) || rest

-- What the browser leaves of the headers
unfoldable pub readable : Assoc String → Assoc String
unfolding includes
readable [] = []
readable ((name, value) ∷ headers) =
    let rest = readable headers in
    if includes (expose_headers ++ safelisted) name then (name, value) ∷ rest else rest

-- The response of the gateway as a page receives it.
unfoldable pub receive : (cross_origin : Bool) → (status_text : String) → Response → Received
unfolding readable
receive cross_origin status_text r = record {
  status = r.status;
  status_text = status_text;
  headers = if cross_origin then readable r.headers else r.headers;
  body = some r.body;
}
