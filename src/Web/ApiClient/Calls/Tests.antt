-- ===== src/Web/ApiClient/Calls/Tests.antt =====
-- Calls of the client at concrete values, and the witness of the theorem about them.
use apply_agent.Prelude.{
  ℕ, suc, String, ◌≡◌, refl, none, some, List, [], ◌∷◌, text_host, to_decimal,
}
use apply_agent.Api.Memory.{memory, no_keys}
use apply_agent.Api.Idempotency.{Response, Codec, respond}
use apply_agent.Web.ApiClient.Retry.{Page}
use apply_agent.Web.ApiClient.Calls.{prepare, JobCall}
use apply_agent.Web.ApiClient.Calls.Requests.{jobs}
use apply_agent.Web.ApiClient.Calls.Laws.{
  AnyCall, to_applications, unkeyed_calls_run_each, serve, all_arrive, runs,
}

abbrev plain : String → String
plain s = s

abbrev page : Page
page = record { token = some "t0"; locale = "en" }

-- It reads nothing back.
abbrev codec : Codec
codec = record { encode = λ p. ""; decode = λ raw. none }

-- The handler makes a draft with the next number.
abbrev make_draft : ℕ → ℕ × Response
make_draft n = (
  suc n,
  record { status = 201; body = some (to_decimal n); content_type = some "application/json" },
)

-- The same click twice
abbrev clicks : List AnyCall
clicks = to_applications (prepare "j1" none none) ∷ to_applications (prepare "j1" none none) ∷ []

unkeyed_calls_run_each_example :
    serve memory text_host codec plain make_draft
      (all_arrive memory text_host codec plain make_draft text_host plain plain "uuid" page "u1"
        clicks)
      no_keys
      0
    ≡ (no_keys, 2, respond (make_draft 0).1 ∷ respond (make_draft 1).1 ∷ [])
unfolding runs
unkeyed_calls_run_each_example =
    unkeyed_calls_run_each memory text_host codec plain make_draft text_host plain plain "uuid" page
      "u1" clicks no_keys 0 (refl, (refl, tt))

-- A limit of 0 is not sent.
no_limit :
    (jobs text_host plain plain "uuid" (JobCall.list (some "go") (some 0) (some 20))).path
    ≡ "/api/jobs?search=go&offset=20"
unfolding jobs to_decimal
no_limit = refl
