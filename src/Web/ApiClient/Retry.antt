-- ===== src/Web/ApiClient/Retry.antt =====
-- api.ts: the request that `apiOnce` sends, and `api`, which sends it a second time where that is safe.
pub mod Sends
use apply_agent.Prelude.{
  ℕ, ◌*◌, String, ◌<>◌, ◌==◌, Bool, false, ◌&&◌, ◌||◌, Option, none, some, [], ◌∷◌, Json, num, str,
  obj, Fields, pos, negsuc, min, nat_beq, json_field, truthy, is_empty, if◌then◌else◌, get_or_else,
  to_upper_case,
}
use apply_agent.Prelude.Assoc.{Assoc, insert}
use apply_agent.Web.ApiClient.{
  Fetched, Answer, returns, throws, throws_syntax_error, ApiError, after_fetch, text_of,
}
use apply_agent.Web.Health.{HealthState}

-- `RequestInit`, as far as `api` reads it
pub record Options : Type 0 where
  pub method : Option String
  pub headers : Assoc String
  pub body : Option String

pub record Request : Type 0 where
  pub path : String
  pub method : Option String
  pub headers : Assoc String
  pub body : Option String

-- `isIdempotent`
unfoldable pub is_idempotent : Option String → Bool
is_idempotent method =
    let m = to_upper_case (get_or_else method "GET") in (m == "GET") || (m == "HEAD")

-- `RETRYABLE_CODES.has`, where an empty code is none
unfoldable pub is_retryable : Option String → Bool
is_retryable none = false
is_retryable (some c) =
    (c == "DB_UNAVAILABLE") || (c == "CACHE_UNAVAILABLE") || (c == "UPSTREAM_TIMEOUT")

-- `action?.kind === "retry"`, then `action.after`
unfoldable pub after_of : Option Json → Option Json
after_of (some (obj a)) =
    if get_or_else (text_of (json_field "kind" a)) "" == "retry" then json_field "after" a else none
after_of _ = none

-- `Math.min(after * 1000, 2000)`; the timer takes a negative delay, and one that is no number, as 0.
delay_of : Json → ℕ
delay_of (num (pos n)) = min (n * 1000) 2000
delay_of _ = 0

-- `hintMs`
unfoldable pub hint_ms : Option Json → ℕ
unfolding delay_of after_of
hint_ms action = elim (after_of action) [
  | none ↦ 600
  | some after ↦ if truthy after then delay_of after else 600
]

-- `{ ...defaults, ...options.headers }`
unfoldable pub spread : Assoc String → Assoc String → Assoc String
spread base [] = base
spread base ((name, value) ∷ more) = spread (insert name value base) more

unfoldable pub authorize : Option String → Assoc String → Assoc String
authorize none headers = headers
authorize (some token) headers =
    if is_empty token then headers else insert "Authorization" ("Bearer " <> token) headers

-- What the browser holds for the client: `getToken()` and `getClientLocale()`.
pub record Page : Type 0 where
  pub token : Option String
  pub locale : String

unfoldable pub request_of : Page → String → Options → Request
unfolding spread authorize
request_of page path o = record {
  path = path;
  method = o.method;
  headers = authorize page.token (
      spread (("Content-Type", "application/json") ∷ ("X-Relay-Locale", page.locale) ∷ [])
        o.headers);
  body = o.body;
}

-- The browser: `fetch`, with the timer that aborts it, `setTimeout`, `navigator.onLine` and the clock.
pub record Network : Type 1 where
  pub State : Type 0
  pub fetch : Request → State → State × Fetched
  pub sleep : ℕ → State → State
  pub online : State → Option Bool
  pub now : State → ℕ

module _ (net : Network) where
  -- `apiOnce`; the health store is part of the state.
  unfoldable pub api_once : Request → net.State → HealthState → (net.State × HealthState) × Answer
  api_once request s health =
      let (t, fetched) = net.fetch request s in
      let (after, answer) = after_fetch (net.online t) (net.now t) fetched health in
      ((t, after), answer)

  abbrev should_retry : Options → ApiError → Bool
  should_retry o e = is_retryable e.code && is_idempotent o.method

  unfoldable after_first :
      Request → Options → (net.State × HealthState) × Answer → (net.State × HealthState) × Answer
  after_first request o (s, returns v) = (s, returns v)
  after_first request o (s, throws_syntax_error) = (s, throws_syntax_error)
  after_first request o ((s, health), throws e) =
      let again = api_once request (net.sleep (hint_ms e.action) s) health in
      if should_retry o e then again else ((s, health), throws e)

  -- `api`
  unfoldable pub api :
      Page
      → (path : String) → Options
      → net.State
      → HealthState
      → (net.State × HealthState) × Answer
  unfolding after_first
  api page path o s health =
      let request = request_of page path o in after_first request o (api_once request s health)
