-- ===== src/Web/ApiClient/Retry/Sends.antt =====
-- How often `api` sends its request.
use apply_agent.Prelude.{
  ℕ, suc, String, Bool, true, false, ◌≡◌, refl, ◌∙◌, ap, ◌⊎◌, inl, inr, Bool-cases, ◌&&◌,
}
use apply_agent.Web.ApiClient.{Answer, returns, throws, throws_syntax_error, ApiError}
use apply_agent.Web.Health.{HealthState}
use apply_agent.Web.ApiClient.Retry.{
  Network, Options, Request, Page, api, api_once, after_first, request_of, is_idempotent,
  is_retryable, hint_ms,
}

-- A network that counts the requests which go out.
pub record Counts (net : Network) : Type 0 where
  pub count : net.State → ℕ
  pub count-fetch : (r : Request) (s : net.State) → count (net.fetch r s).0 ≡ suc (count s)
  pub count-sleep : (ms : ℕ) (s : net.State) → count (net.sleep ms s) ≡ count s

and_cases : (a b : Bool) → (a && b) ≡ true → (a ≡ true) × (b ≡ true)
and_cases true true h = (refl, refl)
and_cases true false h = cc
and_cases false b h = cc

module _ (net : Network) (k : Counts net) where
  -- One request, or a second one after an error that may be retried, for a method that is safe.
  abbrev pub Sent : Options → (before after : ℕ) → Answer → Type 0
  Sent o before after first =
      (after ≡ suc before)
      ⊎ ((after ≡ suc (suc before))
          × (is_idempotent o.method ≡ true)
          × ((e : ApiError) × (first ≡ throws e) × (is_retryable e.code ≡ true)))

  count-api_once :
      (r : Request) (s : net.State) (h : HealthState)
      → k.count (api_once net r s h).0.0 ≡ suc (k.count s)
  unfolding api_once
  count-api_once r s h = k.count-fetch r s

  after_first-Sent :
      (r : Request) (o : Options) (n : ℕ) (first : (net.State × HealthState) × Answer)
      → k.count first.0.0 ≡ suc n
      → Sent o n (k.count (after_first net r o first).0.0) first.1
  unfolding after_first
  after_first-Sent r o n (s, returns v) e = inl e
  after_first-Sent r o n (s, throws_syntax_error) e = inl e
  after_first-Sent r o n ((s, h), throws t) e =
      elim (Bool-cases (is_retryable t.code && is_idempotent o.method)) [
        | inl y ↦
            let (a, b) = and_cases (is_retryable t.code) (is_idempotent o.method) y in
            let again =
              count-api_once r (net.sleep (hint_ms t.action) s) h
              ∙ ap suc (k.count-sleep (hint_ms t.action) s ∙ e) in
            rw y (inr (again, b, (t, refl, a)))
        | inr n' ↦ rw n' (inl e)
      ]

  -- `api` sends its request once; it sends it a second time only if the method is GET or HEAD and the
  -- first answer was an error with a code that may be retried, and never a third time.
  pub api-Sent :
      (page : Page) (path : String) (o : Options) (s : net.State) (h : HealthState)
      → Sent o
          (k.count s)
          (k.count (api net page path o s h).0.0)
          (api_once net (request_of page path o) s h).1
  unfolding api
  api-Sent page path o s h =
      let r = request_of page path o in
      after_first-Sent r o (k.count s) (api_once net r s h) (count-api_once r s h)
