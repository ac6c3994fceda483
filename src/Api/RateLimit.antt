-- ===== src/Api/RateLimit.antt =====
-- middleware/rate-limit.ts: a fixed window of requests for each actor, counted in Redis.
pub mod Laws
pub mod Limits
mod Tests
use apply_agent.Prelude.{
  ℕ, ◌+◌, ◌-◌, ◌/◌, String, ◌<>◌, Bool, true, false, Option, none, some, List, [], ◌∷◌, leb,
  nat_beq, ℤ, pos, negsuc, if◌then◌else◌, is_empty, or_else, get_or_else, trim, before_comma,
}
use apply_agent.Api.Errors.{Result, ok, err, ApiError, rate_limited}
use apply_agent.Api.Redis.{Redis}

-- The request headers and the signed-in user that the actor is derived from.
pub record Caller : Type 0 where
  pub user_id : Option String
  pub forwarded_for : Option String
  pub real_ip : Option String

-- `defaultActorKey`
unfoldable pub default_actor_key : Caller → String
default_actor_key c =
    let user = get_or_else c.user_id "" in
    let ip =
      or_else (trim (before_comma (get_or_else c.forwarded_for "")))
        (or_else (get_or_else c.real_ip "") "unknown") in
    if is_empty user then "ip:" <> ip else "user:" <> user

pub record LimitResult : Type 0 where
  pub allowed : Bool
  pub remaining : ℕ
  pub reset_seconds : ℕ

pub record RateLimitOptions : Type 0 where
  pub scope : String
  pub limit : ℕ
  pub window_seconds : ℕ

-- `pttl > 0 ? Math.ceil(pttl / 1000) : windowSeconds`
unfoldable pub reset_of : ℤ → ℕ → ℕ
reset_of (negsuc n) window = window
reset_of (pos n) window = if nat_beq n 0 then window else (n + 999) / 1000

-- What the middleware does: it calls the handler, with the `X-RateLimit-…` headers where it has
-- them, or throws.
pub data Outcome : Type 0 where
  proceed : Option LimitResult → Outcome
  reject : ApiError → Outcome

-- `rl:${scope}:${actor}`
abbrev pub limiter_key : RateLimitOptions → String → String
limiter_key o actor = "rl:" <> (o.scope <> (":" <> actor))

module _ (redis : Redis) where
  report : (count limit window : ℕ) → redis.State × Result ℤ → redis.State × Result LimitResult
  report count limit window (s, err e) = (s, err e)
  report count limit window (s, ok pttl) = (
    s,
    ok (record {
      allowed = leb count limit;
      remaining = limit - count;
      reset_seconds = reset_of pttl window;
    }),
  )

  after_expire :
      String
      → (count limit window : ℕ) → redis.State × Result (Unit {0})
      → redis.State × Result LimitResult
  after_expire key count limit window (s, err e) = (s, err e)
  after_expire key count limit window (s, ok u) = report count limit window (redis.pttl key s)

  after_incr :
      String → (limit window : ℕ) → redis.State × Result ℕ → redis.State × Result LimitResult
  after_incr key limit window (s, err e) = (s, err e)
  after_incr key limit window (s, ok count) =
      if nat_beq count 1
      then after_expire key count limit window (redis.expire key window s)
      else report count limit window (redis.pttl key s)

  -- `consume`
  unfoldable pub consume :
      String → (limit window_seconds : ℕ) → redis.State → redis.State × Result LimitResult
  unfolding after_incr after_expire report
  consume key limit window s = after_incr key limit window (redis.incr key s)

  decide : RateLimitOptions → redis.State × Result LimitResult → redis.State × Outcome
  decide o (s, err e) = (s, proceed none)
  decide o (s, ok r) =
      if r.allowed
      then (s, proceed (some r))
      else (s, reject (rate_limited o.scope o.limit o.window_seconds r.reset_seconds))

  -- The handler that `rateLimit` returns; an actor `none` is not limited.
  unfoldable pub rate_limit : RateLimitOptions → Option String → redis.State → redis.State × Outcome
  unfolding decide
  rate_limit o none s = (s, proceed none)
  rate_limit o (some actor) s = decide o (consume (limiter_key o actor) o.limit o.window_seconds s)
