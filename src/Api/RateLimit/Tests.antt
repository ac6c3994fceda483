-- ===== src/Api/RateLimit/Tests.antt =====
-- Runs of the rate limiter over a store in memory, and the witnesses of its theorems.
use apply_agent.Prelude.{◌≡◌, refl, none, some, true, Bool, if◌then◌else◌, ◌==◌, trim, before_comma}
use apply_agent.Api.Errors.{rate_limited}
use apply_agent.Api.Memory.{Memory, memory, memory_counts, no_keys}
use apply_agent.Api.RateLimit.{
  default_actor_key, RateLimitOptions, reject, consume, rate_limit, reset_of,
}
use apply_agent.Api.RateLimit.Laws.{serve, admitted, serve-admitted}
use apply_agent.Api.RateLimit.Limits.{Limits, rate_limit-Limits}

abbrev auth : RateLimitOptions
auth = record { scope = "auth"; limit = 3; window_seconds = 60 }

-- Three requests have been counted; the key has a time to live only if `live`.
abbrev used_up : Bool → Memory
used_up live = record no_keys {
  counts = λ k. if k == "rl:auth:ip:1.2.3.4" then 3 else 0;
  ttls = λ k. live;
}

default_actor_key_lem :
    default_actor_key
      (record { user_id = none; forwarded_for = some " 1.2.3.4 , 10.0.0.1"; real_ip = none })
    ≡ "ip:1.2.3.4"
unfolding default_actor_key trim before_comma
default_actor_key_lem = refl

rate_limit_rejects :
    (rate_limit memory auth (some "ip:1.2.3.4") (used_up true)).1
    ≡ reject (rate_limited "auth" 3 60 2)
unfolding rate_limit consume reset_of
rate_limit_rejects = refl

rate_limit-Limits_example :
    Limits memory auth (some "ip:1.2.3.4") (used_up true) (reject (rate_limited "auth" 3 60 2))
unfolding rate_limit consume reset_of
rate_limit-Limits_example = rate_limit-Limits memory auth (some "ip:1.2.3.4") (used_up true)

serve-admitted_example :
    (admitted (serve memory 5 auth "ip:1.2.3.4" no_keys).1 ≡ 3)
    × ((serve memory 5 auth "ip:1.2.3.4" no_keys).0.counts "rl:auth:ip:1.2.3.4" ≡ 5)
unfolding memory_counts
serve-admitted_example = serve-admitted memory memory_counts 5 auth "ip:1.2.3.4" no_keys
