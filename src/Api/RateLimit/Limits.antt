-- ===== src/Api/RateLimit/Limits.antt =====
-- Every way that a request can go through the limiter, by what the Redis commands answer.
use apply_agent.Prelude.{
  ℕ, ◌-◌, ◌≡◌, ◌≢◌, ◌⊎◌, refl, ap, sym, subst, ◌∙◌, String, true, Bool-cases, Option, none, some,
  leb, nat_beq, arith, inl, inr, if◌then◌else◌, ℤ,
}
use apply_agent.Api.Errors.{Result, ok, err, ApiError, rate_limited, Result-cases}
use apply_agent.Api.Redis.{Redis}
use apply_agent.Api.RateLimit.{
  RateLimitOptions, Outcome, proceed, reject, consume, rate_limit, limiter_key, reset_of, report,
  after_expire, after_incr, decide,
}

-- What a count means for the request, and with which headers
abbrev pub verdict : RateLimitOptions → (count : ℕ) → (pttl : ℤ) → Outcome
verdict o count pttl =
    let reset = reset_of pttl o.window_seconds in
    if leb count o.limit
    then proceed
        (some (record { allowed = true; remaining = o.limit - count; reset_seconds = reset }))
    else reject (rate_limited o.scope o.limit o.window_seconds reset)

module _ (redis : Redis) (o : RateLimitOptions) where
  -- The store after INCR for an actor, and after an EXPIRE that follows
  abbrev pub counted : String → redis.State → redis.State
  counted name s = (redis.incr (limiter_key o name) s).0

  abbrev pub timed : String → redis.State → redis.State
  timed name s = (redis.expire (limiter_key o name) o.window_seconds (counted name s)).0

  -- The ways that a request can go, by what the commands answer: with no actor, with a command that
  -- throws, with all commands after a first request, and with all commands after a later one.
  pub data Limits : Option String → redis.State → Outcome → Type 0 where
    unlimited : {s : redis.State} → Limits none s (proceed none)
    incr_throws :
        {name : String} {s : redis.State} (e : ApiError)
        → (redis.incr (limiter_key o name) s).1 ≡ err e
        → Limits (some name) s (proceed none)
    expire_throws :
        {name : String} {s : redis.State} (e : ApiError)
        → (redis.incr (limiter_key o name) s).1 ≡ ok 1
        → (redis.expire (limiter_key o name) o.window_seconds (counted name s)).1 ≡ err e
        → Limits (some name) s (proceed none)
    first_pttl_throws :
        {name : String} {s : redis.State} (e : ApiError)
        → (redis.incr (limiter_key o name) s).1 ≡ ok 1
        → (redis.expire (limiter_key o name) o.window_seconds (counted name s)).1 ≡ ok tt
        → (redis.pttl (limiter_key o name) (timed name s)).1 ≡ err e
        → Limits (some name) s (proceed none)
    pttl_throws :
        {name : String} {s : redis.State} (n : ℕ) (e : ApiError)
        → (redis.incr (limiter_key o name) s).1 ≡ ok n
        → n ≢ 1
        → (redis.pttl (limiter_key o name) (counted name s)).1 ≡ err e
        → Limits (some name) s (proceed none)
    first :
        {name : String} {s : redis.State} (t : ℤ)
        → (redis.incr (limiter_key o name) s).1 ≡ ok 1
        → (redis.expire (limiter_key o name) o.window_seconds (counted name s)).1 ≡ ok tt
        → (redis.pttl (limiter_key o name) (timed name s)).1 ≡ ok t
        → Limits (some name) s (verdict o 1 t)
    later :
        {name : String} {s : redis.State} (n : ℕ) (t : ℤ)
        → (redis.incr (limiter_key o name) s).1 ≡ ok n
        → n ≢ 1
        → (redis.pttl (limiter_key o name) (counted name s)).1 ≡ ok t
        → Limits (some name) s (verdict o n t)

module _ (redis : Redis) where
  -- What is left of a request once PTTL has answered, and once EXPIRE has.
  reported :
      (o : RateLimitOptions) (count : ℕ) (m : redis.State × Result ℤ)
      → ((e : ApiError) × (m.1 ≡ err e)
          × ((decide redis o (report redis count o.limit o.window_seconds m)).1 ≡ proceed none))
        ⊎ ((t : ℤ) × (m.1 ≡ ok t)
            × ((decide redis o (report redis count o.limit o.window_seconds m)).1
                ≡ verdict o count t))
  unfolding report decide
  reported o count (s, err e) = inl (e, refl, refl)
  reported o count (s, ok t) = elim (Bool-cases (leb count o.limit)) [
    | inl p ↦ inr (t, refl, rw p)
    | inr p ↦ inr (t, refl, rw p)
  ]

  -- Whatever the Redis client does: a request whose actor is `none`, or for which a command throws,
  -- goes on to the handler without headers. If all commands answer, the request goes on exactly if
  -- the count that INCR returned is at most the limit, and else it is rejected.
  pub rate_limit-Limits :
      (o : RateLimitOptions) (actor : Option String) (s : redis.State)
      → Limits redis o actor s (rate_limit redis o actor s).1
  unfolding rate_limit consume
  rate_limit-Limits o none s = unlimited
  rate_limit-Limits o (some name) s =
      let key = limiter_key o name in
      let s1 = (redis.incr key s).0 in
      let x = redis.expire key o.window_seconds s1 in
      elim (Result-cases (redis.incr key s).1) [
        | inl (e, p) ↦ rw (p, after_incr, decide) (incr_throws e p)
        | inr (n, p) ↦ elim (Bool-cases (nat_beq n 1)) [
          | inl q ↦
              let one : (redis.incr key s).1 ≡ ok 1 = p ∙ ap ok (ground arith) in
              elim (Result-cases x.1) [
                | inl (e, w) ↦ rw (one, w, after_incr, after_expire, decide) (expire_throws e one w)
                | inr (u, w) ↦ elim (reported o 1 (redis.pttl key x.0)) [
                  | inl (e, r, out) ↦
                      rw (one, w, after_incr, after_expire)
                        (subst (Limits redis o (some name) s) (sym out)
                          (first_pttl_throws e one w r))
                  | inr (t, r, out) ↦
                      rw (one, w, after_incr, after_expire)
                        (subst (Limits redis o (some name) s) (sym out) (first t one w r))
                ]
              ]
          | inr q ↦
              let more : n ≢ 1 = ground arith in
              elim (reported o n (redis.pttl key s1)) [
                | inl (e, r, out) ↦
                    rw (p, q, after_incr)
                      (subst (Limits redis o (some name) s) (sym out) (pttl_throws n e p more r))
                | inr (t, r, out) ↦
                    rw (p, q, after_incr)
                      (subst (Limits redis o (some name) s) (sym out) (later n t p more r))
              ]
        ]
      ]
