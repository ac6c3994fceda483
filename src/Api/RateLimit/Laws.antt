-- ===== src/Api/RateLimit/Laws.antt =====
-- How many requests the limiter lets through in a window.
use apply_agent.Prelude.{
  ℕ, zero, suc, ◌+◌, ◌-◌, ◌≤◌, ◌≡◌, refl, ap, ◌∙◌, String, true, false, Bool-cases, some, List, [],
  ◌∷◌, leb, nat_beq, min, arith, inl, inr, if◌then◌else◌, ℤ,
}
use apply_agent.Api.Errors.{Result, ok, err}
use apply_agent.Api.Redis.{Redis, Counts}
use apply_agent.Api.RateLimit.{
  RateLimitOptions, LimitResult, Outcome, proceed, reject, consume, rate_limit, limiter_key,
  reset_of, report, after_expire, after_incr, decide,
}

module _ (redis : Redis) where
  -- One actor's requests, one after the other.
  unfoldable pub serve : ℕ → RateLimitOptions → String → redis.State → redis.State × List Outcome
  serve zero o actor s = (s, [])
  serve (suc n) o actor s =
      let (s', out) = rate_limit redis o (some actor) s in
      let (t, rest) = serve n o actor s' in (t, out ∷ rest)

abbrev pub admitted : List Outcome → ℕ
admitted [] = 0
admitted (proceed r ∷ rest) = suc (admitted rest)
admitted (reject e ∷ rest) = admitted rest

module _ (redis : Redis) (c : Counts redis) where
  -- A request in a window that is up: the count goes up by one, and decides.
  record IsCounted (limit : ℕ) (key : String) (s : redis.State)
      (m : redis.State × Result LimitResult) : Type 0 where
    result : LimitResult
    returned : m.1 ≡ ok result
    allowed : result.allowed ≡ leb (suc (c.count key s)) limit
    counted : c.count key m.0 ≡ suc (c.count key s)

  consume-IsCounted :
      (key : String) (limit window : ℕ) (s : redis.State)
      → IsCounted limit key s (consume redis key limit window s)
  unfolding consume after_incr after_expire report
  consume-IsCounted key limit window s =
      let s1 = (redis.incr key s).0 in
      let s2 = (redis.expire key window s1).0 in
      let (t1, p1) = c.pttl_works key s1 in
      let (t2, p2) = c.pttl_works key s2 in
      let i = c.incr_counts key s in
      let x = c.expire_works key window s1 in
      let verdict : ℤ → LimitResult = λ t. record {
        allowed = leb (suc (c.count key s)) limit;
        remaining = limit - suc (c.count key s);
        reset_seconds = reset_of t window;
      } in
      elim (Bool-cases (nat_beq (suc (c.count key s)) 1)) [
        | inl e ↦ record {
          result = verdict t2;
          returned = rw (i, e, x, p2, after_incr, after_expire, report);
          allowed = refl;
          counted =
              rw (i, e, x, p2, after_incr, after_expire, report)
                (ap (λ m. c.count key m.0) p2 ∙ c.count-expire key window s1 ∙ c.count-incr key s);
        }
        | inr e ↦ record {
          result = verdict t1;
          returned = rw (i, e, p1, after_incr, report);
          allowed = refl;
          counted =
              rw (i, e, p1, after_incr, report) (ap (λ m. c.count key m.0) p1 ∙ c.count-incr key s);
        }
      ]

  admitted-cons :
      (o : RateLimitOptions) (actor : String) (s : redis.State) (rest : List Outcome)
      → admitted ((rate_limit redis o (some actor) s).1 ∷ rest) ≡ (
          if leb (suc (c.count (limiter_key o actor) s)) o.limit
          then suc (admitted rest)
          else admitted rest)
        × (c.count (limiter_key o actor) (rate_limit redis o (some actor) s).0
            ≡ suc (c.count (limiter_key o actor) s))
  unfolding rate_limit decide
  admitted-cons o actor s rest =
      let key = limiter_key o actor in
      let m = consume-IsCounted key o.limit o.window_seconds s in
      elim (Bool-cases (leb (suc (c.count key s)) o.limit)) [
        | inl e ↦
            let pass : m.result.allowed ≡ true = m.allowed ∙ e in
            (rw (m.returned, pass, e, decide), rw (m.returned, pass, decide) m.counted)
        | inr e ↦
            let stop : m.result.allowed ≡ false = m.allowed ∙ e in
            (rw (m.returned, stop, e, decide), rw (m.returned, stop, decide) m.counted)
      ]

  -- While Redis is up and the window lasts, an actor who has used `count` requests gets exactly as
  -- many of the next `n` through as are left of the limit, and the count goes up by `n`.
  pub serve-admitted :
      (n : ℕ) (o : RateLimitOptions) (actor : String) (s : redis.State)
      → (admitted (serve redis n o actor s).1 ≡ min n (o.limit - c.count (limiter_key o actor) s))
        × (c.count (limiter_key o actor) (serve redis n o actor s).0
            ≡ c.count (limiter_key o actor) s + n)
  unfolding serve
  serve-admitted zero o actor s = (omega arith, omega arith)
  serve-admitted (suc n) o actor s =
      let s' = (rate_limit redis o (some actor) s).0 in
      let (out, counted) = admitted-cons o actor s (serve redis n o actor s').1 in
      let (rest, total) = serve-admitted n o actor s' in (ground arith, omega arith)

  consume-expires :
      (key : String) (limit window : ℕ) (s : redis.State)
      → 1 ≤ c.count key s
      → c.expires key (consume redis key limit window s).0 ≡ c.expires key s
  unfolding consume after_incr report
  consume-expires key limit window s used =
      let s1 = (redis.incr key s).0 in
      let (t, p) = c.pttl_works key s1 in
      let again : nat_beq (suc (c.count key s)) 1 ≡ false = ground arith in
      rw (c.incr_counts key s, again, p, after_incr, report)
        (ap (λ m. c.expires key m.0) p ∙ c.expires-incr key s used)

  decide-state :
      (o : RateLimitOptions) (m : redis.State × Result LimitResult) → (decide redis o m).0 ≡ m.0
  unfolding decide
  decide-state o (s, err e) = refl
  decide-state o (s, ok r) = ground arith

  rate_limit-expires :
      (o : RateLimitOptions) (actor : String) (s : redis.State)
      → 1 ≤ c.count (limiter_key o actor) s
      → c.expires (limiter_key o actor) (rate_limit redis o (some actor) s).0
        ≡ c.expires (limiter_key o actor) s
  unfolding rate_limit
  rate_limit-expires o actor s used =
      let key = limiter_key o actor in
      ap (c.expires key) (decide-state o (consume redis key o.limit o.window_seconds s))
      ∙ consume-expires key o.limit o.window_seconds s used

  -- While Redis is up, a count of at least one that has no time to live gets none from any number
  -- of requests: only the request that counts one sets it.
  pub serve-expires :
      (n : ℕ) (o : RateLimitOptions) (actor : String) (s : redis.State)
      → 1 ≤ c.count (limiter_key o actor) s
      → c.expires (limiter_key o actor) s ≡ false
      → c.expires (limiter_key o actor) (serve redis n o actor s).0 ≡ false
  unfolding serve
  serve-expires zero o actor s used h = h
  serve-expires (suc n) o actor s used h =
      let s' = (rate_limit redis o (some actor) s).0 in
      let (out, counted) = admitted-cons o actor s [] in
      serve-expires n o actor s' (omega arith) (rate_limit-expires o actor s used ∙ h)
