-- ===== src/Api/Errors.antt =====
-- errors.ts: the errors that the modelled code throws, and a result type for code that may throw.
use apply_agent.Prelude.{
  ℕ, String, ◌<>◌, true, false, List, ◌≡◌, ◌⊎◌, inl, inr, refl, is_empty, to_decimal,
}

-- `rate_limited` carries the scope, the limit, the window and `retryAfterSeconds`. `store` is an
-- error of the Redis client, `upstream` one that a loader throws, `cached` a `CachedFailure`.
pub data ApiError : Type 0 where
  validation : (message : String) → (allowed : List String) → ApiError
  not_found : (message : String) → ApiError
  conflict : (message : String) → ApiError
  rate_limited : (scope : String) → (limit window_seconds retry_after : ℕ) → ApiError
  store : (message : String) → ApiError
  upstream : (message : String) → ApiError
  cached : (message : String) → ApiError

-- The `message` of an `Error`.
unfoldable pub message_of : ApiError → String
message_of (validation message allowed) = message
message_of (not_found message) = message
message_of (conflict message) = message
message_of (rate_limited scope limit window_seconds retry_after) =
    "Rate limit exceeded"
    <> ((elim (is_empty scope) [ true ↦ "" | false ↦ " for " <> scope ])
        <> (". Try again in " <> (to_decimal retry_after <> "s.")))
message_of (store message) = message
message_of (upstream message) = message
message_of (cached message) = "cached upstream failure: " <> message

-- What a function returns that may throw.
pub data Result {ℓ} (T : Type ℓ) : Type ℓ where
  err : (thrown : ApiError) → Result T
  ok : (value : T) → Result T

infixl 5 ◌>>=◌
abbrev pub ◌>>=◌ {ℓ κ} : {T : Type ℓ} {U : Type κ} → Result T → (T → Result U) → Result U
err thrown >>= next = err thrown
ok value >>= next = next value

-- A chain that returns has returned at its first step.
module _ {ℓ κ} {T : Type ℓ} {U : Type κ} where
  pub ok_of_bind :
      (first : Result T) (next : T → Result U) {result : U}
      → (first >>= next) ≡ ok result
      → (value : T) × (first ≡ ok value) × (next value ≡ ok result)
  ok_of_bind (err thrown) next returned = cc
  ok_of_bind (ok value) next returned = (value, refl, returned)

pub Result-cases {ℓ} :
    {T : Type ℓ} (r : Result T) → ((e : ApiError) × (r ≡ err e)) ⊎ ((v : T) × (r ≡ ok v))
Result-cases (err e) = inl (e, refl)
Result-cases (ok v) = inr (v, refl)
