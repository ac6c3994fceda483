-- ===== src/Api/AppError/Outage.antt =====
-- What the gateway answers to an exception that is none of its own errors.
use apply_agent.Prelude.{String, none, some, ◌≡◌, refl, subst, ◌⊎◌, inl, inr, Bool-cases}
use apply_agent.Api.AppError.{AppError}
use apply_agent.Api.AppError.Errors.{internal}
use apply_agent.Api.AppError.Errors
use apply_agent.Api.AppError.Infra.{
  Thrown, app, native, other, NativeError, translate_infra_error, translate_native, is_db_failure,
  is_cache_failure, is_timeout,
}
use apply_agent.Api.AppError.Envelope.{Context, app_error_of, error_handler}

-- The exception is no AppError.
abbrev pub IsForeign : Thrown → Type 0
IsForeign (app e) = ⊥
IsForeign (native e) = Unit
IsForeign other = Unit

unknown_is_internal :
    (t : Thrown) → IsForeign t → translate_infra_error t ≡ none → app_error_of t ≡ internal
unfolding app_error_of
unknown_is_internal (app e) f h = absurd f
unknown_is_internal (native e) f h = rw h
unknown_is_internal other f h = rw h

-- Nothing of an exception that the translation does not recognise leaves the gateway: the responses to
-- any two of them in the same context are equal.
pub unknown_errors_look_alike :
    (c : Context) (fresh now : String) (t u : Thrown)
    → IsForeign t
    → IsForeign u
    → translate_infra_error t ≡ none
    → translate_infra_error u ≡ none
    → error_handler c fresh now t ≡ error_handler c fresh now u
unfolding error_handler
unknown_errors_look_alike c fresh now t u f g h k =
    rw (unknown_is_internal t f h, unknown_is_internal u g k)

-- The three errors that the translation gives
pub data IsOutage : AppError → Type 0 where
  db : (message : String) → IsOutage (Errors.db_unavailable (some message))
  cache : (message : String) → IsOutage (Errors.cache_unavailable (some message))
  timeout : (message : String) → IsOutage (Errors.upstream_timeout (some message))

translate_native-cases :
    (e : NativeError)
    → (translate_native e ≡ none) ⊎ ((a : AppError) × (translate_native e ≡ some a) × IsOutage a)
unfolding translate_native
translate_native-cases e = elim (Bool-cases (is_db_failure e)) [
  | inl p ↦ rw p (inr (_, refl, db e.message))
  | inr p ↦ elim (Bool-cases (is_cache_failure e)) [
    | inl q ↦ rw (p, q) (inr (_, refl, cache e.message))
    | inr q ↦ elim (Bool-cases (is_timeout e)) [
      | inl r ↦ rw (p, q, r) (inr (_, refl, timeout e.message))
      | inr r ↦ rw (p, q, r) (inl refl)
    ]
  ]
]

pub app_error_of-translated :
    (e : NativeError) (a : AppError)
    → translate_infra_error (native e) ≡ some a
    → app_error_of (native e) ≡ a
unfolding app_error_of
app_error_of-translated e a h = rw h

pub translated-IsOutage :
    (e : NativeError) (a : AppError) → translate_infra_error (native e) ≡ some a → IsOutage a
unfolding translate_infra_error
translated-IsOutage e a h = elim (translate_native-cases e) [
  | inl n ↦ cc
  | inr (b, p, o) ↦ subst IsOutage (cc) o
]
