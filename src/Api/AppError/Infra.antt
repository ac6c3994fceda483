-- ===== src/Api/AppError/Infra.antt =====
-- errors.ts: `translateInfraError`, which turns the exceptions of the infrastructure into errors of
-- the taxonomy.
use Prim.Native.Char.{code}
use apply_agent.Prelude.{
  String, ◌<>◌, ◌==◌, Bool, true, false, not, ◌&&◌, ◌||◌, Option, none, some, nat_beq, starts_with,
  lower, is_word, ends_word, if◌then◌else◌, get_or_else,
}
use apply_agent.Api.AppError.{AppError}
use apply_agent.Api.AppError.Errors.{db_unavailable, cache_unavailable, upstream_timeout}

-- An exception that is no AppError: what the translation reads of an `Error`; `other`,
-- a value that is no `Error`, is beyond the type of the handler's argument.
pub record NativeError : Type 0 where
  pub name : String
  pub message : String
  pub stack : Option String
  pub code : Option String

pub data Thrown : Type 0 where
  app : AppError → Thrown
  native : NativeError → Thrown
  other : Thrown

-- The rest of the text after the letters of the pattern, in either case.
after_prefix : String → String → Option String
after_prefix String.[] s = some s
after_prefix (String.◌∷◌ p ps) String.[] = none
after_prefix (String.◌∷◌ p ps) (String.◌∷◌ c s) =
    let rest = after_prefix ps s in if nat_beq (code (lower p)) (code (lower c)) then rest else none

found : Option String → Bool
found none = false
found (some rest) = true

-- `/pattern/i.test(text)` for a pattern of plain characters
unfoldable pub matches : (pattern text : String) → Bool
unfolding after_prefix found
matches pattern String.[] = found (after_prefix pattern "")
matches pattern (String.◌∷◌ c s) =
    let rest = matches pattern s in found (after_prefix pattern (String.◌∷◌ c s)) || rest

ends_word_after : Option String → Bool
ends_word_after none = false
ends_word_after (some rest) = ends_word rest

-- `/\bpattern\b/i.test(text)`, where the character before the text is a word character if `inside`
matches_word_from : (inside : Bool) → (pattern text : String) → Bool
matches_word_from inside pattern String.[] = false
matches_word_from inside pattern (String.◌∷◌ c s) =
    let rest = matches_word_from (is_word c) pattern s in
    (not inside && ends_word_after (after_prefix pattern (String.◌∷◌ c s))) || rest

unfoldable pub matches_word : (pattern text : String) → Bool
unfolding matches_word_from ends_word_after after_prefix
matches_word pattern text = matches_word_from false pattern text

-- The tests that end in `Errors.dbUnavailable`
unfoldable pub is_db_failure : NativeError → Bool
unfolding matches
is_db_failure e =
    let pg_code = get_or_else e.code "" in
    matches "Cannot use a pool after calling end on the pool" e.message
    || matches "Connection terminated unexpectedly" e.message
    || matches "terminating connection due to administrator command" e.message
    || matches "Client has encountered a connection error and is not queryable" e.message
    || matches "pg-pool" (get_or_else e.stack "")
    || ((pg_code == "57P01")
        || (pg_code == "57P02")
        || (pg_code == "57P03")
        || starts_with pg_code "08")
    || (matches "ECONNREFUSED" e.message
        && (matches "5432" e.message || matches "5433" e.message || matches "postgres" e.message))

unfoldable pub is_cache_failure : NativeError → Bool
unfolding matches
is_cache_failure e =
    matches "Connection is closed" e.message
    && (matches "redis" (e.name <> e.message) || matches "ioredis" (e.name <> e.message))

unfoldable pub is_timeout : NativeError → Bool
unfolding matches_word
is_timeout e = (e.name == "TimeoutError") || matches_word "ETIMEDOUT" e.message

unfoldable pub translate_native : NativeError → Option AppError
translate_native e =
    if is_db_failure e
    then some (db_unavailable (some e.message))
    else if is_cache_failure e
    then some (cache_unavailable (some e.message))
    else if is_timeout e
    then some (upstream_timeout (some e.message))
    else none

-- `translateInfraError` (an AppError is one of the `Error`s without such signs; it is not called
-- on one)
unfoldable pub translate_infra_error : Thrown → Option AppError
unfolding translate_native is_db_failure is_cache_failure is_timeout
translate_infra_error (native e) = translate_native e
translate_infra_error other = none
translate_infra_error (app e) = none
