-- ===== src/Api/Cache/Tests.antt =====
-- Runs of the cache over a store in memory, and the witness of its theorem.
use apply_agent.Prelude.{
  to_decimal, ℕ, suc, none, some, ltb, List, [], text_host, parse-stringify_text, ◌∷◌, ◌≡◌, refl,
  Json, num, str, obj, end, field, pos, if◌then◌else◌, json_field,
}
use apply_agent.Api.Errors.{Result, ok, err, upstream, cached, store, message_of}
use apply_agent.Api.Redis.{Redis}
use apply_agent.Api.Memory.{Memory, memory, memory_holds, no_keys}
use apply_agent.Api.Cache.{
  sentinel_of, match_score, jd_parsed, text_part, number_part, build_key, get, get_or_set,
}
use apply_agent.Api.Cache.Memo.{
  entry_of, Use, get_or_set_call, expires, got, silent, memo_step, memo_run,
}
use apply_agent.Api.Cache.Memo.Refinement.{
  Refines, Parses, Simulates, cache_step, cache_run, cache_run-Simulates,
}

build_key_lem : build_key match_score (text_part "r1" ∷ number_part 7 ∷ []) ≡ "match:score:r1:7"
unfolding build_key to_decimal
build_key_lem = refl

abbrev text_parses : Parses text_host
text_parses = record { parse-stringify = parse-stringify_text }

-- The loader counts its calls and fails at the first one.
abbrev loader : ℕ → ℕ × Result Json
loader n = (suc n, if ltb n 1 then err (upstream "502") else ok (num (pos 80)))

abbrev ask : Use ℕ
ask = get_or_set_call match_score (text_part "r1" ∷ text_part "j1" ∷ []) loader none none

-- A failure is kept until it expires; then the loader runs again, and its value is kept.
abbrev uses : List (Use ℕ)
uses = ask ∷ ask ∷ expires "match:score:r1:j1" ∷ ask ∷ ask ∷ []

memo_run_lem : (memo_run uses (λ k. none) 0).1 ≡ 2
unfolding memo_run memo_step build_key entry_of sentinel_of json_field
memo_run_lem = refl

cache_run_lem :
    (cache_run memory text_host memory_holds uses no_keys 0).2
    ≡ got (err (upstream "502"))
      ∷ got (err (cached "502"))
      ∷ silent
      ∷ got (ok (num (pos 80)))
      ∷ got (ok (num (pos 80)))
      ∷ []
unfolding cache_run cache_step get_or_set build_key text_host message_of sentinel_of json_field
    memory_holds
cache_run_lem = refl

cache_run-Simulates_example :
    Simulates memory text_host memory_holds
      (cache_run memory text_host memory_holds uses no_keys 0)
      (memo_run uses (λ k. none) 0)
unfolding Refines entry_of memory_holds
cache_run-Simulates_example =
    cache_run-Simulates memory text_host memory_holds text_parses uses no_keys (λ k. none) 0
      (λ k. refl)

-- A store that has no room for what is kept for an hour or more.
abbrev full : Redis
full = record memory {
  set_ex = λ k v t s. if ltb t 3600 then memory.set_ex k v t s else (s, err (store "OOM"));
}

unfoldable lost : Memory × ℕ × Result Json
lost = get_or_set full text_host jd_parsed (text_part "j1" ∷ []) loader none (some 30) 1 no_keys

-- The loader's value is lost, and its key remembers a failure.
lost_value :
    (lost.1 ≡ 2)
    × (lost.2 ≡ err (store "OOM"))
    × ((get full text_host jd_parsed (text_part "j1" ∷ []) lost.0).1
        ≡ ok (obj (field "__cached_error__" (str "OOM") end)))
unfolding lost get_or_set get build_key text_host message_of
lost_value = (refl, refl, refl)
