-- ===== src/Api/Cache.antt =====
-- cache.ts: namespaced entries in Redis, and `getOrSet`, which also caches failures.
pub mod Memo
mod Tests
use apply_agent.Prelude.{
  ℕ, ◌*◌, String, ◌<>◌, Bool, true, false, Option, none, some, get_or_else, List, [], ◌∷◌, is_empty,
  Json, str, null, bool, num, arr, obj, Fields, end, field, json_field, to_decimal, Host,
}
use apply_agent.Api.Errors.{Result, ok, err, ApiError, cached, message_of}
use apply_agent.Api.Redis.{Redis}

-- `CacheNamespace`
pub data Namespace : Type 0 where
  resume_tailored jd_parsed match_score trends_today : Namespace

abbrev pub namespace_text : Namespace → String
namespace_text resume_tailored = "resume:tailored"
namespace_text jd_parsed = "jd:parsed"
namespace_text match_score = "match:score"
namespace_text trends_today = "trends:today"

-- `DEFAULT_TTL`, in seconds
abbrev pub default_ttl : Namespace → ℕ
default_ttl resume_tailored = 7 * 24 * 60 * 60
default_ttl jd_parsed = 24 * 60 * 60
default_ttl match_score = 60 * 60
default_ttl trends_today = 60 * 60

-- `NEGATIVE_TTL`
abbrev pub negative_ttl : ℕ
negative_ttl = 30

-- A part of a key: `string | number`
pub data Part : Type 0 where
  text_part : String → Part
  number_part : ℕ → Part

unfoldable part_text : Part → String
part_text (text_part s) = s
part_text (number_part n) = to_decimal n

join_parts : String → List Part → String
unfolding part_text
join_parts start [] = start
join_parts start (part ∷ parts) = join_parts (start <> (":" <> part_text part)) parts

-- `[ns, ...parts.map(String)].join(":")`
unfoldable pub build_key : Namespace → List Part → String
unfolding join_parts
build_key ns parts = join_parts (namespace_text ns) parts

-- `{ __cached_error__: message }`
abbrev pub error_sentinel : String → Json
error_sentinel message = obj (field "__cached_error__" (str message) end)

sentinel_text : Option Json → Option String
sentinel_text (some (str message)) = some message
sentinel_text other = none

-- `isErrorSentinel`, with the message of a value that is one. An array has no such key.
unfoldable pub sentinel_of : Json → Option String
unfolding sentinel_text
sentinel_of (obj fields) = sentinel_text (json_field "__cached_error__" fields)
sentinel_of other = none

-- `host` is `JSON.parse` and `JSON.stringify`; a loader works on a state of its own.
module _ (redis : Redis) (host : Host) where
  parsed : redis.State × Result (Option String) → redis.State × Result Json
  parsed (s, err e) = (s, err e)
  parsed (s, ok none) = (s, ok null)
  parsed (s, ok (some raw)) = elim (host.parse raw) [ none ↦ (s, ok null) | some v ↦ (s, ok v) ]

  unfoldable read : String → redis.State → redis.State × Result Json
  unfolding parsed
  read key s = parsed (redis.get key s)

  unfoldable write : String → Json → ℕ → redis.State → redis.State × Result (Unit {0})
  write key value ttl s = redis.set_ex key (host.stringify value) ttl s

  dropped : redis.State × Result ℕ → redis.State × Result (Unit {0})
  dropped (s, err e) = (s, err e)
  dropped (s, ok n) = (s, ok tt)

  unfoldable remove : String → redis.State → redis.State × Result (Unit {0})
  unfolding dropped
  remove key s = dropped (redis.del key s)

  module _ {W : Type 0} (key : String) (ttl error_ttl : ℕ) where
    after_sentinel : ApiError → W → redis.State × Result (Unit {0}) → redis.State × W × Result Json
    after_sentinel e w (s, err other) = (s, w, err other)
    after_sentinel e w (s, ok u) = (s, w, err e)

    -- The `catch` block
    unfoldable on_error : ApiError → W → redis.State → redis.State × W × Result Json
    unfolding after_sentinel
    on_error e w s = after_sentinel e w (write key (error_sentinel (message_of e)) error_ttl s)

    after_set : Json → W → redis.State × Result (Unit {0}) → redis.State × W × Result Json
    after_set value w (s, err e) = on_error e w s
    after_set value w (s, ok u) = (s, w, ok value)

    after_load : redis.State → W × Result Json → redis.State × W × Result Json
    after_load s (w, err e) = on_error e w s
    after_load s (w, ok value) = after_set value w (write key value ttl s)

    on_hit : Json → W → redis.State → Option String → redis.State × W × Result Json
    on_hit hit w s none = (s, w, ok hit)
    on_hit hit w s (some message) = (s, w, err (cached message))

    after_get :
        (W → W × Result Json) → W → redis.State × Result Json → redis.State × W × Result Json
    after_get loader w (s, err e) = (s, w, err e)
    after_get loader w (s, ok null) = after_load s (loader w)
    after_get loader w (s, ok hit) = on_hit hit w s (sentinel_of hit)

    unfoldable recall : (W → W × Result Json) → W → redis.State → redis.State × W × Result Json
    unfolding after_get after_load after_set on_hit
    recall loader w s = after_get loader w (read key s)

  -- `Cache.get`; a miss is `null`.
  unfoldable pub get : Namespace → List Part → redis.State → redis.State × Result Json
  unfolding read parsed
  get ns parts s = read (build_key ns parts) s

  -- `Cache.set`
  unfoldable pub set :
      Namespace
      → List Part
      → Json
      → (ttl_seconds : Option ℕ) → redis.State
      → redis.State × Result (Unit {0})
  unfolding write
  set ns parts value ttl s = write (build_key ns parts) value (get_or_else ttl (default_ttl ns)) s

  -- `Cache.del`
  unfoldable pub del : Namespace → List Part → redis.State → redis.State × Result (Unit {0})
  unfolding remove dropped
  del ns parts s = remove (build_key ns parts) s

  -- `Cache.getOrSet`
  unfoldable pub get_or_set :
      {W : Type 0}
      → Namespace
      → List Part
      → (W → W × Result Json)
      → (ttl_seconds error_ttl_seconds : Option ℕ) → W
      → redis.State
      → redis.State × W × Result Json
  unfolding recall on_error read write
  get_or_set ns parts loader ttl error_ttl w s =
      recall (build_key ns parts) (get_or_else ttl (default_ttl ns))
        (get_or_else error_ttl negative_ttl) loader w s
