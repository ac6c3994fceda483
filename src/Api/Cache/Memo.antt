-- ===== src/Api/Cache/Memo.antt =====
-- The cache as a memo table: what a key remembers is a value, a failure or nothing.
pub mod Refinement
use apply_agent.Prelude.{
  ℕ, String, ◌==◌, Bool, true, false, Option, none, some, get_or_else, List, [], ◌∷◌, ◌≡◌, refl,
  sym, ap, ◌∙◌, Bool-cases, Option-cases, inl, inr, if◌then◌else◌, Json, null, str, Host, eq_iff,
  arith,
}
use apply_agent.Api.Errors.{Result, ok, err, ApiError, cached, message_of}
use apply_agent.Api.Redis.{Redis, Holds}
use apply_agent.Api.Cache.{
  Namespace, Part, build_key, error_sentinel, sentinel_of, sentinel_text, get, set, del, get_or_set,
  default_ttl, negative_ttl, parsed, read, write, dropped, remove, after_sentinel, on_error,
  after_set, after_load, on_hit, after_get, recall,
}

pub data Entry : Type 0 where
  value : Json → Entry
  failed : (message : String) → (stored : Json) → Entry

abbrev pub Memo : Type 0
Memo = String → Option Entry

entry_unless : Json → Option String → Entry
entry_unless v none = value v
entry_unless v (some message) = failed message v

-- What is remembered of a value: `null` is not, and a value of the sentinel's form is a failure.
unfoldable pub entry_of : Json → Option Entry
unfolding entry_unless
entry_of null = none
entry_of v = some (entry_unless v (sentinel_of v))

abbrev put : String → Option Entry → Memo → Memo
put key entry memo = λ k. if key == k then entry else memo k

-- Calls of the cache, by the key that they build, and the ends of keys' lives.
pub data Use (W : Type 0) : Type 0 where
  get_call : Namespace → List Part → Use W
  set_call : Namespace → List Part → Json → (ttl_seconds : Option ℕ) → Use W
  del_call : Namespace → List Part → Use W
  get_or_set_call :
      Namespace
      → List Part
      → (W → W × Result Json)
      → (ttl_seconds error_ttl_seconds : Option ℕ) → Use W
  expires : (key : String) → Use W

-- What a call gives its caller.
pub data Reply : Type 0 where
  got : Result Json → Reply
  done : Result (Unit {0}) → Reply
  silent : Reply

seen : Option Entry → Json
seen none = null
seen (some (value v)) = v
seen (some (failed message v)) = v

seen-entry_of : (v : Json) → seen (entry_of v) ≡ v
unfolding seen entry_of entry_unless
seen-entry_of v = ground arith

module _ {W : Type 0} where
  -- The table's own account of a use of the cache.
  on_loaded : String → Memo → W × Result Json → Memo × W × Reply
  on_loaded key memo (w, err e) =
      (put key (entry_of (error_sentinel (message_of e))) memo, w, got (err e))
  on_loaded key memo (w, ok v) = (put key (entry_of v) memo, w, got (ok v))

  on_entry : String → (W → W × Result Json) → Memo → W → Option Entry → Memo × W × Reply
  on_entry key loader memo w none = on_loaded key memo (loader w)
  on_entry key loader memo w (some (value v)) = (memo, w, got (ok v))
  on_entry key loader memo w (some (failed message v)) = (memo, w, got (err (cached message)))

  -- One use of the table.
  unfoldable pub memo_step : Use W → Memo → W → Memo × W × Reply
  unfolding on_loaded on_entry seen
  memo_step (get_call ns parts) memo w = (memo, w, got (ok (seen (memo (build_key ns parts)))))
  memo_step (set_call ns parts v ttl) memo w =
      (put (build_key ns parts) (entry_of v) memo, w, done (ok tt))
  memo_step (del_call ns parts) memo w = (put (build_key ns parts) none memo, w, done (ok tt))
  memo_step (get_or_set_call ns parts loader ttl error_ttl) memo w =
      on_entry (build_key ns parts) loader memo w (memo (build_key ns parts))
  memo_step (expires key) memo w = (put key none memo, w, silent)

  unfoldable pub memo_run : List (Use W) → Memo → W → Memo × W × List Reply
  memo_run [] memo w = (memo, w, [])
  memo_run (first ∷ rest) memo w =
      let (memo', w', reply) = memo_step first memo w in
      let (after, v, replies) = memo_run rest memo' w' in (after, v, reply ∷ replies)
