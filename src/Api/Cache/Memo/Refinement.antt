-- ===== src/Api/Cache/Memo/Refinement.antt =====
-- The cache implements the memo table.
use apply_agent.Prelude.{
  ℕ, String, ◌==◌, Option, none, some, get_or_else, List, [], ◌∷◌, ◌≡◌, refl, subst, Bool-cases,
  Option-cases, inl, inr, if◌then◌else◌, Json, null, bool, num, str, arr, obj, Host,
}
use apply_agent.Api.Errors.{Result, ok, err, message_of}
use apply_agent.Api.Redis.{Redis, Holds}
use apply_agent.Api.Cache.{
  build_key, error_sentinel, sentinel_of, get, set, del, get_or_set, default_ttl, parsed, read,
  write, dropped, remove, after_sentinel, on_error, after_set, after_load, on_hit, after_get,
  recall,
}
use apply_agent.Api.Cache.Memo.{
  Memo, entry_of, entry_unless, put, seen-entry_of, Use, get_call, set_call, del_call,
  get_or_set_call, expires, Reply, got, done, silent, memo_step, memo_run, on_loaded, on_entry,
}

-- What the cache relies on of JSON: a value that is written is read back.
pub record Parses (host : Host) : Type 0 where
  pub parse-stringify : (v : Json) → host.parse (host.stringify v) ≡ some v

module _ (redis : Redis) (host : Host) (h : Holds redis) where
  content : Option String → Json
  content none = null
  content (some raw) = get_or_else (host.parse raw) null

  -- The store holds what the table remembers; a corrupt text counts as nothing.
  unfoldable pub Refines : redis.State → Memo → Type 0
  unfolding content
  Refines s memo = (key : String) → memo key ≡ entry_of (content (h.texts s key))

  -- What the cache does with a use of it.
  module _ {W : Type 0} where
    got_of : redis.State × W × Result Json → redis.State × W × Reply
    got_of (s, w, r) = (s, w, got r)

    unfoldable pub cache_step : Use W → redis.State → W → redis.State × W × Reply
    unfolding got_of
    cache_step (get_call ns parts) s w = let (s', r) = get redis host ns parts s in (s', w, got r)
    cache_step (set_call ns parts v ttl) s w =
        let (s', r) = set redis host ns parts v ttl s in (s', w, done r)
    cache_step (del_call ns parts) s w = let (s', r) = del redis host ns parts s in (s', w, done r)
    cache_step (get_or_set_call ns parts loader ttl error_ttl) s w =
        got_of (get_or_set redis host ns parts loader ttl error_ttl w s)
    cache_step (expires key) s w = (h.expire_now key s, w, silent)

    unfoldable pub cache_run : List (Use W) → redis.State → W → redis.State × W × List Reply
    cache_run [] s w = (s, w, [])
    cache_run (first ∷ rest) s w =
        let (s', w', reply) = cache_step first s w in
        let (after, v, replies) = cache_run rest s' w' in (after, v, reply ∷ replies)

    pub record Simulates {R : Type 0} (c : redis.State × W × R) (m : Memo × W × R) : Type 0 where
      pub world : c.1 ≡ m.1
      pub reply : c.2 ≡ m.2
      pub refines : Refines c.0 m.0

  module _ (j : Parses host) where
    parsed_lem :
        (s : redis.State) (raw : Option String)
        → parsed redis host (s, ok raw) ≡ (s, ok (content raw))
    unfolding parsed content
    parsed_lem s none = refl
    parsed_lem s (some raw) = elim (Option-cases (host.parse raw)) [
      | inl e ↦ rw (e, parsed)
      | inr (v, e) ↦ rw (e, parsed)
    ]

    read_lem :
        (key : String) (s : redis.State) → read redis host key s ≡ (s, ok (content (h.texts s key)))
    unfolding read
    read_lem key s = rw (h.get_holds key s) (parsed_lem s (h.texts s key))

    write_works :
        (key : String) (v : Json) (t : ℕ) (s : redis.State) → (write redis host key v t s).1 ≡ ok tt
    unfolding write
    write_works key v t s = h.set_holds key (host.stringify v) t s

    write-Refines :
        (key : String) (v : Json) (t : ℕ) (s : redis.State) (memo : Memo)
        → Refines s memo
        → Refines (write redis host key v t s).0 (put key (entry_of v) memo)
    unfolding Refines write content
    write-Refines key v t s memo r k = elim (Bool-cases (key == k)) [
      | inl e ↦ rw (h.texts-set key (host.stringify v) t s k, e, j.parse-stringify v)
      | inr e ↦ rw (h.texts-set key (host.stringify v) t s k, e) (r k)
    ]

    remove-Refines :
        (key : String) (s s' : redis.State) (memo : Memo)
        → ((k : String) → h.texts s' k ≡ (if key == k then none else h.texts s k))
        → Refines s memo
        → Refines s' (put key none memo)
    unfolding Refines content entry_of
    remove-Refines key s s' memo gone r k = elim (Bool-cases (key == k)) [
      | inl e ↦ rw (gone k, e)
      | inr e ↦ rw (gone k, e) (r k)
    ]

    module _ {W : Type 0} where
      module _ (key : String) (ttl error_ttl : ℕ) (s : redis.State) (memo : Memo)
          (r : Refines s memo) where
        on_loaded_lem :
            (l : W × Result Json)
            → Simulates
                (got_of (after_load redis host key ttl error_ttl s l))
                (on_loaded key memo l)
        unfolding after_load after_set on_error after_sentinel on_loaded got_of
        on_loaded_lem (w, err e) =
            rw (write_works key (error_sentinel (message_of e)) error_ttl s) (record {
              world = refl;
              reply = refl;
              refines = write-Refines key (error_sentinel (message_of e)) error_ttl s memo r;
            })
        on_loaded_lem (w, ok v) =
            rw (write_works key v ttl s)
              (record { world = refl; reply = refl; refines = write-Refines key v ttl s memo r })

        on_hit_lem :
            (loader : W → W × Result Json) (w : W) (v : Json) (message : Option String)
            → Simulates
                (got_of (on_hit redis host key ttl error_ttl v w s message))
                (on_entry key loader memo w (some (entry_unless v message)))
        unfolding on_hit on_entry entry_unless got_of
        on_hit_lem loader w v none = record { world = refl; reply = refl; refines = r }
        on_hit_lem loader w v (some message) = record { world = refl; reply = refl; refines = r }

        on_entry_lem :
            (loader : W → W × Result Json) (w : W) (v : Json)
            → Simulates
                (got_of (after_get redis host key ttl error_ttl loader w (s, ok v)))
                (on_entry key loader memo w (entry_of v))
        unfolding after_get entry_of on_entry
        on_entry_lem loader w null = on_loaded_lem (loader w)
        on_entry_lem loader w (bool b) = on_hit_lem loader w (bool b) (sentinel_of (bool b))
        on_entry_lem loader w (num n) = on_hit_lem loader w (num n) (sentinel_of (num n))
        on_entry_lem loader w (str t) = on_hit_lem loader w (str t) (sentinel_of (str t))
        on_entry_lem loader w (arr xs) = on_hit_lem loader w (arr xs) (sentinel_of (arr xs))
        on_entry_lem loader w (obj fs) = on_hit_lem loader w (obj fs) (sentinel_of (obj fs))

      step_lem :
          (used : Use W) (s : redis.State) (memo : Memo) (w : W)
          → Refines s memo
          → Simulates (cache_step used s w) (memo_step used memo w)
      unfolding cache_step memo_step get set del get_or_set recall remove Refines got_of
      step_lem (get_call ns parts) s memo w r =
          rw
            (
              read_lem (build_key ns parts) s,
              r (build_key ns parts),
              seen-entry_of (content (h.texts s (build_key ns parts))),
            )
            (record { world = refl; reply = refl; refines = r })
      step_lem (set_call ns parts v ttl) s memo w r =
          let key = build_key ns parts in
          let t = get_or_else ttl (default_ttl ns) in
          rw (write_works key v t s)
            (record { world = refl; reply = refl; refines = write-Refines key v t s memo r })
      step_lem (del_call ns parts) s memo w r =
          let key = build_key ns parts in
          let (n, works) = h.del_holds key s in
          rw (works, dropped)
            (record {
              world = refl;
              reply = refl;
              refines = remove-Refines key s (redis.del key s).0 memo (h.texts-del key s) r;
            })
      step_lem (get_or_set_call ns parts loader ttl error_ttl) s memo w r =
          rw (read_lem (build_key ns parts) s, r (build_key ns parts))
            (on_entry_lem (build_key ns parts) _ _ s memo r loader w
              (content (h.texts s (build_key ns parts))))
      step_lem (expires key) s memo w r = record {
        world = refl;
        reply = refl;
        refines = remove-Refines key s (h.expire_now key s) memo (h.texts-expire key s) r;
      }

      -- While Redis is up, the cache is a memo table of values and failures: after any uses of it, among
      -- them the ends of keys' lives, the replies, what the loaders did and what is remembered are those
      -- of the table, if the store held what the table remembered, and JSON reads back what it writes.
      pub cache_run-Simulates :
          (uses : List (Use W)) (s : redis.State) (memo : Memo) (w : W)
          → Refines s memo
          → Simulates (cache_run uses s w) (memo_run uses memo w)
      unfolding cache_run memo_run
      cache_run-Simulates [] s memo w r = record { world = refl; reply = refl; refines = r }
      cache_run-Simulates (used ∷ uses) s memo w r =
          let first = step_lem used s memo w r in
          let (s1, w1, reply1) = cache_step used s w in
          let (memo1, v1, other1) = memo_step used memo w in
          let rest =
            subst (λ v. Simulates (cache_run uses s1 w1) (memo_run uses memo1 v)) first.world
              (cache_run-Simulates uses s1 memo1 w1 first.refines) in
          record {
            world = rest.world;
            reply = rw (first.reply, rest.reply);
            refines = rest.refines;
          }
