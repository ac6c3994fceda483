-- ===== src/Api/Redis.antt =====
-- The Redis client (ioredis), which the gateway only calls: an interface with what is relied on.
-- A command that fails throws, `err`; it may have changed the store all the same.
use apply_agent.Prelude.{ℕ, suc, String, ◌==◌, Bool, ◌≡◌, ◌≤◌, Option, none, some, if◌then◌else◌, ℤ}
use apply_agent.Api.Errors.{Result, ok}

pub record Redis : Type 1 where
  pub State : Type 0
  pub get : String → State → State × Result (Option String)
  pub set_ex : (key value : String) → (ttl_seconds : ℕ) → State → State × Result (Unit {0})
  pub incr : String → State → State × Result ℕ
  pub expire : String → (seconds : ℕ) → State → State × Result (Unit {0})
  pub pttl : String → State → State × Result ℤ
  pub del : String → State → State × Result ℕ

-- While the store is up and no key expires: a read after a write finds what was written.
pub record Stores (r : Redis) : Type 0 where
  pub set_works :
      (key value : String) (ttl : ℕ) (s : r.State) → (r.set_ex key value ttl s).1 ≡ ok tt
  pub get_written :
      (key value : String) (ttl : ℕ) (s : r.State)
      → r.get key (r.set_ex key value ttl s).0 ≡ ((r.set_ex key value ttl s).0, ok (some value))

-- While the store is up and no key expires: INCR counts, and the other commands change no count.
-- `expires` says that the key has a time to live; INCR on a key that is there leaves that alone.
pub record Counts (r : Redis) : Type 0 where
  pub count : String → r.State → ℕ
  pub expires : String → r.State → Bool
  pub incr_counts : (key : String) (s : r.State) → (r.incr key s).1 ≡ ok (suc (count key s))
  pub count-incr : (key : String) (s : r.State) → count key (r.incr key s).0 ≡ suc (count key s)
  pub expires-incr :
      (key : String) (s : r.State) → 1 ≤ count key s → expires key (r.incr key s).0 ≡ expires key s
  pub expire_works : (key : String) (t : ℕ) (s : r.State) → (r.expire key t s).1 ≡ ok tt
  pub count-expire :
      (key : String) (t : ℕ) (s : r.State) → count key (r.expire key t s).0 ≡ count key s
  pub pttl_works : (key : String) (s : r.State) → (t : ℤ) × (r.pttl key s ≡ (s, ok t))

-- While the store is up: it is a table of texts, which SET and DEL change at their key and GET reads.
-- `expire_now` is the end of a key's time to live; an expired key reads as absent.
pub record Holds (r : Redis) : Type 0 where
  pub texts : r.State → String → Option String
  pub expire_now : String → r.State → r.State
  pub get_holds : (key : String) (s : r.State) → r.get key s ≡ (s, ok (texts s key))
  pub set_holds : (key value : String) (t : ℕ) (s : r.State) → (r.set_ex key value t s).1 ≡ ok tt
  pub texts-set :
      (key value : String) (t : ℕ) (s : r.State) (k : String)
      → texts (r.set_ex key value t s).0 k ≡ (if key == k then some value else texts s k)
  pub del_holds : (key : String) (s : r.State) → (n : ℕ) × ((r.del key s).1 ≡ ok n)
  pub texts-del :
      (key : String) (s : r.State) (k : String)
      → texts (r.del key s).0 k ≡ (if key == k then none else texts s k)
  pub texts-expire :
      (key : String) (s : r.State) (k : String)
      → texts (expire_now key s) k ≡ (if key == k then none else texts s k)
