-- ===== src/Api/Idempotency.antt =====
-- middleware/idempotency.ts: a request with an `Idempotency-Key` runs its handler once; a retry
-- gets the stored response.
pub mod Laws
mod Sample
mod Tests
use apply_agent.Prelude.{
  ℕ, String, ◌<>◌, ◌==◌, Bool, true, false, not, ◌||◌, Option, none, some, [], ltb, Host,
  if◌then◌else◌, is_empty, get_or_else, text_length,
}
use apply_agent.Api.Errors.{Result, ok, err, ApiError, validation, conflict}
use apply_agent.Api.Redis.{Redis}
use apply_agent.Api.CanonicalBody.{canonicalize_body}

-- What the middleware reads of a request; a body of `none` cannot be read.
pub record Call : Type 0 where
  pub idem_key : Option String
  pub user_id : String
  pub method : String
  pub path : String
  pub body : Option String

-- What the middleware reads of the handler's response; a body of `none` cannot be cloned.
pub record Response : Type 0 where
  pub status : ℕ
  pub body : Option String
  pub content_type : Option String

pub record StoredResponse : Type 0 where
  pub status : ℕ
  pub body : String
  pub content_type : String
  pub request_hash : Option String

-- `JSON.stringify(payload)` and `JSON.parse(raw) as StoredResponse`: `none` is a `SyntaxError`, and
-- `some none` a value that is falsy.
pub record Codec : Type 0 where
  pub encode : StoredResponse → String
  pub decode : String → Option (Option StoredResponse)

-- The response of the handler, the stored response with `X-Idempotent-Replay`, or a throw.
pub data Answer : Type 0 where
  respond : Response → Answer
  replay : (status : ℕ) → (body content_type : String) → Answer
  refuse : ApiError → Answer

abbrev pub key_min : ℕ
key_min = 16

abbrev pub key_max : ℕ
key_max = 128

abbrev pub ttl_seconds : ℕ
ttl_seconds = 86400

-- `redisKey`
abbrev pub redis_key : (user_id method path key : String) → String
redis_key user_id method path key =
    "idem:" <> (user_id <> (":" <> (method <> (":" <> (path <> (":" <> key))))))

-- `key.length < KEY_MIN || key.length > KEY_MAX`
abbrev pub is_out_of_range : String → Bool
is_out_of_range key = ltb (text_length key) key_min || ltb key_max (text_length key)

-- `stored.requestHash && stored.requestHash !== currentHash`
abbrev pub clashes : Option String → String → Bool
clashes none current = false
clashes (some hash) current = if is_empty hash then false else not (hash == current)

-- What the `ConflictError` says.
abbrev pub reuse_message : String
reuse_message =
    "Idempotency-Key reused with a different request body. Pick a new key for a different payload."

-- `sha256` is the digest in hexadecimal. The handler works on a state of its own; an exception in
-- it has been turned into a response by the framework when `next()` returns.
module _ (redis : Redis) (host : Host) (codec : Codec) (sha256 : String → String) where
  -- `currentHash`
  abbrev pub hash_of : Option String → String
  hash_of body = sha256 (canonicalize_body host (get_or_else body ""))

  abbrev pub key_of : Call → String → String
  key_of call key = redis_key call.user_id call.method call.path key

  abbrev pub payload_of : Response → (body hash : String) → StoredResponse
  payload_of res body hash = record {
    status = res.status;
    body = body;
    content_type = get_or_else res.content_type "application/json";
    request_hash = some hash;
  }

  -- What is kept after the handler's response; an error of SET is caught.
  remember : (rkey hash : String) → Response → redis.State → redis.State
  remember rkey hash res s = elim res.body [
    | none ↦ s
    | some body ↦ (redis.set_ex rkey (codec.encode (payload_of res body hash)) ttl_seconds s).0
  ]

  -- `raw ? JSON.parse(raw) : null`
  read_entry : Option String → Option (Option StoredResponse)
  read_entry none = some none
  read_entry (some raw) = if is_empty raw then some none else codec.decode raw

  answer_stored : String → StoredResponse → Answer
  answer_stored hash stored =
      if clashes stored.request_hash hash
      then refuse (conflict reuse_message)
      else replay stored.status stored.body stored.content_type

  module _ {W : Type 0} (handler : W → W × Response) where
    unfoldable pub pass : redis.State → W → redis.State × W × Answer
    pass s w = let (w', res) = handler w in (s, w', respond res)

    first_call : (rkey hash : String) → redis.State → W → redis.State × W × Answer
    first_call rkey hash s w =
        let (w', res) = handler w in (remember rkey hash res s, w', respond res)

    -- The rest of the middleware after GET.
    after_raw :
        (rkey hash : String) → redis.State × Result (Option String) → W → redis.State × W × Answer
    after_raw rkey hash (s, err e) w = pass s w
    after_raw rkey hash (s, ok raw) w = elim (read_entry raw) [
      | none ↦ pass s w
      | some none ↦ first_call rkey hash s w
      | some (some stored) ↦ (s, w, answer_stored hash stored)
    ]

    keyed : String → Call → redis.State → W → redis.State × W × Answer
    keyed key call s w =
        if is_out_of_range key
        then (s, w, refuse (validation "Idempotency-Key must be 16–128 characters" []))
        else after_raw (key_of call key) (hash_of call.body) (redis.get (key_of call key) s) w

    -- The handler that `idempotency` returns.
    unfoldable pub idempotency : Call → redis.State → W → redis.State × W × Answer
    unfolding keyed after_raw first_call pass remember read_entry answer_stored
    idempotency call s w = elim call.idem_key [
      | none ↦ pass s w
      | some key ↦ if is_empty key then pass s w else keyed key call s w
    ]
