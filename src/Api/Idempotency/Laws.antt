-- ===== src/Api/Idempotency/Laws.antt =====
-- A retry is replayed, a key reused for another body is refused, and the handler runs at most once.
use apply_agent.Prelude.{
  String, ◌==◌, ◌≡◌, ◌≢◌, ◌≤◌, refl, sym, ap, subst, ◌∙◌, Bool-cases, Option-cases, false, Option,
  none, some, inl, inr, Host, is_empty, is_empty_iff, str_neq, eq_refl, get_or_else, text_length,
  arith,
}
use apply_agent.Api.Errors.{Result, ok, err, ApiError, conflict}
use apply_agent.Api.Redis.{Redis, Stores}
use apply_agent.Api.CanonicalBody.{canonicalize_body}
use apply_agent.Api.Idempotency.{
  Call, Response, StoredResponse, Codec, Answer, respond, replay, refuse, idempotency,
  is_out_of_range, hash_of, key_of, payload_of, remember, read_entry, answer_stored, pass,
  first_call, after_raw, keyed, key_min, key_max, ttl_seconds, clashes, reuse_message,
}

-- What the middleware relies on: a stored response is read back as it was, and the empty text is
-- no JSON.
pub record Codes (c : Codec) : Type 0 where
  pub decode-encode : (p : StoredResponse) → c.decode (c.encode p) ≡ some (some p)
  pub decode-empty : c.decode "" ≡ none

module _ (redis : Redis) (host : Host) (codec : Codec) (sha256 : String → String) where
  -- What became of a call: the handler ran once and its response went out, or it did not run and
  -- the answer is a stored response or an error.
  pub data Outcome {W : Type 0} (handler : W → W × Response) (s : redis.State) (w : W)
      : redis.State × W × Answer → Type 0 where
    ran : (t : redis.State) → Outcome handler s w (t, (handler w).0, respond (handler w).1)
    replayed :
        (t : redis.State) (rkey raw : String) (p : StoredResponse)
        → redis.get rkey s ≡ (t, ok (some raw))
        → codec.decode raw ≡ some (some p)
        → Outcome handler s w (t, w, replay p.status p.body p.content_type)
    refused : (t : redis.State) (e : ApiError) → Outcome handler s w (t, w, refuse e)

  module _ {W : Type 0} (handler : W → W × Response) where
    stored_outcome :
        (rkey hash raw : String) (s t : redis.State) (w : W) (p : StoredResponse)
        → redis.get rkey s ≡ (t, ok (some raw))
        → codec.decode raw ≡ some (some p)
        → Outcome handler s w (t, w, answer_stored redis host codec sha256 hash p)
    unfolding answer_stored
    stored_outcome rkey hash raw s t w p g d = elim (Bool-cases (clashes p.request_hash hash)) [
      | inl e ↦ rw e (refused t _)
      | inr e ↦ rw e (replayed t rkey raw p g d)
    ]

    after_raw_outcome :
        (rkey hash : String) (s : redis.State) (w : W) (m : redis.State × Result (Option String))
        → redis.get rkey s ≡ m
        → Outcome handler s w (after_raw redis host codec sha256 handler rkey hash m w)
    unfolding after_raw pass first_call read_entry
    after_raw_outcome rkey hash s w (t, err e) g = ran t
    after_raw_outcome rkey hash s w (t, ok none) g = ran _
    after_raw_outcome rkey hash s w (t, ok (some raw)) g = elim (Bool-cases (is_empty raw)) [
      | inl e ↦ rw (e, after_raw, read_entry, first_call) (ran _)
      | inr e ↦ elim (Option-cases (codec.decode raw)) [
        | inl d ↦ rw (e, d, after_raw, read_entry) (ran t)
        | inr (none, d) ↦ rw (e, d, after_raw, read_entry, first_call) (ran _)
        | inr (some p, d) ↦
            rw (e, d, after_raw, read_entry) (stored_outcome rkey hash raw s t w p g d)
      ]
    ]

    -- Whatever Redis and the codec do, a call has one of three outcomes: the handler ran exactly once
    -- and its response is the answer; it did not run and the answer is the entry that Redis
    -- returned for a key; or it did not run and the call was refused.
    pub idempotency_outcome :
        (call : Call) (s : redis.State) (w : W)
        → Outcome handler s w (idempotency redis host codec sha256 handler call s w)
    unfolding idempotency keyed pass
    idempotency_outcome call s w = elim (Option-cases call.idem_key) [
      | inl e ↦ rw e (ran s)
      | inr (key, e) ↦ elim (Bool-cases (is_empty key)) [
        | inl f ↦ rw (e, f) (ran s)
        | inr f ↦ elim (Bool-cases (is_out_of_range key)) [
          | inl r ↦ rw (e, f, r, keyed) (refused s _)
          | inr r ↦
              rw (e, f, r, keyed)
                (after_raw_outcome (key_of redis host codec sha256 call key) _ s w _ refl)
        ]
      ]
    ]

  abbrev IsUsable : String → Type 0
  IsUsable key = (key_min ≤ text_length key) × (text_length key ≤ key_max)

  usable_full : (key : String) → IsUsable key → is_empty key ≡ false
  usable_full String.[] u = absurd (ground arith)
  usable_full (String.◌∷◌ c key) u = refl

  after_raw_stored :
      {W : Type 0} (handler : W → W × Response) (rkey hash raw : String) (p : StoredResponse)
      (s : redis.State) (w : W)
      → is_empty raw ≡ false
      → codec.decode raw ≡ some (some p)
      → after_raw redis host codec sha256 handler rkey hash (s, ok (some raw)) w
        ≡ (s, w, answer_stored redis host codec sha256 hash p)
  unfolding after_raw read_entry
  after_raw_stored handler rkey hash raw p s w e d = rw (e, d, after_raw, read_entry)

  answer_same :
      (res : Response) (body hash : String)
      → answer_stored redis host codec sha256 hash
          (payload_of redis host codec sha256 res body hash)
        ≡ replay res.status body (get_or_else res.content_type "application/json")
  unfolding answer_stored
  answer_same res body hash = elim (Bool-cases (is_empty hash)) [
    | inl e ↦ rw (e, answer_stored)
    | inr e ↦ rw (e, eq_refl hash, answer_stored)
  ]

  answer_other :
      (res : Response) (body hash current : String)
      → hash ≢ ""
      → hash ≢ current
      → answer_stored redis host codec sha256 current
          (payload_of redis host codec sha256 res body hash)
        ≡ refuse (conflict reuse_message)
  unfolding answer_stored
  answer_other res body hash current full differ =
      let e : is_empty hash ≡ false = ground (arith, is_empty_iff hash) in
      let d : (hash == current) ≡ false = str_neq hash current differ in rw (e, d, answer_stored)

  module _ (stores : Stores redis) (codes : Codes codec) where
    encode_full : (p : StoredResponse) → is_empty (codec.encode p) ≡ false
    encode_full p = elim (Bool-cases (is_empty (codec.encode p))) [
      | inl e ↦ cc (
          sym (codes.decode-encode p)
          ∙ ap codec.decode ((is_empty_iff (codec.encode p)).0 e)
          ∙ codes.decode-empty)
      | inr e ↦ e
    ]

    -- A call with a usable key goes to the store.
    keyed_lem :
        {W : Type 0} (handler : W → W × Response) (call : Call) (key : String) (s : redis.State)
        (w : W)
        → call.idem_key ≡ some key
        → IsUsable key
        → idempotency redis host codec sha256 handler call s w
          ≡ after_raw redis host codec sha256 handler
              (key_of redis host codec sha256 call key)
              (hash_of redis host codec sha256 call.body)
              (redis.get (key_of redis host codec sha256 call key) s)
              w
    unfolding idempotency keyed
    keyed_lem handler call key s w e u =
        let full = usable_full key u in
        let fits : is_out_of_range key ≡ false = ground arith in rw (e, full, fits, keyed)

    -- The state that the first call leaves.
    first_call_after :
        {W : Type 0} (handler : W → W × Response) (call : Call) (key : String) (s t : redis.State)
        (w : W) {body : String}
        → call.idem_key ≡ some key
        → IsUsable key
        → redis.get (key_of redis host codec sha256 call key) s ≡ (t, ok none)
        → (handler w).1.body ≡ some body
        → (idempotency redis host codec sha256 handler call s w).0
          ≡ (redis.set_ex
              (key_of redis host codec sha256 call key)
              (codec.encode (
                payload_of redis host codec sha256
                  (handler w).1
                  body
                  (hash_of redis host codec sha256 call.body)))
              ttl_seconds
              t).0
    unfolding first_call remember after_raw read_entry
    first_call_after handler call key s t w e u g b =
        let rkey = key_of redis host codec sha256 call key in
        let hash = hash_of redis host codec sha256 call.body in
        ap (λ m. m.0) (keyed_lem handler call key s w e u)
        ∙ ap (λ m. (after_raw redis host codec sha256 handler rkey hash m w).0) g
        ∙ rw (b, remember) refl

    first_call_stores :
        {W : Type 0} (handler : W → W × Response) (call : Call) (key : String) (s t : redis.State)
        (w : W) {body : String}
        → call.idem_key ≡ some key
        → IsUsable key
        → redis.get (key_of redis host codec sha256 call key) s ≡ (t, ok none)
        → (handler w).1.body ≡ some body
        → let after = (idempotency redis host codec sha256 handler call s w).0 in
          redis.get (key_of redis host codec sha256 call key) after ≡ (
            after,
            ok (
                some (
                  codec.encode (
                    payload_of redis host codec sha256
                      (handler w).1
                      body
                      (hash_of redis host codec sha256 call.body)))),
          )
    first_call_stores handler call key s t w {body} e u g b =
        let p =
          payload_of redis host codec sha256 (handler w).1 body
            (hash_of redis host codec sha256 call.body) in
        subst
          (λ a.
            redis.get (key_of redis host codec sha256 call key) a ≡ (a, ok (some (codec.encode p))))
          (sym (first_call_after handler call key s t w e u g b))
          (stores.get_written (key_of redis host codec sha256 call key) (codec.encode p) ttl_seconds
            t)

    -- A second call with the same user, method, path and key after the first has stored its response.
    second_call :
        {W : Type 0} (first second : W → W × Response) (call : Call) (other : Option String)
        (key : String) (s t : redis.State) (w x : W) {body : String}
        → call.idem_key ≡ some key
        → IsUsable key
        → redis.get (key_of redis host codec sha256 call key) s ≡ (t, ok none)
        → (first w).1.body ≡ some body
        → let after = (idempotency redis host codec sha256 first call s w).0 in
          let hash = hash_of redis host codec sha256 in
          idempotency redis host codec sha256 second (record call { body = other }) after x ≡ (
            after,
            x,
            answer_stored redis host codec sha256
                (hash other)
                (payload_of redis host codec sha256 (first w).1 body (hash call.body)),
          )
    unfolding after_raw read_entry
    second_call first second call other key s t w x {body} e u g b =
        let hash = hash_of redis host codec sha256 in
        let p = payload_of redis host codec sha256 (first w).1 body (hash call.body) in
        let after = (idempotency redis host codec sha256 first call s w).0 in
        keyed_lem second (record call { body = other }) key after x e u
        ∙ ap
            (λ m.
              after_raw redis host codec sha256 second (key_of redis host codec sha256 call key)
                (hash other) m x)
            (first_call_stores first call key s t w e u g b)
        ∙ after_raw_stored second _ _ _ p after x (encode_full p) (codes.decode-encode p)

    -- While Redis is up and the entry lasts: after a call with a key of 16 to 128 characters, none
    -- stored for it, whose response has a readable body, every call of the same user, method, path
    -- and key with a body of the same canonical form is answered by the first response's status,
    -- body and content type. Its handler does not run and the store stays as it is.
    pub retry_replays :
        {W : Type 0} (first second : W → W × Response) (call : Call) (other : Option String)
        (key : String) (s t : redis.State) (w x : W) {body : String}
        → call.idem_key ≡ some key
        → key_min ≤ text_length key
        → text_length key ≤ key_max
        → redis.get (key_of redis host codec sha256 call key) s ≡ (t, ok none)
        → (first w).1.body ≡ some body
        → canonicalize_body host (get_or_else call.body "")
          ≡ canonicalize_body host (get_or_else other "")
        → let after = (idempotency redis host codec sha256 first call s w).0 in
          idempotency redis host codec sha256 second (record call { body = other }) after x ≡ (
            after,
            x,
            replay
                (first w).1.status
                body
                (get_or_else (first w).1.content_type "application/json"),
          )
    retry_replays first second call other key s t w x {body} e low high g b same =
        let hash = hash_of redis host codec sha256 in
        let after = (idempotency redis host codec sha256 first call s w).0 in
        second_call first second call other key s t w x e (low, high) g b
        ∙ ap
            (λ h. (
              after,
              x,
              answer_stored redis host codec sha256 h
                  (payload_of redis host codec sha256 (first w).1 body (hash call.body)),
            ))
            (ap sha256 (sym same))
        ∙ ap (λ a. (after, x, a)) (answer_same (first w).1 body (hash call.body))

    -- Under the same conditions, but where the two bodies' digests differ and the first one's is a text
    -- that is not empty: the call is refused as a conflict, its handler does not run, and the store
    -- stays as it is.
    pub reuse_refused :
        {W : Type 0} (first second : W → W × Response) (call : Call) (other : Option String)
        (key : String) (s t : redis.State) (w x : W) {body : String}
        → call.idem_key ≡ some key
        → key_min ≤ text_length key
        → text_length key ≤ key_max
        → redis.get (key_of redis host codec sha256 call key) s ≡ (t, ok none)
        → (first w).1.body ≡ some body
        → hash_of redis host codec sha256 call.body ≢ ""
        → hash_of redis host codec sha256 call.body ≢ hash_of redis host codec sha256 other
        → let after = (idempotency redis host codec sha256 first call s w).0 in
          idempotency redis host codec sha256 second (record call { body = other }) after x
          ≡ (after, x, refuse (conflict reuse_message))
    reuse_refused first second call other key s t w x {body} e low high g b full differ =
        let hash = hash_of redis host codec sha256 in
        let after = (idempotency redis host codec sha256 first call s w).0 in
        second_call first second call other key s t w x e (low, high) g b
        ∙ ap (λ a. (after, x, a))
            (answer_other (first w).1 body (hash call.body) (hash other) full differ)
