-- ===== src/Api/Idempotency/Sample.antt =====
-- A way to write a stored response as a text and read it back, for the tests: a mark before each
-- character, and a stop after the last one.
use Prim.Native.Char.{Char, code}
use Prim.Native.String.{String, [], ◌∷◌}
use apply_agent.Prelude.{ℕ, zero, suc, ◌≡◌, refl, Option, none, some, nat_beq, if◌then◌else◌}
use apply_agent.Api.Idempotency.{StoredResponse, Codec}

-- `put s k` is `s` followed by `k`.
abbrev put : String → String → String
put [] k = "." ∷ k
put (c ∷ s) k = "x" ∷ c ∷ put s k

abbrev put_number : ℕ → String → String
put_number zero k = "." ∷ k
put_number (suc n) k = "x" ∷ put_number n k

abbrev put_option : Option String → String → String
put_option none k = "." ∷ k
put_option (some s) k = "x" ∷ put s k

abbrev after_char : Char → Option (String × String) → Option (String × String)
after_char c none = none
after_char c (some (s, k)) = some (c ∷ s, k)

abbrev take_text : String → Option (String × String)
take_text [] = none
take_text (m ∷ []) = if nat_beq (code m) b'.' then some ([], []) else none
take_text (m ∷ c ∷ k) =
    let rest = take_text k in if nat_beq (code m) b'.' then some ([], c ∷ k) else after_char c rest

abbrev after_mark : Option (ℕ × String) → Option (ℕ × String)
after_mark none = none
after_mark (some (n, k)) = some (suc n, k)

abbrev take_number : String → Option (ℕ × String)
take_number [] = none
take_number (m ∷ k) =
    let rest = take_number k in if nat_beq (code m) b'.' then some (0, k) else after_mark rest

abbrev present : Option (String × String) → Option (Option String × String)
present none = none
present (some (s, k)) = some (some s, k)

abbrev take_option : String → Option (Option String × String)
take_option [] = none
take_option (m ∷ k) =
    let rest = present (take_text k) in if nat_beq (code m) b'.' then some (none, k) else rest

take_text-put : (s k : String) → take_text (put s k) ≡ some (s, k)
take_text-put [] [] = refl
take_text-put [] (c ∷ k) = refl
take_text-put (c ∷ s) k = rw (take_text-put s k)

take_number-put : (n : ℕ) (k : String) → take_number (put_number n k) ≡ some (n, k)
take_number-put zero k = refl
take_number-put (suc n) k = rw (take_number-put n k)

take_option-put : (o : Option String) (k : String) → take_option (put_option o k) ≡ some (o, k)
take_option-put none k = refl
take_option-put (some s) k = rw (take_text-put s k)

infixl 5 ◌>>=◌
abbrev ◌>>=◌ {ℓ κ} : {A : Type ℓ} {B : Type κ} → Option A → (A → Option B) → Option B
none >>= f = none
some a >>= f = f a

abbrev write : StoredResponse → String
write p = put_number p.status (put p.body (put p.content_type (put_option p.request_hash "")))

abbrev read : String → Option (Option StoredResponse)
read raw = do
  (status, k1) ← take_number raw
  (body, k2) ← take_text k1
  (content_type, k3) ← take_text k2
  (request_hash, k4) ← take_option k3
  some (
      some (record {
        status = status;
        body = body;
        content_type = content_type;
        request_hash = request_hash;
      }))

abbrev pub codec : Codec
codec = record { encode = write; decode = read }

pub read-write : (p : StoredResponse) → codec.decode (codec.encode p) ≡ some (some p)
read-write p = rw (
  take_number-put p.status (put p.body (put p.content_type (put_option p.request_hash ""))),
  take_text-put p.body (put p.content_type (put_option p.request_hash "")),
  take_text-put p.content_type (put_option p.request_hash ""),
  take_option-put p.request_hash "",
)
