-- ===== src/Api/Idempotency/Tests.antt =====
-- Calls over a store in memory, and the witnesses of the theorems about idempotency and the
-- canonical body.
use apply_agent.Prelude.{
  ℕ, suc, String, ◌==◌, ◌≡◌, refl, none, some, Host, Json, obj, field, end, num, pos, if◌then◌else◌,
  arith, neq_of_test, ◌<>◌,
}
use apply_agent.Api.Memory.{Memory, memory, memory_stores, no_keys}
use apply_agent.Api.CanonicalBody.{canonicalize_body}
use apply_agent.Api.CanonicalBody.Laws.{in_object, swap, canonicalize_body-Reordered}
use apply_agent.Api.Idempotency.{Call, Response, replay, idempotency}
use apply_agent.Api.Idempotency.Sample.{codec, read-write}
use apply_agent.Api.Idempotency.Laws.{Codes, Outcome, idempotency_outcome, retry_replays}

abbrev a_then_b : Json
a_then_b = obj (field "a" (num (pos 1)) (field "b" (num (pos 2)) end))

abbrev b_then_a : Json
b_then_a = obj (field "b" (num (pos 2)) (field "a" (num (pos 1)) end))

-- A codec that knows two bodies; every value prints as the first one.
abbrev host : Host
host = record {
  parse = λ s.
      if s == "{\"a\":1,\"b\":2}"
      then some a_then_b
      else if s == "{\"b\":2,\"a\":1}"
      then some b_then_a
      else none;
  stringify = λ v. "{\"a\":1,\"b\":2}";
}

canonicalize_body-Reordered_example :
    canonicalize_body host "{\"b\":2,\"a\":1}" ≡ canonicalize_body host "{\"a\":1,\"b\":2}"
canonicalize_body-Reordered_example =
    canonicalize_body-Reordered host "{\"b\":2,\"a\":1}" "{\"a\":1,\"b\":2}" {v = b_then_a}
      {w = a_then_b} refl refl (neq_of_test _ _ refl) (neq_of_test _ _ refl)
      (in_object (swap "b" "a" (num (pos 2)) (num (pos 1)) end (neq_of_test _ _ refl)))

codec-Codes : Codes codec
codec-Codes = record { decode-encode = read-write; decode-empty = refl }

-- It stands in for the digest: any text that is not empty and keeps texts apart will do.
abbrev digest : String → String
digest s = "#" <> s

-- The handler counts its runs and returns the count.
abbrev handler : ℕ → ℕ × Response
handler n = (
  suc n,
  record { status = 201; body = some "{\"id\":7}"; content_type = some "application/json" },
)

abbrev key : String
key = "0123456789abcdef"

abbrev create : Call
create = record {
  idem_key = some key;
  user_id = "u1";
  method = "POST";
  path = "/applications";
  body = some "{\"b\":2,\"a\":1}";
}

abbrev after_create : Memory
after_create = (idempotency memory host codec digest handler create no_keys 0).0

retry_replays_example :
    idempotency memory host codec digest handler
      (record create { body = some "{\"a\":1,\"b\":2}" })
      after_create
      1
    ≡ (after_create, 1, replay 201 "{\"id\":7}" "application/json")
retry_replays_example =
    retry_replays memory host codec digest memory_stores codec-Codes handler handler create
      (some "{\"a\":1,\"b\":2}") key no_keys no_keys 0 1 refl (omega arith) (omega arith) refl refl
      canonicalize_body-Reordered_example

idempotency_outcome_example :
    Outcome memory host codec digest handler no_keys 0
      (idempotency memory host codec digest handler create no_keys 0)
idempotency_outcome_example = idempotency_outcome memory host codec digest handler create no_keys 0
