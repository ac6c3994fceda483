-- ===== src/Api/AppError/TraceCode.antt =====
-- errors.ts: `traceCodeFromTraceId`, the short code that a user can quote (web/src/lib/api.ts has a
-- copy of it); middleware/trace-id.ts: the choice of the trace id.
use Prim.Native.Char.{Char, code}
use Prim.Native.Nat.{bit_xor}
use apply_agent.Prelude.{
  ℕ, zero, suc, ◌+◌, ◌-◌, ◌*◌, ◌/◌, ◌%◌, String, ◌<>◌, ◌==◌, Bool, true, false, not, ◌||◌, ◌&&◌,
  Option, none, some, ltb, leb, nat_beq, is_digit, is_empty, lower, trim_start, text_take,
  text_drop, text_length, if◌then◌else◌,
}

-- `s.replace(/-/g, "")`
without_dashes : String → String
without_dashes String.[] = ""
without_dashes (String.◌∷◌ c s) =
    let rest = without_dashes s in if nat_beq (code c) b'-' then rest else String.◌∷◌ c rest

hex_digit : Char → Option ℕ
hex_digit c =
    let n = code (lower c) in
    if is_digit c
    then some (n - b'0')
    else if ltb n b'a' || ltb b'f' n
    then none
    else some (n - b'a' + 10)

read_hex : ℕ → String → ℕ
read_hex acc String.[] = acc
read_hex acc (String.◌∷◌ c s) = elim (hex_digit c) [
  | none ↦ acc
  | some d ↦ read_hex (acc * 16 + d) s
]

after_plus : String → String
after_plus String.[] = ""
after_plus (String.◌∷◌ c s) = if nat_beq (code c) b'+' then s else String.◌∷◌ c s

after_0x : String → String
after_0x s = if (text_take 2 s == "0x") || (text_take 2 s == "0X") then text_drop 2 s else s

-- `parseInt(s, 16)` for text without a dash, where `NaN` counts as 0, as it does for `^`
unfoldable pub parse_hex : String → ℕ
unfolding read_hex hex_digit after_plus after_0x
parse_hex s = read_hex 0 (after_0x (after_plus (trim_start s)))

-- The alphabet `CROCKFORD`
abbrev pub crockford : String
crockford = "0123456789ABCDEFGHJKMNPQRSTVWXYZ"

-- `out` after the rounds; `n & 0x1f` is the remainder by 32 and `n >>> 5` the quotient.
code_digits : (rounds n : ℕ) → (out : String) → String
code_digits zero n out = out
code_digits (suc rounds) n out =
    code_digits rounds (n / 32) (text_take 1 (text_drop (n % 32) crockford) <> out)

-- `traceCodeFromTraceId`
unfoldable pub trace_code_from_trace_id : String → String
unfolding without_dashes parse_hex code_digits
trace_code_from_trace_id trace_id =
    let hex = text_take 10 (without_dashes trace_id) in
    if ltb (text_length hex) 10
    then "R-0000"
    else "R-"
      <> code_digits 4
          (bit_xor (parse_hex (text_take 5 hex)) (parse_hex (text_take 5 (text_drop 5 hex)))) ""

is_id_char : Char → Bool
unfolding is_digit
is_id_char c = let n = code (lower c) in is_digit c || (leb b'a' n && leb n b'f') || nat_beq n b'-'

all_id_chars : String → Bool
all_id_chars String.[] = true
all_id_chars (String.◌∷◌ c s) = is_id_char c && all_id_chars s

-- `isPlausibleTraceId`
unfoldable pub is_plausible_trace_id : Option String → Bool
unfolding all_id_chars is_id_char
is_plausible_trace_id none = false
is_plausible_trace_id (some s) = not (is_empty s) && nat_beq (text_length s) 36 && all_id_chars s

-- `traceId`: the id that goes into the context and onto the response; `fresh` is a new one.
unfoldable pub trace_id_of : (incoming : Option String) → (fresh : String) → String
trace_id_of none fresh = fresh
trace_id_of (some s) fresh = if is_plausible_trace_id (some s) then s else fresh
