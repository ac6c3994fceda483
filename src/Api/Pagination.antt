-- ===== src/Api/Pagination.antt =====
-- pagination.ts: the query of a list route, and the envelope of a page.
-- `Number(raw)` is the parameter `to_number`: a text is a number that is no integer (NaN, an
-- infinity, a fraction) or an integer.
pub mod Laws
mod Tests
use Prim.Native.Char.{Char, code}
use Prim.Native.String
use apply_agent.Prelude.{
  ℕ, ◌+◌, ◌-◌, String, ◌<>◌, ◌==◌, Bool, true, false, ◌||◌, ◌&&◌, Option, none, some, List, [], ◌∷◌,
  length, ltb, leb, nat_beq, ℤ, pos, negsuc, if◌then◌else◌, is_empty, get_or_else,
}
use apply_agent.Api.Errors.{Result, ok, err, validation, ◌>>=◌}

pub data Order : Type 0 where
  asc desc : Order

pub record PaginationParams : Type 0 where
  pub limit : ℕ
  pub offset : ℕ
  pub sort : String
  pub order : Order

pub record PaginationOptions : Type 0 where
  pub sortable : List String
  pub default_limit : Option ℕ
  pub max_limit : Option ℕ
  pub default_order : Option Order

pub record RawQuery : Type 0 where
  pub limit : Option String
  pub offset : Option String
  pub sort : Option String
  pub order : Option String

pub data JsNumber : Type 0 where
  no_integer : JsNumber
  integer : ℤ → JsNumber

-- `Number.MAX_SAFE_INTEGER`
abbrev pub max_safe_integer : ℕ
max_safe_integer = 9007199254740991

clamp : ℕ → ℕ → ℤ → ℕ
clamp lo hi (negsuc n) = lo
clamp lo hi (pos n) = if ltb n lo then lo else if ltb hi n then hi else n

clamp_number : (raw name : String) → ℕ → ℕ → JsNumber → Result ℕ
clamp_number raw name lo hi no_integer =
    err (validation ("Invalid " <> (name <> (" \"" <> (raw <> "\" (must be an integer)")))) [])
clamp_number raw name lo hi (integer n) = ok (clamp lo hi n)

-- `clampInt`; the bounds of both calls are natural numbers, so a negative number is below them.
unfoldable pub clamp_int :
    (String → JsNumber) → Option String → (fallback lo hi : ℕ) → (name : String) → Result ℕ
unfolding clamp clamp_number
clamp_int to_number none fallback lo hi name = ok fallback
clamp_int to_number (some raw) fallback lo hi name =
    if is_empty raw then ok fallback else clamp_number raw name lo hi (to_number raw)

-- `includes`
unfoldable pub includes : List String → String → Bool
includes [] s = false
includes (x ∷ xs) s = x == s || includes xs s

unfoldable pub pick_sort : List String → Option String → Result String
pick_sort sortable none = err (validation "Invalid sort field \"undefined\"" sortable)
pick_sort sortable (some sort) =
    if includes sortable sort
    then ok sort
    else err (validation ("Invalid sort field \"" <> (sort <> "\"")) sortable)

-- `q.sort ?? opts.sortable[0]`
abbrev pub sort_or_first : Option String → List String → Option String
sort_or_first (some sort) sortable = some sort
sort_or_first none [] = none
sort_or_first none (first ∷ rest) = some first

-- `toUpperCase`, as far as it decides the comparison with "ASC" and "DESC": of the characters
-- beyond ASCII only U+017F becomes one of their letters.
upper_code : ℕ → ℕ
upper_code c = if leb b'a' c && leb c b'z' then c - 32 else if nat_beq c 0x17f then b'S' else c

abbrev upper_codes : String → List ℕ
upper_codes String.[] = []
upper_codes (String.◌∷◌ c s) = upper_code (code c) ∷ upper_codes s

same_codes : List ℕ → List ℕ → Bool
same_codes [] [] = true
same_codes (x ∷ xs) (y ∷ ys) = nat_beq x y && same_codes xs ys
same_codes _ _ = false

abbrev order_name : Option Order → String
order_name none = "DESC"
order_name (some asc) = "ASC"
order_name (some desc) = "DESC"

unfoldable pub pick_order : Option String → Option Order → Result Order
unfolding upper_code same_codes
pick_order raw fallback =
    let codes = upper_codes (get_or_else raw (order_name fallback)) in
    if same_codes codes (b'A' ∷ b'S' ∷ b'C' ∷ [])
    then ok asc
    else if same_codes codes (b'D' ∷ b'E' ∷ b'S' ∷ b'C' ∷ [])
    then ok desc
    else err (
        validation ("Invalid order \"" <> (get_or_else raw "undefined" <> "\" (use asc or desc)"))
          [])

-- `parsePagination`
unfoldable pub parse_pagination :
    (String → JsNumber) → RawQuery → PaginationOptions → Result PaginationParams
parse_pagination to_number q opts = do
  limit ←
      clamp_int to_number q.limit (get_or_else opts.default_limit 20) 1
        (get_or_else opts.max_limit 100) "limit"
  offset ← clamp_int to_number q.offset 0 0 max_safe_integer "offset"
  sort ← pick_sort opts.sortable (sort_or_first q.sort opts.sortable)
  order ← pick_order q.order opts.default_order
  ok (record { limit = limit; offset = offset; sort = sort; order = order })

pub record PaginatedEnvelope {ℓ} (T : Type ℓ) : Type ℓ where
  pub rows : List T
  pub total : ℕ
  pub limit : ℕ
  pub offset : ℕ
  pub next_offset : Option ℕ

-- `paginated`
unfoldable pub paginated {ℓ} : {T : Type ℓ} → List T → ℕ → (limit offset : ℕ) → PaginatedEnvelope T
paginated rows total limit offset = record {
  rows = rows;
  total = total;
  limit = limit;
  offset = offset;
  next_offset = if ltb (offset + length rows) total then some (offset + length rows) else none;
}
