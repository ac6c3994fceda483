-- ===== src/Web/Compare/Text.antt =====
-- resume-compare.ts: when a bullet may be a rewrite of another one.
use Prim.Native.Char.{Char, code}
use apply_agent.Prelude.{
  ℕ, suc, ◌*◌, String, ◌<>◌, ◌==◌, Bool, true, false, not, ◌&&◌, ◌||◌, List, [], ◌∷◌, length, leb,
  nat_beq, is_digit, is_empty, text_includes, text_length, to_lower_case, if◌then◌else◌,
}

-- `[a-z0-9%+.]`
is_kept : Char → Bool
is_kept c =
    let n = code c in
    is_digit c || (leb b'a' n && leb n b'z') || nat_beq n b'%' || nat_beq n b'+' || nat_beq n b'.'

-- The runs of kept characters
words_from : String → List String
words_from String.[] = "" ∷ []
words_from (String.◌∷◌ c s) = elim (words_from s) [
  | [] ↦ []
  | w ∷ ws ↦ if is_kept c then String.◌∷◌ c w ∷ ws else "" ∷ w ∷ ws
]

nonempty : List String → List String
nonempty [] = []
nonempty (w ∷ ws) = let rest = nonempty ws in if is_empty w then rest else w ∷ rest

join_words : List String → String
join_words [] = ""
join_words (w ∷ []) = w
join_words (w ∷ v ∷ ws) = w <> (" " <> join_words (v ∷ ws))

unfoldable pub words_of : String → List String
unfolding words_from is_kept nonempty
words_of value = nonempty (words_from (to_lower_case value))

-- `normalized`
unfoldable pub normalized : String → String
unfolding join_words
normalized value = join_words (words_of value)

unfoldable pub member : List String → String → Bool
member [] w = false
member (v ∷ vs) w = let rest = member vs w in (v == w) || rest

-- `COMMON_WORDS`
abbrev common_words : List String
common_words =
    "and" ∷ "the" ∷ "for" ∷ "with" ∷ "from" ∷ "into" ∷ "that" ∷ "this" ∷ "built" ∷ "build"
    ∷ "developed" ∷ "created" ∷ "improved" ∷ "optimized" ∷ "using" ∷ "through" ∷ "service"
    ∷ "services" ∷ []

-- `facts(value).words`: a set, so a word counts once.
unfoldable pub fact_words : List String → List String
unfolding member
fact_words [] = []
fact_words (w ∷ ws) =
    let rest = fact_words ws in
    if leb 3 (text_length w) && not (member common_words w) && not (member rest w)
    then w ∷ rest
    else rest

-- Where the scan for `/\d+(?:\.\d+)?%?/g` stands: outside a number, after its digits, after the dot, or
-- after digits behind the dot; each with what it has of the number.
pub data Scan : Type 0 where
  outside : Scan
  whole after_dot fraction : String → Scan

char_text : Char → String
char_text c = String.◌∷◌ c ""

-- The number that ends here, and the scan from a character on that belongs to none
close : Char → String → List String → List String
close c acc rest = if nat_beq (code c) b'%' then (acc <> "%") ∷ rest else acc ∷ rest

scan_numbers : Scan → String → List String
unfolding char_text close
scan_numbers outside String.[] = []
scan_numbers (whole acc) String.[] = acc ∷ []
scan_numbers (after_dot acc) String.[] = acc ∷ []
scan_numbers (fraction acc) String.[] = acc ∷ []
scan_numbers outside (String.◌∷◌ c s) =
    if is_digit c then scan_numbers (whole (char_text c)) s else scan_numbers outside s
scan_numbers (whole acc) (String.◌∷◌ c s) =
    if is_digit c
    then scan_numbers (whole (acc <> char_text c)) s
    else if nat_beq (code c) b'.'
    then scan_numbers (after_dot acc) s
    else close c acc (scan_numbers outside s)
scan_numbers (after_dot acc) (String.◌∷◌ c s) =
    if is_digit c
    then scan_numbers (fraction (acc <> ("." <> char_text c))) s
    else acc ∷ scan_numbers outside s
scan_numbers (fraction acc) (String.◌∷◌ c s) =
    if is_digit c
    then scan_numbers (fraction (acc <> char_text c)) s
    else close c acc (scan_numbers outside s)

all_in : List String → List String → Bool
all_in [] ws = true
all_in (v ∷ vs) ws = member ws v && all_in vs ws

count_in : List String → List String → ℕ
count_in [] ws = 0
count_in (v ∷ vs) ws = let rest = count_in vs ws in if member ws v then suc rest else rest

-- The numbers of the base are in the candidate, or 55 percent of its words are.
shares_facts : String → String → Bool
unfolding all_in count_in
shares_facts base candidate =
    let numbers = scan_numbers outside (normalized base) in
    let words = fact_words (words_of base) in
    (not (leb (length numbers) 0) && all_in numbers (scan_numbers outside (normalized candidate)))
    || (not (leb (length words) 0)
        && leb (length words * 55) (count_in words (fact_words (words_of candidate)) * 100))

-- `likelyRewriteOf`; the quotient of the counts is compared with 0.55 exactly.
unfoldable pub likely_rewrite_of : (base candidate : String) → Bool
unfolding shares_facts scan_numbers
likely_rewrite_of base candidate =
    let left = normalized base in
    let right = normalized candidate in
    if is_empty left || is_empty right
    then false
    else (left == right)
      || text_includes left right
      || text_includes right left
      || shares_facts base candidate
