-- ===== src/Prelude/Text.antt =====
-- The operations of JavaScript strings that the program uses, over the native `String`.
use Prim.Native.Nat.{ℕ, zero, suc, ◌/◌, ◌%◌, ◌≤◌}
use Prim.Native.Char.{Char, code}
use Prim.Native.String.{String, [], ◌∷◌, ◌++◌}
use mathlib.Core.Path.{◌≡◌, refl, subst}
use text.Mathlib.TextPositions.{eq_refl}
use mathlib.Core.Logic.{◌≢◌, ◌↔◌}
use mathlib.Core.Bool.{Bool, true, false, not, ◌&&◌, ◌||◌}
use native.Mathlib.Omega.{arith}
use text.Mathlib.Text.{◌==◌, starts_with}
use mathlib.Core.Option.{Option, none, some}
use text.Mathlib.TextEquality.{eq_iff}
use text.Mathlib.TextLemmas.{cons-ne-nil}
use apply_agent.Prelude.Tests.{leb, ltb, nat_beq, if◌then◌else◌}

abbrev pub is_empty : String → Bool
is_empty [] = true
is_empty (c ∷ s) = false

-- `s || t`
abbrev pub or_else : String → String → String
or_else [] t = t
or_else (c ∷ s) t = c ∷ s

-- `s.length`, for text without characters beyond the basic plane
abbrev pub text_length : String → ℕ
text_length [] = 0
text_length (c ∷ s) = suc (text_length s)

-- `s.split(",")[0]`
unfoldable pub before_comma : String → String
before_comma [] = []
before_comma (c ∷ s) = let rest = before_comma s in if nat_beq (code c) b',' then [] else c ∷ rest

unfoldable pub is_digit : Char → Bool
is_digit c = leb b'0' (code c) && leb (code c) b'9'

-- The characters that `String.prototype.trim` removes: WhiteSpace and LineTerminator.
unfoldable pub is_space : Char → Bool
is_space c =
    let n = code c in
    (leb 9 n && leb n 13)
    || nat_beq n 32
    || nat_beq n 0xa0
    || nat_beq n 0x1680
    || (leb 0x2000 n && leb n 0x200a)
    || nat_beq n 0x2028
    || nat_beq n 0x2029
    || nat_beq n 0x202f
    || nat_beq n 0x205f
    || nat_beq n 0x3000
    || nat_beq n 0xfeff

unfoldable pub trim_start : String → String
trim_start [] = []
trim_start (c ∷ s) = let rest = trim_start s in if is_space c then rest else c ∷ s

unfoldable pub trim_end : String → String
trim_end [] = []
trim_end (c ∷ s) = let t = trim_end s in if is_empty t && is_space c then [] else c ∷ t

-- `s.trim()`
unfoldable pub trim : String → String
unfolding trim_start trim_end is_space
trim s = trim_end (trim_start s)

unfoldable pub digit : ℕ → String
digit n =
    if nat_beq n 0
    then "0"
    else if nat_beq n 1
    then "1"
    else if nat_beq n 2
    then "2"
    else if nat_beq n 3
    then "3"
    else if nat_beq n 4
    then "4"
    else if nat_beq n 5
    then "5"
    else if nat_beq n 6
    then "6"
    else if nat_beq n 7
    then "7"
    else if nat_beq n 8
    then "8"
    else "9"

-- The decimal digits, most significant first; each round divides by ten.
unfoldable pub decimal_from : ℕ → ℕ → String
decimal_from zero n = ""
decimal_from (suc fuel) n =
    let rest = decimal_from fuel (n / 10) ++ digit (n % 10) in if ltb n 10 then digit n else rest

-- `String(n)`
unfoldable pub to_decimal : ℕ → String
unfolding decimal_from digit
to_decimal n = decimal_from (suc n) n

-- More fuel than the number changes nothing.
to_decimal-fuel :
    (n fuel more : ℕ) → suc n ≤ fuel → fuel ≤ more → decimal_from fuel n ≡ decimal_from more n
unfolding decimal_from
to_decimal-fuel n zero more h k = elim h [ ]
to_decimal-fuel n (suc fuel) zero h k = elim k [ ]
to_decimal-fuel n (suc fuel) (suc more) h k = ground (arith, to_decimal-fuel (n / 10) fuel more)

-- `s.slice(0, n)`, for text without characters beyond the basic plane
unfoldable pub text_take : ℕ → String → String
text_take zero s = []
text_take (suc n) [] = []
text_take (suc n) (c ∷ s) = c ∷ text_take n s

-- `s.slice(n)`
unfoldable pub text_drop : ℕ → String → String
text_drop zero s = s
text_drop (suc n) [] = []
text_drop (suc n) (c ∷ s) = text_drop n s

-- The character at the place that `c` has in the first text
swap_case : String → String → Char → Char
swap_case (a ∷ s) (b ∷ t) c =
    let rest = swap_case s t c in if nat_beq (code a) (code c) then b else rest
swap_case [] t c = c
swap_case (a ∷ s) [] c = c

-- The letters of ASCII in lower case
unfoldable pub lower : Char → Char
unfolding swap_case
lower c = swap_case "ABCDEFGHIJKLMNOPQRSTUVWXYZ" "abcdefghijklmnopqrstuvwxyz" c

unfoldable pub upper : Char → Char
unfolding swap_case
upper c = swap_case "abcdefghijklmnopqrstuvwxyz" "ABCDEFGHIJKLMNOPQRSTUVWXYZ" c

-- `toLowerCase` and `toUpperCase`, for text of ASCII
unfoldable pub to_lower_case : String → String
to_lower_case [] = []
to_lower_case (c ∷ s) = lower c ∷ to_lower_case s

unfoldable pub to_upper_case : String → String
to_upper_case [] = []
to_upper_case (c ∷ s) = upper c ∷ to_upper_case s

-- The characters of `\w`
unfoldable pub is_word : Char → Bool
unfolding lower is_digit
is_word c = let n = code (lower c) in is_digit c || (leb b'a' n && leb n b'z') || nat_beq n b'_'

-- What `\b` asks for after a word character: the text does not go on with another one.
unfoldable pub ends_word : String → Bool
ends_word [] = true
ends_word (c ∷ s) = not (is_word c)

-- What follows the first text in the second one, if that starts with it
unfoldable pub after_text : String → String → Option String
after_text [] s = some s
after_text (p ∷ ps) [] = none
after_text (p ∷ ps) (c ∷ s) =
    let rest = after_text ps s in if nat_beq (code p) (code c) then rest else none

-- `s.includes(t)`
unfoldable pub text_includes : String → String → Bool
text_includes [] t = is_empty t
text_includes (c ∷ s) t = let rest = text_includes s t in starts_with (c ∷ s) t || rest

pub is_empty_iff : (s : String) → (is_empty s ≡ true) ↔ (s ≡ "")
is_empty_iff [] = (λ _. refl, λ _. refl)
is_empty_iff (c ∷ s) = (λ h. cc, λ e. absurd (cons-ne-nil c s e))

pub or_else-eq : (s t : String) → s ≢ "" → or_else s t ≡ s
or_else-eq [] t h = absurd (h refl)
or_else-eq (c ∷ s) t h = refl

pub str_neq : (s t : String) → s ≢ t → (s == t) ≡ false
str_neq s t h = ground (arith, eq_iff s t)

pub trim_lem : trim "  a b\n" ≡ "a b"
unfolding trim
trim_lem = refl

pub neq_of_test : (s t : String) → (s == t) ≡ false → s ≢ t
neq_of_test s t h e = cc (h, subst (λ u. (s == u) ≡ true) e (eq_refl s))
