-- ===== src/Extension/Rules.antt =====
-- local-fill.ts: `RULES`, the patterns that choose the profile's slot for a field. Each pattern has
-- the form `\b(?:…|…)\b`, with letters at both ends of each alternative.
use Prim.Native.Char.{code}
use apply_agent.Prelude.{
  ℕ, String, Bool, false, not, ◌&&◌, ◌||◌, Option, none, some, List, [], ◌∷◌, ◌++◌, nat_beq,
  is_space, is_word, ends_word, after_text, if◌then◌else◌,
}
use apply_agent.Extension.{FieldType, text, email, tel, url, textarea, select, radio, ProfileKey}

-- `lit s` is s itself, `spaces` is `\s*`, `gap` is `[-\s]?`, `maybe s` is `(?:s)?`, and `d_or_s` is
-- `[ds]?`.
pub data Piece : Type 0 where
  lit : String → Piece
  spaces gap d_or_s : Piece
  maybe : String → Piece

space_rests : String → List String
space_rests String.[] = "" ∷ []
space_rests (String.◌∷◌ c s) =
    let rest = space_rests s in if is_space c then String.◌∷◌ c s ∷ rest else String.◌∷◌ c s ∷ []

optional_rests : Option String → String → List String
optional_rests none s = s ∷ []
optional_rests (some rest) s = rest ∷ s ∷ []

found_rests : Option String → List String
found_rests none = []
found_rests (some rest) = rest ∷ []

gap_rest : String → Option String
gap_rest String.[] = none
gap_rest (String.◌∷◌ c s) = if nat_beq (code c) b'-' || is_space c then some s else none

d_or_s_rest : String → Option String
d_or_s_rest String.[] = none
d_or_s_rest (String.◌∷◌ c s) =
    if nat_beq (code c) b'd' || nat_beq (code c) b's' then some s else none

-- What may be left of the text after the piece
rests : Piece → String → List String
unfolding found_rests space_rests optional_rests gap_rest d_or_s_rest
rests (lit t) s = found_rests (after_text t s)
rests spaces s = space_rests s
rests gap s = optional_rests (gap_rest s) s
rests d_or_s s = optional_rests (d_or_s_rest s) s
rests (maybe t) s = optional_rests (after_text t s) s

all_rests : Piece → List String → List String
all_rests p [] = []
all_rests p (s ∷ ss) = rests p s ++ all_rests p ss

run : List Piece → List String → List String
run [] ss = ss
run (p ∷ ps) ss = run ps (all_rests p ss)

some_ends : List String → Bool
some_ends [] = false
some_ends (s ∷ ss) = ends_word s || some_ends ss

some_alternative : List (List Piece) → String → Bool
some_alternative [] s = false
some_alternative (a ∷ others) s = some_ends (run a (s ∷ [])) || some_alternative others s

-- The test from a place on; `inside` says whether a word character stands before it.
test_from : (inside : Bool) → List (List Piece) → String → Bool
test_from inside pattern String.[] = false
test_from inside pattern (String.◌∷◌ c s) =
    (not inside && some_alternative pattern (String.◌∷◌ c s)) || test_from (is_word c) pattern s

pub record Rule : Type 0 where
  pub pattern : List (List Piece)
  pub profile_key : ProfileKey
  pub allowed_types : List FieldType
  pub confidence : ℕ

-- `rule.pattern.test(haystack)`
unfoldable pub pattern_test : List (List Piece) → String → Bool
unfolding test_from some_alternative some_ends run all_rests rests found_rests space_rests
    optional_rests gap_rest d_or_s_rest
pattern_test pattern haystack = test_from false pattern haystack

abbrev word : String → List Piece
word s = lit s ∷ []

abbrev words : String → String → List Piece
words s t = lit s ∷ spaces ∷ lit t ∷ []

abbrev one : List Piece → List (List Piece)
one p = p ∷ []

abbrev rule : List (List Piece) → ProfileKey → List FieldType → ℕ → Rule
rule pattern key types confidence = record {
  pattern = pattern;
  profile_key = key;
  allowed_types = types;
  confidence = confidence;
}

abbrev link_types : List FieldType
link_types = url ∷ text ∷ []

-- `RULES`; the confidence in hundredths
unfoldable pub rules : List Rule
rules =
    rule ((lit "e" ∷ gap ∷ lit "mail" ∷ []) ∷ words "email" "address" ∷ []) ProfileKey.email
      (email ∷ text ∷ []) 95
    ∷ rule (word "phone" ∷ word "mobile" ∷ (lit "tel" ∷ maybe "ephone" ∷ []) ∷ word "cell" ∷ [])
        ProfileKey.phone (tel ∷ text ∷ []) 95
    ∷ rule (one (lit "linked" ∷ gap ∷ lit "in" ∷ [])) ProfileKey.linkedin link_types 95
    ∷ rule (one (word "github")) ProfileKey.github link_types 95
    ∷ rule (word "portfolio" ∷ words "case" "study" ∷ []) ProfileKey.portfolio link_types 85
    ∷ rule (word "website" ∷ words "personal" "site" ∷ word "blog" ∷ word "homepage" ∷ [])
        ProfileKey.website link_types 80
    ∷ rule (words "first" "name" ∷ words "given" "name" ∷ word "forename" ∷ [])
        ProfileKey.first_name (text ∷ []) 95
    ∷ rule (words "last" "name" ∷ word "surname" ∷ words "family" "name" ∷ []) ProfileKey.last_name
        (text ∷ []) 95
    ∷ rule
        (words "full" "name" ∷ words "preferred" "name" ∷ words "legal" "name" ∷ word "name" ∷ [])
        ProfileKey.full_name (text ∷ []) 80
    ∷ rule (one (word "city")) ProfileKey.city (text ∷ []) 90
    ∷ rule (word "state" ∷ word "province" ∷ word "region" ∷ []) ProfileKey.state (text ∷ []) 85
    ∷ rule (one (word "country")) ProfileKey.country (text ∷ select ∷ []) 85
    ∷ rule
        (words "work" "auth"
          ∷ (lit "authorized" ∷ spaces ∷ lit "to" ∷ spaces ∷ lit "work" ∷ [])
          ∷ (lit "right" ∷ spaces ∷ lit "to" ∷ spaces ∷ lit "work" ∷ [])
          ∷ word "visa"
          ∷ [])
        ProfileKey.work_authorization (text ∷ select ∷ textarea ∷ []) 60
    ∷ rule
        ((lit "require" ∷ d_or_s ∷ spaces ∷ lit "sponsor" ∷ maybe "ship" ∷ [])
          ∷ (lit "need" ∷ spaces ∷ lit "sponsor" ∷ maybe "ship" ∷ [])
          ∷ word "sponsorship"
          ∷ [])
        ProfileKey.needs_sponsorship (select ∷ radio ∷ []) 60
    ∷ []
