-- ===== src/Web/ErrorRouter/Keys.antt =====
-- errors/resolve.ts: `keysFor` and `messageKeyToTitleBody`, the keys of an error's title and body.
use Prim.Native.Char.{code}
use apply_agent.Prelude.{
  String, ◌<>◌, ◌==◌, ◌||◌, Option, none, some, List, [], ◌∷◌, nat_beq, to_lower_case, upper,
  is_empty, if◌then◌else◌,
}

infixl 5 ◌>>=◌
abbrev ◌>>=◌ : {A B : Type 0} → Option A → (A → Option B) → Option B
none >>= next = none
some a >>= next = next a

pub record Titles : Type 0 where
  pub title_key : String
  pub body_key : String

-- `messageKeyToTitleBody`
unfoldable pub message_key_to_title_body : String → Titles
message_key_to_title_body key = record { title_key = key <> ".title"; body_key = key <> ".body" }

unknown_titles : Titles
unknown_titles = record {
  title_key = "errors._common.unknownTitle";
  body_key = "errors._common.unknownBody";
}

-- `s.split("_")`
split_underscores : String → List String
split_underscores String.[] = "" ∷ []
split_underscores (String.◌∷◌ c s) = elim (split_underscores s) [
  | [] ↦ []
  | part ∷ parts ↦ if nat_beq (code c) b'_' then "" ∷ part ∷ parts else String.◌∷◌ c part ∷ parts
]

-- `p[0].toUpperCase() + p.slice(1)`, a TypeError on the empty text
capitalize : String → Option String
capitalize String.[] = none
capitalize (String.◌∷◌ c s) = some (String.◌∷◌ (upper c) s)

capitalize_all : List String → Option String
capitalize_all [] = some ""
capitalize_all (p ∷ ps) = do word ← capitalize p; rest ← capitalize_all ps; some (word <> rest)

-- `remapDomain`
unfoldable pub remap_domain : String → String
remap_domain domain =
    if (domain == "db") || (domain == "cache") || (domain == "internal")
    then "system"
    else if (domain == "rate") || (domain == "quota")
    then "throttling"
    else domain

titles_of_parts : List String → Option Titles
unfolding capitalize_all capitalize unknown_titles
titles_of_parts (domain ∷ first ∷ rest) = do
  tail ← capitalize_all rest
  some (message_key_to_title_body ("errors." <> (remap_domain domain <> ("." <> (first <> tail)))))
titles_of_parts _ = some unknown_titles

-- `keysFor`; `none` is the TypeError.
unfoldable pub keys_for : Option String → Option Titles
unfolding titles_of_parts split_underscores unknown_titles
keys_for none = some unknown_titles
keys_for (some code) =
    if is_empty code
    then some unknown_titles
    else titles_of_parts (split_underscores (to_lower_case code))
