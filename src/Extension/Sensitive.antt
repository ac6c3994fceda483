-- ===== src/Extension/Sensitive.antt =====
-- sensitive.ts: the deny-list of form fields that the extension never touches.
use apply_agent.Prelude.{String, Bool, false, ◌||◌, List, [], ◌∷◌, text_includes}

-- `SENSITIVE_FIELD_TOKENS`
abbrev sensitive_field_tokens : List String
sensitive_field_tokens =
    "race" ∷ "ethnicity" ∷ "gender" ∷ "gender identity" ∷ "pronoun" ∷ "sex" ∷ "disability"
    ∷ "veteran" ∷ "sexual orientation" ∷ "religion" ∷ "marital status" ∷ "ssn" ∷ "social security"
    ∷ "social security number" ∷ "citizenship" ∷ "visa" ∷ "passport" ∷ "national id"
    ∷ "national insurance" ∷ "tax id" ∷ "tin" ∷ "date of birth" ∷ "dob" ∷ "birth date" ∷ "birthdate"
    ∷ "driver's license" ∷ "drivers license" ∷ "license number" ∷ []

has_token : List String → String → Bool
has_token [] haystack = false
has_token (t ∷ ts) haystack = let rest = has_token ts haystack in text_includes haystack t || rest

-- `isSensitiveLabel`
unfoldable pub is_sensitive_label : String → Bool
unfolding has_token text_includes
is_sensitive_label haystack = has_token sensitive_field_tokens haystack
