-- ===== src/Web/ApiClient/Download.antt =====
-- `resumes.download` of api.ts: the name and the audit of the file, read off the response's headers.
pub mod Names
pub mod Audits
mod Tests
use apply_agent.Prelude.{
  ℕ, ◌+◌, String, ◌<>◌, ◌==◌, Bool, true, false, ◌&&◌, Option, none, some, pos, leb, nat_beq,
  get_or_else, if◌then◌else◌, is_empty,
}
use Prim.Native.Char.{Char, code}
use Prim.Native.String.{[], ◌∷◌}
use apply_agent.Prelude.Assoc.{Assoc, lookup}
use apply_agent.Api.Pagination.{JsNumber, no_integer, integer}
use apply_agent.Api.Export.{ExportFormat, pdf, docx, export_ext}

-- The flag `i`: a letter of ASCII is compared in lower case.
unfoldable pub fold_code : Char → ℕ
fold_code c = let n = code c in if leb b'A' n && leb n b'Z' then n + 32 else n

-- What follows the first text in the second one, if that starts with it
unfoldable pub after_folded : String → String → Option String
after_folded [] s = some s
after_folded (p ∷ ps) [] = none
after_folded (p ∷ ps) (c ∷ s) =
    let rest = after_folded ps s in if nat_beq (fold_code p) (fold_code c) then rest else none

-- The leftmost place of the text where the expression matches
unfoldable pub search : (String → Option String) → String → Option String
search at [] = at []
search at (c ∷ s) =
    let later = search at s in elim (at (c ∷ s)) [ none ↦ later | some found ↦ some found ]

unfoldable pub not_empty : String → Option String
not_empty s = if is_empty s then none else some s

-- `[^;]+`
unfoldable pub to_semicolon : String → String
to_semicolon [] = []
to_semicolon (c ∷ s) = let rest = to_semicolon s in if nat_beq (code c) b';' then [] else c ∷ rest

-- `[^";]+`
unfoldable pub to_quote : String → String
to_quote [] = []
to_quote (c ∷ s) =
    let rest = to_quote s in
    if nat_beq (code c) b'"' then [] else if nat_beq (code c) b';' then [] else c ∷ rest

-- `"?`
unfoldable pub drop_quote : String → String
drop_quote [] = []
drop_quote (c ∷ s) = if nat_beq (code c) b'"' then s else c ∷ s

abbrev pub utf8_marker : String
utf8_marker = "filename*=UTF-8''"

-- `/filename\*=UTF-8''([^;]+)/i`
unfoldable pub utf8_at : String → Option String
utf8_at s = elim (after_folded utf8_marker s) [
  | none ↦ none
  | some rest ↦ not_empty (to_semicolon rest)
]

-- `/filename="?([^";]+)"?/i`; what comes after the group does not matter.
unfoldable pub ascii_at : String → Option String
ascii_at s = elim (after_folded "filename=" s) [
  | none ↦ none
  | some rest ↦ not_empty (to_quote (drop_quote rest))
]

-- `filename`; `decode` is `decodeURIComponent`, where `none` is a `URIError`.
unfoldable pub filename_of :
    (decode : String → Option String)
    → (content_disposition : Option String) → ExportFormat
    → Option String
filename_of decode content_disposition format =
    let cd = get_or_else content_disposition "" in
    elim (search utf8_at cd) [
      | some encoded ↦ decode encoded
      | none ↦ some (get_or_else (search ascii_at cd) ("resume." <> export_ext format))
    ]

-- `normalizedArtifactFormat`
unfoldable pub artifact_format_of : Option String → Option ExportFormat
artifact_format_of none = none
artifact_format_of (some s) =
    if s == "pdf" then some pdf else if s == "docx" then some docx else none

-- `Number.isInteger(n) && n >= 1`
unfoldable pub positive : JsNumber → Option ℕ
positive (integer (pos n)) = if leb 1 n then some n else none
positive other = none

-- `n === 1 || n === 2`
unfoldable pub one_or_two : JsNumber → Option ℕ
one_or_two (integer (pos n)) = if nat_beq n 1 then some n else if nat_beq n 2 then some n else none
one_or_two other = none

-- `h === "true" ? true : h === "false" ? false : null`
unfoldable pub flag_of : Option String → Option Bool
flag_of none = none
flag_of (some s) = if s == "true" then some true else if s == "false" then some false else none

-- `audit`
pub record ArtifactAudit : Type 0 where
  pub renderer_version : ℕ
  pub format : ExportFormat
  pub target_pages : ℕ
  pub page_count : Option ℕ
  pub within_budget : Option Bool

-- `header !== null && …` on its number; `to_number` is `Number`.
unfoldable pub header_number :
    (to_number : String → JsNumber) → (JsNumber → Option ℕ) → Option String → Option ℕ
header_number to_number test none = none
header_number to_number test (some raw) = test (to_number raw)

unfoldable pub audit_from :
    (renderer_version target_pages : Option ℕ)
    → Option ExportFormat
    → (page_count : Option ℕ) → (within_budget : Option Bool) → Option ArtifactAudit
audit_from (some version) (some target) (some format) pages within = some (record {
  renderer_version = version;
  format = format;
  target_pages = target;
  page_count = pages;
  within_budget = within;
})
audit_from version target format pages within = none

unfoldable pub audit_of : (to_number : String → JsNumber) → Assoc String → Option ArtifactAudit
unfolding audit_from
audit_of to_number headers =
    audit_from
      (header_number to_number positive (lookup "x-relay-artifact-renderer-version" headers))
      (header_number to_number one_or_two (lookup "x-relay-artifact-target-pages" headers))
      (artifact_format_of (lookup "x-relay-artifact-format" headers))
      (header_number to_number positive (lookup "x-relay-artifact-page-count" headers))
      (flag_of (lookup "x-relay-artifact-within-budget" headers))
