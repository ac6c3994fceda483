-- ===== src/Api/Export.antt =====
-- resume-export.ts: the formats of an export and the name of its file; with the header that carries
-- the name, `attachmentHeader` of routes/resumes.ts.
pub mod Laws
use apply_agent.Prelude.{
  ℕ, String, ◌<>◌, ◌==◌, Bool, true, false, ◌&&◌, ◌||◌, Option, none, some, Json, str, obj, leb,
  nat_beq, if◌then◌else◌, is_empty, is_digit, or_else, text_take, to_decimal, json_field,
}
use Prim.Native.Char.{Char, code}
use Prim.Native.String.{[], ◌∷◌}

-- `EXPORT_FORMATS`
pub data ExportFormat : Type 0 where
  md json pdf docx : ExportFormat

-- `isExportFormat`; the parameter of a query is a text.
unfoldable pub export_format_of : String → Option ExportFormat
export_format_of s =
    if s == "md"
    then some md
    else if s == "json"
    then some json
    else if s == "pdf"
    then some pdf
    else if s == "docx"
    then some docx
    else none

-- `EXPORT_MIME`
unfoldable pub export_mime : ExportFormat → String
export_mime md = "text/markdown; charset=utf-8"
export_mime json = "application/json; charset=utf-8"
export_mime pdf = "application/pdf"
export_mime docx = "application/vnd.openxmlformats-officedocument.wordprocessingml.document"

-- `EXPORT_EXT`
unfoldable pub export_ext : ExportFormat → String
export_ext md = "md"
export_ext json = "json"
export_ext pdf = "pdf"
export_ext docx = "docx"

-- `[a-z0-9]`
unfoldable pub is_slug : Char → Bool
unfolding is_digit
is_slug c = is_digit c || (leb b'a' (code c) && leb (code c) b'z')

-- `.replace(/[^a-z0-9]+/g, "-")`; the flag says that the run before has its dash already.
unfoldable pub dash_runs : Bool → String → String
dash_runs dashed [] = []
dash_runs dashed (c ∷ s) =
    let kept = c ∷ dash_runs false s in
    let run = dash_runs true s in if is_slug c then kept else if dashed then run else "-" ∷ run

unfoldable pub drop_dashes : String → String
drop_dashes [] = []
drop_dashes (c ∷ s) = let rest = drop_dashes s in if nat_beq (code c) b'-' then rest else c ∷ s

unfoldable pub drop_last_dashes : String → String
drop_last_dashes [] = []
drop_last_dashes (c ∷ s) =
    let rest = drop_last_dashes s in if is_empty rest && nat_beq (code c) b'-' then [] else c ∷ rest

-- What `slugify` does with a text after `fold`
unfoldable pub slug_of : String → String
unfolding drop_dashes drop_last_dashes dash_runs
slug_of s = text_take 64 (drop_last_dashes (drop_dashes (dash_runs false s)))

-- `slugify`; `fold` stands for `normalize("NFKD")`, the removal of `\p{M}` and `toLowerCase`, which
-- are tables of the platform.
unfoldable pub slugify : (fold : String → String) → Option Json → String
slugify fold (some (str s)) = slug_of (fold s)
slugify fold other = ""

-- `v?.key`; a value that is no object has no field of a résumé.
unfoldable pub optional_chain : String → Option Json → Option Json
optional_chain key (some (obj fields)) = json_field key fields
optional_chain key other = none

-- `exportFilename`
unfoldable pub export_filename :
    (fold : String → String) → (parsed : Json) → (version_label : String) → ExportFormat → String
unfolding slugify optional_chain
export_filename fold parsed version_label format =
    or_else (slugify fold (optional_chain "name" (optional_chain "basics" (some parsed)))) "resume"
    <> ("-" <> (version_label <> ("." <> export_ext format)))

-- `v${version}`
abbrev pub version_label : ℕ → String
version_label version = "v" <> to_decimal version

-- `.replace(/[^\x20-\x7E]/g, "_")`, for text of the basic plane
unfoldable pub printable : String → String
printable [] = []
printable (c ∷ s) =
    let rest = printable s in
    if leb 0x20 (code c) && leb (code c) 0x7e then c ∷ rest else "_" ∷ rest

-- `attachmentHeader`; `encode` is `encodeURIComponent`.
unfoldable pub attachment_header : (encode : String → String) → (filename : String) → String
attachment_header encode filename =
    "attachment; filename=\""
    <> (printable filename <> ("\"; filename*=UTF-8''" <> encode filename))
