-- ===== src/Api/ArtifactProfile.antt =====
-- resume-artifact-profile.ts: the layout of an exported file and the headers of its audit; with the
-- audits that pdf-render.ts and docx-export.ts make of a profile. Lengths are in hundredths, points
-- and millimetres alike.
use apply_agent.Prelude.{
  ℕ, String, ◌==◌, Bool, true, false, Option, none, some, List, [], ◌∷◌, ◌++◌, Json, num, str, obj,
  Fields, end, pos, leb, json_field, to_decimal, if◌then◌else◌,
}
use apply_agent.Prelude.Assoc.{Assoc}
use apply_agent.Api.Locale.{SupportedLocale, en, zh}
use apply_agent.Api.Export.{ExportFormat, pdf, docx, export_ext, export_mime, attachment_header}

abbrev pub artifact_renderer_version : ℕ
artifact_renderer_version = 2

pub data LengthBudget : Type 0 where
  one_page two_page : LengthBudget

pub data AtsProfile : Type 0 where
  standard strict : AtsProfile

pub record Typography : Type 0 where
  pub body_font : String
  pub east_asia_font : String
  pub body_size : ℕ
  pub body_line_height : ℕ
  pub name_size : ℕ
  pub section_size : ℕ
  pub role_size : ℕ
  pub bullet_indent : ℕ
  pub section_before : ℕ
  pub paragraph_after : ℕ
  pub bullet_after : ℕ

pub record PageLayout : Type 0 where
  pub paper : String
  pub width : ℕ
  pub height : ℕ
  pub margin_top : ℕ
  pub margin_right : ℕ
  pub margin_bottom : ℕ
  pub margin_left : ℕ

pub record ArtifactProfile : Type 0 where
  pub renderer_version : ℕ
  pub preset : String
  pub named_overrides : List String
  pub compiler_profile_version : ℕ
  pub artifact_locale : SupportedLocale
  pub length_budget : LengthBudget
  pub ats_profile : AtsProfile
  pub target_pages : ℕ
  pub page : PageLayout
  pub typography : Typography

-- `PROFILE_TOKENS`, with the tokens that do not depend on the budget
unfoldable pub profile_tokens : LengthBudget → Typography
profile_tokens one_page = record {
  body_font = "Arial";
  east_asia_font = "Microsoft YaHei";
  body_size = 950;
  body_line_height = 120;
  name_size = 2000;
  section_size = 1025;
  role_size = 975;
  bullet_indent = 480;
  section_before = 280;
  paragraph_after = 90;
  bullet_after = 45;
}
profile_tokens two_page = record {
  body_font = "Arial";
  east_asia_font = "Microsoft YaHei";
  body_size = 1050;
  body_line_height = 120;
  name_size = 2100;
  section_size = 1100;
  role_size = 1050;
  bullet_indent = 480;
  section_before = 340;
  paragraph_after = 100;
  bullet_after = 55;
}

abbrev pub page_layout : PageLayout
page_layout = record {
  paper = "A4";
  width = 21000;
  height = 29700;
  margin_top = 1200;
  margin_right = 1400;
  margin_bottom = 1200;
  margin_left = 1400;
}

-- `asRecord`
abbrev pub as_record : Option Json → Fields
as_record (some (obj fields)) = fields
as_record other = end

-- `v === "en" || v === "zh"`
unfoldable pub locale_of : Option Json → Option SupportedLocale
locale_of (some (str s)) = if s == "en" then some en else if s == "zh" then some zh else none
locale_of other = none

unfoldable pub length_budget_of : Option Json → LengthBudget
length_budget_of (some (str s)) = if s == "one_page" then one_page else two_page
length_budget_of other = two_page

unfoldable pub ats_profile_of : Option Json → AtsProfile
ats_profile_of (some (str s)) = if s == "strict" then strict else standard
ats_profile_of other = standard

-- A number that is an integer and not negative
unfoldable pub profile_version_of : Option Json → ℕ
profile_version_of (some (num (pos n))) = n
profile_version_of other = 0

unfoldable pub target_pages_of : LengthBudget → ℕ
target_pages_of one_page = 1
target_pages_of two_page = 2

abbrev locale_or : Option SupportedLocale → SupportedLocale → SupportedLocale
locale_or none fallback = fallback
locale_or (some locale) fallback = locale

-- `resolveResumeArtifactProfile`
unfoldable pub resolve_artifact_profile :
    (compiler_config : Option Json) → (fallback_locale : SupportedLocale) → ArtifactProfile
resolve_artifact_profile compiler_config fallback_locale =
    let config = as_record compiler_config in
    let budget = length_budget_of (json_field "length_budget" config) in
    record {
      renderer_version = artifact_renderer_version;
      preset = "compact_reference_guide";
      named_overrides = "ats_resume_a4" ∷ "monochrome_ats_header" ∷ [];
      compiler_profile_version = profile_version_of (json_field "profile_version" config);
      artifact_locale = locale_or (locale_of (json_field "artifact_locale" config)) fallback_locale;
      length_budget = budget;
      ats_profile = ats_profile_of (json_field "ats_profile" config);
      target_pages = target_pages_of budget;
      page = page_layout;
      typography = profile_tokens budget;
    }

-- `ResumeArtifactAudit`; its format is never `md` or `json`.
pub record ResumeArtifactAudit : Type 0 where
  pub renderer_version : ℕ
  pub format : ExportFormat
  pub artifact_locale : SupportedLocale
  pub length_budget : LengthBudget
  pub ats_profile : AtsProfile
  pub target_pages : ℕ
  pub page_count : Option ℕ
  pub within_budget : Option Bool

-- The audit that `renderResumePdf` returns
unfoldable pub pdf_audit : ArtifactProfile → (page_count : ℕ) → ResumeArtifactAudit
pdf_audit profile page_count = record {
  renderer_version = profile.renderer_version;
  format = pdf;
  artifact_locale = profile.artifact_locale;
  length_budget = profile.length_budget;
  ats_profile = profile.ats_profile;
  target_pages = profile.target_pages;
  page_count = some page_count;
  within_budget = some (leb page_count profile.target_pages);
}

-- The audit that `renderResumeDocx` returns
unfoldable pub docx_audit : ArtifactProfile → ResumeArtifactAudit
docx_audit profile = record {
  renderer_version = profile.renderer_version;
  format = docx;
  artifact_locale = profile.artifact_locale;
  length_budget = profile.length_budget;
  ats_profile = profile.ats_profile;
  target_pages = profile.target_pages;
  page_count = none;
  within_budget = none;
}

abbrev locale_text : SupportedLocale → String
locale_text en = "en"
locale_text zh = "zh"

abbrev budget_text : LengthBudget → String
budget_text one_page = "one_page"
budget_text two_page = "two_page"

abbrev pub bool_text : Bool → String
bool_text true = "true"
bool_text false = "false"

page_count_header : Option ℕ → Assoc String
page_count_header none = []
page_count_header (some n) = ("x-relay-artifact-page-count", to_decimal n) ∷ []

within_budget_header : Option Bool → Assoc String
within_budget_header none = []
within_budget_header (some b) = ("x-relay-artifact-within-budget", bool_text b) ∷ []

-- `artifactAuditHeaders`
unfoldable pub artifact_audit_headers : ResumeArtifactAudit → Assoc String
unfolding page_count_header within_budget_header
artifact_audit_headers audit =
    (("x-relay-artifact-renderer-version", to_decimal audit.renderer_version)
      ∷ ("x-relay-artifact-format", export_ext audit.format)
      ∷ ("x-relay-artifact-locale", locale_text audit.artifact_locale)
      ∷ ("x-relay-artifact-length-budget", budget_text audit.length_budget)
      ∷ ("x-relay-artifact-target-pages", to_decimal audit.target_pages)
      ∷ page_count_header audit.page_count)
    ++ within_budget_header audit.within_budget

-- The headers of the answer to an export as PDF or DOCX; `length` is the number of its bytes.
unfoldable pub file_headers :
    (encode : String → String)
    → (filename : String) → (length : ℕ) → ResumeArtifactAudit
    → Assoc String
file_headers encode filename length audit =
    ("content-type", export_mime audit.format)
    ∷ ("content-disposition", attachment_header encode filename)
    ∷ ("content-length", to_decimal length)
    ∷ artifact_audit_headers audit
