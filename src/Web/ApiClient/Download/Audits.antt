-- ===== src/Web/ApiClient/Download/Audits.antt =====
-- The audit of an exported file, from the renderer to the page.
use apply_agent.Prelude.{
  ℕ, ◌≤◌, String, ◌≡◌, refl, Bool, true, false, Option, some, Json, pos, arith, leb, to_decimal,
  json_field, if◌then◌else◌,
}
use apply_agent.Prelude.Assoc.{Assoc, lookup}
use apply_agent.Api.Locale.{SupportedLocale}
use apply_agent.Api.Pagination.{JsNumber, integer}
use apply_agent.Api.Export.{ExportFormat, export_ext}
use apply_agent.Api.ArtifactProfile.{
  ArtifactProfile, ResumeArtifactAudit, LengthBudget, one_page, two_page, resolve_artifact_profile,
  pdf_audit, docx_audit, bool_text, length_budget_of, as_record, target_pages_of,
  artifact_audit_headers, file_headers,
}
use apply_agent.Web.ApiClient.Origin.{readable}
use apply_agent.Web.ApiClient.Download.{
  ArtifactAudit, audit_of, audit_from, header_number, positive, one_or_two, flag_of,
  artifact_format_of,
}

-- What the two renderers make of a profile; a PDF file has at least one page.
pub data Made (profile : ArtifactProfile) : ResumeArtifactAudit → Type 0 where
  by_chromium : (pages : ℕ) → 1 ≤ pages → Made profile (pdf_audit profile pages)
  by_pandoc : Made profile (docx_audit profile)

-- The part of the audit that a page shows
abbrev pub shown : ResumeArtifactAudit → ArtifactAudit
shown audit = record {
  renderer_version = audit.renderer_version;
  format = audit.format;
  target_pages = audit.target_pages;
  page_count = audit.page_count;
  within_budget = audit.within_budget;
}

-- The headers as a page of the gateway's origin, or of another one, can read them
abbrev pub visible : (cross_origin : Bool) → Assoc String → Assoc String
visible cross_origin headers = if cross_origin then readable headers else headers

read_flag : (b : Bool) → flag_of (some (bool_text b)) ≡ some b
unfolding flag_of
read_flag true = refl
read_flag false = refl

reads :
    (version target : ℕ) (format : ExportFormat) (pages : Option ℕ) (within : Option Bool)
    {v t n : Option ℕ} {w : Option Bool}
    → v ≡ some version
    → t ≡ some target
    → n ≡ pages
    → w ≡ within
    → audit_from v t (some format) n w
      ≡ some (record {
        renderer_version = version;
        format = format;
        target_pages = target;
        page_count = pages;
        within_budget = within;
      })
unfolding audit_from
reads version target format pages within a b c d = rw (a, b, c, d) refl

module _ (to_number : String → JsNumber)
    (number : (n : ℕ) → to_number (to_decimal n) ≡ integer (pos n)) where
  read_positive : (n : ℕ) → 1 ≤ n → header_number to_number positive (some (to_decimal n)) ≡ some n
  unfolding header_number positive
  read_positive n h = rw (number n) (ground arith)

  read_target :
      (b : LengthBudget)
      → header_number to_number one_or_two (some (to_decimal (target_pages_of b)))
        ≡ some (target_pages_of b)
  unfolding header_number one_or_two target_pages_of
  read_target one_page = rw (number 1) refl
  read_target two_page = rw (number 2) refl

  -- The page reads off the headers of an exported PDF or DOCX file the renderer's version, format,
  -- target, number of pages and verdict that the renderer has audited, for every configuration of
  -- the compiler, from the gateway's own origin and from another one, if `Number` reads decimal
  -- digits.
  pub artifact_audit_arrives :
      (config : Option Json) (fallback : SupportedLocale) (audit : ResumeArtifactAudit)
      → Made (resolve_artifact_profile config fallback) audit
      → (encode : String → String) (filename : String) (length : ℕ) (cross_origin : Bool)
      → audit_of to_number (visible cross_origin (file_headers encode filename length audit))
        ≡ some (shown audit)
  unfolding audit_of lookup readable file_headers artifact_audit_headers pdf_audit docx_audit
      resolve_artifact_profile artifact_format_of export_ext header_number flag_of
  artifact_audit_arrives config fallback audit (by_chromium pages h) encode filename length true =
      let budget = length_budget_of (json_field "length_budget" (as_record config)) in
      reads 2 _ _ _ _ (read_positive 2 (omega arith)) (read_target budget) (read_positive pages h)
        (read_flag (leb pages (target_pages_of budget)))
  artifact_audit_arrives config fallback audit (by_chromium pages h) encode filename length false =
      let budget = length_budget_of (json_field "length_budget" (as_record config)) in
      reads 2 _ _ _ _ (read_positive 2 (omega arith)) (read_target budget) (read_positive pages h)
        (read_flag (leb pages (target_pages_of budget)))
  artifact_audit_arrives config fallback audit by_pandoc encode filename length true =
      let budget = length_budget_of (json_field "length_budget" (as_record config)) in
      reads 2 _ _ _ _ (read_positive 2 (omega arith)) (read_target budget) refl refl
  artifact_audit_arrives config fallback audit by_pandoc encode filename length false =
      let budget = length_budget_of (json_field "length_budget" (as_record config)) in
      reads 2 _ _ _ _ (read_positive 2 (omega arith)) (read_target budget) refl refl
