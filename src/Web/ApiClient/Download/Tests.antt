-- ===== src/Web/ApiClient/Download/Tests.antt =====
-- Headers of exported files at concrete values, and the witnesses of the theorems about them.
use apply_agent.Prelude.{
  String, ◌≡◌, refl, ap, true, false, Option, some, Json, str, obj, field, end, pos, to_lower_case,
  lower, arith, json_field, is_digit, text_take, to_decimal,
}
use apply_agent.Prelude.Decimal.{read_from, read_from-to_decimal}
use apply_agent.Api.Locale.{en}
use apply_agent.Api.Pagination.{JsNumber, integer}
use apply_agent.Api.Export.{
  pdf, export_filename, version_label, attachment_header, slugify, optional_chain, slug_of, is_slug,
  dash_runs, drop_dashes, drop_last_dashes, export_ext,
}
use apply_agent.Api.ArtifactProfile.{
  resolve_artifact_profile, pdf_audit, file_headers, length_budget_of, target_pages_of,
}
use apply_agent.Web.ApiClient.Download.{
  audit_of, filename_of, search, utf8_at, ascii_at, after_folded, fold_code, not_empty, to_quote,
  drop_quote,
}
use apply_agent.Web.ApiClient.Download.Names.{export_name_arrives}
use apply_agent.Web.ApiClient.Download.Audits.{by_chromium, shown, visible, artifact_audit_arrives}

-- { basics: { name: "Iris Park" } }
abbrev resume : Json
resume = obj (field "basics" (obj (field "name" (str "Iris Park") end)) end)

abbrev exported : String
exported = export_filename to_lower_case resume (version_label 7) pdf

exported_lem : exported ≡ "iris-park-v7.pdf"
unfolding export_filename slugify optional_chain slug_of dash_runs is_slug is_digit text_take
    to_lower_case lower to_decimal json_field drop_dashes drop_last_dashes export_ext
exported_lem = refl

-- It escapes nothing, which is right for the names of exports.
abbrev encode : String → String
encode s = s

abbrev decode : String → Option String
decode s = some s

export_name_arrives_example :
    filename_of decode (some (attachment_header encode exported)) pdf ≡ some exported
export_name_arrives_example =
    export_name_arrives encode decode (λ s h. refl) (λ s. refl) to_lower_case resume 7 pdf

-- A header with a plain name only
plain_name : filename_of decode (some "attachment; FileName=\"cv.pdf\"") pdf ≡ some "cv.pdf"
unfolding filename_of search utf8_at ascii_at after_folded fold_code not_empty to_quote drop_quote
plain_name = refl

abbrev to_number : String → JsNumber
to_number raw = integer (pos (read_from 0 raw))

abbrev one_page_config : Option Json
one_page_config = some (obj (field "length_budget" (str "one_page") end))

artifact_audit_arrives_example :
    audit_of to_number (
      visible true (
        file_headers encode exported 2048
          (pdf_audit (resolve_artifact_profile one_page_config en) 2)))
    ≡ some (shown (pdf_audit (resolve_artifact_profile one_page_config en) 2))
artifact_audit_arrives_example =
    artifact_audit_arrives to_number (λ n. ap (λ k. integer (pos k)) (read_from-to_decimal n))
      one_page_config en (pdf_audit (resolve_artifact_profile one_page_config en) 2)
      (by_chromium 2 (omega arith)) encode exported 2048 true

-- Two pages do not fit on one.
over_budget :
    (shown (pdf_audit (resolve_artifact_profile one_page_config en) 2)).within_budget ≡ some false
unfolding resolve_artifact_profile pdf_audit length_budget_of target_pages_of json_field
over_budget = refl
