-- ===== src/Api/ResumeMarkdown/Document.antt =====
-- resume-markdown.ts: `renderExtras` and `jsonResumeToMarkdown`.
use apply_agent.Prelude.{
  String, ◌<>◌, ◌==◌, Bool, false, not, ◌&&◌, ◌||◌, Option, none, some, List, [], ◌∷◌, ◌++◌,
  if◌then◌else◌, is_empty, trim, Json, str, obj, arr, Items, nil, cons, Fields, end, field,
  json_field, coalesce, get_or_else,
}
use apply_agent.Prelude.Assoc.{lookup}
use apply_agent.Api.Locale.{SupportedLocale, en}
use apply_agent.Api.ResumeMarkdown.{LabelSet, labels_of, clean, join, title_case}
use apply_agent.Api.ResumeMarkdown.Sections.{
  JsonResume, line_if, render_header, render_summary, render_work, render_skills, render_projects,
  render_education,
}

-- `known`
abbrev pub known_sections : List String
known_sections =
    "basics" ∷ "work" ∷ "education" ∷ "skills" ∷ "projects" ∷ "_raw" ∷ "_warnings" ∷ "_parsedAt"
    ∷ "_source" ∷ "_markdown" ∷ "_artifactLocale" ∷ "_compilerConfig" ∷ []

unfoldable pub is_known : String → List String → Bool
is_known key [] = false
is_known key (k ∷ ks) = let later = is_known key ks in k == key || later

-- `a ?? b ?? c ?? d` on fields
first_of : List String → Fields → Option Json
first_of [] fields = none
first_of (key ∷ keys) fields = coalesce (json_field key fields) (first_of keys fields)

extra_line : Json → List String
extra_line (str text) = line_if (trim text) ("- " <> trim text)
extra_line (obj fields) =
    let label = clean (first_of ("name" ∷ "title" ∷ "language" ∷ []) fields) in
    let detail = clean (first_of ("summary" ∷ "description" ∷ "fluency" ∷ "date" ∷ []) fields) in
    if not (is_empty label) && not (is_empty detail)
    then ("- **" <> (label <> ("** — " <> detail))) ∷ []
    else line_if label ("- " <> label)
extra_line other = []

extra_lines : Items → List String
extra_lines nil = []
extra_lines (cons v vs) = extra_line v ++ extra_lines vs

-- The items of a section that is an array
items_of : Json → List String
items_of (arr xs) = extra_lines xs
items_of other = []

section_block : String → LabelSet → List String → List String
section_block key labels [] = []
section_block key labels (item ∷ items) =
    ("## "
      <> (get_or_else (lookup key labels.extra_headings) (title_case key)
          <> ("\n" <> join "\n" (item ∷ items))))
    ∷ []

extra_blocks : Fields → LabelSet → List String
extra_blocks end labels = []
extra_blocks (field key v rest) labels =
    let later = extra_blocks rest labels in
    if is_known key known_sections then later else section_block key labels (items_of v) ++ later

-- `renderExtras`
unfoldable pub render_extras : Fields → LabelSet → String
unfolding first_of extra_line extra_lines items_of section_block extra_blocks
render_extras fields labels = join "\n\n" (extra_blocks fields labels)

-- The sections that are there, in order
unfoldable pub blocks_of : JsonResume → LabelSet → List String
blocks_of resume labels =
    let header = render_header resume.basics in
    let summary = render_summary resume.basics labels in
    let work = render_work resume.work labels in
    let skills = render_skills resume.skills labels in
    let projects = render_projects resume.projects labels in
    let education = render_education resume.education labels in
    let extras = render_extras resume.fields labels in
    line_if header header
    ++ line_if summary summary
    ++ line_if work work
    ++ line_if skills skills
    ++ line_if projects projects
    ++ line_if education education
    ++ line_if extras extras

-- `jsonResumeToMarkdown`; `none` is a résumé that is no object.
unfoldable pub json_resume_to_markdown :
    Option JsonResume → (locale : Option SupportedLocale) → String
json_resume_to_markdown none locale = ""
json_resume_to_markdown (some resume) locale =
    let md = trim (join "\n\n" (blocks_of resume (labels_of (get_or_else locale en)))) in
    if is_empty md then "" else md <> "\n"
