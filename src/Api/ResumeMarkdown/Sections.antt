-- ===== src/Api/ResumeMarkdown/Sections.antt =====
-- resume-markdown.ts: the sections, and `jsonResumeToMarkdown`. A section is built as its lines.
use apply_agent.Prelude.{
  String, ◌<>◌, not, ◌&&◌, Option, none, some, List, [], ◌∷◌, ◌++◌, map, if◌then◌else◌, is_empty,
  trim, length, Json, Fields, or_else, ltb,
}
use apply_agent.Api.ResumeMarkdown.{
  LabelSet, clean, join, non_empty, render_date_range, strip_scheme,
}

pub record Location : Type 0 where
  pub city : Option Json
  pub region : Option Json
  pub country_code : Option Json

pub record Profile : Type 0 where
  pub network : Option Json
  pub url : Option Json
  pub username : Option Json

pub record Basics : Type 0 where
  pub name : Option Json
  pub label : Option Json
  pub email : Option Json
  pub phone : Option Json
  pub summary : Option Json
  pub location : Option Location
  pub profiles : List Profile

-- A highlight is the text that `String(h)` gives.
pub record Work : Type 0 where
  pub name : Option Json
  pub company : Option Json
  pub position : Option Json
  pub start_date : Option Json
  pub end_date : Option Json
  pub summary : Option Json
  pub highlights : List String

pub record Project : Type 0 where
  pub name : Option Json
  pub description : Option Json
  pub highlights : List String

pub record Education : Type 0 where
  pub institution : Option Json
  pub area : Option Json
  pub study_type : Option Json
  pub start_date : Option Json
  pub end_date : Option Json

-- What is no object is the text that `String(s)` gives.
pub data Skill : Type 0 where
  bare_skill : String → Skill
  skill : (name level : Option Json) → (keywords : List (Option Json)) → Skill

-- `JsonResume`. An entry that is no object is `none`, a section that is no array is empty, and
-- `fields` are all the fields of the object, in order.
pub record JsonResume : Type 0 where
  pub basics : Option Basics
  pub work : List (Option Work)
  pub skills : List Skill
  pub projects : List (Option Project)
  pub education : List (Option Education)
  pub fields : Fields

-- `if (text) out.push(line)`
abbrev pub line_if : (text : String) → (line : String) → List String
line_if text line = if is_empty text then [] else line ∷ []

-- `renderLocation`
unfoldable pub render_location : Option Location → String
render_location none = ""
render_location (some loc) =
    join ", " (non_empty (clean loc.city ∷ clean loc.region ∷ clean loc.country_code ∷ []))

unfoldable pub profile_parts : Profile → List String
profile_parts p =
    let url = clean p.url in
    let net = clean p.network in
    let user = clean p.username in
    if not (is_empty url)
    then ("[" <> (or_else net (or_else user (strip_scheme url)) <> ("](" <> (url <> ")")))) ∷ []
    else if not (is_empty net) && not (is_empty user)
    then (net <> (": " <> user)) ∷ []
    else []

unfoldable pub all_profiles : List Profile → List String
all_profiles [] = []
all_profiles (p ∷ ps) = profile_parts p ++ all_profiles ps

-- `renderContact`
unfoldable pub render_contact : Basics → String
render_contact b = join " · " (
    non_empty (clean b.email ∷ clean b.phone ∷ render_location b.location ∷ [])
    ++ all_profiles b.profiles)

-- `renderHeader`
unfoldable pub render_header : Option Basics → String
render_header none = ""
render_header (some b) =
    let name = clean b.name in
    let label = clean b.label in
    let contact = render_contact b in
    join "\n" (
      line_if name ("# " <> name)
      ++ (if not (is_empty label) && not (is_empty contact)
          then ("_" <> (label <> "_  ")) ∷ contact ∷ []
          else line_if label ("_" <> (label <> "_")) ++ line_if contact contact))

summary_field : Option Basics → Option Json
summary_field none = none
summary_field (some b) = b.summary

-- `renderSummary`
unfoldable pub render_summary : Option Basics → LabelSet → String
unfolding summary_field
render_summary basics labels =
    let summary = clean (summary_field basics) in
    if is_empty summary then "" else "## " <> (labels.summary <> ("\n\n" <> summary))

-- The lines of the highlights that are not blank
unfoldable pub highlight_lines : List String → List String
highlight_lines [] = []
highlight_lines (h ∷ hs) =
    let rest = highlight_lines hs in if is_empty (trim h) then rest else ("- " <> trim h) ∷ rest

-- What stands above the highlights of a role
unfoldable pub role_head : Work → LabelSet → List String
role_head w labels =
    let company = or_else (clean w.name) (clean w.company) in
    let title = join " — " (non_empty (clean w.position ∷ company ∷ [])) in
    let meta = render_date_range w.start_date w.end_date labels in
    let summary = clean w.summary in
    line_if title ("\n### " <> title)
    ++ line_if meta ("_" <> (meta <> "_"))
    ++ (if is_empty summary then [] else line_if meta "" ++ (summary ∷ []))

unfoldable pub role_lines : Option Work → LabelSet → List String
role_lines none labels = []
role_lines (some w) labels = role_head w labels ++ highlight_lines w.highlights

unfoldable pub all_roles : List (Option Work) → LabelSet → List String
all_roles [] labels = []
all_roles (w ∷ ws) labels = role_lines w labels ++ all_roles ws labels

-- `renderWork`
unfoldable pub render_work : List (Option Work) → LabelSet → String
render_work [] labels = ""
render_work (w ∷ ws) labels = join "\n" (("## " <> labels.experience) ∷ all_roles (w ∷ ws) labels)

project_lines : Option Project → List String
project_lines none = []
project_lines (some p) =
    let name = clean p.name in
    let desc = clean p.description in
    line_if name ("\n### " <> name) ++ line_if desc desc ++ highlight_lines p.highlights

all_projects : List (Option Project) → List String
all_projects [] = []
all_projects (p ∷ ps) = project_lines p ++ all_projects ps

-- `renderProjects`
unfoldable pub render_projects : List (Option Project) → LabelSet → String
unfolding project_lines all_projects
render_projects [] labels = ""
render_projects (p ∷ ps) labels = join "\n" (("## " <> labels.projects) ∷ all_projects (p ∷ ps))

skill_lines : Skill → List String
skill_lines (bare_skill text) = line_if (trim text) ("- " <> trim text)
skill_lines (skill name_field level_field keyword_fields) =
    let name = clean name_field in
    let keywords = non_empty (map clean keyword_fields) in
    let level = clean level_field in
    let some_keywords = ltb 0 (length keywords) in
    if not (is_empty name) && some_keywords
    then ("- **"
        <> (name
            <> ("**"
                <> ((if is_empty level then "" else " (" <> (level <> ")"))
                    <> (" " <> join ", " keywords)))))
      ∷ []
    else if not (is_empty name)
    then ("- **" <> (name <> ("**" <> (if is_empty level then "" else " — " <> level)))) ∷ []
    else if some_keywords
    then ("- " <> join ", " keywords) ∷ []
    else []

all_skills : List Skill → List String
all_skills [] = []
all_skills (s ∷ ss) = skill_lines s ++ all_skills ss

-- `renderSkills`
unfoldable pub render_skills : List Skill → LabelSet → String
unfolding skill_lines all_skills
render_skills skills labels =
    let lines = ("## " <> labels.skills) ∷ all_skills skills in
    if ltb 1 (length lines) then join "\n" lines else ""

education_lines : Option Education → LabelSet → List String
education_lines none labels = []
education_lines (some e) labels =
    let degree = join ", " (non_empty (clean e.study_type ∷ clean e.area ∷ [])) in
    let title = join " — " (non_empty (degree ∷ clean e.institution ∷ [])) in
    let meta = render_date_range e.start_date e.end_date labels in
    line_if title ("\n### " <> title) ++ line_if meta ("_" <> (meta <> "_"))

all_education : List (Option Education) → LabelSet → List String
all_education [] labels = []
all_education (e ∷ es) labels = education_lines e labels ++ all_education es labels

-- `renderEducation`
unfoldable pub render_education : List (Option Education) → LabelSet → String
unfolding education_lines all_education
render_education [] labels = ""
render_education (e ∷ es) labels =
    join "\n" (("## " <> labels.education) ∷ all_education (e ∷ es) labels)
