-- ===== src/Api/ResumeMarkdown/Tests.antt =====
-- Résumés in Markdown, and the witness of the theorem.
use apply_agent.Prelude.{
  upper, trim, is_word, is_digit, after_text, String, none, some, List, [], ◌∷◌, ◌++◌, ◌≡◌, refl,
  str, arr, nil, cons, end, field, json_field, is_space, trim_end, trim_start,
}
use apply_agent.Api.Locale.{en, zh}
use apply_agent.Api.ResumeMarkdown.{
  non_empty, join, clean, labels_of, format_date, render_date_range, strip_scheme, title_case,
}
use apply_agent.Api.ResumeMarkdown.Sections.{
  role_lines, role_head, highlight_lines, all_roles, Work, bare_skill, skill, JsonResume,
  render_work, render_skills, render_header, render_contact, render_location, all_profiles,
  profile_parts, render_summary, render_education, render_projects,
}
use apply_agent.Api.ResumeMarkdown.Document.{
  json_resume_to_markdown, blocks_of, is_known, render_extras,
}
use apply_agent.Prelude.Assoc.{lookup}
use apply_agent.Api.ResumeMarkdown.Laws.{lines_of, HasLines, role_blocks, render_work-lines}

abbrev engineer : List String → Work
engineer highlights = record {
  name = some (str "Acme");
  company = none;
  position = some (str "Engineer");
  start_date = some (str "2021-06");
  end_date = none;
  summary = some (str "Payments.");
  highlights = highlights;
}

dates_in_english : format_date (some (str "2021-06-30")) (labels_of en) ≡ "Jun 2021"
unfolding format_date clean trim is_digit
dates_in_english = refl

dates_in_chinese :
    render_date_range (some (str "2021-06")) (some (str "2024")) (labels_of zh) ≡ "6 月 2021 – 2024"
unfolding render_date_range format_date clean trim is_digit
dates_in_chinese = refl

odd_month : format_date (some (str "2021-13")) (labels_of en) ≡ "2021"
unfolding format_date clean trim is_digit
odd_month = refl

strip_scheme_lem : strip_scheme "https://github.com/ada/" ≡ "github.com/ada"
unfolding strip_scheme after_text
strip_scheme_lem = refl

title_case_lem : title_case "open_source--work" ≡ "Open Source Work"
unfolding title_case trim is_word upper
title_case_lem = refl

abbrev resume : List String → JsonResume
resume highlights = record {
  basics = some (record {
    name = some (str " Ada ");
    label = some (str "Engineer");
    email = some (str "ada@example.org");
    phone = none;
    summary = none;
    location = none;
    profiles = record { network = none; url = some (str "https://ada.dev"); username = none } ∷ [];
  });
  work = some (engineer highlights) ∷ [];
  skills = skill (some (str "Data")) none (some (str "SQL") ∷ some (str "R") ∷ []) ∷ [];
  projects = [];
  education = [];
  fields = field "awards" (arr (cons (str "Prize") nil)) end;
}

resume_in_markdown :
    json_resume_to_markdown (some (resume ("Cut costs" ∷ []))) none
    ≡ "# Ada\n_Engineer_  \nada@example.org · [ada.dev](https://ada.dev)\n\n## Experience\n\n### Engineer — Acme\n_Jun 2021 – Present_\n\nPayments.\n- Cut costs\n\n## Skills\n- **Data** SQL, R\n\n## Awards\n- Prize\n"
unfolding json_resume_to_markdown trim join blocks_of render_header clean render_contact non_empty
    render_location all_profiles profile_parts strip_scheme after_text render_summary render_work
    all_roles role_lines role_head is_known render_extras highlight_lines render_education
    render_projects render_skills format_date render_date_range title_case lookup json_field
    is_space trim_end trim_start is_digit
resume_in_markdown = refl

two_highlights-HasLines : HasLines (some (engineer ("Cut costs" ∷ " Led a team " ∷ [])))
unfolding lines_of trim
two_highlights-HasLines = ((refl, refl), ((refl, refl), tt))

render_work-lines_example :
    lines_of (render_work (some (engineer ("Cut costs" ∷ " Led a team " ∷ [])) ∷ []) (labels_of en))
    ≡ lines_of "## Experience"
      ++ role_blocks (some (engineer ("Cut costs" ∷ " Led a team " ∷ [])) ∷ []) (labels_of en)
render_work-lines_example =
    render_work-lines (some (engineer ("Cut costs" ∷ " Led a team " ∷ []))) [] (labels_of en)
      (two_highlights-HasLines, tt)

-- One highlight of two lines, and one that is blank: two lines, of which the second is no item.
broken_highlights :
    lines_of (render_work (some (engineer ("Cut costs\nby half" ∷ " " ∷ [])) ∷ []) (labels_of en))
    ≡ "## Experience" ∷ "" ∷ "### Engineer — Acme" ∷ "_Jun 2021 – Present_" ∷ "" ∷ "Payments."
      ∷ "- Cut costs" ∷ "by half" ∷ []
unfolding lines_of render_work join all_roles role_lines role_head non_empty clean trim
    render_date_range format_date is_digit highlight_lines
broken_highlights = refl

-- A `null` among the skills becomes an item.
null_skill : render_skills (bare_skill "null" ∷ []) (labels_of en) ≡ "## Skills\n- null"
unfolding render_skills trim join
null_skill = refl
