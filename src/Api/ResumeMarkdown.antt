-- ===== src/Api/ResumeMarkdown.antt =====
-- resume-markdown.ts: a résumé in JSON Resume as canonical Markdown. Labels, dates and small texts;
-- Sections has the sections.
pub mod Sections
pub mod Document
pub mod Laws
mod Tests
use Prim.Native.Char.{Char, code}
use apply_agent.Prelude.{
  ℕ, zero, suc, ◌-◌, ◌+◌, ◌*◌, String, ◌<>◌, ◌==◌, Bool, true, false, not, ◌&&◌, ◌||◌, Option, none,
  some, List, [], ◌∷◌, nat_beq, if◌then◌else◌, is_empty, is_digit, is_word, upper, trim,
  text_length, text_take, text_drop, starts_with, Json, str, or_else, after_text, get_or_else,
  truthy, leb,
}
use apply_agent.Prelude.Assoc.{Assoc}
use apply_agent.Api.Locale.{SupportedLocale, en, zh}

pub record LabelSet : Type 0 where
  pub summary : String
  pub experience : String
  pub skills : String
  pub projects : String
  pub education : String
  pub present : String
  pub months : List String
  pub extra_headings : Assoc String

-- `LABELS`
abbrev pub labels_of : SupportedLocale → LabelSet
labels_of en = record {
  summary = "Summary";
  experience = "Experience";
  skills = "Skills";
  projects = "Projects";
  education = "Education";
  present = "Present";
  months =
      "Jan" ∷ "Feb" ∷ "Mar" ∷ "Apr" ∷ "May" ∷ "Jun" ∷ "Jul" ∷ "Aug" ∷ "Sep" ∷ "Oct" ∷ "Nov" ∷ "Dec"
      ∷ [];
  extra_headings =
      ("volunteer", "Volunteer")
      ∷ ("awards", "Awards")
      ∷ ("certificates", "Certificates")
      ∷ ("publications", "Publications")
      ∷ ("languages", "Languages")
      ∷ ("interests", "Interests")
      ∷ ("references", "References")
      ∷ [];
}
labels_of zh = record {
  summary = "概览";
  experience = "工作经历";
  skills = "技能";
  projects = "项目";
  education = "教育";
  present = "至今";
  months =
      "1 月" ∷ "2 月" ∷ "3 月" ∷ "4 月" ∷ "5 月" ∷ "6 月" ∷ "7 月" ∷ "8 月" ∷ "9 月" ∷ "10 月" ∷ "11 月"
      ∷ "12 月" ∷ [];
  extra_headings =
      ("volunteer", "志愿经历")
      ∷ ("awards", "奖项")
      ∷ ("certificates", "证书")
      ∷ ("publications", "出版物")
      ∷ ("languages", "语言")
      ∷ ("interests", "兴趣")
      ∷ ("references", "推荐人")
      ∷ [];
}

-- `clean`; a missing field is `none`.
unfoldable pub clean : Option Json → String
clean (some (str s)) = trim s
clean v = ""

-- `parts.join(separator)`
unfoldable pub join : (separator : String) → List String → String
join separator [] = ""
join separator (x ∷ []) = x
join separator (x ∷ y ∷ xs) = x <> (separator <> join separator (y ∷ xs))

-- `parts.filter(Boolean)`
unfoldable pub non_empty : List String → List String
non_empty [] = []
non_empty (x ∷ xs) = let rest = non_empty xs in if is_empty x then rest else x ∷ rest

-- The pieces between the hyphens
pieces : String → List String
pieces String.[] = "" ∷ []
pieces (String.◌∷◌ c s) = elim (pieces s) [
  | [] ↦ []
  | p ∷ ps ↦ if nat_beq (code c) b'-' then "" ∷ p ∷ ps else String.◌∷◌ c p ∷ ps
]

all_digits : String → Bool
all_digits String.[] = true
all_digits (String.◌∷◌ c s) = is_digit c && all_digits s

digits_between : ℕ → ℕ → String → Bool
digits_between least most s = all_digits s && leb least (text_length s) && leb (text_length s) most

-- `Number(digits)`
number_from : ℕ → String → ℕ
number_from acc String.[] = acc
number_from acc (String.◌∷◌ c s) = number_from (acc * 10 + (code c - b'0')) s

-- `months[i]`
month_at : ℕ → List String → Option String
month_at i [] = none
month_at zero (m ∷ ms) = some m
month_at (suc i) (m ∷ ms) = month_at i ms

-- `months[n - 1]`
month_before : ℕ → List String → Option String
month_before zero months = none
month_before (suc i) months = month_at i months

month_and_year : String → Option String → String
month_and_year year none = year
month_and_year year (some month) = month <> (" " <> year)

year_month : LabelSet → String → String → String
year_month labels year month =
    month_and_year year (month_before (number_from 0 month) labels.months)

-- A date of the form YYYY-MM or YYYY-MM-DD, with one or two digits; anything else is left as it is.
dated : LabelSet → String → List String → String
dated labels d (year ∷ month ∷ []) =
    if digits_between 4 4 year && digits_between 1 2 month then year_month labels year month else d
dated labels d (year ∷ month ∷ day ∷ []) =
    if digits_between 4 4 year && digits_between 1 2 month && digits_between 1 2 day
    then year_month labels year month
    else d
dated labels d other = d

-- `formatDate`
unfoldable pub format_date : Option Json → LabelSet → String
unfolding pieces all_digits digits_between number_from month_at month_before month_and_year
    year_month dated
format_date date labels = let d = clean date in if is_empty d then "" else dated labels d (pieces d)

-- `end ? … : …`
abbrev has_date : Option Json → Bool
has_date none = false
has_date (some v) = truthy v

-- `renderDateRange`
unfoldable pub render_date_range : (start end_date : Option Json) → LabelSet → String
render_date_range start end_date labels =
    let s = format_date start labels in
    let e = if has_date end_date then format_date end_date labels else "" in
    if is_empty s && is_empty e
    then ""
    else if not (is_empty s) && is_empty (clean end_date)
    then s <> (" – " <> labels.present)
    else if not (is_empty s) && not (is_empty e)
    then s <> (" – " <> e)
    else or_else s e

-- `s.replace(/\/$/, "")`
without_slash : String → String
without_slash String.[] = ""
without_slash (String.◌∷◌ c s) =
    let rest = without_slash s in
    if is_empty s && nat_beq (code c) b'/' then "" else String.◌∷◌ c rest

-- `stripScheme`
unfoldable pub strip_scheme : String → String
unfolding without_slash
strip_scheme url =
    without_slash
      (get_or_else (after_text "https://" url) (get_or_else (after_text "http://" url) url))

is_joint : Char → Bool
is_joint c = nat_beq (code c) b'_' || nat_beq (code c) b'-'

-- `s.replace(/[_-]+/g, " ")`; `open_run` says that the character before was one of these.
spaced : Bool → String → String
spaced open_run String.[] = ""
spaced open_run (String.◌∷◌ c s) =
    let later = spaced (is_joint c) s in
    if not (is_joint c) then String.◌∷◌ c later else if open_run then later else " " <> later

-- Each word character after none is in upper case.
capitals : Bool → String → String
capitals in_word String.[] = ""
capitals in_word (String.◌∷◌ c s) =
    let later = capitals (is_word c) s in
    if is_word c && not in_word then String.◌∷◌ (upper c) later else String.◌∷◌ c later

-- `titleCase`
unfoldable pub title_case : String → String
unfolding spaced is_joint capitals
title_case s = trim (capitals false (spaced false s))
