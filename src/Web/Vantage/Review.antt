-- ===== src/Web/Vantage/Review.antt =====
-- store.ts, applying: `submitReview`, `extSubmit`, `submitApplication`, and the log of the chat's
-- flows.
use apply_agent.Prelude.{
  map_option, String, ◌==◌, Bool, true, false, ◌&&◌, ◌||◌, Option, none, some, List, [], ◌∷◌, map,
  or_else, get_or_else, to_upper_case, text_take, starts_with, to_lower_case, if◌then◌else◌,
  is_empty,
}
use apply_agent.Web.Vantage.Views.{Views, apps, go_to}
use apply_agent.Web.Vantage.DemoJobs.{Job, demo_jobs}
use apply_agent.Web.Vantage.Applications.{Application}
use apply_agent.Web.Vantage.JobList.{ApiJob}

pub record Applied : Type 0 where
  pub mono : String
  pub co : String
  pub role : String
  pub when : String
  pub is_new : Bool

pub record Review : Type 0 where
  pub views : Views
  pub applied : List Applied
  pub api_jobs : List ApiJob
  pub api_applications : List Application
  pub current_resume_id : Option String

-- What the actions ask of the network: `submitApplication`, `loadApplications`, and the calls of
-- the first.
pub data Call : Type 0 where
  submit_application : (job_id : String) → Call
  load_applications : Call
  prepare : (job_id : String) → (resume_id : Option String) → Call
  prepare_from_jd : (url : String) → (application_id : String) → Call

find_demo : String → List Job → Option Job
find_demo id [] = none
find_demo id (j ∷ js) = let later = find_demo id js in if j.id == id then some j else later

unfoldable pub find_listed : String → List ApiJob → Option ApiJob
find_listed id [] = none
find_listed id (j ∷ js) = let later = find_listed id js in if j.id == id then some j else later

-- `demoJob?.x || apiJob?.y || "Unknown"`
named : Option String → Option String → String
named demo listed = or_else (get_or_else demo "") (or_else (get_or_else listed "") "Unknown")

-- The row of the tracker for a job: company, role, and a letter
unfoldable pub applied_row : String → List ApiJob → Applied
unfolding find_demo find_listed named
applied_row id api_jobs =
    let demo = find_demo id demo_jobs in
    let listed = find_listed id api_jobs in
    let co = named (map_option (λ j. j.co) demo) (map_option (λ j. j.company) listed) in
    record {
      mono =
          or_else (get_or_else (map_option (λ j. j.mono) demo) "") (to_upper_case (text_take 1 co));
      co = co;
      role = named (map_option (λ j. j.role) demo) (map_option (λ j. j.role_title) listed);
      when = "Just now";
      is_new = true;
    }

-- `applied.some((a) => a.co === co && a.isNew)`
unfoldable pub is_already : String → List Applied → Bool
is_already co [] = false
is_already co (a ∷ rest) = let later = is_already co rest in (a.co == co && a.is_new) || later

-- `{ ...a, isNew: false }`
abbrev pub known : Applied → Applied
known a = record a { is_new = false }

unfoldable pub add_applied : Applied → List Applied → List Applied
add_applied row applied = if is_already row.co applied then applied else row ∷ map known applied

-- `submitReview`
unfoldable pub submit_review : Review → Review × List Call
submit_review s =
    let row = applied_row s.views.active_id s.api_jobs in
    elim (find_listed s.views.active_id s.api_jobs) [
      | none ↦ (record s { applied = add_applied row s.applied; views = go_to apps s.views }, [])
      | some job ↦ (record s { views = go_to apps s.views }, submit_application job.id ∷ [])
    ]

-- `extSubmit`
unfoldable pub ext_submit : Review → Review × List Call
ext_submit s =
    let row = applied_row s.views.active_id s.api_jobs in
    let after = record s { applied = add_applied row s.applied; views = go_to apps s.views } in
    elim (find_listed s.views.active_id s.api_jobs) [
      | none ↦ (after, load_applications ∷ [])
      | some job ↦ (after, submit_application job.id ∷ load_applications ∷ [])
    ]

-- `["draft", "review", "prepared"].includes(item.status)`
abbrev pub is_unsubmitted : String → Bool
is_unsubmitted status = status == "draft" || status == "review" || status == "prepared"

abbrev has_job : String → Option String → Bool
has_job job_id none = false
has_job job_id (some id) = id == job_id

-- `existing`
unfoldable pub existing_draft : String → List Application → Option Application
existing_draft job_id [] = none
existing_draft job_id (a ∷ rest) =
    let later = existing_draft job_id rest in
    if has_job job_id a.job_id && is_unsubmitted a.status then some a else later

-- `/^https?:\/\//i.test(url)`
unfoldable pub is_web_url : String → Bool
is_web_url url = let u = to_lower_case url in starts_with u "http://" || starts_with u "https://"

-- `resumeId || undefined`
abbrev resume_of : Option String → Option String
resume_of none = none
resume_of (some id) = if is_empty id then none else some id

tailoring : Option ApiJob → String → List Call
tailoring none draft = []
tailoring (some job) draft =
    if is_web_url job.url then prepare_from_jd job.url draft ∷ load_applications ∷ [] else []

after_prepare : Option ApiJob → Option String → List Call
after_prepare job none = []
after_prepare job (some draft) = tailoring job draft

-- `submitApplication`, with what `prepare` answers (the draft's id, or `none` for an error): the
-- calls in order. The state is that at the call.
unfoldable pub submit_calls : String → (prepared : Option String) → Review → List Call
unfolding tailoring after_prepare
submit_calls job_id prepared s =
    let job = find_listed job_id s.api_jobs in
    elim (existing_draft job_id s.api_applications) [
      | some a ↦ load_applications ∷ tailoring job a.id
      | none ↦
          prepare job_id (resume_of s.current_resume_id)
          ∷ load_applications
          ∷ after_prepare job prepared
    ]
