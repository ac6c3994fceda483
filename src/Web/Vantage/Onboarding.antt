-- ===== src/Web/Vantage/Onboarding.antt =====
-- store.ts, the first run: a résumé is uploaded or pasted, the user enters the workspace at once,
-- and a job parses it while the workspace polls.
pub mod Laws
mod Tests
pub mod Starts
use Prim.Native.Char.{Char, code}
use apply_agent.Prelude.{
  ℕ, suc, ◌+◌, ◌-◌, ◌≤◌, String, ◌==◌, Bool, true, false, not, ◌&&◌, ◌||◌, Option, none, some, List,
  [], ◌∷◌, ◌++◌, leb, ltb, nat_beq, if◌then◌else◌, is_empty, is_some, or_else, get_or_else, trim,
  text_length, Json,
}
use apply_agent.Api.Jobs.{JobStatus}
use apply_agent.Web.Vantage.Views.{
  Views, Screen, onboarding, app, Nav, chat, first_views, start_tour,
}

pub data ParseStage : Type 0 where
  idle parsing done : ParseStage

-- `OnboardMethod`
pub data OnboardMethod : Type 0 where
  by_upload by_chat by_paste by_link : OnboardMethod

-- `parseJobStatus`
pub data RunStatus : Type 0 where
  idle running done failed : RunStatus

pub record Onboarding : Type 0 where
  pub views : Views
  pub parse_stage : ParseStage
  pub onboard_method : OnboardMethod
  pub upload_text : String
  pub parsed_resume : Option Json
  pub parse_error : Option String
  pub parse_file_name : String
  pub parse_job_id : Option String
  pub parse_job_status : RunStatus
  pub parse_job_progress : ℕ
  pub parse_job_error : Option String
  pub current_resume_id : Option String

abbrev pub first_run : (tour_done : Bool) → Onboarding
first_run tour_done = record {
  views = first_views tour_done;
  parse_stage = ParseStage.idle;
  onboard_method = by_upload;
  upload_text = "";
  parsed_resume = none;
  parse_error = none;
  parse_file_name = "";
  parse_job_id = none;
  parse_job_status = RunStatus.idle;
  parse_job_progress = 0;
  parse_job_error = none;
  current_resume_id = none;
}

-- The setters of the form
pub data FormField : Type 0 where
  parse_stage : ParseStage → FormField
  onboard_method : OnboardMethod → FormField
  upload_text : String → FormField

unfoldable pub set_form_field : FormField → Onboarding → Onboarding
set_form_field (parse_stage stage) s = record s { parse_stage = stage }
set_form_field (onboard_method way) s = record s { onboard_method = way }
set_form_field (upload_text v) s = record s { upload_text = v }

-- What the actions ask of the network and of the other slices. `poll_later` is the timer of 1500 ms.
pub data Call : Type 0 where
  upload : (file : String) → Call
  parse_async : (markdown : String) → (source_file_id : Option String) → Call
  poll_later : (job_id : String) → (elapsed : ℕ) → Call
  create_resume : Json → Call
  load_jobs load_trends load_current_user load_resumes load_applications : Call

-- The control characters of ASCII but tab, newline and carriage return, and DEL
unfoldable pub is_control : Char → Bool
is_control c =
    let n = code c in
    leb n 8 || nat_beq n 11 || nat_beq n 12 || (leb 14 n && leb n 31) || nat_beq n 127

-- `stripControlChars`
unfoldable pub strip_control_chars : String → String
strip_control_chars String.[] = ""
strip_control_chars (String.◌∷◌ c s) =
    let rest = strip_control_chars s in if is_control c then rest else String.◌∷◌ c rest

-- `createResume(parsed)`, if there is one
abbrev create_parsed : Option Json → List Call
create_parsed none = []
create_parsed (some resume) = create_resume resume ∷ []

-- `enterApp`
unfoldable pub enter_app : Onboarding → Onboarding × List Call
enter_app s = (
  record s { views = start_tour (record s.views { screen = app; nav = chat }) },
  load_jobs ∷ load_trends ∷ load_current_user ∷ load_resumes ∷ create_parsed s.parsed_resume,
)

-- `resumeWorkspace`
unfoldable pub resume_workspace : String → Onboarding → Onboarding × List Call
resume_workspace resume_id s = (
  record s {
    views = record s.views { screen = app; nav = chat };
    current_resume_id = some resume_id;
  },
  load_jobs ∷ load_trends ∷ load_applications ∷ load_current_user ∷ [],
)

abbrev pub is_running : RunStatus → Bool
is_running running = true
is_running status = false

-- `Boolean(text)`
abbrev pub is_present : Option String → Bool
is_present none = false
is_present (some text) = not (is_empty text)

-- `_startAsyncParse` up to its `await`
unfoldable pub start_async_parse :
    (source : String) → (source_file_id : Option String) → Onboarding → Onboarding × List Call
start_async_parse source source_file_id s =
    if is_running s.parse_job_status || is_present s.parse_job_id
    then (s, [])
    else (s, parse_async source source_file_id ∷ [])

-- After it: the job is there.
unfoldable pub parse_started :
    (job_id : String) → (progress : ℕ) → Onboarding → Onboarding × List Call
parse_started job_id progress s =
    let (entered, calls) = enter_app (record s {
      parse_job_id = some job_id;
      parse_job_status = running;
      parse_job_progress = progress;
    }) in
    (entered, calls ++ (poll_later job_id 0 ∷ []))

-- A message of `none` is no `ApiError`.
unfoldable pub parse_refused : Option String → Onboarding → Onboarding
parse_refused message s = record s {
  parse_stage = ParseStage.idle;
  parse_error = some (get_or_else message "Could not start parsing.");
}

-- `parseFile` up to its first `await`
unfoldable pub parse_file : (name : String) → Onboarding → Onboarding × List Call
parse_file name s = (
  record s {
    parse_error = none;
    parse_file_name = name;
    parsed_resume = none;
    parse_job_error = none;
  },
  upload name ∷ [],
)

-- After it: `up.markdown`, `up.text` and `up.file?.id`
unfoldable pub uploaded :
    (markdown text : String) → (file_id : Option String) → Onboarding → Onboarding × List Call
uploaded markdown text file_id s = start_async_parse (or_else markdown text) file_id s

unfoldable pub upload_failed : Option String → Onboarding → Onboarding
upload_failed message s = record s {
  parse_stage = ParseStage.idle;
  parse_error = some (get_or_else message "Could not read that file.");
}

-- `parsePastedText`
unfoldable pub parse_pasted_text : String → Onboarding → Onboarding × List Call
parse_pasted_text text s =
    let trimmed = trim (strip_control_chars text) in
    if ltb (text_length trimmed) 20
    then (record s { parse_error = some "Please paste a bit more of your résumé." }, [])
    else start_async_parse trimmed none (record s {
      parse_error = none;
      parse_file_name = "Pasted résumé";
      parsed_resume = none;
      parse_job_error = none;
    })

-- The result of a job: `resume` and `resumeId`
pub record ParseResult : Type 0 where
  pub resume : Json
  pub resume_id : Option String

-- The job that `parseStatus` returns
pub record PolledJob : Type 0 where
  pub status : JobStatus
  pub progress : ℕ
  pub result : Option ParseResult
  pub error : Option String

abbrev pub interval_ms : ℕ
interval_ms = 1500

abbrev pub timeout_ms : ℕ
timeout_ms = 90000

abbrev pub is_current : String → Onboarding → Bool
is_current job_id s = get_or_else s.parse_job_id "" == job_id && is_some s.parse_job_id

-- The end of `tick`; `elapsed` counts this round.
unfoldable pub after_round : String → (elapsed : ℕ) → Onboarding → Onboarding × List Call
after_round job_id elapsed s =
    if leb timeout_ms elapsed
    then (
      if is_current job_id s && is_running s.parse_job_status
          then record s {
            parse_job_status = failed;
            parse_job_error =
                some
                  "Parsing is taking longer than expected. You can keep working — try re-uploading later.";
          }
          else s,
      [],
    )
    else (s, poll_later job_id elapsed ∷ [])

-- `!result.resumeId`
unfoldable pub calls_of_result : ParseResult → List Call
calls_of_result r =
    if is_present r.resume_id then load_resumes ∷ [] else create_resume r.resume ∷ load_resumes ∷ []

unfoldable pub parse_finished : ParseResult → Onboarding → Onboarding × List Call
parse_finished r s = (
  record s {
    parse_job_status = done;
    parse_job_progress = 100;
    parsed_resume = some r.resume;
    current_resume_id = if is_present r.resume_id then r.resume_id else s.current_resume_id;
  },
  calls_of_result r,
)

abbrev pub parse_failed : Option String → Onboarding → Onboarding
parse_failed error s = record s {
  parse_job_status = failed;
  parse_job_error = some (or_else (get_or_else error "") "Parsing failed.");
}

by_status :
    String → ℕ → PolledJob → JobStatus → Option ParseResult → Onboarding → Onboarding × List Call
by_status job_id elapsed job JobStatus.done (some r) s = parse_finished r s
by_status job_id elapsed job JobStatus.failed result s = (parse_failed job.error s, [])
by_status job_id elapsed job status result s = after_round job_id elapsed s

-- `tick` after its `await`: the job, or `none` for an error.
unfoldable pub poll_answered :
    (job_id : String) → (elapsed : ℕ) → Option PolledJob → Onboarding → Onboarding × List Call
unfolding by_status
poll_answered job_id elapsed none s = after_round job_id elapsed s
poll_answered job_id elapsed (some job) s =
    if is_current job_id s
    then by_status job_id elapsed job job.status job.result
        (record s { parse_job_progress = job.progress })
    else (s, [])

-- `dismissParseBanner`
abbrev pub dismiss_parse_banner : Onboarding → Onboarding
dismiss_parse_banner s = record s { parse_job_status = RunStatus.idle }

-- What `signOut` sets of this slice
abbrev pub sign_out_onboarding : Onboarding → Onboarding
sign_out_onboarding s = record s {
  current_resume_id = none;
  views = record s.views { screen = onboarding };
}
