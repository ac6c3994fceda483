-- ===== src/Web/Vantage/Onboarding/Starts.antt =====
-- Which parses start: after a job has started, no other one is.
use apply_agent.Prelude.{
  ℕ, suc, ◌+◌, String, true, false, Option, none, some, List, [], ◌∷◌, ◌++◌, ◌≡◌, refl, ◌∙◌,
  Bool-cases, inl, inr, arith, is_empty, ltb, text_length, trim, or_else, All,
}
use apply_agent.Api.Jobs.{JobStatus}
use apply_agent.Web.Vantage.Onboarding.{
  Onboarding, FormField, set_form_field, Call, parse_async, PolledJob, ParseResult, poll_answered,
  by_status, after_round, parse_finished, calls_of_result, is_current, is_running, is_present,
  start_async_parse, parse_started, parse_refused, parse_file, uploaded, upload_failed,
  parse_pasted_text, strip_control_chars, enter_app, resume_workspace, dismiss_parse_banner,
  sign_out_onboarding,
}

-- What happens to the slice: actions of the user, answers of the network, and a sign-out.
pub data Event : Type 0 where
  fills_in : FormField → Event
  picks_file : String → Event
  upload_ends : (markdown text : String) → (file_id : Option String) → Event
  upload_fails : Option String → Event
  pastes : String → Event
  starts : (job_id : String) → (progress : ℕ) → Event
  refuses : Option String → Event
  answers : (job_id : String) → (elapsed : ℕ) → Option PolledJob → Event
  creates : (resume_id : String) → Event
  dismisses : Event
  enters : Event
  resumes : (resume_id : String) → Event
  signs_out : Event

unfoldable pub step : Event → Onboarding → Onboarding × List Call
step (fills_in v) s = (set_form_field v s, [])
step (picks_file name) s = parse_file name s
step (upload_ends markdown text file_id) s = uploaded markdown text file_id s
step (upload_fails message) s = (upload_failed message s, [])
step (pastes text) s = parse_pasted_text text s
step (starts job_id progress) s = parse_started job_id progress s
step (refuses message) s = (parse_refused message s, [])
step (answers job_id elapsed answer) s = poll_answered job_id elapsed answer s
step (creates resume_id) s = (record s { current_resume_id = some resume_id }, [])
step dismisses s = (dismiss_parse_banner s, [])
step enters s = enter_app s
step (resumes resume_id) s = resume_workspace resume_id s
step signs_out s = (sign_out_onboarding s, [])

unfoldable pub steps : List Event → Onboarding → Onboarding × List Call
steps [] s = (s, [])
steps (e ∷ es) s = let (s', calls) = step e s in let (t, more) = steps es s' in (t, calls ++ more)

-- The requests to start a parse
abbrev pub parse_requests : List Call → ℕ
parse_requests [] = 0
parse_requests (parse_async markdown source_file_id ∷ calls) = suc (parse_requests calls)
parse_requests (call ∷ calls) = parse_requests calls

-- The id of a job is not empty.
abbrev pub IsReal : Event → Type 0
IsReal (starts job_id progress) = is_empty job_id ≡ false
IsReal e = Unit

requests-append :
    (xs ys : List Call) → parse_requests (xs ++ ys) ≡ parse_requests xs + parse_requests ys
requests-append [] ys = omega arith
requests-append (x ∷ xs) ys = ground (arith, requests-append xs ys)

-- The step sends no request to parse, and a job's id is still there.
record IsQuiet (m : Onboarding × List Call) : Type 0 where
  silent : parse_requests m.1 ≡ 0
  present : is_present m.0.parse_job_id ≡ true

start-IsQuiet :
    (source : String) (file_id : Option String) (s : Onboarding)
    → is_present s.parse_job_id ≡ true
    → IsQuiet (start_async_parse source file_id s)
unfolding start_async_parse
start-IsQuiet source file_id s h = elim (Bool-cases (is_running s.parse_job_status)) [
  | inl e ↦ rw (e, start_async_parse) (record { silent = refl; present = h })
  | inr e ↦ rw (e, h, start_async_parse) (record { silent = refl; present = h })
]

enter-IsQuiet : (s : Onboarding) → is_present s.parse_job_id ≡ true → IsQuiet (enter_app s)
unfolding enter_app
enter-IsQuiet s h = record { silent = ground arith; present = h }

round-IsQuiet :
    (job_id : String) (elapsed : ℕ) (s : Onboarding)
    → is_present s.parse_job_id ≡ true
    → IsQuiet (after_round job_id elapsed s)
unfolding after_round
round-IsQuiet job_id elapsed s h = record { silent = ground arith; present = ground (arith, h) }

finished-IsQuiet :
    (result : ParseResult) (s : Onboarding)
    → is_present s.parse_job_id ≡ true
    → IsQuiet (parse_finished result s)
unfolding parse_finished calls_of_result
finished-IsQuiet result s h = record { silent = ground arith; present = h }

status-IsQuiet :
    (job_id : String) (elapsed : ℕ) (job : PolledJob) (status : JobStatus)
    (result : Option ParseResult) (s : Onboarding)
    → is_present s.parse_job_id ≡ true
    → IsQuiet (by_status job_id elapsed job status result s)
unfolding by_status
status-IsQuiet job_id elapsed job JobStatus.done (some result) s h = finished-IsQuiet result s h
status-IsQuiet job_id elapsed job JobStatus.done none s h = round-IsQuiet job_id elapsed s h
status-IsQuiet job_id elapsed job JobStatus.failed result s h = record {
  silent = refl;
  present = h;
}
status-IsQuiet job_id elapsed job JobStatus.pending result s h = round-IsQuiet job_id elapsed s h
status-IsQuiet job_id elapsed job JobStatus.extracting result s h = round-IsQuiet job_id elapsed s h
status-IsQuiet job_id elapsed job JobStatus.markdown result s h = round-IsQuiet job_id elapsed s h
status-IsQuiet job_id elapsed job JobStatus.parsing result s h = round-IsQuiet job_id elapsed s h

answer-IsQuiet :
    (job_id : String) (elapsed : ℕ) (answer : Option PolledJob) (s : Onboarding)
    → is_present s.parse_job_id ≡ true
    → IsQuiet (poll_answered job_id elapsed answer s)
unfolding poll_answered
answer-IsQuiet job_id elapsed none s h = round-IsQuiet job_id elapsed s h
answer-IsQuiet job_id elapsed (some job) s h = elim (Bool-cases (is_current job_id s)) [
  | inl e ↦
      rw (e, poll_answered)
        (status-IsQuiet job_id elapsed job job.status job.result
          (record s { parse_job_progress = job.progress }) h)
  | inr e ↦ rw (e, poll_answered) (record { silent = refl; present = h })
]

paste-IsQuiet :
    (text : String) (s : Onboarding)
    → is_present s.parse_job_id ≡ true
    → IsQuiet (parse_pasted_text text s)
unfolding parse_pasted_text
paste-IsQuiet text s h =
    elim (Bool-cases (ltb (text_length (trim (strip_control_chars text))) 20)) [
      | inl e ↦ rw (e, parse_pasted_text) (record { silent = refl; present = h })
      | inr e ↦
          rw (e, parse_pasted_text)
            (start-IsQuiet (trim (strip_control_chars text)) none
              (record s {
                parse_error = none;
                parse_file_name = "Pasted résumé";
                parsed_resume = none;
                parse_job_error = none;
              })
              h)
    ]

started-IsQuiet :
    (job_id : String) (progress : ℕ) (s : Onboarding)
    → is_empty job_id ≡ false
    → IsQuiet (parse_started job_id progress s)
unfolding parse_started enter_app
started-IsQuiet job_id progress s e = record { silent = ground arith; present = rw e }

field-IsQuiet :
    (v : FormField) (s : Onboarding)
    → is_present s.parse_job_id ≡ true
    → IsQuiet (set_form_field v s, [])
unfolding set_form_field
field-IsQuiet (FormField.parse_stage stage) s h = record { silent = refl; present = h }
field-IsQuiet (FormField.onboard_method way) s h = record { silent = refl; present = h }
field-IsQuiet (FormField.upload_text v) s h = record { silent = refl; present = h }

step-IsQuiet :
    (e : Event) (s : Onboarding) → IsReal e → is_present s.parse_job_id ≡ true → IsQuiet (step e s)
unfolding step parse_file uploaded upload_failed parse_refused resume_workspace
step-IsQuiet (fills_in v) s r h = field-IsQuiet v s h
step-IsQuiet (picks_file name) s r h = record { silent = refl; present = h }
step-IsQuiet (upload_ends markdown text file_id) s r h =
    start-IsQuiet (or_else markdown text) file_id s h
step-IsQuiet (upload_fails message) s r h = record { silent = refl; present = h }
step-IsQuiet (pastes text) s r h = paste-IsQuiet text s h
step-IsQuiet (starts job_id progress) s r h = started-IsQuiet job_id progress s r
step-IsQuiet (refuses message) s r h = record { silent = refl; present = h }
step-IsQuiet (answers job_id elapsed answer) s r h = answer-IsQuiet job_id elapsed answer s h
step-IsQuiet (creates resume_id) s r h = record { silent = refl; present = h }
step-IsQuiet dismisses s r h = record { silent = refl; present = h }
step-IsQuiet enters s r h = enter-IsQuiet s h
step-IsQuiet (resumes resume_id) s r h = record { silent = refl; present = h }
step-IsQuiet signs_out s r h = record { silent = refl; present = h }

-- Once a job has started, no action of the user, answer of the network or sign-out, in any order,
-- starts another one: no request to parse is sent any more. The ids of jobs are not empty.
pub later_parse_is_ignored :
    (es : List Event) (s : Onboarding)
    → All IsReal es
    → is_present s.parse_job_id ≡ true
    → parse_requests (steps es s).1 ≡ 0
unfolding steps
later_parse_is_ignored [] s r h = refl
later_parse_is_ignored (e ∷ es) s r h =
    let quiet = step-IsQuiet e s r.0 h in
    let later = later_parse_is_ignored es (step e s).0 r.1 quiet.present in
    requests-append (step e s).1 (steps es (step e s).0).1 ∙ omega (arith, quiet.silent, later)
