-- ===== src/Web/Vantage/Onboarding/Tests.antt =====
-- Runs of the first run, and the witnesses of its theorems.
use apply_agent.Prelude.{
  trim, ℕ, zero, suc, ◌≤◌, true, Option, none, some, List, [], ◌∷◌, ◌≡◌, refl, length,
}
use apply_agent.Api.Jobs.{JobStatus}
use apply_agent.Web.Vantage.Onboarding.{
  strip_control_chars, start_async_parse, parse_pasted_text, is_control, Onboarding, running,
  first_run, PolledJob,
}
use apply_agent.Web.Vantage.Onboarding.Laws.{poll_rounds, HasEnded, poll_rounds-HasEnded}
use apply_agent.Web.Vantage.Onboarding.Starts.{
  step, Event, picks_file, upload_ends, pastes, answers, dismisses, steps, parse_requests,
  later_parse_is_ignored,
}

-- The job j1 runs.
abbrev polling : Onboarding
polling = record (first_run true) { parse_job_id = some "j1"; parse_job_status = running }

abbrev still_parsing : PolledJob
still_parsing = record { status = JobStatus.parsing; progress = 70; result = none; error = none }

abbrev repeat : ℕ → List (Option PolledJob)
repeat zero = []
repeat (suc n) = some still_parsing ∷ repeat n

poll_rounds-HasEnded_example :
    ((poll_rounds "j1" 0 (repeat 60) polling).1 ≤ 60)
    × (60 ≤ length (repeat 60) → HasEnded (poll_rounds "j1" 0 (repeat 60) polling).0)
poll_rounds-HasEnded_example = poll_rounds-HasEnded "j1" (repeat 60) polling refl refl

-- The job fails, the user dismisses the banner and uploads again.
abbrev second_try : List Event
second_try =
    answers "j1" 1500 (
      some
        (record { status = JobStatus.failed; progress = 100; result = none; error = some "OCR" }))
    ∷ dismisses
    ∷ picks_file "cv.pdf"
    ∷ upload_ends "# Ada" "Ada" (some "f1")
    ∷ []

later_parse_is_ignored_example : parse_requests (steps second_try polling).1 ≡ 0
later_parse_is_ignored_example =
    later_parse_is_ignored second_try polling (tt, (tt, (tt, (tt, tt)))) refl

-- Two pastes before the answer to the first one: the guard lets both through.
two_pastes_start_two :
    parse_requests
      (steps
        (pastes "Ada Lovelace, analyst, London" ∷ pastes "Ada Lovelace, analyst, London" ∷ [])
        (first_run true)).1
    ≡ 2
unfolding steps step parse_pasted_text trim strip_control_chars is_control start_async_parse
two_pastes_start_two = refl
