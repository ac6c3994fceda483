-- ===== src/Web/Vantage/Tests.antt =====
-- Runs of the tracker and of a session, and the witnesses of their theorems.
use apply_agent.Prelude.{String, true, false, none, some, List, [], ◌∷◌, ◌≡◌, refl, map, str, arith}
use apply_agent.Web.Vantage.Views.{first_views}
use apply_agent.Web.Vantage.Applications.{
  Application, Patch, Tracker, patch_application, patch_refused, patch_error, find_application,
}
use apply_agent.Web.Vantage.Applications.Laws.{
  Event, patches, accepts, steps, refused_patch_restores,
}
use apply_agent.Web.Vantage.Onboarding.{
  first_run, ParseResult, running, create_resume, load_jobs, load_trends, load_current_user,
  load_resumes, parse_finished, enter_app, start_async_parse,
}
use apply_agent.Web.Vantage.Chat.{first_chat}
use apply_agent.Web.Vantage.Session.{Session, sign_out}
use apply_agent.Web.Vantage.Session.Laws.{next_user_lem}
use apply_agent.Web.Vantage.Review.{
  is_already, find_listed, add_applied, submit_review, applied_row,
}

abbrev row : (id status : String) → Application
row id status = record {
  id = id;
  job_id = none;
  status = status;
  company = "Acme";
  role_title = "Engineer";
  url = none;
  resume_version_id = none;
  cover_letter = none;
  form_answers = none;
  outcome = none;
  submitted_at = none;
  submitted_via = none;
  created_at = "2026-01-01";
  next_action = none;
  next_action_due = none;
  next_action_derived = none;
  next_action_due_derived = none;
}

abbrev tracker : Tracker
tracker = record {
  api_applications = row "a" "draft" ∷ row "b" "draft" ∷ [];
  api_apps_loading = false;
  pending = [];
  next_ticket = 0;
}

abbrev to_status : String → Patch
to_status status = record { status = some status; outcome = none; cover_letter = none }

-- While the patch of a is under way, b is patched and the server accepts that.
abbrev meanwhile : List Event
meanwhile = patches "b" (to_status "submitted") ∷ accepts 1 ∷ []

refused_patch_restores_example :
    (let (after, result) =
        patch_refused 0
          (some "502")
          (steps meanwhile (patch_application "a" (to_status "submitted") tracker).0) in
      (after.api_applications ≡ row "a" "draft" ∷ row "b" "draft" ∷ [])
      × (result ≡ patch_error "502"))
unfolding find_application
refused_patch_restores_example =
    refused_patch_restores "a" (to_status "submitted") (some "502") meanwhile tracker refl
      (tt, ((λ e. omega (arith, e)), tt))

abbrev ada : Session
ada = record {
  chat = first_chat none;
  onboarding = record (first_run true) { parse_job_id = some "j1"; parse_job_status = running };
  tracker = tracker;
  jobs = record {
    api_jobs = [];
    api_jobs_loading = false;
    current_resume_id = none;
    jobs_loaded_at = 0;
    jobs_loaded_for_resume = none;
  };
  chat_log = [];
  resumes = [];
  trend_snapshot = none;
  current_user = some (record { id = "ada"; email = "ada@example.org"; display_name = "Ada" });
  tailored_change_logs = [];
}

abbrev parsed : ParseResult
parsed = record { resume = str "Ada's résumé"; resume_id = some "r1" }

next_user_lem_example :
    (let after = sign_out (record ada { onboarding = (parse_finished parsed ada.onboarding).0 }) in
      (after.resumes ≡ [])
      × ((enter_app after.onboarding).1
          ≡ load_jobs
            ∷ load_trends
            ∷ load_current_user
            ∷ load_resumes
            ∷ create_resume (str "Ada's résumé")
            ∷ [])
      × ((start_async_parse "# Eve" none after.onboarding).1 ≡ []))
next_user_lem_example = next_user_lem parsed ada "# Eve" none refl

-- The review of a job of the demonstration adds one row, however often it is submitted.
review_adds_one :
    map
      (λ a. a.co)
      (submit_review
        (submit_review (record {
          views = first_views true;
          applied = [];
          api_jobs = [];
          api_applications = [];
          current_resume_id = none;
        })).0).0.applied
    ≡ "Linear" ∷ []
unfolding submit_review find_listed add_applied is_already applied_row
review_adds_one = refl
