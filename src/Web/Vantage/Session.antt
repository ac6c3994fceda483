-- ===== src/Web/Vantage/Session.antt =====
-- store.ts: the slices together, what belongs to the user beside them, and `signOut`.
pub mod Laws
use apply_agent.Prelude.{
  ℕ, String, Bool, true, false, Option, none, some, List, [], ◌∷◌, ◌++◌, map, nat_beq,
  if◌then◌else◌, Json,
}
use apply_agent.Prelude.Assoc.{Assoc, insert}
use apply_agent.Prelude.Sort.{sort_by}
use apply_agent.Web.Vantage.Chat.{Chat, sign_out_chat}
use apply_agent.Web.Vantage.Onboarding.{Onboarding, sign_out_onboarding}
use apply_agent.Web.Vantage.Views.{app, Nav}
use apply_agent.Web.Vantage.Applications.{Tracker}
use apply_agent.Web.Vantage.JobList.{JobList}

pub data Track : Type 0 where
  original optimized tailored : Track

pub record ResumeRow : Type 0 where
  pub id : String
  pub version : ℕ
  pub is_base : Bool
  pub track : Track
  pub derived_from : Option String
  pub tailored_for_job : Option String
  pub source_file_id : Option String
  pub created_at : String

pub record CurrentUser : Type 0 where
  pub id : String
  pub email : String
  pub display_name : String

-- `topSkills` and `topRoles`: a name with its count
pub record TrendSnapshot : Type 0 where
  pub total_jobs : ℕ
  pub new_jobs_this_week : ℕ
  pub top_skills : List (String × ℕ)
  pub top_roles : List (String × ℕ)

pub record ChangeLogEntry : Type 0 where
  pub bullet_id : String
  pub change_type : String
  pub before_text : Option String
  pub after_text : Option String
  pub source_evidence : Option String
  pub explanation : Option String
  pub risk : Option String

-- `ChatEntry`
pub record FlowEntry : Type 0 where
  pub id : String
  pub phase : ℕ
  pub key : ℕ

-- `current_resume_id` is that of `onboarding` and of `jobs`, which every action keeps equal.
pub record Session : Type 0 where
  pub chat : Chat
  pub onboarding : Onboarding
  pub tracker : Tracker
  pub jobs : JobList
  pub chat_log : List FlowEntry
  pub resumes : List ResumeRow
  pub trend_snapshot : Option TrendSnapshot
  pub current_user : Option CurrentUser
  pub tailored_change_logs : Assoc (List ChangeLogEntry)

-- `setCurrentResume`, and `createResume` after its `await`
abbrev pub set_current_resume : Option String → Session → Session
set_current_resume id s = record s {
  onboarding = record s.onboarding { current_resume_id = id };
  jobs = record s.jobs { current_resume_id = id };
}

-- `loadResumes` after its `await`; `parse_date` is `Date.parse`, and `none` an error.
unfoldable pub resumes_loaded :
    (parse_date : String → ℕ) → Option (Option (List ResumeRow)) → Session → Session
resumes_loaded parse_date none s = s
resumes_loaded parse_date (some none) s = record s { resumes = [] }
resumes_loaded parse_date (some (some rows)) s = record s {
  resumes = sort_by (λ r. parse_date r.created_at) rows;
}

-- `loadTrends` after its `await`
unfoldable pub trends_loaded : Option TrendSnapshot → Session → Session
trends_loaded none s = s
trends_loaded (some snapshot) s = record s { trend_snapshot = some snapshot }

-- `loadCurrentUser` after its `await`
unfoldable pub current_user_loaded : Option CurrentUser → Session → Session
current_user_loaded none s = s
current_user_loaded (some user) s = record s { current_user = some user }

-- `setTailoredChangeLog`
abbrev pub set_tailored_change_log : String → List ChangeLogEntry → Session → Session
set_tailored_change_log resume_id log s = record s {
  tailored_change_logs = insert resume_id log s.tailored_change_logs;
}

-- `runFlow`; `key` is the new entry's.
unfoldable pub run_flow : (id : String) → (key : ℕ) → Session → Session
run_flow id key s = record s {
  onboarding = record s.onboarding {
    views = record s.onboarding.views { screen = app; nav = Nav.chat };
  };
  chat_log = s.chat_log ++ (record { id = id; phase = 0; key = key } ∷ []);
}

abbrev to_phase_one : ℕ → FlowEntry → FlowEntry
to_phase_one key c = if nat_beq c.key key then record c { phase = 1 } else c

-- 1500 ms after `runFlow`
unfoldable pub flow_ran : (key : ℕ) → Session → Session
flow_ran key s = record s { chat_log = map (to_phase_one key) s.chat_log }

-- `signOut`
unfoldable pub sign_out : Session → Session
sign_out s = record s {
  chat = sign_out_chat s.chat;
  onboarding = sign_out_onboarding s.onboarding;
  tracker = record s.tracker { api_applications = [] };
  jobs = record s.jobs { api_jobs = []; current_resume_id = none };
  trend_snapshot = none;
  current_user = none;
  tailored_change_logs = [];
}
