-- ===== src/Web/ApiClient/Calls.antt =====
-- api.ts: the calls that the pages make with `api`, each the path and the options that it passes. The
-- signal of `prepareFromJD` and the types of the answers are left out.
pub mod Requests
pub mod Laws
mod Tests
use apply_agent.Prelude.{
  ℕ, String, ◌<>◌, ◌==◌, Bool, true, false, Option, none, some, List, [], ◌∷◌, ◌++◌, Json, num, str,
  bool, arr, obj, Items, nil, cons, Fields, end, field, pos, Host, optional_field, map_option,
  is_empty, nat_beq, to_decimal, if◌then◌else◌,
}
use apply_agent.Prelude.Assoc.{Assoc}
use apply_agent.Web.ApiClient.Retry.{Options}

pub record ClientCall : Type 0 where
  pub path : String
  pub options : Options

-- `api(path)`
abbrev pub reads : String → ClientCall
reads path = record { path = path; options = record { method = none; headers = []; body = none } }

-- `api(path, { method })`
abbrev pub asks_for : (method path : String) → ClientCall
asks_for method path = record {
  path = path;
  options = record { method = some method; headers = []; body = none };
}

pub data CareerGraphCall : Type 0 where
  overview : CareerGraphCall
  import_resume : (resume_id : String) → (graph_id graph_label : Option String) → CareerGraphCall
  change : (change_set_id : String) → CareerGraphCall
  decide : (change_set_id : String) → (decision confirmation : String) → CareerGraphCall

pub data UserCall : Type 0 where
  get_me : UserCall
  update_me : (preferences : Json) → UserCall

pub data AuthCall : Type 0 where
  register : (email password : String) → (display_name : Option String) → AuthCall
  login : (email password : String) → AuthCall
  me : AuthCall

pub data McpCall : Type 0 where
  request : (request_id : String) → McpCall
  decide : (request_id decision : String) → McpCall

pub data ResumeCall : Type 0 where
  create : (content : Json) → (is_base : Bool) → ResumeCall
  parse : (text : String) → (save : Bool) → ResumeCall
  parse_async : (input : Json) → ResumeCall
  parse_status : (job_id : String) → ResumeCall
  list : ResumeCall
  get : (id : String) → ResumeCall
  update : (id : String) → (payload : Json) → (draft : Bool) → ResumeCall
  suggestions : (id status : String) → ResumeCall
  decide_suggestion : (suggestion_id decision decided_via : String) → ResumeCall
  bullet_edit : (resume_id bullet_stable_id instruction : String) → ResumeCall

-- The calls for the public link of a résumé
pub data LinkCall : Type 0 where
  publish : (resume_id : String) → LinkCall
  revoke_publish : (resume_id : String) → LinkCall
  public_fetch : (token : String) → LinkCall

pub data FileCall : Type 0 where
  download : (id : String) → FileCall
  preview : (id : String) → FileCall

pub data JobCall : Type 0 where
  list : (search : Option String) → (limit offset : Option ℕ) → JobCall
  get : (id : String) → JobCall
  match_one : (job_id : String) → JobCall
  matches : (job_ids : List String) → JobCall

pub data ApplicationCall : Type 0 where
  prepare : (job_id : String) → (resume_id cover_letter : Option String) → ApplicationCall
  prepare_from_jd : (jd_url application_id : String) → (form_fields : Items) → ApplicationCall
  list : (status : Option String) → ApplicationCall
  update : (id : String) → (status outcome cover_letter : Option String) → ApplicationCall

pub data InterviewCall : Type 0 where
  create_session : (job_id : Option String) → InterviewCall
  answer : (session_id question_id answer : String) → InterviewCall
  list : InterviewCall

pub data ChatCall : Type 0 where
  send : (message : String) → (session_id : Option String) → ChatCall
  sessions : ChatCall
  messages : (session_id : String) → ChatCall

pub data AskCall : Type 0 where
  recent : (limit : ℕ) → AskCall
  history : (thread_id : Option String) → (limit : ℕ) → AskCall
  list_sessions : AskCall
  create_session : (label : Option String) → AskCall
  rename : (id label : String) → AskCall
  remove : (id : String) → AskCall

pub data FeedCall : Type 0 where
  slash_catalog today_queue trends_today trends_personalized : FeedCall
