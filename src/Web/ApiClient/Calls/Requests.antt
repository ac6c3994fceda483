-- ===== src/Web/ApiClient/Calls/Requests.antt =====
-- api.ts: what the pages' calls send.
use apply_agent.Prelude.{
  ℕ, String, ◌<>◌, Option, none, some, List, [], ◌∷◌, ◌++◌, str, bool, arr, obj, Items, nil, cons,
  Fields, end, field, Host, optional_field, map_option, is_empty, nat_beq, to_decimal,
  if◌then◌else◌,
}
use apply_agent.Web.ApiClient.Calls.{
  ClientCall, CareerGraphCall, UserCall, AuthCall, McpCall, ResumeCall, LinkCall, FileCall, JobCall,
  ApplicationCall, InterviewCall, ChatCall, AskCall, FeedCall, reads, asks_for, overview,
  import_resume, change, get_me, update_me, register, login, me, request, create, parse,
  parse_async, parse_status, suggestions, decide_suggestion, bullet_edit, publish, revoke_publish,
  public_fetch, preview, match_one, matches, prepare, prepare_from_jd, answer, send, sessions,
  messages, recent, history, list_sessions, rename, remove, slash_catalog, today_queue,
  trends_today, trends_personalized,
}

-- A text that a test for truth lets through
abbrev truthy_text : Option String → Option String
truthy_text none = none
truthy_text (some t) = if is_empty t then none else some t

abbrev truthy_number : Option ℕ → Option String
truthy_number none = none
truthy_number (some n) = if nat_beq n 0 then none else some (to_decimal n)

-- `qs`
abbrev status_query : Option String → String
status_query none = ""
status_query (some t) = "?status=" <> t

-- One entry of a query, where it is set
abbrev entry : String → Option String → List (String × String)
entry name none = []
entry name (some v) = (name, v) ∷ []

abbrev texts : List String → Items
texts [] = nil
texts (t ∷ ts) = cons (str t) (texts ts)

abbrev label_body : Option String → Fields
label_body none = end
label_body (some label) = if is_empty label then end else field "label" (str label) end

-- `host` is `JSON`, `encode` is `encodeURIComponent`, `form` what URLSearchParams makes of a value,
-- and `uuid` what `crypto.randomUUID()` returns for the call.
module _ (host : Host) (encode form : String → String) (uuid : String) where
  sends : (method path : String) → Fields → ClientCall
  sends method path body = record {
    path = path;
    options = record {
      method = some method;
      headers = [];
      body = some (host.stringify (obj body));
    };
  }

  sends_once : (path : String) → Fields → ClientCall
  sends_once path body = record {
    path = path;
    options = record {
      method = some "POST";
      headers = ("Idempotency-Key", uuid) ∷ [];
      body = some (host.stringify (obj body));
    };
  }

  -- `URLSearchParams.toString()`
  query_text : List (String × String) → String
  query_text [] = ""
  query_text ((name, v) ∷ []) = name <> ("=" <> form v)
  query_text ((name, v) ∷ more) = name <> ("=" <> (form v <> ("&" <> query_text more)))

  with_query : String → List (String × String) → String
  with_query path [] = path
  with_query path (e ∷ es) = path <> ("?" <> query_text (e ∷ es))

  unfoldable pub career_graphs : CareerGraphCall → ClientCall
  unfolding sends_once
  career_graphs overview = reads "/api/career-graphs"
  career_graphs (import_resume resume_id graph_id graph_label) =
      sends_once "/api/career-graphs/import" (
        field "resumeId" (str resume_id) (
          optional_field "graphId" (map_option str graph_id)
            (optional_field "graphLabel" (map_option str graph_label) end)))
  career_graphs (change change_set_id) =
      reads ("/api/career-graphs/changes/" <> encode change_set_id)
  career_graphs (CareerGraphCall.decide change_set_id decision confirmation) =
      sends_once ("/api/career-graphs/changes/" <> (encode change_set_id <> "/decision"))
        (field "decision" (str decision) (field "confirmation" (str confirmation) end))

  unfoldable pub users : UserCall → ClientCall
  unfolding sends
  users get_me = reads "/api/auth/me"
  users (update_me preferences) =
      sends "PATCH" "/api/users/me" (field "preferences" preferences end)

  unfoldable pub auth : AuthCall → ClientCall
  unfolding sends
  auth (register email password display_name) = sends "POST" "/api/auth/register" (
      field "email" (str email) (
        field "password" (str password)
          (optional_field "displayName" (map_option str display_name) end)))
  auth (login email password) =
      sends "POST" "/api/auth/login"
        (field "email" (str email) (field "password" (str password) end))
  auth me = reads "/api/auth/me"

  unfoldable pub mcp_oauth : McpCall → ClientCall
  unfolding sends
  mcp_oauth (request request_id) = reads ("/api/mcp-oauth/requests/" <> encode request_id)
  mcp_oauth (McpCall.decide request_id decision) =
      sends "POST" ("/api/mcp-oauth/requests/" <> (encode request_id <> "/decision"))
        (field "decision" (str decision) end)

  -- `resumes`; the input of a parse and the payload of an update are objects.
  unfoldable pub resumes : ResumeCall → ClientCall
  unfolding sends
  resumes (create content is_base) =
      sends "POST" "/api/resumes" (field "content" content (field "isBase" (bool is_base) end))
  resumes (parse text save) =
      sends "POST" "/api/resumes/parse" (field "text" (str text) (field "save" (bool save) end))
  resumes (parse_async input) = record {
    path = "/api/resumes/parse-async";
    options = record { method = some "POST"; headers = []; body = some (host.stringify input) };
  }
  resumes (parse_status job_id) = reads ("/api/resumes/parse/" <> job_id)
  resumes ResumeCall.list = reads "/api/resumes"
  resumes (ResumeCall.get id) = reads ("/api/resumes/" <> id)
  resumes (ResumeCall.update id payload draft) = record {
    path = "/api/resumes/" <> (id <> (if draft then "?mode=draft" else ""));
    options = record { method = some "PUT"; headers = []; body = some (host.stringify payload) };
  }
  resumes (suggestions id status) =
      reads ("/api/resumes/" <> (id <> ("/suggestions?status=" <> encode status)))
  resumes (decide_suggestion suggestion_id decision decided_via) =
      sends "POST" ("/api/resumes/suggestions/" <> (suggestion_id <> "/decision"))
        (field "decision" (str decision) (field "decidedVia" (str decided_via) end))
  resumes (bullet_edit resume_id bullet_stable_id instruction) =
      sends "POST" ("/api/resumes/" <> (resume_id <> "/bullet-edit"))
        (field "bulletStableId" (str bullet_stable_id) (field "instruction" (str instruction) end))

  -- `publish`, `revokePublish` and `publicResume.fetch`
  unfoldable pub links : LinkCall → ClientCall
  links (publish resume_id) = asks_for "POST" ("/api/resumes/" <> (resume_id <> "/publish"))
  links (revoke_publish resume_id) =
      asks_for "DELETE" ("/api/resumes/" <> (resume_id <> "/publish"))
  links (public_fetch token) = reads ("/api/public/r/" <> encode token)

  unfoldable pub files : FileCall → ClientCall
  files (FileCall.download id) = reads ("/api/files/" <> (id <> "/download"))
  files (preview id) = reads ("/api/files/" <> (id <> "/preview"))

  unfoldable pub jobs : JobCall → ClientCall
  unfolding sends with_query query_text
  jobs (JobCall.list search limit offset) = reads (
      with_query "/api/jobs" (
        entry "search" (truthy_text search)
        ++ (entry "limit" (truthy_number limit) ++ entry "offset" (truthy_number offset))))
  jobs (JobCall.get id) = reads ("/api/jobs/" <> id)
  jobs (match_one job_id) = asks_for "POST" ("/api/jobs/" <> (job_id <> "/match"))
  jobs (matches job_ids) =
      sends "POST" "/api/jobs/matches" (field "jobIds" (arr (texts job_ids)) end)

  -- The list of applications by status; the status stands in the path as it is.
  unfoldable pub applications : ApplicationCall → ClientCall
  unfolding sends
  applications (prepare job_id resume_id cover_letter) = sends "POST" "/api/applications/prepare" (
      field "jobId" (str job_id) (
        optional_field "resumeId" (map_option str resume_id)
          (optional_field "coverLetter" (map_option str cover_letter) end)))
  applications (prepare_from_jd jd_url application_id form_fields) =
      sends "POST" "/api/applications/prepare-from-jd" (
        field "jdUrl" (str jd_url)
          (field "applicationId" (str application_id) (field "formFields" (arr form_fields) end)))
  applications (ApplicationCall.list status) =
      reads ("/api/applications" <> status_query (truthy_text status))
  applications (ApplicationCall.update id status outcome cover_letter) =
      sends "PATCH" ("/api/applications/" <> id) (
        optional_field "status" (map_option str status) (
          optional_field "outcome" (map_option str outcome)
            (optional_field "coverLetter" (map_option str cover_letter) end)))

  unfoldable pub interviews : InterviewCall → ClientCall
  unfolding sends
  interviews (InterviewCall.create_session job_id) =
      sends "POST" "/api/interviews/session" (optional_field "jobId" (map_option str job_id) end)
  interviews (answer session_id question_id text) =
      sends "POST" ("/api/interviews/" <> (session_id <> "/answer"))
        (field "questionId" (str question_id) (field "answer" (str text) end))
  interviews InterviewCall.list = reads "/api/interviews"

  unfoldable pub chat : ChatCall → ClientCall
  unfolding sends
  chat (send message session_id) =
      sends "POST" "/api/chat/send"
        (optional_field "sessionId" (map_option str session_id) (field "message" (str message) end))
  chat sessions = reads "/api/chat/sessions"
  chat (messages session_id) = reads ("/api/chat/sessions/" <> (session_id <> "/messages"))

  unfoldable pub ask : AskCall → ClientCall
  unfolding sends query_text with_query
  ask (recent limit) = reads ("/api/ask/recent?limit=" <> encode (to_decimal limit))
  ask (history thread_id limit) = reads (
      with_query "/api/ask/history"
        (entry "threadId" (truthy_text thread_id) ++ (("limit", to_decimal limit) ∷ [])))
  ask list_sessions = reads "/api/ask/sessions"
  ask (AskCall.create_session label) = sends "POST" "/api/ask/sessions" (label_body label)
  ask (rename id label) =
      sends "PATCH" ("/api/ask/sessions/" <> encode id) (field "label" (str label) end)
  ask (remove id) = asks_for "DELETE" ("/api/ask/sessions/" <> encode id)

  unfoldable pub feeds : FeedCall → ClientCall
  feeds slash_catalog = reads "/api/slash/catalog"
  feeds today_queue = reads "/api/today/queue"
  feeds trends_today = reads "/api/trends/today"
  feeds trends_personalized = reads "/api/trends/personalized"
