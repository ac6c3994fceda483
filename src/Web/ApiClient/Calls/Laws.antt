-- ===== src/Web/ApiClient/Calls/Laws.antt =====
-- Which calls of the client carry a key for the gateway's idempotency middleware.
use apply_agent.Prelude.{
  ℕ, zero, suc, String, ◌<>◌, ◌≡◌, refl, Bool, true, false, Option, none, some, List, [], ◌∷◌, inl,
  inr, Bool-cases, Host, All, map, length, nat_beq, is_empty, get_or_else, if◌then◌else◌,
}
use Prim.Native.Char.{code}
use apply_agent.Prelude.Assoc.{Assoc, lookup, lookup-insert}
use apply_agent.Api.Redis.{Redis}
use apply_agent.Api.Idempotency.{Call, Response, Answer, respond, Codec, idempotency, pass}
use apply_agent.Web.ApiClient.Retry.{Options, Request, Page, request_of, authorize, spread}
use apply_agent.Web.ApiClient.Calls.{
  ClientCall, CareerGraphCall, import_resume, overview, change, UserCall, AuthCall, McpCall,
  ResumeCall, LinkCall, FileCall, JobCall, ApplicationCall, InterviewCall, ChatCall, AskCall,
  FeedCall,
}
use apply_agent.Web.ApiClient.Calls.Requests.{
  career_graphs, users, auth, mcp_oauth, resumes, links, files, jobs, applications, interviews,
  chat, ask, feeds,
}

-- All calls that go through `api`
pub data AnyCall : Type 0 where
  to_career_graphs : CareerGraphCall → AnyCall
  to_users : UserCall → AnyCall
  to_auth : AuthCall → AnyCall
  to_mcp : McpCall → AnyCall
  to_resumes : ResumeCall → AnyCall
  to_links : LinkCall → AnyCall
  to_files : FileCall → AnyCall
  to_jobs : JobCall → AnyCall
  to_applications : ApplicationCall → AnyCall
  to_interviews : InterviewCall → AnyCall
  to_chat : ChatCall → AnyCall
  to_ask : AskCall → AnyCall
  to_feeds : FeedCall → AnyCall

-- The writes of the career graphs
abbrev pub is_keyed : AnyCall → Bool
is_keyed (to_career_graphs (import_resume resume_id graph_id graph_label)) = true
is_keyed (to_career_graphs (CareerGraphCall.decide id decision confirmation)) = true
is_keyed c = false

-- `new URL(c.req.url).pathname`, for a path without a fragment
unfoldable pub pathname : String → String
pathname String.[] = String.[]
pathname (String.◌∷◌ c s) =
    let rest = pathname s in if nat_beq (code c) b'?' then String.[] else String.◌∷◌ c rest

-- What the middleware reads of a request of the signed-in user
unfoldable pub arrived : (user_id : String) → Request → Call
arrived user_id r = record {
  idem_key = lookup "Idempotency-Key" r.headers;
  user_id = user_id;
  method = get_or_else r.method "GET";
  path = pathname r.path;
  body = r.body;
}

authorize-key :
    (token : Option String) (headers : Assoc String)
    → lookup "Idempotency-Key" (authorize token headers) ≡ lookup "Idempotency-Key" headers
unfolding authorize
authorize-key none headers = refl
authorize-key (some token) headers = elim (Bool-cases (is_empty token)) [
  | inl e ↦ rw e refl
  | inr e ↦ rw e (lookup-insert "Authorization" "Idempotency-Key" ("Bearer " <> token) headers)
]

request-key :
    (page : Page) (path : String) (o : Options)
    → o.headers ≡ []
    → lookup "Idempotency-Key" (request_of page path o).headers ≡ none
unfolding request_of spread lookup
request-key page path o e = rw e (
    authorize-key page.token
      (("Content-Type", "application/json") ∷ ("X-Relay-Locale", page.locale) ∷ []))

module _ (json : Host) (encode form : String → String) (uuid : String) where
  unfoldable pub call_of : AnyCall → ClientCall
  call_of (to_career_graphs c) = career_graphs json encode form uuid c
  call_of (to_users c) = users json encode form uuid c
  call_of (to_auth c) = auth json encode form uuid c
  call_of (to_mcp c) = mcp_oauth json encode form uuid c
  call_of (to_resumes c) = resumes json encode form uuid c
  call_of (to_links c) = links json encode form uuid c
  call_of (to_files c) = files json encode form uuid c
  call_of (to_jobs c) = jobs json encode form uuid c
  call_of (to_applications c) = applications json encode form uuid c
  call_of (to_interviews c) = interviews json encode form uuid c
  call_of (to_chat c) = chat json encode form uuid c
  call_of (to_ask c) = ask json encode form uuid c
  call_of (to_feeds c) = feeds json encode form uuid c

  no_headers-users : (c : UserCall) → (users json encode form uuid c).options.headers ≡ []
  unfolding users
  no_headers-users UserCall.get_me = refl
  no_headers-users (UserCall.update_me p) = refl

  no_headers-auth : (c : AuthCall) → (auth json encode form uuid c).options.headers ≡ []
  unfolding auth
  no_headers-auth (AuthCall.register e p d) = refl
  no_headers-auth (AuthCall.login e p) = refl
  no_headers-auth AuthCall.me = refl

  no_headers-mcp_oauth : (c : McpCall) → (mcp_oauth json encode form uuid c).options.headers ≡ []
  unfolding mcp_oauth
  no_headers-mcp_oauth (McpCall.request r) = refl
  no_headers-mcp_oauth (McpCall.decide r d) = refl

  no_headers-resumes : (c : ResumeCall) → (resumes json encode form uuid c).options.headers ≡ []
  unfolding resumes
  no_headers-resumes (ResumeCall.create v b) = refl
  no_headers-resumes (ResumeCall.parse t b) = refl
  no_headers-resumes (ResumeCall.parse_async v) = refl
  no_headers-resumes (ResumeCall.parse_status j) = refl
  no_headers-resumes ResumeCall.list = refl
  no_headers-resumes (ResumeCall.get i) = refl
  no_headers-resumes (ResumeCall.update i v b) = refl
  no_headers-resumes (ResumeCall.suggestions i t) = refl
  no_headers-resumes (ResumeCall.decide_suggestion i d v) = refl
  no_headers-resumes (ResumeCall.bullet_edit r b t) = refl

  no_headers-links : (c : LinkCall) → (links json encode form uuid c).options.headers ≡ []
  unfolding links
  no_headers-links (LinkCall.publish i) = refl
  no_headers-links (LinkCall.revoke_publish i) = refl
  no_headers-links (LinkCall.public_fetch t) = refl

  no_headers-files : (c : FileCall) → (files json encode form uuid c).options.headers ≡ []
  unfolding files
  no_headers-files (FileCall.download i) = refl
  no_headers-files (FileCall.preview i) = refl

  no_headers-jobs : (c : JobCall) → (jobs json encode form uuid c).options.headers ≡ []
  unfolding jobs
  no_headers-jobs (JobCall.list q l o) = refl
  no_headers-jobs (JobCall.get i) = refl
  no_headers-jobs (JobCall.match_one i) = refl
  no_headers-jobs (JobCall.matches is) = refl

  no_headers-applications :
      (c : ApplicationCall) → (applications json encode form uuid c).options.headers ≡ []
  unfolding applications
  no_headers-applications (ApplicationCall.prepare j r c) = refl
  no_headers-applications (ApplicationCall.prepare_from_jd u a f) = refl
  no_headers-applications (ApplicationCall.update i t o c) = refl
  no_headers-applications (ApplicationCall.list t) = refl

  no_headers-interviews :
      (c : InterviewCall) → (interviews json encode form uuid c).options.headers ≡ []
  unfolding interviews
  no_headers-interviews (InterviewCall.create_session j) = refl
  no_headers-interviews (InterviewCall.answer i q a) = refl
  no_headers-interviews InterviewCall.list = refl

  no_headers-chat : (c : ChatCall) → (chat json encode form uuid c).options.headers ≡ []
  unfolding chat
  no_headers-chat (ChatCall.send m i) = refl
  no_headers-chat ChatCall.sessions = refl
  no_headers-chat (ChatCall.messages i) = refl

  no_headers-ask : (c : AskCall) → (ask json encode form uuid c).options.headers ≡ []
  unfolding ask
  no_headers-ask (AskCall.recent n) = refl
  no_headers-ask (AskCall.history t n) = refl
  no_headers-ask AskCall.list_sessions = refl
  no_headers-ask (AskCall.create_session l) = refl
  no_headers-ask (AskCall.rename i l) = refl
  no_headers-ask (AskCall.remove i) = refl

  no_headers-feeds : (c : FeedCall) → (feeds json encode form uuid c).options.headers ≡ []
  unfolding feeds
  no_headers-feeds FeedCall.slash_catalog = refl
  no_headers-feeds FeedCall.today_queue = refl
  no_headers-feeds FeedCall.trends_today = refl
  no_headers-feeds FeedCall.trends_personalized = refl

  no_headers : (c : AnyCall) → is_keyed c ≡ false → (call_of c).options.headers ≡ []
  unfolding call_of career_graphs
  no_headers (to_career_graphs overview) h = refl
  no_headers (to_career_graphs (change id)) h = refl
  no_headers (to_career_graphs (import_resume r g l)) h = cc
  no_headers (to_career_graphs (CareerGraphCall.decide i d c)) h = cc
  no_headers (to_users c) h = no_headers-users c
  no_headers (to_auth c) h = no_headers-auth c
  no_headers (to_mcp c) h = no_headers-mcp_oauth c
  no_headers (to_resumes c) h = no_headers-resumes c
  no_headers (to_links c) h = no_headers-links c
  no_headers (to_files c) h = no_headers-files c
  no_headers (to_jobs c) h = no_headers-jobs c
  no_headers (to_applications c) h = no_headers-applications c
  no_headers (to_interviews c) h = no_headers-interviews c
  no_headers (to_chat c) h = no_headers-chat c
  no_headers (to_ask c) h = no_headers-ask c
  no_headers (to_feeds c) h = no_headers-feeds c

  -- The request of a call, as it reaches the middleware
  abbrev pub arrives : Page → (user_id : String) → AnyCall → Call
  arrives page user_id c = arrived user_id (request_of page (call_of c).path (call_of c).options)

  arrives-key :
      (page : Page) (user_id : String) (c : AnyCall)
      → is_keyed c ≡ false
      → (arrives page user_id c).idem_key ≡ none
  unfolding arrived
  arrives-key page user_id c h =
      request-key page (call_of c).path (call_of c).options (no_headers c h)

module _ (redis : Redis) (host : Host) (codec : Codec) (sha256 : String → String) {W : Type 0}
    (handler : W → W × Response) where
  passes :
      (call : Call) (s : redis.State) (w : W)
      → call.idem_key ≡ none
      → idempotency redis host codec sha256 handler call s w
        ≡ pass redis host codec sha256 handler s w
  unfolding idempotency
  passes call s w e = rw e refl

  -- The middleware serves the calls one after the other.
  unfoldable pub serve : List Call → redis.State → W → redis.State × W × List Answer
  serve [] s w = (s, w, [])
  serve (call ∷ calls) s w =
      let (s', w', answer) = idempotency redis host codec sha256 handler call s w in
      let (t, v, answers) = serve calls s' w' in (t, v, answer ∷ answers)

  -- The handler alone, run so often
  unfoldable pub runs : ℕ → W → W × List Answer
  runs zero w = (w, [])
  runs (suc n) w =
      let (w', res) = handler w in let (v, answers) = runs n w' in (v, respond res ∷ answers)

  module _ (json : Host) (encode form : String → String) (uuid : String) (page : Page)
      (user_id : String) where
    abbrev pub all_arrive : List AnyCall → List Call
    all_arrive calls = map (arrives json encode form uuid page user_id) calls

    -- Of the client's calls all but the two writes of the career graphs carry no idempotency key: where
    -- they reach the gateway's middleware, as the calls to prepare an application do, each of them runs
    -- the handler, whatever has been sent before, and the store of responses stays as it is.
    pub unkeyed_calls_run_each :
        (calls : List AnyCall) (s : redis.State) (w : W)
        → All (λ c. is_keyed c ≡ false) calls
        → serve (all_arrive calls) s w ≡ (s, (runs (length calls) w).0, (runs (length calls) w).1)
    unfolding serve runs pass
    unkeyed_calls_run_each [] s w h = refl
    unkeyed_calls_run_each (c ∷ calls) s w h =
        let first =
          passes (arrives json encode form uuid page user_id c) s w
            (arrives-key json encode form uuid page user_id c h.0) in
        rw (first, unkeyed_calls_run_each calls s (handler w).0 h.1) refl
