-- ===== src/Lib.antt =====
-- Verification of the TypeScript core of the application assistant: the web client's agent event
-- stream, the gateway's request logic, the path of an error from the gateway to the user, the edit session
-- and the comparison of a résumé, and the browser extension's form filler.
--
-- The agent backend streams AG-UI events over SSE. The consumer (web/src/lib/agent-events/consumer.ts)
-- turns one logical stream into connections that resume by cursor and hands every event to the
-- store, whose `pushEvent` folds it with the pure reducer (reducer.ts, custom.ts) into the map of
-- steps that the dock renders. The gateway (api/src) guards its routes by small modules.
--
-- AgentEvents.Events and AgentEvents.Steps: schema.ts and relay-meta.ts; the payloads of custom.ts.
-- AgentEvents.Feed: `appendEvent` and its soft cap; Feed.Laws has what it keeps.
-- AgentEvents.State, AgentEvents.Handlers: `ReducerState`, `upsertStep` and the handlers of
--   reducer.ts, each under its own name in snake_case; the state goes in and comes out.
-- AgentEvents.Custom and AgentEvents.Custom.Cards: the handlers of custom.ts.
-- AgentEvents.Reducer: the dispatch `applyCustom` and `applyEvent`, and the fold over a stream.
-- AgentEvents.Change: the reducer as a relation, a sequence of writes of single steps; its children
--   show that every handler is one. AgentEvents.Invariant, Timeline, Streaming, Runs, Cards and Tools
--   state and prove the properties of the fold.
-- AgentEvents.Consumer: the closure of `consumeAgentStream` as a state machine. Its inputs are what
--   the environment does (frames, failures, the end of a connection, the timer, the abort signal), its
--   effects the callbacks and the requests.
-- AgentEvents.Store: the store's actions and callbacks (store.ts, with `cancelStream` of
--   web/src/lib/ask-vantage-store.ts) over the consumers of all turns; a controller is a number, and
--   what a consumer calls is handed to the callbacks in order. Store.Turns, Invariant and Graph: proofs.
-- Api.Pagination: api/src/pagination.ts. Api.RateLimit: api/src/middleware/rate-limit.ts.
-- Api.CanonicalBody and Api.Idempotency: api/src/middleware/idempotency.ts; the JSON body with sorted
--   keys, and the middleware around a handler that has a state of its own.
-- Api.Redis: the interface of the Redis client, with what is relied on while the store is up; Api.Memory fills it for the tests. Api.Errors: the errors that the modelled code throws.
--
-- Api.Cache: api/src/cache.ts; Cache.Memo is the memo table that it promises, Memo.Refinement the proof.
--   Api.Jobs: api/src/jobs.ts; an executor is a tree of its calls of `step`.
-- Api.Ownership: api/src/ownership.ts over a query function, which stands for PostgreSQL and reads the text of
--   the statement; Api.Locale: api/src/locale.ts; Api.Operations:
--   api/src/routes/operations.ts. Api.Applications: the UPDATE and the next action of
--   api/src/routes/applications.ts, with the schema of api/src/schemas.ts.
-- Api.Export: api/src/resume-export.ts and `attachmentHeader` of api/src/routes/resumes.ts; Api.ArtifactProfile:
--   api/src/resume-artifact-profile.ts, with the audits of api/src/pdf-render.ts and api/src/docx-export.ts.
--   Web.ApiClient.Download reads both back (`resumes.download` of web/src/lib/api.ts): Names and Audits go from
--   the gateway's header to the page, through Web.ApiClient.Origin.
-- Api.ResumeMarkdown: api/src/resume-markdown.ts; Sections and Document build the lines.
--
-- Web.ResumeEdit: web/src/lib/use-resume-edit.ts, the hook's state and refs as one record with one
--   function for each callback, and two for `commit`, which depends on when React runs an updater; ResumeEdit.Document has the document, its paths and `getAtPath`,
--   `setAtPath`; Document.Laws, Merge, Session and Replies have the proofs.
--
-- The path of an error. Api.AppError: api/src/errors.ts, the taxonomy, with AppError.Errors (the factory),
--   Infra (`translateInfraError`), TraceCode (with api/src/middleware/trace-id.ts) and Envelope
--   (`toErrorResponse`, `errorHandler`). Web.Health: web/src/lib/health-store.ts. Web.ApiClient:
--   web/src/lib/api.ts; Origin has what the CORS middleware of api/src/index.ts lets a page read, Retry the second attempt of `api` over an
--   interface of the network. Web.ErrorRouter: web/src/lib/errors/resolve.ts. The Laws of each, Outage,
--   Codes and Retry.Sends have the proofs; those of Web.ErrorRouter go from the exception in the gateway to
--   what the user sees.
-- Web.Vantage: web/src/lib/store.ts, the store of the views, by slices: Views (navigation and tour),
--   Onboarding (upload, paste, the parse job and its poll; Laws and Starts), Chat, Applications (the
--   tracker's optimistic patches), JobList, Review (submitReview, extSubmit, submitApplication), Practice
--   (builder and interview), Session (the slices together, with `signOut`); DemoJobs and Scripts are its
--   tables. An action that waits is two functions, up to its `await` and from there on, and a timer a
--   function for the time when it fires.
-- Web.ApiClient.Calls: the calls of the pages by namespace of web/src/lib/api.ts, with what each sends in
--   Calls.Requests; Calls.Laws takes them to the middleware of Api.Idempotency.
--   Web.ApiClient.Direct: the calls of web/src/lib/api.ts that use `fetch` itself. Web.ApiClient.Token: its
--   token, cookie and chat session.
-- Web.Dock: web/src/lib/ask-vantage-store.ts with what localStorage keeps of it, and what `signOut` of
--   web/src/lib/store.ts does to it; Events is what can happen to it, Laws and SignOut have the proofs.
-- Web.Compare: web/src/lib/resume-compare.ts; Compare.Text has `likelyRewriteOf`.
--
-- Extension: apps/extension/src; Extension.Sensitive (sensitive.ts), Extension.Rules and LocalFill
--   (local-fill.ts; a regular expression is a list of alternatives, each a list of pieces), and
--   Extension.Fill (content.ts, cloud-fill.ts) over an interface of the page and the network.
--
-- Conventions. A JavaScript `Map` is a list of entries in insertion order. A field that may be missing
-- or null is an `Option`; `||`, `??` and truthiness are written out. Times are natural numbers of
-- milliseconds and durations integers. SHA-256, the codec of stored responses and the test of the
-- stream error's regular expression are parameters. `Date.now()` is an argument, read once while an event is
-- handled. `JSON.parse` and `JSON.stringify` are parameters (`Host`), and so is `Number(raw)`. Payloads
-- that custom.ts casts from `unknown` are taken to have the declared shape. The numbers in
-- an action and in details are taken to be integers, and error codes, form labels and résumé bullets to
-- be of ASCII where their case matters. RxJS delivers nothing to a subscription that has ended, and the abort signal is not raised before the consumer starts. Loops
-- over lists are structural recursion; `to_decimal` has one more unit of fuel than its number, which is
-- enough since each round divides it by ten, and more fuel changes nothing.
--
-- Not modelled: React components, whose code is layout and styles; SQL, HTTP transport and the routes
-- that only join them; the layout of PDF pages, which reads measured glyphs; the formatting of dates
-- and status labels; the tables of sample data that the store of the views only displays; the Python
-- agents, which are another program; and the console output.
pub mod Prelude
pub mod AgentEvents
pub mod Api
pub mod Web
pub mod Extension
