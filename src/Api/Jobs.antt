-- ===== src/Api/Jobs.antt =====
-- jobs.ts: long work whose state is a record in Redis that the client polls.
pub mod Laws
mod Tests
use apply_agent.Prelude.{
  ℕ, ◌*◌, String, ◌<>◌, ◌==◌, Bool, true, false, Option, none, some, is_empty, or_option, Json, ◌⊎◌,
  inl, inr, if◌then◌else◌,
}
use apply_agent.Api.Errors.{Result, ok, err, ApiError, message_of}
use apply_agent.Api.Redis.{Redis}

pub data JobStatus : Type 0 where
  pending extracting markdown parsing done failed : JobStatus

-- `PROGRESS`
abbrev pub progress_of : JobStatus → ℕ
progress_of pending = 5
progress_of extracting = 25
progress_of markdown = 45
progress_of parsing = 70
progress_of done = 100
progress_of failed = 100

-- `type` is `kind` here.
pub record AsyncJob : Type 0 where
  pub id : String
  pub user_id : String
  pub kind : String
  pub status : JobStatus
  pub progress : ℕ
  pub result : Option Json
  pub error : Option String
  pub created_at : String
  pub updated_at : String

-- `Partial<Pick<AsyncJob, "status" | "result" | "error">>`
pub record JobPatch : Type 0 where
  pub status : Option JobStatus
  pub result : Option Json
  pub error : Option String

abbrev pub job_ttl : ℕ
job_ttl = 60 * 60

-- `key`
abbrev pub job_key : String → String
job_key id = "job:" <> id

-- `JSON.stringify(job)` and `JSON.parse(raw) as AsyncJob`; `none` is a `SyntaxError`.
pub record JobCodec : Type 0 where
  pub encode : AsyncJob → String
  pub decode : String → Option AsyncJob

-- The statuses that an executor may report: `Exclude<JobStatus, "pending" | "done" | "failed">`
pub data ReportedStatus : Type 0 where
  extracting_step markdown_step parsing_step : ReportedStatus

abbrev pub reported_status : ReportedStatus → JobStatus
reported_status extracting_step = extracting
reported_status markdown_step = markdown
reported_status parsing_step = parsing

moved : Option JobStatus → AsyncJob → AsyncJob
moved none job = job
moved (some status) job = record job { status = status; progress = progress_of status }

-- What the patch makes of the job, at a time.
unfoldable pub patched : JobPatch → (now : String) → AsyncJob → AsyncJob
unfolding moved
patched patch now job = record (moved patch.status job) {
  result = or_option patch.result job.result;
  error = or_option patch.error job.error;
  updated_at = now;
}

abbrev pub new_job : (id user_id kind now : String) → AsyncJob
new_job id user_id kind now = record {
  id = id;
  user_id = user_id;
  kind = kind;
  status = pending;
  progress = progress_of pending;
  result = none;
  error = none;
  created_at = now;
  updated_at = now;
}

unfoldable pub owned_by : String → Option AsyncJob → Option AsyncJob
owned_by user_id none = none
owned_by user_id (some job) = if job.user_id == user_id then some job else none

abbrev pub status_patch : JobStatus → JobPatch
status_patch status = record { status = some status; result = none; error = none }

-- `err instanceof Error ? err.message : "Job failed"`
abbrev pub failure_text : Option ApiError → String
failure_text none = "Job failed"
failure_text (some e) = message_of e

abbrev pub done_patch : Option Json → JobPatch
done_patch result = record { status = some done; result = result; error = none }

abbrev pub failed_patch : Option ApiError → JobPatch
failed_patch thrown = record {
  status = some failed;
  result = none;
  error = some (failure_text thrown);
}

module _ (redis : Redis) (codec : JobCodec) where
  -- The work, as it meets `step`: it ends with a value (`undefined` is `none`), throws (`none` is no
  -- `Error`), or calls `step` and goes on with what came of that; or time passes, in which the
  -- store may change.
  pub data Executor : Type 0 where
    returns : (result : Option Json) → Executor
    throws : Option ApiError → Executor
    calls : ReportedStatus → (now : String) → (Result (Unit {0}) → Executor) → Executor
    waits : (redis.State → redis.State) → Executor → Executor

  created : AsyncJob → redis.State × Result (Unit {0}) → redis.State × Result AsyncJob
  created job (s, err e) = (s, err e)
  created job (s, ok u) = (s, ok job)

  -- `createJob`; the id is a random UUID.
  unfoldable pub create_job :
      (id user_id kind now : String) → redis.State → redis.State × Result AsyncJob
  unfolding created
  create_job id user_id kind now s =
      let job = new_job id user_id kind now in
      created job (redis.set_ex (job_key id) (codec.encode job) job_ttl s)

  -- A missing or corrupt text is no job.
  unfoldable pub job_in : Option String → Option AsyncJob
  job_in none = none
  job_in (some raw) = if is_empty raw then none else codec.decode raw

  read_job : String → redis.State × Result (Option String) → redis.State × Result (Option AsyncJob)
  read_job user_id (s, err e) = (s, err e)
  read_job user_id (s, ok raw) = (s, ok (owned_by user_id (job_in raw)))

  -- `getJob`
  unfoldable pub get_job :
      (id user_id : String) → redis.State → redis.State × Result (Option AsyncJob)
  unfolding read_job
  get_job id user_id s = read_job user_id (redis.get (job_key id) s)

  write_job :
      (id : String)
      → JobPatch
      → (now : String) → Option AsyncJob
      → redis.State
      → redis.State × Result (Unit {0})
  write_job id patch now none s = (s, ok tt)
  write_job id patch now (some job) s =
      redis.set_ex (job_key id) (codec.encode (patched patch now job)) job_ttl s

  patch_read :
      (id : String)
      → JobPatch
      → (now : String) → redis.State × Result (Option String)
      → redis.State × Result (Unit {0})
  patch_read id patch now (s, err e) = (s, err e)
  patch_read id patch now (s, ok raw) = write_job id patch now (job_in raw) s

  -- `patchJob`
  unfoldable pub patch_job :
      (id : String) → JobPatch → (now : String) → redis.State → redis.State × Result (Unit {0})
  unfolding patch_read write_job
  patch_job id patch now s = patch_read id patch now (redis.get (job_key id) s)

  -- The executor with `step`: what it returned, or what it threw.
  unfoldable pub execute :
      String → Executor → redis.State → redis.State × (Option ApiError ⊎ Option Json)
  execute id (returns result) s = (s, inr result)
  execute id (throws thrown) s = (s, inl thrown)
  execute id (calls step now next) s =
      let (s', outcome) = patch_job id (status_patch (reported_status step)) now s in
      execute id (next outcome) s'
  execute id (waits passing next) s = execute id next (passing s)

  -- The `catch` block
  unfoldable on_thrown :
      (id failed_at : String) → Option ApiError → redis.State → redis.State × Result (Unit {0})
  on_thrown id failed_at thrown s = patch_job id (failed_patch thrown) failed_at s

  after_done :
      (id failed_at : String) → redis.State × Result (Unit {0}) → redis.State × Result (Unit {0})
  after_done id failed_at (s, err e) = on_thrown id failed_at (some e) s
  after_done id failed_at (s, ok u) = (s, ok tt)

  after_execute :
      (id done_at failed_at : String)
      → redis.State × (Option ApiError ⊎ Option Json)
      → redis.State × Result (Unit {0})
  after_execute id done_at failed_at (s, inl thrown) = on_thrown id failed_at thrown s
  after_execute id done_at failed_at (s, inr result) =
      after_done id failed_at (patch_job id (done_patch result) done_at s)

  -- `runJob`; `done_at` and `failed_at` are the times of the last two patches.
  unfoldable pub run_job :
      (id : String)
      → Executor
      → (done_at failed_at : String) → redis.State
      → redis.State × Result (Unit {0})
  unfolding after_execute after_done on_thrown
  run_job id executor done_at failed_at s =
      after_execute id done_at failed_at (execute id executor s)
