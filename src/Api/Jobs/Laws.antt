-- ===== src/Api/Jobs/Laws.antt =====
-- What the client that polls a job gets.
use apply_agent.Prelude.{
  String, ◌≡◌, ◌≢◌, false, refl, sym, ap, subst, ◌∙◌, Option, none, some, map_option, is_empty,
  Json, ◌⊎◌, inl, inr, eq_refl, str_neq,
}
use apply_agent.Api.Errors.{Result, ok, ApiError}
use apply_agent.Api.Redis.{Redis, Holds}
use apply_agent.Api.Jobs.{
  JobStatus, done, failed, AsyncJob, JobPatch, job_key, JobCodec, reported_status, patched, moved,
  Executor, returns, throws, calls, waits, new_job, create_job, created, job_in, owned_by, get_job,
  read_job, patch_job, patch_read, write_job, status_patch, failure_text, done_patch, failed_patch,
  execute, run_job, after_execute, after_done, on_thrown,
}

-- A record that is written is read back, and it is not the empty text.
pub record JobCodes (c : JobCodec) : Type 0 where
  pub decode-encode : (job : AsyncJob) → c.decode (c.encode job) ≡ some job
  pub encode_full : (job : AsyncJob) → is_empty (c.encode job) ≡ false

-- The record of a job that ended with what the executor returned or threw.
abbrev pub ended_job :
    AsyncJob → (done_at failed_at : String) → Option ApiError ⊎ Option Json → AsyncJob
ended_job job done_at failed_at (inl thrown) = record job {
  status = failed;
  progress = 100;
  error = some (failure_text thrown);
  updated_at = failed_at;
}
ended_job job done_at failed_at (inr result) = record job {
  status = done;
  progress = 100;
  result = result;
  updated_at = done_at;
}

-- What stays of a job while it runs, if it is there.
abbrev Keeps : AsyncJob → Option AsyncJob → Type 0
Keeps job none = Unit
Keeps job (some now) =
    (now.id ≡ job.id)
    × (now.user_id ≡ job.user_id)
    × (now.kind ≡ job.kind)
    × (now.result ≡ job.result)
    × (now.error ≡ job.error)
    × (now.created_at ≡ job.created_at)

Keeps-patched :
    (job : AsyncJob) (status : JobStatus) (now : String) (there : Option AsyncJob)
    → Keeps job there
    → Keeps job (map_option (patched (status_patch status) now) there)
unfolding patched moved
Keeps-patched job status now none k = tt
Keeps-patched job status now (some j) k = k

module _ (redis : Redis) (codec : JobCodec) (h : Holds redis) (c : JobCodes codec) where
  abbrev pub job_at : redis.State → String → Option AsyncJob
  job_at s id = job_in redis codec (h.texts s (job_key id))

  create_job_lem :
      (id user_id kind now : String) (s : redis.State)
      → job_at (create_job redis codec id user_id kind now s).0 id
        ≡ some (new_job id user_id kind now)
  unfolding create_job created job_in
  create_job_lem id user_id kind now s =
      let job = new_job id user_id kind now in
      rw (
        h.set_holds (job_key id) (codec.encode job) 3600 s,
        created,
        h.texts-set (job_key id) (codec.encode job) 3600 s (job_key id),
        eq_refl (job_key id),
        c.encode_full job,
        c.decode-encode job,
      )

  get_job_lem :
      (id user_id : String) (s : redis.State)
      → (get_job redis codec id user_id s).1 ≡ ok (owned_by user_id (job_at s id))
  unfolding get_job read_job
  get_job_lem id user_id s = rw (h.get_holds (job_key id) s)

  write_job_lem :
      (id : String) (patch : JobPatch) (now : String) (there : Option AsyncJob) (s : redis.State)
      → there ≡ job_at s id
      → ((write_job redis codec id patch now there s).1 ≡ ok tt)
        × (job_at (write_job redis codec id patch now there s).0 id
            ≡ map_option (patched patch now) there)
  unfolding write_job job_in
  write_job_lem id patch now none s e = (refl, sym e)
  write_job_lem id patch now (some job) s e = (
    h.set_holds _ _ _ s,
    rw (
      h.texts-set (job_key id) (codec.encode (patched patch now job)) 3600 s (job_key id),
      eq_refl (job_key id),
      c.encode_full (patched patch now job),
      c.decode-encode (patched patch now job),
    ),
  )

  patch_job_lem :
      (id : String) (patch : JobPatch) (now : String) (s : redis.State)
      → ((patch_job redis codec id patch now s).1 ≡ ok tt)
        × (job_at (patch_job redis codec id patch now s).0 id
            ≡ map_option (patched patch now) (job_at s id))
  unfolding patch_job patch_read
  patch_job_lem id patch now s =
      rw (h.get_holds (job_key id) s) (write_job_lem id patch now (job_at s id) s refl)

  -- Whatever else happens to the store while the executor waits, the job stays as it is or goes.
  abbrev pub IsFair : String → Executor redis codec → Type 0
  IsFair id (returns result) = Unit
  IsFair id (throws thrown) = Unit
  IsFair id (calls step now next) = (outcome : Result (Unit {0})) → IsFair id (next outcome)
  IsFair id (waits passing next) =
      ((s : redis.State) → (job_at (passing s) id ≡ job_at s id) ⊎ (job_at (passing s) id ≡ none))
      × IsFair id next

  execute-Keeps :
      (id : String) (job : AsyncJob) (executor : Executor redis codec) (s : redis.State)
      → IsFair id executor
      → Keeps job (job_at s id)
      → Keeps job (job_at (execute redis codec id executor s).0 id)
  unfolding execute
  execute-Keeps id job (returns result) s fair k = k
  execute-Keeps id job (throws thrown) s fair k = k
  execute-Keeps id job (calls step now next) s fair k =
      let patch = status_patch (reported_status step) in
      let (s', outcome) = patch_job redis codec id patch now s in
      execute-Keeps id job (next outcome) s' (fair outcome) (
        rw ((patch_job_lem id patch now s).1)
          (Keeps-patched job (reported_status step) now (job_at s id) k))
  execute-Keeps id job (waits passing next) s fair k =
      execute-Keeps id job next (passing s) fair.1 (elim (fair.0 s) [
        | inl e ↦ subst (Keeps job) (sym e) k
        | inr e ↦ subst (Keeps job) (sym e) tt
      ])

  -- What is left of the job when the executor has ended.
  abbrev pub at_end : String → Executor redis codec → redis.State → Option AsyncJob
  at_end id executor s = job_at (execute redis codec id executor s).0 id

  ended_lem :
      (job : AsyncJob) (done_at failed_at : String) (there : Option AsyncJob) (result : Option Json)
      → Keeps job there
      → job.result ≡ none
      → map_option (patched (done_patch result) done_at) there
        ≡ map_option (λ _. ended_job job done_at failed_at (inr result)) there
  unfolding patched moved
  ended_lem job done_at failed_at none result k r = refl
  ended_lem job done_at failed_at (some j) none k r = rw (k.0, k.1, k.2, k.3, k.4, k.5, r)
  ended_lem job done_at failed_at (some j) (some v) k r = rw (k.0, k.1, k.2, k.4, k.5)

  failed_lem :
      (job : AsyncJob) (done_at failed_at : String) (there : Option AsyncJob)
      (thrown : Option ApiError)
      → Keeps job there
      → map_option (patched (failed_patch thrown) failed_at) there
        ≡ map_option (λ _. ended_job job done_at failed_at (inl thrown)) there
  unfolding patched moved
  failed_lem job done_at failed_at none thrown k = refl
  failed_lem job done_at failed_at (some j) thrown k = rw (k.0, k.1, k.2, k.3, k.5)

  after_execute_lem :
      (id done_at failed_at : String) (job : AsyncJob)
      (m : redis.State × (Option ApiError ⊎ Option Json))
      → Keeps job (job_at m.0 id)
      → job.result ≡ none
      → job_at (after_execute redis codec id done_at failed_at m).0 id
        ≡ map_option (λ _. ended_job job done_at failed_at m.1) (job_at m.0 id)
  unfolding after_execute after_done on_thrown
  after_execute_lem id done_at failed_at job (s, inl thrown) k fresh =
      (patch_job_lem id (failed_patch thrown) failed_at s).1
      ∙ failed_lem job done_at failed_at (job_at s id) thrown k
  after_execute_lem id done_at failed_at job (s, inr result) k fresh =
      let (works, there) = patch_job_lem id (done_patch result) done_at s in
      rw (works, after_done) (there ∙ ended_lem job done_at failed_at (job_at s id) result k fresh)

  polled :
      (user_id : String) (job : AsyncJob) (there : Option AsyncJob)
      → job.user_id ≡ user_id
      → owned_by user_id (map_option (λ _. job) there) ≡ map_option (λ _. job) there
  unfolding owned_by
  polled user_id job none e = refl
  polled user_id job (some j) e = rw (e, eq_refl user_id)

  hidden :
      (user_id : String) (job : AsyncJob) (there : Option AsyncJob)
      → job.user_id ≢ user_id
      → owned_by user_id (map_option (λ _. job) there) ≡ none
  unfolding owned_by
  hidden user_id job none e = refl
  hidden user_id job (some j) e = rw (str_neq job.user_id user_id e)

  ended_user :
      (job : AsyncJob) (done_at failed_at : String) (out : Option ApiError ⊎ Option Json)
      → (ended_job job done_at failed_at out).user_id ≡ job.user_id
  ended_user job done_at failed_at (inl thrown) = refl
  ended_user job done_at failed_at (inr result) = refl

  -- While Redis is up, a job that is created and run ends: whoever polls it then as its owner gets
  -- the record with what the executor returned or threw, if the record is still there when the
  -- executor ends; anyone else gets what a missing job gives.
  pub polled_job :
      (id user_id kind now done_at failed_at reader : String) (executor : Executor redis codec)
      (s : redis.State)
      → IsFair id executor
      → (let job = new_job id user_id kind now in
          let s1 = (create_job redis codec id user_id kind now s).0 in
          let s2 = (run_job redis codec id executor done_at failed_at s1).0 in
          let out = (execute redis codec id executor s1).1 in
          ((get_job redis codec id user_id s2).1
            ≡ ok (map_option (λ _. ended_job job done_at failed_at out) (at_end id executor s1)))
          × (reader ≢ user_id → (get_job redis codec id reader s2).1 ≡ ok none))
  unfolding run_job
  polled_job id user_id kind now done_at failed_at reader executor s fair =
      let job = new_job id user_id kind now in
      let s1 = (create_job redis codec id user_id kind now s).0 in
      let s2 = (run_job redis codec id executor done_at failed_at s1).0 in
      let m = execute redis codec id executor s1 in
      let kept =
        execute-Keeps id job executor s1 fair
          (rw (create_job_lem id user_id kind now s) (refl, refl, refl, refl, refl, refl)) in
      let ends = after_execute_lem id done_at failed_at job m kept refl in
      let ended = ended_job job done_at failed_at m.1 in
      let user = ended_user job done_at failed_at m.1 in
      (
        get_job_lem id user_id s2
            ∙ ap (λ o. ok (owned_by user_id o)) ends
            ∙ ap ok (polled user_id ended (at_end id executor s1) user),
        λ other.
            get_job_lem id reader s2
            ∙ ap (λ o. ok (owned_by reader o)) ends
            ∙ ap ok (hidden reader ended (at_end id executor s1) (λ e. other (sym e ∙ user))),
      )
