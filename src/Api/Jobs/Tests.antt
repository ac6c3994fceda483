-- ===== src/Api/Jobs/Tests.antt =====
-- Runs of jobs over a store in memory, and the witness of their theorem.
use apply_agent.Prelude.{
  ℕ, String, ◌≡◌, ◌≢◌, refl, Option, none, some, Json, null, num, str, arr, nil, cons, pos,
  text_host, parse-stringify_text, nat_beq, if◌then◌else◌, map_option, inl, inr, arith,
}
use apply_agent.Api.Errors.{ok, err, store, message_of}
use apply_agent.Api.Redis.{Redis}
use apply_agent.Api.Memory.{memory, memory_holds, no_keys}
use apply_agent.Api.Jobs.{
  patched, patch_job, JobStatus, pending, extracting, markdown, parsing, done, failed, AsyncJob,
  JobCodec, Executor, returns, calls, waits, extracting_step, parsing_step, new_job, create_job,
  get_job, run_job, execute, job_in,
}
use apply_agent.Api.Jobs.Laws.{JobCodes, ended_job, IsFair, at_end, polled_job}

abbrev status_json : JobStatus → Json
status_json pending = num (pos 0)
status_json extracting = num (pos 1)
status_json markdown = num (pos 2)
status_json parsing = num (pos 3)
status_json done = num (pos 4)
status_json failed = num (pos 5)

abbrev status_in : Json → JobStatus
status_in (num (pos n)) =
    if nat_beq n 0
    then pending
    else if nat_beq n 1
    then extracting
    else if nat_beq n 2
    then markdown
    else if nat_beq n 3
    then parsing
    else if nat_beq n 4
    then done
    else failed
status_in v = failed

abbrev result_json : Option Json → Json
result_json none = null
result_json (some v) = arr (cons v nil)

abbrev result_in : Json → Option Json
result_in (arr (cons v nil)) = some v
result_in v = none

abbrev error_json : Option String → Json
error_json none = null
error_json (some e) = str e

abbrev error_in : Json → Option String
error_in (str e) = some e
error_in v = none

abbrev job_json : AsyncJob → Json
job_json j = arr (
    cons (str j.id) (
      cons (str j.user_id) (
        cons (str j.kind) (
          cons (status_json j.status) (
            cons (num (pos j.progress)) (
              cons (result_json j.result) (
                cons (error_json j.error)
                  (cons (str j.created_at) (cons (str j.updated_at) nil)))))))))

abbrev json_job : Option Json → Option AsyncJob
json_job
      (some (
        arr (
          cons (str id) (
            cons (str user) (
              cons (str kind) (
                cons status (
                  cons (num (pos progress)) (
                    cons result (cons error (cons (str created) (cons (str updated) nil))))))))))) =
    some (record {
      id = id;
      user_id = user;
      kind = kind;
      status = status_in status;
      progress = progress;
      result = result_in result;
      error = error_in error;
      created_at = created;
      updated_at = updated;
    })
json_job v = none

abbrev codec : JobCodec
codec = record {
  encode = λ j. text_host.stringify (job_json j);
  decode = λ raw. json_job (text_host.parse raw);
}

status_in-status_json : (s : JobStatus) → status_in (status_json s) ≡ s
status_in-status_json s = ground arith

result_in-result_json : (r : Option Json) → result_in (result_json r) ≡ r
result_in-result_json r = ground arith

error_in-error_json : (e : Option String) → error_in (error_json e) ≡ e
error_in-error_json e = ground arith

codes : JobCodes codec
unfolding text_host
codes = record {
  decode-encode = λ j. rw (
    parse-stringify_text (job_json j),
    status_in-status_json j.status,
    result_in-result_json j.result,
    error_in-error_json j.error,
  );
  encode_full = λ j. refl;
}

-- The executor reports a step, waits while another key expires, reports the next and returns.
abbrev parse_resume : Executor memory codec
parse_resume = calls extracting_step "10:01" (λ first.
    waits (memory_holds.expire_now "jd:parsed:1")
      (calls parsing_step "10:02" (λ second. returns (some (str "r1")))))

parse_resume-IsFair : IsFair memory codec memory_holds codes "7" parse_resume
unfolding memory_holds
parse_resume-IsFair = λ first. (λ s. inl refl, λ second. tt)

-- A run of the job: the owner sees the result, another user nothing.
polled_job_example :
    (let s1 = (create_job memory codec "7" "ada" "resume-parse" "10:00" no_keys).0 in
      let s2 = (run_job memory codec "7" parse_resume "10:03" "10:04" s1).0 in
      let job = new_job "7" "ada" "resume-parse" "10:00" in
      ((get_job memory codec "7" "ada" s2).1
        ≡ ok (
            map_option
              (λ _. ended_job job "10:03" "10:04" (inr (some (str "r1"))))
              (at_end memory codec memory_holds codes "7" parse_resume s1)))
      × (◌≢◌ {A = String} "eve" "ada" → (get_job memory codec "7" "eve" s2).1 ≡ ok none))
unfolding execute
polled_job_example =
    polled_job memory codec memory_holds codes "7" "ada" "resume-parse" "10:00" "10:03" "10:04"
      "eve" parse_resume no_keys parse_resume-IsFair

-- While the executor works the poll shows the last step, with its share of progress.
running_job :
    map_option {B = JobStatus × ℕ}
      (λ j. (j.status, j.progress))
      (at_end memory codec memory_holds codes "7" parse_resume
        (create_job memory codec "7" "ada" "resume-parse" "10:00" no_keys).0)
    ≡ some (parsing, 70)
unfolding execute job_in memory_holds patch_job create_job text_host patched
running_job = refl

-- A store that is written and does not answer when the job is done.
abbrev deaf : Redis
deaf = record memory {
  set_ex = λ k v t s. (
    (memory.set_ex k v t s).0,
    elim (map_option (λ j. j.status) (codec.decode v)) [
      | some done ↦ err (store "Command timed out")
      | other ↦ ok tt
    ],
  );
}

-- The job has a result, and has failed.
failed_with_result :
    map_option {B = JobStatus × Option Json × Option String}
      (λ j. (j.status, j.result, j.error))
      (job_in deaf codec (
        (run_job deaf codec "7"
            (returns (some (str "r1")))
            "10:03"
            "10:04"
            (create_job deaf codec "7" "ada" "resume-parse" "10:00" no_keys).0).0.values
          "job:7"))
    ≡ some (failed, some (str "r1"), some "Command timed out")
unfolding run_job job_in execute patch_job create_job text_host patched message_of
failed_with_result = refl

abbrev down : Redis
down = record memory { get = λ k s. (s, err (store "Connection is closed.")) }

-- When the store is down, the run throws.
run_job_throws :
    (run_job down codec "7" (returns none) "10:03" "10:04" no_keys).1
    ≡ err (store "Connection is closed.")
unfolding run_job execute patch_job
run_job_throws = refl
