-- ===== src/Web/Vantage/Onboarding/Laws.antt =====
-- A job is polled until it has ended, at most sixty times; after a job has started, no other one is.
use apply_agent.Prelude.{
  ℕ, zero, suc, ◌+◌, ◌*◌, ◌≤◌, ◌<◌, String, Bool, true, false, Option, none, some, List, [], ◌∷◌,
  leb, length, ◌≡◌, refl, Bool-cases, ◌⊎◌, inl, inr, arith, eq_refl, if◌then◌else◌,
}
use apply_agent.Api.Jobs.{JobStatus}
use apply_agent.Web.Vantage.Onboarding.{
  Onboarding, RunStatus, running, Call, poll_later, PolledJob, ParseResult, poll_answered,
  by_status, after_round, parse_finished, calls_of_result, is_current, is_present,
}

-- Whether the timer has been set again.
abbrev pub continues : List Call → Bool
continues [] = false
continues (poll_later job_id elapsed ∷ calls) = true
continues (call ∷ calls) = continues calls

-- The rounds of `pollParseJob` for these answers, with the number of requests. While they last,
-- nothing else changes the state.
unfoldable pub poll_rounds :
    (job_id : String) → (elapsed : ℕ) → List (Option PolledJob) → Onboarding → Onboarding × ℕ
poll_rounds job_id elapsed [] s = (s, 0)
poll_rounds job_id elapsed (answer ∷ answers) s =
    let (s', calls) = poll_answered job_id (elapsed + 1500) answer s in
    let (t, n) = poll_rounds job_id (elapsed + 1500) answers s' in
    if continues calls then (t, suc n) else (s', 1)

abbrev pub HasEnded : Onboarding → Type 0
HasEnded s = (s.parse_job_status ≡ RunStatus.done) ⊎ (s.parse_job_status ≡ RunStatus.failed)

record Runs (job_id : String) (s : Onboarding) : Type 0 where
  current : s.parse_job_id ≡ some job_id
  status : s.parse_job_status ≡ running

-- After a round the job has ended, or the timer is set and the time is not over.
data Round (job_id : String) (elapsed : ℕ) (m : Onboarding × List Call) : Type 0 where
  stops : continues m.1 ≡ false → HasEnded m.0 → Round job_id elapsed m
  goes_on : continues m.1 ≡ true → elapsed < 90000 → Runs job_id m.0 → Round job_id elapsed m

Runs-is_current : (job_id : String) (s : Onboarding) → Runs job_id s → is_current job_id s ≡ true
Runs-is_current job_id s r = rw (r.current, eq_refl job_id)

after_round-Round :
    (job_id : String) (elapsed : ℕ) (s : Onboarding)
    → Runs job_id s
    → Round job_id elapsed (after_round job_id elapsed s)
unfolding after_round
after_round-Round job_id elapsed s r = elim (Bool-cases (leb 90000 elapsed)) [
  | inl e ↦ rw (e, r.current, eq_refl job_id, r.status, after_round) (stops refl (inr refl))
  | inr e ↦ rw (e, after_round) (goes_on refl (ground arith) r)
]

finished-Round :
    (job_id : String) (elapsed : ℕ) (result : ParseResult) (s : Onboarding)
    → Round job_id elapsed (parse_finished result s)
unfolding parse_finished calls_of_result
finished-Round job_id elapsed result s = elim (Bool-cases (is_present result.resume_id)) [
  | inl e ↦ rw (e, parse_finished, calls_of_result) (stops refl (inl refl))
  | inr e ↦ rw (e, parse_finished, calls_of_result) (stops refl (inl refl))
]

by_status-Round :
    (job_id : String) (elapsed : ℕ) (job : PolledJob) (status : JobStatus)
    (result : Option ParseResult) (s : Onboarding)
    → Runs job_id s
    → Round job_id elapsed (by_status job_id elapsed job status result s)
unfolding by_status
by_status-Round job_id elapsed job JobStatus.done (some result) s r =
    finished-Round job_id elapsed result s
by_status-Round job_id elapsed job JobStatus.done none s r = after_round-Round job_id elapsed s r
by_status-Round job_id elapsed job JobStatus.failed result s r = stops refl (inr refl)
by_status-Round job_id elapsed job JobStatus.pending result s r =
    after_round-Round job_id elapsed s r
by_status-Round job_id elapsed job JobStatus.extracting result s r =
    after_round-Round job_id elapsed s r
by_status-Round job_id elapsed job JobStatus.markdown result s r =
    after_round-Round job_id elapsed s r
by_status-Round job_id elapsed job JobStatus.parsing result s r =
    after_round-Round job_id elapsed s r

poll_answered-Round :
    (job_id : String) (elapsed : ℕ) (answer : Option PolledJob) (s : Onboarding)
    → Runs job_id s
    → Round job_id elapsed (poll_answered job_id elapsed answer s)
unfolding poll_answered
poll_answered-Round job_id elapsed none s r = after_round-Round job_id elapsed s r
poll_answered-Round job_id elapsed (some job) s r =
    rw (Runs-is_current job_id s r, poll_answered)
      (by_status-Round job_id elapsed job job.status job.result
        (record s { parse_job_progress = job.progress })
        (record { current = r.current; status = r.status }))

-- `rounds` more rounds are left until the time is over.
poll_rounds_lem :
    (rounds elapsed : ℕ) (job_id : String) (answers : List (Option PolledJob)) (s : Onboarding)
    → elapsed + 1500 * rounds ≡ 90000
    → 1 ≤ rounds
    → Runs job_id s
    → ((poll_rounds job_id elapsed answers s).1 ≤ rounds)
      × (rounds ≤ length answers → HasEnded (poll_rounds job_id elapsed answers s).0)
unfolding poll_rounds
poll_rounds_lem zero elapsed job_id answers s h some_left r = absurd (omega (arith, some_left))
poll_rounds_lem (suc rounds) elapsed job_id [] s h some_left r =
    (omega arith, λ enough. absurd (omega (arith, enough)))
poll_rounds_lem (suc rounds) elapsed job_id (answer ∷ answers) s h some_left r =
    elim (poll_answered-Round job_id (elapsed + 1500) answer s r) [
      | stops e ended ↦ rw (e, poll_rounds) (omega arith, λ _. ended)
      | goes_on e early runs ↦
          let later =
            poll_rounds_lem rounds (elapsed + 1500) job_id answers
              (poll_answered job_id (elapsed + 1500) answer s).0 (omega (arith, h))
              (omega (arith, h, early)) runs in
          rw (e, poll_rounds) (omega (arith, later.0), λ enough. later.1 (omega (arith, enough)))
    ]

-- While nothing else happens, the poll of the job that runs sends at most sixty requests, whatever
-- the answers are, and after sixty answers of any kind the parse is done or has failed.
pub poll_rounds-HasEnded :
    (job_id : String) (answers : List (Option PolledJob)) (s : Onboarding)
    → s.parse_job_id ≡ some job_id
    → s.parse_job_status ≡ running
    → ((poll_rounds job_id 0 answers s).1 ≤ 60)
      × (60 ≤ length answers → HasEnded (poll_rounds job_id 0 answers s).0)
poll_rounds-HasEnded job_id answers s current status =
    poll_rounds_lem 60 0 job_id answers s refl (omega arith)
      (record { current = current; status = status })
