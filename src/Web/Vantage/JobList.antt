-- ===== src/Web/Vantage/JobList.antt =====
-- store.ts, `loadJobs`: the list of jobs with their scores, best first, kept for a minute.
pub mod Laws
use apply_agent.Prelude.{
  ℕ, suc, ◌-◌, String, ◌==◌, Bool, true, false, not, ◌&&◌, Option, none, some, List, [], ◌∷◌, map,
  leb, ltb, nat_beq, if◌then◌else◌, length, Json,
}
use apply_agent.Prelude.Assoc.{Assoc, lookup}
use apply_agent.Prelude.Sort.{sort_by}

-- `ApiJob`; a score is taken to be a natural number.
pub record ApiJob : Type 0 where
  pub id : String
  pub company : String
  pub role_title : String
  pub url : String
  pub parsed : Json
  pub posted_date : String
  pub match_score : Option ℕ
  pub matched_skills : Option (List String)
  pub missing_skills : Option (List String)

-- A row of `batch.matches`
pub record JobMatch : Type 0 where
  pub score : ℕ
  pub matched_skills : List String
  pub missing_skills : List String

-- `jobs_loaded_at` and `jobs_loaded_for_resume` are variables of the module.
pub record JobList : Type 0 where
  pub api_jobs : List ApiJob
  pub api_jobs_loading : Bool
  pub current_resume_id : Option String
  pub jobs_loaded_at : ℕ
  pub jobs_loaded_for_resume : Option String

pub data Call : Type 0 where
  list_jobs : (limit : ℕ) → Call
  match_jobs : (ids : List String) → Call

-- `a === b`, where `null` is `none`
unfoldable pub same_resume : Option String → Option String → Bool
same_resume none none = true
same_resume none (some b) = false
same_resume (some a) none = false
same_resume (some a) (some b) = a == b

-- The list is there, for this résumé, and not older than a minute.
unfoldable pub is_fresh : (now : ℕ) → JobList → Bool
is_fresh now s =
    ltb 0 (length s.api_jobs)
    && same_resume s.jobs_loaded_for_resume s.current_resume_id
    && ltb (now - s.jobs_loaded_at) 60000

-- `loadJobs` up to its first `await`
unfoldable pub load_jobs : (now : ℕ) → JobList → JobList × List Call
load_jobs now s =
    if is_fresh now s then (s, []) else (record s { api_jobs_loading = true }, list_jobs 20 ∷ [])

-- The ids that are sent for scores
unfoldable pub jobs_listed : List ApiJob → List Call
jobs_listed [] = []
jobs_listed (job ∷ jobs) = match_jobs (map (λ j. j.id) (job ∷ jobs)) ∷ []

unfoldable pub with_match : Option JobMatch → ApiJob → ApiJob
with_match none job = job
with_match (some m) job = record job {
  match_score = some m.score;
  matched_skills = some m.matched_skills;
  missing_skills = some m.missing_skills;
}

unfoldable pub with_matches : Assoc JobMatch → List ApiJob → List ApiJob
with_matches matches jobs = map (λ j. with_match (lookup j.id matches) j) jobs

-- `job.matchScore ?? -1`, plus one
abbrev pub rank : ApiJob → ℕ
rank job = elim job.match_score [ none ↦ 0 | some score ↦ suc score ]

-- `jobs.sort((a, b) => rank(b) - rank(a))`
abbrev pub sort_jobs : List ApiJob → List ApiJob
sort_jobs jobs = sort_by rank jobs

-- The end of `loadJobs`; `matches` is `none` if there was nothing to score or the scores failed.
unfoldable pub jobs_loaded :
    (now : ℕ) → List ApiJob → (matches : Option (Assoc JobMatch)) → JobList → JobList
jobs_loaded now jobs matches s = record s {
  api_jobs = sort_jobs (elim matches [ none ↦ jobs | some m ↦ with_matches m jobs ]);
  api_jobs_loading = false;
  jobs_loaded_at = now;
  jobs_loaded_for_resume = s.current_resume_id;
}

-- The list itself could not be read.
abbrev pub jobs_failed : JobList → JobList
jobs_failed s = record s { api_jobs_loading = false }
