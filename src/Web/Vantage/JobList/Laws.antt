-- ===== src/Web/Vantage/JobList/Laws.antt =====
-- The list that `loadJobs` shows has every job once, with its score, and the best first.
use apply_agent.Prelude.{ℕ, Bool, some, List, ◌≡◌}
use apply_agent.Prelude.Assoc.{Assoc}
use apply_agent.Prelude.Sort.{IsRanked, count, sort_by-IsRanked, count-sort_by}
use apply_agent.Web.Vantage.JobList.{ApiJob, JobMatch, JobList, rank, with_matches, jobs_loaded}

-- The jobs that are shown after a load are the jobs of the list with the scores of the answer, each
-- as often as there, the best first, and those without a score last.
pub jobs_loaded-IsRanked :
    (now : ℕ) (jobs : List ApiJob) (matches : Assoc JobMatch) (s : JobList)
    → (let shown = (jobs_loaded now jobs (some matches) s).api_jobs in
        IsRanked rank shown
        × ((test : ApiJob → Bool) → count test shown ≡ count test (with_matches matches jobs)))
unfolding jobs_loaded
jobs_loaded-IsRanked now jobs matches s = (
  sort_by-IsRanked rank (with_matches matches jobs),
  λ test. count-sort_by test rank (with_matches matches jobs),
)
