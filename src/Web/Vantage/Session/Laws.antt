-- ===== src/Web/Vantage/Session/Laws.antt =====
-- What is left of a user's session for the next one in the same page.
use apply_agent.Prelude.{String, Option, [], ◌∷◌, ◌≡◌, refl, true}
use apply_agent.Web.Vantage.Onboarding.{
  ParseResult, create_resume, load_jobs, load_trends, load_current_user, load_resumes,
  parse_finished, enter_app, is_present, start_async_parse,
}
use apply_agent.Web.Vantage.Session.{Session, sign_out}

-- A user's résumé has been parsed; after the sign-out the list of résumés is still that user's, the
-- next user who enters the workspace saves the parsed résumé as an own one, and if the job's id is
-- not empty the upload of the next user is not parsed.
pub next_user_lem :
    (result : ParseResult) (s : Session) (source : String) (file_id : Option String)
    → is_present s.onboarding.parse_job_id ≡ true
    → (let after = sign_out (record s { onboarding = (parse_finished result s.onboarding).0 }) in
        (after.resumes ≡ s.resumes)
        × ((enter_app after.onboarding).1
            ≡ load_jobs
              ∷ load_trends
              ∷ load_current_user
              ∷ load_resumes
              ∷ create_resume result.resume
              ∷ [])
        × ((start_async_parse source file_id after.onboarding).1 ≡ []))
unfolding sign_out parse_finished enter_app start_async_parse
next_user_lem result s source file_id e = (refl, refl, rw e)
