-- ===== src/Api/Ownership.antt =====
-- ownership.ts: a row is read only together with its owner, and a row of someone else is answered
-- like one that is missing.
pub mod Laws
mod Tests
use apply_agent.Prelude.{
  ℕ, String, ◌<>◌, ◌==◌, Bool, true, false, ◌&&◌, ◌||◌, Option, none, some, List, [], ◌∷◌, Json,
  if◌then◌else◌, is_empty, trim, to_lower_case, starts_with, nat_beq, is_space, str,
}
use apply_agent.Api.Errors.{Result, ok, err, ApiError, not_found}

pub data OwnedTable : Type 0 where
  resumes application_drafts interview_sessions user_files : OwnedTable

abbrev pub table_text : OwnedTable → String
table_text resumes = "resumes"
table_text application_drafts = "application_drafts"
table_text interview_sessions = "interview_sessions"
table_text user_files = "user_files"

-- `humanName`
abbrev pub human_name : OwnedTable → String
human_name resumes = "Resume"
human_name application_drafts = "Application"
human_name interview_sessions = "Interview session"
human_name user_files = "File"

-- The statement that `fetchOwned` sends
abbrev pub owned_query : OwnedTable → (columns : String) → String
owned_query table columns =
    "SELECT " <> (columns <> (" FROM " <> (table_text table <> " WHERE id = $1 AND user_id = $2")))

first_row : {Row : Type 0} → Result (List Row) → Result (Option Row)
first_row (err e) = err e
first_row (ok []) = ok none
first_row (ok (row ∷ rows)) = ok (some row)

-- `q` runs a statement with its parameters.
module _ {Row : Type 0} (q : (text : String) → (params : List String) → Result (List Row)) where
  -- `fetchOwned`
  unfoldable pub fetch_owned : OwnedTable → (id user_id columns : String) → Result (Option Row)
  unfolding first_row
  fetch_owned table id user_id columns =
      first_row (q (owned_query table columns) (id ∷ user_id ∷ []))

  required : OwnedTable → Result (Option Row) → Result Row
  required table (err e) = err e
  required table (ok none) = err (not_found (human_name table <> " not found"))
  required table (ok (some row)) = ok row

  -- `requireOwnership`
  unfoldable pub require_ownership : OwnedTable → (id user_id columns : String) → Result Row
  unfolding required
  require_ownership table id user_id columns = required table (fetch_owned table id user_id columns)
