-- ===== src/Api/Operations.antt =====
-- routes/operations.ts: what a client may do about an operation that has not succeeded.
use apply_agent.Prelude.{
  ℕ, String, ◌==◌, Bool, false, ◌||◌, Option, none, some, Json, if◌then◌else◌,
}

pub record OperationRow : Type 0 where
  pub id : String
  pub status : String
  pub result : Json
  pub error_class : Option String
  pub error_code : Option String
  pub error_message : Option String
  pub attempt_count : ℕ
  pub reconcile_count : ℕ
  pub next_attempt_at : Option String

is_text : Option String → String → Bool
is_text none t = false
is_text (some s) t = s == t

-- `recoveryAction`
unfoldable pub recovery_action : OperationRow → String
unfolding is_text
recovery_action row =
    if row.status == "succeeded"
    then "none"
    else if row.status == "reconciling"
    then "reconcile"
    else if row.status == "waiting_retry"
    then "retry"
    else if row.status == "running" || row.status == "pending"
    then "poll"
    else if row.status == "waiting_user"
    then (if is_text row.error_class "auth"
        then "reauth"
        else if is_text row.error_class "validation"
        then "fix_input"
        else "human_review")
    else "stop"

-- `maxAttempts`
unfoldable pub max_attempts : OperationRow → Option ℕ
unfolding is_text
max_attempts row =
    if is_text row.error_code "DB_CONTENTION"
    then some 5
    else if is_text row.error_class "transient" || is_text row.error_class "throttled"
    then some 3
    else none
