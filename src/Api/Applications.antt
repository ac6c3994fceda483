-- ===== src/Api/Applications.antt =====
-- routes/applications.ts: the UPDATE that a PATCH sends, with its numbered parameters, and the next
-- action that is derived from a row.
pub mod Laws
mod Tests
use apply_agent.Prelude.{
  ℕ, suc, ◌+◌, ◌-◌, ◌*◌, ◌/◌, ◌≤◌, String, ◌<>◌, ◌==◌, Bool, true, false, not, ◌&&◌, ◌||◌, Option,
  none, some, List, [], ◌∷◌, ◌++◌, leb, if◌then◌else◌, is_empty, is_some, or_else, get_or_else,
  map_option, map, to_decimal, Json, str, Host, length,
}
use apply_agent.Api.ResumeMarkdown.{join}

-- `ApplicationStatusSchema`
pub data ApplicationStatus : Type 0 where
  draft review submitted interview rejected offer withdrawn ghosted accepted closed :
      ApplicationStatus

abbrev pub status_text : ApplicationStatus → String
status_text draft = "draft"
status_text review = "review"
status_text submitted = "submitted"
status_text interview = "interview"
status_text rejected = "rejected"
status_text offer = "offer"
status_text withdrawn = "withdrawn"
status_text ghosted = "ghosted"
status_text accepted = "accepted"
status_text closed = "closed"

-- `UpdateApplication`
pub record UpdateApplication : Type 0 where
  pub status : Option ApplicationStatus
  pub cover_letter : Option String
  pub form_answers : Option Json
  pub outcome : Option String
  pub submitted_via : Option String

-- `Object.keys(v).length > 0` of `UpdateApplicationSchema`
unfoldable pub has_field : UpdateApplication → Bool
has_field body =
    is_some body.status
    || is_some body.cover_letter
    || is_some body.form_answers
    || is_some body.outcome
    || is_some body.submitted_via

-- An element of `updates`: `column = $n`, the time of the submission, or the channel if it is not
-- set.
pub data Update : Type 0 where
  assign : (column : String) → (n : ℕ) → Update
  submitted_now : Update
  channel_if_unset : (n : ℕ) → Update

unfoldable pub update_text : Update → String
update_text (assign column n) = column <> (" = $" <> to_decimal n)
update_text submitted_now = "submitted_at = COALESCE(submitted_at, NOW())"
update_text (channel_if_unset n) =
    "submitted_via = COALESCE(submitted_via, $" <> (to_decimal n <> ")")

-- `updates`, `params` and `idx`
pub record Builder : Type 0 where
  pub updates : List Update
  pub params : List String
  pub idx : ℕ

abbrev pub first_builder : Builder
first_builder = record { updates = []; params = []; idx = 1 }

-- `updates.push(… $${idx++}); params.push(value)`
unfoldable pub push : (ℕ → Update) → String → Builder → Builder
push update value b = record {
  updates = b.updates ++ (update b.idx ∷ []);
  params = b.params ++ (value ∷ []);
  idx = suc b.idx;
}

-- `if (value !== undefined) …`
unfoldable pub push_if : String → Option String → Builder → Builder
push_if column none b = b
push_if column (some value) b = push (assign column) value b

abbrev pub is_submitted : Option ApplicationStatus → Bool
is_submitted (some submitted) = true
is_submitted status = false

unfoldable pub push_submission : UpdateApplication → Builder → Builder
push_submission body b =
    if is_submitted body.status
    then push channel_if_unset (or_else (get_or_else body.submitted_via "") "client_extension")
        (record b { updates = b.updates ++ (submitted_now ∷ []) })
    else b

module _ (host : Host) where
  abbrev pub status_value : UpdateApplication → Option String
  status_value body = map_option status_text body.status

  abbrev pub answers_value : UpdateApplication → Option String
  answers_value body = map_option host.stringify body.form_answers

  -- The assignments of the PATCH
  unfoldable pub patch_builder : UpdateApplication → Builder
  patch_builder body = push_submission body (
      push_if "outcome" body.outcome (
        push_if "form_answers" (answers_value body) (
          push_if "cover_letter" body.cover_letter
            (push_if "status" (status_value body) first_builder))))

-- The statement with its parameters
pub record Statement : Type 0 where
  pub updates : List Update
  pub id_param : ℕ
  pub user_param : ℕ
  pub params : List String

-- `params.push(id, userId)`, and the numbers in the WHERE clause
unfoldable pub update_statement : Host → (id user_id : String) → UpdateApplication → Statement
update_statement host id user_id body =
    let b = patch_builder host body in
    record {
      updates = b.updates;
      id_param = b.idx;
      user_param = suc b.idx;
      params = b.params ++ (id ∷ user_id ∷ []);
    }

-- The text after SET and in WHERE
unfoldable pub set_text : Statement → String
set_text q = join ", " (map update_text q.updates)

-- A row, as far as the next action depends on it; times are milliseconds since the epoch.
pub record ApplicationRow : Type 0 where
  pub status : Option String
  pub submitted_at : Option ℕ
  pub interview_date : Option ℕ
  pub outcome : Option String

pub data NextAction : Type 0 where
  prep submit follow_up interview close_loop : NextAction

pub record DerivedPair : Type 0 where
  pub next_action : Option NextAction
  pub due : Option ℕ

abbrev pub day_ms : ℕ
day_ms = 1000 * 60 * 60 * 24

-- The statuses that close a row, or an outcome
unfoldable pub is_closed : ApplicationRow → Bool
is_closed row =
    let status = get_or_else row.status "" in
    status == "rejected"
    || status == "offer"
    || status == "withdrawn"
    || status == "ghosted"
    || status == "accepted"
    || status == "closed"
    || not (is_empty (get_or_else row.outcome ""))

-- `days >= 0 && days <= 7`
unfoldable pub is_imminent : (now due : ℕ) → Bool
is_imminent now due = leb now due && leb ((due - now) / day_ms) 7

-- `ageDays >= 7`
unfoldable pub is_old : (now submitted_at : ℕ) → Bool
is_old now submitted_at = leb 7 ((now - submitted_at) / day_ms)

by_status : ApplicationRow → DerivedPair
by_status row =
    let status = get_or_else row.status "" in
    if status == "review"
    then record { next_action = some submit; due = none }
    else if status == "draft"
    then record { next_action = some prep; due = none }
    else record { next_action = none; due = none }

by_submission : ℕ → ApplicationRow → Option ℕ → DerivedPair
by_submission now row none = by_status row
by_submission now row (some sent) =
    if is_old now sent
    then record { next_action = some follow_up; due = some (sent + 7 * day_ms) }
    else by_status row

by_interview : ℕ → ApplicationRow → Option ℕ → DerivedPair
by_interview now row none = by_submission now row row.submitted_at
by_interview now row (some due) =
    if is_imminent now due
    then record { next_action = some NextAction.interview; due = some due }
    else by_submission now row row.submitted_at

-- `deriveNextAction`; `now` is `Date.now()`.
unfoldable pub derive_next_action : (now : ℕ) → ApplicationRow → DerivedPair
unfolding by_interview by_submission by_status
derive_next_action now row =
    if is_closed row
    then record { next_action = some close_loop; due = none }
    else by_interview now row row.interview_date
