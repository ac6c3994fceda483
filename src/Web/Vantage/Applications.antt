-- ===== src/Web/Vantage/Applications.antt =====
-- store.ts, the tracker: `loadApplications` and `patchApplication`, which shows a patch before the
-- server has accepted it and takes it back if the server refuses.
pub mod Laws
use apply_agent.Prelude.{
  ℕ, suc, String, ◌==◌, Bool, true, false, Option, none, some, List, [], ◌∷◌, ◌++◌, get_or_else,
  or_option, map, nat_beq, Json, if◌then◌else◌,
}

-- `ApiApplication`
pub record Application : Type 0 where
  pub id : String
  pub job_id : Option String
  pub status : String
  pub company : String
  pub role_title : String
  pub url : Option String
  pub resume_version_id : Option String
  pub cover_letter : Option String
  pub form_answers : Option Json
  pub outcome : Option String
  pub submitted_at : Option String
  pub submitted_via : Option String
  pub created_at : String
  pub next_action : Option String
  pub next_action_due : Option String
  pub next_action_derived : Option String
  pub next_action_due_derived : Option String

-- The patch that `patchApplication` takes; `none` is `undefined`.
pub record Patch : Type 0 where
  pub status : Option String
  pub outcome : Option String
  pub cover_letter : Option String

-- `{ ...target, ...(patch.status !== undefined ? …) }`
unfoldable pub apply_patch : Patch → Application → Application
apply_patch patch target = record target {
  status = get_or_else patch.status target.status;
  outcome = or_option patch.outcome target.outcome;
  cover_letter = or_option patch.cover_letter target.cover_letter;
}

-- `rows.find((a) => a.id === id)`
unfoldable pub find_application : String → List Application → Option Application
find_application id [] = none
find_application id (a ∷ rows) =
    let later = find_application id rows in if a.id == id then some a else later

-- `before.map((a) => (a.id === id ? optimistic : a))`
unfoldable pub replace_application : String → Application → List Application → List Application
replace_application id optimistic rows = map (λ a. if a.id == id then optimistic else a) rows

-- A patch whose answer is out, with the rows that it was made on.
pub record Pending : Type 0 where
  pub ticket : ℕ
  pub before : List Application

-- `api_applications` and `api_apps_loading` are the store's; `pending` are the calls of
-- `patchApplication` that wait, `next_ticket` tells them apart.
pub record Tracker : Type 0 where
  pub api_applications : List Application
  pub api_apps_loading : Bool
  pub pending : List Pending
  pub next_ticket : ℕ

-- What a call gives its caller, or `sent` as long as it waits.
pub data PatchResult : Type 0 where
  patch_ok : PatchResult
  patch_error : (message : String) → PatchResult
  sent : (ticket : ℕ) → (id : String) → Patch → PatchResult
  nothing : PatchResult

-- `patchApplication` up to its `await`
unfoldable pub patch_application : String → Patch → Tracker → Tracker × PatchResult
patch_application id patch s = elim (find_application id s.api_applications) [
  | none ↦ (s, patch_error "application not found locally")
  | some target ↦ (
    record s {
      api_applications = replace_application id (apply_patch patch target) s.api_applications;
      pending = record { ticket = s.next_ticket; before = s.api_applications } ∷ s.pending;
      next_ticket = suc s.next_ticket;
    },
    sent s.next_ticket id patch,
  )
]

find_pending : ℕ → List Pending → Option Pending
find_pending ticket [] = none
find_pending ticket (p ∷ ps) =
    let later = find_pending ticket ps in if nat_beq p.ticket ticket then some p else later

without : ℕ → List Pending → List Pending
without ticket [] = []
without ticket (p ∷ ps) =
    let rest = without ticket ps in if nat_beq p.ticket ticket then rest else p ∷ rest

-- `err instanceof Error ? err.message : "update failed"`
abbrev pub update_error : Option String → String
update_error none = "update failed"
update_error (some message) = message

-- `patchApplication` after its `await`: the server has accepted the patch.
unfoldable pub patch_accepted : ℕ → Tracker → Tracker × PatchResult
unfolding find_pending without
patch_accepted ticket s = elim (find_pending ticket s.pending) [
  | none ↦ (s, nothing)
  | some p ↦ (record s { pending = without ticket s.pending }, patch_ok)
]

-- The server has refused it, or could not be reached; a message of `none` is no `Error`.
unfoldable pub patch_refused : ℕ → Option String → Tracker → Tracker × PatchResult
unfolding find_pending without
patch_refused ticket message s = elim (find_pending ticket s.pending) [
  | none ↦ (s, nothing)
  | some p ↦ (
    record s { api_applications = p.before; pending = without ticket s.pending },
    patch_error (update_error message),
  )
]

-- `loadApplications` up to its `await`
unfoldable pub load_applications : Tracker → Tracker
load_applications s = record s { api_apps_loading = true }

-- The answer's envelope: `data`, or `applications` of the older form
pub record Listing : Type 0 where
  pub data_rows : Option (List Application)
  pub application_rows : Option (List Application)

-- `loadApplications` after its `await`; `none` is an error.
unfoldable pub applications_loaded : Option Listing → Tracker → Tracker
applications_loaded none s = record s { api_apps_loading = false }
applications_loaded (some l) s = record s {
  api_applications = get_or_else l.data_rows (get_or_else l.application_rows []);
  api_apps_loading = false;
}
