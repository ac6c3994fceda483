-- ===== src/Web/Dock.antt =====
-- web/src/lib/ask-vantage-store.ts: the dock of the assistant with what localStorage keeps of it, and
-- the reset of the dock by `signOut` of store.ts.
pub mod Events
pub mod Laws
pub mod SignOut
mod Tests
use apply_agent.Prelude.{
  ℕ, ◌-◌, String, ◌<>◌, ◌==◌, Bool, true, false, not, ◌&&◌, Option, none, some, List, [], ◌∷◌, ◌++◌,
  ℤ, pos, negsuc, min, max, take, nat_beq, is_empty, to_decimal, if◌then◌else◌,
}

pub data DockState : Type 0 where
  closed docked full : DockState

pub data DockMode : Type 0 where
  greeting chat build : DockMode

pub record DockAttachment : Type 0 where
  pub id : String
  pub name : String
  pub size_bytes : ℕ
  pub kind : String

pub record RecentAnchor : Type 0 where
  pub id : String
  pub preview : String
  pub created_at : String

pub record DockSession : Type 0 where
  pub id : String
  pub thread_id : String
  pub label : String
  pub preview : Option String
  pub message_count : ℕ
  pub last_active_at : String
  pub created_at : String

-- `DockStateShape`; a controller is a number.
pub record Dock : Type 0 where
  pub state : DockState
  pub mode : DockMode
  pub width : ℕ
  pub hinted_collapse : Bool
  pub input : String
  pub attachments : List DockAttachment
  pub thread_id : Option String
  pub streaming : Bool
  pub abort_controller : Option ℕ
  pub recent_anchors : List RecentAnchor
  pub sessions : List DockSession
  pub active_session_id : Option String

-- The keys of localStorage that the dock uses
pub record Storage : Type 0 where
  pub width_item : Option String
  pub state_item : Option String
  pub thread_item : Option String

-- The dock in a browser, with the controllers that it has aborted, the last one first
pub record Shell : Type 0 where
  pub dock : Dock
  pub storage : Storage
  pub aborted : List ℕ

abbrev pub initial_dock : Dock
initial_dock = record {
  state = docked;
  mode = greeting;
  width = 372;
  hinted_collapse = false;
  input = "";
  attachments = [];
  thread_id = none;
  streaming = false;
  abort_controller = none;
  recent_anchors = [];
  sessions = [];
  active_session_id = none;
}

-- `Math.min(560, Math.max(280, n))`
unfoldable pub clamp_width : ℤ → ℕ
clamp_width (pos n) = min 560 (max 280 n)
clamp_width (negsuc n) = 280

-- `Number.isFinite(n)`
unfoldable pub finite_width : Option ℤ → ℕ
finite_width none = 372
finite_width (some n) = clamp_width n

unfoldable pub width_from : (to_number : String → Option ℤ) → Option String → ℕ
width_from to_number none = 372
width_from to_number (some raw) = if is_empty raw then 372 else finite_width (to_number raw)

-- `readPersistedWidth`; `to_number` is `Number`, `none` a result that is not finite. What is stored
-- is taken to be no fraction.
unfoldable pub read_persisted_width : (to_number : String → Option ℤ) → Storage → ℕ
read_persisted_width to_number storage = width_from to_number storage.width_item

abbrev pub state_text : DockState → String
state_text closed = "closed"
state_text docked = "docked"
state_text full = "full"

-- `readPersistedState`
unfoldable pub read_persisted_state : Storage → DockState
read_persisted_state storage = elim storage.state_item [
  | none ↦ docked
  | some raw ↦ if raw == "full" then full else if raw == "closed" then closed else docked
]

-- `localStorage.setItem(PERSISTED_STATE_KEY, next)` and `set({ state: next })`
abbrev pub show : DockState → Shell → Shell
show next s = record s {
  dock = record s.dock { state = next };
  storage = record s.storage { state_item = some (state_text next) };
}

-- `cancelStream`
unfoldable pub cancel_dock_stream : Shell → Shell
cancel_dock_stream s = elim s.dock.abort_controller [
  | none ↦ record s { dock = record s.dock { abort_controller = none; streaming = false } }
  | some c ↦ record s {
    dock = record s.dock { abort_controller = none; streaming = false };
    aborted = c ∷ s.aborted;
  }
]

-- `open`; `narrow` is `isNarrowViewport()`.
unfoldable pub open_dock : (narrow : Bool) → Shell → Shell
open_dock narrow s = show (if narrow then full else docked) s

-- `close`
unfoldable pub close_dock : Shell → Shell
close_dock s = cancel_dock_stream (show closed s)

abbrev full_toggled : (narrow : Bool) → DockState → DockState
full_toggled narrow full = if narrow then closed else docked
full_toggled narrow other = full

unfoldable pub toggle_full : (narrow : Bool) → Shell → Shell
toggle_full narrow s = show (full_toggled narrow s.dock.state) s

unfoldable pub dock_toggled : (narrow : Bool) → DockState → Shell → Shell
dock_toggled narrow closed s = show (if narrow then full else docked) s
dock_toggled narrow docked s = close_dock s
dock_toggled narrow full s = close_dock s

unfoldable pub toggle_dock : (narrow : Bool) → Shell → Shell
unfolding close_dock
toggle_dock narrow s = dock_toggled narrow s.dock.state s

-- `setWidth`; `px` is rounded.
unfoldable pub set_width : (px : ℤ) → Shell → Shell
set_width px s = record s {
  dock = record s.dock { width = clamp_width px };
  storage = record s.storage { width_item = some (to_decimal (clamp_width px)) };
}

-- `items.filter((x) => x.id !== id)`
unfoldable pub without {ℓ} : {A : Type ℓ} → (id_of : A → String) → String → List A → List A
without id_of id [] = []
without id_of id (x ∷ xs) =
    let rest = without id_of id xs in if id_of x == id then rest else x ∷ rest

abbrev pub add_attachment : DockAttachment → Dock → Dock
add_attachment a d = record d { attachments = without (λ x. x.id) a.id d.attachments ++ (a ∷ []) }

abbrev pub remove_attachment : String → Dock → Dock
remove_attachment id d = record d { attachments = without (λ x. x.id) id d.attachments }

-- `slice(0, 20)`
abbrev pub prepend_recent_anchor : RecentAnchor → Dock → Dock
prepend_recent_anchor a d = record d { recent_anchors = take 20 (a ∷ d.recent_anchors) }

abbrev pub upsert_session : DockSession → Dock → Dock
upsert_session row d = record d { sessions = row ∷ without (λ x. x.id) row.id d.sessions }

unfoldable pub same_id : Option String → String → Bool
same_id none id = false
same_id (some active) id = active == id

unfoldable pub remove_session : String → Dock → Dock
remove_session id d = record d {
  sessions = without (λ x. x.id) id d.sessions;
  active_session_id = if same_id d.active_session_id id then none else d.active_session_id;
}

-- The setters of single fields, `clearAttachments` among them
pub data Setting : Type 0 where
  hinted_collapse : Bool → Setting
  input : String → Setting
  thread_id : String → Setting
  mode : DockMode → Setting
  streaming : Bool → Setting
  recent_anchors : List RecentAnchor → Setting
  active_session : Option String → Setting
  no_attachments : Setting

unfoldable pub apply_setting : Setting → Dock → Dock
apply_setting (hinted_collapse v) d = record d { hinted_collapse = v }
apply_setting (input v) d = record d { input = v }
apply_setting (thread_id id) d = record d { thread_id = some id }
apply_setting (mode m) d = record d { mode = m }
apply_setting (streaming v) d = record d { streaming = v }
apply_setting (recent_anchors items) d = record d { recent_anchors = items }
apply_setting (active_session id) d = record d { active_session_id = id }
apply_setting no_attachments d = record d { attachments = [] }

abbrev pub set_sessions : List DockSession → Dock → Dock
set_sessions rows d = record d { sessions = rows }

-- `reset`
unfoldable pub reset_dock : Dock → Dock
reset_dock d = record d {
  input = "";
  attachments = [];
  mode = greeting;
  streaming = false;
  abort_controller = none;
}

-- What `signOut` does to the dock
unfoldable pub sign_out_dock : Shell → Shell
sign_out_dock s = record s {
  dock = record (reset_dock s.dock) { recent_anchors = []; thread_id = none };
  storage = record s.storage { thread_item = none };
}

-- `localStorage.setItem(PERSISTED_THREAD_KEY, id)` and `setThreadId(id)`
abbrev pub keep_thread : String → Shell → Shell
keep_thread id s = record s {
  dock = record s.dock { thread_id = some id };
  storage = record s.storage { thread_item = some id };
}

-- A text that is not missing and not empty
abbrev pub present : Option String → Option String
present none = none
present (some t) = if is_empty t then none else some t

unfoldable pub boot_stored : (fresh : String) → (stored : Option String) → Shell → Shell
boot_stored fresh none s = keep_thread ("ask_vantage:anon-" <> fresh) s
boot_stored fresh (some t) s = record s { dock = record s.dock { thread_id = some t } }

unfoldable pub boot_anonymous : (fresh : String) → (thread : Option String) → Shell → Shell
boot_anonymous fresh none s = boot_stored fresh (present s.storage.thread_item) s
boot_anonymous fresh (some t) s = s

unfoldable pub boot_user : String → Shell → Shell
boot_user id s = if same_id s.dock.thread_id id then s else keep_thread id s

unfoldable pub booted : (fresh : String) → (user : Option String) → Shell → Shell
booted fresh none s = boot_anonymous fresh (present s.dock.thread_id) s
booted fresh (some u) s = boot_user ("ask_vantage:" <> u) s

-- `bootDockThread`; `fresh` is `nextId("u")`.
unfoldable pub boot_dock_thread : (fresh : String) → (user_id : Option String) → Shell → Shell
boot_dock_thread fresh user_id s = booted fresh (present user_id) s

-- `hydrateDockFromStorage`
unfoldable pub hydrate_dock : (to_number : String → Option ℤ) → (narrow : Bool) → Shell → Shell
hydrate_dock to_number narrow s = record s {
  dock = record s.dock {
    width = read_persisted_width to_number s.storage;
    state = if narrow then closed else read_persisted_state s.storage;
  };
}

-- The viewport has become wide.
unfoldable pub widened : DockState → Shell → Shell
widened closed s = record s { dock = record s.dock { state = read_persisted_state s.storage } }
widened docked s = s
widened full s = s

-- `apply` of `installDockViewportWatcher`
unfoldable pub apply_viewport : (matches : Bool) → Shell → Shell
apply_viewport true s = record s { dock = record s.dock { state = closed } }
apply_viewport false s = widened s.dock.state s
