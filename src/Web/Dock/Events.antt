-- ===== src/Web/Dock/Events.antt =====
-- What happens to the dock, one event after the other.
use apply_agent.Prelude.{ℕ, String, Bool, true, Option, some, List, [], ◌∷◌, ℤ, map}
use apply_agent.Prelude.Assoc.{IsDistinct}
use apply_agent.Web.Dock.{
  DockAttachment, RecentAnchor, DockSession, Dock, Shell, cancel_dock_stream, open_dock, close_dock,
  toggle_full, toggle_dock, set_width, add_attachment, remove_attachment, prepend_recent_anchor,
  upsert_session, remove_session, Setting, apply_setting, set_sessions, sign_out_dock,
  boot_dock_thread, hydrate_dock, apply_viewport,
}

-- What happens to the dock, apart from the list of sessions. `streams` is `sendAsk`, which puts its
-- controller there.
pub data Use : Type 0 where
  opens : (narrow : Bool) → Use
  closes : Use
  toggles_full : (narrow : Bool) → Use
  toggles_dock : (narrow : Bool) → Use
  sets_width : ℤ → Use
  sets : Setting → Use
  attaches : DockAttachment → Use
  detaches : String → Use
  streams : ℕ → Use
  cancels : Use
  asks : RecentAnchor → Use
  boots : (fresh : String) → (user_id : Option String) → Use
  hydrates : (narrow : Bool) → Use
  turns : (matches : Bool) → Use

-- The list of sessions: rows of the server have distinct ids.
pub data Event : Type 0 where
  use_of : Use → Event
  loads_sessions : (rows : List DockSession) → IsDistinct (map (λ r. r.id) rows) → Event
  upserts : DockSession → Event
  removes : String → Event
  signs_out : Event

abbrev pub on_dock : (Dock → Dock) → Shell → Shell
on_dock f s = record s { dock = f s.dock }

module _ (to_number : String → Option ℤ) where
  unfoldable pub after_use : Use → Shell → Shell
  after_use (opens narrow) s = open_dock narrow s
  after_use closes s = close_dock s
  after_use (toggles_full narrow) s = toggle_full narrow s
  after_use (toggles_dock narrow) s = toggle_dock narrow s
  after_use (sets_width px) s = set_width px s
  after_use (sets v) s = on_dock (apply_setting v) s
  after_use (attaches a) s = on_dock (add_attachment a) s
  after_use (detaches id) s = on_dock (remove_attachment id) s
  after_use (streams c) s =
      on_dock (λ d. record d { streaming = true; abort_controller = some c }) s
  after_use cancels s = cancel_dock_stream s
  after_use (asks a) s = on_dock (prepend_recent_anchor a) s
  after_use (boots fresh user_id) s = boot_dock_thread fresh user_id s
  after_use (hydrates narrow) s = hydrate_dock to_number narrow s
  after_use (turns matches) s = apply_viewport matches s

  unfoldable pub after_event : Event → Shell → Shell
  after_event (use_of u) s = after_use u s
  after_event (loads_sessions rows h) s = on_dock (set_sessions rows) s
  after_event (upserts row) s = on_dock (upsert_session row) s
  after_event (removes id) s = on_dock (remove_session id) s
  after_event signs_out s = sign_out_dock s

  unfoldable pub after_uses : List Use → Shell → Shell
  after_uses [] s = s
  after_uses (u ∷ us) s = after_uses us (after_use u s)

  unfoldable pub after_events : List Event → Shell → Shell
  after_events [] s = s
  after_events (e ∷ es) s = after_events es (after_event e s)
