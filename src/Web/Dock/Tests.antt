-- ===== src/Web/Dock/Tests.antt =====
-- Runs of the dock, and the witnesses of the theorems about it.
use apply_agent.Prelude.{
  String, ◌<>◌, ◌≡◌, refl, true, false, Option, none, some, [], ◌∷◌, ℤ, negsuc,
}
use apply_agent.Web.Dock.{
  DockAttachment, DockSession, Shell, initial_dock, sign_out_dock, boot_dock_thread, close_dock,
  cancel_dock_stream, apply_viewport, widened, read_persisted_state, docked,
}
use apply_agent.Web.Dock.Events.{
  opens, sets_width, attaches, use_of, upserts, signs_out, after_uses, after_events,
}
use apply_agent.Web.Dock.Laws.{IsSound, initial_dock-IsSound, after_events-IsSound}
use apply_agent.Web.Dock.SignOut.{next_user_in_dock}

abbrev new_page : Shell
new_page = record {
  dock = initial_dock;
  storage = record { width_item = none; state_item = none; thread_item = none };
  aborted = [];
}

-- `Number`, for the texts that the tests store
abbrev to_number : String → Option ℤ
to_number raw = none

abbrev cv : DockAttachment
cv = record { id = "f1"; name = "cv.pdf"; size_bytes = 2048; kind = "pdf" }

abbrev search_row : DockSession
search_row = record {
  id = "s1";
  thread_id = "ask_vantage:ada:1";
  label = "Search";
  preview = none;
  message_count = 2;
  last_active_at = "2026-01-02";
  created_at = "2026-01-01";
}

after_events-IsSound_example :
    IsSound
      (after_events to_number
        (use_of (sets_width (negsuc 9))
          ∷ use_of (attaches cv)
          ∷ use_of (attaches cv)
          ∷ upserts search_row
          ∷ signs_out
          ∷ [])
        new_page).dock
after_events-IsSound_example =
    after_events-IsSound to_number
      (use_of (sets_width (negsuc 9))
        ∷ use_of (attaches cv)
        ∷ use_of (attaches cv)
        ∷ upserts search_row
        ∷ signs_out
        ∷ [])
      new_page initial_dock-IsSound

abbrev used_page : Shell
used_page = record new_page {
  dock = record initial_dock {
    thread_id = some "ask_vantage:ada";
    sessions = search_row ∷ [];
    active_session_id = some "s1";
  };
}

next_user_in_dock_example :
    let next = boot_dock_thread "u-1" (some "bob") (sign_out_dock used_page) in
    (next.dock.thread_id ≡ some ("ask_vantage:" <> "bob"))
    × (next.storage.thread_item ≡ some ("ask_vantage:" <> "bob"))
    × (next.dock.active_session_id ≡ some "s1")
    × ((after_uses to_number (opens false ∷ []) next).dock.sessions ≡ search_row ∷ [])
next_user_in_dock_example =
    next_user_in_dock to_number "u-1" "bob" used_page (opens false ∷ []) refl

-- Closing the dock aborts what streams.
closing_aborts :
    (close_dock
      (record new_page { dock = record initial_dock { abort_controller = some 4 } })).aborted
    ≡ 4 ∷ []
unfolding close_dock cancel_dock_stream
closing_aborts = refl

-- A wide viewport brings back what a narrow one has closed.
viewport_reopens : (apply_viewport false (apply_viewport true new_page)).dock.state ≡ docked
unfolding apply_viewport widened read_persisted_state
viewport_reopens = refl
