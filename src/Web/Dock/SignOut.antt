-- ===== src/Web/Dock/SignOut.antt =====
-- What a sign-out leaves in the dock.
use apply_agent.Prelude.{
  String, ◌<>◌, ◌≡◌, refl, sym, ap, ◌∙◌, true, false, Option, some, List, [], ◌∷◌, ℤ, is_empty,
}
use apply_agent.Web.Dock.{
  Dock, Shell, sign_out_dock, reset_dock, boot_dock_thread, booted, boot_user, same_id, present,
  toggle_dock, apply_viewport, Setting, apply_setting, open_dock, close_dock, toggle_full,
  set_width, hydrate_dock, show, closed,
}
use apply_agent.Web.Dock.Events.{
  Use, opens, closes, toggles_full, toggles_dock, sets_width, sets, attaches, detaches, streams,
  cancels, asks, boots, hydrates, turns, after_use, after_uses,
}
use apply_agent.Web.Dock.Laws.{frame-cancel, frame-dock_toggled, frame-widened, frame-booted}

sessions-apply_setting : (v : Setting) (d : Dock) → (apply_setting v d).sessions ≡ d.sessions
unfolding apply_setting
sessions-apply_setting (Setting.hinted_collapse v) d = refl
sessions-apply_setting (Setting.input v) d = refl
sessions-apply_setting (Setting.thread_id v) d = refl
sessions-apply_setting (Setting.mode v) d = refl
sessions-apply_setting (Setting.streaming v) d = refl
sessions-apply_setting (Setting.recent_anchors v) d = refl
sessions-apply_setting (Setting.active_session v) d = refl
sessions-apply_setting Setting.no_attachments d = refl

module _ (to_number : String → Option ℤ) where
  sessions-after_use :
      (u : Use) (s : Shell) → (after_use to_number u s).dock.sessions ≡ s.dock.sessions
  unfolding after_use open_dock toggle_full set_width hydrate_dock toggle_dock boot_dock_thread
      apply_viewport close_dock
  sessions-after_use (opens narrow) s = refl
  sessions-after_use closes s = sym (ap (λ f. f.2) (frame-cancel (show closed s)))
  sessions-after_use (toggles_full narrow) s = refl
  sessions-after_use (toggles_dock narrow) s =
      sym (ap (λ f. f.2) (frame-dock_toggled narrow s.dock.state s))
  sessions-after_use (sets_width px) s = refl
  sessions-after_use (sets v) s = sessions-apply_setting v s.dock
  sessions-after_use (attaches a) s = refl
  sessions-after_use (detaches id) s = refl
  sessions-after_use (streams c) s = refl
  sessions-after_use cancels s = sym (ap (λ f. f.2) (frame-cancel s))
  sessions-after_use (asks a) s = refl
  sessions-after_use (boots fresh user_id) s =
      sym (ap (λ f. f.2) (frame-booted fresh (present user_id) s))
  sessions-after_use (hydrates narrow) s = refl
  sessions-after_use (turns true) s = refl
  sessions-after_use (turns false) s = sym (ap (λ f. f.2) (frame-widened s.dock.state s))

  sessions-after_uses :
      (us : List Use) (s : Shell) → (after_uses to_number us s).dock.sessions ≡ s.dock.sessions
  unfolding after_uses
  sessions-after_uses [] s = refl
  sessions-after_uses (u ∷ us) s =
      sessions-after_uses us (after_use to_number u s) ∙ sessions-after_use u s

  -- After a sign-out the dock takes the thread of the next user, and localStorage keeps it, but the
  -- list of sessions is still that of the user who signed out, and so is the active session; the list
  -- stays whatever the next user does with the dock, until sessions are loaded, changed or removed.
  -- The id of the next user is not empty.
  pub next_user_in_dock :
      (fresh user : String) (s : Shell) (us : List Use)
      → is_empty user ≡ false
      → let next = boot_dock_thread fresh (some user) (sign_out_dock s) in
        (next.dock.thread_id ≡ some ("ask_vantage:" <> user))
        × (next.storage.thread_item ≡ some ("ask_vantage:" <> user))
        × (next.dock.active_session_id ≡ s.dock.active_session_id)
        × ((after_uses to_number us next).dock.sessions ≡ s.dock.sessions)
  unfolding boot_dock_thread booted boot_user same_id sign_out_dock reset_dock
  next_user_in_dock fresh user s us h = rw h (refl, refl, refl, sessions-after_uses us _)
