-- ===== src/AgentEvents/Store/Invariant.antt =====
-- The streaming flag of the store belongs to a turn whose consumer has not ended.
use apply_agent.Prelude.{
  Host, ℕ, ◌≡◌, refl, ap, ◌∙◌, String, Bool-cases, true, false, Option, none, some, List, [], ◌∷◌,
  nat_beq, inl, inr, is_some, is_empty, trim, ◌||◌,
}
use apply_agent.AgentEvents.Consumer.{Consumer, Input}
use apply_agent.AgentEvents.Store.{
  DockAttachmentLite, HistoryRow, hydrate, hydrate_from_history, Session, Client, receive,
  abort_turn, cancel_dock, cancel_agent_stream, push_user_step, send_ask, send_resume, reset,
  Action, perform, session_after, initial, ask, resume, cancel, close_dock, start_over, happens,
}
use apply_agent.AgentEvents.Store.Turns.{
  IsOwned, receive-IsOwned, start_turn-IsOwned, receive_keeps,
}

initial-IsOwned : IsOwned initial
initial-IsOwned = record { flagged = refl; sound = λ c k e. cc; under_way = λ c e. cc }

module _ (host : Host) (client : Client) where
  abort_turn-IsOwned :
      (now : ℕ) (controller : Option ℕ) (s : Session)
      → IsOwned s
      → IsOwned (abort_turn host client now controller s)
  unfolding abort_turn
  abort_turn-IsOwned now none s o = o
  abort_turn-IsOwned now (some c) s o = receive-IsOwned host client now c Input.abort s o

  cancel_dock-IsOwned :
      (now : ℕ) (s : Session) → IsOwned s → IsOwned (cancel_dock host client now s)
  unfolding cancel_dock
  cancel_dock-IsOwned now s o =
      let t = abort_turn-IsOwned now s.dock.abort_controller s o in
      record { flagged = t.flagged; sound = t.sound; under_way = t.under_way }

  cancel_agent_stream-IsOwned :
      (now : ℕ) (s : Session) → IsOwned s → IsOwned (cancel_agent_stream host client now s)
  unfolding cancel_agent_stream
  cancel_agent_stream-IsOwned now s o =
      let t = abort_turn-IsOwned now s.stream.abort_controller s o in
      record { flagged = refl; sound = t.sound; under_way = λ c e. cc }

  reset-IsOwned : (now : ℕ) (s : Session) → IsOwned s → IsOwned (reset host client now s)
  unfolding reset
  reset-IsOwned now s o =
      let t = abort_turn-IsOwned now s.stream.abort_controller s o in
      record { flagged = refl; sound = t.sound; under_way = λ c e. cc }

  hydrate_from_history-IsOwned :
      (now : ℕ) (rows : List HistoryRow) (s : Session)
      → IsOwned s
      → IsOwned (hydrate_from_history host client now rows s)
  unfolding hydrate_from_history
  hydrate_from_history-IsOwned now rows s o =
      let t = abort_turn-IsOwned now s.stream.abort_controller s o in
      record { flagged = refl; sound = t.sound; under_way = λ c e. cc }

  send_ask-IsOwned :
      (now : ℕ) (opening : Option String) (prompt : String) (attachments : List DockAttachmentLite)
      (thread_id : String) (s : Session)
      → IsOwned s
      → IsOwned (send_ask host client now opening prompt attachments thread_id s)
  unfolding send_ask push_user_step
  send_ask-IsOwned now opening prompt attachments thread_id s o =
      elim (Bool-cases (is_empty (trim prompt) || is_empty thread_id)) [
        | inl e ↦ rw (e, send_ask) o
        | inr e ↦
            let t =
              cancel_dock-IsOwned now _ (abort_turn-IsOwned now s.stream.abort_controller s o) in
            rw (e, send_ask)
              (start_turn-IsOwned host client now opening _
                (record { flagged = t.flagged; sound = t.sound; under_way = t.under_way }))
      ]

  send_resume-IsOwned :
      (now : ℕ) (opening : Option String) (thread_id : String) (s : Session)
      → IsOwned s
      → IsOwned (send_resume host client now opening thread_id s)
  unfolding send_resume
  send_resume-IsOwned now opening thread_id s o = elim (Bool-cases (is_empty thread_id)) [
    | inl e ↦ rw (e, send_resume) o
    | inr e ↦
        rw (e, send_resume)
          (start_turn-IsOwned host client now opening _
            (record { flagged = o.flagged; sound = o.sound; under_way = o.under_way }))
  ]

  perform-IsOwned :
      (now : ℕ) (a : Action) (s : Session) → IsOwned s → IsOwned (perform host client now a s)
  unfolding perform
  perform-IsOwned now (ask opening prompt attachments thread_id) s o =
      send_ask-IsOwned now opening prompt attachments thread_id s o
  perform-IsOwned now (resume opening thread_id) s o = send_resume-IsOwned now opening thread_id s o
  perform-IsOwned now cancel s o = cancel_agent_stream-IsOwned now s o
  perform-IsOwned now close_dock s o = cancel_dock-IsOwned now s o
  perform-IsOwned now start_over s o = reset-IsOwned now s o
  perform-IsOwned now (hydrate rows) s o = hydrate_from_history-IsOwned now rows s o
  perform-IsOwned now (happens c i) s o = receive-IsOwned host client now c i s o

  -- Whatever the user and the environment do, in any order, from a session that is `IsOwned` on.
  pub session_after-IsOwned :
      (actions : List (ℕ × Action)) (s : Session)
      → IsOwned s
      → IsOwned (session_after host client actions s)
  unfolding session_after
  session_after-IsOwned [] s o = o
  session_after-IsOwned ((now, a) ∷ rest) s o =
      session_after-IsOwned rest (perform host client now a s) (perform-IsOwned now a s o)

  -- After any sequence of actions of the user and events of any turn's connection, from the page's
  -- start on: the store says that it is streaming exactly if it holds a controller, and the
  -- controller that it holds belongs to a turn whose consumer has not ended.
  pub streaming_turn_is_under_way :
      (actions : List (ℕ × Action))
      → let s = session_after host client actions initial in
        (s.stream.is_streaming ≡ is_some s.stream.abort_controller)
        × ((c : ℕ)
            → s.stream.abort_controller ≡ some c
            → (k : Consumer) × (s.turns c ≡ some k) × (k.settled ≡ false))
  streaming_turn_is_under_way actions =
      let o = session_after-IsOwned actions initial initial-IsOwned in (o.flagged, o.under_way)

  -- In a session that such actions lead to, whatever happens to a turn other than the one whose
  -- controller the store holds leaves that controller and the streaming flag as they are.
  pub other_turn_keeps :
      (actions : List (ℕ × Action)) (now c d : ℕ) (i : Input)
      → let s = session_after host client actions initial in
        s.stream.abort_controller ≡ some d
        → nat_beq d c ≡ false
        → ((receive host client now c i s).stream.abort_controller ≡ some d)
          × ((receive host client now c i s).stream.is_streaming ≡ true)
  other_turn_keeps actions now c d i held differ =
      let s = session_after host client actions initial in
      let o = (session_after-IsOwned actions initial initial-IsOwned) in
      let kept = receive_keeps host client now c i s held differ in
      (kept, (receive-IsOwned host client now c i s o).flagged ∙ ap is_some kept)
