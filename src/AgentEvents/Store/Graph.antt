-- ===== src/AgentEvents/Store/Graph.antt =====
-- The step graph of the store stays well-formed whatever happens.
use apply_agent.Prelude.{
  Host, ℕ, String, Bool-cases, Option-cases, Option, none, some, List, [], ◌∷◌, arith, inl, inr,
  is_empty, trim, ◌||◌,
}
use apply_agent.AgentEvents.State.{ReducerState, empty_state, upsert_step}
use apply_agent.AgentEvents.Invariant.{
  IsWellFormed, upsert_step-IsWellFormed, empty_state-IsWellFormed, Change-IsWellFormed, any-Change,
}
use apply_agent.AgentEvents.Consumer.{
  Input, step, begin, Effect, open_request, on_event, on_error, on_done, on_reconnect,
  on_stream_expired,
}
use apply_agent.AgentEvents.Store.{
  Session, Client, HistoryRow, DockAttachmentLite, fold_history, row_to_step, owns_controller,
  clear_owned, callback, deliver, set_turn, receive, abort_turn, start_turn, cancel_dock,
  cancel_agent_stream, push_user_step, send_ask, send_resume, reset, hydrate_from_history, Action,
  perform, session_after, ask, resume, cancel, close_dock, start_over, hydrate, happens,
}

abbrev HasGraph : Session → Type 0
HasGraph s = IsWellFormed s.stream.graph

clear_owned-HasGraph : (c : ℕ) (s : Session) → HasGraph s → HasGraph (clear_owned c s)
unfolding clear_owned
clear_owned-HasGraph c s w = elim (Bool-cases (owns_controller c s.stream.abort_controller)) [
  | inl e ↦ rw (e, clear_owned) w
  | inr e ↦ rw (e, clear_owned) w
]

fold_history-IsWellFormed :
    (now : ℕ) (state : ReducerState) (rows : List HistoryRow)
    → IsWellFormed state
    → IsWellFormed (fold_history now state rows)
unfolding fold_history row_to_step
fold_history-IsWellFormed now state [] w = w
fold_history-IsWellFormed now state (r ∷ rest) w =
    fold_history-IsWellFormed now (upsert_step state (row_to_step now r)) rest
      (upsert_step-IsWellFormed state (row_to_step now r) (omega arith) w)

module _ (host : Host) (client : Client) where
  deliver-HasGraph :
      (now c : ℕ) (effs : List Effect) (s : Session)
      → HasGraph s
      → HasGraph (deliver host client now c effs s)
  unfolding deliver callback
  deliver-HasGraph now c [] s w = w
  deliver-HasGraph now c (open_request r x ∷ rest) s w = deliver-HasGraph now c rest s w
  deliver-HasGraph now c (on_event f ∷ rest) s w =
      deliver-HasGraph now c rest _
        (Change-IsWellFormed (any-Change host now s.stream.graph f.event) w)
  deliver-HasGraph now c (on_reconnect a d ∷ rest) s w = deliver-HasGraph now c rest _ w
  deliver-HasGraph now c (on_stream_expired x ∷ rest) s w = deliver-HasGraph now c rest _ w
  deliver-HasGraph now c (on_done ∷ rest) s w =
      deliver-HasGraph now c rest _ (clear_owned-HasGraph c s w)
  deliver-HasGraph now c (on_error e ∷ rest) s w =
      deliver-HasGraph now c rest _ (clear_owned-HasGraph c _ w)

  receive-HasGraph :
      (now c : ℕ) (i : Input) (s : Session) → HasGraph s → HasGraph (receive host client now c i s)
  unfolding receive
  receive-HasGraph now c i s w = elim (Option-cases (s.turns c)) [
    | inl e ↦ rw (e, receive) w
    | inr (k, e) ↦
        rw (e, receive)
          (deliver-HasGraph now c (step k i).1 (set_turn host client c (step k i).0 s) w)
  ]

  abort_turn-HasGraph :
      (now : ℕ) (controller : Option ℕ) (s : Session)
      → HasGraph s
      → HasGraph (abort_turn host client now controller s)
  unfolding abort_turn
  abort_turn-HasGraph now none s w = w
  abort_turn-HasGraph now (some c) s w = receive-HasGraph now c Input.abort s w

  start_turn-HasGraph :
      (now : ℕ) (opening : Option String) (s : Session)
      → HasGraph s
      → HasGraph (start_turn host client now opening s)
  unfolding start_turn
  start_turn-HasGraph now opening s w = deliver-HasGraph now s.next_controller (begin opening).1 _ w

  send_ask-HasGraph :
      (now : ℕ) (opening : Option String) (prompt : String) (attachments : List DockAttachmentLite)
      (thread_id : String) (s : Session)
      → HasGraph s
      → HasGraph (send_ask host client now opening prompt attachments thread_id s)
  unfolding send_ask push_user_step cancel_dock
  send_ask-HasGraph now opening prompt attachments thread_id s w =
      elim (Bool-cases (is_empty (trim prompt) || is_empty thread_id)) [
        | inl e ↦ rw (e, send_ask) w
        | inr e ↦
            let t =
              abort_turn-HasGraph now _ _ (abort_turn-HasGraph now s.stream.abort_controller s w) in
            rw (e, send_ask)
              (start_turn-HasGraph now opening _ (upsert_step-IsWellFormed _ _ (omega arith) t))
      ]

  send_resume-HasGraph :
      (now : ℕ) (opening : Option String) (thread_id : String) (s : Session)
      → HasGraph s
      → HasGraph (send_resume host client now opening thread_id s)
  unfolding send_resume
  send_resume-HasGraph now opening thread_id s w = elim (Bool-cases (is_empty thread_id)) [
    | inl e ↦ rw (e, send_resume) w
    | inr e ↦ rw (e, send_resume) (start_turn-HasGraph now opening _ w)
  ]

  perform-HasGraph :
      (now : ℕ) (a : Action) (s : Session) → HasGraph s → HasGraph (perform host client now a s)
  unfolding perform cancel_agent_stream cancel_dock reset hydrate_from_history
  perform-HasGraph now (ask opening prompt attachments thread_id) s w =
      send_ask-HasGraph now opening prompt attachments thread_id s w
  perform-HasGraph now (resume opening thread_id) s w =
      send_resume-HasGraph now opening thread_id s w
  perform-HasGraph now cancel s w = abort_turn-HasGraph now s.stream.abort_controller s w
  perform-HasGraph now close_dock s w = abort_turn-HasGraph now s.dock.abort_controller s w
  perform-HasGraph now start_over s w = empty_state-IsWellFormed
  perform-HasGraph now (hydrate rows) s w =
      fold_history-IsWellFormed now empty_state rows empty_state-IsWellFormed
  perform-HasGraph now (happens c i) s w = receive-HasGraph now c i s w

  -- Every sequence of actions of the user and events of any turn's connection keeps the store's step
  -- graph well-formed, where two turns' events interleave too.
  pub session_after-IsWellFormed :
      (actions : List (ℕ × Action)) (s : Session)
      → IsWellFormed s.stream.graph
      → IsWellFormed (session_after host client actions s).stream.graph
  unfolding session_after
  session_after-IsWellFormed [] s w = w
  session_after-IsWellFormed ((now, a) ∷ rest) s w =
      session_after-IsWellFormed rest (perform host client now a s) (perform-HasGraph now a s w)
