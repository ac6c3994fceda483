-- ===== src/AgentEvents/Store/Tests.antt =====
-- A session with two turns, and the witnesses of the theorems about the store.
use apply_agent.Prelude.{Host, ℕ, ◌≡◌, refl, false, none, some, List, [], ◌∷◌, is_some, trim}
use apply_agent.AgentEvents.Consumer.{Consumer, fail, transport, begin, step}
use apply_agent.AgentEvents.Store.{
  Client, Action, ask, resume, happens, receive, session_after, initial, perform, send_resume,
  start_turn, deliver, callback, send_ask, attachments_footer, push_user_step, cancel_dock,
  abort_turn,
}
use apply_agent.AgentEvents.State.{empty_state}
use apply_agent.AgentEvents.Invariant.{IsWellFormed, empty_state-IsWellFormed}
use apply_agent.AgentEvents.Store.Graph.{session_after-IsWellFormed}
use apply_agent.AgentEvents.Store.Invariant.{streaming_turn_is_under_way}

abbrev codec : Host
codec = record { parse = λ s. none; stringify = λ v. "" }

abbrev client : Client
client = record { is_zh = false; is_technical = λ s. false }

-- The user asks, the connection drops, and a decision starts a second turn.
abbrev two_turns : List (ℕ × Action)
two_turns =
    (10, ask none "Find me a job" [] "ask_vantage:u1")
    ∷ (20, happens 0 (fail (transport "reset")))
    ∷ (30, resume none "ask_vantage:u1")
    ∷ []

two_turns_held : (session_after codec client two_turns initial).stream.abort_controller ≡ some 1
unfolding session_after perform send_resume attachments_footer start_turn deliver begin callback
    receive send_ask trim push_user_step cancel_dock abort_turn step
two_turns_held = refl

streaming_turn_is_under_way_example :
    ((session_after codec client two_turns initial).stream.is_streaming
      ≡ is_some (session_after codec client two_turns initial).stream.abort_controller)
    × ((c : ℕ)
        → (session_after codec client two_turns initial).stream.abort_controller ≡ some c
        → (k : Consumer) × ((session_after codec client two_turns initial).turns c ≡ some k)
          × (k.settled ≡ false))
streaming_turn_is_under_way_example = streaming_turn_is_under_way codec client two_turns

session_after-IsWellFormed_example :
    IsWellFormed (session_after codec client two_turns initial).stream.graph
unfolding empty_state
session_after-IsWellFormed_example =
    session_after-IsWellFormed codec client two_turns initial empty_state-IsWellFormed
