-- ===== src/AgentEvents/Store.antt =====
-- store.ts: the store's actions, the callbacks that a turn hands to the consumer, and the turns
-- that are under way. A controller is a number; its turn is the state of its consumer.
pub mod Turns
pub mod Invariant
pub mod Graph
mod Tests
use apply_agent.Prelude.{
  Host, ℕ, suc, ◌+◌, String, ◌<>◌, Bool, true, false, ◌||◌, Option, none, some, List, [], ◌∷◌, ℤ,
  pos, nat_beq, if◌then◌else◌, is_empty, trim, to_decimal, get_or_else,
}
use apply_agent.AgentEvents.Events.{AgentEvent, EventBody}
use apply_agent.AgentEvents.Steps.{Step, StepKind, StepStatus}
use apply_agent.AgentEvents.State.{ReducerState, empty_state, make_step, upsert_step}
use apply_agent.AgentEvents.Reducer.{apply_event}
use apply_agent.AgentEvents.Consumer.{
  Consumer, Input, step, begin, Effect, open_request, on_event, on_error, on_done, on_reconnect,
  on_stream_expired,
}

-- `AgentStreamState`; `graph` is what `toReducerState` returns.
pub record AgentStreamState : Type 0 where
  pub graph : ReducerState
  pub is_streaming : Bool
  pub error_message : Option String
  pub reconnect_attempt : ℤ
  pub stream_expired : Bool
  pub abort_controller : Option ℕ

-- The part of `useDock` that a turn writes.
pub record DockTurn : Type 0 where
  pub streaming : Bool
  pub abort_controller : Option ℕ

-- Both stores, the consumers by controller, the next controller and `userStepCounter`.
pub record Session : Type 0 where
  pub stream : AgentStreamState
  pub dock : DockTurn
  pub turns : ℕ → Option Consumer
  pub next_controller : ℕ
  pub user_step_counter : ℕ

-- The client's locale and the test of `toUserFacingStreamError`'s regular expression.
pub record Client : Type 0 where
  pub is_zh : Bool
  pub is_technical : String → Bool

-- `toUserFacingStreamError`
unfoldable pub to_user_facing_stream_error : Client → String → String
to_user_facing_stream_error client message =
    if client.is_zh
    then (if client.is_technical message then "Vantage 暂时无法读取响应，请重试。" else "连接中断，请检查网络后重试。")
    else (if client.is_technical message
        then "Vantage couldn't read the response. Please try again."
        else "The connection was interrupted. Check your network and try again.")

-- `ownsController`
abbrev pub owns_controller : ℕ → Option ℕ → Bool
owns_controller controller none = true
owns_controller controller (some current) = nat_beq current controller

-- `clearOwned`
unfoldable pub clear_owned : ℕ → Session → Session
clear_owned controller s =
    if owns_controller controller s.stream.abort_controller
    then record s {
      stream = record s.stream { is_streaming = false; abort_controller = none };
      dock = record { streaming = false; abort_controller = none };
    }
    else s

-- The message that `onEvent` puts on the timeline.
abbrev pub error_after : AgentEvent → Option String → Option String
error_after evt old = elim evt.body [ EventBody.run_error message code ↦ some message | _ ↦ old ]

-- `DockAttachmentLite`
pub record DockAttachmentLite : Type 0 where
  pub id : String
  pub name : String

attachment_lines : List DockAttachmentLite → String
attachment_lines [] = ""
attachment_lines (a ∷ rest) =
    "\n- " <> (a.name <> (" (file_id: " <> (a.id <> (")" <> attachment_lines rest))))

-- `attachmentsFooter`; every line has the line break before it.
unfoldable pub attachments_footer : List DockAttachmentLite → String
unfolding attachment_lines
attachments_footer [] = ""
attachments_footer (a ∷ rest) = "\n\n[Attached files]" <> attachment_lines (a ∷ rest)

-- `HistoryRow`: `created_at` is `Date.parse(createdAt)` where that is a number.
pub record HistoryRow : Type 0 where
  pub id : String
  pub is_user : Bool
  pub content : String
  pub created_at : Option ℕ

-- `rowToStep`
unfoldable pub row_to_step : ℕ → HistoryRow → Step
row_to_step now r =
    let kind = if r.is_user then StepKind.user else StepKind.assistant_text in
    let title = if r.is_user then "You" else "Vantage" in
    record (make_step ("history:" <> r.id) "" kind StepStatus.done title
      (get_or_else r.created_at now) none) { text = some r.content }

-- The loop of `hydrateFromHistory`
unfoldable pub fold_history : ℕ → ReducerState → List HistoryRow → ReducerState
fold_history now state [] = state
fold_history now state (r ∷ rest) = fold_history now (upsert_step state (row_to_step now r)) rest

-- What a user or the environment does.
pub data Action : Type 0 where
  ask :
      (opening : Option String)
      → (prompt : String) → List DockAttachmentLite
      → (thread_id : String) → Action
  resume : (opening : Option String) → (thread_id : String) → Action
  cancel : Action
  close_dock : Action
  start_over : Action
  hydrate : List HistoryRow → Action
  happens : (controller : ℕ) → Input → Action

module _ (host : Host) (client : Client) where
  -- `makeStreamCallbacks`; `now` is the clock's reading.
  unfoldable pub callback : ℕ → ℕ → Effect → Session → Session
  callback now controller (open_request r c) s = s
  callback now controller (on_event f) s = record s {
    stream = record s.stream {
      graph = apply_event host now s.stream.graph f.event;
      error_message = error_after f.event s.stream.error_message;
    };
  }
  callback now controller (on_error message) s = clear_owned controller (record s {
    stream = record s.stream { error_message = some (to_user_facing_stream_error client message) };
  })
  callback now controller on_done s = clear_owned controller s
  callback now controller (on_reconnect attempt delay) s = record s {
    stream = record s.stream { reconnect_attempt = attempt };
  }
  callback now controller (on_stream_expired trace) s = record s {
    stream = record s.stream { stream_expired = true; reconnect_attempt = pos 0 };
  }

  unfoldable pub deliver : ℕ → ℕ → List Effect → Session → Session
  deliver now controller [] s = s
  deliver now controller (eff ∷ rest) s =
      deliver now controller rest (callback now controller eff s)

  abbrev pub set_turn : ℕ → Consumer → Session → Session
  set_turn controller c s = record s {
    turns = λ d. if nat_beq d controller then some c else s.turns d;
  }

  -- Something happens to the consumer of a turn.
  unfoldable pub receive : ℕ → ℕ → Input → Session → Session
  receive now controller input s = elim (s.turns controller) [
    | none ↦ s
    | some c ↦ deliver now controller (step c input).1 (set_turn controller (step c input).0 s)
  ]

  -- `controller.abort()`, if there is one
  unfoldable pub abort_turn : ℕ → Option ℕ → Session → Session
  abort_turn now none s = s
  abort_turn now (some controller) s = receive now controller Input.abort s

  -- What `sendAsk` and `sendResume` end with; `opening` is an exception on opening the stream.
  unfoldable pub start_turn : ℕ → Option String → Session → Session
  start_turn now opening s =
      let controller = s.next_controller in
      let started : Session = record s {
        stream = record s.stream { is_streaming = true; abort_controller = some controller };
        dock = record { streaming = true; abort_controller = some controller };
        next_controller = controller + 1;
      } in
      deliver now controller (begin opening).1 (set_turn controller (begin opening).0 started)

  -- `useDock`'s `cancelStream`
  unfoldable pub cancel_dock : ℕ → Session → Session
  cancel_dock now s = record (abort_turn now s.dock.abort_controller s) {
    dock = record { streaming = false; abort_controller = none };
  }

  -- `cancelAgentStream`
  unfoldable pub cancel_agent_stream : ℕ → Session → Session
  cancel_agent_stream now s =
      let t = abort_turn now s.stream.abort_controller s in
      record t { stream = record t.stream { is_streaming = false; abort_controller = none } }

  -- The step of `pushUserStep`
  abbrev pub user_step : ℕ → ℕ → String → Step
  user_step now counter text =
      record (make_step ("user:" <> (to_decimal now <> (":" <> to_decimal counter))) ""
        StepKind.user StepStatus.done "You" now none) { text = some text }

  -- `pushUserStep`
  unfoldable pub push_user_step : ℕ → String → Session → Session
  push_user_step now text s = record s {
    stream = record s.stream {
      graph = upsert_step s.stream.graph (user_step now s.user_step_counter text);
    };
    user_step_counter = s.user_step_counter + 1;
  }

  -- `sendAsk`
  unfoldable pub send_ask :
      ℕ
      → Option String
      → (prompt : String) → List DockAttachmentLite
      → (thread_id : String) → Session
      → Session
  send_ask now opening prompt attachments thread_id s =
      let s1 = cancel_dock now (abort_turn now s.stream.abort_controller s) in
      let s2 : Session = record s1 {
        stream = record s1.stream {
          error_message = none;
          reconnect_attempt = pos 0;
          stream_expired = false;
        };
      } in
      if is_empty (trim prompt) || is_empty thread_id
      then s
      else start_turn now opening (push_user_step now (prompt <> attachments_footer attachments) s2)

  -- `sendResume`
  unfoldable pub send_resume : ℕ → Option String → (thread_id : String) → Session → Session
  send_resume now opening thread_id s =
      let s1 : Session = record s { stream = record s.stream { error_message = none } } in
      if is_empty thread_id then s else start_turn now opening s1

  -- `reset`
  unfoldable pub reset : ℕ → Session → Session
  reset now s =
      let t = abort_turn now s.stream.abort_controller s in
      record t {
        stream = record {
          graph = empty_state;
          is_streaming = false;
          error_message = none;
          reconnect_attempt = pos 0;
          stream_expired = false;
          abort_controller = none;
        };
      }

  -- `hydrateFromHistory`
  unfoldable pub hydrate_from_history : ℕ → List HistoryRow → Session → Session
  hydrate_from_history now rows s =
      let t = abort_turn now s.stream.abort_controller s in
      record t {
        stream = record t.stream {
          graph = fold_history now empty_state rows;
          is_streaming = false;
          error_message = none;
          abort_controller = none;
        };
      }

  unfoldable pub perform : ℕ → Action → Session → Session
  perform now (ask opening prompt attachments thread_id) s =
      send_ask now opening prompt attachments thread_id s
  perform now (resume opening thread_id) s = send_resume now opening thread_id s
  perform now cancel s = cancel_agent_stream now s
  perform now close_dock s = cancel_dock now s
  perform now start_over s = reset now s
  perform now (hydrate rows) s = hydrate_from_history now rows s
  perform now (happens controller input) s = receive now controller input s

  -- The session after a sequence of actions, each with the clock's reading.
  unfoldable pub session_after : List (ℕ × Action) → Session → Session
  session_after [] s = s
  session_after ((now, a) ∷ rest) s = session_after rest (perform now a s)

-- The state when the page is loaded.
abbrev pub initial : Session
initial = record {
  stream = record {
    graph = record { steps = []; order = []; root_step_id = none };
    is_streaming = false;
    error_message = none;
    reconnect_attempt = pos 0;
    stream_expired = false;
    abort_controller = none;
  };
  dock = record { streaming = false; abort_controller = none };
  turns = λ c. none;
  next_controller = 0;
  user_step_counter = 0;
}
