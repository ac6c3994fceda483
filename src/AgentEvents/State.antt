-- ===== src/AgentEvents/State.antt =====
-- The reducer's state and the helpers that its handlers share (reducer.ts).
use apply_agent.Prelude.{
  ℕ, String, ◌<>◌, Option, none, some, List, [], ◌∷◌, ◌++◌, sub_ℕ, if◌then◌else◌, is_empty,
}
use apply_agent.Prelude.Assoc.{Assoc, lookup, has, insert}
use apply_agent.AgentEvents.Events.{AgentEvent}
use apply_agent.AgentEvents.Steps.{Step, StepKind, StepStatus, failed, done}
use apply_agent.AgentEvents.Feed.{append_event}

-- `ReducerState`. `steps` is a `Map`, in insertion order.
pub record ReducerState : Type 0 where
  pub steps : Assoc Step
  pub order : List String
  pub root_step_id : Option String

-- `emptyState`
unfoldable pub empty_state : ReducerState
empty_state = record { steps = []; order = []; root_step_id = none }

-- `messageStepId`, `toolStepId`
abbrev pub message_step_id : String → String
message_step_id message_id = "msg:" <> message_id

abbrev pub tool_step_id : String → String
tool_step_id tool_call_id = "tool:" <> tool_call_id

-- `makeStep`
abbrev pub make_step :
    (id run_id : String)
    → StepKind
    → StepStatus
    → (title : String) → (started_at : ℕ) → (parent_step_id : Option String) → Step
make_step id run_id kind status title started_at parent_step_id = record {
  id = id;
  run_id = run_id;
  parent_step_id = parent_step_id;
  kind = kind;
  status = status;
  title = title;
  started_at = started_at;
  finished_at = none;
  duration_ms = none;
  reasoning_text = none;
  text = none;
  tool = none;
  file = none;
  browser = none;
  hitl = none;
  artifact = none;
  narrator = none;
  plan = none;
  events = [];
}

-- `upsertStep`
unfoldable pub upsert_step : ReducerState → Step → ReducerState
upsert_step state step = record {
  steps = insert step.id step state.steps;
  order = if has step.id state.steps then state.order else state.order ++ (step.id ∷ []);
  root_step_id = state.root_step_id;
}

-- `if (state.rootStepId)`: the empty string counts as missing.
unfoldable pub truthy_id : Option String → Option String
truthy_id none = none
truthy_id (some id) = if is_empty id then none else some id

-- `logToRoot`
unfoldable pub log_to_root : ReducerState → AgentEvent → ReducerState
log_to_root state evt = elim (truthy_id state.root_step_id) [
  | none ↦ state
  | some id ↦ elim (lookup id state.steps) [
    | none ↦ state
    | some root ↦ upsert_step state (record root { events = append_event root evt })
  ]
]

-- `logToStep`
unfoldable pub log_to_step : ReducerState → String → AgentEvent → ReducerState
log_to_step state id evt = elim (lookup id state.steps) [
  | none ↦ log_to_root state evt
  | some step ↦ upsert_step state (record step { events = append_event step evt })
]

-- A step keeps a failure when it is closed.
abbrev pub closed_status : StepStatus → StepStatus
closed_status failed = failed
closed_status _ = done

-- `closeStep`
unfoldable pub close_step : ReducerState → String → ℕ → AgentEvent → ReducerState
close_step state id finished_at evt = elim (lookup id state.steps) [
  | none ↦ log_to_root state evt
  | some step ↦ upsert_step state (record step {
    status = closed_status step.status;
    finished_at = some finished_at;
    duration_ms = some (sub_ℕ finished_at step.started_at);
    events = append_event step evt;
  })
]
