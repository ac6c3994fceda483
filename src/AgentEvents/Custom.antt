-- ===== src/AgentEvents/Custom.antt =====
-- The relay.* events: the handlers of custom.ts, and their dispatch `applyCustom`.
-- The shared `upsertStep`, `makeStep` and `appendEvent` come from reducer.ts, as there.
pub mod Cards
use apply_agent.Prelude.{
  ℕ, String, ◌<>◌, ◌==◌, Bool, true, false, ◌&&◌, Option, none, some, List, [], ◌∷◌, ◌++◌, map,
  sub_ℕ, if◌then◌else◌, is_empty, or_else, get_or_else, or_option, to_decimal, trim,
}
use apply_agent.Prelude.Assoc.{Assoc, lookup}
use apply_agent.AgentEvents.Events.{
  AgentEvent, RelayMeta, StepRef, number, text, PlanRow, TaskGraphPayload, TaskGraphStepPayload,
  AgentPayload, NarratorPayload, now_ts, extract_relay_meta,
}
use apply_agent.AgentEvents.Steps.{Step, StepKind, StepStatus, PlanStatus, PlanStep, PlanPart}
use apply_agent.AgentEvents.Feed.{append_event}
use apply_agent.AgentEvents.State.{ReducerState, make_step, upsert_step, log_to_root}

-- `customStepId`: the seq of a `RelayMeta` is a number.
abbrev pub custom_step_id : String → RelayMeta → String
custom_step_id name meta =
    let id = get_or_else meta.step_id "" in
    if is_empty id then "custom:" <> (name <> (":" <> to_decimal meta.seq)) else "custom:" <> id

-- `String(p.step)`
abbrev pub step_text : StepRef → String
step_text (number n) = to_decimal n
step_text (text s) = s

-- `normalizePlanStatus`
unfoldable pub normalize_plan_status : Option String → PlanStatus
normalize_plan_status none = PlanStatus.pending
normalize_plan_status (some s) =
    if s == "running"
    then PlanStatus.running
    else if s == "done"
    then PlanStatus.done
    else if s == "review"
    then PlanStatus.review
    else if s == "failed"
    then PlanStatus.failed
    else PlanStatus.pending

-- `v.task_id ? … : "plan:current"`
abbrev pub plan_step_id : Option String → String
plan_step_id task_id =
    let id = get_or_else task_id "" in if is_empty id then "plan:current" else "plan:" <> id

plan_row : PlanRow → PlanStep
plan_row p = record {
  step = step_text p.step;
  agent = get_or_else p.agent "";
  label = get_or_else p.label "";
  status = normalize_plan_status p.status;
  requires_review = p.requires_review;
  error_text = none;
}

-- `onTaskGraph`
unfoldable pub on_task_graph : ℕ → ReducerState → AgentEvent → TaskGraphPayload → ReducerState
unfolding plan_row
on_task_graph now state evt v =
    let step =
      make_step (plan_step_id v.task_id) (extract_relay_meta evt).run_id StepKind.plan
        StepStatus.running (or_else (get_or_else v.user_goal "") "Plan") (now_ts now evt)
        state.root_step_id in
    upsert_step state (record step {
      plan = some (record {
        task_id = get_or_else v.task_id "current";
        user_goal = v.user_goal;
        steps = map plan_row (get_or_else v.plan []);
      });
      events = evt ∷ [];
    })

-- A row that is done or failed keeps its status.
unfoldable pub advance : PlanStatus → PlanStatus → PlanStatus
advance PlanStatus.done next = PlanStatus.done
advance PlanStatus.failed next = PlanStatus.failed
advance _ next = next

unfoldable pub advance_row : TaskGraphStepPayload → PlanStep → PlanStep
advance_row v s =
    if s.step == step_text v.step
    then record s {
      status = advance s.status (normalize_plan_status v.status);
      error_text = or_option v.error s.error_text;
    }
    else s

-- `onTaskGraphStep`
unfoldable pub on_task_graph_step : ReducerState → AgentEvent → TaskGraphStepPayload → ReducerState
on_task_graph_step state evt v = elim (lookup (plan_step_id v.task_id) state.steps) [
  | none ↦ log_to_root state evt
  | some step ↦ elim step.plan [
    | none ↦ log_to_root state evt
    | some part ↦ upsert_step state (record step {
      plan = some (record part { steps = map (advance_row v) part.steps });
      events = append_event step evt;
    })
  ]
]

-- `meta.step_id ? … : …`
abbrev pub agent_step_id : ℕ → AgentEvent → AgentPayload → String
agent_step_id now evt v =
    let id = get_or_else (extract_relay_meta evt).step_id "" in
    if is_empty id
    then "agent:" <> (get_or_else v.agent "x" <> (":" <> to_decimal (now_ts now evt)))
    else "agent:" <> id

-- `onAgentStart`
unfoldable pub on_agent_start : ℕ → ReducerState → AgentEvent → AgentPayload → ReducerState
on_agent_start now state evt v =
    let step =
      make_step (agent_step_id now evt v) (extract_relay_meta evt).run_id StepKind.tool
        StepStatus.running
        (or_else (get_or_else v.label "") (or_else (get_or_else v.agent "") "agent"))
        (now_ts now evt) state.root_step_id in
    upsert_step state (record step {
      tool = some (record { name = get_or_else v.agent "agent"; args = none; result = none });
      events = evt ∷ [];
    })

-- The test of the search in `onAgentDone`.
abbrev pub is_running : StepStatus → Bool
is_running StepStatus.running = true
is_running _ = false

abbrev pub is_tool : StepKind → Bool
is_tool StepKind.tool = true
is_tool _ = false

abbrev pub same_name : Option String → Option String → Bool
same_name none none = true
same_name (some a) (some b) = a == b
same_name _ _ = false

abbrev pub tool_name : Step → Option String
tool_name s = elim s.tool [ none ↦ none | some part ↦ some part.name ]

abbrev pub runs_agent : Option String → Step → Bool
runs_agent agent s = is_tool s.kind && same_name (tool_name s) agent && is_running s.status

-- The loop over `order` from its end; the last hit in order is the first that the loop meets.
unfoldable pub last_running : Option String → Assoc Step → List String → Option Step
last_running agent steps [] = none
last_running agent steps (id ∷ ids) = elim (last_running agent steps ids) [
  | some s ↦ some s
  | none ↦ elim (lookup id steps) [
    | none ↦ none
    | some s ↦ if runs_agent agent s then some s else none
  ]
]

-- The `id` that `onAgentDone` closes; an empty id counts as missing.
unfoldable pub done_id : ReducerState → AgentEvent → AgentPayload → String
done_id state evt v =
    let id = get_or_else (extract_relay_meta evt).step_id "" in
    if is_empty id
    then elim (last_running v.agent state.steps state.order) [ none ↦ "" | some s ↦ s.id ]
    else "agent:" <> id

-- `onAgentDone`
unfoldable pub on_agent_done : ℕ → ReducerState → AgentEvent → AgentPayload → ReducerState
on_agent_done now state evt v =
    if is_empty (done_id state evt v)
    then log_to_root state evt
    else elim (lookup (done_id state evt v) state.steps) [
      | none ↦ log_to_root state evt
      | some step ↦ upsert_step state (record step {
        status = StepStatus.done;
        finished_at = some (now_ts now evt);
        duration_ms = some (sub_ℕ (now_ts now evt) step.started_at);
        events = append_event step evt;
      })
    ]

-- `onNarrator`
unfoldable pub on_narrator : ℕ → ReducerState → AgentEvent → NarratorPayload → ReducerState
on_narrator now state evt v =
    let said = trim (get_or_else v.text "") in
    if is_empty said
    then log_to_root state evt
    else (let step =
          make_step (custom_step_id "relay.narrator" (extract_relay_meta evt))
            (extract_relay_meta evt).run_id StepKind.narrator StepStatus.done "Narrator"
            (now_ts now evt) state.root_step_id in
        upsert_step state (record step { narrator = some said; events = evt ∷ [] }))
