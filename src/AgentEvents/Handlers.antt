-- ===== src/AgentEvents/Handlers.antt =====
-- The handlers of the AG-UI events (reducer.ts): one function for each `on…`.
-- `now` is the clock's reading while the event is handled; `Host` is the JSON codec.
use Prim.Native.Char.{code}
use apply_agent.Prelude.{
  Host, ℕ, String, ◌<>◌, Bool, false, ◌||◌, ◌&&◌, nat_beq, Option, none, some, List, [], ◌∷◌, Json,
  str, truthy, sub_ℕ, if◌then◌else◌, is_digit, is_empty, or_else, get_or_else, to_decimal, trim,
}
use apply_agent.Prelude.Assoc.{lookup}
use apply_agent.AgentEvents.Events.{
  AgentEvent, InterruptPayload, RunFinishedOutcome, success, interrupt, extract_relay_meta, now_ts,
}
use apply_agent.AgentEvents.Steps.{Step, StepKind, StepStatus, ToolPart}
use apply_agent.AgentEvents.Feed.{append_event}
use apply_agent.AgentEvents.State.{
  ReducerState, message_step_id, tool_step_id, make_step, upsert_step, truthy_id, log_to_root,
  log_to_step, close_step,
}

starts_with_digit : String → Bool
starts_with_digit String.[] = false
starts_with_digit (String.◌∷◌ c s) = is_digit c

-- The two regular expressions of `parseMaybeJson`: `[`, `{` or `"`, or `-?` and a digit.
looks_like_json : String → Bool
looks_like_json String.[] = false
looks_like_json (String.◌∷◌ c s) =
    nat_beq (code c) b'['
    || nat_beq (code c) b'{'
    || nat_beq (code c) b'"'
    || is_digit c
    || (nat_beq (code c) b'-' && starts_with_digit s)

-- `parseMaybeJson`, on a string
unfoldable pub parse_maybe_json : Host → String → Json
unfolding looks_like_json starts_with_digit is_digit trim
parse_maybe_json host s =
    if is_empty (trim s)
    then str s
    else if looks_like_json (trim s)
    then get_or_else (host.parse (trim s)) (str s)
    else str s

-- `onRunStarted`
abbrev pub run_step_id : ℕ → (meta_run_id run_id : String) → String
run_step_id now meta_run_id run_id = or_else meta_run_id (or_else run_id ("run-" <> to_decimal now))

unfoldable pub on_run_started : ℕ → ReducerState → AgentEvent → String → ReducerState
on_run_started now state evt run_id =
    let id = run_step_id now (extract_relay_meta evt).run_id run_id in
    let step = make_step id id StepKind.run StepStatus.running "Run" (now_ts now evt) none in
    let next =
      upsert_step (record state { root_step_id = some id }) (record step { events = evt ∷ [] }) in
    record next { root_step_id = some id }

-- One round of the loop over `outcome.interrupts`; `root` is the root of the state at its start.
abbrev pub hitl_step : ℕ → Option String → AgentEvent → InterruptPayload → Step
hitl_step now root evt it =
    let step =
      make_step ("hitl:" <> it.id) (extract_relay_meta evt).run_id StepKind.hitl StepStatus.review
        (or_else (get_or_else it.message "") (or_else it.reason "Needs your input"))
        (now_ts now evt) root in
    record step {
      hitl = some (record {
        interrupt_id = it.id;
        reason = it.reason;
        message = it.message;
        metadata = it.metadata;
      });
      events = evt ∷ [];
    }

unfoldable pub add_interrupts :
    ℕ → Option String → AgentEvent → ReducerState → List InterruptPayload → ReducerState
add_interrupts now root evt next [] = next
add_interrupts now root evt next (it ∷ rest) =
    add_interrupts now root evt (upsert_step next (hitl_step now root evt it)) rest

-- The success case: the root is closed.
unfoldable pub finish_root : ℕ → ReducerState → AgentEvent → ReducerState
finish_root now state evt = elim (truthy_id state.root_step_id) [
  | none ↦ log_to_root state evt
  | some root ↦ close_step state root (now_ts now evt) evt
]

-- `onRunFinished`
unfoldable pub on_run_finished :
    ℕ → ReducerState → AgentEvent → Option RunFinishedOutcome → ReducerState
on_run_finished now state evt none = finish_root now state evt
on_run_finished now state evt (some success) = finish_root now state evt
on_run_finished now state evt (some (interrupt its)) =
    add_interrupts now state.root_step_id evt state its

-- `onRunError`
unfoldable pub on_run_error : ℕ → ReducerState → AgentEvent → ReducerState
on_run_error now state evt = elim (truthy_id state.root_step_id) [
  | none ↦ log_to_root state evt
  | some root ↦ elim (lookup root state.steps) [
    | none ↦ log_to_root state evt
    | some step ↦ upsert_step state (record step {
      status = StepStatus.failed;
      finished_at = some (now_ts now evt);
      duration_ms = some (sub_ℕ (now_ts now evt) step.started_at);
      events = append_event step evt;
    })
  ]
]

-- The step that a message event opens.
abbrev pub message_step : ℕ → ReducerState → AgentEvent → String → StepKind → String → Step
message_step now state evt message_id kind title =
    make_step (message_step_id message_id) (extract_relay_meta evt).run_id kind StepStatus.running
      title (now_ts now evt) state.root_step_id

-- `onReasoningStart`
unfoldable pub on_reasoning_start : ℕ → ReducerState → AgentEvent → String → ReducerState
on_reasoning_start now state evt message_id =
    let step = message_step now state evt message_id StepKind.thinking "Thinking" in
    upsert_step state (record step { reasoning_text = some ""; events = evt ∷ [] })

-- `onReasoningContent`
unfoldable pub on_reasoning_content :
    ℕ → ReducerState → AgentEvent → (message_id delta : String) → ReducerState
on_reasoning_content now state evt message_id delta =
    elim (lookup (message_step_id message_id) state.steps) [
      | none ↦
          let created = message_step now state evt message_id StepKind.thinking "Thinking" in
          upsert_step state (record created { reasoning_text = some delta; events = evt ∷ [] })
      | some step ↦ upsert_step state (record step {
        reasoning_text = some (get_or_else step.reasoning_text "" <> delta);
        events = append_event step evt;
      })
    ]

-- `onTextStart`
unfoldable pub on_text_start : ℕ → ReducerState → AgentEvent → String → ReducerState
on_text_start now state evt message_id =
    let step = message_step now state evt message_id StepKind.assistant_text "Vantage" in
    upsert_step state (record step { text = some ""; events = evt ∷ [] })

-- `onTextContent`
unfoldable pub on_text_content :
    ℕ → ReducerState → AgentEvent → (message_id delta : String) → ReducerState
on_text_content now state evt message_id delta =
    elim (lookup (message_step_id message_id) state.steps) [
      | none ↦
          let created = message_step now state evt message_id StepKind.assistant_text "Vantage" in
          upsert_step state (record created { text = some delta; events = evt ∷ [] })
      | some step ↦ upsert_step state (record step {
        text = some (get_or_else step.text "" <> delta);
        events = append_event step evt;
      })
    ]

-- `onToolStart`
unfoldable pub on_tool_start :
    ℕ → ReducerState → AgentEvent → (tool_call_id tool_call_name : String) → ReducerState
on_tool_start now state evt tool_call_id tool_call_name =
    let step =
      make_step (tool_step_id tool_call_id) (extract_relay_meta evt).run_id StepKind.tool
        StepStatus.running tool_call_name (now_ts now evt) state.root_step_id in
    upsert_step state (record step {
      tool = some (record { name = tool_call_name; args = some (str ""); result = none });
      events = evt ∷ [];
    })

-- `typeof step.tool.args === "string" ? step.tool.args : ""`
abbrev pub args_text : Option Json → String
args_text (some (str s)) = s
args_text _ = ""

-- `onToolArgs`
unfoldable pub on_tool_args :
    ReducerState → AgentEvent → (tool_call_id delta : String) → ReducerState
on_tool_args state evt tool_call_id delta = elim (lookup (tool_step_id tool_call_id) state.steps) [
  | none ↦ log_to_step state (tool_step_id tool_call_id) evt
  | some step ↦ elim step.tool [
    | none ↦ log_to_step state (tool_step_id tool_call_id) evt
    | some part ↦ upsert_step state (record step {
      tool = some (record part { args = some (str (args_text part.args <> delta)) });
      events = append_event step evt;
    })
  ]
]

-- `typeof args === "string" ? args : JSON.stringify(args)`
abbrev pub args_source : Host → Json → String
args_source host (str s) = s
args_source host v = host.stringify v

-- `parsedArgs`: falsy arguments are dropped.
abbrev pub parsed_args : Host → Option Json → Option Json
parsed_args host none = none
parsed_args host (some v) =
    if truthy v then some (parse_maybe_json host (args_source host v)) else none

abbrev pub finished_tool : Host → Option ToolPart → String → ToolPart
finished_tool host none content = record {
  name = "tool";
  args = none;
  result = some (parse_maybe_json host content);
}
finished_tool host (some part) content = record {
  name = part.name;
  args = parsed_args host part.args;
  result = some (parse_maybe_json host content);
}

-- `onToolResult`
unfoldable pub on_tool_result :
    Host → ℕ → ReducerState → AgentEvent → (tool_call_id content : String) → ReducerState
on_tool_result host now state evt tool_call_id content =
    elim (lookup (tool_step_id tool_call_id) state.steps) [
      | none ↦
          let created =
            make_step (tool_step_id tool_call_id) (extract_relay_meta evt).run_id StepKind.tool
              StepStatus.done "tool" (now_ts now evt) state.root_step_id in
          upsert_step state (record created {
            tool = some (finished_tool host none content);
            finished_at = some (now_ts now evt);
            events = evt ∷ [];
          })
      | some step ↦ upsert_step state (record step {
        status = StepStatus.done;
        finished_at = some (now_ts now evt);
        duration_ms = some (sub_ℕ (now_ts now evt) step.started_at);
        tool = some (finished_tool host step.tool content);
        events = append_event step evt;
      })
    ]
