-- ===== src/AgentEvents/Reducer.antt =====
-- The dispatch: `applyCustom` (custom.ts), `applyEvent` (reducer.ts), and the fold that the store
-- makes over a stream of events.
use apply_agent.Prelude.{Host, ℕ, true, false, List, [], ◌∷◌}
use apply_agent.AgentEvents.Events.{AgentEvent, EventBody, Custom, now_ts}
use apply_agent.AgentEvents.State.{
  ReducerState, message_step_id, tool_step_id, log_to_root, log_to_step, close_step,
}
use apply_agent.AgentEvents.Handlers.{
  on_run_started, on_run_finished, on_run_error, on_reasoning_start, on_reasoning_content,
  on_text_start, on_text_content, on_tool_start, on_tool_args, on_tool_result,
}
use apply_agent.AgentEvents.Custom.{
  on_task_graph, on_task_graph_step, on_agent_start, on_agent_done, on_narrator,
}
use apply_agent.AgentEvents.Custom.Cards.{
  on_partial_artifact, on_artifact, on_file_edit, on_browser, snapshot, action,
}

-- `applyCustom`. The warning of the default case goes to the console and changes no state.
unfoldable pub apply_custom : ℕ → ReducerState → AgentEvent → Custom → ReducerState
apply_custom now state evt (Custom.task_graph v) = on_task_graph now state evt v
apply_custom now state evt (Custom.task_graph_step v) = on_task_graph_step state evt v
apply_custom now state evt (Custom.agent_start v) = on_agent_start now state evt v
apply_custom now state evt (Custom.agent_done v) = on_agent_done now state evt v
apply_custom now state evt (Custom.agents_group v) = log_to_root state evt
apply_custom now state evt (Custom.narrator v) = on_narrator now state evt v
apply_custom now state evt (Custom.partial_artifact v) = on_partial_artifact now state evt v
apply_custom now state evt (Custom.artifact v) = on_artifact now state evt v
apply_custom now state evt (Custom.hitl_prep v) = log_to_root state evt
apply_custom now state evt (Custom.file_edit v) = on_file_edit now state evt false v
apply_custom now state evt (Custom.file_edit_preview v) = on_file_edit now state evt true v
apply_custom now state evt (Custom.browser_snapshot v) = on_browser now state evt (snapshot v)
apply_custom now state evt (Custom.browser_action v) = on_browser now state evt (action v)
apply_custom now state evt (Custom.unknown name v) = log_to_root state evt

-- `applyEvent`, by the event's type
unfoldable pub apply_body : Host → ℕ → ReducerState → AgentEvent → EventBody → ReducerState
apply_body host now state evt (EventBody.run_started t run_id) = on_run_started now state evt run_id
apply_body host now state evt (EventBody.run_finished t r outcome) =
    on_run_finished now state evt outcome
apply_body host now state evt (EventBody.run_error m c) = on_run_error now state evt
apply_body host now state evt (EventBody.reasoning_start m) = on_reasoning_start now state evt m
apply_body host now state evt (EventBody.reasoning_content m d) =
    on_reasoning_content now state evt m d
apply_body host now state evt (EventBody.reasoning_end m) =
    close_step state (message_step_id m) (now_ts now evt) evt
apply_body host now state evt (EventBody.text_start m) = on_text_start now state evt m
apply_body host now state evt (EventBody.text_content m d) = on_text_content now state evt m d
apply_body host now state evt (EventBody.text_end m) =
    close_step state (message_step_id m) (now_ts now evt) evt
apply_body host now state evt (EventBody.tool_start t n) = on_tool_start now state evt t n
apply_body host now state evt (EventBody.tool_args t d) = on_tool_args state evt t d
apply_body host now state evt (EventBody.tool_end t) = log_to_step state (tool_step_id t) evt
apply_body host now state evt (EventBody.tool_result t m c) = on_tool_result host now state evt t c
apply_body host now state evt (EventBody.state_snapshot v) = log_to_root state evt
apply_body host now state evt (EventBody.state_delta v) = log_to_root state evt
apply_body host now state evt (EventBody.custom c) = apply_custom now state evt c
apply_body host now state evt (EventBody.other t) = log_to_root state evt

-- `applyEvent`
unfoldable pub apply_event : Host → ℕ → ReducerState → AgentEvent → ReducerState
apply_event host now state evt = apply_body host now state evt evt.body

-- The events of a stream in the order of arrival, each with the clock's reading at that time.
abbrev pub Arrivals : Type 0
Arrivals = List (ℕ × AgentEvent)

unfoldable pub apply_events : Host → ReducerState → Arrivals → ReducerState
apply_events host state [] = state
apply_events host state ((now, evt) ∷ rest) =
    apply_events host (apply_event host now state evt) rest
