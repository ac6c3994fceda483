-- ===== src/AgentEvents/Change/Events.antt =====
-- Every event is a `Change`: the step ids that an event may open, and the dispatch.
use apply_agent.Prelude.{Host, ℕ, String, ◌<>◌, get_or_else}
use apply_agent.AgentEvents.Events.{AgentEvent, EventBody, Custom, extract_relay_meta}
use apply_agent.AgentEvents.State.{ReducerState, message_step_id, tool_step_id}
use apply_agent.AgentEvents.Handlers.{run_step_id}
use apply_agent.AgentEvents.Custom.{plan_step_id, agent_step_id, custom_step_id}
use apply_agent.AgentEvents.Custom.Cards.{artifact_id_of, snapshot, action}
use apply_agent.AgentEvents.Reducer.{apply_custom, apply_body, apply_event}
use apply_agent.AgentEvents.Change.{Change}
use apply_agent.AgentEvents.Change.Handlers
use apply_agent.AgentEvents.Change.Cards

module _ (Q : String → Type 0) where
  -- `Q` holds of every id that a relay.* event may open.
  abbrev pub OpensCustom : ℕ → AgentEvent → Custom → Type 0
  OpensCustom now evt (Custom.task_graph v) = Q (plan_step_id v.task_id)
  OpensCustom now evt (Custom.agent_start v) = Q (agent_step_id now evt v)
  OpensCustom now evt (Custom.narrator v) =
      Q (custom_step_id "relay.narrator" (extract_relay_meta evt))
  OpensCustom now evt (Custom.partial_artifact v) = Q ("artifact:" <> artifact_id_of v)
  OpensCustom now evt (Custom.artifact v) = Q ("artifact:" <> artifact_id_of v)
  OpensCustom now evt (Custom.file_edit v) =
      Q ("file:" <> get_or_else (extract_relay_meta evt).step_id v.path)
  OpensCustom now evt (Custom.file_edit_preview v) =
      Q ("file:" <> get_or_else (extract_relay_meta evt).step_id v.path)
  OpensCustom now evt (Custom.browser_snapshot v) =
      Q ("browser:" <> get_or_else (extract_relay_meta evt).step_id "current")
  OpensCustom now evt (Custom.browser_action v) =
      Q ("browser:" <> get_or_else (extract_relay_meta evt).step_id "current")
  OpensCustom now evt _ = Unit

  -- `Q` holds of every id that an event may open.
  abbrev pub Opens : ℕ → AgentEvent → EventBody → Type 0
  Opens now evt (EventBody.run_started t r) = Q (run_step_id now (extract_relay_meta evt).run_id r)
  Opens now evt (EventBody.run_finished t r o) = (id : String) → Q ("hitl:" <> id)
  Opens now evt (EventBody.reasoning_start m) = Q (message_step_id m)
  Opens now evt (EventBody.reasoning_content m d) = Q (message_step_id m)
  Opens now evt (EventBody.text_start m) = Q (message_step_id m)
  Opens now evt (EventBody.text_content m d) = Q (message_step_id m)
  Opens now evt (EventBody.tool_start t n) = Q (tool_step_id t)
  Opens now evt (EventBody.tool_result t m c) = Q (tool_step_id t)
  Opens now evt (EventBody.custom c) = OpensCustom now evt c
  Opens now evt _ = Unit

  module _ (now : ℕ) (s : ReducerState) (evt : AgentEvent) where
    apply_custom-Change :
        (c : Custom) → OpensCustom now evt c → Change Q s (apply_custom now s evt c)
    unfolding apply_custom
    apply_custom-Change (Custom.task_graph v) q = Cards.on_task_graph-Change Q s now evt v q
    apply_custom-Change (Custom.task_graph_step v) q = Cards.on_task_graph_step-Change Q s evt v
    apply_custom-Change (Custom.agent_start v) q = Cards.on_agent_start-Change Q s now evt v q
    apply_custom-Change (Custom.agent_done v) q = Cards.on_agent_done-Change Q s now evt v
    apply_custom-Change (Custom.agents_group v) q = Handlers.log_to_root-Change Q s evt
    apply_custom-Change (Custom.narrator v) q = Cards.on_narrator-Change Q s now evt v q
    apply_custom-Change (Custom.partial_artifact v) q =
        Cards.on_partial_artifact-Change Q s now evt v q
    apply_custom-Change (Custom.artifact v) q = Cards.on_artifact-Change Q s now evt v q
    apply_custom-Change (Custom.hitl_prep v) q = Handlers.log_to_root-Change Q s evt
    apply_custom-Change (Custom.file_edit v) q = Cards.on_file_edit-Change Q s now evt _ v q
    apply_custom-Change (Custom.file_edit_preview v) q = Cards.on_file_edit-Change Q s now evt _ v q
    apply_custom-Change (Custom.browser_snapshot v) q =
        Cards.on_browser-Change Q s now evt (snapshot v) q
    apply_custom-Change (Custom.browser_action v) q =
        Cards.on_browser-Change Q s now evt (action v) q
    apply_custom-Change (Custom.unknown n v) q = Handlers.log_to_root-Change Q s evt

    pub apply_body-Change :
        (host : Host) (body : EventBody)
        → Opens now evt body
        → Change Q s (apply_body host now s evt body)
    unfolding apply_body
    apply_body-Change host (EventBody.run_started t r) q =
        Handlers.on_run_started-Change Q s now evt r q
    apply_body-Change host (EventBody.run_finished t r o) q =
        Handlers.on_run_finished-Change Q now s evt o q
    apply_body-Change host (EventBody.run_error m c) q = Handlers.on_run_error-Change Q s now evt
    apply_body-Change host (EventBody.reasoning_start m) q =
        Handlers.on_reasoning_start-Change Q s now evt m q
    apply_body-Change host (EventBody.reasoning_content m d) q =
        Handlers.on_reasoning_content-Change Q s now evt m q d
    apply_body-Change host (EventBody.reasoning_end m) q = Handlers.close_step-Change Q s _ _ evt
    apply_body-Change host (EventBody.text_start m) q =
        Handlers.on_text_start-Change Q s now evt m q
    apply_body-Change host (EventBody.text_content m d) q =
        Handlers.on_text_content-Change Q s now evt m q d
    apply_body-Change host (EventBody.text_end m) q = Handlers.close_step-Change Q s _ _ evt
    apply_body-Change host (EventBody.tool_start t n) q =
        Handlers.on_tool_start-Change Q s now evt t n q
    apply_body-Change host (EventBody.tool_args t d) q = Handlers.on_tool_args-Change Q s evt t d
    apply_body-Change host (EventBody.tool_end t) q = Handlers.log_to_step-Change Q s _ evt
    apply_body-Change host (EventBody.tool_result t m c) q =
        Handlers.on_tool_result-Change Q s host now evt t c q
    apply_body-Change host (EventBody.state_snapshot v) q = Handlers.log_to_root-Change Q s evt
    apply_body-Change host (EventBody.state_delta v) q = Handlers.log_to_root-Change Q s evt
    apply_body-Change host (EventBody.custom c) q = apply_custom-Change c q
    apply_body-Change host (EventBody.other t) q = Handlers.log_to_root-Change Q s evt

    pub apply_event-Change :
        (host : Host) → Opens now evt evt.body → Change Q s (apply_event host now s evt)
    unfolding apply_event
    apply_event-Change host q = apply_body-Change host evt.body q
