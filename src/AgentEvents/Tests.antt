-- ===== src/AgentEvents/Tests.antt =====
-- Runs of the reducer, and its theorems at concrete inputs.
use apply_agent.Prelude.{Host, ℕ, String, ◌≡◌, refl, none, some, [], ◌∷◌, false, to_decimal}
use apply_agent.Prelude.Assoc.{lookup, insert}
use apply_agent.AgentEvents.Events.{
  AgentEvent, EventBody, Custom, interrupt, InterruptPayload, TaskGraphPayload, PlanRow, number,
  now_ts, extract_relay_meta,
}
use apply_agent.AgentEvents.Steps.{PlanStatus, PlanStep, PlanPart}
use apply_agent.AgentEvents.State.{
  ReducerState, empty_state, message_step_id, upsert_step, truthy_id,
}
use apply_agent.AgentEvents.Handlers.{on_run_started, on_text_start}
use apply_agent.AgentEvents.Reducer.{apply_custom, apply_body, apply_event, apply_events, Arrivals}
use apply_agent.AgentEvents.Invariant.{
  IsWellFormed, apply_events-IsWellFormed, empty_state-IsWellFormed,
}
use apply_agent.AgentEvents.Streaming.{text_of, apply_events-text_of}
use apply_agent.AgentEvents.Custom.{on_task_graph, normalize_plan_status}
use apply_agent.AgentEvents.Cards.{plan_of}

-- A codec that reads no text as JSON.
abbrev codec : Host
codec = record { parse = λ s. none; stringify = λ v. "" }

abbrev event : EventBody → AgentEvent
event body = record { body = body; timestamp = none; raw_event = none }

abbrev opening : Arrivals
opening = (1, event (EventBody.run_started "t" "r")) ∷ (2, event (EventBody.text_start "m1")) ∷ []

abbrev talk : Arrivals
talk =
    (3, event (EventBody.text_content "m1" "Hel"))
    ∷ (4, event (EventBody.tool_start "c" "search"))
    ∷ (5, event (EventBody.text_content "m2" "x"))
    ∷ (6, event (EventBody.text_content "m1" "lo"))
    ∷ []

abbrev opened : ReducerState
opened = apply_events codec empty_state opening

reducer : Unit {0}
unfolding apply_events apply_event apply_body apply_custom on_run_started on_text_start upsert_step
    insert lookup empty_state now_ts extract_relay_meta truthy_id on_task_graph
reducer = tt

opened-IsWellFormed : IsWellFormed opened
opened-IsWellFormed = apply_events-IsWellFormed codec empty_state opening empty_state-IsWellFormed

apply_events-IsWellFormed_example : IsWellFormed (apply_events codec opened talk)
apply_events-IsWellFormed_example = apply_events-IsWellFormed codec opened talk opened-IsWellFormed

opened_text : text_of (message_step_id "m1") opened ≡ some ""
unfolding reducer
opened_text = refl

apply_events-text_of_example :
    text_of (message_step_id "m1") (apply_events codec opened talk) ≡ some "Hello"
apply_events-text_of_example =
    apply_events-text_of codec opened talk "m1" "" opened-IsWellFormed (tt, (tt, (tt, (tt, tt))))
      opened_text

abbrev question : InterruptPayload
question = record {
  id = "q";
  reason = "approval";
  message = none;
  tool_call_id = none;
  response_schema = none;
  expires_at = none;
  metadata = none;
}

abbrev asking : AgentEvent
asking = event (EventBody.run_finished "t" "r" (some (interrupt (question ∷ []))))

opened_root : truthy_id opened.root_step_id ≡ some "r"
unfolding reducer
opened_root = refl

abbrev row : ℕ → PlanRow
row n = record {
  step = number n;
  agent = none;
  label = none;
  status = some "running";
  requires_review = false;
}

abbrev graph : TaskGraphPayload
graph = record { task_id = some "t1"; user_goal = none; plan = some (row 1 ∷ row 2 ∷ []) }

abbrev planning : Arrivals
planning = (1, event (EventBody.custom (Custom.task_graph graph))) ∷ []

abbrev planned : ReducerState
planned = apply_events codec empty_state planning

abbrev plan_row : String → PlanStep
plan_row s = record {
  step = s;
  agent = "";
  label = "";
  status = PlanStatus.running;
  requires_review = false;
  error_text = none;
}

abbrev t1 : PlanPart
t1 = record { task_id = "t1"; user_goal = none; steps = plan_row "1" ∷ plan_row "2" ∷ [] }

planned_part : plan_of "plan:t1" planned ≡ some t1
unfolding reducer to_decimal normalize_plan_status
planned_part = refl
