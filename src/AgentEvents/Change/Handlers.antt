-- ===== src/AgentEvents/Change/Handlers.antt =====
-- Every handler of reducer.ts is a `Change`.
use apply_agent.Prelude.{
  Host, ℕ, String, ◌<>◌, ◌≤◌, refl, Option, none, some, List, [], ◌∷◌, inl, inr, Option-cases,
  length, arith,
}
use apply_agent.Prelude.Assoc.{lookup}
use apply_agent.AgentEvents.Events.{
  AgentEvent, InterruptPayload, RunFinishedOutcome, success, interrupt, now_ts, extract_relay_meta,
}
use apply_agent.AgentEvents.Steps.{Step}
use apply_agent.AgentEvents.Feed.{append_event}
use apply_agent.AgentEvents.Feed.Laws.{append_feed-bound}
use apply_agent.AgentEvents.State.{
  ReducerState, upsert_step, truthy_id, log_to_root, log_to_step, close_step, message_step_id,
  tool_step_id,
}
use apply_agent.AgentEvents.Handlers.{
  hitl_step, on_run_started, finish_root, run_step_id, add_interrupts, on_run_finished,
  on_run_error, on_reasoning_start, on_reasoning_content, on_text_start, on_text_content,
  on_tool_start, on_tool_args, on_tool_result,
}
use apply_agent.AgentEvents.Change.{
  Change, Refreshes, create, refresh, extend, same, put, start, after,
}

pub append_event-bound : (step : Step) (evt : AgentEvent) → length (append_event step evt) ≤ 200
unfolding append_event
append_event-bound step evt = append_feed-bound step.events evt

module _ (Q : String → Type 0) (s : ReducerState) where
  -- A handler that refreshes the step with the id `id`, and does something else if there is none.
  pub update-Change :
      (id : String) (absent : ReducerState) (f : Step → Step)
      → Change Q s absent
      → ((st : Step) → length (f st).events ≤ 200)
      → ((st : Step) → Refreshes st (f st))
      → Change Q s (elim (lookup id s.steps) [ none ↦ absent | some st ↦ upsert_step s (f st) ])
  update-Change id absent f missing bound keeps = elim (Option-cases (lookup id s.steps)) [
    | inl e ↦ rw e missing
    | inr (st, e) ↦ rw e (put s (f st) (bound st) (refresh id st e (keeps st)))
  ]

  pub log_to_root-Change : (evt : AgentEvent) → Change Q s (log_to_root s evt)
  unfolding log_to_root
  log_to_root-Change evt = elim (Option-cases (truthy_id s.root_step_id)) [
    | inl e ↦ rw (e, log_to_root) (same s)
    | inr (id, e) ↦
        rw (e, log_to_root)
          (update-Change id s _ (same s) (λ root. append_event-bound root evt)
            (λ root. ground arith))
  ]

  pub log_to_step-Change : (id : String) (evt : AgentEvent) → Change Q s (log_to_step s id evt)
  unfolding log_to_step
  log_to_step-Change id evt =
      update-Change id _ _ (log_to_root-Change evt) (λ st. append_event-bound st evt)
        (λ st. ground arith)

  pub close_step-Change :
      (id : String) (t : ℕ) (evt : AgentEvent) → Change Q s (close_step s id t evt)
  unfolding close_step
  close_step-Change id t evt =
      update-Change id _ _ (log_to_root-Change evt) (λ st. append_event-bound st evt)
        (λ st. ground arith)

  pub on_run_error-Change : (now : ℕ) (evt : AgentEvent) → Change Q s (on_run_error now s evt)
  unfolding on_run_error
  on_run_error-Change now evt = elim (Option-cases (truthy_id s.root_step_id)) [
    | inl e ↦ rw (e, on_run_error) (log_to_root-Change evt)
    | inr (id, e) ↦
        rw (e, on_run_error)
          (update-Change id _ _ (log_to_root-Change evt) (λ st. append_event-bound st evt)
            (λ st. ground arith))
  ]

  pub on_run_started-Change :
      (now : ℕ) (evt : AgentEvent) (run_id : String)
      → Q (run_step_id now (extract_relay_meta evt).run_id run_id)
      → Change Q s (on_run_started now s evt run_id)
  unfolding on_run_started
  on_run_started-Change now evt run_id q = start s _ (omega arith) q

  finish_root-Change : (now : ℕ) (evt : AgentEvent) → Change Q s (finish_root now s evt)
  unfolding finish_root
  finish_root-Change now evt = elim (Option-cases (truthy_id s.root_step_id)) [
    | inl e ↦ rw (e, finish_root) (log_to_root-Change evt)
    | inr (id, e) ↦ rw (e, finish_root) (close_step-Change id (now_ts now evt) evt)
  ]

  module _ (now : ℕ) (evt : AgentEvent) (m : String) (q : Q (message_step_id m)) where
    pub on_reasoning_start-Change : Change Q s (on_reasoning_start now s evt m)
    unfolding on_reasoning_start
    on_reasoning_start-Change = put s _ (omega arith) (create q)

    pub on_text_start-Change : Change Q s (on_text_start now s evt m)
    unfolding on_text_start
    on_text_start-Change = put s _ (omega arith) (create q)

    pub on_text_content-Change : (d : String) → Change Q s (on_text_content now s evt m d)
    unfolding on_text_content
    on_text_content-Change d = elim (Option-cases (lookup (message_step_id m) s.steps)) [
      | inl e ↦ rw (e, on_text_content) (put s _ (omega arith) (create q))
      | inr (st, e) ↦
          rw (e, on_text_content)
            (put s _ (append_event-bound st evt) (extend (message_step_id m) st e refl q))
    ]

    pub on_reasoning_content-Change : (d : String) → Change Q s (on_reasoning_content now s evt m d)
    unfolding on_reasoning_content
    on_reasoning_content-Change d =
        update-Change (message_step_id m) _ _ (put s _ (omega arith) (create q))
          (λ st. append_event-bound st evt) (λ st. ground arith)

  pub on_tool_start-Change :
      (now : ℕ) (evt : AgentEvent) (t n : String)
      → Q (tool_step_id t)
      → Change Q s (on_tool_start now s evt t n)
  unfolding on_tool_start
  on_tool_start-Change now evt t n q = put s _ (omega arith) (create q)

  pub on_tool_args-Change : (evt : AgentEvent) (t d : String) → Change Q s (on_tool_args s evt t d)
  unfolding on_tool_args
  on_tool_args-Change evt t d = elim (Option-cases (lookup (tool_step_id t) s.steps)) [
    | inl e ↦ rw (e, on_tool_args) (log_to_step-Change _ evt)
    | inr (st, e) ↦ elim (Option-cases st.tool) [
      | inl f ↦ rw (e, f, on_tool_args) (log_to_step-Change _ evt)
      | inr (part, f) ↦
          rw (e, f, on_tool_args)
            (put s _ (append_event-bound st evt) (refresh _ st e (ground arith)))
    ]
  ]

  pub on_tool_result-Change :
      (host : Host) (now : ℕ) (evt : AgentEvent) (t c : String)
      → Q (tool_step_id t)
      → Change Q s (on_tool_result host now s evt t c)
  unfolding on_tool_result
  on_tool_result-Change host now evt t c q =
      update-Change (tool_step_id t) _ _ (put s _ (omega arith) (create q))
        (λ st. append_event-bound st evt) (λ st. ground arith)

add_interrupts-Change :
    (Q : String → Type 0) (now : ℕ) (root : Option String) (evt : AgentEvent) (s : ReducerState)
    (its : List InterruptPayload)
    → ((id : String) → Q ("hitl:" <> id))
    → Change Q s (add_interrupts now root evt s its)
unfolding add_interrupts
add_interrupts-Change Q now root evt s [] q = same s
add_interrupts-Change Q now root evt s (it ∷ its) q =
    after (put s _ (omega arith) (create (q it.id)))
      (add_interrupts-Change Q now root evt (upsert_step s (hitl_step now root evt it)) its q)

pub on_run_finished-Change :
    (Q : String → Type 0) (now : ℕ) (s : ReducerState) (evt : AgentEvent)
    (outcome : Option RunFinishedOutcome)
    → ((id : String) → Q ("hitl:" <> id))
    → Change Q s (on_run_finished now s evt outcome)
unfolding on_run_finished
on_run_finished-Change Q now s evt none q = finish_root-Change Q s now evt
on_run_finished-Change Q now s evt (some success) q = finish_root-Change Q s now evt
on_run_finished-Change Q now s evt (some (interrupt its)) q =
    add_interrupts-Change Q now s.root_step_id evt s its q
