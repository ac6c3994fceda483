-- ===== src/AgentEvents/Change/Cards.antt =====
-- Every handler of custom.ts is a `Change`, and so is every event.
use apply_agent.Prelude.{
  ℕ, String, ◌<>◌, ◌≤◌, ◌≡◌, refl, Bool, Option, none, some, inl, inr, Option-cases, Bool-cases,
  length, arith, is_empty, trim, get_or_else,
}
use apply_agent.Prelude.Assoc.{lookup}
use apply_agent.AgentEvents.Events.{
  AgentEvent, TaskGraphPayload, TaskGraphStepPayload, AgentPayload, NarratorPayload,
  ArtifactPayload, FileEditPayload, extract_relay_meta,
}
use apply_agent.AgentEvents.Steps.{Step}
use apply_agent.AgentEvents.State.{ReducerState, upsert_step}
use apply_agent.AgentEvents.Custom.{
  on_task_graph, on_task_graph_step, on_agent_start, on_agent_done, on_narrator, plan_step_id,
  agent_step_id, custom_step_id, done_id,
}
use apply_agent.AgentEvents.Custom.Cards.{
  on_partial_artifact, on_artifact, on_file_edit, on_browser, partial_artifact_step, artifact_step,
  file_edit_step, browser_step, BrowserInput, card_events, artifact_id_of,
}
use apply_agent.AgentEvents.Change.{Change, Refreshes, create, refresh, put}
use apply_agent.AgentEvents.Change.Handlers.{append_event-bound, update-Change, log_to_root-Change}

card_events-bound :
    (existing : Option Step) (evt : AgentEvent) → length (card_events existing evt) ≤ 200
card_events-bound none evt = omega arith
card_events-bound (some st) evt = append_event-bound st evt

module _ (Q : String → Type 0) (s : ReducerState) where
  -- A card: the step with the id, or a fresh one under that id, changed by `f`.
  card-Change :
      (id : String) (fresh : Step) (f : Option Step → Step → Step)
      → Q id
      → fresh.id ≡ id
      → ((existing : Option Step) (base : Step) → length (f existing base).events ≤ 200)
      → ((existing : Option Step) (base : Step) → Refreshes base (f existing base))
      → Change Q s (upsert_step s (f (lookup id s.steps) (get_or_else (lookup id s.steps) fresh)))
  card-Change id fresh f q same_id bound keeps = elim (Option-cases (lookup id s.steps)) [
    | inl e ↦
        rw e (put s _ (bound none fresh) (create (rw ((keeps none fresh).same_id, same_id) q)))
    | inr (st, e) ↦ rw e (put s _ (bound (some st) st) (refresh id st e (keeps (some st) st)))
  ]

  pub on_task_graph-Change :
      (now : ℕ) (evt : AgentEvent) (v : TaskGraphPayload)
      → Q (plan_step_id v.task_id)
      → Change Q s (on_task_graph now s evt v)
  unfolding on_task_graph
  on_task_graph-Change now evt v q = put s _ (omega arith) (create q)

  pub on_task_graph_step-Change :
      (evt : AgentEvent) (v : TaskGraphStepPayload) → Change Q s (on_task_graph_step s evt v)
  unfolding on_task_graph_step
  on_task_graph_step-Change evt v = elim (Option-cases (lookup (plan_step_id v.task_id) s.steps)) [
    | inl e ↦ rw (e, on_task_graph_step) (log_to_root-Change Q s evt)
    | inr (st, e) ↦ elim (Option-cases st.plan) [
      | inl f ↦ rw (e, f, on_task_graph_step) (log_to_root-Change Q s evt)
      | inr (part, f) ↦
          rw (e, f, on_task_graph_step)
            (put s _ (append_event-bound st evt) (refresh _ st e (ground arith)))
    ]
  ]

  pub on_agent_start-Change :
      (now : ℕ) (evt : AgentEvent) (v : AgentPayload)
      → Q (agent_step_id now evt v)
      → Change Q s (on_agent_start now s evt v)
  unfolding on_agent_start
  on_agent_start-Change now evt v q = put s _ (omega arith) (create q)

  pub on_agent_done-Change :
      (now : ℕ) (evt : AgentEvent) (v : AgentPayload) → Change Q s (on_agent_done now s evt v)
  unfolding on_agent_done
  on_agent_done-Change now evt v = elim (Bool-cases (is_empty (done_id s evt v))) [
    | inl e ↦ rw (e, on_agent_done) (log_to_root-Change Q s evt)
    | inr e ↦
        rw (e, on_agent_done)
          (update-Change Q s (done_id s evt v) _ _ (log_to_root-Change Q s evt)
            (λ st. append_event-bound st evt) (λ st. ground arith))
  ]

  pub on_narrator-Change :
      (now : ℕ) (evt : AgentEvent) (v : NarratorPayload)
      → Q (custom_step_id "relay.narrator" (extract_relay_meta evt))
      → Change Q s (on_narrator now s evt v)
  unfolding on_narrator
  on_narrator-Change now evt v q = elim (Bool-cases (is_empty (trim (get_or_else v.text "")))) [
    | inl e ↦ rw (e, on_narrator) (log_to_root-Change Q s evt)
    | inr e ↦ rw (e, on_narrator) (put s _ (omega arith) (create q))
  ]

  pub on_partial_artifact-Change :
      (now : ℕ) (evt : AgentEvent) (v : ArtifactPayload)
      → Q ("artifact:" <> artifact_id_of v)
      → Change Q s (on_partial_artifact now s evt v)
  unfolding on_partial_artifact partial_artifact_step
  on_partial_artifact-Change now evt v q =
      card-Change _ _ (partial_artifact_step s evt v) q refl
        (λ existing base. card_events-bound existing evt) (λ existing base. ground arith)

  pub on_artifact-Change :
      (now : ℕ) (evt : AgentEvent) (v : ArtifactPayload)
      → Q ("artifact:" <> artifact_id_of v)
      → Change Q s (on_artifact now s evt v)
  unfolding on_artifact artifact_step
  on_artifact-Change now evt v q =
      card-Change _ _ (artifact_step now evt v) q refl
        (λ existing base. card_events-bound existing evt) (λ existing base. ground arith)

  pub on_file_edit-Change :
      (now : ℕ) (evt : AgentEvent) (preview : Bool) (v : FileEditPayload)
      → Q ("file:" <> get_or_else (extract_relay_meta evt).step_id v.path)
      → Change Q s (on_file_edit now s evt preview v)
  unfolding on_file_edit file_edit_step
  on_file_edit-Change now evt preview v q =
      card-Change _ _ (file_edit_step now evt preview v) q refl
        (λ existing base. card_events-bound existing evt) (λ existing base. ground arith)

  pub on_browser-Change :
      (now : ℕ) (evt : AgentEvent) (input : BrowserInput)
      → Q ("browser:" <> get_or_else (extract_relay_meta evt).step_id "current")
      → Change Q s (on_browser now s evt input)
  unfolding on_browser browser_step
  on_browser-Change now evt input q =
      card-Change _ _ (browser_step now evt input) q refl
        (λ existing base. card_events-bound existing evt) (λ existing base. ground arith)
