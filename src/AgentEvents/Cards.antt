-- ===== src/AgentEvents/Cards.antt =====
-- Agents, plans and tools: which step an event picks, and what it does to it.
use apply_agent.Prelude.{
  String, eq_iff, eq_refl, ◌≡◌, ◌≢◌, refl, ap, Option, none, some, List, [], ◌∷◌, ◌++◌, All, map,
  true, false, Option-cases, inl, inr, ◌⊎◌, arith,
}
use apply_agent.Prelude.Assoc.{Assoc, lookup, lookup-insert}
use apply_agent.AgentEvents.Events.{AgentEvent, TaskGraphStepPayload}
use apply_agent.AgentEvents.Steps.{Step, PlanStatus, PlanStep, PlanPart}
use apply_agent.AgentEvents.State.{ReducerState, upsert_step}
use apply_agent.AgentEvents.Custom.{
  last_running, runs_agent, on_task_graph_step, advance, advance_row, normalize_plan_status,
  step_text, plan_step_id,
}
use apply_agent.AgentEvents.Invariant.{IsWellFormed, lookup-IsEntry}

-- No step of these ids is a running one of the agent.
abbrev pub IsIdle : Option String → Assoc Step → List String → Type 0
IsIdle agent steps ids =
    All (λ id. (st : Step) → lookup id steps ≡ some st → runs_agent agent st ≡ false) ids

-- The step is the latest of the ids that runs the agent.
pub record IsLatest (agent : Option String) (steps : Assoc Step) (ids : List String) (st : Step)
    : Type 0 where
  pub before : List String
  pub id : String
  pub later : List String
  pub splits : ids ≡ before ++ (id ∷ later)
  pub found : lookup id steps ≡ some st
  pub runs : runs_agent agent st ≡ true
  pub idle : IsIdle agent steps later

module _ (agent : Option String) (steps : Assoc Step) where
  pub last_running-none :
      (ids : List String) → last_running agent steps ids ≡ none → IsIdle agent steps ids
  unfolding last_running
  last_running-none [] e = tt
  last_running-none (id ∷ ids) e = elim (Option-cases (last_running agent steps ids)) [
    | inl rest ↦ (λ st f. ground arith, last_running-none ids rest)
    | inr (s, rest) ↦ absurd (ground arith)
  ]

  pub last_running-IsLatest :
      (ids : List String) (st : Step)
      → last_running agent steps ids ≡ some st
      → IsLatest agent steps ids st
  unfolding last_running
  last_running-IsLatest [] st e = cc
  last_running-IsLatest (id ∷ ids) st e = elim (Option-cases (last_running agent steps ids)) [
    | inl rest ↦ record {
      before = [];
      id = id;
      later = ids;
      splits = refl;
      found = ground arith;
      runs = ground arith;
      idle = last_running-none ids rest;
    }
    | inr (s, rest) ↦
        let l = last_running-IsLatest ids st (ground arith) in
        record {
          before = id ∷ l.before;
          id = l.id;
          later = l.later;
          splits = ap (λ k. id ∷ k) l.splits;
          found = l.found;
          runs = l.runs;
          idle = l.idle;
        }
  ]

-- An `agent_done` event without a step id closes the latest step in the order of the timeline that
-- runs the agent: that step, found under some id, runs the agent, and no later one in the order
-- does. With no such step the event finds no step at all.
pub last_running_lem :
    (agent : Option String) (s : ReducerState)
    → ((last_running agent s.steps s.order ≡ none) × IsIdle agent s.steps s.order)
      ⊎ ((st : Step) × (last_running agent s.steps s.order ≡ some st)
          × IsLatest agent s.steps s.order st)
last_running_lem agent s = elim (Option-cases (last_running agent s.steps s.order)) [
  | inl e ↦ inl (e, last_running-none agent s.steps s.order e)
  | inr (st, e) ↦ inr (st, e, last_running-IsLatest agent s.steps s.order st e)
]

abbrev IsTerminal : PlanStatus → Type 0
IsTerminal st = (st ≡ PlanStatus.done) ⊎ (st ≡ PlanStatus.failed)

-- What a `task_graph_step` event does to one row of the plan.
pub record IsAdvanced (v : TaskGraphStepPayload) (old new : PlanStep) : Type 0 where
  pub same_step : new.step ≡ old.step
  pub same_agent : new.agent ≡ old.agent
  pub same_label : new.label ≡ old.label
  pub terminal : IsTerminal old.status → new.status ≡ old.status
  pub others : old.step ≢ step_text v.step → new ≡ old
  pub moved :
      old.step ≡ step_text v.step
      → ¬ IsTerminal old.status
      → new.status ≡ normalize_plan_status v.status

advance_row-IsAdvanced :
    (v : TaskGraphStepPayload) (row : PlanStep) → IsAdvanced v row (advance_row v row)
unfolding advance_row advance
advance_row-IsAdvanced v row = record {
  same_step = ground arith;
  same_agent = ground arith;
  same_label = ground arith;
  terminal = λ h. ground arith;
  others = λ h. ground (arith, eq_iff row.step (step_text v.step));
  moved = λ h k. ground (arith, eq_iff row.step (step_text v.step));
}

-- Row by row, in the same order and number.
abbrev pub AllAdvanced : TaskGraphStepPayload → List PlanStep → List PlanStep → Type 0
AllAdvanced v [] [] = Unit
AllAdvanced v (r ∷ rs) (q ∷ qs) = IsAdvanced v r q × AllAdvanced v rs qs
AllAdvanced v _ _ = ⊥

map-AllAdvanced :
    (v : TaskGraphStepPayload) (rows : List PlanStep)
    → AllAdvanced v rows (map (advance_row v) rows)
map-AllAdvanced v [] = tt
map-AllAdvanced v (r ∷ rs) = (advance_row-IsAdvanced v r, map-AllAdvanced v rs)

abbrev step_plan : Option Step → Option PlanPart
step_plan none = none
step_plan (some st) = st.plan

abbrev pub plan_of : String → ReducerState → Option PlanPart
plan_of k s = step_plan (lookup k s.steps)

-- A `task_graph_step` event for a plan that is there keeps the plan's rows in number and order. The
-- rows of other steps stay as they are; a row of the event's step takes the event's status, unless
-- it is done or failed already, which it then stays.
pub on_task_graph_step-AllAdvanced :
    (s : ReducerState) (evt : AgentEvent) (v : TaskGraphStepPayload) (part : PlanPart)
    → IsWellFormed s
    → plan_of (plan_step_id v.task_id) s ≡ some part
    → (new : PlanPart) × (plan_of (plan_step_id v.task_id) (on_task_graph_step s evt v) ≡ some new)
      × AllAdvanced v part.steps new.steps
unfolding on_task_graph_step upsert_step
on_task_graph_step-AllAdvanced s evt v part w h =
    elim (Option-cases (lookup (plan_step_id v.task_id) s.steps)) [
      | inl e ↦ absurd (cc (rw e at h))
      | inr (st, e) ↦
          let planned : st.plan ≡ some part = rw e at h in
          let at_key : st.id ≡ plan_step_id v.task_id = (lookup-IsEntry s _ w e).0 in
          (
            record part { steps = map (advance_row v) part.steps },
            rw (e, planned, on_task_graph_step, lookup-insert, at_key, eq_refl),
            map-AllAdvanced v part.steps,
          )
    ]
