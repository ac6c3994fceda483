-- ===== src/AgentEvents/Change.antt =====
-- An abstract view of the reducer: whatever the event, the new state comes from the old one by
-- writing steps one at a time. A write makes a step under an id that satisfies `Q`, or replaces a step
-- that is there by one with the same id: a refresh keeps its kind, its text and its start too, and
-- any other replacement is of a step whose key satisfies `Q`.
pub mod Handlers
pub mod Cards
pub mod Ids
pub mod Events
use apply_agent.Prelude.{ℕ, String, ◌≤◌, ◌≡◌, Option, some, length}
use apply_agent.Prelude.Assoc.{lookup}
use apply_agent.AgentEvents.Steps.{Step}
use apply_agent.AgentEvents.State.{ReducerState, upsert_step}

pub record Refreshes (old st : Step) : Type 0 where
  pub same_id : st.id ≡ old.id
  pub same_kind : st.kind ≡ old.kind
  pub same_text : st.text ≡ old.text
  pub same_start : st.started_at ≡ old.started_at

pub data Write (Q : String → Type 0) (s : ReducerState) (st : Step) : Type 0 where
  create : Q st.id → Write Q s st
  extend :
      (k : String) (old : Step) → lookup k s.steps ≡ some old → st.id ≡ old.id → Q k → Write Q s st
  refresh :
      (k : String) (old : Step) → lookup k s.steps ≡ some old → Refreshes old st → Write Q s st

pub data Change (Q : String → Type 0) : ReducerState → ReducerState → Type 0 where
  same : (s : ReducerState) → Change Q s s
  put :
      (s : ReducerState) (st : Step)
      → length st.events ≤ 200
      → Write Q s st
      → Change Q s (upsert_step s st)
  start :
      (s : ReducerState) (st : Step)
      → length st.events ≤ 200
      → Q st.id
      → Change Q s (record (upsert_step (record s { root_step_id = some st.id }) st) {
        root_step_id = some st.id;
      })
  after : {s t u : ReducerState} → Change Q s t → Change Q t u → Change Q s u
