-- ===== src/AgentEvents/Tools.antt =====
-- A tool call: its arguments are streamed as text and parsed when the result arrives.
use text.Mathlib.TextLemmas.{nil-append, append-nil, append_assoc}
use apply_agent.Prelude.{
  Host, ℕ, String, ◌<>◌, eq_refl, ◌≡◌, Option, none, some, List, [], ◌∷◌, Option-cases, inl, inr,
  str, is_empty, if◌then◌else◌, Bool-cases,
}
use apply_agent.Prelude.Assoc.{lookup, lookup-insert}
use apply_agent.AgentEvents.Events.{AgentEvent}
use apply_agent.AgentEvents.Steps.{Step, ToolPart}
use apply_agent.AgentEvents.State.{ReducerState, upsert_step, tool_step_id}
use apply_agent.AgentEvents.Handlers.{
  on_tool_start, on_tool_args, on_tool_result, parse_maybe_json, parsed_args,
}
use apply_agent.AgentEvents.Change.Handlers.{on_tool_args-Change, on_tool_start-Change}
use apply_agent.AgentEvents.Invariant.{IsWellFormed, Change-IsWellFormed, lookup-IsEntry}

abbrev step_tool : Option Step → Option ToolPart
step_tool none = none
step_tool (some st) = st.tool

-- The tool part of the step of the call `c`.
abbrev pub tool_of : String → ReducerState → Option ToolPart
tool_of c s = step_tool (lookup (tool_step_id c) s.steps)

-- A stream of argument deltas, each with the event that carries it.
unfoldable pub stream_args : ReducerState → String → List (AgentEvent × String) → ReducerState
stream_args s c [] = s
stream_args s c ((evt, d) ∷ rest) = stream_args (on_tool_args s evt c d) c rest

abbrev pub joined : List (AgentEvent × String) → String
joined [] = ""
joined ((evt, d) ∷ rest) = d <> joined rest

abbrev calling : String → String → ToolPart
calling name args = record { name = name; args = some (str args); result = none }

on_tool_args-tool_of :
    (s : ReducerState) (evt : AgentEvent) (c d name args : String)
    → IsWellFormed s
    → tool_of c s ≡ some (calling name args)
    → tool_of c (on_tool_args s evt c d) ≡ some (calling name (args <> d))
unfolding on_tool_args upsert_step
on_tool_args-tool_of s evt c d name args w h =
    elim (Option-cases (lookup (tool_step_id c) s.steps)) [
      | inl e ↦ absurd (cc (rw e at h))
      | inr (st, e) ↦
          let part : st.tool ≡ some (calling name args) = rw e at h in
          let at_key : st.id ≡ tool_step_id c = (lookup-IsEntry s _ w e).0 in
          rw (e, part, on_tool_args, lookup-insert, at_key, eq_refl)
    ]

stream_args-tool_of :
    (s : ReducerState) (c name args : String) (ds : List (AgentEvent × String))
    → IsWellFormed s
    → tool_of c s ≡ some (calling name args)
    → (tool_of c (stream_args s c ds) ≡ some (calling name (args <> joined ds)))
      × IsWellFormed (stream_args s c ds)
unfolding stream_args
stream_args-tool_of s c name args [] w h = (rw append-nil h, w)
stream_args-tool_of s c name args ((evt, d) ∷ ds) w h = rw (← append_assoc) (
    stream_args-tool_of (on_tool_args s evt c d) c name (args <> d) ds
      (Change-IsWellFormed (on_tool_args-Change (λ id. Unit {0}) s evt c d) w)
      (on_tool_args-tool_of s evt c d name args w h))

on_tool_result-tool_of :
    (host : Host) (now : ℕ) (s : ReducerState) (evt : AgentEvent) (c content name args : String)
    → IsWellFormed s
    → tool_of c s ≡ some (calling name args)
    → tool_of c (on_tool_result host now s evt c content)
      ≡ some (record {
        name = name;
        args = parsed_args host (some (str args));
        result = some (parse_maybe_json host content);
      })
unfolding on_tool_result upsert_step
on_tool_result-tool_of host now s evt c content name args w h =
    elim (Option-cases (lookup (tool_step_id c) s.steps)) [
      | inl e ↦ absurd (cc (rw e at h))
      | inr (st, e) ↦
          let part : st.tool ≡ some (calling name args) = rw e at h in
          let at_key : st.id ≡ tool_step_id c = (lookup-IsEntry s _ w e).0 in
          rw (e, part, on_tool_result, lookup-insert, at_key, eq_refl)
    ]

on_tool_start-tool_of :
    (now : ℕ) (s : ReducerState) (evt : AgentEvent) (c name : String)
    → tool_of c (on_tool_start now s evt c name) ≡ some (calling name "")
unfolding on_tool_start upsert_step
on_tool_start-tool_of now s evt c name = rw (lookup-insert, eq_refl)

-- A tool call that starts, streams its arguments in any number of deltas and gets its result shows
-- the name of the call, its result parsed where that is JSON, and as its arguments the parsed
-- concatenation of the deltas in order; empty arguments are dropped.
pub tool_call_lem :
    (host : Host) (t1 t2 : ℕ) (s : ReducerState) (first last : AgentEvent) (c name content : String)
    (ds : List (AgentEvent × String))
    → IsWellFormed s
    → tool_of c
        (on_tool_result host t2 (stream_args (on_tool_start t1 s first c name) c ds) last c content)
      ≡ some (record {
        name = name;
        args = if is_empty (joined ds) then none else some (parse_maybe_json host (joined ds));
        result = some (parse_maybe_json host content);
      })
tool_call_lem host t1 t2 s first last c name content ds w =
    let started = on_tool_start t1 s first c name in
    let ws : IsWellFormed started =
      Change-IsWellFormed (on_tool_start-Change (λ id. Unit {0}) s t1 first c name tt) w in
    let (streamed, wt) =
      stream_args-tool_of started c name "" ds ws (on_tool_start-tool_of t1 s first c name) in
    let closed =
      on_tool_result-tool_of host t2 (stream_args started c ds) last c content name (joined ds) wt
        (rw nil-append at streamed) in
    elim (Bool-cases (is_empty (joined ds))) [
      | inl e ↦ rw e (rw e at closed)
      | inr e ↦ rw e (rw e at closed)
    ]
