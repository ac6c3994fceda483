-- ===== src/AgentEvents/Events.antt =====
-- The event half of schema.ts (`AgentEvent`), the payloads of custom.ts, and relay-meta.ts.
-- Payloads that custom.ts casts from `unknown` are taken to have the declared shape. A field that
-- may be missing or null is an `Option`.
use apply_agent.Prelude.{
  ℕ, String, Bool, Option, none, some, List, Json, ◌==◌, ℤ, sub_ℕ, pos, if◌then◌else◌,
}

pub record RelayMeta : Type 0 where
  pub id : String
  pub seq : ℕ
  pub trace_id : String
  pub run_id : String
  pub thread_id : String
  pub protocol_version : String
  pub step_id : Option String
  pub parent_step_id : Option String

abbrev pub empty_meta : RelayMeta
empty_meta = record {
  id = "";
  seq = 0;
  trace_id = "";
  run_id = "";
  thread_id = "";
  protocol_version = "";
  step_id = none;
  parent_step_id = none;
}

pub record InterruptPayload : Type 0 where
  pub id : String
  pub reason : String
  pub message : Option String
  pub tool_call_id : Option String
  pub response_schema : Option Json
  pub expires_at : Option String
  pub metadata : Option Json

pub data RunFinishedOutcome : Type 0 where
  success : RunFinishedOutcome
  interrupt : List InterruptPayload → RunFinishedOutcome

-- `number | string`
pub data StepRef : Type 0 where
  number : ℕ → StepRef
  text : String → StepRef

pub record PlanRow : Type 0 where
  pub step : StepRef
  pub agent : Option String
  pub label : Option String
  pub status : Option String
  pub requires_review : Bool

pub record TaskGraphPayload : Type 0 where
  pub task_id : Option String
  pub user_goal : Option String
  pub plan : Option (List PlanRow)

pub record TaskGraphStepPayload : Type 0 where
  pub task_id : Option String
  pub step : StepRef
  pub status : Option String
  pub error : Option String

pub record AgentPayload : Type 0 where
  pub agent : Option String
  pub label : Option String
  pub status_text : Option String

-- `truncated` is the `_truncated` field that `truncationSentinel` writes.
pub record NarratorPayload : Type 0 where
  pub text : Option String
  pub truncated : Option ℕ

-- `raw` is the payload object itself, which `onArtifact` stores when it has no better snapshot.
pub record ArtifactPayload : Type 0 where
  pub id : Option String
  pub artifact_id : Option String
  pub title : Option String
  pub snapshot : Option Json
  pub payload : Option Json
  pub raw : Json

pub record FileEditHunk : Type 0 where
  pub before : String
  pub after : String

pub record FileEditPayload : Type 0 where
  pub path : String
  pub language : Option String
  pub hunks : Option (List FileEditHunk)
  pub before : Option String
  pub after : Option String
  pub applied : Option Bool

pub record Viewport : Type 0 where
  pub w : ℕ
  pub h : ℕ

pub record BrowserSnapshotPayload : Type 0 where
  pub url : String
  pub screenshot_url : Option String
  pub viewport : Option Viewport
  pub accessibility_tree : Option Json

pub data ActionKind : Type 0 where
  click fill navigate : ActionKind

pub record BrowserActionPayload : Type 0 where
  pub action : ActionKind
  pub target : String
  pub value : Option String

-- One constructor for each `RelayCustomName`; `unknown` is any other name.
pub data Custom : Type 0 where
  task_graph : TaskGraphPayload → Custom
  task_graph_step : TaskGraphStepPayload → Custom
  agent_start : AgentPayload → Custom
  agent_done : AgentPayload → Custom
  agents_group : Json → Custom
  narrator : NarratorPayload → Custom
  partial_artifact : ArtifactPayload → Custom
  artifact : ArtifactPayload → Custom
  hitl_prep : Json → Custom
  file_edit : FileEditPayload → Custom
  file_edit_preview : FileEditPayload → Custom
  browser_snapshot : BrowserSnapshotPayload → Custom
  browser_action : BrowserActionPayload → Custom
  unknown : String → Json → Custom

-- The `type` of an event with the fields of that type. `other` stands for the types that the
-- reducer has no case for.
pub data EventBody : Type 0 where
  run_started : (thread_id run_id : String) → EventBody
  run_finished : (thread_id run_id : String) → Option RunFinishedOutcome → EventBody
  run_error : (message : String) → (error_code : Option String) → EventBody
  text_start : (message_id : String) → EventBody
  text_content : (message_id delta : String) → EventBody
  text_end : (message_id : String) → EventBody
  reasoning_start : (message_id : String) → EventBody
  reasoning_content : (message_id delta : String) → EventBody
  reasoning_end : (message_id : String) → EventBody
  tool_start : (tool_call_id tool_call_name : String) → EventBody
  tool_args : (tool_call_id delta : String) → EventBody
  tool_end : (tool_call_id : String) → EventBody
  tool_result : (tool_call_id message_id content : String) → EventBody
  state_snapshot : Json → EventBody
  state_delta : Json → EventBody
  custom : Custom → EventBody
  other : (event_type : String) → EventBody

pub record AgentEvent : Type 0 where
  pub body : EventBody
  pub timestamp : Option ℕ
  pub raw_event : Option RelayMeta

-- `extractRelayMeta`
unfoldable pub extract_relay_meta : AgentEvent → RelayMeta
extract_relay_meta evt = elim evt.raw_event [ none ↦ empty_meta | some raw ↦ raw ]

-- `compareBySeq`; the sign of the difference orders two events of one run.
unfoldable pub compare_by_seq : RelayMeta → RelayMeta → ℤ
compare_by_seq a b = if a.run_id == b.run_id then sub_ℕ a.seq b.seq else pos 0

-- `nowTs`: the event's time stamp, or the clock's reading `now` (`Date.now()`).
unfoldable pub now_ts : ℕ → AgentEvent → ℕ
now_ts now evt = elim evt.timestamp [ none ↦ now | some t ↦ t ]
