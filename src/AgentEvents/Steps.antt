-- ===== src/AgentEvents/Steps.antt =====
-- The step half of schema.ts: what the dock renders.
use apply_agent.Prelude.{ℕ, String, Bool, Option, List, Json, ℤ}
use apply_agent.AgentEvents.Events.{AgentEvent, FileEditHunk, Viewport, ActionKind}

-- `StepKind`, with the `"user"` kind that store.ts adds.
pub data StepKind : Type 0 where
  run plan thinking assistant_text tool file_edit browser hitl narrator artifact user : StepKind

pub data StepStatus : Type 0 where
  queued running review done failed skipped : StepStatus

pub data PlanStatus : Type 0 where
  pending running done review failed : PlanStatus

pub record BrowserSnapshot : Type 0 where
  pub url : String
  pub screenshot_url : String
  pub viewport : Viewport
  pub accessibility_tree : Option Json
  pub ts : ℕ

pub record BrowserAction : Type 0 where
  pub action : ActionKind
  pub target : String
  pub value : Option String
  pub ts : ℕ

pub record PlanStep : Type 0 where
  pub step : String
  pub agent : String
  pub label : String
  pub status : PlanStatus
  pub requires_review : Bool
  pub error_text : Option String

pub record ToolPart : Type 0 where
  pub name : String
  pub args : Option Json
  pub result : Option Json

pub record FilePart : Type 0 where
  pub path : String
  pub language : String
  pub hunks : List FileEditHunk
  pub applied : Bool

pub record BrowserPart : Type 0 where
  pub snapshots : List BrowserSnapshot
  pub actions : List BrowserAction

pub record HitlPart : Type 0 where
  pub interrupt_id : String
  pub reason : String
  pub message : Option String
  pub metadata : Option Json

pub record ArtifactPart : Type 0 where
  pub id : String
  pub snapshot : Json

pub record PlanPart : Type 0 where
  pub task_id : String
  pub user_goal : Option String
  pub steps : List PlanStep

pub record Step : Type 0 where
  pub id : String
  pub run_id : String
  pub parent_step_id : Option String
  pub kind : StepKind
  pub status : StepStatus
  pub title : String
  pub started_at : ℕ
  pub finished_at : Option ℕ
  pub duration_ms : Option ℤ
  pub reasoning_text : Option String
  pub text : Option String
  pub tool : Option ToolPart
  pub file : Option FilePart
  pub browser : Option BrowserPart
  pub hitl : Option HitlPart
  pub artifact : Option ArtifactPart
  pub narrator : Option String
  pub plan : Option PlanPart
  pub events : List AgentEvent
