-- ===== src/AgentEvents/Custom/Cards.antt =====
-- The handlers of custom.ts for artifacts, file edits and the browser. Each updates the step with
-- its id if that is there (`existing`), and a fresh one otherwise.
use apply_agent.Prelude.{
  ℕ, String, ◌<>◌, Bool, true, false, Option, none, some, List, [], ◌∷◌, ◌++◌, Json, null, coalesce,
  ℤ, sub_ℕ, if◌then◌else◌, or_else, get_or_else, nat_beq,
}
use apply_agent.Prelude.Assoc.{lookup}
use apply_agent.AgentEvents.Events.{
  AgentEvent, ArtifactPayload, FileEditPayload, FileEditHunk, BrowserSnapshotPayload,
  BrowserActionPayload, now_ts, extract_relay_meta,
}
use apply_agent.AgentEvents.Steps.{
  Step, StepKind, StepStatus, ArtifactPart, FilePart, BrowserPart, BrowserSnapshot,
}
use apply_agent.AgentEvents.Feed.{append_event}
use apply_agent.AgentEvents.State.{ReducerState, make_step, upsert_step}

-- `existing ? appendEvent(base, evt) : [evt]`
abbrev pub card_events : Option Step → AgentEvent → List AgentEvent
card_events none evt = evt ∷ []
card_events (some step) evt = append_event step evt

-- A step of the kind `kind` with the id `id`, made for this event.
abbrev pub card : ℕ → ReducerState → AgentEvent → String → StepKind → StepStatus → String → Step
card now state evt id kind status title =
    make_step id (extract_relay_meta evt).run_id kind status title (now_ts now evt)
      state.root_step_id

-- `v.artifact_id ?? v.id ?? "artifact"`
abbrev pub artifact_id_of : ArtifactPayload → String
artifact_id_of v = get_or_else v.artifact_id (get_or_else v.id "artifact")

abbrev pub artifact_snapshot : Option ArtifactPart → Option Json
artifact_snapshot none = none
artifact_snapshot (some part) = some part.snapshot

unfoldable pub partial_artifact_step :
    ReducerState → AgentEvent → ArtifactPayload → Option Step → Step → Step
partial_artifact_step state evt v existing base = record base {
  status = StepStatus.running;
  title = or_else (get_or_else v.title "") base.title;
  artifact = some (record {
    id = artifact_id_of v;
    snapshot =
        get_or_else (coalesce v.payload (coalesce v.snapshot (artifact_snapshot base.artifact)))
          null;
  });
  events = card_events existing evt;
}

-- `onPartialArtifact`
unfoldable pub on_partial_artifact : ℕ → ReducerState → AgentEvent → ArtifactPayload → ReducerState
on_partial_artifact now state evt v =
    let id = "artifact:" <> artifact_id_of v in
    let existing = lookup id state.steps in
    let fresh =
      card now state evt id StepKind.artifact StepStatus.running
        (or_else (get_or_else v.title "") "Drafting") in
    upsert_step state (partial_artifact_step state evt v existing (get_or_else existing fresh))

unfoldable pub artifact_step : ℕ → AgentEvent → ArtifactPayload → Option Step → Step → Step
artifact_step now evt v existing base = record base {
  status = StepStatus.done;
  title = or_else (get_or_else v.title "") base.title;
  finished_at = some (now_ts now evt);
  duration_ms = some (sub_ℕ (now_ts now evt) base.started_at);
  artifact = some (record {
    id = artifact_id_of v;
    snapshot = get_or_else (coalesce v.payload (coalesce v.snapshot none)) v.raw;
  });
  events = card_events existing evt;
}

-- `onArtifact`
unfoldable pub on_artifact : ℕ → ReducerState → AgentEvent → ArtifactPayload → ReducerState
on_artifact now state evt v =
    let id = "artifact:" <> artifact_id_of v in
    let existing = lookup id state.steps in
    let fresh =
      card now state evt id StepKind.artifact StepStatus.done
        (or_else (get_or_else v.title "") "Artifact") in
    upsert_step state (artifact_step now evt v existing (get_or_else existing fresh))

abbrev pub file_hunks : Option FilePart → List FileEditHunk
file_hunks none = []
file_hunks (some part) = part.hunks

abbrev pub file_language : Option FilePart → String
file_language none = "text"
file_language (some part) = part.language

abbrev pub file_applied : Option FilePart → Bool
file_applied none = false
file_applied (some part) = part.applied

-- The hunks of a payload: its own, else its before/after pair, else those that the step has.
abbrev pub before_after : Option String → Option String → List FileEditHunk → List FileEditHunk
before_after none none old = old
before_after before after old =
    record { before = get_or_else before ""; after = get_or_else after "" } ∷ []

abbrev pub hunks_of : FileEditPayload → List FileEditHunk → List FileEditHunk
hunks_of v old = elim v.hunks [
  | none ↦ before_after v.before v.after old
  | some hunks ↦ elim hunks [ [] ↦ before_after v.before v.after old | h ∷ hs ↦ h ∷ hs ]
]

-- `finished_at ? finished_at - base.started_at : base.duration_ms`: a time stamp 0 is falsy.
abbrev pub file_duration : Option ℕ → Step → Option ℤ
file_duration none base = base.duration_ms
file_duration (some t) base =
    if nat_beq t 0 then base.duration_ms else some (sub_ℕ t base.started_at)

abbrev pub existing_file : Option Step → Option FilePart
existing_file none = none
existing_file (some step) = step.file

abbrev pub file_status : Bool → StepStatus
file_status is_preview = if is_preview then StepStatus.running else StepStatus.done

unfoldable pub file_edit_step : ℕ → AgentEvent → Bool → FileEditPayload → Option Step → Step → Step
file_edit_step now evt is_preview v existing base =
    let finished_at = if is_preview then none else some (now_ts now evt) in
    record base {
      status = file_status is_preview;
      title = or_else v.path base.title;
      finished_at = finished_at;
      duration_ms = file_duration finished_at base;
      file = some (record {
        path = v.path;
        language = get_or_else v.language (file_language base.file);
        hunks = hunks_of v (file_hunks (existing_file existing));
        applied = get_or_else v.applied (if is_preview then file_applied base.file else true);
      });
      events = card_events existing evt;
    }

-- `onFileEdit`; the key is `meta.step_id ?? v.path`
unfoldable pub on_file_edit : ℕ → ReducerState → AgentEvent → Bool → FileEditPayload → ReducerState
on_file_edit now state evt is_preview v =
    let id = "file:" <> get_or_else (extract_relay_meta evt).step_id v.path in
    let existing = lookup id state.steps in
    let fresh = card now state evt id StepKind.file_edit (file_status is_preview) v.path in
    upsert_step state (file_edit_step now evt is_preview v existing (get_or_else existing fresh))

-- What one browser event adds to the card.
pub data BrowserInput : Type 0 where
  snapshot : BrowserSnapshotPayload → BrowserInput
  action : BrowserActionPayload → BrowserInput

abbrev pub browser_part : Option BrowserPart → BrowserPart
browser_part none = record { snapshots = []; actions = [] }
browser_part (some part) = part

abbrev pub push_browser : ℕ → BrowserInput → BrowserPart → BrowserPart
push_browser ts (snapshot v) part = record part {
  snapshots =
      part.snapshots
      ++ (record {
        url = v.url;
        screenshot_url = get_or_else v.screenshot_url "";
        viewport = get_or_else v.viewport (record { w = 0; h = 0 });
        accessibility_tree = v.accessibility_tree;
        ts = ts;
      }
          ∷ []);
}
push_browser ts (action v) part = record part {
  actions =
      part.actions
      ++ (record { action = v.action; target = v.target; value = v.value; ts = ts } ∷ []);
}

-- The url of the last snapshot, or `title` if there is none.
abbrev pub last_url : String → List BrowserSnapshot → String
last_url title [] = title
last_url title (s ∷ rest) = last_url s.url rest

unfoldable pub browser_step : ℕ → AgentEvent → BrowserInput → Option Step → Step → Step
browser_step now evt input existing base =
    let part = push_browser (now_ts now evt) input (browser_part base.browser) in
    record base {
      title = or_else (last_url base.title part.snapshots) "Browser";
      browser = some part;
      events = card_events existing evt;
    }

-- `onBrowser`
unfoldable pub on_browser : ℕ → ReducerState → AgentEvent → BrowserInput → ReducerState
on_browser now state evt input =
    let id = "browser:" <> get_or_else (extract_relay_meta evt).step_id "current" in
    let existing = lookup id state.steps in
    let fresh = card now state evt id StepKind.browser StepStatus.running "Browser" in
    upsert_step state (browser_step now evt input existing (get_or_else existing fresh))
