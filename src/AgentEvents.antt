-- ===== src/AgentEvents.antt =====
-- web/src/lib/agent-events: the fold of the agent's event stream into the dock's steps.
pub mod Events
pub mod Steps
pub mod Feed
pub mod State
pub mod Handlers
pub mod Custom
pub mod Reducer
pub mod Change
pub mod Invariant
pub mod Timeline
pub mod Streaming
pub mod Runs
pub mod Cards
pub mod Tools
pub mod Consumer
pub mod Store
mod Tests
