-- ===== src/Web.antt =====
-- web/src/lib: state and logic of the web client beside the agent's event stream.
pub mod ResumeEdit
pub mod Health
pub mod ApiClient
pub mod ErrorRouter
pub mod Compare
pub mod Vantage
pub mod Dock
