-- ===== src/Web/Vantage.antt =====
-- store.ts: the store of the web client's views, `useVantage`, by slices. An action that waits for
-- the network is two functions, up to its `await` and from there on; what it sends is output.
pub mod Applications
pub mod Chat
pub mod DemoJobs
pub mod Scripts
pub mod Practice
pub mod Review
pub mod JobList
pub mod Session
mod Tests
pub mod Views
pub mod Onboarding
