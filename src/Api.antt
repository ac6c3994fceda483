-- ===== src/Api.antt =====
-- api/src: the Hono gateway's own logic.
pub mod Errors
pub mod Export
pub mod ArtifactProfile
pub mod Pagination
pub mod Redis
pub mod Memory
pub mod RateLimit
pub mod CanonicalBody
pub mod Idempotency
pub mod AppError
pub mod Cache
pub mod Locale
pub mod Operations
pub mod Ownership
pub mod Applications
pub mod ResumeMarkdown
pub mod Jobs
