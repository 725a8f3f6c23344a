-- ===== src/Hermes.antt =====
-- The execution plane: hermes/*.py.
pub mod Provenance
pub mod Platform
pub mod Redaction
pub mod Policy
pub mod Guards
pub mod Runner
pub mod Files
pub mod RepoOps
pub mod Labels
pub mod Executor
pub mod Station
pub mod Persistence
pub mod Runs
pub mod IssueActions
pub mod Dashboard
pub mod MemoryService
pub mod Postbacks
pub mod Http
pub mod Tests
pub mod Confined
