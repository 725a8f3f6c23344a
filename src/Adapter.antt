-- ===== src/Adapter.antt =====
-- paperclip_adapter/: Agentopia's tasks as issues, approvals and wake-ups of the external Paperclip.
pub mod Comments
pub mod Issues
pub mod HttpClient
pub mod Mapping
pub mod Service
mod Tests
