-- ===== src/Paperclip/Service.antt =====
-- paperclip/service.py
pub mod World
pub mod Views
pub mod Payload
pub mod Queue
pub mod Intake
pub mod Results
pub mod Upkeep
pub mod Transitions
pub mod Keeps
pub mod Stable
pub mod Runs
pub mod Timeouts
pub mod Leases
pub mod Attempts
pub mod Retries
pub mod Deletion
pub mod Establishes
pub mod Callbacks
pub mod Durability
pub mod Known
pub mod Resubmit
