-- ===== src/Hermes/MemoryService.antt =====
-- hermes/memory/: the memory of the tenants, a directory for each below var/hermes/memory, and an
-- external command that searches it.
pub mod Scope
pub mod Config
pub mod Client
pub mod Service
pub mod Outside
pub mod Isolation
pub mod RoundTrip
