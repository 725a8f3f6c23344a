-- ===== src/Paperclip.antt =====
-- The control plane: paperclip/*.py.
pub mod StateMachine
pub mod Db
pub mod Postgres
pub mod Dispatch
pub mod Service
pub mod Http
mod Samples
mod Tests
