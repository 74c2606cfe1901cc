-- ===== src/Journal.antt =====
-- internal/journal: the durable record of operations.
pub mod Types
pub mod Queries
pub mod Store
pub mod Admission
pub mod Recovery
pub mod Held
pub mod Inserted
pub mod Invariant
pub mod Album
pub mod Steps
pub mod Repeat
pub mod Retry
pub mod Stale
pub mod Restart
pub mod Final
pub mod Revision
