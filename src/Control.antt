-- ===== src/Control.antt =====
-- internal/control: playback policy and execution.
pub mod Errors
pub mod Changes
pub mod Membership
pub mod Transition
pub mod Safety
pub mod Queue
pub mod Command
pub mod Buffer
pub mod Start
pub mod Skip
pub mod Scalar
pub mod Attribution
pub mod Write
pub mod Prewrite
pub mod Attempts
pub mod Outcome
