-- ===== src/Tests.antt =====
-- Tests: the theorems at concrete inputs, and runs of the definitions.
mod Fixtures
mod Queues
mod Transitions
mod Starts
mod Skips
mod Journals
mod Decoding
mod Attributions
mod Wires
mod Observers
mod Writes
mod Attempts
