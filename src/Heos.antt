-- ===== src/Heos.antt =====
-- internal/heos: the protocol client's data and its pure parts.
pub mod Values
pub mod Snapshot
pub mod Numbers
pub mod Events
pub mod Mutations
pub mod Frames
pub mod Writer
pub mod Observer
pub mod Pages
