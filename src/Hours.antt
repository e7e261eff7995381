-- ===== src/Hours.antt =====
-- internal/hours: time windows, and where work fits between them.
pub mod Window
pub mod Merge
pub mod Subtract
pub mod Slots
pub mod Chunks
pub mod Ranges
pub mod Expand
pub mod Stored
mod Examples
