-- ===== src/Sync.antt =====
-- internal/sync: the engines that keep calendars in step.
pub mod Placement
pub mod Scheduler
pub mod SmartBlocks
pub mod Desk
pub mod Event
pub mod Availability
pub mod Filter
pub mod Transform
pub mod Outside
pub mod Engine
pub mod Buffers
pub mod Conflicts
