-- ===== src/Worker.antt =====
-- internal/worker/worker.go and internal/webhook/google.go: what starts the engines.
pub mod Maintenance
pub mod Queue
pub mod Site
pub mod Sync
pub mod Watch
mod Examples
