-- ===== src/Manager.antt =====
-- internal/cookiejar/manager.go: the jars of all sessions and their storage.
pub mod Storage
pub mod State
pub mod Handles
pub mod Stored
pub mod Worker
pub mod Restart
pub mod Reopened
pub mod Sweep
pub mod Survivors
pub mod Cleanup
pub mod Reach
mod Tests
