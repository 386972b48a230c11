-- ===== src/LoopGuard.antt =====
-- internal/loopguard.go: the guard against requests that come back to this proxy.
pub mod Address
pub mod Guard
pub mod Bounded
pub mod Detects
pub mod Hops
mod Tests
