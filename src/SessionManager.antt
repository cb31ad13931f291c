-- ===== src/SessionManager.antt =====
-- internal/copilot/session_manager*.go: the registry of pooled upstream sessions.
pub mod Table
pub mod Semaphore
pub mod State
pub mod Warm
pub mod Registry
pub mod Acquire
pub mod Refill
pub mod Shutdown
pub mod Create
pub mod ByAge
pub mod Invariant
pub mod History
pub mod Leases
pub mod Releases
pub mod Evictions
pub mod Cancelled
pub mod Drain
pub mod Termination
