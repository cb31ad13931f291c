-- ===== src/Examples.antt =====
-- Runs of the theorems on concrete inputs: a manager with room for two sessions and a warm pool of
-- one, a stream, a start that is retried, a challenge, and some requests.
pub mod Sessions
pub mod Sweeps
pub mod Serving
pub mod Gateway
pub mod Starting
pub mod Pumping
pub mod Prompting
