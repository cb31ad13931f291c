-- ===== src/SessionManager/Create.antt =====
-- newSessionManagerWithWarmPool of session_manager.go.
use copilot_openai_proxy.Base.{ℕ, false, []}
use copilot_openai_proxy.Base.Int.{ℤ, pos}
use copilot_openai_proxy.SessionManager.Semaphore.{Semaphore}
use copilot_openai_proxy.SessionManager.State.{Manager, at_least_one, clamp_warm}
use copilot_openai_proxy.SessionManager.Warm.{maybe_refill}

module _ (S : Semaphore) where
  -- The manager before its first refill.
  unfoldable pub blank_manager : ℕ → ℕ → Manager S
  blank_manager max_sessions warm_sessions = record {
    sessions = [];
    by_age = [];
    max_sessions = max_sessions;
    warm_sessions = warm_sessions;
    capacity = S.new_weighted max_sessions;
    cancelled = false;
    warming_seq = 0;
    refill_running = false;
    refill_requested = false;
    effects = [];
  }

  unfoldable pub new_session_manager_with_warm_pool : ℤ → ℤ → Manager S
  unfolding blank_manager
  new_session_manager_with_warm_pool max_sessions warm_sessions =
      let max = at_least_one max_sessions in
      maybe_refill (blank_manager max (clamp_warm warm_sessions max))

  -- newSessionManager: no warm pool
  unfoldable pub new_session_manager : ℤ → Manager S
  unfolding new_session_manager_with_warm_pool
  new_session_manager max_sessions = new_session_manager_with_warm_pool max_sessions (pos 0)
