-- ===== src/SessionManager/Warm.antt =====
-- session_manager_refill.go: when the warm pool wants a session, and maybeRefill.
use copilot_openai_proxy.Base.{
  Bool, true, false, not, ◌&&◌, ◌||◌, [], ◌∷◌, ◌++◌, ltb, leb, if◌then◌else◌,
}
use copilot_openai_proxy.SessionManager.Table.{count, size}
use copilot_openai_proxy.SessionManager.Semaphore.{Semaphore}
use copilot_openai_proxy.SessionManager.State.{
  Status, warming, idle, ManagedSession, Manager, spawn_refill,
}

abbrev pub is_warm : Status → Bool
is_warm warming = true
is_warm idle = true
is_warm _ = false

-- The entries that needsWarmIdleLocked counts.
abbrev pub is_pooled : ManagedSession → Bool
is_pooled entry = entry.pooled && is_warm entry.status

module _ {S : Semaphore} where
  -- needsWarmIdleLocked
  unfoldable pub needs_warm_idle : Manager S → Bool
  needs_warm_idle m =
      if m.cancelled || (leb m.warm_sessions 0 || leb m.max_sessions (size m.sessions))
      then false
      else ltb (count is_pooled m.sessions) m.warm_sessions

  unfoldable pub maybe_refill : Manager S → Manager S
  maybe_refill m =
      if m.cancelled || not (needs_warm_idle m)
      then m
      else if m.refill_running
      then record m { refill_requested = true }
      else record m { refill_running = true; effects = m.effects ++ spawn_refill ∷ [] }
