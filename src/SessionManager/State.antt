-- ===== src/SessionManager/State.antt =====
-- internal/copilot/session_manager.go: the statuses, the registry's entries, the manager's state,
-- its constructor, and what closing a session does.
use copilot_openai_proxy.Base.{
  ℕ, Bool, true, false, Option, none, some, List, [], ◌∷◌, ◌++◌, ltb, if◌then◌else◌,
}
use copilot_openai_proxy.Base.Int.{ℤ, pos, negsuc}
use copilot_openai_proxy.Base.Text.{Text, codes}
use copilot_openai_proxy.Base.Decimal.{decimal}
use copilot_openai_proxy.Session.{SessionState, set_connected}
use copilot_openai_proxy.SessionManager.Table.{Table}
use copilot_openai_proxy.SessionManager.Semaphore.{Semaphore}

pub data Status : Type 0 where
  warming idle leased draining closed : Status

abbrev pub is_idle : Status → Bool
is_idle idle = true
is_idle _ = false

-- `session` is nil while the session is being started.
pub record ManagedSession : Type 0 where
  pub session : Option SessionState
  pub status : Status
  pub updated_at : ℕ
  pub holds_capacity : Bool
  pub pooled : Bool

-- What the manager does to the world outside its own fields, in the order in which it does it.
pub data Effect : Type 0 where
  -- `go m.refillLoop()`
  spawn_refill : Effect
  -- closeSession of a session that is not nil: it is marked disconnected and its connection closed
  close_conn : SessionState → Effect

-- `refillCtx.Err() != nil` is `cancelled`; the lock is held over each whole function of a section.
pub record Manager (S : Semaphore) : Type 0 where
  pub sessions : Table ManagedSession
  pub by_age : List Text
  pub max_sessions : ℕ
  pub warm_sessions : ℕ
  pub capacity : S.Weighted
  pub cancelled : Bool
  pub warming_seq : ℕ
  pub refill_running : Bool
  pub refill_requested : Bool
  pub effects : List Effect

-- A lease: the key under which the manager knows it, its session, and whether `once` has run.
pub record Lease : Type 0 where
  pub conversation_id : Text
  pub session : Option SessionState
  pub released : Bool

unfoldable pub new_warming_id : ℕ → Text
new_warming_id seq = codes "warming:" ++ decimal seq

unfoldable pub close_session : Option SessionState → List Effect
close_session none = []
close_session (some session) = close_conn (set_connected false session) ∷ []

unfoldable pub close_sessions : List (Option SessionState) → List Effect
unfolding close_session
close_sessions [] = []
close_sessions (session ∷ rest) = close_session session ++ close_sessions rest

-- `if maxSessions <= 0 { maxSessions = 1 }`
unfoldable pub at_least_one : ℤ → ℕ
at_least_one (pos n) = if ltb 0 n then n else 1
at_least_one (negsuc n) = 1

-- `if warmSessions < 0 { warmSessions = 0 }; if warmSessions > maxSessions { … = maxSessions }`
unfoldable pub clamp_warm : ℤ → ℕ → ℕ
clamp_warm (pos n) max_sessions = if ltb max_sessions n then max_sessions else n
clamp_warm (negsuc n) max_sessions = 0
