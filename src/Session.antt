-- ===== src/Session.antt =====
-- internal/copilot/session.go: the session that a client leases. A session is a value here; the
-- registry holds the one pointer through which the program changes it.
use copilot_openai_proxy.Base.{ℕ, Bool, Option, List}
use copilot_openai_proxy.Base.Text.{Text}
use copilot_openai_proxy.Cookies.{Cookie}

-- A connection is known by a number, `none` for a nil `*websocket.Conn`. Times are counted from an
-- origin, in the unit of time.Duration.
pub record SessionState : Type 0 where
  pub conn : Option ℕ
  pub conversation_id : Text
  pub client_session_id : Text
  pub cookies : List (Option Cookie)
  pub created_at : ℕ
  pub last_used_at : ℕ
  pub connected : Bool

-- `session.setConnected(connected)` on a session that is not nil
unfoldable pub set_connected : Bool → SessionState → SessionState
set_connected connected session = record session { connected = connected }
