-- ===== src/Config.antt =====
-- internal/config/config.go: the configuration from flags and the environment. os.Getenv,
-- strconv.ParseBool and flag.Parse are parameters.
pub mod Laws
use copilot_openai_proxy.Base.{
  ℕ, Bool, true, false, Option, none, some, [], ◌∷◌, ◌++◌, if◌then◌else◌,
}
use copilot_openai_proxy.Base.Int.{ℤ, pos, negsuc, ltb_ℤ}
use copilot_openai_proxy.Base.Decimal.{atoi}
use copilot_openai_proxy.Base.Text.{Text, codes}
use copilot_openai_proxy.Errors.{is_empty}

-- The field `port` is the variable that Load merges into the address.
pub record Config : Type 0 where
  pub addr : Text
  pub port : Text
  pub api_key : Text
  pub max_sessions : ℤ
  pub warm_sessions : ℤ
  pub session_ttl : ℤ
  pub cleanup_interval : ℤ
  pub conn_timeout : ℤ
  pub timeout : ℤ
  pub ws_read_timeout : ℤ
  pub ws_write_timeout : ℤ
  pub ws_ping_interval : ℤ
  pub debug : Bool
  pub time_zone : Text
  pub proxy_url : Text
  pub copilot_start_url : Text
  pub copilot_ws_url : Text

-- `if cfg.WarmSessions > cfg.MaxSessions { … }; if cfg.WarmSessions < 0 { … }`
unfoldable pub clamped_warm : ℤ → ℤ → ℤ
clamped_warm max_sessions warm_sessions =
    let warm = if ltb_ℤ max_sessions warm_sessions then max_sessions else warm_sessions in
    if ltb_ℤ warm (pos 0) then pos 0 else warm

-- The value of a variable, empty if it is not set.
module _ (getenv : Text → Text) (parse_bool : Text → Option Bool) where
  unfoldable pub env_or : Text → Text → Text
  env_or key fallback = if is_empty (getenv key) then fallback else getenv key

  unfoldable pub env_or_int : Text → ℤ → ℤ
  env_or_int key fallback =
      if is_empty (getenv key)
      then fallback
      else elim (atoi (getenv key)) [ none ↦ fallback | some parsed ↦ parsed ]

  unfoldable pub env_or_bool : Text → Bool → Bool
  env_or_bool key fallback =
      if is_empty (getenv key)
      then fallback
      else elim (parse_bool (getenv key)) [ none ↦ fallback | some parsed ↦ parsed ]

  -- The configuration before flag.Parse: each flag has its default.
  unfoldable pub flag_defaults : Config
  unfolding env_or env_or_int env_or_bool
  flag_defaults = record {
    addr = env_or (codes "HOST") (codes "127.0.0.1");
    port = env_or (codes "PORT") (codes "8080");
    api_key = env_or (codes "API_KEY") [];
    max_sessions = env_or_int (codes "MAX_SESSIONS") (pos 1000);
    warm_sessions = env_or_int (codes "WARM_SESSIONS") (pos 4);
    session_ttl = env_or_int (codes "SESSION_TTL") (pos 1800);
    cleanup_interval = env_or_int (codes "CLEANUP_INTERVAL") (pos 300);
    conn_timeout = env_or_int (codes "CONN_TIMEOUT") (pos 20);
    timeout = env_or_int (codes "TIMEOUT") (pos 120);
    ws_read_timeout = env_or_int (codes "WS_READ_TIMEOUT") (pos 60);
    ws_write_timeout = env_or_int (codes "WS_WRITE_TIMEOUT") (pos 10);
    ws_ping_interval = env_or_int (codes "WS_PING_INTERVAL") (pos 25);
    debug = env_or_bool (codes "DEBUG") false;
    time_zone = env_or (codes "TIMEZONE") (codes "Asia/Shanghai");
    proxy_url = env_or (codes "PROXY_URL") [];
    copilot_start_url = env_or (codes "COPILOT_START_URL") [];
    copilot_ws_url = env_or (codes "COPILOT_WS_URL") [];
  }

  -- Load, where flag.Parse makes the flags' values of their defaults.
  unfoldable pub load : (Config → Config) → Config
  unfolding flag_defaults clamped_warm
  load parse =
      let cfg = parse flag_defaults in
      record cfg {
        warm_sessions = clamped_warm cfg.max_sessions cfg.warm_sessions;
        addr = cfg.addr ++ (codes ":" ++ cfg.port);
      }
