-- ===== src/Entry.antt =====
-- cmd/copilot-openai-proxy/main.go: the client that the program makes of its configuration.
pub mod Laws
use copilot_openai_proxy.Base.{
  ℕ, zero, suc, ◌+◌, ◌-◌, ◌*◌, ◌%◌, Bool, Option, if◌then◌else◌, ltb, [],
}
use copilot_openai_proxy.Base.Int.{ℤ, pos, negsuc}
use copilot_openai_proxy.Base.Text.{Text}
use copilot_openai_proxy.Base.Unicode.{Unicode}
use copilot_openai_proxy.Errors.{Result}
use copilot_openai_proxy.Config.{Config, load}
use copilot_openai_proxy.ClientConfig.{ClientConfig}
use copilot_openai_proxy.SessionManager.Semaphore.{Semaphore}
use copilot_openai_proxy.Client.{Client, ProxyLibrary, new_client}

-- The integer that 64 bits stand for.
signed : ℕ → ℤ
signed bits =
    if ltb bits 9223372036854775808 then pos bits else negsuc (18446744073709551615 - bits)

-- An integer cut to 64 bits.
unfoldable pub as_int64 : ℤ → ℤ
unfolding signed
as_int64 (pos n) = signed (n % 18446744073709551616)
as_int64 (negsuc n) = signed (18446744073709551615 - n % 18446744073709551616)

-- As many nanoseconds as so many seconds have.
abbrev pub nanoseconds : ℤ → ℤ
nanoseconds (pos n) = pos (n * 1000000000)
nanoseconds (negsuc n) = negsuc (n * 1000000000 + 999999999)

-- `time.Duration(n) * time.Second`
unfoldable pub seconds : ℤ → ℤ
unfolding as_int64
seconds n = as_int64 (nanoseconds n)

-- The configuration that main gives to NewClient.
unfoldable pub client_config : Config → ClientConfig
unfolding seconds
client_config cfg = record {
  max_sessions = cfg.max_sessions;
  warm_sessions = cfg.warm_sessions;
  session_ttl = seconds cfg.session_ttl;
  cleanup_int = seconds cfg.cleanup_interval;
  conn_timeout = seconds cfg.conn_timeout;
  timeout = seconds cfg.timeout;
  ws_read_timeout = seconds cfg.ws_read_timeout;
  ws_write_timeout = seconds cfg.ws_write_timeout;
  ws_ping_interval = seconds cfg.ws_ping_interval;
  debug = cfg.debug;
  time_zone = cfg.time_zone;
  proxy_url = cfg.proxy_url;
  start_url = cfg.copilot_start_url;
  ws_url = cfg.copilot_ws_url;
  attachments_url = [];
}

-- The first statements of main: the client, or the error that ends the program.
unfoldable pub main_client :
    ⦃u : Unicode⦄ (S : Semaphore)
    → ProxyLibrary
    → Result (Unit {0})
    → Bool
    → (Text → Text)
    → (Text → Option Bool)
    → (Config → Config)
    → Result (Client S)
unfolding client_config load new_client
main_client S lib jar is_transport getenv parse_bool parse =
    new_client S lib jar is_transport (client_config (load getenv parse_bool parse))
