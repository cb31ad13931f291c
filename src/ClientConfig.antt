-- ===== src/ClientConfig.antt =====
-- internal/copilot/client_config.go: the configuration of a client and what normalized makes of it.
pub mod Laws
use copilot_openai_proxy.Base.{ℕ, ◌-◌, Bool, if◌then◌else◌, ◌++◌, length, [], ◌∷◌, List, zero, suc}
use mathlib.Core.List.{reverse}
use copilot_openai_proxy.Base.Int.{ℤ, pos, negsuc, ltb_ℤ, leb_ℤ}
use copilot_openai_proxy.Base.Text.{Text, codes, has_prefix}
use copilot_openai_proxy.Errors.{is_empty}

abbrev pub default_copilot_start_url : Text
default_copilot_start_url = codes "https://copilot.microsoft.com/c/api/start"

abbrev pub default_copilot_ws_url : Text
default_copilot_ws_url = codes "wss://copilot.microsoft.com/c/api/chat"

abbrev pub default_copilot_attachments_url : Text
default_copilot_attachments_url = codes "https://copilot.microsoft.com/c/api/attachments"

abbrev pub default_time_zone : Text
default_time_zone = codes "Asia/Shanghai"

pub record ClientConfig : Type 0 where
  pub max_sessions : ℤ
  pub warm_sessions : ℤ
  pub session_ttl : ℤ
  pub cleanup_int : ℤ
  pub conn_timeout : ℤ
  pub timeout : ℤ
  pub ws_read_timeout : ℤ
  pub ws_write_timeout : ℤ
  pub ws_ping_interval : ℤ
  pub debug : Bool
  pub time_zone : Text
  pub proxy_url : Text
  pub start_url : Text
  pub ws_url : Text
  pub attachments_url : Text

-- strings.HasSuffix
unfoldable pub has_suffix : Text → Text → Bool
has_suffix s suffix = has_prefix (reverse s) (reverse suffix)

-- The first code points of a text.
unfoldable pub first_codes : ℕ → Text → Text
first_codes zero s = []
first_codes (suc n) [] = []
first_codes (suc n) (c ∷ s) = c ∷ first_codes n s

-- strings.TrimSuffix
unfoldable pub trim_suffix : Text → Text → Text
unfolding has_suffix first_codes
trim_suffix s suffix = if has_suffix s suffix then first_codes (length s - length suffix) s else s

-- attachmentsURLFromStart
unfoldable pub attachments_url_from_start : Text → Text
unfolding has_suffix trim_suffix
attachments_url_from_start start_url =
    if has_suffix start_url (codes "/c/api/start")
    then trim_suffix start_url (codes "/start") ++ codes "/attachments"
    else default_copilot_attachments_url

-- `if cfg.MaxSessions <= 0 { cfg.MaxSessions = 1 }`
unfoldable pub positive_sessions : ℤ → ℤ
positive_sessions max_sessions = if leb_ℤ max_sessions (pos 0) then pos 1 else max_sessions

-- The two tests of cfg.WarmSessions, one after the other.
unfoldable pub bounded_warm : ℤ → ℤ → ℤ
bounded_warm max_sessions warm_sessions =
    let warm = if ltb_ℤ warm_sessions (pos 0) then pos 0 else warm_sessions in
    if ltb_ℤ max_sessions warm then max_sessions else warm

-- `if s == "" { s = fallback }`
unfoldable pub or_default : Text → Text → Text
or_default s fallback = if is_empty s then fallback else s

unfoldable pub normalized : ClientConfig → ClientConfig
unfolding positive_sessions bounded_warm or_default attachments_url_from_start
normalized cfg =
    let max_sessions = positive_sessions cfg.max_sessions in
    let start_url = or_default cfg.start_url default_copilot_start_url in
    record cfg {
      max_sessions = max_sessions;
      warm_sessions = bounded_warm max_sessions cfg.warm_sessions;
      time_zone = or_default cfg.time_zone default_time_zone;
      start_url = start_url;
      ws_url = or_default cfg.ws_url default_copilot_ws_url;
      attachments_url = or_default cfg.attachments_url (attachments_url_from_start start_url);
    }
