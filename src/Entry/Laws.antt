-- ===== src/Entry/Laws.antt =====
-- What cmd/copilot-openai-proxy/main.go hands from the configuration to the client.
use copilot_openai_proxy.Base.{
  ◌≡◌, refl, ap, ◌∙◌, sym, Bool, true, false, Option, List, [], ◌∷◌, map, arith, ltb, leb, ◌&&◌,
}
use copilot_openai_proxy.Base.Int.{ℤ, pos, negsuc}
use copilot_openai_proxy.Base.Text.{Text}
use copilot_openai_proxy.Base.Unicode.{Unicode}
use copilot_openai_proxy.Errors.{Result, ok}
use copilot_openai_proxy.Config.{Config, clamped_warm, flag_defaults, load}
use copilot_openai_proxy.ClientConfig.Laws.{normalized_config}
use copilot_openai_proxy.ClientConfig.{ClientConfig, normalized, positive_sessions, bounded_warm}
use copilot_openai_proxy.SessionManager.Semaphore.{Semaphore}
use copilot_openai_proxy.SessionManager.Invariant.{WellFormed}
use copilot_openai_proxy.Client.{Client, ProxyLibrary}
use copilot_openai_proxy.Client.Laws.{new_client-IsWired}
use copilot_openai_proxy.Entry.{signed, as_int64, nanoseconds, seconds, client_config, main_client}

-- The two clamps of the warm pool agree.
bounded-clamped :
    (max warm : ℤ)
    → bounded_warm (positive_sessions max) (clamped_warm max warm) ≡ clamped_warm max warm
unfolding bounded_warm positive_sessions clamped_warm
bounded-clamped (pos k) (pos n) = ground arith
bounded-clamped (pos k) (negsuc n) = ground arith
bounded-clamped (negsuc k) (pos n) = ground arith
bounded-clamped (negsuc k) (negsuc n) = ground arith

-- A number of seconds whose nanoseconds have 64 bits.
abbrev pub is_short : ℤ → Bool
is_short (pos n) = leb n 9223372036
is_short (negsuc n) = ltb n 9223372036

seconds_exact : (n : ℤ) → is_short n ≡ true → seconds n ≡ nanoseconds n
unfolding seconds as_int64 signed
seconds_exact (pos n) short = ground arith
seconds_exact (negsuc n) short = ground arith

-- The fields that are seconds in a configuration, and durations in that of a client.
abbrev pub seconds_of : Config → List ℤ
seconds_of cfg =
    cfg.session_ttl ∷ cfg.cleanup_interval ∷ cfg.conn_timeout ∷ cfg.timeout ∷ cfg.ws_read_timeout
    ∷ cfg.ws_write_timeout ∷ cfg.ws_ping_interval ∷ []

abbrev pub durations_of : ClientConfig → List ℤ
durations_of cfg =
    cfg.session_ttl ∷ cfg.cleanup_int ∷ cfg.conn_timeout ∷ cfg.timeout ∷ cfg.ws_read_timeout
    ∷ cfg.ws_write_timeout ∷ cfg.ws_ping_interval ∷ []

abbrev pub all_short : List ℤ → Bool
all_short [] = true
all_short (n ∷ ns) = is_short n && all_short ns

both : (a b : Bool) → (a && b) ≡ true → (a ≡ true) × (b ≡ true)
both true b h = (refl, h)
both false b h = ground arith

seconds-exact : (ns : List ℤ) → all_short ns ≡ true → map seconds ns ≡ map nanoseconds ns
seconds-exact [] short = refl
seconds-exact (n ∷ ns) short =
    let (first, rest) = both (is_short n) (all_short ns) short in
    rw (seconds_exact n first, seconds-exact ns rest) refl

-- A client with the registry that the configuration of the program asks for.
pub record IsConfigured {S : Semaphore} (c : Client S) (cfg : Config) : Type 0 where
  pub max_sessions : pos c.session_mgr.max_sessions ≡ positive_sessions cfg.max_sessions
  pub warm_sessions : pos c.session_mgr.warm_sessions ≡ cfg.warm_sessions
  pub registry : WellFormed 0 c.session_mgr

-- Whatever the environment and the flags, when main makes a client of the configuration that Load gives,
-- the client's session manager has the warm pool's size as it is there, and the number of sessions, or
-- one if that is not positive; and it starts well-formed.
pub main_client-IsConfigured :
    ⦃u : Unicode⦄ (S : Semaphore) (lib : ProxyLibrary) (jar : Result (Unit {0}))
    (is_transport : Bool) (getenv : Text → Text) (parse_bool : Text → Option Bool)
    (parse : Config → Config) (c : Client S)
    → main_client S lib jar is_transport getenv parse_bool parse ≡ ok c
    → IsConfigured c (load getenv parse_bool parse)
unfolding main_client client_config normalized load
main_client-IsConfigured S lib jar is_transport getenv parse_bool parse c h =
    let cfg = load getenv parse_bool parse in
    let wired = new_client-IsWired S lib jar is_transport (client_config cfg) c h in
    let flags = parse (flag_defaults getenv parse_bool) in
    let (max, warm, normal, _, same_max, same_warm) = normalized_config (client_config cfg) in
    let warm_kept = bounded-clamped flags.max_sessions flags.warm_sessions in
    record {
      max_sessions = ap pos (wired.limit ∙ same_max) ∙ sym normal.max_is;
      warm_sessions = ap pos (wired.pool ∙ rw same_max same_warm) ∙ sym normal.warm_is ∙ warm_kept;
      registry = wired.registry;
    }

-- When main makes a client of the configuration that Load gives, and none of its seven durations is
-- longer than 9223372036 seconds, positive or negative, then each is that of the client, in nanoseconds
-- and in its place.
pub main_client-durations :
    ⦃u : Unicode⦄ (S : Semaphore) (lib : ProxyLibrary) (jar : Result (Unit {0}))
    (is_transport : Bool) (getenv : Text → Text) (parse_bool : Text → Option Bool)
    (parse : Config → Config) (c : Client S)
    → all_short (seconds_of (load getenv parse_bool parse)) ≡ true
    → main_client S lib jar is_transport getenv parse_bool parse ≡ ok c
    → durations_of c.config ≡ map nanoseconds (seconds_of (load getenv parse_bool parse))
unfolding main_client client_config normalized load
main_client-durations S lib jar is_transport getenv parse_bool parse c short h =
    let cfg = load getenv parse_bool parse in
    let wired = new_client-IsWired S lib jar is_transport (client_config cfg) c h in
    ap durations_of wired.configured ∙ seconds-exact (seconds_of cfg) short
