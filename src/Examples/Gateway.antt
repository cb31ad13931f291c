-- ===== src/Examples/Gateway.antt =====
-- The theorems on configurations, API keys, cookies and the handlers of requests.
use copilot_openai_proxy.Base.{
  ℕ, ◌≡◌, refl, ◌↔◌, ◌⊎◌, true, false, ◌||◌, Option, none, some, List, map, [], ◌∷◌, any,
  if◌then◌else◌,
}
use copilot_openai_proxy.Base.Int.{pos, negsuc}
use copilot_openai_proxy.Base.Text.{Text, codes, text_eq}
use copilot_openai_proxy.Base.Unicode.{ascii_tables, trim_space, lower}
use copilot_openai_proxy.Errors.{ok, err, plain}
use copilot_openai_proxy.SessionManager.State.{at_least_one, clamp_warm}
use copilot_openai_proxy.Config.{Config, load}
use copilot_openai_proxy.Entry.{nanoseconds, client_config, main_client}
use copilot_openai_proxy.Entry.Laws.{
  IsConfigured, main_client-IsConfigured, seconds_of, durations_of, main_client-durations,
}
use copilot_openai_proxy.SessionManager.Semaphore.{counting}
use copilot_openai_proxy.Client.{
  from_environment, ProxyUrl, ProxyLibrary, Client, wired_client, new_client,
}
use copilot_openai_proxy.Client.Laws.{IsWired, new_client-IsWired}
use copilot_openai_proxy.ClientConfig.{ClientConfig, normalized}
use copilot_openai_proxy.ClientConfig.Laws.{IsNormal, normalized_config}
use copilot_openai_proxy.Auth.{next_serves, new_handler}
use copilot_openai_proxy.Auth.Laws.{Presents, new_handler-passes}
use copilot_openai_proxy.Cookies.{
  Cookie, cookie_anon, matches, session_cookies_usable, cookies_with_jar_fallback,
}
use copilot_openai_proxy.Cookies.Laws.{jar_cookies, cookies_with_jar_fallback-usable}
use copilot_openai_proxy.Images.{Json, Library}
use copilot_openai_proxy.Requests.{ChatCompletionRequest, chat_completions}
use copilot_openai_proxy.Requests.Laws.{Sendable, chat_completions-Sendable}

-- MAX_SESSIONS is 2 and every other variable is not set, so the default of 4 warm sessions is clamped.
abbrev two_sessions : Text → Text
two_sessions key = if text_eq key (codes "MAX_SESSIONS") then codes "2" else []

abbrev bare_config : ClientConfig
bare_config = record {
  max_sessions = negsuc 4;
  warm_sessions = pos 9;
  session_ttl = pos 0;
  cleanup_int = pos 0;
  conn_timeout = pos 0;
  timeout = pos 0;
  ws_read_timeout = pos 0;
  ws_write_timeout = pos 0;
  ws_ping_interval = pos 0;
  debug = false;
  time_zone = [];
  proxy_url = [];
  start_url = codes "http://h/c/api/start";
  ws_url = [];
  attachments_url = [];
}

normalized_config_example :
    (max : ℕ) × (warm : ℕ) × IsNormal (normalized bare_config) max warm
    × (normalized (normalized bare_config) ≡ normalized bare_config)
    × (at_least_one (normalized bare_config).max_sessions ≡ max)
    × (clamp_warm (normalized bare_config).warm_sessions max ≡ warm)
normalized_config_example = normalized_config bare_config

abbrev chat_path : Text
chat_path = codes "/v1/chat/completions"

new_handler-passes_example :
    (new_handler ⦃u = ascii_tables⦄ (codes "k") chat_path (codes "bEARER k") ≡ next_serves) ↔ (
      (codes "k" ≡ [])
      ⊎ ((chat_path ≡ codes "/healthz")
          ⊎ Presents ⦃u = ascii_tables⦄ (codes "k") (codes "bEARER k")))
new_handler-passes_example =
    new_handler-passes ⦃u = ascii_tables⦄ (codes "k") chat_path (codes "bEARER k")

abbrev anon_cookies : List (Option Cookie)
anon_cookies = none ∷ some (record { name = cookie_anon; value = codes "v" }) ∷ []

cookies_with_jar_fallback-usable_example :
    let cookies =
      cookies_with_jar_fallback some (some (λ (url : Text). anon_cookies)) (codes "http://h") [] in
    let stored = jar_cookies some (some (λ (url : Text). anon_cookies)) (codes "http://h") in
    (cookies ≡ (
      if any (matches cookie_anon) []
      then []
      else if any (matches cookie_anon) stored
      then stored
      else []))
    × (session_cookies_usable cookies
        ≡ any (matches cookie_anon) [] || any (matches cookie_anon) stored)
cookies_with_jar_fallback-usable_example =
    cookies_with_jar_fallback-usable some (some (λ (url : Text). anon_cookies)) (codes "http://h")
      []

abbrev print_library : Library
print_library = record {
  print_value = λ v. codes "v";
  quote = λ t. t;
  decode_padded = λ t. err (plain (codes "illegal base64 data"));
  decode_raw = λ t. ok (1 ∷ []);
}

abbrev a_request : ChatCompletionRequest
a_request = record {
  model = codes " Smart ";
  messages = record { role = codes "user"; content = Json.str (codes "hello") } ∷ [];
  stream = true;
  tools = none;
  tool_choice = none;
  function_call = none;
}

chat_completions-Sendable_example :
    Sendable ⦃u = ascii_tables⦄ print_library (codes "POST") (ok a_request) (
      chat_completions ⦃u = ascii_tables⦄ print_library
        (λ (body : Text). ok a_request)
        (codes "POST")
        (ok (codes "{}")))
chat_completions-Sendable_example =
    chat_completions-Sendable ⦃u = ascii_tables⦄ print_library (λ (body : Text). ok a_request)
      (codes "POST") (ok (codes "{}"))

-- Every URL is one of a SOCKS proxy on a host.
abbrev a_proxy : ProxyUrl
a_proxy = record { scheme = codes "socks"; host = codes "h:1080"; rest = [] }

abbrev proxies : ProxyLibrary
proxies = record {
  parse = λ t. ok a_proxy;
  quote = λ t. t;
  from_url = λ url. ok true;
  transport_type = [];
  parse_start = λ t. none;
}

abbrev proxied_config : ClientConfig
proxied_config = record bare_config { proxy_url = codes "socks://h:1080" }

abbrev proxied_client : Client counting
proxied_client =
    wired_client ⦃u = ascii_tables⦄ counting proxies (normalized proxied_config) (record {
      proxy_func = none;
      dial_context = some (record a_proxy { scheme = codes "socks5" });
      scheme = codes "socks5";
    })

new_client-IsWired_example : IsWired ⦃u = ascii_tables⦄ proxied_client proxied_config
unfolding new_client normalized text_eq trim_space lower
new_client-IsWired_example =
    new_client-IsWired ⦃u = ascii_tables⦄ counting proxies (ok tt) true proxied_config
      proxied_client refl

abbrev two_session_config : Config
two_session_config = load two_sessions (λ s. none) (λ c. c)

abbrev two_session_client : Client counting
two_session_client =
    wired_client ⦃u = ascii_tables⦄ counting proxies (normalized (client_config two_session_config))
      (record { proxy_func = some from_environment; dial_context = none; scheme = [] })

main_client-IsConfigured_example : IsConfigured two_session_client two_session_config
unfolding main_client client_config load new_client text_eq trim_space
main_client-IsConfigured_example =
    main_client-IsConfigured ⦃u = ascii_tables⦄ counting proxies (ok tt) true two_sessions
      (λ s. none) (λ c. c) two_session_client refl

main_client-durations_example :
    durations_of two_session_client.config ≡ map nanoseconds (seconds_of two_session_config)
unfolding main_client client_config load new_client text_eq trim_space
main_client-durations_example =
    main_client-durations ⦃u = ascii_tables⦄ counting proxies (ok tt) true two_sessions (λ s. none)
      (λ c. c) two_session_client refl refl
