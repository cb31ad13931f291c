-- ===== src/Client/Laws.antt =====
-- What NewClient of internal/copilot/client.go makes: one way out, and a registry that fits.
use copilot_openai_proxy.Base.{
  ◌≡◌, [], ap, refl, Bool, true, false, not, Option, none, some, arith, ◌&&◌,
}
use mathlib.Core.Path.{subst}
use copilot_openai_proxy.Base.Text.{Text}
use copilot_openai_proxy.Base.Unicode.{Unicode, trim_space, lower}
use copilot_openai_proxy.Errors.{Err, Result, ok, err, is_empty, ◌>>=◌, ◌>>◌, refuse_if, map_err}
use copilot_openai_proxy.ClientConfig.{ClientConfig, normalized}
use copilot_openai_proxy.SessionManager.Semaphore.{Semaphore}
use copilot_openai_proxy.Base.Int.{ℤ}
use copilot_openai_proxy.SessionManager.State.{at_least_one, clamp_warm}
use copilot_openai_proxy.SessionManager.Create.{blank_manager, new_session_manager_with_warm_pool}
use copilot_openai_proxy.SessionManager.Warm.{maybe_refill}
use copilot_openai_proxy.SessionManager.Invariant.{WellFormed}
use copilot_openai_proxy.SessionManager.Invariant.Refill.{new_session_manager-WellFormed}
use copilot_openai_proxy.SessionManager.Table.{size}
use copilot_openai_proxy.Catalog.{new_model_catalog}
use copilot_openai_proxy.Client.{
  ProxyUrl, ProxyFunc, from_environment, fixed_proxy, OutboundProxy, ProxyLibrary, Client,
  socks_proxy, proxy_of_scheme, proxy_of_url, is_http, new_outbound_proxy, dialing_of, wired_client,
  new_client,
}

-- What a client was made from, when it was made.
made_from :
    {A : Type 0} (is_transport : Bool) (f : OutboundProxy → A) (c : A) (w : Err → Err) (e : Err)
    (r : Result OutboundProxy)
    → (map_err w r >>= λ o. refuse_if (not is_transport) e >> ok (f o)) ≡ ok c
    → (o : OutboundProxy) × (r ≡ ok o) × (f o ≡ c)
made_from true f c w e (ok o) h = (o, refl, cc)
made_from false f c w e (ok o) h = ground arith
made_from t f c w e (err e') h = ground arith

-- Either a proxy function, of the environment or of an http or https URL with a host, or the dialer of a
-- SOCKS proxy with a host.
abbrev pub one_way : ⦃u : Unicode⦄ → Option ProxyFunc → Option ProxyUrl → Bool
one_way (some from_environment) none = true
one_way (some (fixed_proxy url)) none = is_http (lower url.scheme) && not (is_empty url.host)
one_way none (some url) = not (is_empty url.host)
one_way _ _ = false

-- A client whose requests and connections go out in one and the same way, with a registry that fits its
-- configuration and nothing in its catalog.
pub record IsWired ⦃u : Unicode⦄ {S : Semaphore} (c : Client S) (cfg : ClientConfig) : Type 0 where
  pub same_way : c.http_transport ≡ c.ws_dialer
  pub exclusive : one_way c.http_transport.proxy c.http_transport.dial ≡ true
  pub configured : c.config ≡ normalized cfg
  pub limit : c.session_mgr.max_sessions ≡ at_least_one (normalized cfg).max_sessions
  pub pool :
      c.session_mgr.warm_sessions
      ≡ clamp_warm (normalized cfg).warm_sessions (at_least_one (normalized cfg).max_sessions)
  pub no_sessions : c.session_mgr.sessions ≡ []
  pub nothing_held : S.held c.session_mgr.capacity ≡ 0
  pub registry : WellFormed 0 c.session_mgr
  pub no_modes : c.model_catalog.modes ≡ []

module _ ⦃u : Unicode⦄ (lib : ProxyLibrary) where
  socks_proxy-one_way :
      (scheme : Text) (parsed : ProxyUrl) (o : OutboundProxy)
      → is_empty parsed.host ≡ false
      → socks_proxy lib scheme parsed ≡ ok o
      → one_way o.proxy_func o.dial_context ≡ true
  unfolding socks_proxy
  socks_proxy-one_way scheme parsed o hosted h = ground arith

  proxy_of_scheme-one_way :
      (parsed : ProxyUrl) (o : OutboundProxy)
      → is_empty parsed.host ≡ false
      → proxy_of_scheme lib parsed ≡ ok o
      → one_way o.proxy_func o.dial_context ≡ true
  unfolding proxy_of_scheme
  proxy_of_scheme-one_way parsed o hosted h =
      ground (arith, socks_proxy-one_way (lower parsed.scheme) parsed o hosted)

  proxy_of_url-one_way :
      (trimmed : Text) (o : OutboundProxy)
      → proxy_of_url lib trimmed ≡ ok o
      → one_way o.proxy_func o.dial_context ≡ true
  unfolding proxy_of_url
  proxy_of_url-one_way trimmed o h = ground (arith, λ (p : ProxyUrl). proxy_of_scheme-one_way p o)

  new_outbound_proxy-one_way :
      (proxy_url : Text) (o : OutboundProxy)
      → new_outbound_proxy lib proxy_url ≡ ok o
      → one_way o.proxy_func o.dial_context ≡ true
  unfolding new_outbound_proxy
  new_outbound_proxy-one_way proxy_url o h =
      ground (arith, proxy_of_url-one_way (trim_space proxy_url) o)

dialing_of-one_way :
    ⦃u : Unicode⦄ (o : OutboundProxy)
    → one_way o.proxy_func o.dial_context ≡ true
    → one_way (dialing_of o).transport.proxy (dialing_of o).transport.dial ≡ true
unfolding dialing_of
dialing_of-one_way o h = ground arith

dialing_of-same : (o : OutboundProxy) → (dialing_of o).transport ≡ (dialing_of o).dialer
unfolding dialing_of
dialing_of-same o = ground arith

new_manager-bounds :
    (S : Semaphore) (max warm : ℤ)
    → let m = new_session_manager_with_warm_pool S max warm in
      (m.max_sessions ≡ at_least_one max)
      × (m.warm_sessions ≡ clamp_warm warm (at_least_one max))
      × (m.sessions ≡ [])
unfolding new_session_manager_with_warm_pool maybe_refill blank_manager
new_manager-bounds S max warm = (ground arith, ground arith, ground arith)

new_manager-held :
    (S : Semaphore) (max warm : ℤ)
    → S.held (new_session_manager_with_warm_pool S max warm).capacity ≡ 0
unfolding size
new_manager-held S max warm =
    let m = new_session_manager_with_warm_pool S max warm in
    let v = new_session_manager-WellFormed S max warm in
    omega (arith, v.accounted, ap size (new_manager-bounds S max warm).2)

wired_client-IsWired :
    ⦃u : Unicode⦄ (S : Semaphore) (lib : ProxyLibrary) (cfg : ClientConfig) (o : OutboundProxy)
    → one_way o.proxy_func o.dial_context ≡ true
    → IsWired (wired_client S lib (normalized cfg) o) cfg
unfolding wired_client new_model_catalog
wired_client-IsWired S lib cfg o h = record {
  same_way = dialing_of-same o;
  exclusive = dialing_of-one_way o h;
  configured = refl;
  limit = (new_manager-bounds S _ _).0;
  pool = (new_manager-bounds S _ _).1;
  no_sessions = (new_manager-bounds S _ _).2;
  nothing_held = new_manager-held S _ _;
  registry = new_session_manager-WellFormed S _ _;
  no_modes = refl;
}

-- Whatever the configuration and the libraries, a client that NewClient makes goes out for requests and
-- for connections in the same way: through a proxy function, which is that of the environment or goes to
-- an http or https URL with a host, or through the dialer of a SOCKS proxy with a host, and never both.
-- It has the normalised configuration; its registry has the bounds of that, and starts well-formed, with
-- no session and no unit of its capacity held; and its catalog has no modes yet.
pub new_client-IsWired :
    ⦃u : Unicode⦄ (S : Semaphore) (lib : ProxyLibrary) (jar : Result (Unit {0}))
    (is_transport : Bool) (cfg : ClientConfig) (c : Client S)
    → new_client S lib jar is_transport cfg ≡ ok c
    → IsWired c cfg
unfolding new_client
new_client-IsWired S lib (err e) is_transport cfg c h = ground arith
new_client-IsWired S lib (ok done) is_transport cfg c h =
    let (o, found, made) =
      made_from is_transport (wired_client S lib (normalized cfg)) c _ _ (new_outbound_proxy lib _)
        h in
    subst (λ c. IsWired c cfg) made
      (wired_client-IsWired S lib cfg o (new_outbound_proxy-one_way lib _ o found))
