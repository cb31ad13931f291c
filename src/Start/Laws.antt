-- ===== src/Start/Laws.antt =====
-- What startAnonOnce of internal/copilot/start.go leaves behind.
use copilot_openai_proxy.Base.{
  ℕ, ◌≡◌, refl, ◌⊎◌, inl, inr, true, false, Option, some, List, [], ◌∷◌, arith, if◌then◌else◌,
}
use copilot_openai_proxy.Base.Text.{Text}
use copilot_openai_proxy.Errors.{Err, ok, err, is_empty, Result-cases}
use copilot_openai_proxy.Cookies.{Cookie, session_cookies_usable}
use copilot_openai_proxy.Outbound.{options, default_set_options, build_web_socket_url}
use copilot_openai_proxy.Connection.{send_event, connected_read_deadline}
use copilot_openai_proxy.Session.{SessionState}
use copilot_openai_proxy.Start.{
  Upstream, Started, StartReply, start_anon_once, dial_url, connect, configure, new_session,
  acquire_anon_cookies, cookies_of_reply, dial_headers,
}
use copilot_openai_proxy.Connection.{wait_for_connected}

-- A session that has been started: its connection is the one that was opened, still open, configured by
-- one message, and the session has a usable cookie and a conversation ID.
pub record Ready (r : Started) (s : SessionState) : Type 0 where
  pub conn : ℕ
  pub opened : r.dialed ≡ conn ∷ []
  pub in_session : s.conn ≡ some conn
  pub open_still : r.closed ≡ []
  pub configured : r.sent ≡ options default_set_options ∷ []
  pub connected : s.connected ≡ true
  pub authenticated : session_cookies_usable s.cookies ≡ true
  pub identified : is_empty s.conversation_id ≡ false

-- A start that succeeded is ready; one that failed has closed what it opened.
pub Tidy : Started → Type 0
Tidy r =
    ((s : SessionState) × (r.outcome ≡ ok s) × Ready r s)
    ⊎ ((e : Err) × (r.outcome ≡ err e) × (r.closed ≡ r.dialed))

module _ {Url : Type 0} (p : Upstream Url) (named : is_empty p.conversation_uuid ≡ false) where
  conversation_named :
      (id : Text) → is_empty (if is_empty id then p.conversation_uuid else id) ≡ false
  conversation_named [] = named
  conversation_named (c ∷ s) = refl

  configure-Tidy :
      (conn : ℕ) (cookies : List (Option Cookie)) (id client : Text)
      → session_cookies_usable cookies ≡ true
      → Tidy (configure p conn (new_session p cookies id client conn))
  unfolding Tidy configure
  configure-Tidy conn cookies id client usable =
      elim (Result-cases (send_event p.marshal (p.write conn) (options default_set_options))) [
        | inl (done, e) ↦
            rw (e, configure)
              (inl (
                new_session p cookies id client conn,
                refl,
                record {
                  conn = conn;
                  opened = refl;
                  in_session = refl;
                  open_still = refl;
                  configured = refl;
                  connected = refl;
                  authenticated = usable;
                  identified = conversation_named id;
                },
              ))
        | inr (e, at) ↦ rw (at, configure) (inr (_, refl, refl))
      ]

  connect-Tidy :
      (cookies : List (Option Cookie)) (id : Text) (at : Text × Text)
      → session_cookies_usable cookies ≡ true
      → Tidy (connect p cookies id at)
  unfolding Tidy connect
  connect-Tidy cookies id (ws_url, client) usable =
      elim (Result-cases (p.dial ws_url (dial_headers p cookies))) [
        | inr (e, at) ↦ rw (at, connect) (inr (_, refl, refl))
        | inl (conn, at) ↦
            elim (Result-cases (
              wait_for_connected
                (p.reads conn (connected_read_deadline p.timeout p.now p.ctx_deadline)))) [
                  | inr (e, failed) ↦ rw (at, connect, failed) (inr (_, refl, refl))
                  | inl (done, ready) ↦
                      rw (at, connect, ready) (configure-Tidy conn cookies id client usable)
                ]
      ]

  dial_url-Tidy :
      (cookies : List (Option Cookie)) (id : Text)
      → session_cookies_usable cookies ≡ true
      → Tidy (dial_url p (cookies, id))
  unfolding Tidy dial_url
  dial_url-Tidy cookies id usable =
      elim (Result-cases
        (build_web_socket_url p.parse p.set_query p.print p.session_uuid p.ws_url)) [
          | inr (e, at) ↦ rw (at, dial_url) (inr (_, refl, refl))
          | inl (found, at) ↦ rw (at, dial_url) (connect-Tidy cookies id found usable)
        ]

  cookies_of_reply-usable :
      (reply : StartReply) (acquired : List (Option Cookie) × Text)
      → cookies_of_reply p reply ≡ ok acquired
      → session_cookies_usable acquired.0 ≡ true
  unfolding cookies_of_reply session_cookies_usable
  cookies_of_reply-usable reply acquired h = ground arith

  acquire_anon_cookies-usable :
      (acquired : List (Option Cookie) × Text)
      → acquire_anon_cookies p ≡ ok acquired
      → session_cookies_usable acquired.0 ≡ true
  unfolding acquire_anon_cookies
  acquire_anon_cookies-usable acquired h = grind (arith, cookies_of_reply-usable)

  -- When a fresh UUID is not empty, a start either succeeds, with a session that is connected by the
  -- one connection that it opened, which is open and has been sent the options and nothing else, and
  -- that has a conversation ID and a usable anonymous cookie; or it fails, and has closed every
  -- connection that it opened.
  pub start_anon_once-Tidy : Tidy (start_anon_once p)
  unfolding Tidy start_anon_once
  start_anon_once-Tidy = elim (Result-cases (acquire_anon_cookies p)) [
    | inr (e, at) ↦ rw (at, start_anon_once) (inr (_, refl, refl))
    | inl (acquired, at) ↦
        rw (at, start_anon_once)
          (dial_url-Tidy acquired.0 acquired.1 (acquire_anon_cookies-usable acquired at))
  ]
