-- ===== src/Start/Healthy.antt =====
-- An upstream that works, and the session that startAnonOnce of internal/copilot/start.go makes of it.
use copilot_openai_proxy.Base.{
  ℕ, ◌≡◌, refl, ◌∙◌, ap, true, false, ◌||◌, Option, none, some, Option-cases, inl, inr, List, ◌∷◌,
  arith,
}
use mathlib.Core.Bool.{false≢true}
use copilot_openai_proxy.Base.Text.{Text, codes, text_eq}
use copilot_openai_proxy.Errors.{Result, ok}
use copilot_openai_proxy.Protocol.{ServerEnvelope}
use copilot_openai_proxy.Cookies.{
  Cookie, cookies_with_jar_fallback, session_cookies_usable, find_cookie, cookie_anon,
}
use copilot_openai_proxy.Outbound.{options, default_set_options, build_web_socket_url}
use copilot_openai_proxy.Connection.{send_event}
use copilot_openai_proxy.Session.{SessionState}
use copilot_openai_proxy.Start.{
  Upstream, StartReply, start_request_body, start_request, start_anon_once, dial_url, connect,
  configure, new_session, acquire_anon_cookies, cookies_of_reply, dial_headers,
}
use copilot_openai_proxy.Connection.{wait_for_connected, await_frames}

-- The frames up to the one that says that the connection is ready, with no error among them.
pub data Greets : List (Option ServerEnvelope) → Type 0 where
  now :
      (env : ServerEnvelope) (frames : List (Option ServerEnvelope))
      → (text_eq env.event (codes "connected") || text_eq env.event (codes "ready")) ≡ true
      → Greets (some env ∷ frames)
  unread : (frames : List (Option ServerEnvelope)) → Greets frames → Greets (none ∷ frames)
  later :
      (env : ServerEnvelope) (frames : List (Option ServerEnvelope))
      → text_eq env.event (codes "error") ≡ false
      → Greets frames
      → Greets (some env ∷ frames)

await_frames-Greets :
    (last : Result (Unit {0})) {frames : List (Option ServerEnvelope)}
    → Greets frames
    → await_frames last frames ≡ ok tt
unfolding await_frames
await_frames-Greets last (now env frames h) = rw h refl
await_frames-Greets last (unread frames g) = await_frames-Greets last g
await_frames-Greets last (later env frames h g) =
    let ih = await_frames-Greets last g in ground arith

jar_not_asked :
    {Url : Type 0} (parse : Text → Option Url) (jar : Option (Url → List (Option Cookie)))
    (url : Text) (cookies : List (Option Cookie))
    → session_cookies_usable cookies ≡ true
    → cookies_with_jar_fallback parse jar url cookies ≡ cookies
unfolding cookies_with_jar_fallback
jar_not_asked parse none url cookies h = refl
jar_not_asked parse (some jar) url cookies h = rw h refl

usable-find :
    (cookies : List (Option Cookie))
    → session_cookies_usable cookies ≡ true
    → (ck : Cookie) × (find_cookie cookies cookie_anon ≡ some ck)
unfolding session_cookies_usable
usable-find cookies h = elim (Option-cases (find_cookie cookies cookie_anon)) [
  | inl e ↦ absurd (false≢true (rw (e, session_cookies_usable) at h))
  | inr found ↦ found
]

module _ {Url : Type 0} (p : Upstream Url) where
  -- The request for cookies can be made, and this is the answer.
  pub record Asked (answer : Result StartReply) : Type 0 where
    pub content : Text
    pub encoded : p.marshal_body (start_request_body p.time_zone) ≡ ok content
    pub made : p.new_request ≡ ok tt
    pub answered : p.http_do (start_request p content) ≡ answer

  -- An upstream that works: the response has status 200, does not report a blocked user and brings a
  -- usable cookie; the URL is parsed, every dial succeeds, the connection greets and can be written to.
  pub record Healthy : Type 0 where
    pub reply : StartReply
    pub asked : Asked (ok reply)
    pub body : Text
    pub answer_read : reply.response.body ≡ ok body
    pub status_ok : reply.response.status_code ≡ 200
    pub conversation_id : Text
    pub decoded :
        p.unmarshal body
        ≡ ok (record { current_conversation_id = conversation_id; is_blocked = false })
    pub usable : session_cookies_usable reply.cookies ≡ true
    pub url : Url
    pub parsed : p.parse p.ws_url ≡ ok url
    pub conn : ℕ
    pub dialed : (at : Text) (h : List (Text × Text)) → p.dial at h ≡ ok conn
    pub greeted : (deadline : Option ℕ) → Greets (p.reads conn deadline).frames
    pub message : Text
    pub marshalled : p.marshal (options default_set_options) ≡ ok message
    pub written : p.write conn message ≡ ok tt

  cookies_of_healthy :
      (h : Healthy) → cookies_of_reply p h.reply ≡ ok (h.reply.cookies, h.conversation_id)
  unfolding cookies_of_reply
  cookies_of_healthy h =
      let (ck, found) = usable-find h.reply.cookies h.usable in
      rw
        (
          h.answer_read,
          cookies_of_reply,
          h.status_ok,
          h.decoded,
          jar_not_asked _ p.jar p.start_url h.reply.cookies h.usable,
          found,
        )
        (ap (λ (cookies : List (Option Cookie)). ok (cookies, h.conversation_id))
          (jar_not_asked _ p.jar p.start_url h.reply.cookies h.usable))

  pub acquire-Asked :
      (reply : StartReply) → Asked (ok reply) → acquire_anon_cookies p ≡ cookies_of_reply p reply
  unfolding acquire_anon_cookies
  acquire-Asked reply a = rw (a.encoded, acquire_anon_cookies, a.made, a.answered) refl

  -- The session of an upstream that works.
  abbrev pub healthy_session : Healthy → SessionState
  healthy_session h = new_session p h.reply.cookies h.conversation_id p.session_uuid h.conn

  configures : (h : Healthy) (s : SessionState) → (configure p h.conn s).outcome ≡ ok s
  unfolding configure send_event
  configures h s = rw (h.marshalled, configure, h.written) refl

  connects :
      (h : Healthy) (ws_url : Text)
      → (connect p h.reply.cookies h.conversation_id (ws_url, p.session_uuid)).outcome
        ≡ ok (healthy_session h)
  unfolding connect wait_for_connected
  connects h ws_url =
      rw
        (
          h.dialed ws_url (dial_headers p h.reply.cookies),
          connect,
          await_frames-Greets _ (h.greeted _),
        )
        (configures h _)

  dials :
      (h : Healthy)
      → (dial_url p (h.reply.cookies, h.conversation_id)).outcome ≡ ok (healthy_session h)
  unfolding dial_url build_web_socket_url
  dials h = rw (h.parsed, dial_url) (connects h _)

  pub healthy_start : (h : Healthy) → (start_anon_once p).outcome ≡ ok (healthy_session h)
  unfolding start_anon_once
  healthy_start h =
      rw (acquire-Asked h.reply h.asked ∙ cookies_of_healthy h, start_anon_once) (dials h)
