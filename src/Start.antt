-- ===== src/Start.antt =====
-- internal/copilot/start.go: starting one anonymous session.
pub mod Laws
pub mod Healthy
pub mod Recovery
use copilot_openai_proxy.Base.{
  ℕ, Bool, true, false, not, ◌||◌, Option, none, some, List, [], ◌∷◌, ◌++◌, ◌==◌, if◌then◌else◌,
}
use copilot_openai_proxy.Base.Int.{ℤ}
use copilot_openai_proxy.Base.Text.{Text, codes, text_eq, contains}
use copilot_openai_proxy.Base.Decimal.{decimal}
use copilot_openai_proxy.Errors.{
  Err, plain, wrapped, upstream_error, retryable_error, Result, ok, err, is_empty, map_err,
  refuse_if, ◌>>=◌, ◌>>◌,
}
use copilot_openai_proxy.Protocol.{ServerEnvelope, first_non_empty, blocked_report}
use copilot_openai_proxy.Cookies.{
  Cookie, cookie_anon, find_cookie, collect_cookies, cookies_with_jar_fallback,
}
use copilot_openai_proxy.Http.{
  Headers, Request, Response, set_header, set_common_headers, copilot_origin, accept_language,
}
use copilot_openai_proxy.Outbound.{Outgoing, options, default_set_options, build_web_socket_url}
use copilot_openai_proxy.Connection.{Reads, send_event, connected_read_deadline, wait_for_connected}
use copilot_openai_proxy.StartRetry.{is_retryable_start_status, Attempts}
use copilot_openai_proxy.Session.{SessionState}

-- PerformUserMerge is always nil.
pub record StartRequestBody : Type 0 where
  pub time_zone : Text
  pub start_new_conversation : Bool
  pub teen_support_enabled : Bool
  pub correct_personalization_setting : Bool
  pub deferred_data_use_capable : Bool

pub record StartResponse : Type 0 where
  pub current_conversation_id : Text
  pub is_blocked : Bool

-- A response with resp.Cookies().
pub record StartReply : Type 0 where
  pub response : Response
  pub cookies : List (Option Cookie)

-- What a start uses: the client's fields, and of net/http, net/url, encoding/json, google/uuid, time
-- and gorilla/websocket what they give during this start. `jar` is the client's jar after the response.
pub record Upstream (Url : Type 0) : Type 0 where
  pub start_url : Text
  pub ws_url : Text
  pub time_zone : Text
  pub timeout : ℤ
  pub now : ℕ
  pub ctx_deadline : Option ℕ
  pub marshal_body : StartRequestBody → Result Text
  pub new_request : Result (Unit {0})
  pub http_do : Request → Result StartReply
  pub unmarshal : Text → Result StartResponse
  pub jar : Option (Url → List (Option Cookie))
  pub parse : Text → Result Url
  pub set_query : Text → Text → Url → Url
  pub print : Url → Text
  pub conversation_uuid : Text
  pub session_uuid : Text
  pub dial : Text → Headers → Result ℕ
  pub reads : ℕ → Option ℕ → Reads
  pub marshal : Outgoing → Result Text
  pub write : ℕ → Text → Result (Unit {0})

-- What a start comes to: its result, the connections that it opens and closes, and what it sends.
pub record Started : Type 0 where
  pub outcome : Result SessionState
  pub dialed : List ℕ
  pub closed : List ℕ
  pub sent : List Outgoing

abbrev pub start_request_body : Text → StartRequestBody
start_request_body time_zone = record {
  time_zone = time_zone;
  start_new_conversation = true;
  teen_support_enabled = true;
  correct_personalization_setting = true;
  deferred_data_use_capable = true;
}

abbrev to_option : {A : Type 0} → Result A → Option A
to_option (ok a) = some a
to_option (err e) = none

abbrev pub start_status_message : ℕ → Text → Text
start_status_message status_code body =
    codes "copilot start returned " ++ (decimal status_code ++ (codes ": " ++ body))

-- The error for a status that is not 200.
unfoldable pub start_status_error : ℕ → Text → Err
unfolding is_retryable_start_status
start_status_error status_code body =
    let message = start_status_message status_code body in
    if is_retryable_start_status status_code then retryable_error message Err.nil else plain message

abbrev no_connection : Err → Started
no_connection e = record { outcome = err e; dialed = []; closed = []; sent = [] }

-- closeSessionConn(conn), and the error
abbrev given_up : ℕ → Text → Err → Started
given_up conn operation e = record {
  outcome = err (retryable_error operation e);
  dialed = conn ∷ [];
  closed = conn ∷ [];
  sent = [];
}

module _ {Url : Type 0} (p : Upstream Url) where
  abbrev pub start_request : Text → Request
  start_request content = record {
    url = p.start_url;
    headers =
        set_header (codes "Accept-Language") accept_language
          (set_header (codes "Content-Type") (codes "application/json") (set_common_headers []));
    content = content;
  }

  -- acquireAnonCookies from its response on
  unfoldable pub cookies_of_reply : StartReply → Result (List (Option Cookie) × Text)
  unfolding start_status_error
  cookies_of_reply reply = do
    body ← map_err (wrapped (codes "read copilot start response")) reply.response.body
    refuse_if (not (reply.response.status_code == 200))
        (start_status_error reply.response.status_code body)
    start ← map_err (retryable_error (codes "parse copilot start response")) (p.unmarshal body)
    refuse_if start.is_blocked (
        plain (
          codes
            "copilot start reports anonymous user is blocked; websocket may not produce completions"))
    let cookies =
        cookies_with_jar_fallback (λ url. to_option (p.parse url)) p.jar p.start_url reply.cookies
    elim (find_cookie cookies cookie_anon) [
      | none ↦ err (plain (codes "copilot start did not return __Host-copilot-anon cookie"))
      | some anon ↦ ok (cookies, start.current_conversation_id)
    ]

  -- acquireAnonCookies
  unfoldable pub acquire_anon_cookies : Result (List (Option Cookie) × Text)
  unfolding cookies_of_reply
  acquire_anon_cookies = do
    content ←
        map_err (wrapped (codes "marshal start body"))
          (p.marshal_body (start_request_body p.time_zone))
    map_err (wrapped (codes "create copilot start request")) p.new_request
    reply ← map_err (retryable_error (codes "request")) (p.http_do (start_request content))
    cookies_of_reply reply

  -- The session that a connection is for.
  abbrev pub new_session : List (Option Cookie) → Text → Text → ℕ → SessionState
  new_session cookies conversation_id client_session_id conn = record {
    conn = some conn;
    conversation_id = if is_empty conversation_id then p.conversation_uuid else conversation_id;
    client_session_id = client_session_id;
    cookies = cookies;
    created_at = p.now;
    last_used_at = p.now;
    connected = true;
  }

  abbrev pub dial_headers : List (Option Cookie) → Headers
  dial_headers cookies = set_header (codes "Cookie") (collect_cookies cookies) (
      set_header (codes "Origin") copilot_origin
        (set_header (codes "Accept") (codes "*/*") (set_common_headers [])))

  -- The end of startAnonOnce: the options are sent on the connection.
  unfoldable pub configure : ℕ → SessionState → Started
  unfolding send_event
  configure conn session =
      elim (send_event p.marshal (p.write conn) (options default_set_options)) [
        | err e ↦ given_up conn (codes "copilot setOptions") e
        | ok done ↦ record {
          outcome = ok session;
          dialed = conn ∷ [];
          closed = [];
          sent = options default_set_options ∷ [];
        }
      ]

  -- startAnonOnce from its dial on
  unfoldable pub connect : List (Option Cookie) → Text → Text × Text → Started
  unfolding configure wait_for_connected connected_read_deadline
  connect cookies conversation_id (ws_url, client_session_id) =
      elim (p.dial ws_url (dial_headers cookies)) [
        | err e ↦ no_connection (retryable_error (codes "copilot websocket dial") e)
        | ok conn ↦
            elim (wait_for_connected
              (p.reads conn (connected_read_deadline p.timeout p.now p.ctx_deadline))) [
                | err e ↦ given_up conn (codes "copilot wait connected") e
                | ok ready ↦
                    configure conn (new_session cookies conversation_id client_session_id conn)
              ]
      ]

  -- buildWebSocketURL(c.wsURL), and what follows it
  dial_url : List (Option Cookie) × Text → Started
  unfolding connect build_web_socket_url
  dial_url (cookies, conversation_id) =
      elim (build_web_socket_url p.parse p.set_query p.print p.session_uuid p.ws_url) [
        | err e ↦ no_connection e
        | ok at ↦ connect cookies conversation_id at
      ]

  -- startAnonOnce
  unfoldable pub start_anon_once : Started
  unfolding acquire_anon_cookies dial_url
  start_anon_once = elim acquire_anon_cookies [
    | err e ↦ no_connection (wrapped (codes "copilot start") e)
    | ok acquired ↦ dial_url acquired
  ]

-- What startAnon meets when its starts, one after the other, meet these.
abbrev pub attempts : {Url : Type 0} → (ℕ → Upstream Url) → (ℕ → Bool) → (ℕ → Option Err) → Attempts
attempts p context_ended wait_ended = record {
  once = λ k. (start_anon_once (p k)).outcome;
  context_ended = context_ended;
  wait_ended = wait_ended;
}
