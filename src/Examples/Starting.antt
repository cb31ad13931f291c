-- ===== src/Examples/Starting.antt =====
-- The theorems on the start of a session and on the model catalog.
use copilot_openai_proxy.Base.{
  ℕ, zero, suc, ◌<◌, inr, ◌≡◌, refl, true, false, none, some, [], ◌∷◌, All, map, arith,
}
use copilot_openai_proxy.Base.Int.{pos}
use copilot_openai_proxy.Base.Text.{Text, codes, text_eq, contains, has_prefix}
use copilot_openai_proxy.Base.Unicode.{ascii_tables}
use copilot_openai_proxy.Base.Distinct.{elem}
use copilot_openai_proxy.Errors.{Err, plain, ok, err}
use copilot_openai_proxy.Cookies.{cookie_anon, find_cookie, session_cookies_usable}
use copilot_openai_proxy.Protocol.{ServerEnvelope, first_non_empty}
use copilot_openai_proxy.StartRetry.{start_anon, should_retry_session_start}
use copilot_openai_proxy.Start.{Upstream, StartReply, start_anon_once, attempts, connect}
use copilot_openai_proxy.Start.Laws.{Tidy, start_anon_once-Tidy}
use copilot_openai_proxy.Start.Healthy.{Healthy, now, healthy_session}
use copilot_openai_proxy.Start.Recovery.{
  Transient, overloaded, start_anon_recovers, blocked_connect_retried,
}
use copilot_openai_proxy.Requests.{list_models, listed}
use copilot_openai_proxy.ModelId.{normalize_model}
use copilot_openai_proxy.Catalog.{Web, ModelCatalog, list_modes}
use copilot_openai_proxy.Catalog.Laws.{Holds}
use copilot_openai_proxy.Catalog.Offers.{model_info, listed_models_served}

abbrev pub envelope : Text → Text → ServerEnvelope
envelope event text = record {
  event = event;
  conversation_id = [];
  message_id = [];
  text = text;
  body = [];
  error_code = [];
  parameter = codes "abc";
  url = [];
}

abbrev a_reply : ℕ → StartReply
a_reply status_code = record {
  response = record { status_code = status_code; body = ok (codes "{}") };
  cookies = some (record { name = cookie_anon; value = codes "v" }) ∷ [];
}

-- An upstream with a status and the first frame of its connection.
abbrev an_upstream : ℕ → ServerEnvelope → Upstream Text
an_upstream status_code first = record {
  start_url = codes "http://h/start";
  ws_url = codes "ws://h";
  time_zone = codes "UTC";
  timeout = pos 60;
  now = 5;
  ctx_deadline = none;
  marshal_body = λ body. ok (codes "{}");
  new_request = ok tt;
  http_do = λ request. ok (a_reply status_code);
  unmarshal = λ body. ok (record { current_conversation_id = codes "c1"; is_blocked = false });
  jar = none;
  parse = λ t. ok t;
  set_query = λ key value url. url;
  print = λ url. url;
  conversation_uuid = codes "u1";
  session_uuid = codes "u2";
  dial = λ url headers. ok 7;
  reads = λ conn deadline. record {
    frames = some first ∷ [];
    failure = plain (codes "EOF");
    ended = none;
  };
  marshal = λ message. ok (codes "{}");
  write = λ conn text. ok tt;
}

abbrev connected : ServerEnvelope
connected = envelope (codes "connected") []

start_anon_once-Tidy_example : Tidy (start_anon_once (an_upstream 200 connected))
start_anon_once-Tidy_example = start_anon_once-Tidy (an_upstream 200 connected) refl

-- The first answer is a 503, and the second one a 200.
abbrev busy_once : ℕ → Upstream Text
busy_once zero = an_upstream 503 connected
busy_once (suc k) = an_upstream 200 connected

works : Healthy (an_upstream 200 connected)
unfolding session_cookies_usable find_cookie text_eq
works = record {
  reply = a_reply 200;
  asked = record { content = codes "{}"; encoded = refl; made = refl; answered = refl };
  body = codes "{}";
  answer_read = refl;
  status_ok = refl;
  conversation_id = codes "c1";
  decoded = refl;
  usable = refl;
  url = codes "ws://h";
  parsed = refl;
  conn = 7;
  dialed = λ at h. refl;
  greeted = λ deadline. now connected [] refl;
  message = codes "{}";
  marshalled = refl;
  written = refl;
}

busy : Transient ⦃u = ascii_tables⦄ (an_upstream 503 connected)
busy =
    overloaded (a_reply 503) (codes "{}")
      (record { content = codes "{}"; encoded = refl; made = refl; answered = refl }) refl
      (inr (omega arith))

busy_before : (j : ℕ) → j < 1 → Transient ⦃u = ascii_tables⦄ (busy_once j)
busy_before zero h = busy
busy_before (suc j) h = absurd (omega arith)

start_anon_recovers_example :
    start_anon ⦃u = ascii_tables⦄ (attempts busy_once (λ k. false) (λ k. none))
    ≡ (2, ok (healthy_session (busy_once 1) works))
start_anon_recovers_example =
    start_anon_recovers ⦃u = ascii_tables⦄ busy_once (λ k. false) (λ k. none) 1 busy_before
      (λ j h. (refl, refl)) works (omega arith)

abbrev blocked_user : ServerEnvelope
blocked_user = envelope (codes "error") (codes "user is blocked")

blocked_connect_retried_example :
    let started =
      connect (an_upstream 200 blocked_user) [] (codes "c1") (codes "ws://h", codes "u2") in
    (started.closed ≡ 7 ∷ [])
    × (e : Err) × (started.outcome ≡ err e)
    × (should_retry_session_start ⦃u = ascii_tables⦄ false e 1 ≡ true)
unfolding first_non_empty contains has_prefix
blocked_connect_retried_example =
    blocked_connect_retried ⦃u = ascii_tables⦄ (an_upstream 200 blocked_user) [] (codes "c1")
      (codes "ws://h") (codes "u2") 7 blocked_user [] 1 refl refl refl refl (omega arith)

-- A site that cannot be reached.
abbrev no_site : Web
no_site = record {
  urls = record { resolve = λ base ref. none };
  find_catalog = λ js. [];
  find_quoted = λ js. [];
  find_entry_scripts = λ html. [];
  find_scripts = λ html. [];
  new_request = λ url. ok tt;
  http_do = λ request. err (plain (codes "no such host"));
}

abbrev an_empty_catalog : ModelCatalog
an_empty_catalog = record { base_url = codes "http://h"; ttl = 10; modes = []; fetched_at = 0 }

listed_models_served_example :
    let (c', modes) = list_modes ⦃u = ascii_tables⦄ no_site 3 4 (λ c. c) an_empty_catalog in
    Holds c'.modes
    × (elem (codes "smart") modes ≡ true)
    × (list_models (codes "GET") (ok modes) ≡ listed (map model_info modes))
    × All (λ id. normalize_model ⦃u = ascii_tables⦄ id ≡ id) modes
listed_models_served_example =
    listed_models_served ⦃u = ascii_tables⦄ no_site 3 4 (λ c. c) an_empty_catalog (λ d h. h) tt
