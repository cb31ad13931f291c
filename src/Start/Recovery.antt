-- ===== src/Start/Recovery.antt =====
-- startAnon of internal/copilot/start_retry.go over the starts of start.go: what it recovers from.
use copilot_openai_proxy.Base.{
  ℕ, zero, suc, ◌+◌, ◌<◌, ◌≤◌, ◌≡◌, refl, ◌∙◌, ap, Bool, true, false, Option, none, some, inl, inr,
  ◌⊎◌, List, [], ◌∷◌, arith, ◌==◌,
}
use native.Mathlib.Decide.{dec_lt}
use copilot_openai_proxy.Base.Text.{Text, codes, text_eq, contains}
use copilot_openai_proxy.Base.Unicode.{Unicode}
use copilot_openai_proxy.Errors.{
  Err, retryable_error, plain, wrapped, Result, ok, err, is, canceled, deadline_exceeded,
  as_blocked, as_upstream,
}
use copilot_openai_proxy.Errors.Classify.{is_blocked}
use copilot_openai_proxy.Protocol.{ServerEnvelope, first_non_empty, blocked_report}
use copilot_openai_proxy.Cookies.{Cookie}
use copilot_openai_proxy.Connection.{Reads, connected_read_deadline}
use copilot_openai_proxy.Session.{SessionState}
use copilot_openai_proxy.StartRetry.{
  is_retryable_start_status, should_retry_session_start, start_anon, start_loop,
}
use copilot_openai_proxy.Start.{
  Upstream, StartReply, start_anon_once, connect, acquire_anon_cookies, cookies_of_reply,
  start_status_error, start_status_message, dial_headers, attempts,
}
use copilot_openai_proxy.Connection.{wait_for_connected, await_frames, connect_error}
use copilot_openai_proxy.Start.Healthy.{
  Asked, Healthy, healthy_session, healthy_start, acquire-Asked,
}

module _ ⦃u : Unicode⦄ where
  -- An error that does not say that the caller is gone, or that the user is blocked.
  pub record Harmless (e : Err) : Type 0 where
    pub not_canceled : is e canceled ≡ false
    pub in_time : is e deadline_exceeded ≡ false
    pub not_blocked : is_blocked e ≡ false

  overloaded_status :
      (status_code : ℕ)
      → (status_code ≡ 429) ⊎ (500 ≤ status_code)
      → is_retryable_start_status status_code ≡ true
  unfolding is_retryable_start_status
  overloaded_status status_code (inl too_many) = ground arith
  overloaded_status status_code (inr broken) = ground arith

  nil-Harmless : Harmless Err.nil
  unfolding is is_blocked as_blocked as_upstream
  nil-Harmless = record { not_canceled = refl; in_time = refl; not_blocked = refl }

  module _ {Url : Type 0} (p : Upstream Url) where
    -- A failure that may pass: no answer, or an answer with status 429 or at least 500.
    pub data Transient : Type 0 where
      no_answer : (e : Err) → Asked p (err e) → Harmless e → Transient
      overloaded :
          (reply : StartReply) (body : Text)
          → Asked p (ok reply)
          → reply.response.body ≡ ok body
          → (reply.response.status_code ≡ 429) ⊎ (500 ≤ reply.response.status_code)
          → Transient

    -- A start that fails with an error after which startAnon goes on.
    abbrev Retryable : Result SessionState → Type 0
    Retryable r =
        (e : Err) × (r ≡ err e) × ((k : ℕ) → k < 2 → should_retry_session_start false e k ≡ true)

    failed_acquire :
        (e : Err)
        → acquire_anon_cookies p ≡ err e
        → (start_anon_once p).outcome ≡ err (wrapped (codes "copilot start") e)
    unfolding start_anon_once
    failed_acquire e h = rw (h, start_anon_once) refl

    unanswered :
        (e : Err)
        → Asked p (err e)
        → acquire_anon_cookies p ≡ err (retryable_error (codes "request") e)
    unfolding acquire_anon_cookies
    unanswered e a = rw (a.encoded, acquire_anon_cookies, a.made, a.answered) refl

    refused_status :
        (reply : StartReply) (body : Text)
        → reply.response.body ≡ ok body
        → (reply.response.status_code ≡ 429) ⊎ (500 ≤ reply.response.status_code)
        → cookies_of_reply p reply
          ≡ err (retryable_error (start_status_message reply.response.status_code body) Err.nil)
    unfolding cookies_of_reply start_status_error
    refused_status reply body h status =
        let bad : (reply.response.status_code == 200) ≡ false = ground arith in
        rw (h, cookies_of_reply, bad, overloaded_status reply.response.status_code status) refl

    retry_start :
        (message : Text) (e : Err)
        → Harmless e
        → (k : ℕ) → k < 2
        → should_retry_session_start false
            (wrapped (codes "copilot start") (retryable_error message e))
            k
          ≡ true
    unfolding should_retry_session_start is is_blocked as_blocked as_upstream
    retry_start message e h k small = ground (arith, h.not_blocked, h.in_time, h.not_canceled)

    transient_start : Transient → Retryable (start_anon_once p).outcome
    transient_start (no_answer e a harmless) =
        (_, failed_acquire _ (unanswered e a), retry_start _ e harmless)
    transient_start (overloaded reply body a answered status) = (
      _,
      failed_acquire _ (acquire-Asked p reply a ∙ refused_status reply body answered status),
      retry_start _ Err.nil nil-Harmless,
    )

  module _ {Url : Type 0} (p : ℕ → Upstream Url) (ended : ℕ → Bool) (wait : ℕ → Option Err) (k : ℕ)
      (before : (j : ℕ) → j < k → Transient (p j))
      (there : (j : ℕ) → j < k → (ended j ≡ false) × (wait j ≡ none))
      (healthy : Healthy (p k)) where
    loop_recovers :
        (left attempt : ℕ) (last : Err)
        → k < left + attempt
        → left + attempt ≡ 3
        → attempt ≤ k
        → start_loop (attempts p ended wait) left attempt last
          ≡ (k + 1, ok (healthy_session (p k) healthy))
    unfolding start_loop
    loop_recovers zero attempt last h sum early = absurd (omega arith)
    loop_recovers (suc left) attempt last h sum early = elim (dec_lt attempt k) [
      | no at ↦
          let here : attempt ≡ k = omega arith in
          rw (here, healthy_start (p k) healthy, start_loop)
            (ap (λ (n : ℕ). (n + 1, ok (healthy_session (p k) healthy))) here)
      | yes more ↦
          let (e, failed, retried) = transient_start (p attempt) (before attempt more) in
          let (going, waited) = there attempt more in
          rw (failed, start_loop, going, retried attempt (omega arith), waited)
            (loop_recovers left (attempt + 1) e (omega arith) (omega arith) (omega arith))
    ]

    -- If one of the three starts meets an upstream that works, and every start before it a failure that
    -- may pass (no answer, with an error that is no cancellation, deadline or block, or a status of 429
    -- or at least 500) while the caller's context lives on, then startAnon makes exactly the starts up to
    -- that one and returns its session.
    pub start_anon_recovers :
        k < 3 → start_anon (attempts p ended wait) ≡ (k + 1, ok (healthy_session (p k) healthy))
    unfolding start_anon
    start_anon_recovers small = loop_recovers 3 0 Err.nil (omega arith) refl (omega arith)

  blocked_wait :
      (r : Reads) (env : ServerEnvelope) (frames : List (Option ServerEnvelope))
      → r.frames ≡ some env ∷ frames
      → env.event ≡ codes "error"
      → contains (first_non_empty (env.body ∷ env.text ∷ [])) (codes "blocked") ≡ true
      → wait_for_connected r ≡ err (plain blocked_report)
  unfolding wait_for_connected await_frames connect_error text_eq
  blocked_wait r env frames read error blocked = rw (read, wait_for_connected, error, blocked) refl

  blocked_retry :
      (k : ℕ)
      → k < 2
      → should_retry_session_start false
          (retryable_error (codes "copilot wait connected") (plain blocked_report))
          k
        ≡ true
  unfolding should_retry_session_start is is_blocked as_blocked as_upstream
  blocked_retry k small = ground arith

  -- An "error" event that speaks of "blocked", as the first frame of a new connection, is retried like a
  -- failure that may pass: the connection is closed, and the error of the start is one after which
  -- startAnon starts again, in each of the first two attempts of a context that lives on.
  pub blocked_connect_retried :
      {Url : Type 0} (p : Upstream Url) (cookies : List (Option Cookie)) (id ws_url client : Text)
      (conn : ℕ) (env : ServerEnvelope) (frames : List (Option ServerEnvelope)) (attempt : ℕ)
      → p.dial ws_url (dial_headers p cookies) ≡ ok conn
      → (p.reads conn (connected_read_deadline p.timeout p.now p.ctx_deadline)).frames
        ≡ some env ∷ frames
      → env.event ≡ codes "error"
      → contains (first_non_empty (env.body ∷ env.text ∷ [])) (codes "blocked") ≡ true
      → attempt < 2
      → let started = connect p cookies id (ws_url, client) in
        (started.closed ≡ conn ∷ [])
        × (e : Err) × (started.outcome ≡ err e)
        × (should_retry_session_start false e attempt ≡ true)
  unfolding connect
  blocked_connect_retried p cookies id ws_url client conn env frames attempt dialed read error
        blocked small =
      rw
        (
          dialed,
          connect,
          blocked_wait (p.reads conn (connected_read_deadline p.timeout p.now p.ctx_deadline)) env
              frames read error blocked,
        )
        (refl, _, refl, blocked_retry attempt small)
