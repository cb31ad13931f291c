-- ===== src/Prompt.antt =====
-- internal/copilot/session.go, startPromptEvents, shouldRetryPromptSend and Complete of client.go, and
-- StreamEvents of stream_events.go:
-- a session is leased for a prompt, the prompt is sent on it, and the session is given back.
pub mod Attempts
pub mod Laws
use copilot_openai_proxy.Base.{
  ℕ, ◌+◌, Bool, true, false, ◌||◌, Option, none, some, List, [], ◌∷◌, ltb, leb, if◌then◌else◌,
}
use copilot_openai_proxy.Base.Int.{ℤ, pos, leb_ℤ, pos_part}
use copilot_openai_proxy.Base.Text.{Text, codes}
use copilot_openai_proxy.Base.Unicode.{Unicode}
use copilot_openai_proxy.Errors.{
  Err, plain, wrapped, Result, ok, err, is, is_nil, canceled, deadline_exceeded,
}
use copilot_openai_proxy.Images.{ImageInput}
use copilot_openai_proxy.Attachments.{Uploads, upload_images}
use copilot_openai_proxy.Outbound.{SendMessage, new_send_message}
use copilot_openai_proxy.Completion.{
  CompletionInput, Selected, Completed, complete_loop, forward_stream_events,
}
use copilot_openai_proxy.Protocol.{StreamEvent}
use copilot_openai_proxy.Session.{SessionState}
use copilot_openai_proxy.SessionManager.Semaphore.{Semaphore}
use copilot_openai_proxy.SessionManager.State.{Manager, Lease}
use copilot_openai_proxy.SessionManager.Registry.{release_lease, invalidate}
use copilot_openai_proxy.SessionManager.Acquire.{
  Outcome, returned, failed, blocked, World, acquire, acquire_fresh,
}
use copilot_openai_proxy.SessionManager.Shutdown.{drop_idle_sessions, evict_expired_idle, shutdown}

-- withRequestTimeout on the client's timeout, the time and ctx.Deadline(): the deadline that holds
unfoldable pub with_request_timeout : ℤ → ℕ → Option ℕ → Option ℕ
with_request_timeout timeout now (some deadline) = some deadline
with_request_timeout timeout now none =
    if leb_ℤ timeout (pos 0) then none else some (now + pos_part timeout)

-- What an attempt meets: the wait for a session, the upload, what pump.send gives for a message, what
-- other goroutines do to the registry until then, and whether the request's context has ended then.
pub record Attempt (S : Semaphore) : Type 0 where
  pub world : World S
  pub uploads : Uploads
  pub send : SendMessage → Err
  pub others : Manager S → Manager S
  pub context_ended : Bool

-- How an attempt ends: the prompt is sent, it is tried again, it fails, or it waits for ever.
pub data AttemptEnd : Type 0 where
  prompted : Lease → SessionState → AttemptEnd
  again : AttemptEnd
  gave_up : Err → AttemptEnd
  stuck : AttemptEnd

-- shouldRetryPromptSend; `context_ended` is `ctx != nil && ctx.Err() != nil`
unfoldable pub should_retry_prompt_send : Bool → Err → ℕ → Bool
should_retry_prompt_send context_ended e attempt =
    if ltb 0 attempt || is_nil e
    then false
    else if context_ended
    then false
    else if is e canceled || is e deadline_exceeded
    then false
    else true

module _ {S : Semaphore} where
  -- The tail of getOrCreateSession and getFreshSession: the lease's session.
  unfoldable pub session_of_lease :
      ℕ → Manager S × Outcome Lease → Manager S × Outcome (Lease × SessionState)
  session_of_lease now (m, returned lease) = elim lease.session [
    | some session ↦ (m, returned (lease, session))
    | none ↦ (
      (release_lease now lease m).1,
      failed (plain (codes "copilot session manager returned nil session")),
    )
  ]
  session_of_lease now (m, failed e) = (m, failed e)
  session_of_lease now (m, blocked) = (m, blocked)

  unfoldable pub get_or_create_session :
      World S → Manager S → Manager S × Outcome (Lease × SessionState)
  unfolding session_of_lease
  get_or_create_session w m = session_of_lease w.now (acquire w m)

  unfoldable pub get_fresh_session :
      World S → Manager S → Manager S × Outcome (Lease × SessionState)
  unfolding session_of_lease
  get_fresh_session w m = session_of_lease w.now (acquire_fresh w m)

  -- releaseSession on a session with a lease
  unfoldable pub release_session : ℕ → Lease → Manager S → Manager S
  release_session now lease m = (release_lease now lease m).1

  -- The branch for a failed send: the session is invalidated; the idle ones go too before a retry.
  unfoldable pub send_failed :
      Attempt S → ℕ → SessionState → Err → Manager S → Manager S × AttemptEnd
  unfolding should_retry_prompt_send
  send_failed a attempt session e m =
      let m' = invalidate session.conversation_id m in
      if should_retry_prompt_send a.context_ended e attempt
      then (drop_idle_sessions m', again)
      else (m', gave_up (wrapped (codes "copilot websocket send") e))

  -- `return nil, nil, fmt.Errorf("copilot websocket send: exhausted retries")`
  unfoldable pub no_more_rounds : Manager S × AttemptEnd → Manager S × AttemptEnd
  no_more_rounds (m, again) =
      (m, gave_up (plain (codes "copilot websocket send: exhausted retries")))
  no_more_rounds (m, prompted lease session) = (m, prompted lease session)
  no_more_rounds (m, gave_up e) = (m, gave_up e)
  no_more_rounds (m, stuck) = (m, stuck)

  module _ ⦃u : Unicode⦄ (input : CompletionInput) where
    -- The prompt, once the images are uploaded.
    unfoldable pub send_prompt :
        Attempt S → ℕ → Lease → SessionState → List Text → Manager S → Manager S × AttemptEnd
    unfolding send_failed
    send_prompt a attempt lease session urls m =
        let e = a.send (new_send_message input.prompt session.conversation_id input.mode urls) in
        if is_nil e then (m, prompted lease session) else send_failed a attempt session e m

    -- A round of the loop of startPromptEvents, from the session that it gets.
    unfoldable pub attempt_prompt :
        Attempt S → ℕ → Manager S × Outcome (Lease × SessionState) → Manager S × AttemptEnd
    unfolding send_prompt release_session
    attempt_prompt a attempt (m, returned (lease, session)) =
        elim (upload_images a.uploads session.cookies input.images) [
          | err e ↦ (release_session a.world.now lease (a.others m), gave_up e)
          | ok urls ↦ send_prompt a attempt lease session urls (a.others m)
        ]
    attempt_prompt a attempt (m, failed e) = (m, gave_up (wrapped (codes "get session") e))
    attempt_prompt a attempt (m, blocked) = (m, stuck)

    -- The second round, after a first one that is to be tried again.
    unfoldable pub retry_prompt : Attempt S → Manager S × AttemptEnd → Manager S × AttemptEnd
    unfolding attempt_prompt get_fresh_session
    retry_prompt second (m, again) = attempt_prompt second 1 (get_fresh_session second.world m)
    retry_prompt second (m, prompted lease session) = (m, prompted lease session)
    retry_prompt second (m, gave_up e) = (m, gave_up e)
    retry_prompt second (m, stuck) = (m, stuck)

    -- startPromptEvents
    unfoldable pub start_prompt_events : Attempt S → Attempt S → Manager S → Manager S × AttemptEnd
    unfolding attempt_prompt get_or_create_session retry_prompt no_more_rounds
    start_prompt_events first second m =
        no_more_rounds
          (retry_prompt second (attempt_prompt first 0 (get_or_create_session first.world m)))

    -- The end of Complete on a session: InvalidateSession if its context ended, and releaseSession.
    unfoldable pub finish_session : ℕ → Lease → SessionState → Completed → Manager S → Manager S
    unfolding release_session
    finish_session now lease session c m =
        release_session now lease
          (if c.invalidated then invalidate session.conversation_id m else m)

    -- Complete from startPromptEvents on; `none` while it waits. `others` is what the other goroutines
    -- do while it collects.
    unfoldable pub collect :
        ℕ
        → (Manager S → Manager S)
        → List Selected
        → Manager S × AttemptEnd
        → Manager S × Option Completed
    unfolding finish_session complete_loop
    collect now others selects (m, prompted lease session) = elim (complete_loop selects [] []) [
      | none ↦ (others m, none)
      | some c ↦ (finish_session now lease session c (others m), some c)
    ]
    collect now others selects (m, gave_up e) =
        (m, some (record { text = []; message_id = []; error = e; invalidated = false }))
    collect now others selects (m, again) = (m, none)
    collect now others selects (m, stuck) = (m, none)

    -- Complete
    unfoldable pub complete :
        Attempt S
        → Attempt S
        → ℕ
        → (Manager S → Manager S)
        → List Selected
        → Manager S
        → Manager S × Option Completed
    unfolding collect start_prompt_events
    complete first second now others selects m =
        collect now others selects (start_prompt_events first second m)

    -- The goroutine of StreamEvents until it returns, with the events that it sends on: it releases the
    -- session at its end; `none` while StreamEvents waits.
    unfoldable pub forward_session :
        ℕ
        → (Manager S → Manager S)
        → List (Selected × Bool)
        → Manager S × AttemptEnd
        → Manager S × Option (Result (List StreamEvent))
    unfolding release_session forward_stream_events
    forward_session now others selects (m, prompted lease session) =
        (release_session now lease (others m), some (ok (forward_stream_events selects)))
    forward_session now others selects (m, gave_up e) = (m, some (err e))
    forward_session now others selects (m, again) = (m, none)
    forward_session now others selects (m, stuck) = (m, none)

    -- StreamEvents
    unfoldable pub stream_events :
        Attempt S
        → Attempt S
        → ℕ
        → (Manager S → Manager S)
        → List (Selected × Bool)
        → Manager S
        → Manager S × Option (Result (List StreamEvent))
    unfolding forward_session start_prompt_events
    stream_events first second now others selects m =
        forward_session now others selects (start_prompt_events first second m)

  -- The ticks that the goroutine of startJanitor handles, one after the other.
  unfoldable pub sweep_ticks : ℤ → List ℕ → Manager S → Manager S
  unfolding evict_expired_idle
  sweep_ticks session_ttl [] m = m
  sweep_ticks session_ttl (tick_at ∷ ticks) m =
      sweep_ticks session_ttl ticks (evict_expired_idle tick_at session_ttl m)

  -- startJanitor: what its ticks, if it starts, do to the registry
  unfoldable pub start_janitor : ℤ → ℤ → ℤ → List ℕ → Manager S → Manager S
  unfolding sweep_ticks
  start_janitor warm_sessions session_ttl cleanup_int ticks m =
      if (leb_ℤ warm_sessions (pos 0) || leb_ℤ session_ttl (pos 0)) || leb_ℤ cleanup_int (pos 0)
      then m
      else sweep_ticks session_ttl ticks m

  -- Close on a client: the janitor's last ticks, and then the shutdown, with its error
  unfoldable pub close_client :
      ℤ → ℤ → ℤ → List ℕ → ℕ → (ℕ → Manager S → Manager S) → Err → Manager S → Manager S × Err
  unfolding start_janitor shutdown
  close_client warm_sessions session_ttl cleanup_int last_ticks ticks others e m =
      shutdown ticks others e (start_janitor warm_sessions session_ttl cleanup_int last_ticks m)
