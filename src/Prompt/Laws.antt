-- ===== src/Prompt/Laws.antt =====
-- What a prompt leaves in the registry: startPromptEvents and Complete of internal/copilot/client.go.
use copilot_openai_proxy.Base.{
  ℕ, ◌≡◌, refl, inl, inr, Bool, Option, none, some, List, [], Option-cases, if_cases,
}
use mathlib.Core.Path.{subst}
use copilot_openai_proxy.Base.Unicode.{Unicode}
use copilot_openai_proxy.Errors.{is_nil, Result-cases}
use copilot_openai_proxy.Attachments.{upload_images}
use copilot_openai_proxy.Outbound.{new_send_message}
use copilot_openai_proxy.Completion.{CompletionInput, Selected, Completed, complete_loop}
use copilot_openai_proxy.Session.{SessionState}
use copilot_openai_proxy.SessionManager.Table.{get}
use copilot_openai_proxy.SessionManager.Semaphore.{Semaphore}
use copilot_openai_proxy.SessionManager.State.{Manager, Lease}
use copilot_openai_proxy.SessionManager.Acquire.{Outcome, returned, failed, blocked}
use copilot_openai_proxy.SessionManager.Invariant.{WellFormed, Names}
use copilot_openai_proxy.SessionManager.Leases.{Granted, acquire-Granted, acquire_fresh-Granted}
use copilot_openai_proxy.Prompt.Attempts.{Usable, release_session-get}
use copilot_openai_proxy.Prompt.{
  Attempt, AttemptEnd, prompted, again, gave_up, stuck, should_retry_prompt_send, session_of_lease,
  get_or_create_session, get_fresh_session, send_failed, send_prompt, attempt_prompt, retry_prompt,
  no_more_rounds, start_prompt_events, finish_session, collect, complete, stream_events,
  forward_session,
}

-- What a prompt that is sent hands on.
abbrev HandsOn : AttemptEnd → Type 0
HandsOn (prompted lease session) = Usable lease session
HandsOn _ = Unit {0}

module _ {S : Semaphore} where
  -- What a round that starts from a manager hands on.
  abbrev Ready : Manager S × Outcome (Lease × SessionState) → Type 0
  Ready (m, returned (lease, session)) = Usable lease session
  Ready (m, failed e) = Unit {0}
  Ready (m, blocked) = Unit {0}

  session_of_lease-Ready :
      (now : ℕ) (q : Manager S × Outcome Lease) → Granted q.0 q.1 → Ready (session_of_lease now q)
  unfolding session_of_lease
  session_of_lease-Ready now (m, returned lease) h = elim (Option-cases lease.session) [
    | inl e ↦ rw (e, session_of_lease) tt
    | inr (session, e) ↦
        rw (e, session_of_lease)
          (record {
            has_session = e;
            named = subst (λ (s : Option SessionState). Names lease.conversation_id s) e h.named;
            fresh = h.fresh;
          })
  ]
  session_of_lease-Ready now (m, failed e) h = tt
  session_of_lease-Ready now (m, blocked) h = tt

  no_more_rounds-HandsOn : (q : Manager S × AttemptEnd) → HandsOn q.1 → HandsOn (no_more_rounds q).1
  unfolding no_more_rounds
  no_more_rounds-HandsOn (m, again) h = tt
  no_more_rounds-HandsOn (m, prompted lease session) h = h
  no_more_rounds-HandsOn (m, gave_up e) h = tt
  no_more_rounds-HandsOn (m, stuck) h = tt

  module _ ⦃u : Unicode⦄ (input : CompletionInput) where
    attempt_prompt-HandsOn :
        (a : Attempt S) (attempt : ℕ) (q : Manager S × Outcome (Lease × SessionState))
        → Ready q
        → HandsOn (attempt_prompt input a attempt q).1
    unfolding attempt_prompt send_prompt send_failed
    attempt_prompt-HandsOn a attempt (m, failed e) h = tt
    attempt_prompt-HandsOn a attempt (m, blocked) h = tt
    attempt_prompt-HandsOn a attempt (m, returned (lease, session)) h =
        elim (Result-cases (upload_images a.uploads session.cookies input.images)) [
          | inr (e, at) ↦ rw (at, attempt_prompt) tt
          | inl (urls, at) ↦
              let e =
                a.send (new_send_message input.prompt session.conversation_id input.mode urls) in
              rw (at, attempt_prompt)
                (if_cases (λ (r : Manager S × AttemptEnd). HandsOn r.1) (is_nil e) _ _ (λ sent. h)
                  (λ bad.
                    if_cases (λ (r : Manager S × AttemptEnd). HandsOn r.1)
                      (should_retry_prompt_send a.context_ended e attempt) _ _ (λ retry. tt)
                      (λ stop. tt)))
        ]

    retry_prompt-HandsOn :
        (second : Attempt S) (q : Manager S × AttemptEnd)
        → HandsOn q.1
        → HandsOn (retry_prompt input second q).1
    unfolding retry_prompt get_fresh_session
    retry_prompt-HandsOn second (m, again) h =
        attempt_prompt-HandsOn second 1 _
          (session_of_lease-Ready second.world.now _ (acquire_fresh-Granted second.world m))
    retry_prompt-HandsOn second (m, prompted lease session) h = h
    retry_prompt-HandsOn second (m, gave_up e) h = tt
    retry_prompt-HandsOn second (m, stuck) h = tt

    start_prompt_events-HandsOn :
        (o : ℕ) (first second : Attempt S) (m : Manager S)
        → ((n : Manager S) → WellFormed o n → WellFormed o (first.world.while_waiting n))
        → WellFormed o m
        → HandsOn (start_prompt_events input first second m).1
    unfolding start_prompt_events get_or_create_session
    start_prompt_events-HandsOn o first second m waiting v = no_more_rounds-HandsOn _ (
        retry_prompt-HandsOn second _ (
          attempt_prompt-HandsOn first 0 _
            (session_of_lease-Ready first.world.now _ (acquire-Granted o first.world m waiting v))))

    collect_releases :
        (now : ℕ) (others : Manager S → Manager S) (selects : List Selected) (m : Manager S)
        (lease : Lease) (session : SessionState) (c : Completed)
        → Usable lease session
        → complete_loop selects [] [] ≡ some c
        → let (m', result) = collect input now others selects (m, prompted lease session) in
          (result ≡ some c) × (get session.conversation_id m'.sessions ≡ none)
    unfolding collect finish_session
    collect_releases now others selects m lease session c h returns =
        rw (returns, collect) (refl, rw h.named (release_session-get now lease session _ h))

    -- From a well-formed manager, where the other goroutines keep the invariant while the first round
    -- waits: when a prompt was sent on a session and the loop of Complete returns, then Complete returns
    -- the same, and that session is not registered any more, whether the completion ended well, with an
    -- error or with the request's context, and whatever the other goroutines did to the registry; nor is
    -- it when the goroutine of StreamEvents for such a prompt has returned.
    pub complete_releases :
        (o : ℕ) (first second : Attempt S) (now : ℕ) (others : Manager S → Manager S)
        (selects : List Selected) (forwarded : List (Selected × Bool)) (m : Manager S)
        (lease : Lease) (session : SessionState) (c : Completed)
        → ((n : Manager S) → WellFormed o n → WellFormed o (first.world.while_waiting n))
        → WellFormed o m
        → (start_prompt_events input first second m).1 ≡ prompted lease session
        → complete_loop selects [] [] ≡ some c
        → let (m', result) = complete input first second now others selects m in
          (result ≡ some c)
          × (get session.conversation_id m'.sessions ≡ none)
          × (get session.conversation_id
                (stream_events input first second now others forwarded m).0.sessions
              ≡ none)
    unfolding complete stream_events forward_session
    complete_releases o first second now others selects forwarded m lease session c waiting v sent
          returns =
        let started = start_prompt_events input first second m in
        let same : started ≡ (started.0, prompted lease session) = λ i. (started.0, sent i) in
        let usable = subst HandsOn sent (start_prompt_events-HandsOn o first second m waiting v) in
        let (result, gone) =
          collect_releases now others selects started.0 lease session c usable returns in
        rw same (
          result,
          gone,
          rw usable.named (release_session-get now lease session (others started.0) usable),
        )
