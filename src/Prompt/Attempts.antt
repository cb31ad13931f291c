-- ===== src/Prompt/Attempts.antt =====
-- What a round of startPromptEvents of internal/copilot/client.go leaves in the registry.
use copilot_openai_proxy.Base.{
  ◌++◌, true, ◌⊎◌, ap, zero, suc, arith, ℕ, ◌≡◌, refl, ◌∙◌, inl, inr, false, none, some, List,
  if_cases,
}
use mathlib.Core.Path.{subst}
use copilot_openai_proxy.Base.Text.{Text}
use copilot_openai_proxy.Base.Unicode.{Unicode}
use copilot_openai_proxy.Errors.{Err, is_nil, Result, ok, err, Result-cases}
use copilot_openai_proxy.Attachments.{upload_images}
use copilot_openai_proxy.Outbound.{new_send_message}
use copilot_openai_proxy.Completion.{CompletionInput}
use copilot_openai_proxy.Session.{SessionState}
use copilot_openai_proxy.SessionManager.Table.{get}
use copilot_openai_proxy.SessionManager.Semaphore.{Semaphore}
use copilot_openai_proxy.SessionManager.State.{Manager, Lease, Effect, close_sessions}
use mathlib.Core.List.{append_assoc}
use copilot_openai_proxy.SessionManager.Registry.{release_lease, invalidate, compact}
use copilot_openai_proxy.SessionManager.Acquire.{returned}
use copilot_openai_proxy.SessionManager.Shutdown.{
  Sweep, drop_idle_sessions, take_victims, idle_fate, drop_taken, give_back_many, close_all,
}
use copilot_openai_proxy.SessionManager.Invariant.{WellFormed}
use copilot_openai_proxy.SessionManager.Invariant.Registry.{invalidate-WellFormed}
use copilot_openai_proxy.SessionManager.Releases.{
  release-get, OutOf, closed_by_release, closed_by_invalidate, release-OutOf, invalidate-OutOf,
}
use copilot_openai_proxy.SessionManager.Evictions.{drop_idle_sessions-get}
use copilot_openai_proxy.Prompt.{
  Attempt, AttemptEnd, prompted, again, gave_up, should_retry_prompt_send, release_session,
  send_failed, send_prompt, attempt_prompt,
}

-- A lease that a prompt works on: not released, its session's conversation its key.
pub record Usable (lease : Lease) (session : SessionState) : Type 0 where
  pub has_session : lease.session ≡ some session
  pub named : session.conversation_id ≡ lease.conversation_id
  pub fresh : lease.released ≡ false

module _ {S : Semaphore} where
  pub release_session-get :
      (now : ℕ) (lease : Lease) (session : SessionState) (m : Manager S)
      → Usable lease session
      → get lease.conversation_id (release_session now lease m).sessions ≡ none
  unfolding release_session release_lease
  release_session-get now lease session m h = rw h.fresh (release-get now lease.conversation_id m)

  release_session-OutOf :
      (o now : ℕ) (lease : Lease) (session : SessionState) (m : Manager S)
      → WellFormed o m
      → Usable lease session
      → OutOf lease.conversation_id m
          (release_session now lease m)
          (closed_by_release now (get lease.conversation_id m.sessions))
  unfolding release_session release_lease
  release_session-OutOf o now lease session m v h =
      rw h.fresh (release-OutOf o now lease.conversation_id m v)

  effects-give_back_many : (k : ℕ) (m : Manager S) → (give_back_many k m).effects ≡ m.effects
  unfolding give_back_many
  effects-give_back_many zero m = refl
  effects-give_back_many (suc k) m = refl

  effects-take_victims : (m : Manager S) → (take_victims idle_fate m).0.effects ≡ m.effects
  unfolding take_victims compact
  effects-take_victims m = ground arith

  effects-drop_taken :
      (m : Manager S) (s : Sweep)
      → (drop_taken (m, s)).effects ≡ m.effects ++ close_sessions s.victims
  unfolding drop_taken close_all
  effects-drop_taken m s =
      ap (λ (l : List Effect). l ++ close_sessions s.victims) (effects-give_back_many s.released m)

  effects-drop_idle :
      (m : Manager S)
      → (drop_idle_sessions m).effects
        ≡ m.effects ++ close_sessions (take_victims idle_fate m).1.victims
  unfolding drop_idle_sessions
  effects-drop_idle m =
      effects-drop_taken (take_victims idle_fate m).0 (take_victims idle_fate m).1
      ∙ ap (λ (l : List Effect). l ++ close_sessions (take_victims idle_fate m).1.victims)
          (effects-take_victims m)

  -- What is out of the registry stays so when the idle sessions go too.
  drop_idle-OutOf :
      (o : ℕ) (id : Text) (m n : Manager S) (closing : List Effect)
      → WellFormed o n
      → OutOf id m n closing
      → OutOf id m (drop_idle_sessions n) closing
  drop_idle-OutOf o id m n closing v h =
      let more = close_sessions (take_victims idle_fate n).1.victims in
      record {
        gone = drop_idle_sessions-get o id n v ∙ rw h.gone refl;
        rest = h.rest ++ more;
        closed =
            effects-drop_idle n
            ∙ ap (λ (l : List Effect). l ++ more) h.closed
            ∙ append_assoc (m.effects ++ closing) h.rest more;
      }

  module _ ⦃u : Unicode⦄ (input : CompletionInput) (a : Attempt S) (attempt : ℕ) (lease : Lease)
      (session : SessionState) where
    abbrev pub uploaded : Result (List Text)
    uploaded = upload_images a.uploads session.cookies input.images

    abbrev pub send_error : List Text → Err
    send_error urls = a.send (new_send_message input.prompt session.conversation_id input.mode urls)

    -- How a round with a session ends, from the registry that it finds: an upload failed, and the session
    -- is released; the prompt was sent, and the registry is as it was; or it could not be sent, and the
    -- session is invalidated.
    pub data Settled (n : Manager S) : Manager S × AttemptEnd → Type 0 where
      upload_failed :
          (e : Err) (m : Manager S)
          → uploaded ≡ err e
          → OutOf lease.conversation_id n m
              (closed_by_release a.world.now (get lease.conversation_id n.sessions))
          → Settled n (m, gave_up e)
      sent :
          (urls : List Text)
          → uploaded ≡ ok urls
          → is_nil (send_error urls) ≡ true
          → Settled n (n, prompted lease session)
      not_sent :
          (urls : List Text) (m : Manager S) (end : AttemptEnd)
          → uploaded ≡ ok urls
          → is_nil (send_error urls) ≡ false
          → OutOf lease.conversation_id n m
              (closed_by_invalidate (get lease.conversation_id n.sessions))
          → (end ≡ again) ⊎ ((e : Err) × (end ≡ gave_up e))
          → Settled n (m, end)

    send_failed-Settled :
        (o : ℕ) (urls : List Text) (n : Manager S)
        → WellFormed o n
        → Usable lease session
        → uploaded ≡ ok urls
        → is_nil (send_error urls) ≡ false
        → Settled n (send_failed a attempt session (send_error urls) n)
    unfolding send_failed
    send_failed-Settled o urls n v h up bad =
        let out =
          subst
            (λ (id : Text).
              OutOf id n (invalidate session.conversation_id n)
                (closed_by_invalidate (get id n.sessions)))
            h.named (invalidate-OutOf o session.conversation_id n v) in
        if_cases (Settled n) (should_retry_prompt_send a.context_ended (send_error urls) attempt) _
          _
          (λ retry.
            not_sent urls _ again up bad
              (drop_idle-OutOf o lease.conversation_id n _ _
                (invalidate-WellFormed o n v session.conversation_id) out)
              (inl refl))
          (λ stop. not_sent urls _ _ up bad out (inr (_, refl)))

    send_prompt-Settled :
        (o : ℕ) (urls : List Text) (n : Manager S)
        → WellFormed o n
        → Usable lease session
        → uploaded ≡ ok urls
        → Settled n (send_prompt input a attempt lease session urls n)
    unfolding send_prompt
    send_prompt-Settled o urls n v h up =
        if_cases (Settled n) (is_nil (send_error urls)) _ _ (λ fine. sent urls up fine)
          (λ bad. send_failed-Settled o urls n v h up bad)

    -- A round of startPromptEvents with a session that was leased, where the other goroutines keep the
    -- invariant. If an upload fails, the round ends with its error, and the session is out of the
    -- registry and, if it was still there, is closed first, with its last use touched as release does.
    -- If the prompt is sent, the caller has the lease and the session, and the registry is as the others
    -- left it. If it cannot be sent, the round is tried again or ends with an error, and the session is
    -- out of the registry and, if it was still there, is closed first, as it was, as invalidate does.
    pub attempt_prompt-Settled :
        (o : ℕ) (m : Manager S)
        → WellFormed o (a.others m)
        → Usable lease session
        → Settled (a.others m) (attempt_prompt input a attempt (m, returned (lease, session)))
    unfolding attempt_prompt
    attempt_prompt-Settled o m v h = elim (Result-cases uploaded) [
      | inl (urls, up) ↦ rw (up, attempt_prompt) (send_prompt-Settled o urls _ v h up)
      | inr (e, up) ↦
          rw (up, attempt_prompt)
            (upload_failed e _ up (release_session-OutOf o a.world.now lease session _ v h))
    ]
