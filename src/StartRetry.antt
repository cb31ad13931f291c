-- ===== src/StartRetry.antt =====
-- internal/copilot/start_retry.go: starting an anonymous session with retries.
pub mod Laws
use copilot_openai_proxy.Base.{
  ℕ, zero, suc, ◌+◌, ◌-◌, Bool, true, false, not, ◌&&◌, ◌||◌, Option, none, some, List, [], ◌∷◌,
  ltb, leb, ◌==◌, if◌then◌else◌,
}
use copilot_openai_proxy.Base.Text.{Text, codes}
use copilot_openai_proxy.Base.Unicode.{Unicode}
use copilot_openai_proxy.Errors.{
  Err, wrapped, Result, ok, err, is, is_nil, canceled, deadline_exceeded,
  err_retryable_session_start,
}
use copilot_openai_proxy.Errors.Classify.{is_blocked}
use copilot_openai_proxy.Session.{SessionState}

abbrev pub start_session_max_attempts : ℕ
start_session_max_attempts = 3

-- startSessionRetryDelays, in milliseconds
unfoldable pub session_start_retry_delay : ℕ → ℕ
session_start_retry_delay attempt = if attempt == 0 then 100 else 250

-- isRetryableStartStatus
unfoldable pub is_retryable_start_status : ℕ → Bool
is_retryable_start_status status_code = (status_code == 429) || leb 500 status_code

-- What startAnon meets in its rounds: what startAnonOnce gives, whether the context has ended when it
-- has failed, and with which error the context ends while the goroutine waits, if it does.
pub record Attempts : Type 0 where
  pub once : ℕ → Result SessionState
  pub context_ended : ℕ → Bool
  pub wait_ended : ℕ → Option Err

module _ ⦃u : Unicode⦄ where
  -- shouldRetrySessionStart; `ended` is `ctx != nil && ctx.Err() != nil`
  unfoldable pub should_retry_session_start : Bool → Err → ℕ → Bool
  should_retry_session_start ended e attempt =
      if is_nil e || leb (start_session_max_attempts - 1) attempt
      then false
      else if ended
      then false
      else if (is e canceled || is e deadline_exceeded) || is_blocked e
      then false
      else is e err_retryable_session_start

  -- The end of a round whose start failed: retry after the wait, or return.
  after_failure : Attempts → Err → ℕ → ℕ × Result SessionState → ℕ × Result SessionState
  unfolding should_retry_session_start
  after_failure a e attempt rest =
      if should_retry_session_start (a.context_ended attempt) e attempt
      then elim (a.wait_ended attempt) [ some ended ↦ (attempt + 1, err ended) | none ↦ rest ]
      else (attempt + 1, err e)

  -- The rounds that are left from an attempt on, with the number of starts that were made.
  unfoldable pub start_loop : Attempts → ℕ → ℕ → Err → ℕ × Result SessionState
  unfolding after_failure
  start_loop a zero attempt last =
      (attempt, err (wrapped (codes "copilot session start exhausted retries") last))
  start_loop a (suc left) attempt last = elim (a.once attempt) [
    | ok session ↦ (attempt + 1, ok session)
    | err e ↦ after_failure a e attempt (start_loop a left (attempt + 1) e)
  ]

  -- startAnon: the number of starts and the result
  unfoldable pub start_anon : Attempts → ℕ × Result SessionState
  unfolding start_loop
  start_anon a = start_loop a start_session_max_attempts 0 Err.nil
