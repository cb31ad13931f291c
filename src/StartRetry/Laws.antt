-- ===== src/StartRetry/Laws.antt =====
-- How startAnon of internal/copilot/start_retry.go ends.
use copilot_openai_proxy.Base.{
  ℕ, zero, suc, ◌+◌, ◌≤◌, ◌<◌, ◌≡◌, refl, sym, ◌∙◌, inl, inr, Bool, true, false, none, some, arith,
  Bool-cases, Option-cases,
}
use mathlib.Core.Path.{subst}
use mathlib.Core.Bool.{false≢true}
use native.Mathlib.Decide.{dec_lt}
use copilot_openai_proxy.Base.Unicode.{Unicode}
use copilot_openai_proxy.Errors.{Err, Result, ok, err, Result-cases}
use copilot_openai_proxy.Session.{SessionState}
use copilot_openai_proxy.StartRetry.{
  Attempts, should_retry_session_start, after_failure, start_loop, start_anon,
}

module _ ⦃u : Unicode⦄ (a : Attempts) where
  -- Every attempt before a bound failed with an error that is retried, and its wait was not cut short.
  pub data Retried : ℕ → Type 0 where
    start : Retried 0
    again :
        {k : ℕ} (e : Err)
        → Retried k
        → a.once k ≡ err e
        → should_retry_session_start (a.context_ended k) e k ≡ true
        → a.wait_ended k ≡ none
        → Retried (suc k)

  -- How the call ends at an attempt, all earlier ones having been retried: with the session of the
  -- attempt, with its error, which is not retried, or with the error that ends the wait after it.
  pub data Ended (k : ℕ) : Result SessionState → Type 0 where
    started : (s : SessionState) → a.once k ≡ ok s → Ended k (ok s)
    refused :
        (e : Err)
        → a.once k ≡ err e
        → should_retry_session_start (a.context_ended k) e k ≡ false
        → Ended k (err e)
    interrupted :
        (e ended : Err) → a.once k ≡ err e → a.wait_ended k ≡ some ended → Ended k (err ended)

  last_attempt :
      (ended : Bool) (e : Err) (k : ℕ) → 2 ≤ k → should_retry_session_start ended e k ≡ false
  unfolding should_retry_session_start
  last_attempt ended e k h = ground arith

  retried_early :
      (ended : Bool) (e : Err) (k : ℕ) → should_retry_session_start ended e k ≡ true → k < 2
  retried_early ended e k h = elim (dec_lt k 2) [
    | yes less ↦ less
    | no late ↦ absurd (false≢true (sym (last_attempt ended e k (omega arith)) ∙ h))
  ]

  loop_ends :
      (left attempt : ℕ) (last : Err)
      → 1 ≤ left
      → left + attempt ≡ 3
      → Retried attempt
      → (k : ℕ) × (k < 3)
        × Retried k
        × ((start_loop a left attempt last).0 ≡ suc k)
        × Ended k (start_loop a left attempt last).1
  unfolding start_loop after_failure
  loop_ends zero attempt last h sum r = absurd (omega arith)
  loop_ends (suc left) attempt last h sum r = elim (Result-cases (a.once attempt)) [
    | inl (s, e) ↦ (
      attempt,
      omega arith,
      r,
      rw (e, start_loop) (omega arith),
      rw (e, start_loop) (started s e),
    )
    | inr (e, at) ↦
        elim (Bool-cases (should_retry_session_start (a.context_ended attempt) e attempt)) [
          | inr no_retry ↦ (
            attempt,
            omega arith,
            r,
            rw (at, start_loop, no_retry) (omega arith),
            rw (at, start_loop, no_retry) (refused e at no_retry),
          )
          | inl retry ↦ elim (Option-cases (a.wait_ended attempt)) [
            | inr (ended, cut) ↦ (
              attempt,
              omega arith,
              r,
              rw (at, start_loop, retry, cut) (omega arith),
              rw (at, start_loop, retry, cut) (interrupted e ended at cut),
            )
            | inl waited ↦
                let next : suc attempt ≡ attempt + 1 = omega arith in
                let early = retried_early (a.context_ended attempt) e attempt retry in
                let (k, small, r', calls, ends) =
                  loop_ends left (attempt + 1) e (omega arith) (omega arith)
                    (subst Retried next (again e r at retry waited)) in
                (
                  k,
                  small,
                  r',
                  rw (at, start_loop, retry, waited) calls,
                  rw (at, start_loop, retry, waited) ends,
                )
          ]
        ]
  ]

  -- startAnon starts at most three times, and returns after the first start that is not retried: with
  -- its session, with its own error, or with the error of a context that ends during the wait.
  pub start_anon-Ended :
      (k : ℕ) × (k < 3) × Retried k × ((start_anon a).0 ≡ suc k) × Ended k (start_anon a).1
  unfolding start_anon
  start_anon-Ended = loop_ends 3 0 Err.nil (omega arith) refl start
