-- ===== src/SessionManager/Drain.antt =====
-- shutdown of session_manager_shutdown.go: what its sweep spares, and when its wait ends well.
use copilot_openai_proxy.Base.{
  ℕ, zero, suc, ◌+◌, ◌≤◌, ◌≡◌, inl, inr, ◌≢◌, Bool, true, false, not, Option, none, some, arith,
  ◌==◌, if◌then◌else◌, Bool-cases, ==_iff,
}
use copilot_openai_proxy.Base.Text.{Text}
use copilot_openai_proxy.Errors.{Err}
use copilot_openai_proxy.SessionManager.Table.{get, size}
use copilot_openai_proxy.SessionManager.Semaphore.{Semaphore}
use copilot_openai_proxy.SessionManager.State.{warming, leased, ManagedSession, Manager}
use copilot_openai_proxy.SessionManager.Warm.{maybe_refill}
use copilot_openai_proxy.SessionManager.Shutdown.{
  begin_shutdown, shutdown_fate, session_count, await_drained, shutdown,
}
use copilot_openai_proxy.SessionManager.Refill.{Round, refill_round, finish_refill_failure}
use copilot_openai_proxy.SessionManager.Cancelled.{Later, no_refill-Later}
use copilot_openai_proxy.SessionManager.Invariant.{WellFormed}
use copilot_openai_proxy.SessionManager.Evictions.{begin_shutdown-get}

-- A session in use, or one that a caller is starting.
abbrev pub in_use : ManagedSession → Bool
in_use entry = elim entry.status [ leased ↦ true | warming ↦ not entry.pooled | _ ↦ false ]

abbrev pub when_in_use : Option ManagedSession → Option ManagedSession
when_in_use none = none
when_in_use (some entry) = if in_use entry then some entry else none

module _ {S : Semaphore} where
  -- On a well-formed manager the start of a shutdown keeps an entry exactly when it is leased or a
  -- reservation that a caller made, and keeps it as it was. In every state that calls then lead to, with
  -- other goroutines that do not take the cancellation back, maybeRefill asks for no refill, and a
  -- round of the refill goroutine starts no session and ends it.
  pub begin_shutdown-in_use :
      (o : ℕ) (m : Manager S) (k : Text) (n : Manager S) (r : Round S)
      → WellFormed o m
      → Later (begin_shutdown m) n
      → (get k (begin_shutdown m).sessions ≡ when_in_use (get k m.sessions))
        × (maybe_refill n ≡ n)
        × (refill_round r n ≡ (finish_refill_failure n, false))
  unfolding shutdown_fate
  begin_shutdown-in_use o m k n r v l =
      let (quiet, ended) = no_refill-Later m n r l in
      (ground (arith, begin_shutdown-get o k m v), quiet, ended)

  -- The manager after k ticks of the wait.
  unfoldable pub after_ticks : ℕ → (ℕ → Manager S → Manager S) → Manager S → Manager S
  after_ticks zero others m = m
  after_ticks (suc k) others m = after_ticks k (λ j. others (j + 1)) (others 0 m)

  await_drained-nil :
      (ticks k : ℕ) (others : ℕ → Manager S → Manager S) (e : Err) (m : Manager S)
      → k ≤ ticks
      → size (after_ticks k others m).sessions ≡ 0
      → (await_drained ticks others e m).1 ≡ Err.nil
  unfolding await_drained after_ticks session_count
  await_drained-nil zero zero others e m h empty = ground arith
  await_drained-nil zero (suc k) others e m h empty = absurd (omega arith)
  await_drained-nil (suc ticks) zero others e m h empty = ground arith
  await_drained-nil (suc ticks) (suc k) others e m h empty =
      ground (arith, await_drained-nil ticks k (λ (j : ℕ). others (j + 1)) e (others 0 m))

  await_drained-empty :
      (ticks : ℕ) (others : ℕ → Manager S → Manager S) (e : Err) (m : Manager S)
      → e ≢ Err.nil
      → (await_drained ticks others e m).1 ≡ Err.nil
      → size (await_drained ticks others e m).0.sessions ≡ 0
  unfolding await_drained session_count
  await_drained-empty zero others e m ne h = elim (Bool-cases (size m.sessions == 0)) [
    | inl drained ↦ (==_iff _ 0).0 drained
    | inr left ↦ absurd (ne (ground (arith, h, left)))
  ]
  await_drained-empty (suc ticks) others e m ne h =
      ground (arith, await_drained-empty ticks (λ (j : ℕ). others (j + 1)) e (others 0 m) ne)

  -- Whatever the other goroutines do at the ticks of its wait, shutdown returns no error if the registry
  -- is empty at one of the ticks that its context allows.
  pub shutdown_completes :
      (ticks k : ℕ) (others : ℕ → Manager S → Manager S) (e : Err) (m : Manager S)
      → k ≤ ticks
      → size (after_ticks k others (begin_shutdown m)).sessions ≡ 0
      → (shutdown ticks others e m).1 ≡ Err.nil
  unfolding shutdown
  shutdown_completes ticks k others e m h empty =
      await_drained-nil ticks k others e (begin_shutdown m) h empty

  -- Where the context's end is an error, shutdown returns none only with an empty registry.
  pub shutdown_drained :
      (ticks : ℕ) (others : ℕ → Manager S → Manager S) (e : Err) (m : Manager S)
      → e ≢ Err.nil
      → (shutdown ticks others e m).1 ≡ Err.nil
      → size (shutdown ticks others e m).0.sessions ≡ 0
  unfolding shutdown
  shutdown_drained ticks others e m ne h =
      await_drained-empty ticks others e (begin_shutdown m) ne h
