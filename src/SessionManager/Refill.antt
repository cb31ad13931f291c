-- ===== src/SessionManager/Refill.antt =====
-- session_manager_refill.go: the goroutine that keeps the warm pool filled.
use copilot_openai_proxy.Base.{
  ℕ, zero, suc, ◌+◌, Bool, true, false, not, ◌&&◌, ◌||◌, Option, none, some, if◌then◌else◌,
}
use copilot_openai_proxy.Base.Text.{Text}
use copilot_openai_proxy.Errors.{Result, ok, err}
use copilot_openai_proxy.Session.{SessionState}
use copilot_openai_proxy.SessionManager.Semaphore.{Semaphore}
use copilot_openai_proxy.SessionManager.State.{Manager}
use copilot_openai_proxy.SessionManager.Warm.{needs_warm_idle}
use copilot_openai_proxy.SessionManager.Registry.{remove, give_back}
use copilot_openai_proxy.SessionManager.Acquire.{reserve_warming, activate_idle}

module _ {S : Semaphore} where
  -- reserveWarmIdleSlot once a unit was acquired
  unfoldable pub reserve_holding : ℕ → Manager S → Manager S × Option Text
  unfolding reserve_warming give_back
  reserve_holding now m =
      let (m', id) = reserve_warming now true m in
      if m.cancelled || not (needs_warm_idle m) then (give_back true m, none) else (m', some id)

  unfoldable pub reserve_warm_idle_slot : ℕ → Manager S → Manager S × Option Text
  unfolding reserve_holding
  reserve_warm_idle_slot now m =
      if m.cancelled then (m, none) else elim (S.try_acquire 1 m.capacity) [
        | none ↦ (m, none)
        | some c ↦ reserve_holding now (record m { capacity = c })
      ]

  unfoldable pub finish_refill_pass : Manager S → Manager S × Bool
  finish_refill_pass m =
      if m.cancelled
      then (record m { refill_requested = false; refill_running = false }, false)
      else if m.refill_requested && needs_warm_idle m
      then (record m { refill_requested = false }, true)
      else (record m { refill_requested = false; refill_running = false }, false)

  unfoldable pub finish_refill_failure : Manager S → Manager S
  finish_refill_failure m = record m { refill_requested = false; refill_running = false }

-- What the loop meets in a round: the clock, what startSession gives, and what the other
-- goroutines do to the manager while it runs.
pub record Round (S : Semaphore) : Type 0 where
  pub now : ℕ
  pub started : Result SessionState
  pub while_starting : Manager S → Manager S

module _ {S : Semaphore} where
  -- One round of refillLoop: the state, and whether the loop goes on.
  unfoldable pub start_pooled : Round S → Result SessionState → Text → Manager S → Manager S × Bool
  unfolding remove activate_idle finish_refill_failure
  start_pooled r (ok session) id m = (activate_idle r.now id session (r.while_starting m), true)
  start_pooled r (err e) id m = (finish_refill_failure (remove id (r.while_starting m)), false)

  unfoldable pub refill_reserved : Round S → Manager S × Option Text → Manager S × Bool
  unfolding start_pooled finish_refill_pass
  refill_reserved r (m, none) = finish_refill_pass m
  refill_reserved r (m, some id) = start_pooled r r.started id m

  unfoldable pub refill_round : Round S → Manager S → Manager S × Bool
  unfolding refill_reserved reserve_warm_idle_slot finish_refill_failure
  refill_round r m =
      if m.cancelled
      then (finish_refill_failure m, false)
      else refill_reserved r (reserve_warm_idle_slot r.now m)

  -- refillLoop with fuel: `none` means that it ran out. Round k meets `rounds k`.
  unfoldable pub refill_loop : ℕ → (ℕ → Round S) → Manager S → Option (Manager S)
  unfolding refill_round
  refill_loop zero rounds m = none
  refill_loop (suc fuel) rounds m =
      let (m', more) = refill_round (rounds 0) m in
      let rest = refill_loop fuel (λ k. rounds (k + 1)) m' in if more then rest else some m'
