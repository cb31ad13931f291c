-- ===== src/SessionManager/History.antt =====
-- The calls that reach a manager, one after the other, and the states that they lead to.
use copilot_openai_proxy.Base.{ℕ, ◌≤◌, ◌≡◌, arith}
use copilot_openai_proxy.Base.Int.{ℤ}
use copilot_openai_proxy.Base.Text.{Text}
use copilot_openai_proxy.SessionManager.Table.{size, count}
use copilot_openai_proxy.SessionManager.Semaphore.{Semaphore}
use copilot_openai_proxy.SessionManager.State.{Manager}
use copilot_openai_proxy.SessionManager.Warm.{is_pooled}
use copilot_openai_proxy.SessionManager.Create.{new_session_manager_with_warm_pool}
use copilot_openai_proxy.SessionManager.Registry.{release, invalidate}
use copilot_openai_proxy.SessionManager.Acquire.{World, acquire, acquire_fresh}
use copilot_openai_proxy.SessionManager.Refill.{Round, refill_round}
use copilot_openai_proxy.SessionManager.Shutdown.{
  evict_expired_idle, drop_idle_sessions, begin_shutdown,
}
use copilot_openai_proxy.SessionManager.Invariant.{WellFormed}
use copilot_openai_proxy.SessionManager.Invariant.Registry.{
  release-WellFormed, invalidate-WellFormed,
}
use copilot_openai_proxy.SessionManager.Invariant.Leasing.{
  IsFair, IsNew, acquire-WellFormed, acquire_fresh-WellFormed,
}
use copilot_openai_proxy.SessionManager.Invariant.Shutdown.{
  evict_expired_idle-WellFormed, drop_idle_sessions-WellFormed, begin_shutdown-WellFormed,
}
use copilot_openai_proxy.SessionManager.Invariant.Refill.{
  IsFairRound, refill_round-WellFormed, new_session_manager-WellFormed,
}

pub data Call (S : Semaphore) : Type 0 where
  acquires : World S → Call S
  acquires_fresh : World S → Call S
  -- a lease's Release, and Client.InvalidateSession
  releases : ℕ → Text → Call S
  invalidates : Text → Call S
  -- a round of the refill goroutine
  refills : Round S → Call S
  -- a tick of the janitor, a failed prompt, and Client.Close
  evicts : ℕ → ℤ → Call S
  drops_idle : Call S
  shuts_down : Call S

module _ {S : Semaphore} where
  unfoldable pub step : Call S → Manager S → Manager S
  step (acquires w) m = (acquire w m).0
  step (acquires_fresh w) m = (acquire_fresh w m).0
  step (releases now id) m = release now id m
  step (invalidates id) m = invalidate id m
  step (refills r) m = (refill_round r m).0
  step (evicts now ttl) m = evict_expired_idle now ttl m
  step drops_idle m = drop_idle_sessions m
  step shuts_down m = begin_shutdown m

  -- What a call relies on: the other goroutines, and an ID of its own for the session that it starts.
  abbrev pub Fits : Call S → Manager S → Type 0
  Fits (acquires w) m = IsFair w × IsNew w.started m
  Fits (acquires_fresh w) m = IsFair w × IsNew w.started m
  Fits (refills r) m = IsFairRound r × IsNew r.started m
  Fits _ m = Unit {0}

  -- The states that calls lead to from `m`.
  pub data Reach (m : Manager S) : Manager S → Type 0 where
    here : Reach m m
    next : {n : Manager S} → Reach m n → (c : Call S) → Fits c n → Reach m (step c n)

  step-WellFormed :
      (o : ℕ) (c : Call S) (m : Manager S) → Fits c m → WellFormed o m → WellFormed o (step c m)
  unfolding step
  step-WellFormed o (acquires w) m f v = acquire-WellFormed o w m f.0 f.1 v
  step-WellFormed o (acquires_fresh w) m f v = acquire_fresh-WellFormed o w m f.0 f.1 v
  step-WellFormed o (releases now id) m f v = release-WellFormed o m v now id
  step-WellFormed o (invalidates id) m f v = invalidate-WellFormed o m v id
  step-WellFormed o (refills r) m f v = refill_round-WellFormed o r m f.0 f.1 v
  step-WellFormed o (evicts now ttl) m f v = evict_expired_idle-WellFormed o now ttl m v
  step-WellFormed o drops_idle m f v = drop_idle_sessions-WellFormed o m v
  step-WellFormed o shuts_down m f v = begin_shutdown-WellFormed o m v

  pub Reach-WellFormed : (o : ℕ) (m n : Manager S) → WellFormed o m → Reach m n → WellFormed o n
  Reach-WellFormed o m _ v here = v
  Reach-WellFormed o m _ v (next {n} r c f) = step-WellFormed o c n f (Reach-WellFormed o m n v r)

module _ (S : Semaphore) where
  -- In every state that calls lead to from a new manager, where the other goroutines keep the invariant
  -- during each call, leave its reservation alone and do not bring in the conversation that it starts,
  -- whose ID is not registered, the invariant holds with no unit of capacity outside the registry; so the sessions are as many as the units that are held, they are at most
  -- the manager's maximum, and those of the warm pool at most its target.
  pub reachable_within_capacity :
      (max warm : ℤ) (m : Manager S)
      → Reach (new_session_manager_with_warm_pool S max warm) m
      → WellFormed 0 m
        × (S.held m.capacity ≡ size m.sessions)
        × (size m.sessions ≤ m.max_sessions)
        × (count is_pooled m.sessions ≤ m.warm_sessions)
  reachable_within_capacity max warm m r =
      let v = Reach-WellFormed 0 _ m (new_session_manager-WellFormed S max warm) r in
      (v, omega (arith, v.accounted), omega (arith, v.accounted, v.within), v.warm_bound)
