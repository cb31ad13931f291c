-- ===== src/SessionManager/Shutdown.antt =====
-- session_manager_shutdown.go: eviction of expired idle sessions, and the shutdown of the registry.
use copilot_openai_proxy.Base.{
  ℕ, zero, suc, ◌-◌, ◌+◌, Bool, true, false, not, ◌&&◌, Option, none, some, List, [], ◌∷◌, ◌++◌,
  ltb, ◌==◌, if◌then◌else◌,
}
use copilot_openai_proxy.Base.Int.{ℤ, pos, negsuc}
use copilot_openai_proxy.Base.Text.{Text}
use copilot_openai_proxy.Errors.{Err}
use copilot_openai_proxy.Session.{SessionState}
use copilot_openai_proxy.SessionManager.Table.{Table, get, delete, size}
use copilot_openai_proxy.SessionManager.Semaphore.{Semaphore}
use copilot_openai_proxy.SessionManager.State.{
  Status, warming, idle, leased, draining, closed, is_idle, ManagedSession, Manager, close_sessions,
}
use copilot_openai_proxy.SessionManager.Warm.{maybe_refill}
use copilot_openai_proxy.SessionManager.Registry.{compact}

-- What a sweep of the registry leaves and takes: the entries, the sessions to close, in the order in
-- which they were met, and the units of capacity that they held.
pub record Sweep : Type 0 where
  pub sessions : Table ManagedSession
  pub victims : List (Option SessionState)
  pub released : ℕ

-- `if entry.holdsCapacity { released++ }`
abbrev pub unit_of : ManagedSession → ℕ
unit_of entry = if entry.holds_capacity then 1 else 0

unfoldable pub later_use : ℕ → Option SessionState → ℕ
later_use updated_at none = updated_at
later_use updated_at (some session) =
    if ltb updated_at session.last_used_at then session.last_used_at else updated_at

-- `lastTouched`: the later of the entry's update and its session's last use
unfoldable pub last_touched : ManagedSession → ℕ
unfolding later_use
last_touched entry = later_use entry.updated_at entry.session

-- The entry is idle and was last touched at least `ttl` before `now`.
unfoldable pub has_expired : ℕ → ℕ → ManagedSession → Bool
unfolding last_touched
has_expired now ttl entry = is_idle entry.status && not (ltb (now - last_touched entry) ttl)

unfoldable pub expire_one : ℕ → ℕ → Text → Option ManagedSession → Sweep → Sweep
expire_one now ttl id none s = s
expire_one now ttl id (some entry) s =
    if has_expired now ttl entry
    then record {
      sessions = delete id s.sessions;
      victims = s.victims ++ entry.session ∷ [];
      released = s.released + unit_of entry;
    }
    else s

-- The loop of takeExpiredIdle over `byAge`.
unfoldable pub expire_loop : ℕ → ℕ → List Text → Sweep → Sweep
unfolding expire_one
expire_loop now ttl [] s = s
expire_loop now ttl (id ∷ ids) s =
    expire_loop now ttl ids (expire_one now ttl id (get id s.sessions) s)

-- What takeShutdownVictims does with an entry: leave it, drop it, or drop it and close its session.
pub data Fate : Type 0 where
  spare drop evict : Fate

unfoldable pub shutdown_fate : Status → Bool → Fate
shutdown_fate idle pooled = evict
shutdown_fate draining pooled = evict
shutdown_fate closed pooled = evict
shutdown_fate warming pooled = if pooled then drop else spare
shutdown_fate leased pooled = spare

-- The same for takeIdleVictims.
unfoldable pub idle_fate : Status → Bool → Fate
idle_fate idle pooled = evict
idle_fate warming pooled = if pooled then drop else spare
idle_fate _ pooled = spare

unfoldable pub sweep_entry : Fate → Text → ManagedSession → Sweep → Sweep
sweep_entry spare id entry s = record s { sessions = (id, entry) ∷ s.sessions }
sweep_entry drop id entry s = record s { released = unit_of entry + s.released }
sweep_entry evict id entry s = record s {
  victims = entry.session ∷ s.victims;
  released = unit_of entry + s.released;
}

-- The loop `for id, entry := range m.sessions`, which meets each entry once.
unfoldable pub sweep : (Status → Bool → Fate) → Table ManagedSession → Sweep
unfolding sweep_entry
sweep fate [] = record { sessions = []; victims = []; released = 0 }
sweep fate ((id, entry) ∷ t) = sweep_entry (fate entry.status entry.pooled) id entry (sweep fate t)

abbrev pub is_empty_list {ℓ} : {A : Type ℓ} → List A → Bool
is_empty_list [] = true
is_empty_list (x ∷ xs) = false

module _ {S : Semaphore} where
  -- `if released > 0 { m.capacity.Release(int64(released)) }`
  unfoldable pub give_back_many : ℕ → Manager S → Manager S
  give_back_many zero m = m
  give_back_many (suc n) m = record m { capacity = S.release_weight (suc n) m.capacity }

  -- `closeSessions(victims)`
  unfoldable pub close_all : List (Option SessionState) → Manager S → Manager S
  close_all victims m = record m { effects = m.effects ++ close_sessions victims }

  unfoldable pub take_expired_idle : ℕ → ℕ → Manager S → Manager S × Sweep
  unfolding compact
  take_expired_idle now ttl m =
      let s =
        expire_loop now ttl m.by_age
          (record { sessions = m.sessions; victims = []; released = 0 }) in
      let m' = record m { sessions = s.sessions } in
      (if is_empty_list s.victims then m' else compact m', s)

  -- takeShutdownVictims and takeIdleVictims, by the fate of an entry
  unfoldable pub take_victims : (Status → Bool → Fate) → Manager S → Manager S × Sweep
  unfolding compact
  take_victims fate m =
      let s = sweep fate m.sessions in
      let m' = record m { sessions = s.sessions } in
      (if is_empty_list s.victims && (s.released == 0) then m' else compact m', s)

  unfoldable pub refill_if_released : ℕ → Manager S → Manager S
  refill_if_released zero m = m
  refill_if_released (suc n) m = maybe_refill m

  unfoldable pub evict_taken : Manager S × Sweep → Manager S
  unfolding give_back_many close_all refill_if_released
  evict_taken (m, s) =
      refill_if_released s.released (close_all s.victims (give_back_many s.released m))

  unfoldable pub evict_expired_idle : ℕ → ℤ → Manager S → Manager S
  unfolding take_expired_idle evict_taken
  evict_expired_idle now (pos zero) m = m
  evict_expired_idle now (pos (suc n)) m = evict_taken (take_expired_idle now (suc n) m)
  evict_expired_idle now (negsuc n) m = m

  unfoldable pub stop_refill : Manager S → Manager S
  stop_refill m = record m { cancelled = true }

  unfoldable pub drop_taken : Manager S × Sweep → Manager S
  unfolding give_back_many close_all
  drop_taken (m, s) = close_all s.victims (give_back_many s.released m)

  unfoldable pub drop_idle_sessions : Manager S → Manager S
  unfolding take_victims drop_taken
  drop_idle_sessions m = drop_taken (take_victims idle_fate m)

  -- shutdown up to its wait
  unfoldable pub begin_shutdown : Manager S → Manager S
  unfolding take_victims drop_taken stop_refill
  begin_shutdown m = drop_taken (take_victims shutdown_fate (stop_refill m))

  unfoldable pub session_count : Manager S → ℕ
  session_count m = size m.sessions

  -- The wait of shutdown. Tick k finds the manager as `others k` leaves it; the context ends, with
  -- the error `e`, when the ticks of the fuel are over.
  unfoldable pub await_drained : ℕ → (ℕ → Manager S → Manager S) → Err → Manager S → Manager S × Err
  unfolding session_count
  await_drained zero others e m = (m, if session_count m == 0 then Err.nil else e)
  await_drained (suc ticks) others e m =
      let rest = await_drained ticks (λ k. others (k + 1)) e (others 0 m) in
      if session_count m == 0 then (m, Err.nil) else rest

  unfoldable pub shutdown : ℕ → (ℕ → Manager S → Manager S) → Err → Manager S → Manager S × Err
  unfolding begin_shutdown await_drained
  shutdown ticks others e m = await_drained ticks others e (begin_shutdown m)
