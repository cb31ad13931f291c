-- ===== src/SessionManager/Evictions.antt =====
-- The janitor and the shutdown: what evictExpiredIdle, dropIdleSessions and shutdown of
-- session_manager_shutdown.go leave in the registry.
use copilot_openai_proxy.Base.{
  ℕ, zero, suc, ◌≡◌, refl, ◌∙◌, Bool, true, Option, none, some, [], ◌+◌, arith, leb, ltb, not, ◌&&◌,
  ◌-◌, if◌then◌else◌,
}
use Prim.Native.Nat.{max}
use copilot_openai_proxy.Base.Int.{pos, negsuc}
use copilot_openai_proxy.Base.Text.{Text}
use copilot_openai_proxy.Session.{SessionState}
use copilot_openai_proxy.SessionManager.Table.{get, has}
use copilot_openai_proxy.SessionManager.Semaphore.{Semaphore}
use copilot_openai_proxy.SessionManager.State.{
  Status, idle, warming, leased, draining, closed, is_idle, ManagedSession, Manager,
}
use copilot_openai_proxy.SessionManager.Registry.{compact}
use copilot_openai_proxy.Base.Distinct.{elem}
use copilot_openai_proxy.SessionManager.Shutdown.{
  Sweep, Fate, expire_loop, sweep, give_back_many, close_all, take_expired_idle, take_victims,
  evict_expired_idle, evict_taken, refill_if_released, drop_taken, drop_idle_sessions, stop_refill,
  begin_shutdown, idle_fate, shutdown_fate, has_expired, last_touched, later_use,
}
use copilot_openai_proxy.SessionManager.Invariant.{WellFormed}
use copilot_openai_proxy.SessionManager.Invariant.Steps.{sessions-maybe_refill}
use copilot_openai_proxy.SessionManager.Invariant.Sweeps.{
  unexpired, spared, expire_loop-get, sweep-get,
}

-- A key that is registered is listed by age, so that the loop over byAge meets it.
unexpired_listed :
    {S : Semaphore} {o : ℕ} (now ttl : ℕ) (k : Text) (m : Manager S)
    → WellFormed o m
    → unexpired now ttl (elem k m.by_age) (get k m.sessions)
      ≡ unexpired now ttl true (get k m.sessions)
unfolding has
unexpired_listed now ttl k m v = ground (arith, v.aligned k)

-- An entry was last touched when it was last updated or its session last used, whichever is later.
abbrev pub later_touch : ℕ → Option SessionState → ℕ
later_touch updated_at none = updated_at
later_touch updated_at (some session) = max updated_at session.last_used_at

abbrev pub touched_at : ManagedSession → ℕ
touched_at entry = later_touch entry.updated_at entry.session

-- An entry at a tick: it goes if it is idle and ttl has passed since it was last touched.
abbrev pub survivor : ℕ → ℕ → Option ManagedSession → Option ManagedSession
survivor now ttl none = none
survivor now ttl (some entry) = elim entry.status [
  | idle ↦ if leb (touched_at entry + ttl) now then none else some entry
  | _ ↦ some entry
]

later_use-later_touch :
    (updated_at : ℕ) (session : Option SessionState)
    → later_use updated_at session ≡ later_touch updated_at session
unfolding later_use
later_use-later_touch updated_at none = refl
later_use-later_touch updated_at (some session) = ground arith

expired_by_status :
    (now n at : ℕ) (status : Status) (entry : ManagedSession)
    → (if is_idle status && not (ltb (now - at) (suc n)) then none else some entry)
      ≡ elim status [ idle ↦ if leb (at + suc n) now then none else some entry | _ ↦ some entry ]
expired_by_status now n at idle entry = ground arith
expired_by_status now n at warming entry = refl
expired_by_status now n at leased entry = refl
expired_by_status now n at draining entry = refl
expired_by_status now n at closed entry = refl

unexpired-survivor :
    (now n : ℕ) (entry : Option ManagedSession)
    → unexpired now (suc n) true entry ≡ survivor now (suc n) entry
unfolding has_expired last_touched
unexpired-survivor now n none = refl
unexpired-survivor now n (some entry) =
    rw (later_use-later_touch entry.updated_at entry.session)
      (expired_by_status now n (touched_at entry) entry.status entry)

module _ {S : Semaphore} where
  sessions-refill_if_released :
      (n : ℕ) (m : Manager S) → (refill_if_released n m).sessions ≡ m.sessions
  unfolding refill_if_released
  sessions-refill_if_released zero m = refl
  sessions-refill_if_released (suc n) m = sessions-maybe_refill m

  sessions-give_back_many : (n : ℕ) (m : Manager S) → (give_back_many n m).sessions ≡ m.sessions
  unfolding give_back_many
  sessions-give_back_many zero m = refl
  sessions-give_back_many (suc n) m = refl

  sessions-evict_taken : (m : Manager S) (s : Sweep) → (evict_taken (m, s)).sessions ≡ m.sessions
  unfolding evict_taken close_all
  sessions-evict_taken m s =
      sessions-refill_if_released s.released _ ∙ sessions-give_back_many s.released m

  sessions-drop_taken : (m : Manager S) (s : Sweep) → (drop_taken (m, s)).sessions ≡ m.sessions
  unfolding drop_taken give_back_many close_all
  sessions-drop_taken m s = ground arith

  sessions-take_expired_idle :
      (now ttl : ℕ) (m : Manager S)
      → (take_expired_idle now ttl m).0.sessions
        ≡ (expire_loop now ttl m.by_age
            (record { sessions = m.sessions; victims = []; released = 0 })).sessions
  unfolding take_expired_idle compact
  sessions-take_expired_idle now ttl m = ground arith

  sessions-take_victims :
      (fate : Status → Bool → Fate) (m : Manager S)
      → (take_victims fate m).0.sessions ≡ (sweep fate m.sessions).sessions
  unfolding take_victims compact
  sessions-take_victims fate m = ground arith

  -- On a well-formed manager and for a positive ttl, the janitor's tick takes out exactly the sessions
  -- that are idle and were last touched at least ttl before it, and leaves every other entry, the
  -- leased and the warming ones among them, as it was; for a ttl of zero or less it changes nothing.
  pub evict_expired_idle-exact :
      (o now n : ℕ) (m : Manager S)
      → WellFormed o m
      → ((k : Text)
          → get k (evict_expired_idle now (pos (suc n)) m).sessions
            ≡ survivor now (suc n) (get k m.sessions))
        × (evict_expired_idle now (pos 0) m ≡ m)
        × ((j : ℕ) → evict_expired_idle now (negsuc j) m ≡ m)
  unfolding evict_expired_idle
  evict_expired_idle-exact o now n m v = (λ k. met k, refl, λ j. refl)
    where
      start : Sweep
      start = record { sessions = m.sessions; victims = []; released = 0 }

      met :
          (k : Text)
          → get k (evict_expired_idle now (pos (suc n)) m).sessions
            ≡ survivor now (suc n) (get k m.sessions)
      met k =
          rw
            (
              sessions-evict_taken (take_expired_idle now (suc n) m).0
                  (take_expired_idle now (suc n) m).1,
              sessions-take_expired_idle now (suc n) m,
            )
            (expire_loop-get now (suc n) m.by_age k start
              ∙ (unexpired_listed now (suc n) k m v ∙ unexpired-survivor now n (get k m.sessions)))

  -- dropIdleSessions leaves the leased sessions and the reservations of callers.
  pub drop_idle_sessions-get :
      (o : ℕ) (k : Text) (m : Manager S)
      → WellFormed o m
      → get k (drop_idle_sessions m).sessions ≡ spared idle_fate (get k m.sessions)
  unfolding drop_idle_sessions
  drop_idle_sessions-get o k m v =
      rw (sessions-drop_taken _ (take_victims idle_fate m).1, sessions-take_victims idle_fate m)
        (sweep-get idle_fate k m.sessions v.unique)

  pub begin_shutdown-get :
      (o : ℕ) (k : Text) (m : Manager S)
      → WellFormed o m
      → get k (begin_shutdown m).sessions ≡ spared shutdown_fate (get k m.sessions)
  unfolding begin_shutdown stop_refill
  begin_shutdown-get o k m v =
      rw
        (
          sessions-drop_taken _ (take_victims shutdown_fate (stop_refill m)).1,
          sessions-take_victims shutdown_fate (stop_refill m),
        )
        (sweep-get shutdown_fate k m.sessions v.unique)
