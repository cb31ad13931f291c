-- ===== src/SessionManager/Leases.antt =====
-- What a lease stands for, and its end: session_manager_acquire.go and session_manager_registry.go.
use copilot_openai_proxy.Base.{
  ℕ, suc, ◌≡◌, refl, sym, inl, inr, false, Option, none, some, arith, Option-cases,
}
use mathlib.Core.Path.{subst}
use copilot_openai_proxy.Base.Text.{Text}
use copilot_openai_proxy.Errors.{Result, ok, err}
use copilot_openai_proxy.Session.{SessionState}
use copilot_openai_proxy.SessionManager.Table.{get, put, get-put_self}
use copilot_openai_proxy.SessionManager.Semaphore.{Semaphore}
use copilot_openai_proxy.SessionManager.State.{leased, ManagedSession, Manager, Lease}
use copilot_openai_proxy.SessionManager.Warm.{maybe_refill}
use copilot_openai_proxy.SessionManager.Registry.{touch, give_back}
use copilot_openai_proxy.SessionManager.Acquire.{
  Outcome, returned, failed, blocked, leased_in_place, leased_entry, find_idle,
  try_activate_idle_lease, World, start_and_activate, activate_lease, replace_entry, acquire_fresh,
  acquire_fresh_from, acquire, acquire_after, acquire_waited, acquire_holding, refill_after_lease,
}
use copilot_openai_proxy.SessionManager.Invariant.{WellFormed, Names}
use copilot_openai_proxy.SessionManager.Invariant.Acquire.{
  find_idle_sound, leasable_fits, try_activate_idle_lease-WellFormed,
}
use copilot_openai_proxy.SessionManager.Invariant.Leasing.{acquire_capacity-returned}
use copilot_openai_proxy.SessionManager.Invariant.Steps.{
  acquire_unit-WellFormed, sessions-maybe_refill,
}

abbrev lease_of : ℕ → Text → ManagedSession → Lease
lease_of now id entry = record {
  conversation_id = id;
  session = touch now entry.session;
  released = false;
}

module _ {S : Semaphore} where
  -- The lease has a session, its key is that session's conversation, and under this key the registry
  -- has that session, marked leased and out of the pool.
  pub record Holds (m : Manager S) (lease : Lease) : Type 0 where
    pub named : Names lease.conversation_id lease.session
    pub entry : ManagedSession
    pub registered : get lease.conversation_id m.sessions ≡ some entry
    pub is_leased : entry.status ≡ leased
    pub unpooled : entry.pooled ≡ false
    pub same_session : entry.session ≡ lease.session
    pub fresh : lease.released ≡ false

  abbrev pub Granted : Manager S → Outcome Lease → Type 0
  Granted m (returned lease) = Holds m lease
  Granted m (failed e) = Unit {0}
  Granted m blocked = Unit {0}

  -- An idle session that tryActivateIdleLease hands out is registered as leased.
  pub try_activate_idle_lease-Holds :
      (o now : ℕ) (m : Manager S) (lease : Lease)
      → WellFormed o m
      → (try_activate_idle_lease now m).1 ≡ some lease
      → Holds (try_activate_idle_lease now m).0 lease
  unfolding try_activate_idle_lease
  try_activate_idle_lease-Holds o now m lease v e =
      elim (Option-cases (find_idle m.by_age m.sessions)) [
        | inl none_idle ↦ absurd (ground (arith, e, none_idle))
        | inr ((id, entry), at) ↦
            let found = find_idle_sound m.by_age m.sessions id entry at in
            let fits = leasable_fits o id now m entry v found.0 found.1 in
            let granted : lease_of now id entry ≡ lease = ground (arith, e, at) in
            rw (at, try_activate_idle_lease)
              (subst (Holds (record m { sessions = put id (leased_in_place now entry) m.sessions }))
                granted
                (record {
                  named = fits.1.0;
                  entry = leased_in_place now entry;
                  registered = get-put_self id (leased_in_place now entry) m.sessions;
                  is_leased = refl;
                  unpooled = refl;
                  same_session = refl;
                  fresh = refl;
                }))
      ]

  activate_lease-Holds :
      (now : ℕ) (id : Text) (session : SessionState) (m : Manager S)
      → let r = activate_lease now id session m in Holds r.0 r.1
  unfolding activate_lease replace_entry
  activate_lease-Holds now id session m = record {
    named = refl;
    entry = leased_entry now session;
    registered = get-put_self session.conversation_id (leased_entry now session) _;
    is_leased = refl;
    unpooled = refl;
    same_session = refl;
    fresh = refl;
  }

  start_and_activate-Granted :
      (w : World S) (r : Result SessionState) (m : Manager S)
      → let q = start_and_activate w r m in Granted q.0 q.1
  unfolding start_and_activate
  start_and_activate-Granted w (ok session) m = activate_lease-Holds w.now _ session _
  start_and_activate-Granted w (err e) m = tt

  same_registry-Holds :
      (m n : Manager S) (lease : Lease) → n.sessions ≡ m.sessions → Holds m lease → Holds n lease
  same_registry-Holds m n lease e h = record {
    named = h.named;
    entry = h.entry;
    registered = rw e h.registered;
    is_leased = h.is_leased;
    unpooled = h.unpooled;
    same_session = h.same_session;
    fresh = h.fresh;
  }

  acquire_fresh_from-Granted :
      (w : World S) (c : Outcome (Manager S)) (m : Manager S)
      → let q = acquire_fresh_from w c m in Granted q.0 q.1
  unfolding acquire_fresh_from
  acquire_fresh_from-Granted w (returned m') m = start_and_activate-Granted w w.started m'
  acquire_fresh_from-Granted w (failed e) m = tt
  acquire_fresh_from-Granted w blocked m = tt

  -- Whatever the state and the other goroutines, a lease that acquireFresh returns is registered under
  -- its conversation ID with its session, as leased and out of the pool.
  pub acquire_fresh-Granted :
      (w : World S) (m : Manager S) → let q = acquire_fresh w m in Granted q.0 q.1
  unfolding acquire_fresh
  acquire_fresh-Granted w m = acquire_fresh_from-Granted w _ _

  refill_after_lease-Granted :
      (q : Manager S × Outcome Lease)
      → Granted q.0 q.1
      → let r = refill_after_lease q in Granted r.0 r.1
  unfolding refill_after_lease
  refill_after_lease-Granted (m, returned lease) h =
      same_registry-Holds m (maybe_refill m) lease (sessions-maybe_refill m) h
  refill_after_lease-Granted (m, failed e) h = tt
  refill_after_lease-Granted (m, blocked) h = tt

  acquire_holding-Granted :
      (w : World S) (q : Manager S × Option Lease)
      → ((lease : Lease) → q.1 ≡ some lease → Holds q.0 lease)
      → let r = acquire_holding w q in Granted r.0 r.1
  unfolding acquire_holding give_back
  acquire_holding-Granted w (m, some lease) h =
      same_registry-Holds m _ lease (sessions-maybe_refill _) (h lease refl)
  acquire_holding-Granted w (m, none) h =
      refill_after_lease-Granted _ (start_and_activate-Granted w w.started m)

  acquire_waited-Granted :
      (o : ℕ) (w : World S) (c : Outcome (Manager S)) (m : Manager S)
      → ((m' : Manager S) → c ≡ returned m' → WellFormed (suc o) m')
      → let r = acquire_waited w c m in Granted r.0 r.1
  unfolding acquire_waited
  acquire_waited-Granted o w (returned m') m h =
      acquire_holding-Granted w _
        λ lease e. try_activate_idle_lease-Holds (suc o) w.now m' lease (h m' refl) e
  acquire_waited-Granted o w (failed e) m h = tt
  acquire_waited-Granted o w blocked m h = tt

  acquire_after-Granted :
      (o : ℕ) (w : World S) (q : Manager S × Option Lease)
      → ((n : Manager S) → WellFormed o n → WellFormed o (w.while_waiting n))
      → WellFormed o q.0
      → ((lease : Lease) → q.1 ≡ some lease → Holds q.0 lease)
      → let r = acquire_after w q in Granted r.0 r.1
  unfolding acquire_after
  acquire_after-Granted o w (m, some lease) waiting v h =
      same_registry-Holds m (maybe_refill m) lease (sessions-maybe_refill m) (h lease refl)
  acquire_after-Granted o w (m, none) waiting v h = acquire_waited-Granted o w _ _ λ m' e.
      let (c, at, same) = acquire_capacity-returned w.ended (w.while_waiting m) m' e in
      subst (WellFormed {S = S} (suc o)) (sym same)
        (acquire_unit-WellFormed o (w.while_waiting m) c at (waiting m v))

  -- From a well-formed state, where the other goroutines keep the invariant during the wait for
  -- capacity, a lease that acquire returns has a session, is not released yet, and is registered under
  -- its conversation ID with that session, as leased and out of the pool.
  pub acquire-Granted :
      (o : ℕ) (w : World S) (m : Manager S)
      → ((n : Manager S) → WellFormed o n → WellFormed o (w.while_waiting n))
      → WellFormed o m
      → let q = acquire w m in Granted q.0 q.1
  unfolding acquire
  acquire-Granted o w m waiting v =
      acquire_after-Granted o w _ waiting (try_activate_idle_lease-WellFormed o w.now m v)
        λ lease e. try_activate_idle_lease-Holds o w.now m lease v e
