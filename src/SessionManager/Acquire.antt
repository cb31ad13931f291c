-- ===== src/SessionManager/Acquire.antt =====
-- session_manager_acquire.go: leasing a session, idle or freshly started.
use copilot_openai_proxy.Base.{
  ℕ, suc, Bool, true, false, ◌&&◌, Option, none, some, List, [], ◌∷◌, ◌++◌, if◌then◌else◌,
}
use copilot_openai_proxy.Base.Text.{Text, codes}
use copilot_openai_proxy.Errors.{Err, Result, ok, err, new_capacity_error}
use copilot_openai_proxy.Session.{SessionState}
use copilot_openai_proxy.SessionManager.Table.{Table, get, put, delete}
use copilot_openai_proxy.SessionManager.Semaphore.{Semaphore}
use copilot_openai_proxy.SessionManager.State.{
  warming, idle, leased, is_idle, ManagedSession, Manager, Lease, new_warming_id,
}
use copilot_openai_proxy.SessionManager.Warm.{maybe_refill}
use copilot_openai_proxy.SessionManager.Registry.{
  replace_by_age, touch, drop_entry, give_back, close, remove,
}

-- How a call ends: with its result, or never, when the goroutine blocks and nothing wakes it.
pub data Outcome (A : Type 0) : Type 0 where
  returned : A → Outcome A
  failed : Err → Outcome A
  blocked : Outcome A

-- The test of tryActivateIdleLease on an entry.
abbrev pub can_lease : ManagedSession → Bool
can_lease entry = is_idle entry.status && entry.pooled

-- The first key of `byAge` whose entry can be leased, with that entry.
unfoldable pub find_idle : List Text → Table ManagedSession → Option (Text × ManagedSession)
find_idle [] t = none
find_idle (id ∷ ids) t =
    let rest = find_idle ids t in
    elim (get id t) [
      | none ↦ rest
      | some entry ↦ if can_lease entry then some (id, entry) else rest
    ]

abbrev pub warming_entry : ℕ → Bool → ManagedSession
warming_entry now pooled = record {
  session = none;
  status = warming;
  updated_at = now;
  holds_capacity = true;
  pooled = pooled;
}

abbrev pub leased_entry : ℕ → SessionState → ManagedSession
leased_entry now session = record {
  session = some session;
  status = leased;
  updated_at = now;
  holds_capacity = true;
  pooled = false;
}

abbrev pub idle_entry : ℕ → SessionState → ManagedSession
idle_entry now session = record {
  session = some session;
  status = idle;
  updated_at = now;
  holds_capacity = true;
  pooled = true;
}

-- The changes that tryActivateIdleLease makes to the entry that it leases.
abbrev pub leased_in_place : ℕ → ManagedSession → ManagedSession
leased_in_place now entry = record entry {
  session = touch now entry.session;
  status = leased;
  updated_at = now;
  pooled = false;
}

module _ {S : Semaphore} where
  lease_entry : ℕ → Text → ManagedSession → Manager S → Manager S × Option Lease
  unfolding touch
  lease_entry now id entry m = (
    record m { sessions = put id (leased_in_place now entry) m.sessions },
    some (record { conversation_id = id; session = touch now entry.session; released = false }),
  )

  unfoldable pub try_activate_idle_lease : ℕ → Manager S → Manager S × Option Lease
  unfolding lease_entry
  try_activate_idle_lease now m = elim (find_idle m.by_age m.sessions) [
    | none ↦ (m, none)
    | some (id, entry) ↦ lease_entry now id entry m
  ]

  -- reserveWarming; the new state and the key of the reservation
  unfoldable pub reserve_warming : ℕ → Bool → Manager S → Manager S × Text
  reserve_warming now pooled m =
      let id = new_warming_id (suc m.warming_seq) in
      (
        record m {
          warming_seq = suc m.warming_seq;
          sessions = put id (warming_entry now pooled) m.sessions;
          by_age = m.by_age ++ id ∷ [];
        },
        id,
      )

  -- `delete(m.sessions, warmingID); m.replaceByAgeLocked(…); m.sessions[…] = entry`
  unfoldable pub replace_entry : Text → Text → ManagedSession → Manager S → Manager S
  unfolding replace_by_age
  replace_entry warming_id id entry m = record m {
    sessions = put id entry (delete warming_id m.sessions);
    by_age = replace_by_age warming_id id m.by_age;
  }

  unfoldable pub activate_lease : ℕ → Text → SessionState → Manager S → Manager S × Lease
  unfolding replace_entry
  activate_lease now warming_id session m =
      let id = session.conversation_id in
      (
        replace_entry warming_id id (leased_entry now session) m,
        record { conversation_id = id; session = some session; released = false },
      )

  unfoldable pub activate_idle : ℕ → Text → SessionState → Manager S → Manager S
  unfolding replace_entry drop_entry give_back close
  activate_idle now warming_id session m = elim (get warming_id m.sessions) [
    | none ↦ close (some session) m
    | some entry ↦
        if m.cancelled
        then close (some session) (give_back entry.holds_capacity (drop_entry warming_id m))
        else replace_entry warming_id session.conversation_id (idle_entry now session) m
  ]

  -- `m.capacity.Acquire(ctx, 1)`: granted as soon as a unit is free, unless the context ends first,
  -- which `ended` says; with neither the goroutine blocks.
  unfoldable pub acquire_capacity : Option Err → Manager S → Outcome (Manager S)
  acquire_capacity (some e) m = failed e
  acquire_capacity none m = elim (S.try_acquire 1 m.capacity) [
    | none ↦ blocked
    | some c ↦ returned (record m { capacity = c })
  ]

-- What a call of acquire meets: the clock, whether its context ends while it waits, what
-- startSession gives, and what the other goroutines do to the manager during the two waits.
pub record World (S : Semaphore) : Type 0 where
  pub now : ℕ
  pub ended : Option Err
  pub while_waiting : Manager S → Manager S
  pub started : Result SessionState
  pub while_starting : Manager S → Manager S

module _ {S : Semaphore} where
  -- The tail that acquire and acquireFresh share: reserve, start, and activate or remove.
  unfoldable pub start_and_activate :
      World S → Result SessionState → Manager S → Manager S × Outcome Lease
  unfolding reserve_warming activate_lease remove
  start_and_activate w (ok session) m =
      let (m', warming_id) = reserve_warming w.now false m in
      let (m'', lease) = activate_lease w.now warming_id session (w.while_starting m') in
      (m'', returned lease)
  start_and_activate w (err e) m =
      let (m', warming_id) = reserve_warming w.now false m in
      (remove warming_id (w.while_starting m'), failed e)

  -- acquireFresh, from the state in which its wait for capacity ends
  unfoldable pub acquire_fresh_from :
      World S → Outcome (Manager S) → Manager S → Manager S × Outcome Lease
  acquire_fresh_from w (returned m') m = start_and_activate w w.started m'
  acquire_fresh_from w (failed e) m =
      (m, failed (new_capacity_error (codes "session capacity exhausted") e))
  acquire_fresh_from w blocked m = (m, blocked)

  unfoldable pub acquire_fresh : World S → Manager S → Manager S × Outcome Lease
  unfolding acquire_fresh_from acquire_capacity start_and_activate
  acquire_fresh w m =
      let m' = w.while_waiting m in acquire_fresh_from w (acquire_capacity w.ended m') m'

  -- `m.maybeRefill()` after a lease was activated
  unfoldable pub refill_after_lease : Manager S × Outcome Lease → Manager S × Outcome Lease
  refill_after_lease (m, returned lease) = (maybe_refill m, returned lease)
  refill_after_lease (m, failed e) = (m, failed e)
  refill_after_lease (m, blocked) = (m, blocked)

  -- acquire, once a unit of capacity is held
  unfoldable pub acquire_holding : World S → Manager S × Option Lease → Manager S × Outcome Lease
  unfolding refill_after_lease give_back start_and_activate
  acquire_holding w (m, some lease) = (maybe_refill (give_back true m), returned lease)
  acquire_holding w (m, none) = refill_after_lease (start_and_activate w w.started m)

  unfoldable pub acquire_waited :
      World S → Outcome (Manager S) → Manager S → Manager S × Outcome Lease
  unfolding acquire_holding try_activate_idle_lease
  acquire_waited w (returned m') m = acquire_holding w (try_activate_idle_lease w.now m')
  acquire_waited w (failed e) m =
      (m, failed (new_capacity_error (codes "session capacity exhausted") e))
  acquire_waited w blocked m = (m, blocked)

  unfoldable pub acquire_after : World S → Manager S × Option Lease → Manager S × Outcome Lease
  unfolding acquire_waited acquire_capacity
  acquire_after w (m, some lease) = (maybe_refill m, returned lease)
  acquire_after w (m, none) =
      let m' = w.while_waiting m in acquire_waited w (acquire_capacity w.ended m') m'

  unfoldable pub acquire : World S → Manager S → Manager S × Outcome Lease
  unfolding acquire_after try_activate_idle_lease
  acquire w m = acquire_after w (try_activate_idle_lease w.now m)
