-- ===== src/Examples/Sessions.antt =====
-- The theorems on the registry of internal/copilot/session_manager.go, on a manager with room for two
-- sessions and a warm pool of one.
use copilot_openai_proxy.Base.{ℕ, ◌≡◌, refl, ◌≤◌, true, false, some, none, [], ◌∷◌, arith}
use copilot_openai_proxy.Base.Int.{pos}
use copilot_openai_proxy.Base.Text.{Text, codes, text_eq}
use copilot_openai_proxy.Base.Decimal.{decimal}
use copilot_openai_proxy.Errors.{ok}
use copilot_openai_proxy.Session.{SessionState}
use copilot_openai_proxy.SessionManager.Table.{get, size, count, put}
use copilot_openai_proxy.SessionManager.Semaphore.{counting}
use copilot_openai_proxy.SessionManager.State.{
  Manager, ManagedSession, Lease, close_session, new_warming_id, clamp_warm, at_least_one,
}
use copilot_openai_proxy.SessionManager.Warm.{is_pooled, maybe_refill, needs_warm_idle}
use copilot_openai_proxy.SessionManager.Create.{new_session_manager_with_warm_pool}
use copilot_openai_proxy.SessionManager.Registry.{touch, release, invalidate}
use copilot_openai_proxy.SessionManager.Acquire.{World, acquire, leased_entry, find_idle}
use copilot_openai_proxy.SessionManager.Refill.{Round, refill_loop}
use copilot_openai_proxy.SessionManager.Invariant.{WellFormed, NotWarmingId}
use copilot_openai_proxy.SessionManager.Invariant.Leasing.{IsFair}
use copilot_openai_proxy.SessionManager.Invariant.Refill.{new_session_manager-WellFormed}
use copilot_openai_proxy.SessionManager.History.{
  acquires, step, Reach, here, next, Reach-WellFormed, reachable_within_capacity,
}
use copilot_openai_proxy.SessionManager.Leases.{Granted, acquire-Granted}
use copilot_openai_proxy.SessionManager.Releases.{Ends, release-Ends, release_once}
use copilot_openai_proxy.SessionManager.Termination.{refill_loop_total}

abbrev pub conversation : Text
conversation = codes "c1"

abbrev pub a_session : SessionState
a_session = record {
  conn = some 7;
  conversation_id = conversation;
  client_session_id = codes "s";
  cookies = none ∷ [];
  created_at = 1;
  last_used_at = 1;
  connected = true;
}

abbrev pub quiet_world : World counting
quiet_world = record {
  now = 5;
  ended = none;
  while_waiting = λ m. m;
  started = ok a_session;
  while_starting = λ m. m;
}

abbrev pub new_manager : Manager counting
new_manager = new_session_manager_with_warm_pool counting (pos 2) (pos 1)

pub new_manager-WellFormed : WellFormed 0 new_manager
new_manager-WellFormed = new_session_manager-WellFormed counting (pos 2) (pos 1)

pub not_warming : NotWarmingId conversation
not_warming n = unfold text_eq new_warming_id in refl

quiet-IsFair : IsFair quiet_world
quiet-IsFair = record {
  waiting = λ o m v. v;
  starting = λ o m v. v;
  reserved = λ now id m e. e;
  waiting_new = λ m h. h;
  starting_new = λ m h. h;
  named = not_warming;
}

-- The manager after a first acquire, which starts a session.
abbrev pub one_lease : Manager counting
one_lease = step (acquires quiet_world) new_manager

one_lease-Reach : Reach new_manager one_lease
unfolding get maybe_refill needs_warm_idle clamp_warm at_least_one size
one_lease-Reach =
    next here (acquires quiet_world)
      (quiet-IsFair, unfold new_session_manager_with_warm_pool in refl)

pub one_lease-WellFormed : WellFormed 0 one_lease
one_lease-WellFormed =
    Reach-WellFormed 0 new_manager one_lease new_manager-WellFormed one_lease-Reach

abbrev pub the_entry : ManagedSession
the_entry = leased_entry 5 a_session

pub one_lease-get : get conversation one_lease.sessions ≡ some the_entry
unfolding step acquire get find_idle new_session_manager_with_warm_pool maybe_refill needs_warm_idle
    clamp_warm at_least_one size put text_eq new_warming_id decimal
one_lease-get = refl

reachable_within_capacity_example :
    WellFormed 0 one_lease
    × (counting.held one_lease.capacity ≡ size one_lease.sessions)
    × (size one_lease.sessions ≤ one_lease.max_sessions)
    × (count is_pooled one_lease.sessions ≤ one_lease.warm_sessions)
reachable_within_capacity_example =
    reachable_within_capacity counting (pos 2) (pos 1) one_lease one_lease-Reach

acquire-Granted_example : let q = acquire quiet_world new_manager in Granted q.0 q.1
acquire-Granted_example =
    acquire-Granted 0 quiet_world new_manager (λ n v. v) new_manager-WellFormed

release-Ends_example :
    Ends conversation one_lease
      (release 9 conversation one_lease)
      (close_session (touch 9 the_entry.session))
release-Ends_example =
    release-Ends 0 9 conversation one_lease the_entry one_lease-WellFormed one_lease-get

release_once_example :
    (release 11 conversation (release 9 conversation one_lease) ≡ release 9 conversation one_lease)
    × (release 11 conversation (invalidate conversation one_lease)
        ≡ invalidate conversation one_lease)
release_once_example = release_once 9 11 conversation one_lease

abbrev a_lease : Lease
a_lease = record { conversation_id = conversation; session = some a_session; released = false }

-- Every round starts the same session.
abbrev quiet_rounds : ℕ → Round counting
quiet_rounds k = record { now = k; started = ok a_session; while_starting = λ m. m }

refill_loop_total_example :
    (m : Manager counting) × (refill_loop 4 quiet_rounds new_manager ≡ some m)
    × (m.refill_running ≡ false)
    × (m.refill_requested ≡ false)
unfolding maybe_refill needs_warm_idle clamp_warm at_least_one size
refill_loop_total_example =
    refill_loop_total 4 quiet_rounds new_manager (λ k n. refl)
      (unfold new_session_manager_with_warm_pool in omega arith)
