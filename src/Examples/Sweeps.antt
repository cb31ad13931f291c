-- ===== src/Examples/Sweeps.antt =====
-- The theorems on the janitor's tick and on shutdown, internal/copilot/session_manager_shutdown.go.
use copilot_openai_proxy.Base.{ℕ, ◌≡◌, refl, false, some, none, [], ◌∷◌, arith}
use copilot_openai_proxy.Base.Int.{pos, negsuc}
use copilot_openai_proxy.Base.Text.{Text, text_eq}
use copilot_openai_proxy.Errors.{Err, deadline_exceeded}
use copilot_openai_proxy.SessionManager.Table.{get, size, put}
use copilot_openai_proxy.SessionManager.State.{Manager}
use copilot_openai_proxy.SessionManager.Semaphore.{counting}
use copilot_openai_proxy.SessionManager.Warm.{maybe_refill}
use copilot_openai_proxy.SessionManager.Registry.{release}
use copilot_openai_proxy.SessionManager.Shutdown.{
  evict_expired_idle, begin_shutdown, shutdown, sweep, shutdown_fate,
}
use copilot_openai_proxy.Errors.{ok}
use copilot_openai_proxy.Base.Decimal.{decimal}
use copilot_openai_proxy.SessionManager.State.{clamp_warm, at_least_one, new_warming_id}
use copilot_openai_proxy.SessionManager.Warm.{needs_warm_idle}
use copilot_openai_proxy.SessionManager.Acquire.{idle_entry}
use copilot_openai_proxy.SessionManager.Refill.{Round, refill_round, finish_refill_failure}
use copilot_openai_proxy.SessionManager.Create.{new_session_manager_with_warm_pool}
use copilot_openai_proxy.SessionManager.Invariant.{WellFormed}
use copilot_openai_proxy.SessionManager.Invariant.Refill.{IsFairRound}
use copilot_openai_proxy.SessionManager.History.{
  refills, releases, step, here, next, Reach-WellFormed,
}
use copilot_openai_proxy.SessionManager.Cancelled.{at_once, after}
use copilot_openai_proxy.SessionManager.Evictions.{survivor, evict_expired_idle-exact}
use copilot_openai_proxy.SessionManager.Drain.{
  after_ticks, when_in_use, begin_shutdown-in_use, shutdown_completes, shutdown_drained,
}
use copilot_openai_proxy.Examples.Sessions.{
  conversation, not_warming, a_session, new_manager, new_manager-WellFormed, the_entry, one_lease,
  one_lease-WellFormed,
}

-- The refill goroutine has started one session, which is idle at its time 5.
abbrev quiet_round : Round counting
quiet_round = record { now = 5; started = ok a_session; while_starting = λ m. m }

quiet_round-IsFairRound : IsFairRound quiet_round
quiet_round-IsFairRound = record {
  starting = λ o m v. v;
  reserved = λ id m entry there same. cc;
  starting_new = λ m h. h;
  named = not_warming;
}

abbrev one_idle : Manager counting
one_idle = step (refills quiet_round) new_manager

one_idle-WellFormed : WellFormed 0 one_idle
unfolding needs_warm_idle clamp_warm at_least_one size
one_idle-WellFormed = Reach-WellFormed 0 new_manager one_idle new_manager-WellFormed (
    next here (refills quiet_round)
      (quiet_round-IsFairRound, unfold new_session_manager_with_warm_pool maybe_refill get in refl))

-- It is there, and it has expired at time 90.
one_idle-expires :
    (get conversation one_idle.sessions ≡ some (idle_entry 5 a_session))
    × (survivor 90 10 (some (idle_entry 5 a_session)) ≡ none)
unfolding step get refill_round new_session_manager_with_warm_pool maybe_refill needs_warm_idle
    clamp_warm at_least_one size put text_eq new_warming_id decimal
one_idle-expires = (refl, refl)

evict_expired_idle-exact_example :
    ((k : Text)
      → get k (evict_expired_idle 90 (pos 10) one_idle).sessions
        ≡ survivor 90 10 (get k one_idle.sessions))
    × (evict_expired_idle 90 (pos 0) one_idle ≡ one_idle)
    × ((j : ℕ) → evict_expired_idle 90 (negsuc j) one_idle ≡ one_idle)
evict_expired_idle-exact_example = evict_expired_idle-exact 0 90 9 one_idle one_idle-WellFormed

-- The lease is released after the start of the shutdown.
abbrev released_later : Manager counting
released_later = step (releases 9 conversation) (begin_shutdown one_lease)

begin_shutdown-in_use_example :
    (get conversation (begin_shutdown one_lease).sessions
      ≡ when_in_use (get conversation one_lease.sessions))
    × (maybe_refill released_later ≡ released_later)
    × (refill_round quiet_round released_later ≡ (finish_refill_failure released_later, false))
begin_shutdown-in_use_example =
    begin_shutdown-in_use 0 one_lease conversation released_later quiet_round one_lease-WellFormed
      (after at_once (releases 9 conversation) tt)

-- The same registry, with its capacity, written out.
abbrev leased_manager : Manager counting
leased_manager = record {
  sessions = (conversation, the_entry) ∷ [];
  by_age = conversation ∷ [];
  max_sessions = 2;
  warm_sessions = 1;
  capacity = record { bound = 2; taken = 1 };
  cancelled = false;
  warming_seq = 1;
  refill_running = false;
  refill_requested = false;
  effects = [];
}

-- The one lease is released while shutdown waits for its first tick.
abbrev releasing : ℕ → Manager counting → Manager counting
releasing j m = release 9 conversation m

shutdown_completes_example :
    (shutdown 3 releasing (Err.sentinel deadline_exceeded) leased_manager).1 ≡ Err.nil
unfolding size after_ticks release get put begin_shutdown sweep maybe_refill text_eq shutdown_fate
shutdown_completes_example =
    shutdown_completes 3 1 releasing (Err.sentinel deadline_exceeded) leased_manager (omega arith)
      refl

shutdown_drained_example :
    size (shutdown 3 releasing (Err.sentinel deadline_exceeded) leased_manager).0.sessions ≡ 0
unfolding size after_ticks release get put begin_shutdown sweep maybe_refill text_eq shutdown_fate
shutdown_drained_example =
    shutdown_drained 3 releasing (Err.sentinel deadline_exceeded) leased_manager (λ e. cc)
      (shutdown_completes 3 1 releasing (Err.sentinel deadline_exceeded) leased_manager
        (omega arith) refl)
