-- ===== src/SessionManager/Cancelled.antt =====
-- That the shutdown of session_manager_shutdown.go is final: what the calls after it do.
use copilot_openai_proxy.Base.{
  ℕ, zero, suc, ◌≡◌, refl, ◌∙◌, Bool, true, false, Option, none, some, arith,
}
use copilot_openai_proxy.Base.Int.{ℤ, pos, negsuc}
use copilot_openai_proxy.Base.Text.{Text}
use copilot_openai_proxy.Errors.{Err, Result, ok, err}
use copilot_openai_proxy.Session.{SessionState}
use copilot_openai_proxy.SessionManager.Semaphore.{Semaphore}
use copilot_openai_proxy.SessionManager.State.{Manager, Lease}
use copilot_openai_proxy.SessionManager.Warm.{maybe_refill}
use copilot_openai_proxy.SessionManager.Registry.{
  release, invalidate, remove, give_back, close, drop_entry, compact,
}
use copilot_openai_proxy.SessionManager.Acquire.{
  World, Outcome, returned, failed, blocked, acquire, acquire_fresh, try_activate_idle_lease,
  acquire_capacity, acquire_fresh_from, start_and_activate, acquire_holding, refill_after_lease,
  acquire_waited, acquire_after, reserve_warming, activate_lease, replace_entry,
}
use copilot_openai_proxy.SessionManager.Refill.{Round, refill_round, finish_refill_failure}
use copilot_openai_proxy.SessionManager.Shutdown.{
  Sweep, evict_expired_idle, drop_idle_sessions, begin_shutdown, take_victims, drop_taken,
  give_back_many, close_all, take_expired_idle, evict_taken, refill_if_released,
}
use copilot_openai_proxy.SessionManager.History.{
  Call, acquires, acquires_fresh, releases, invalidates, refills, evicts, drops_idle, shuts_down,
  step,
}

module _ {S : Semaphore} where
  abbrev IsCancelled : Manager S → Type 0
  IsCancelled m = m.cancelled ≡ true

  refill_stays : (m : Manager S) → IsCancelled m → maybe_refill m ≡ m
  unfolding maybe_refill
  refill_stays m h = ground arith

  cancelled-maybe_refill : (m : Manager S) → (maybe_refill m).cancelled ≡ m.cancelled
  unfolding maybe_refill
  cancelled-maybe_refill m = ground arith

  cancelled-give_back : (b : Bool) (m : Manager S) → (give_back b m).cancelled ≡ m.cancelled
  unfolding give_back
  cancelled-give_back b m = ground arith

  cancelled-remove : (id : Text) (m : Manager S) → (remove id m).cancelled ≡ m.cancelled
  unfolding remove drop_entry give_back compact
  cancelled-remove id m = ground arith

  cancelled-release :
      (now : ℕ) (id : Text) (m : Manager S) → (release now id m).cancelled ≡ m.cancelled
  unfolding release maybe_refill close give_back drop_entry compact
  cancelled-release now id m = ground arith

  cancelled-invalidate : (id : Text) (m : Manager S) → (invalidate id m).cancelled ≡ m.cancelled
  unfolding invalidate maybe_refill close give_back drop_entry compact
  cancelled-invalidate id m = ground arith

  cancelled-try_activate :
      (now : ℕ) (m : Manager S) → (try_activate_idle_lease now m).0.cancelled ≡ m.cancelled
  unfolding try_activate_idle_lease
  cancelled-try_activate now m = ground arith

  cancelled-drop_taken : (m : Manager S) (s : Sweep) → (drop_taken (m, s)).cancelled ≡ m.cancelled
  unfolding drop_taken close_all give_back_many
  cancelled-drop_taken m s = ground arith

  cancelled-drop_idle : (m : Manager S) → (drop_idle_sessions m).cancelled ≡ m.cancelled
  unfolding drop_idle_sessions drop_taken close_all give_back_many take_victims compact
  cancelled-drop_idle m = ground arith

  begin_shutdown-IsCancelled : (m : Manager S) → IsCancelled (begin_shutdown m)
  unfolding begin_shutdown drop_taken close_all give_back_many take_victims compact
  begin_shutdown-IsCancelled m = ground arith

  cancelled-evict :
      (now : ℕ) (ttl : ℤ) (m : Manager S) → (evict_expired_idle now ttl m).cancelled ≡ m.cancelled
  unfolding evict_expired_idle evict_taken close_all give_back_many take_expired_idle
      refill_if_released maybe_refill compact
  cancelled-evict now (pos zero) m = refl
  cancelled-evict now (pos (suc n)) m = ground arith
  cancelled-evict now (negsuc n) m = refl

  refill_round-IsCancelled :
      (r : Round S) (m : Manager S) → IsCancelled m → IsCancelled (refill_round r m).0
  unfolding refill_round finish_refill_failure
  refill_round-IsCancelled r m h = ground arith

  -- The other goroutines do not take the cancellation back.
  abbrev pub Keeps : (Manager S → Manager S) → Type 0
  Keeps f = (n : Manager S) → n.cancelled ≡ true → (f n).cancelled ≡ true

  abbrev pub KeepsWorld : World S → Type 0
  KeepsWorld w = Keeps w.while_waiting × Keeps w.while_starting

  cancelled-reserve :
      (now : ℕ) (pooled : Bool) (m : Manager S)
      → (reserve_warming now pooled m).0.cancelled ≡ m.cancelled
  unfolding reserve_warming
  cancelled-reserve now pooled m = refl

  cancelled-activate :
      (now : ℕ) (id : Text) (s : SessionState) (m : Manager S)
      → (activate_lease now id s m).0.cancelled ≡ m.cancelled
  unfolding activate_lease replace_entry
  cancelled-activate now id s m = refl

  start-IsCancelled :
      (w : World S) (r : Result SessionState) (m : Manager S)
      → KeepsWorld w
      → IsCancelled m
      → IsCancelled (start_and_activate w r m).0
  unfolding start_and_activate
  start-IsCancelled w (ok s) m k h =
      let (m', id) = reserve_warming w.now false m in
      cancelled-activate w.now id s (w.while_starting m')
      ∙ k.1 m' (cancelled-reserve w.now false m ∙ h)
  start-IsCancelled w (err e) m k h =
      let (m', id) = reserve_warming w.now false m in
      cancelled-remove id (w.while_starting m') ∙ k.1 m' (cancelled-reserve w.now false m ∙ h)

  granted-IsCancelled :
      (e : Option Err) (m n : Manager S)
      → acquire_capacity e m ≡ returned n
      → IsCancelled m
      → IsCancelled n
  unfolding acquire_capacity
  granted-IsCancelled e m n at h = ground arith

  fresh_from-IsCancelled :
      (w : World S) (q : Outcome (Manager S)) (m : Manager S)
      → KeepsWorld w
      → ((n : Manager S) → q ≡ returned n → IsCancelled n)
      → IsCancelled m
      → IsCancelled (acquire_fresh_from w q m).0
  unfolding acquire_fresh_from
  fresh_from-IsCancelled w (returned n) m k g h = start-IsCancelled w w.started n k (g n refl)
  fresh_from-IsCancelled w (failed e) m k g h = h
  fresh_from-IsCancelled w blocked m k g h = h

  acquire_fresh-IsCancelled :
      (w : World S) (m : Manager S)
      → KeepsWorld w
      → IsCancelled m
      → IsCancelled (acquire_fresh w m).0
  unfolding acquire_fresh
  acquire_fresh-IsCancelled w m k h =
      fresh_from-IsCancelled w (acquire_capacity w.ended (w.while_waiting m)) _ k
        (λ n at. granted-IsCancelled w.ended _ n at (k.0 m h)) (k.0 m h)

  after_lease-IsCancelled :
      (q : Manager S × Outcome Lease) → IsCancelled q.0 → IsCancelled (refill_after_lease q).0
  unfolding refill_after_lease
  after_lease-IsCancelled (m, returned lease) h = cancelled-maybe_refill m ∙ h
  after_lease-IsCancelled (m, failed e) h = h
  after_lease-IsCancelled (m, blocked) h = h

  holding-IsCancelled :
      (w : World S) (q : Manager S × Option Lease)
      → KeepsWorld w
      → IsCancelled q.0
      → IsCancelled (acquire_holding w q).0
  unfolding acquire_holding
  holding-IsCancelled w (m, some lease) k h =
      cancelled-maybe_refill _ ∙ cancelled-give_back true m ∙ h
  holding-IsCancelled w (m, none) k h =
      after_lease-IsCancelled _ (start-IsCancelled w w.started m k h)

  waited-IsCancelled :
      (w : World S) (q : Outcome (Manager S)) (m : Manager S)
      → KeepsWorld w
      → ((n : Manager S) → q ≡ returned n → IsCancelled n)
      → IsCancelled m
      → IsCancelled (acquire_waited w q m).0
  unfolding acquire_waited
  waited-IsCancelled w (returned n) m k g h =
      holding-IsCancelled w _ k (cancelled-try_activate w.now n ∙ g n refl)
  waited-IsCancelled w (failed e) m k g h = h
  waited-IsCancelled w blocked m k g h = h

  after-IsCancelled :
      (w : World S) (q : Manager S × Option Lease)
      → KeepsWorld w
      → IsCancelled q.0
      → IsCancelled (acquire_after w q).0
  unfolding acquire_after
  after-IsCancelled w (m, some lease) k h = cancelled-maybe_refill m ∙ h
  after-IsCancelled w (m, none) k h =
      waited-IsCancelled w (acquire_capacity w.ended (w.while_waiting m)) _ k
        (λ n at. granted-IsCancelled w.ended _ n at (k.0 m h)) (k.0 m h)

  acquire-IsCancelled :
      (w : World S) (m : Manager S) → KeepsWorld w → IsCancelled m → IsCancelled (acquire w m).0
  unfolding acquire
  acquire-IsCancelled w m k h = after-IsCancelled w _ k (cancelled-try_activate w.now m ∙ h)

  abbrev pub KeepsCall : Call S → Type 0
  KeepsCall (acquires w) = KeepsWorld w
  KeepsCall (acquires_fresh w) = KeepsWorld w
  KeepsCall _ = Unit {0}

  step-IsCancelled :
      (c : Call S) (m : Manager S) → KeepsCall c → IsCancelled m → IsCancelled (step c m)
  unfolding step
  step-IsCancelled (acquires w) m k h = acquire-IsCancelled w m k h
  step-IsCancelled (acquires_fresh w) m k h = acquire_fresh-IsCancelled w m k h
  step-IsCancelled (releases now id) m k h = cancelled-release now id m ∙ h
  step-IsCancelled (invalidates id) m k h = cancelled-invalidate id m ∙ h
  step-IsCancelled (refills r) m k h = refill_round-IsCancelled r m h
  step-IsCancelled (evicts now ttl) m k h = cancelled-evict now ttl m ∙ h
  step-IsCancelled drops_idle m k h = cancelled-drop_idle m ∙ h
  step-IsCancelled shuts_down m k h = begin_shutdown-IsCancelled m

  -- The states that calls lead to, with goroutines beside them that leave the cancellation alone.
  pub data Later (m : Manager S) : Manager S → Type 0 where
    at_once : Later m m
    after : {n : Manager S} → Later m n → (c : Call S) → KeepsCall c → Later m (step c n)

  Later-IsCancelled : (m n : Manager S) → IsCancelled m → Later m n → IsCancelled n
  Later-IsCancelled m _ h at_once = h
  Later-IsCancelled m _ h (after {n} l c k) = step-IsCancelled c n k (Later-IsCancelled m n h l)

  -- In every state after the start of a shutdown, no refill is asked for, and no round of the refill
  -- goroutine starts a session.
  pub no_refill-Later :
      (m n : Manager S) (r : Round S)
      → Later (begin_shutdown m) n
      → (maybe_refill n ≡ n) × (refill_round r n ≡ (finish_refill_failure n, false))
  unfolding refill_round
  no_refill-Later m n r l =
      let h = Later-IsCancelled (begin_shutdown m) n (begin_shutdown-IsCancelled m) l in
      (refill_stays n h, rw h refl)
