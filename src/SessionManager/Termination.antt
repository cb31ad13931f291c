-- ===== src/SessionManager/Termination.antt =====
-- refillLoop of session_manager_refill.go ends: each round that goes on takes a unit of capacity for
-- good or uses up the one pending request.
use copilot_openai_proxy.Base.{
  ℕ, zero, suc, ◌+◌, ◌-◌, ◌≤◌, ◌<◌, ◌≡◌, refl, sym, inl, inr, Bool, true, false, not, ◌||◌, Option,
  none, some, arith, if◌then◌else◌, if_cases, Option-cases,
}
use mathlib.Core.Path.{subst}
use copilot_openai_proxy.Base.Text.{Text}
use copilot_openai_proxy.Errors.{Result, ok, err}
use copilot_openai_proxy.Session.{SessionState}
use copilot_openai_proxy.SessionManager.Table.{get}
use copilot_openai_proxy.SessionManager.Semaphore.{Semaphore}
use copilot_openai_proxy.SessionManager.State.{Manager}
use copilot_openai_proxy.SessionManager.Warm.{needs_warm_idle}
use copilot_openai_proxy.SessionManager.Registry.{give_back}
use copilot_openai_proxy.SessionManager.Acquire.{
  warming_entry, reserve_warming, replace_entry, activate_idle,
}
use copilot_openai_proxy.SessionManager.Refill.{
  Round, reserve_holding, reserve_warm_idle_slot, finish_refill_pass, finish_refill_failure,
  start_pooled, refill_reserved, refill_round, refill_loop,
}
use copilot_openai_proxy.SessionManager.Invariant.Leasing.{reserve_warming-get}

module _ {S : Semaphore} where
  -- Units that are free, and one for a pending request.
  abbrev pub pending : Manager S → ℕ
  pending m = (S.weight m.capacity - S.held m.capacity) + (if m.refill_requested then 1 else 0)

  abbrev Stopped : Manager S → Type 0
  Stopped m = (m.refill_running ≡ false) × (m.refill_requested ≡ false)

  -- A round stops the loop and says so, or brings the measure down.
  abbrev Progress : ℕ → Manager S × Bool → Type 0
  Progress n (m, true) = pending m < n
  Progress n (m, false) = Stopped m

  finish_refill_pass-Progress :
      (n : ℕ) (m : Manager S) → pending m ≤ n → Progress n (finish_refill_pass m)
  unfolding finish_refill_pass
  finish_refill_pass-Progress n m h = ground arith

  start_pooled-Progress :
      (n : ℕ) (r : Round S) (s : Result SessionState) (id : Text) (m : Manager S)
      → ((k : Manager S) → r.while_starting k ≡ k)
      → m.cancelled ≡ false
      → get id m.sessions ≡ some (warming_entry r.now true)
      → pending m < n
      → Progress n (start_pooled r s id m)
  unfolding start_pooled finish_refill_failure
  start_pooled-Progress n r (ok session) id m alone live at h =
      subst (λ k. pending (activate_idle r.now id session k) < n) (sym (alone m))
        (unfold activate_idle replace_entry in ground (arith, live, at, h))
  start_pooled-Progress n r (err e) id m alone live at h = (refl, refl)

  -- A slot keeps the measure if there is none, and takes a free unit otherwise.
  abbrev SlotProgress : ℕ → ℕ → Manager S × Option Text → Type 0
  SlotProgress now n (m, none) = pending m ≤ n
  SlotProgress now n (m, some id) =
      (pending m < n) × (m.cancelled ≡ false) × (get id m.sessions ≡ some (warming_entry now true))

  reserve_holding-SlotProgress :
      (now n : ℕ) (m : Manager S)
      → 1 ≤ S.held m.capacity
      → S.held m.capacity ≤ S.weight m.capacity
      → suc (pending m) ≤ n
      → pending (give_back true m) ≤ n
      → SlotProgress now n (reserve_holding now m)
  unfolding reserve_holding
  reserve_holding-SlotProgress now n m taken fits less same =
      if_cases (SlotProgress now n) (m.cancelled || not (needs_warm_idle m)) _ _ (λ full. same)
        λ room.
          let at = reserve_warming-get now true m in
          unfold reserve_warming in (less, ground (arith, room), at)

  reserve_warm_idle_slot-SlotProgress :
      (now : ℕ) (m : Manager S)
      → m.cancelled ≡ false
      → SlotProgress now (pending m) (reserve_warm_idle_slot now m)
  unfolding reserve_warm_idle_slot give_back
  reserve_warm_idle_slot-SlotProgress now m live =
      if_cases (SlotProgress now (pending m)) m.cancelled _ _ (λ over. omega arith)
        λ _. elim (Option-cases (S.try_acquire 1 m.capacity)) [
          | inl e ↦ rw e (omega arith)
          | inr (c, e) ↦
              let more = S.held-acquire 1 m.capacity c e in
              let bound = S.weight-acquire 1 m.capacity c e in
              let fits = S.acquire_fits 1 m.capacity c e in
              let some_held : 1 ≤ S.held c = omega arith in
              rw e (
                reserve_holding-SlotProgress now (pending m) (record m { capacity = c }) some_held
                  (omega arith) (omega arith)
                  (omega (arith, S.held-release 1 c some_held, S.weight-release 1 c some_held)))
        ]

  refill_reserved-Progress :
      (n : ℕ) (r : Round S) (q : Manager S × Option Text)
      → ((k : Manager S) → r.while_starting k ≡ k)
      → SlotProgress r.now n q
      → Progress n (refill_reserved r q)
  unfolding refill_reserved
  refill_reserved-Progress n r (m, none) alone h = finish_refill_pass-Progress n m h
  refill_reserved-Progress n r (m, some id) alone h =
      start_pooled-Progress n r r.started id m alone h.1 h.2 h.0

  refill_round-Progress :
      (r : Round S) (m : Manager S)
      → ((k : Manager S) → r.while_starting k ≡ k)
      → Progress (pending m) (refill_round r m)
  unfolding refill_round finish_refill_failure
  refill_round-Progress r m alone =
      if_cases (Progress (pending m)) m.cancelled _ _ (λ over. (refl, refl))
        λ live.
          refill_reserved-Progress (pending m) r _ alone
            (reserve_warm_idle_slot-SlotProgress r.now m live)

  refill_after :
      (fuel : ℕ) (rounds : ℕ → Round S) (n : ℕ) (q : Manager S × Bool)
      → Progress n q
      → ((m : Manager S)
          → pending m < n
          → (m' : Manager S) × (refill_loop fuel (λ k. rounds (k + 1)) m ≡ some m') × Stopped m')
      → (m' : Manager S) × ((if q.1 then refill_loop fuel (λ k. rounds (k + 1)) q.0 else some q.0)
          ≡ some m')
        × Stopped m'
  refill_after fuel rounds n (m, true) p rest = rest m p
  refill_after fuel rounds n (m, false) p rest = (m, refl, p)

  -- When no other goroutine touches the manager, the refill loop returns, whatever its starts give,
  -- within one round more than there are free units and pending requests, and leaves itself marked as
  -- not running and nothing requested.
  pub refill_loop_total :
      (fuel : ℕ) (rounds : ℕ → Round S) (m : Manager S)
      → ((k : ℕ) (n : Manager S) → (rounds k).while_starting n ≡ n)
      → pending m < fuel
      → (m' : Manager S) × (refill_loop fuel rounds m ≡ some m')
        × (m'.refill_running ≡ false)
        × (m'.refill_requested ≡ false)
  unfolding refill_loop
  refill_loop_total zero rounds m alone h = elim h [ ]
  refill_loop_total (suc fuel) rounds m alone h =
      let (m', e, stopped) =
        refill_after fuel rounds (pending m) (refill_round (rounds 0) m)
          (refill_round-Progress (rounds 0) m (alone 0))
          (λ n less.
            let (n', e, a, b) =
              refill_loop_total fuel (λ k. rounds (k + 1)) n (λ k. alone (k + 1)) (omega arith) in
            (n', e, (a, b))) in
      (m', e, stopped.0, stopped.1)
