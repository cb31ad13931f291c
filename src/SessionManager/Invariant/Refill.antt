-- ===== src/SessionManager/Invariant/Refill.antt =====
-- The constructor of session_manager.go and the refill goroutine of session_manager_refill.go keep
-- the invariant.
use copilot_openai_proxy.Base.{
  ℕ, suc, ◌<◌, ◌≡◌, refl, sym, inl, inr, Bool, true, not, ◌||◌, Option, none, some, arith,
  Option-cases, if_cases,
}
use mathlib.Core.Path.{subst}
use copilot_openai_proxy.Base.Int.{ℤ}
use copilot_openai_proxy.Base.Text.{Text}
use copilot_openai_proxy.Errors.{Result, ok, err}
use copilot_openai_proxy.Session.{SessionState}
use copilot_openai_proxy.SessionManager.Table.{get, has, size, count}
use copilot_openai_proxy.Base.Distinct.{elem}
use copilot_openai_proxy.SessionManager.Semaphore.{Semaphore}
use copilot_openai_proxy.SessionManager.State.{ManagedSession, Manager}
use copilot_openai_proxy.SessionManager.Warm.{is_pooled, needs_warm_idle}
use copilot_openai_proxy.SessionManager.Create.{blank_manager, new_session_manager_with_warm_pool}
use copilot_openai_proxy.SessionManager.Acquire.{
  warming_entry, idle_entry, reserve_warming, activate_idle,
}
use copilot_openai_proxy.SessionManager.Refill.{
  Round, reserve_holding, reserve_warm_idle_slot, finish_refill_pass, finish_refill_failure,
  start_pooled, refill_reserved, refill_round,
}
use copilot_openai_proxy.SessionManager.Invariant.{WellFormed, NotWarmingId}
use copilot_openai_proxy.SessionManager.Invariant.Steps.{
  maybe_refill-WellFormed, close-WellFormed, give_back-WellFormed, acquire_unit-WellFormed,
  reserve_warming-WellFormed, replace_entry-WellFormed,
}
use copilot_openai_proxy.SessionManager.Invariant.Registry.{remove-WellFormed, taken_out-WellFormed}
use copilot_openai_proxy.SessionManager.Invariant.Leasing.{
  IsNew, NamesConversation, reserve_warming-get, reserve_warming-IsNew, capacity-IsNew,
}

module _ (S : Semaphore) where
  blank_manager-WellFormed : (max warm : ℕ) → WellFormed 0 (blank_manager S max warm)
  unfolding blank_manager elem has get size count
  blank_manager-WellFormed max warm = record {
    unique = tt;
    entries = tt;
    distinct = tt;
    aligned = λ id. refl;
    accounted = omega (arith, S.held-new max);
    weighted = S.weight-new max;
    within = omega (arith, S.held-new max);
    warm_bound = omega arith;
    unused = λ n h. refl;
  }

  pub new_session_manager-WellFormed :
      (max warm : ℤ) → WellFormed 0 (new_session_manager_with_warm_pool S max warm)
  unfolding new_session_manager_with_warm_pool
  new_session_manager-WellFormed max warm =
      maybe_refill-WellFormed 0 _ (blank_manager-WellFormed _ _)

-- What the loop's round relies on of the other goroutines, as in IsFair of the callers.
pub record IsFairRound {S : Semaphore} (r : Round S) : Type 0 where
  pub starting : (o : ℕ) (m : Manager S) → WellFormed o m → WellFormed o (r.while_starting m)
  -- shutdown may take the reservation away; nothing else changes it
  pub reserved :
      (id : Text) (m : Manager S) (entry : ManagedSession)
      → get id m.sessions ≡ some (warming_entry r.now true)
      → get id (r.while_starting m).sessions ≡ some entry
      → entry ≡ warming_entry r.now true
  pub starting_new : (m : Manager S) → IsNew r.started m → IsNew r.started (r.while_starting m)
  pub named : NamesConversation r.started

-- What reserveWarmIdleSlot leaves: a reservation is a warming entry of the pool, and the session
-- that is about to start is still unknown.
pub record SlotFits {S : Semaphore} (o now : ℕ) (r : Result SessionState)
    (p : Manager S × Option Text) : Type 0 where
  pub well_formed : WellFormed o p.0
  pub reserved :
      (id : Text)
      → p.1 ≡ some id
      → (get id p.0.sessions ≡ some (warming_entry now true)) × IsNew r p.0

module _ {S : Semaphore} (o : ℕ) where
  needs_room :
      (m : Manager S) → needs_warm_idle m ≡ true → count is_pooled m.sessions < m.warm_sessions
  unfolding needs_warm_idle
  needs_room m e = ground arith

  activate_idle-WellFormed :
      (now : ℕ) (id : Text) (session : SessionState) (m : Manager S)
      → ((entry : ManagedSession) → get id m.sessions ≡ some entry → entry ≡ warming_entry now true)
      → get session.conversation_id m.sessions ≡ none
      → NotWarmingId session.conversation_id
      → WellFormed o m
      → WellFormed o (activate_idle now id session m)
  unfolding activate_idle
  activate_idle-WellFormed now id session m same new named v =
      elim (Option-cases (get id m.sessions)) [
        | inl e ↦ rw (e, activate_idle) (close-WellFormed o (some session) m v)
        | inr (entry, e) ↦
            rw (e, activate_idle)
              (if_cases (λ n. WellFormed {S = S} o n) m.cancelled _ _
                (λ over.
                  close-WellFormed o (some session) _ (taken_out-WellFormed o m v id entry e))
                (λ live.
                  replace_entry-WellFormed o id session.conversation_id entry
                    (idle_entry now session) m e new named (refl, (refl, refl))
                    (λ p. rw (same entry e)) v))
      ]

  reserve_holding-SlotFits :
      (now : ℕ) (r : Result SessionState) (m : Manager S)
      → NamesConversation r
      → IsNew r m
      → WellFormed (suc o) m
      → SlotFits o now r (reserve_holding now m)
  unfolding reserve_holding
  reserve_holding-SlotFits now r m named new v =
      if_cases (SlotFits o now r) (m.cancelled || not (needs_warm_idle m)) _ _
        (λ full. record { well_formed = give_back-WellFormed o m v; reserved = λ id e. cc })
        λ room. record {
          well_formed =
              reserve_warming-WellFormed o now true m (λ e. needs_room m (ground (arith, room))) v;
          reserved = λ id e.
              let at : id ≡ (reserve_warming now true m).1 = unfold reserve_warming in cc e in
              (
                rw at (reserve_warming-get now true m),
                reserve_warming-IsNew now true r m named new,
              );
        }

  pub reserve_warm_idle_slot-SlotFits :
      (now : ℕ) (r : Result SessionState) (m : Manager S)
      → NamesConversation r
      → IsNew r m
      → WellFormed o m
      → SlotFits o now r (reserve_warm_idle_slot now m)
  unfolding reserve_warm_idle_slot
  reserve_warm_idle_slot-SlotFits now r m named new v =
      if_cases (SlotFits o now r) m.cancelled _ _
        (λ over. record { well_formed = v; reserved = λ id e. cc })
        λ live. elim (Option-cases (S.try_acquire 1 m.capacity)) [
          | inl e ↦ rw e (record { well_formed = v; reserved = λ id e. cc })
          | inr (c, e) ↦ rw e (
              reserve_holding-SlotFits now r _ named (capacity-IsNew r m c new)
                (acquire_unit-WellFormed o m c e v))
        ]

  finish_refill_pass-WellFormed :
      (m : Manager S) → WellFormed o m → WellFormed o (finish_refill_pass m).0
  unfolding finish_refill_pass
  finish_refill_pass-WellFormed m v = ground arith

  finish_refill_failure-WellFormed :
      (m : Manager S) → WellFormed o m → WellFormed o (finish_refill_failure m)
  unfolding finish_refill_failure
  finish_refill_failure-WellFormed m v = ground arith

  start_pooled-WellFormed :
      (r : Round S) (s : Result SessionState) (id : Text) (m : Manager S)
      → IsFairRound r
      → r.started ≡ s
      → IsNew s m
      → get id m.sessions ≡ some (warming_entry r.now true)
      → WellFormed o m
      → WellFormed o (start_pooled r s id m).0
  unfolding start_pooled
  start_pooled-WellFormed r (ok session) id m fair same new at v =
      activate_idle-WellFormed r.now id session _ (λ entry e. fair.reserved id m entry at e)
        (subst (λ s. IsNew {S = S} s (r.while_starting m)) same
          (fair.starting_new m (subst (λ s. IsNew {S = S} s m) (sym same) new)))
        (subst NamesConversation same fair.named) (fair.starting o m v)
  start_pooled-WellFormed r (err e) id m fair same new at v =
      finish_refill_failure-WellFormed _ (remove-WellFormed o _ (fair.starting o m v) id)

  refill_reserved-WellFormed :
      (r : Round S) (p : Manager S × Option Text)
      → IsFairRound r
      → SlotFits o r.now r.started p
      → WellFormed o (refill_reserved r p).0
  unfolding refill_reserved
  refill_reserved-WellFormed r (m, none) fair fits =
      finish_refill_pass-WellFormed m fits.well_formed
  refill_reserved-WellFormed r (m, some id) fair fits =
      let (at, new) = fits.reserved id refl in
      start_pooled-WellFormed r r.started id m fair refl new at fits.well_formed

  -- One round of the refill loop keeps the invariant.
  pub refill_round-WellFormed :
      (r : Round S) (m : Manager S)
      → IsFairRound r
      → IsNew r.started m
      → WellFormed o m
      → WellFormed o (refill_round r m).0
  unfolding refill_round
  refill_round-WellFormed r m fair new v =
      if_cases (λ (p : Manager S × Bool). WellFormed {S = S} o p.0) m.cancelled _ _
        (λ over. finish_refill_failure-WellFormed m v)
        λ live.
          refill_reserved-WellFormed r _ fair
            (reserve_warm_idle_slot-SlotFits r.now r.started m fair.named new v)
