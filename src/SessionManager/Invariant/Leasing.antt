-- ===== src/SessionManager/Invariant/Leasing.antt =====
-- acquire and acquireFresh of session_manager_acquire.go, whole: the invariant, and what a lease
-- that they return stands for.
use copilot_openai_proxy.Base.{
  ℕ, suc, ◌≡◌, refl, sym, inl, inr, Bool, false, Option, none, some, arith, Option-cases,
}
use mathlib.Core.Path.{subst}
use copilot_openai_proxy.Base.Text.{Text, text_eq_iff, text_eq_refl}
use copilot_openai_proxy.Errors.{Err, Result, ok, err}
use copilot_openai_proxy.Session.{SessionState}
use copilot_openai_proxy.SessionManager.Table.{get, get-put}
use copilot_openai_proxy.SessionManager.Semaphore.{Semaphore}
use copilot_openai_proxy.SessionManager.State.{Manager, Lease, new_warming_id}
use copilot_openai_proxy.SessionManager.Acquire.{
  Outcome, returned, failed, blocked, warming_entry, try_activate_idle_lease, reserve_warming,
  activate_lease, acquire_capacity, World, start_and_activate, acquire_fresh, acquire,
  acquire_fresh_from, refill_after_lease, acquire_holding, acquire_waited, acquire_after,
}
use copilot_openai_proxy.SessionManager.Invariant.{WellFormed, NotWarmingId}
use copilot_openai_proxy.SessionManager.Invariant.Steps.{
  maybe_refill-WellFormed, give_back-WellFormed, acquire_unit-WellFormed,
  reserve_warming-WellFormed, replace_entry-WellFormed,
}
use copilot_openai_proxy.SessionManager.Invariant.Registry.{remove-WellFormed}
use copilot_openai_proxy.SessionManager.Invariant.Acquire.{try_activate_idle_lease-WellFormed}

-- The key of the session that the start gives is not in the registry.
abbrev pub IsNew : {S : Semaphore} → Result SessionState → Manager S → Type 0
IsNew (ok session) m = get session.conversation_id m.sessions ≡ none
IsNew (err e) m = Unit {0}

abbrev pub NamesConversation : Result SessionState → Type 0
NamesConversation (ok session) = NotWarmingId session.conversation_id
NamesConversation (err e) = Unit {0}

-- The other goroutines keep the invariant, leave a reservation that is not pooled alone, and do not
-- bring in the conversation that this call starts; its ID does not read like a warming ID.
pub record IsFair {S : Semaphore} (w : World S) : Type 0 where
  pub waiting : (o : ℕ) (m : Manager S) → WellFormed o m → WellFormed o (w.while_waiting m)
  pub starting : (o : ℕ) (m : Manager S) → WellFormed o m → WellFormed o (w.while_starting m)
  pub reserved :
      (now : ℕ) (id : Text) (m : Manager S)
      → get id m.sessions ≡ some (warming_entry now false)
      → get id (w.while_starting m).sessions ≡ some (warming_entry now false)
  pub waiting_new : (m : Manager S) → IsNew w.started m → IsNew w.started (w.while_waiting m)
  pub starting_new : (m : Manager S) → IsNew w.started m → IsNew w.started (w.while_starting m)
  pub named : NamesConversation w.started

module _ {S : Semaphore} where
  pub reserve_warming-get :
      (now : ℕ) (pooled : Bool) (m : Manager S)
      → let r = reserve_warming now pooled m in
        get r.1 r.0.sessions ≡ some (warming_entry now pooled)
  unfolding reserve_warming
  reserve_warming-get now pooled m = ground (
    arith,
    get-put (new_warming_id (suc m.warming_seq)) (new_warming_id (suc m.warming_seq))
        (warming_entry now pooled) m.sessions,
    text_eq_refl (new_warming_id (suc m.warming_seq)),
  )

  pub reserve_warming-IsNew :
      (now : ℕ) (pooled : Bool) (r : Result SessionState) (m : Manager S)
      → NamesConversation r
      → IsNew r m
      → IsNew r (reserve_warming now pooled m).0
  unfolding reserve_warming
  reserve_warming-IsNew now pooled (ok session) m named new = ground (
    arith,
    get-put (new_warming_id (suc m.warming_seq)) session.conversation_id (warming_entry now pooled)
        m.sessions,
    text_eq_iff (new_warming_id (suc m.warming_seq)) session.conversation_id,
    text_eq_iff session.conversation_id (new_warming_id (suc m.warming_seq)),
    named (suc m.warming_seq),
  )
  reserve_warming-IsNew now pooled (err e) m named new = tt

  -- activateLease at a reservation that is still there
  activate_lease-WellFormed :
      (o now : ℕ) (id : Text) (session : SessionState) (m : Manager S)
      → get id m.sessions ≡ some (warming_entry now false)
      → get session.conversation_id m.sessions ≡ none
      → NotWarmingId session.conversation_id
      → WellFormed o m
      → WellFormed o (activate_lease now id session m).0
  unfolding activate_lease
  activate_lease-WellFormed o now id session m at new named v =
      replace_entry-WellFormed o id session.conversation_id _ _ m at new named (refl, (refl, refl))
        (λ e. cc) v

  -- The state in which a start that succeeded is activated.
  reserved_then_started :
      (o : ℕ) (w : World S) (m : Manager S)
      → IsFair w
      → WellFormed (suc o) m
      → WellFormed o (w.while_starting (reserve_warming w.now false m).0)
  reserved_then_started o w m fair v =
      fair.starting o _ (reserve_warming-WellFormed o w.now false m (λ e. cc) v)

  start_and_activate-WellFormed :
      (o : ℕ) (w : World S) (r : Result SessionState) (m : Manager S)
      → IsFair w
      → w.started ≡ r
      → IsNew r m
      → WellFormed (suc o) m
      → WellFormed o (start_and_activate w r m).0
  unfolding start_and_activate
  start_and_activate-WellFormed o w (ok session) m fair same new v =
      let named : NotWarmingId session.conversation_id = subst NamesConversation same fair.named in
      let new' = reserve_warming-IsNew w.now false (ok session) m named new in
      let still_new : IsNew {S = S} (ok session)
          (w.while_starting (reserve_warming w.now false m).0) =
        subst (λ r. IsNew {S = S} r (w.while_starting (reserve_warming w.now false m).0)) same
          (fair.starting_new _
            (subst (λ r. IsNew {S = S} r (reserve_warming w.now false m).0) (sym same) new')) in
      activate_lease-WellFormed o w.now _ session _
        (fair.reserved w.now _ _ (reserve_warming-get w.now false m)) still_new named
        (reserved_then_started o w m fair v)
  start_and_activate-WellFormed o w (err e) m fair same new v =
      remove-WellFormed o _ (reserved_then_started o w m fair v) _

  acquire_fresh_from-WellFormed :
      (o : ℕ) (w : World S) (r : Outcome (Manager S)) (m : Manager S)
      → IsFair w
      → ((m' : Manager S) → r ≡ returned m' → IsNew w.started m' × WellFormed (suc o) m')
      → WellFormed o m
      → WellFormed o (acquire_fresh_from w r m).0
  unfolding acquire_fresh_from
  acquire_fresh_from-WellFormed o w (returned m') m fair h v =
      let (new, v') = h m' refl in start_and_activate-WellFormed o w w.started m' fair refl new v'
  acquire_fresh_from-WellFormed o w (failed e) m fair h v = v
  acquire_fresh_from-WellFormed o w blocked m fair h v = v

  pub capacity-IsNew :
      (r : Result SessionState) (m : Manager S) (c : S.Weighted)
      → IsNew r m
      → IsNew {S = S} r (record m { capacity = c })
  capacity-IsNew (ok session) m c new = new
  capacity-IsNew (err e) m c new = tt

  -- A grant is one of the semaphore's, and changes nothing else.
  pub acquire_capacity-returned :
      (ended : Option Err) (m m' : Manager S)
      → acquire_capacity ended m ≡ returned m'
      → (c : S.Weighted) × (S.try_acquire 1 m.capacity ≡ some c) × (m' ≡ record m { capacity = c })
  unfolding acquire_capacity
  acquire_capacity-returned (some e) m m' h = cc
  acquire_capacity-returned none m m' h = elim (Option-cases (S.try_acquire 1 m.capacity)) [
    | inl e ↦ absurd (ground (arith, h, e))
    | inr (c, e) ↦ (c, e, ground (arith, h, e))
  ]

  -- A granted unit counts as held outside.
  acquire_capacity-WellFormed :
      (o : ℕ) (ended : Option Err) (r : Result SessionState) (m m' : Manager S)
      → acquire_capacity ended m ≡ returned m'
      → IsNew r m
      → WellFormed o m
      → IsNew r m' × WellFormed (suc o) m'
  acquire_capacity-WellFormed o ended r m m' h new v =
      let (c, e, same) = acquire_capacity-returned ended m m' h in
      subst (λ n. IsNew {S = S} r n × WellFormed {S = S} (suc o) n) (sym same)
        (capacity-IsNew r m c new, acquire_unit-WellFormed o m c e v)

  -- Without a fault of the other goroutines acquireFresh keeps the invariant.
  pub acquire_fresh-WellFormed :
      (o : ℕ) (w : World S) (m : Manager S)
      → IsFair w
      → IsNew w.started m
      → WellFormed o m
      → WellFormed o (acquire_fresh w m).0
  unfolding acquire_fresh
  acquire_fresh-WellFormed o w m fair new v =
      let v' = fair.waiting o m v in
      acquire_fresh_from-WellFormed o w _ _ fair
        (λ m' e.
          acquire_capacity-WellFormed o w.ended w.started (w.while_waiting m) m' e
            (fair.waiting_new m new) v')
        v'

  refill_after_lease-WellFormed :
      (o : ℕ) (r : Manager S × Outcome Lease)
      → WellFormed o r.0
      → WellFormed o (refill_after_lease r).0
  unfolding refill_after_lease
  refill_after_lease-WellFormed o (m, returned lease) v = maybe_refill-WellFormed o m v
  refill_after_lease-WellFormed o (m, failed e) v = v
  refill_after_lease-WellFormed o (m, blocked) v = v

  acquire_holding-WellFormed :
      (o : ℕ) (w : World S) (r : Manager S × Option Lease)
      → IsFair w
      → (r.1 ≡ none → IsNew w.started r.0)
      → WellFormed (suc o) r.0
      → WellFormed o (acquire_holding w r).0
  unfolding acquire_holding
  acquire_holding-WellFormed o w (m, some lease) fair new v =
      maybe_refill-WellFormed o _ (give_back-WellFormed o m v)
  acquire_holding-WellFormed o w (m, none) fair new v =
      refill_after_lease-WellFormed o _
        (start_and_activate-WellFormed o w w.started m fair refl (new refl) v)

  -- Without an idle session the manager is left as it was.
  pub try_activate_idle_lease-none :
      (now : ℕ) (m : Manager S)
      → (try_activate_idle_lease now m).1 ≡ none
      → (try_activate_idle_lease now m).0 ≡ m
  unfolding try_activate_idle_lease
  try_activate_idle_lease-none now m e = ground arith

  acquire_waited-WellFormed :
      (o : ℕ) (w : World S) (r : Outcome (Manager S)) (m : Manager S)
      → IsFair w
      → ((m' : Manager S) → r ≡ returned m' → IsNew w.started m' × WellFormed (suc o) m')
      → WellFormed o m
      → WellFormed o (acquire_waited w r m).0
  unfolding acquire_waited
  acquire_waited-WellFormed o w (returned m') m fair h v =
      let (new, v') = h m' refl in
      acquire_holding-WellFormed o w _ fair
        (λ e.
          subst (λ n. IsNew {S = S} w.started n) (sym (try_activate_idle_lease-none w.now m' e))
            new)
        (try_activate_idle_lease-WellFormed (suc o) w.now m' v')
  acquire_waited-WellFormed o w (failed e) m fair h v = v
  acquire_waited-WellFormed o w blocked m fair h v = v

  acquire_after-WellFormed :
      (o : ℕ) (w : World S) (r : Manager S × Option Lease)
      → IsFair w
      → (r.1 ≡ none → IsNew w.started r.0)
      → WellFormed o r.0
      → WellFormed o (acquire_after w r).0
  unfolding acquire_after
  acquire_after-WellFormed o w (m, some lease) fair new v = maybe_refill-WellFormed o m v
  acquire_after-WellFormed o w (m, none) fair new v =
      let v' = fair.waiting o m v in
      acquire_waited-WellFormed o w _ _ fair
        (λ m' e.
          acquire_capacity-WellFormed o w.ended w.started (w.while_waiting m) m' e
            (fair.waiting_new m (new refl)) v')
        v'

  pub acquire-WellFormed :
      (o : ℕ) (w : World S) (m : Manager S)
      → IsFair w
      → IsNew w.started m
      → WellFormed o m
      → WellFormed o (acquire w m).0
  unfolding acquire
  acquire-WellFormed o w m fair new v =
      acquire_after-WellFormed o w _ fair
        (λ e.
          subst (λ n. IsNew {S = S} w.started n) (sym (try_activate_idle_lease-none w.now m e)) new)
        (try_activate_idle_lease-WellFormed o w.now m v)
