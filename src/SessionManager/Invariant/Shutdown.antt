-- ===== src/SessionManager/Invariant/Shutdown.antt =====
-- The operations of session_manager_shutdown.go keep the invariant.
use copilot_openai_proxy.Base.{
  ℕ, zero, suc, ◌+◌, ◌≤◌, ◌≡◌, refl, sym, ap, inl, inr, Bool, true, Option, none, List, [], ◌∷◌,
  arith, Bool-cases, ◌&&◌, ◌==◌,
}
use copilot_openai_proxy.Base.Int.{ℤ, pos, negsuc}
use copilot_openai_proxy.Base.Text.{Text}
use copilot_openai_proxy.Session.{SessionState}
use copilot_openai_proxy.SessionManager.Table.{
  Table, get, has, has_absent, get-has-false, size, count, Unique, Every,
}
use copilot_openai_proxy.SessionManager.Semaphore.{Semaphore}
use copilot_openai_proxy.SessionManager.State.{Status, ManagedSession, Manager, new_warming_id}
use copilot_openai_proxy.SessionManager.Warm.{is_pooled}
use copilot_openai_proxy.SessionManager.Registry.{compact}
use copilot_openai_proxy.SessionManager.ByAge.{elem-keep, keep-Distinct}
use copilot_openai_proxy.SessionManager.Shutdown.{
  Sweep, Fate, is_empty_list, expire_loop, sweep, give_back_many, close_all, take_expired_idle,
  take_victims, evict_expired_idle, evict_taken, refill_if_released, stop_refill, drop_taken,
  drop_idle_sessions, begin_shutdown, idle_fate, shutdown_fate,
}
use copilot_openai_proxy.SessionManager.Invariant.{WellFormed, EntryFits}
use copilot_openai_proxy.SessionManager.Invariant.Steps.{maybe_refill-WellFormed}
use copilot_openai_proxy.SessionManager.Invariant.Sweeps.{
  expire_loop-get, expire_loop-Kept, sweep-get, sweep-Swept,
}
use mathlib.Core.Path.{subst}

is_empty_list_nil {ℓ} : {A : Type ℓ} (xs : List A) → is_empty_list xs ≡ true → xs ≡ []
is_empty_list_nil [] e = refl
is_empty_list_nil (x ∷ xs) e = cc

module _ {S : Semaphore} (o : ℕ) where
  pub give_back_many-WellFormed :
      (n : ℕ) (m : Manager S) → WellFormed (n + o) m → WellFormed o (give_back_many n m)
  unfolding give_back_many
  give_back_many-WellFormed zero m v = ground arith
  give_back_many-WellFormed (suc n) m v =
      let some_held : suc n ≤ S.held m.capacity = omega arith in
      ground (
        arith,
        S.weight-release (suc n) m.capacity some_held,
        S.held-release (suc n) m.capacity some_held,
      )

  -- Entries go, and `byAge` is compacted.
  pub fewer_entries-WellFormed :
      (n : ℕ) (t : Table ManagedSession) (m : Manager S)
      → Unique t
      → Every EntryFits t
      → size m.sessions ≡ size t + n
      → count is_pooled t ≤ count is_pooled m.sessions
      → ((k : Text) → get k m.sessions ≡ none → get k t ≡ none)
      → WellFormed o m
      → WellFormed (n + o) (compact (record m { sessions = t }))
  unfolding compact
  fewer_entries-WellFormed n t m u fits units fewer get_less v = record {
    unique = u;
    entries = fits;
    distinct = keep-Distinct _ m.by_age v.distinct;
    aligned = λ j. ground (
      arith,
      elem-keep (λ k. has k t) j m.by_age,
      v.aligned j,
      has_absent j t,
      get-has-false j m.sessions,
      get_less j,
    );
    accounted = omega (arith, units, v.accounted);
    weighted = v.weighted;
    within = v.within;
    warm_bound = omega (arith, fewer, v.warm_bound);
    unused = λ j h. get_less (new_warming_id j) (v.unused j h);
  }

  -- Nothing went, and `byAge` stays.
  same_entries-WellFormed :
      (n : ℕ) (t : Table ManagedSession) (m : Manager S)
      → t ≡ m.sessions
      → size m.sessions ≡ size t + n
      → WellFormed o m
      → WellFormed (n + o) (record m { sessions = t })
  same_entries-WellFormed n t m same units v =
      let none_left : o ≡ n + o = omega (arith, ap size same) in
      subst (λ k. WellFormed {S = S} k (record m { sessions = t })) none_left
        (subst (λ u. WellFormed {S = S} o (record m { sessions = u })) (sym same) v)

  pub take_expired_idle-WellFormed :
      (now ttl : ℕ) (m : Manager S)
      → WellFormed o m
      → let r = take_expired_idle now ttl m in WellFormed (r.1.released + o) r.0
  unfolding take_expired_idle
  take_expired_idle-WellFormed now ttl m v =
      let s : Sweep = record { sessions = m.sessions; victims = []; released = 0 } in
      let k = expire_loop-Kept now ttl is_pooled m.by_age s v.unique v.entries in
      let r : Sweep = expire_loop now ttl m.by_age s in
      let units : size m.sessions ≡ size r.sessions + r.released = omega (arith, k.units) in
      let all =
        fewer_entries-WellFormed r.released r.sessions m k.unique k.entries units k.fewer
          (λ j e. ground (arith, expire_loop-get now ttl m.by_age j s, e)) v in
      elim (Bool-cases (is_empty_list r.victims)) [
        | inl nothing ↦ rw nothing (
            same_entries-WellFormed r.released r.sessions m
              (k.untouched (is_empty_list_nil r.victims nothing)).1 units v)
        | inr something ↦ rw something all
      ]

  pub take_victims-WellFormed :
      (fate : Status → Bool → Fate) (m : Manager S)
      → WellFormed o m
      → let r = take_victims fate m in WellFormed (r.1.released + o) r.0
  unfolding take_victims
  take_victims-WellFormed fate m v =
      let k = sweep-Swept fate is_pooled m.sessions v.unique v.entries in
      let r : Sweep = sweep fate m.sessions in
      let all =
        fewer_entries-WellFormed r.released r.sessions m k.unique k.entries k.units k.fewer
          (λ j e. ground (arith, sweep-get fate j m.sessions v.unique, e)) v in
      elim (Bool-cases (is_empty_list r.victims && (r.released == 0))) [
        | inl nothing ↦ rw nothing (
            same_entries-WellFormed r.released r.sessions m (k.untouched (ground (arith, nothing)))
              k.units v)
        | inr something ↦ rw something all
      ]

  pub close_all-WellFormed :
      (victims : List (Option SessionState)) (m : Manager S)
      → WellFormed o m
      → WellFormed o (close_all victims m)
  unfolding close_all
  close_all-WellFormed victims m v = ground arith

  pub stop_refill-WellFormed : (m : Manager S) → WellFormed o m → WellFormed o (stop_refill m)
  unfolding stop_refill
  stop_refill-WellFormed m v = ground arith

  refill_if_released-WellFormed :
      (n : ℕ) (m : Manager S) → WellFormed o m → WellFormed o (refill_if_released n m)
  unfolding refill_if_released
  refill_if_released-WellFormed zero m v = v
  refill_if_released-WellFormed (suc n) m v = maybe_refill-WellFormed o m v

  pub evict_expired_idle-WellFormed :
      (now : ℕ) (ttl : ℤ) (m : Manager S)
      → WellFormed o m
      → WellFormed o (evict_expired_idle now ttl m)
  unfolding evict_expired_idle evict_taken
  evict_expired_idle-WellFormed now (pos zero) m v = v
  evict_expired_idle-WellFormed now (pos (suc n)) m v =
      let r = take_expired_idle now (suc n) m in
      refill_if_released-WellFormed r.1.released _ (
        close_all-WellFormed r.1.victims _ (
          give_back_many-WellFormed r.1.released r.0
            (take_expired_idle-WellFormed now (suc n) m v)))
  evict_expired_idle-WellFormed now (negsuc n) m v = v

  drop_taken-WellFormed :
      (r : Manager S × Sweep) → WellFormed (r.1.released + o) r.0 → WellFormed o (drop_taken r)
  unfolding drop_taken
  drop_taken-WellFormed (m, s) v =
      close_all-WellFormed s.victims _ (give_back_many-WellFormed s.released m v)

  pub drop_idle_sessions-WellFormed :
      (m : Manager S) → WellFormed o m → WellFormed o (drop_idle_sessions m)
  unfolding drop_idle_sessions
  drop_idle_sessions-WellFormed m v =
      drop_taken-WellFormed (take_victims idle_fate m) (take_victims-WellFormed idle_fate m v)

  pub begin_shutdown-WellFormed : (m : Manager S) → WellFormed o m → WellFormed o (begin_shutdown m)
  unfolding begin_shutdown
  begin_shutdown-WellFormed m v =
      drop_taken-WellFormed (take_victims shutdown_fate (stop_refill m))
        (take_victims-WellFormed shutdown_fate _ (stop_refill-WellFormed m v))
