-- ===== src/SessionManager/Invariant/Steps.antt =====
-- Each change that the manager makes to its state keeps the invariant, with the unit of capacity
-- that it moves into or out of the registry counted outside.
use copilot_openai_proxy.Base.{
  ℕ, suc, ◌≤◌, ◌<◌, ◌≡◌, refl, Bool, true, false, Option, none, some, arith,
}
use copilot_openai_proxy.Base.Text.{Text}
use copilot_openai_proxy.SessionManager.Table.{
  get, has, size, count, delete, get-delete, get-put, has-delete, has-put, delete-Unique,
  put-Unique, delete-Every, put-Every, count-delete, has_absent, count-put_absent,
}
use copilot_openai_proxy.SessionManager.Semaphore.{Semaphore}
use copilot_openai_proxy.SessionManager.State.{ManagedSession, Manager, new_warming_id}
use copilot_openai_proxy.SessionManager.Acquire.{warming_entry, reserve_warming, replace_entry}
use copilot_openai_proxy.SessionManager.Invariant.WarmingIds.{new_warming_id-ne}
use copilot_openai_proxy.SessionManager.Warm.{is_pooled, maybe_refill}
use copilot_openai_proxy.SessionManager.Registry.{compact, drop_entry, give_back, close}
use copilot_openai_proxy.Base.Distinct.{elem, elem-append, append-Distinct}
use copilot_openai_proxy.SessionManager.ByAge.{
  elem-keep, keep-Distinct, elem-replace_by_age, replace_by_age-Distinct,
}
use copilot_openai_proxy.SessionManager.Invariant.{WellFormed, EntryFits, NotWarmingId}

module _ {S : Semaphore} where
  pub maybe_refill-WellFormed :
      (o : ℕ) (m : Manager S) → WellFormed o m → WellFormed o (maybe_refill m)
  unfolding maybe_refill
  maybe_refill-WellFormed o m v = ground arith

  -- maybeRefill leaves the registry alone.
  pub sessions-maybe_refill : (m : Manager S) → (maybe_refill m).sessions ≡ m.sessions
  unfolding maybe_refill
  sessions-maybe_refill m = ground arith

  pub close-WellFormed :
      (o : ℕ) (s : Option _) (m : Manager S) → WellFormed o m → WellFormed o (close s m)
  unfolding close
  close-WellFormed o s m v = ground arith

  pub give_back-WellFormed :
      (o : ℕ) (m : Manager S) → WellFormed (suc o) m → WellFormed o (give_back true m)
  unfolding give_back
  give_back-WellFormed o m v =
      let some_held : 1 ≤ S.held m.capacity = omega arith in
      ground (arith, S.weight-release 1 m.capacity some_held, S.held-release 1 m.capacity some_held)

  pub acquire_unit-WellFormed :
      (o : ℕ) (m : Manager S) (c : S.Weighted)
      → S.try_acquire 1 m.capacity ≡ some c
      → WellFormed o m
      → WellFormed (suc o) (record m { capacity = c })
  acquire_unit-WellFormed o m c e v = ground (
    arith,
    S.weight-acquire 1 m.capacity c e,
    S.held-acquire 1 m.capacity c e,
    S.acquire_fits 1 m.capacity c e,
  )

  pub drop_entry-WellFormed :
      (o : ℕ) (id : Text) (m : Manager S) (entry : ManagedSession)
      → get id m.sessions ≡ some entry
      → WellFormed o m
      → WellFormed (suc o) (drop_entry id m)
  unfolding drop_entry compact size
  drop_entry-WellFormed o id m entry e v = record {
    unique = delete-Unique id m.sessions v.unique;
    entries = delete-Every EntryFits id m.sessions v.entries;
    distinct = keep-Distinct _ m.by_age v.distinct;
    aligned = λ j. ground (
      arith,
      elem-keep (λ k. has k (delete id m.sessions)) j m.by_age,
      has-delete id j m.sessions,
      v.aligned j,
    );
    accounted = omega (arith, count-delete (λ _. true) id m.sessions entry v.unique e, v.accounted);
    weighted = v.weighted;
    within = v.within;
    warm_bound = ground (arith, count-delete is_pooled id m.sessions entry v.unique e);
    unused = λ n h. ground (arith, get-delete id (new_warming_id n) m.sessions, v.unused n h);
  }

  -- A reservation takes over one unit that was held outside. One for the pool needs room there.
  pub reserve_warming-WellFormed :
      (o now : ℕ) (pooled : Bool) (m : Manager S)
      → (pooled ≡ true → count is_pooled m.sessions < m.warm_sessions)
      → WellFormed (suc o) m
      → WellFormed o (reserve_warming now pooled m).0
  unfolding reserve_warming size
  reserve_warming-WellFormed o now pooled m room v =
      let id = new_warming_id (suc m.warming_seq) in
      let absent : get id m.sessions ≡ none = v.unused (suc m.warming_seq) (omega arith) in
      record {
        unique = put-Unique id _ m.sessions v.unique;
        entries = put-Every EntryFits id _ m.sessions (refl, refl) v.entries;
        distinct =
            append-Distinct id m.by_age
              (ground (arith, v.aligned id, has_absent id m.sessions absent)) v.distinct;
        aligned = λ j. ground (
          arith,
          elem-append j id m.by_age,
          has-put id j (warming_entry now pooled) m.sessions,
          v.aligned j,
        );
        accounted = omega (
          arith,
          count-put_absent (λ _. true) id (warming_entry now pooled) m.sessions absent,
          v.accounted,
        );
        weighted = v.weighted;
        within = v.within;
        warm_bound =
            ground
              (arith, count-put_absent is_pooled id (warming_entry now pooled) m.sessions absent);
        unused = λ n h. ground (
          arith,
          get-put id (new_warming_id n) (warming_entry now pooled) m.sessions,
          v.unused n,
          new_warming_id-ne (suc m.warming_seq) n,
        );
      }

  -- An entry is put in place of the one of another key, which frees that key.
  pub replace_entry-WellFormed :
      (o : ℕ) (from to : Text) (old new : ManagedSession) (m : Manager S)
      → get from m.sessions ≡ some old
      → get to m.sessions ≡ none
      → NotWarmingId to
      → EntryFits to new
      → (is_pooled new ≡ true → is_pooled old ≡ true)
      → WellFormed o m
      → WellFormed o (replace_entry from to new m)
  unfolding replace_entry size
  replace_entry-WellFormed o from to old new m at absent named fits pool v =
      let gone : get to (delete from m.sessions) ≡ none =
        ground (arith, get-delete from to m.sessions) in
      let unlisted : elem to m.by_age ≡ false =
        ground (arith, v.aligned to, has_absent to m.sessions absent) in
      record {
        unique = put-Unique to new _ (delete-Unique from m.sessions v.unique);
        entries =
            put-Every EntryFits to new _ fits (delete-Every EntryFits from m.sessions v.entries);
        distinct = replace_by_age-Distinct from to m.by_age v.distinct unlisted;
        aligned = λ j. ground (
          arith,
          elem-replace_by_age from to j m.by_age v.distinct unlisted,
          has-put to j new (delete from m.sessions),
          has-delete from j m.sessions,
          v.aligned j,
        );
        accounted = omega (
          arith,
          count-put_absent (λ _. true) to new (delete from m.sessions) gone,
          count-delete (λ _. true) from m.sessions old v.unique at,
          v.accounted,
        );
        weighted = v.weighted;
        within = v.within;
        warm_bound = ground (
          arith,
          count-put_absent is_pooled to new (delete from m.sessions) gone,
          count-delete is_pooled from m.sessions old v.unique at,
        );
        unused = λ n h. ground (
          arith,
          get-put to (new_warming_id n) new (delete from m.sessions),
          get-delete from (new_warming_id n) m.sessions,
          v.unused n h,
          named n,
        );
      }
