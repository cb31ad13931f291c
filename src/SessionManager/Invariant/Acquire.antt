-- ===== src/SessionManager/Invariant/Acquire.antt =====
-- The functions of session_manager_acquire.go keep the invariant, whatever the other goroutines do
-- to the manager while a call waits, as long as those keep it too.
use copilot_openai_proxy.Base.{
  ℕ, ◌≡◌, refl, inl, inr, Bool, true, Option, none, some, List, [], ◌∷◌, arith, Option-cases,
}
use copilot_openai_proxy.Base.Text.{Text, text_eq_iff}
use copilot_openai_proxy.Session.{SessionState}
use copilot_openai_proxy.SessionManager.Table.{
  Table, get, put, size, count, get-put, put-Unique, put-Every, has-put, count-delete, has-get,
}
use copilot_openai_proxy.SessionManager.Semaphore.{Semaphore}
use copilot_openai_proxy.SessionManager.State.{
  idle, is_idle, Status, ManagedSession, Manager, new_warming_id,
}
use copilot_openai_proxy.SessionManager.Warm.{is_pooled}
use copilot_openai_proxy.SessionManager.Registry.{touch}
use copilot_openai_proxy.SessionManager.Acquire.{
  can_lease, leased_in_place, find_idle, try_activate_idle_lease,
}
use copilot_openai_proxy.SessionManager.Invariant.{WellFormed, EntryFits, StatusFits, Names}
use copilot_openai_proxy.SessionManager.Invariant.Registry.{entry_fits}

-- What find_idle returns is an entry of the registry that can be leased.
pub find_idle_sound :
    (ids : List Text) (t : Table ManagedSession) (id : Text) (entry : ManagedSession)
    → find_idle ids t ≡ some (id, entry)
    → (get id t ≡ some entry) × (can_lease entry ≡ true)
unfolding find_idle
find_idle_sound [] t id entry e = cc
find_idle_sound (j ∷ ids) t id entry e = ground (arith, find_idle_sound ids t id entry)

touched_Names :
    (id : Text) (now : ℕ) (session : Option SessionState) (pooled : Bool) (status : Status)
    → StatusFits id session pooled status
    → is_idle status ≡ true
    → Names id (touch now session)
unfolding touch
touched_Names id now none pooled idle h e = absurd h.0
touched_Names id now (some session) pooled idle h e = h.0
touched_Names id now session pooled _ h e = cc

module _ {S : Semaphore} (o : ℕ) where
  -- An entry is changed in place.
  pub set_entry-WellFormed :
      (id : Text) (old new : ManagedSession) (m : Manager S)
      → get id m.sessions ≡ some old
      → EntryFits id new
      → (is_pooled new ≡ true → is_pooled old ≡ true)
      → WellFormed o m
      → WellFormed o (record m { sessions = put id new m.sessions })
  unfolding put size count
  set_entry-WellFormed id old new m at fits pool v = record {
    unique = put-Unique id new m.sessions v.unique;
    entries = put-Every EntryFits id new m.sessions fits v.entries;
    distinct = v.distinct;
    aligned = λ j. ground (
      arith,
      has-put id j new m.sessions,
      v.aligned j,
      has-get id m.sessions old at,
      text_eq_iff id j,
    );
    accounted = omega (arith, count-delete (λ _. true) id m.sessions old v.unique at, v.accounted);
    weighted = v.weighted;
    within = v.within;
    warm_bound = ground (arith, count-delete is_pooled id m.sessions old v.unique at);
    unused = λ n h. ground (
      arith,
      get-put id (new_warming_id n) new m.sessions,
      v.unused n h,
      text_eq_iff id (new_warming_id n),
    );
  }

  pub leasable_fits :
      (id : Text) (now : ℕ) (m : Manager S) (entry : ManagedSession)
      → WellFormed o m
      → get id m.sessions ≡ some entry
      → can_lease entry ≡ true
      → EntryFits id (leased_in_place now entry)
  leasable_fits id now m entry v at able =
      let fits = entry_fits o m v id entry at in
      (
        fits.0,
        (touched_Names id now entry.session entry.pooled entry.status fits.1 (ground arith), refl),
      )

  pub try_activate_idle_lease-WellFormed :
      (now : ℕ) (m : Manager S) → WellFormed o m → WellFormed o (try_activate_idle_lease now m).0
  unfolding try_activate_idle_lease
  try_activate_idle_lease-WellFormed now m v = elim (Option-cases (find_idle m.by_age m.sessions)) [
    | inl e ↦ rw (e, try_activate_idle_lease) v
    | inr ((id, entry), e) ↦
        let found = find_idle_sound m.by_age m.sessions id entry e in
        rw (e, try_activate_idle_lease)
          (set_entry-WellFormed id entry _ m found.0
            (leasable_fits id now m entry v found.0 found.1) (λ no_pool. cc) v)
  ]
