-- ===== src/SessionManager/Invariant/Registry.antt =====
-- release, invalidate and remove of session_manager_registry.go keep the invariant.
use copilot_openai_proxy.Base.{ℕ, ◌≡◌, inl, inr, some, Option-cases}
use copilot_openai_proxy.Base.Text.{Text}
use copilot_openai_proxy.SessionManager.Table.{get, Every-get}
use copilot_openai_proxy.SessionManager.Semaphore.{Semaphore}
use copilot_openai_proxy.SessionManager.State.{ManagedSession, Manager}
use copilot_openai_proxy.SessionManager.Registry.{
  drop_entry, give_back, release, invalidate, remove,
}
use copilot_openai_proxy.SessionManager.Invariant.{WellFormed, EntryFits}
use copilot_openai_proxy.SessionManager.Invariant.Steps.{
  maybe_refill-WellFormed, close-WellFormed, give_back-WellFormed, drop_entry-WellFormed,
}

module _ {S : Semaphore} (o : ℕ) (m : Manager S) (v : WellFormed o m) where
  pub entry_fits :
      (id : Text) (entry : ManagedSession) → get id m.sessions ≡ some entry → EntryFits id entry
  entry_fits id entry e = Every-get EntryFits id m.sessions entry v.entries e

  -- The critical section of a removal and the return of the unit that the entry held.
  pub taken_out-WellFormed :
      (id : Text) (entry : ManagedSession)
      → get id m.sessions ≡ some entry
      → WellFormed o (give_back entry.holds_capacity (drop_entry id m))
  taken_out-WellFormed id entry e =
      rw (entry_fits id entry e).0
        (give_back-WellFormed o (drop_entry id m) (drop_entry-WellFormed o id m entry e v))

  pub release-WellFormed : (now : ℕ) (id : Text) → WellFormed o (release now id m)
  unfolding release
  release-WellFormed now id = elim (Option-cases (get id m.sessions)) [
    | inl e ↦ rw (e, release) v
    | inr (entry, e) ↦
        rw (e, release)
          (maybe_refill-WellFormed o _ (close-WellFormed o _ _ (taken_out-WellFormed id entry e)))
  ]

  pub invalidate-WellFormed : (id : Text) → WellFormed o (invalidate id m)
  unfolding invalidate
  invalidate-WellFormed id = elim (Option-cases (get id m.sessions)) [
    | inl e ↦ rw (e, invalidate) v
    | inr (entry, e) ↦
        rw (e, invalidate)
          (maybe_refill-WellFormed o _ (close-WellFormed o _ _ (taken_out-WellFormed id entry e)))
  ]

  pub remove-WellFormed : (id : Text) → WellFormed o (remove id m)
  unfolding remove
  remove-WellFormed id = elim (Option-cases (get id m.sessions)) [
    | inl e ↦ rw (e, remove) v
    | inr (entry, e) ↦ rw (e, remove) (taken_out-WellFormed id entry e)
  ]
