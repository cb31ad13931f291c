-- ===== src/SessionManager/Registry.antt =====
-- session_manager_registry.go: taking sessions out of the registry. A function that the program
-- runs in more than one critical section is the sequence of those sections.
use copilot_openai_proxy.Base.{
  ℕ, Bool, true, false, Option, none, some, List, [], ◌∷◌, ◌++◌, keep, if◌then◌else◌,
}
use copilot_openai_proxy.Base.Text.{Text, text_eq}
use copilot_openai_proxy.Session.{SessionState}
use copilot_openai_proxy.SessionManager.Table.{get, delete, has}
use copilot_openai_proxy.SessionManager.Semaphore.{Semaphore}
use copilot_openai_proxy.SessionManager.State.{Manager, Lease, close_session}
use copilot_openai_proxy.SessionManager.Warm.{maybe_refill}

-- replaceByAgeLocked
unfoldable pub replace_by_age : Text → Text → List Text → List Text
replace_by_age from to [] = to ∷ []
replace_by_age from to (id ∷ ids) =
    let rest = replace_by_age from to ids in if text_eq id from then to ∷ ids else id ∷ rest

-- `entry.session.LastUsedAt = now` if the session is not nil
unfoldable pub touch : ℕ → Option SessionState → Option SessionState
touch now none = none
touch now (some session) = some (record session { last_used_at = now })

module _ {S : Semaphore} where
  -- compactLocked
  unfoldable pub compact : Manager S → Manager S
  compact m = record m { by_age = keep (λ id. has id m.sessions) m.by_age }

  -- `delete(m.sessions, id); m.compactLocked()`
  unfoldable pub drop_entry : Text → Manager S → Manager S
  unfolding compact
  drop_entry id m = compact (record m { sessions = delete id m.sessions })

  -- `if releaseCapacity { m.capacity.Release(1) }`
  unfoldable pub give_back : Bool → Manager S → Manager S
  give_back true m = record m { capacity = S.release_weight 1 m.capacity }
  give_back false m = m

  -- `closeSession(session)`
  unfoldable pub close : Option SessionState → Manager S → Manager S
  unfolding close_session
  close session m = record m { effects = m.effects ++ close_session session }

  unfoldable pub release : ℕ → Text → Manager S → Manager S
  unfolding drop_entry give_back close touch
  release now id m = elim (get id m.sessions) [
    | none ↦ m
    | some entry ↦
        maybe_refill
          (close (touch now entry.session) (give_back entry.holds_capacity (drop_entry id m)))
  ]

  unfoldable pub invalidate : Text → Manager S → Manager S
  unfolding drop_entry give_back close
  invalidate id m = elim (get id m.sessions) [
    | none ↦ m
    | some entry ↦
        maybe_refill (close entry.session (give_back entry.holds_capacity (drop_entry id m)))
  ]

  unfoldable pub remove : Text → Manager S → Manager S
  unfolding drop_entry give_back
  remove id m = elim (get id m.sessions) [
    | none ↦ m
    | some entry ↦ give_back entry.holds_capacity (drop_entry id m)
  ]

  -- `lease.Release()`: `once` runs the release the first time only.
  unfoldable pub release_lease : ℕ → Lease → Manager S → Lease × Manager S
  unfolding release
  release_lease now lease m =
      if lease.released
      then (lease, m)
      else (record lease { released = true }, release now lease.conversation_id m)
