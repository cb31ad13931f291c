-- ===== src/SessionManager/Releases.antt =====
-- The end of a session: release and invalidate of session_manager_registry.go, and the `once` of a
-- lease in session_manager.go.
use copilot_openai_proxy.Base.{
  ℕ, ◌+◌, ◌≤◌, ◌≡◌, sym, inl, inr, Bool, true, Option, none, some, List, [], ◌∷◌, ◌++◌, arith,
  Option-cases, Bool-cases, not, ◌||◌, ap, ◌∙◌, if◌then◌else◌,
}
use mathlib.Core.List.{append-nil, append_assoc}
use copilot_openai_proxy.Base.Text.{Text, text_eq, text_eq_iff}
use copilot_openai_proxy.Session.{SessionState}
use copilot_openai_proxy.SessionManager.Table.{get, size, count-delete, get-delete}
use copilot_openai_proxy.SessionManager.Semaphore.{Semaphore}
use copilot_openai_proxy.SessionManager.State.{
  ManagedSession, Manager, Lease, Effect, spawn_refill, close_session,
}
use copilot_openai_proxy.SessionManager.Warm.{maybe_refill, needs_warm_idle}
use copilot_openai_proxy.SessionManager.Registry.{
  touch, compact, drop_entry, give_back, close, release, release_lease, invalidate,
}
use copilot_openai_proxy.SessionManager.Invariant.{WellFormed}
use copilot_openai_proxy.SessionManager.Invariant.Registry.{entry_fits}
use copilot_openai_proxy.SessionManager.Invariant.Steps.{sessions-maybe_refill}

-- The effects by which release and invalidate close what was registered: release has touched it.
abbrev pub closed_by_release : ℕ → Option ManagedSession → List Effect
closed_by_release now none = []
closed_by_release now (some entry) = close_session (touch now entry.session)

abbrev pub closed_by_invalidate : Option ManagedSession → List Effect
closed_by_invalidate none = []
closed_by_invalidate (some entry) = close_session entry.session

module _ {S : Semaphore} where
  -- What maybeRefill may add to the effects.
  refill_effects :
      (m : Manager S) → (rest : List Effect) × ((maybe_refill m).effects ≡ m.effects ++ rest)
  unfolding maybe_refill
  refill_effects m =
      elim (Bool-cases
        (if m.cancelled || not (needs_warm_idle m) then true else m.refill_running)) [
          | inl quiet ↦ ([], ground (arith, append-nil m.effects))
          | inr spawned ↦ (spawn_refill ∷ [], ground arith)
        ]

  capacity-maybe_refill : (m : Manager S) → (maybe_refill m).capacity ≡ m.capacity
  unfolding maybe_refill
  capacity-maybe_refill m = ground arith

  drop_entry-get :
      (id : Text) (b : Bool) (m : Manager S)
      → get id (give_back b (drop_entry id m)).sessions ≡ none
  unfolding drop_entry give_back compact
  drop_entry-get id b m = ground (arith, get-delete id id m.sessions, text_eq_iff id id)

  pub release-get :
      (now : ℕ) (id : Text) (m : Manager S) → get id (release now id m).sessions ≡ none
  unfolding release close
  release-get now id m = elim (Option-cases (get id m.sessions)) [
    | inl e ↦ rw (e, release) e
    | inr (entry, e) ↦
        rw (e, release, sessions-maybe_refill) (drop_entry-get id entry.holds_capacity m)
  ]

  pub invalidate-get : (id : Text) (m : Manager S) → get id (invalidate id m).sessions ≡ none
  unfolding invalidate close
  invalidate-get id m = elim (Option-cases (get id m.sessions)) [
    | inl e ↦ rw (e, invalidate) e
    | inr (entry, e) ↦
        rw (e, invalidate, sessions-maybe_refill) (drop_entry-get id entry.holds_capacity m)
  ]

  -- Where an entry is registered, at least one unit is held.
  some_held :
      (o : ℕ) (id : Text) (m : Manager S) (entry : ManagedSession)
      → WellFormed o m
      → get id m.sessions ≡ some entry
      → 1 ≤ S.held m.capacity
  unfolding size
  some_held o id m entry v e =
      omega (arith, count-delete (λ _. true) id m.sessions entry v.unique e, v.accounted)

  -- The registry and the capacity as release and invalidate leave them, and what they close.
  pub record Ends (id : Text) (m n : Manager S) (closing : List Effect) : Type 0 where
    pub gone : (k : Text) → get k n.sessions ≡ (if text_eq id k then none else get k m.sessions)
    pub unit_back : S.held n.capacity + 1 ≡ S.held m.capacity
    pub rest : List Effect
    pub closed : n.effects ≡ (m.effects ++ closing) ++ rest

  maybe_refill-Ends :
      (id : Text) (m n : Manager S) (closing : List Effect)
      → Ends id m n closing
      → Ends id m (maybe_refill n) closing
  maybe_refill-Ends id m n closing h =
      let (more, added) = refill_effects n in
      record {
        gone = λ k. rw (sessions-maybe_refill n) (h.gone k);
        unit_back = rw (capacity-maybe_refill n) h.unit_back;
        rest = h.rest ++ more;
        closed =
            added
            ∙ (ap (λ (l : List Effect). l ++ more) h.closed
                ∙ append_assoc (m.effects ++ closing) h.rest more);
      }

  taken_out-Ends :
      (o : ℕ) (id : Text) (m : Manager S) (entry : ManagedSession) (s : Option SessionState)
      → WellFormed o m
      → get id m.sessions ≡ some entry
      → Ends id m (close s (give_back entry.holds_capacity (drop_entry id m))) (close_session s)
  taken_out-Ends o id m entry s v e = rw (entry_fits o m v id entry e).0 (
      unfold close give_back drop_entry compact in
      record {
        gone = λ k. get-delete id k m.sessions;
        unit_back = omega (
          arith,
          S.held-release 1 m.capacity (some_held o id m entry v e),
          some_held o id m entry v e,
        );
        rest = [];
        closed = sym (append-nil _);
      })

  -- On a well-formed manager, release of a session that is registered takes it out of the registry,
  -- leaves every other key as it was, gives one unit of capacity back, and closes the session's
  -- connection before it asks for a refill.
  pub release-Ends :
      (o now : ℕ) (id : Text) (m : Manager S) (entry : ManagedSession)
      → WellFormed o m
      → get id m.sessions ≡ some entry
      → Ends id m (release now id m) (close_session (touch now entry.session))
  unfolding release
  release-Ends o now id m entry v e =
      rw (e, release)
        (maybe_refill-Ends id m _ _ (taken_out-Ends o id m entry (touch now entry.session) v e))

  -- On a well-formed manager, invalidate of a session that is registered takes it out of the registry,
  -- leaves every other key as it was, gives one unit of capacity back, and closes the connection of the
  -- session as it is registered before it asks for a refill.
  pub invalidate-Ends :
      (o : ℕ) (id : Text) (m : Manager S) (entry : ManagedSession)
      → WellFormed o m
      → get id m.sessions ≡ some entry
      → Ends id m (invalidate id m) (close_session entry.session)
  unfolding invalidate
  invalidate-Ends o id m entry v e =
      rw (e, invalidate)
        (maybe_refill-Ends id m _ _ (taken_out-Ends o id m entry entry.session v e))

  -- A key that is not registered is released without effect.
  release_absent :
      (now : ℕ) (id : Text) (m : Manager S) → get id m.sessions ≡ none → release now id m ≡ m
  unfolding release
  release_absent now id m e = rw (e, release)

  -- A key is not registered any more, and before all else that was done, these effects were added.
  pub record OutOf (id : Text) (m n : Manager S) (closing : List Effect) : Type 0 where
    pub gone : get id n.sessions ≡ none
    pub rest : List Effect
    pub closed : n.effects ≡ (m.effects ++ closing) ++ rest

  untouched-OutOf : (id : Text) (m : Manager S) → get id m.sessions ≡ none → OutOf id m m []
  untouched-OutOf id m e = record {
    gone = e;
    rest = [];
    closed = sym (append-nil (m.effects ++ []) ∙ append-nil m.effects);
  }

  pub release-OutOf :
      (o now : ℕ) (id : Text) (m : Manager S)
      → WellFormed o m
      → OutOf id m (release now id m) (closed_by_release now (get id m.sessions))
  release-OutOf o now id m v = elim (Option-cases (get id m.sessions)) [
    | inl e ↦ rw (release_absent now id m e, e) (untouched-OutOf id m e)
    | inr (entry, e) ↦
        let ends = release-Ends o now id m entry v e in
        record { gone = release-get now id m; rest = ends.rest; closed = rw e ends.closed }
  ]

  pub invalidate-OutOf :
      (o : ℕ) (id : Text) (m : Manager S)
      → WellFormed o m
      → OutOf id m (invalidate id m) (closed_by_invalidate (get id m.sessions))
  unfolding invalidate
  invalidate-OutOf o id m v = elim (Option-cases (get id m.sessions)) [
    | inl e ↦ rw (e, invalidate) (untouched-OutOf id m e)
    | inr (entry, e) ↦
        let ends = invalidate-Ends o id m entry v e in
        record { gone = invalidate-get id m; rest = ends.rest; closed = rw e ends.closed }
  ]

  -- After release or invalidate of a key, however often it was registered, a second release of it does
  -- nothing: no unit is given back twice, and no connection is closed twice.
  pub release_once :
      (now later : ℕ) (id : Text) (m : Manager S)
      → (release later id (release now id m) ≡ release now id m)
        × (release later id (invalidate id m) ≡ invalidate id m)
  release_once now later id m = (
    release_absent later id _ (release-get now id m),
    release_absent later id _ (invalidate-get id m),
  )

  -- Releasing one lease twice, through the value that the first release returns, is releasing it once.
  pub release_lease_once :
      (now later : ℕ) (lease : Lease) (m : Manager S)
      → let (lease', m') = release_lease now lease m in release_lease later lease' m' ≡ (lease', m')
  unfolding release_lease
  release_lease_once now later lease m = ground arith
