-- ===== src/SessionManager/Invariant/Sweeps.antt =====
-- The two loops of session_manager_shutdown.go over the registry: what they leave and what they take.
use copilot_openai_proxy.Base.{
  ℕ, ◌+◌, ◌≤◌, ◌≡◌, refl, ◌∙◌, inl, inr, Bool, true, ◌&&◌, Option, none, some, List, [], ◌∷◌, ◌++◌,
  arith, Option-cases, Bool-cases, if◌then◌else◌, ◌≢◌,
}
use copilot_openai_proxy.Base.Text.{Text, text_eq, text_eq_iff}
use copilot_openai_proxy.SessionManager.Table.{
  Table, get, size, count, Unique, Every, get-delete, delete-Unique, delete-Every, count-delete,
  Every-get,
}
use copilot_openai_proxy.SessionManager.State.{Status, ManagedSession}
use copilot_openai_proxy.Base.Distinct.{elem}
use copilot_openai_proxy.SessionManager.Shutdown.{
  Sweep, Fate, spare, drop, evict, has_expired, expire_one, expire_loop, sweep, sweep_entry,
}
use copilot_openai_proxy.SessionManager.Invariant.{EntryFits}

-- What a pass over the keys leaves of the entry at a key that it meets, or not.
abbrev pub unexpired : ℕ → ℕ → Bool → Option ManagedSession → Option ManagedSession
unexpired now ttl met none = none
unexpired now ttl met (some entry) = if met && has_expired now ttl entry then none else some entry

module _ (now ttl : ℕ) where
  expire_one-get :
      (id k : Text) (s : Sweep)
      → get k (expire_one now ttl id (get id s.sessions) s).sessions
        ≡ unexpired now ttl (text_eq id k) (get k s.sessions)
  unfolding expire_one
  expire_one-get id k s = ground (arith, get-delete id k s.sessions, text_eq_iff id k)

  -- Exactly the expired entries at the keys that the loop meets are gone.
  pub expire_loop-get :
      (ids : List Text) (k : Text) (s : Sweep)
      → get k (expire_loop now ttl ids s).sessions
        ≡ unexpired now ttl (elem k ids) (get k s.sessions)
  unfolding expire_loop elem
  expire_loop-get [] k s = ground arith
  expire_loop-get (id ∷ ids) k s = ground (
    arith,
    expire_loop-get ids k (expire_one now ttl id (get id s.sessions) s),
    expire_one-get id k s,
  )

  -- What is kept through the loop, with the units of the entries that it took.
  pub record Kept (p : ManagedSession → Bool) (s r : Sweep) : Type 0 where
    pub unique : Unique r.sessions
    pub entries : Every EntryFits r.sessions
    pub units : size s.sessions + s.released ≡ size r.sessions + r.released
    pub fewer : count p r.sessions ≤ count p s.sessions
    pub untouched : r.victims ≡ [] → (s.victims ≡ []) × (r.sessions ≡ s.sessions)

  append_ne_nil {ℓ} : {A : Type ℓ} (xs : List A) (x : A) → xs ++ x ∷ [] ≢ []
  append_ne_nil [] x e = cc
  append_ne_nil (y ∷ xs) x e = cc

  expire_one-Kept :
      (p : ManagedSession → Bool) (id : Text) (s : Sweep)
      → Unique s.sessions
      → Every EntryFits s.sessions
      → Kept p s (expire_one now ttl id (get id s.sessions) s)
  unfolding expire_one size
  expire_one-Kept p id s u fits = elim (Option-cases (get id s.sessions)) [
    | inl e ↦ rw e (record {
      unique = u;
      entries = fits;
      units = refl;
      fewer = omega arith;
      untouched = λ h. (h, refl);
    })
    | inr (entry, e) ↦ elim (Bool-cases (has_expired now ttl entry)) [
      | inl old ↦
          rw (e, expire_one, old)
            (record {
              unique = delete-Unique id s.sessions u;
              entries = delete-Every EntryFits id s.sessions fits;
              units =
                  rw (Every-get EntryFits id s.sessions entry fits e).0
                    (omega (arith, count-delete (λ _. true) id s.sessions entry u e));
              fewer = ground (arith, count-delete p id s.sessions entry u e);
              untouched = λ h. absurd (append_ne_nil s.victims entry.session h);
            })
      | inr young ↦
          rw (e, expire_one, young)
            (record {
              unique = u;
              entries = fits;
              units = refl;
              fewer = omega arith;
              untouched = λ h. (h, refl);
            })
    ]
  ]

  pub expire_loop-Kept :
      (p : ManagedSession → Bool) (ids : List Text) (s : Sweep)
      → Unique s.sessions
      → Every EntryFits s.sessions
      → Kept p s (expire_loop now ttl ids s)
  unfolding expire_loop
  expire_loop-Kept p [] s u fits = record {
    unique = u;
    entries = fits;
    units = refl;
    fewer = omega arith;
    untouched = λ h. (h, refl);
  }
  expire_loop-Kept p (id ∷ ids) s u fits =
      let one = expire_one-Kept p id s u fits in
      let rest = expire_loop-Kept p ids _ one.unique one.entries in
      record {
        unique = rest.unique;
        entries = rest.entries;
        units = omega (arith, one.units, rest.units);
        fewer = omega (arith, one.fewer, rest.fewer);
        untouched = λ h.
            let (none_yet, same) = rest.untouched h in
            let (none_before, same') = one.untouched none_yet in (none_before, same ∙ same');
      }

-- What a sweep leaves of an entry.
abbrev pub spared : (Status → Bool → Fate) → Option ManagedSession → Option ManagedSession
spared fate none = none
spared fate (some entry) = elim (fate entry.status entry.pooled) [
  | spare ↦ some entry
  | drop ↦ none
  | evict ↦ none
]

-- The same for a sweep of all entries.
pub record Swept (p : ManagedSession → Bool) (t : Table ManagedSession) (r : Sweep) : Type 0 where
  pub unique : Unique r.sessions
  pub entries : Every EntryFits r.sessions
  pub units : size t ≡ size r.sessions + r.released
  pub fewer : count p r.sessions ≤ count p t
  pub untouched : r.released ≡ 0 → r.sessions ≡ t

module _ (fate : Status → Bool → Fate) where
  pub sweep-get :
      (k : Text) (t : Table ManagedSession)
      → Unique t
      → get k (sweep fate t).sessions ≡ spared fate (get k t)
  unfolding sweep get sweep_entry
  sweep-get k [] u = refl
  sweep-get k ((id, entry) ∷ t) u = ground (arith, sweep-get k t u.1, text_eq_iff id k)

  sweep-Unique : (t : Table ManagedSession) → Unique t → Unique (sweep fate t).sessions
  unfolding sweep sweep_entry
  sweep-Unique [] u = tt
  sweep-Unique ((id, entry) ∷ t) u = ground (arith, sweep-Unique t u.1, sweep-get id t u.1)

  sweep-Every :
      (t : Table ManagedSession) → Every EntryFits t → Every EntryFits (sweep fate t).sessions
  unfolding sweep sweep_entry
  sweep-Every [] h = tt
  sweep-Every ((id, entry) ∷ t) h =
      elim (fate entry.status entry.pooled)
        as (λ f. Every EntryFits (sweep_entry f id entry (sweep fate t)).sessions) [
          | spare ↦ (h.0, sweep-Every t h.1)
          | drop ↦ sweep-Every t h.1
          | evict ↦ sweep-Every t h.1
        ]

  -- Each entry is kept or its unit is counted as released.
  size-sweep :
      (t : Table ManagedSession)
      → Every EntryFits t
      → size t ≡ size (sweep fate t).sessions + (sweep fate t).released
  unfolding sweep sweep_entry size count
  size-sweep [] h = refl
  size-sweep ((id, entry) ∷ t) h = ground (arith, size-sweep t h.1)

  count-sweep :
      (p : ManagedSession → Bool) (t : Table ManagedSession)
      → count p (sweep fate t).sessions ≤ count p t
  unfolding sweep sweep_entry count
  count-sweep p [] = omega arith
  count-sweep p ((id, entry) ∷ t) = ground (arith, count-sweep p t)

  sweep_nothing :
      (t : Table ManagedSession)
      → Every EntryFits t
      → (sweep fate t).released ≡ 0
      → (sweep fate t).sessions ≡ t
  unfolding sweep sweep_entry
  sweep_nothing [] h e = refl
  sweep_nothing ((id, entry) ∷ t) h e = ground (arith, sweep_nothing t h.1)

  pub sweep-Swept :
      (p : ManagedSession → Bool) (t : Table ManagedSession)
      → Unique t
      → Every EntryFits t
      → Swept p t (sweep fate t)
  sweep-Swept p t u fits = record {
    unique = sweep-Unique t u;
    entries = sweep-Every t fits;
    units = size-sweep t fits;
    fewer = count-sweep p t;
    untouched = sweep_nothing t fits;
  }
