-- ===== src/SessionManager/Table.antt =====
-- `map[string]*managedSession`: a Go map with string keys, as an association list without an
-- order that a statement could rest on.
use copilot_openai_proxy.Base.{
  ℕ, ◌+◌, ◌≤◌, ◌≡◌, refl, inl, inr, Bool-cases, Bool, true, false, Option, none, some, List, [],
  ◌∷◌, arith, if◌then◌else◌,
}
use copilot_openai_proxy.Base.Text.{Text, text_eq, text_eq_iff}
use mathlib.Core.Path.{subst}

abbrev pub Table {ℓ} : Type ℓ → Type ℓ
Table V = List (Text × V)

module _ {ℓ} {V : Type ℓ} where
  -- `v, ok := m[k]`
  unfoldable pub get : Text → Table V → Option V
  get k [] = none
  get k ((j, v) ∷ t) = if text_eq j k then some v else get k t

  -- `delete(m, k)`
  unfoldable pub delete : Text → Table V → Table V
  delete k [] = []
  delete k ((j, v) ∷ t) = let rest = delete k t in if text_eq j k then rest else (j, v) ∷ rest

  -- `m[k] = v`
  unfoldable pub put : Text → V → Table V → Table V
  unfolding delete
  put k v t = (k, v) ∷ delete k t

  -- The number of entries that pass a test, and `len(m)`.
  unfoldable pub count : (V → Bool) → Table V → ℕ
  count p [] = 0
  count p ((k, v) ∷ t) = (if p v then 1 else 0) + count p t

  unfoldable pub size : Table V → ℕ
  unfolding count
  size = count (λ _. true)

  unfoldable pub has : Text → Table V → Bool
  unfolding get
  has k t = elim (get k t) [ none ↦ false | some _ ↦ true ]

  -- No key stands twice.
  abbrev pub Unique : Table V → Type ℓ
  Unique [] = Unit
  Unique ((k, v) ∷ t) = (get k t ≡ none) × Unique t

  -- Every entry has the property.
  abbrev pub Every {κ} : (Text → V → Type κ) → Table V → Type κ
  Every P [] = Unit
  Every P ((k, v) ∷ t) = P k v × Every P t

  pub get-delete :
      (k j : Text) (t : Table V) → get j (delete k t) ≡ (if text_eq k j then none else get j t)
  unfolding get delete
  get-delete k j [] = ground arith
  get-delete k j ((i, v) ∷ t) =
      ground (arith, get-delete k j t, text_eq_iff i k, text_eq_iff i j, text_eq_iff k j)

  pub get-put :
      (k j : Text) (v : V) (t : Table V)
      → get j (put k v t) ≡ (if text_eq k j then some v else get j t)
  unfolding get put
  get-put k j v t = ground (arith, get-delete k j t)

  pub delete-Unique : (k : Text) (t : Table V) → Unique t → Unique (delete k t)
  unfolding delete
  delete-Unique k [] h = tt
  delete-Unique k ((j, v) ∷ t) h =
      ground (arith, delete-Unique k t h.1, get-delete k j t, text_eq_iff k j)

  pub put-Unique : (k : Text) (v : V) (t : Table V) → Unique t → Unique (put k v t)
  unfolding put
  put-Unique k v t h = (ground (arith, get-delete k k t, text_eq_iff k k), delete-Unique k t h)

  pub delete_absent : (k : Text) (t : Table V) → get k t ≡ none → delete k t ≡ t
  unfolding get delete
  delete_absent k [] h = refl
  delete_absent k ((j, v) ∷ t) h = ground (arith, delete_absent k t)

  -- Deleting a key that is there takes its entry out of every count, once.
  pub count-delete :
      (p : V → Bool) (k : Text) (t : Table V) (v : V)
      → Unique t
      → get k t ≡ some v
      → count p t ≡ (if p v then 1 else 0) + count p (delete k t)
  unfolding get delete count
  count-delete p k [] v u e = cc
  count-delete p k ((j, w) ∷ t) v u e =
      ground (arith, count-delete p k t v u.1, text_eq_iff j k, delete_absent k t)

  pub Every-get {κ} :
      (P : Text → V → Type κ) (k : Text) (t : Table V) (v : V)
      → Every P t
      → get k t ≡ some v
      → P k v
  unfolding get
  Every-get P k [] v h e = cc
  Every-get P k ((j, w) ∷ t) v h e = elim (Bool-cases (text_eq j k)) [
    | inl hit ↦
        let j≡k : j ≡ k = (text_eq_iff j k).0 hit in
        let w≡v : w ≡ v = ground (arith, hit, e) in
        subst (λ x. P k x) w≡v (subst (λ i. P i w) j≡k h.0)
    | inr miss ↦ Every-get P k t v h.1 (ground (arith, miss, e))
  ]

  pub delete-Every {κ} :
      (P : Text → V → Type κ) (k : Text) (t : Table V) → Every P t → Every P (delete k t)
  unfolding delete
  delete-Every P k [] h = tt
  delete-Every P k ((j, w) ∷ t) h = ground (arith, delete-Every P k t h.1)

  pub put-Every {κ} :
      (P : Text → V → Type κ) (k : Text) (v : V) (t : Table V)
      → P k v
      → Every P t
      → Every P (put k v t)
  unfolding put
  put-Every P k v t p h = (p, delete-Every P k t h)

  pub count-put_absent :
      (p : V → Bool) (k : Text) (v : V) (t : Table V)
      → get k t ≡ none
      → count p (put k v t) ≡ (if p v then 1 else 0) + count p t
  unfolding put count
  count-put_absent p k v t e = ground (arith, delete_absent k t)

  pub count-le-size : (p : V → Bool) (t : Table V) → count p t ≤ size t
  unfolding size
  count-le-size p [] = omega arith
  count-le-size p ((k, v) ∷ t) = ground (arith, count-le-size p t)

  pub has-get : (k : Text) (t : Table V) (v : V) → get k t ≡ some v → has k t ≡ true
  unfolding has
  has-get k t v e = rw (e, has)

  pub get-has-false : (k : Text) (t : Table V) → has k t ≡ false → get k t ≡ none
  unfolding has
  get-has-false k t e = ground arith

  pub has-delete :
      (k j : Text) (t : Table V) → has j (delete k t) ≡ (if text_eq k j then false else has j t)
  unfolding has
  has-delete k j t = ground (arith, get-delete k j t)

  pub has-put :
      (k j : Text) (v : V) (t : Table V)
      → has j (put k v t) ≡ (if text_eq k j then true else has j t)
  unfolding has
  has-put k j v t = ground (arith, get-put k j v t)

  pub has_absent : (k : Text) (t : Table V) → get k t ≡ none → has k t ≡ false
  unfolding has
  has_absent k t e = rw (e, has)

  pub get-put_self : (k : Text) (v : V) (t : Table V) → get k (put k v t) ≡ some v
  get-put_self k v t = ground (arith, get-put k k v t, text_eq_iff k k)
