-- ===== src/Hashcash/Solve.antt =====
-- The search of solveHashcash in internal/copilot/hashcash.go.
use copilot_openai_proxy.Base.{
  ℕ, zero, suc, ◌+◌, ◌≤◌, ◌<◌, ◌≡◌, sym, ap, ◌∙◌, inl, inr, true, false, some, List, arith,
  Bool-cases,
}
use native.Mathlib.Decide.{dec_lt}
use mathlib.Core.Bool.{false≢true}
use copilot_openai_proxy.Base.Int.{ℤ}
use copilot_openai_proxy.Base.Text.{Text}
use copilot_openai_proxy.Base.Decimal.{decimal}
use copilot_openai_proxy.Hashcash.{split_colon, difficulty_of, solves, search_nonce, solve_hashcash}

module _ (sha256 : Text → List ℕ) where
  -- The least nonce at or above a bound that solves, no further than `last`.
  pub record Least (prefix : Text) (difficulty : ℤ) (from last k : ℕ) : Type 0 where
    pub solved : solves sha256 prefix difficulty k ≡ true
    pub at_least : from ≤ k
    pub at_most : k ≤ last
    pub smaller : (j : ℕ) → from ≤ j → j < k → solves sha256 prefix difficulty j ≡ false

  later_last :
      (prefix : Text) (difficulty : ℤ) (from last : ℕ)
      → from ≤ last
      → solves sha256 prefix difficulty last ≡ true
      → solves sha256 prefix difficulty from ≡ false
      → from + 1 ≤ last
  later_last prefix difficulty from last h hit miss = elim (dec_lt from last) [
    | yes less ↦ omega arith
    | no same ↦
        let e : from ≡ last = omega arith in
        absurd (false≢true (sym miss ∙ (ap (solves sha256 prefix difficulty) e ∙ hit)))
  ]

  next_or_later :
      (prefix : Text) (difficulty : ℤ) (from k j : ℕ)
      → solves sha256 prefix difficulty from ≡ false
      → ((i : ℕ) → from + 1 ≤ i → i < k → solves sha256 prefix difficulty i ≡ false)
      → from ≤ j
      → j < k
      → solves sha256 prefix difficulty j ≡ false
  next_or_later prefix difficulty from k j miss rest a b = elim (dec_lt from j) [
    | yes less ↦ rest j (omega arith) b
    | no same ↦ let e : j ≡ from = omega arith in ap (solves sha256 prefix difficulty) e ∙ miss
  ]

  search_nonce-Least :
      (fuel : ℕ) (prefix : Text) (difficulty : ℤ) (from last : ℕ)
      → from ≤ last
      → last < from + fuel
      → solves sha256 prefix difficulty last ≡ true
      → (k : ℕ) × (search_nonce sha256 fuel prefix difficulty from ≡ some k)
        × Least prefix difficulty from last k
  unfolding search_nonce
  search_nonce-Least zero prefix difficulty from last h room hit = absurd (omega arith)
  search_nonce-Least (suc fuel) prefix difficulty from last h room hit =
      elim (Bool-cases (solves sha256 prefix difficulty from)) [
        | inl now ↦ (
          from,
          rw now,
          record {
            solved = now;
            at_least = omega arith;
            at_most = h;
            smaller = λ j a b. absurd (omega arith);
          },
        )
        | inr later ↦
            let (k, found, least) =
              search_nonce-Least fuel prefix difficulty (from + 1) last
                (later_last prefix difficulty from last h hit later) (omega arith) hit in
            (
              k,
              rw later found,
              record {
                solved = least.solved;
                at_least = omega (arith, least.at_least);
                at_most = least.at_most;
                smaller = λ j a b. next_or_later prefix difficulty from k j later least.smaller a b;
              },
            )
      ]

  -- If a parameter has a colon and some nonce solves its challenge, then with fuel above that nonce the
  -- search ends with the least nonce that does, and the answer is its decimal text.
  pub solve_hashcash-Least :
      (fuel last : ℕ) (param prefix bits : Text)
      → split_colon param ≡ some (prefix, bits)
      → solves sha256 prefix (difficulty_of bits) last ≡ true
      → last < fuel
      → (k : ℕ) × (solve_hashcash sha256 fuel param ≡ some (decimal k))
        × Least prefix (difficulty_of bits) 0 last k
  unfolding solve_hashcash
  solve_hashcash-Least fuel last param prefix bits split hit room =
      let (k, found, least) =
        search_nonce-Least fuel prefix (difficulty_of bits) 0 last (omega arith) (omega arith)
          hit in
      (k, rw (split, solve_hashcash, found), least)
