-- ===== src/Config/Laws.antt =====
-- The session counts that Load of internal/config/config.go gives.
use copilot_openai_proxy.Base.{
  ℕ, ◌≤◌, ◌≡◌, inl, inr, refl, Bool, Option, arith, ltb, ltb-false, Bool-cases,
}
use copilot_openai_proxy.Base.Int.{ℤ, pos, negsuc}
use copilot_openai_proxy.Base.Text.{Text}
use copilot_openai_proxy.Config.{Config, clamped_warm, load}

-- The warm pool's size is a natural number, at most the maximum if that is one, and zero otherwise.
abbrev pub WarmFits : ℤ → ℕ → Type 0
WarmFits (pos max) warm = warm ≤ max
WarmFits (negsuc n) warm = warm ≡ 0

clamped_warm-fits : (max warm : ℤ) → (j : ℕ) × (clamped_warm max warm ≡ pos j) × WarmFits max j
unfolding clamped_warm
clamped_warm-fits (pos k) (pos n) = elim (Bool-cases (ltb k n)) [
  | inl above ↦ (k, ground (arith, above), omega arith)
  | inr fits ↦ (n, ground (arith, fits), ltb-false k n fits)
]
clamped_warm-fits (pos k) (negsuc n) = (0, ground arith, omega arith)
clamped_warm-fits (negsuc k) (pos n) = (0, ground arith, refl)
clamped_warm-fits (negsuc k) (negsuc n) = (0, ground arith, refl)

-- Whatever the environment and the flags say, the size of the warm pool that Load gives is not
-- negative, at most the number of sessions where that is not negative, and zero where it is.
pub load-WarmFits :
    (getenv : Text → Text) (parse_bool : Text → Option Bool) (parse : Config → Config)
    → let cfg = load getenv parse_bool parse in
      (warm : ℕ) × (cfg.warm_sessions ≡ pos warm) × WarmFits cfg.max_sessions warm
unfolding load
load-WarmFits getenv parse_bool parse = clamped_warm-fits _ _
