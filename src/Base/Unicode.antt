-- ===== src/Base/Unicode.antt =====
-- strings.ToLower and strings.TrimSpace. Both read the tables of Go's package unicode, which are a
-- parameter here; beyond ASCII nothing is assumed of them.
use Prim.Native.Nat.{ℕ, ◌+◌, ◌<◌}
use mathlib.Core.Path.{◌≡◌, refl}
use mathlib.Core.Bool.{Bool, true, false, ◌&&◌, ◌||◌}
use mathlib.Core.List.{[], ◌∷◌, map, reverse}
use copilot_openai_proxy.Base.Tests.{leb, ◌==◌, if◌then◌else◌}
use copilot_openai_proxy.Base.Text.{Text}

abbrev pub ascii_lower : ℕ → ℕ
ascii_lower c = if leb b'A' c && leb c b'Z' then c + 32 else c

-- The ASCII part of unicode.IsSpace: tab, newline, vertical tab, form feed, return, blank.
abbrev pub ascii_space : ℕ → Bool
ascii_space c = (leb 9 c && leb c 13) || (c == 32)

pub record Unicode : Type 0 where
  pub to_lower : ℕ → ℕ
  pub is_space : ℕ → Bool
  -- one character is a simple fold of the other
  pub same_fold : ℕ → ℕ → Bool
  pub to_lower_ascii : (c : ℕ) → c < 128 → to_lower c ≡ ascii_lower c
  pub is_space_ascii : (c : ℕ) → c < 128 → is_space c ≡ ascii_space c
  pub same_fold_ascii :
      (b c : ℕ) → b < 128 → c < 128 → same_fold b c ≡ (ascii_lower b == ascii_lower c)

module _ ⦃u : Unicode⦄ where
  -- strings.ToLower
  unfoldable pub lower : Text → Text
  lower = map u.to_lower

  -- strings.EqualFold
  unfoldable pub equal_fold : Text → Text → Bool
  equal_fold [] [] = true
  equal_fold (b ∷ s) (c ∷ t) = u.same_fold b c && equal_fold s t
  equal_fold _ _ = false

  unfoldable pub trim_left : Text → Text
  trim_left [] = []
  trim_left (c ∷ s) = if u.is_space c then trim_left s else c ∷ s

  -- strings.TrimSpace
  unfoldable pub trim_space : Text → Text
  unfolding trim_left
  trim_space s = reverse (trim_left (reverse (trim_left s)))

-- Tables that map and name only ASCII characters.
abbrev pub ascii_tables : Unicode
ascii_tables = record {
  to_lower = ascii_lower;
  is_space = ascii_space;
  same_fold = λ b c. ascii_lower b == ascii_lower c;
  to_lower_ascii = λ c h. refl;
  is_space_ascii = λ c h. refl;
  same_fold_ascii = λ b c h k. refl;
}
