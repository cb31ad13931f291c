-- ===== src/Base/Plain.antt =====
-- Plain characters, which strings.ToLower and strings.TrimSpace leave alone whatever the tables say
-- beyond ASCII: the visible ASCII characters but the capitals.
use Prim.Native.Nat.{ℕ, ◌<◌}
use mathlib.Core.Path.{◌≡◌, refl}
use mathlib.Core.Bool.{Bool, true, false, not, ◌&&◌}
use mathlib.Core.List.{[], ◌∷◌, ◌++◌, reverse, reverse-reverse, reverse-cons}
use native.Mathlib.Omega.{arith}
use copilot_openai_proxy.Base.Tests.{leb}
use copilot_openai_proxy.Base.Lists.{all}
use copilot_openai_proxy.Base.Text.{Text}
use copilot_openai_proxy.Base.Unicode.{
  Unicode, ascii_lower, ascii_space, lower, trim_left, trim_space,
}

abbrev pub is_plain : ℕ → Bool
is_plain c = (leb 33 c && leb c 126) && not (leb b'A' c && leb c b'Z')

plain_bound : (c : ℕ) → is_plain c ≡ true → c < 128
plain_bound c h = ground arith

plain_lower : (c : ℕ) → is_plain c ≡ true → ascii_lower c ≡ c
plain_lower c h = ground arith

plain_space : (c : ℕ) → is_plain c ≡ true → ascii_space c ≡ false
plain_space c h = ground arith

pub all_mono :
    (p q : ℕ → Bool) (s : Text)
    → ((c : ℕ) → p c ≡ true → q c ≡ true)
    → all p s ≡ true
    → all q s ≡ true
all_mono p q [] f h = refl
all_mono p q (c ∷ s) f h = ground (arith, f c, all_mono p q s f)

all-append : (p : ℕ → Bool) (s t : Text) → all p s ≡ true → all p t ≡ true → all p (s ++ t) ≡ true
all-append p [] t h k = k
all-append p (c ∷ s) t h k = ground (arith, all-append p s t)

all-reverse : (p : ℕ → Bool) (s : Text) → all p s ≡ true → all p (reverse s) ≡ true
all-reverse p [] h = refl
all-reverse p (c ∷ s) h =
    rw (reverse-cons c s)
      (all-append p (reverse s) (c ∷ []) (all-reverse p s (ground arith)) (ground arith))

module _ ⦃u : Unicode⦄ where
  pub lower_plain : (s : Text) → all is_plain s ≡ true → lower s ≡ s
  unfolding lower
  lower_plain [] h = refl
  lower_plain (c ∷ s) h =
      ground (arith, lower_plain s, u.to_lower_ascii c, plain_bound c, plain_lower c)

  trim_left_plain : (s : Text) → all is_plain s ≡ true → trim_left s ≡ s
  unfolding trim_left
  trim_left_plain [] h = refl
  trim_left_plain (c ∷ s) h = ground (arith, u.is_space_ascii c, plain_bound c, plain_space c)

  pub trim_space_plain : (s : Text) → all is_plain s ≡ true → trim_space s ≡ s
  unfolding trim_space
  trim_space_plain s h =
      rw (trim_left_plain s h, trim_left_plain (reverse s) (all-reverse is_plain s h))
        (reverse-reverse s)
