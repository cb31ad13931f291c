-- ===== src/Base/Decimal.antt =====
-- strconv.Itoa and the verb %d on natural numbers, and that different numbers print differently.
use Prim.Native.Nat.{ℕ, zero, suc, ◌+◌, ◌-◌, ◌*◌, ◌/◌, ◌%◌, ◌^◌, ◌<◌}
use mathlib.Core.Path.{◌≡◌, refl, sym, ap, ◌∙◌}
use mathlib.Core.Logic.{inl, inr}
use mathlib.Core.Bool.{Bool, true, ◌&&◌}
use mathlib.Core.Option
use mathlib.Core.Option.{Option, none, some}
use copilot_openai_proxy.Base.Int.{ℤ, pos, negsuc, negate}
use mathlib.Core.List.{[], ◌∷◌, ◌++◌}
use native.Mathlib.Omega.{arith}
use copilot_openai_proxy.Base.Tests.{ltb, leb, ◌==◌, if◌then◌else◌, Bool-cases, ltb-false}
use copilot_openai_proxy.Base.Text.{Text}

decimal_fuel : ℕ → ℕ → Text
decimal_fuel zero n = []
decimal_fuel (suc f) n =
    let rest = decimal_fuel f (n / 10) ++ (b'0' + n % 10) ∷ [] in
    if ltb n 10 then (b'0' + n) ∷ [] else rest

-- The decimal digits of a number; fuel one above it is enough.
unfoldable pub decimal : ℕ → Text
unfolding decimal_fuel
decimal n = decimal_fuel (suc n) n

-- The number that a row of digits stands for, after the digits already read.
pub value_from : ℕ → Text → ℕ
value_from acc [] = acc
value_from acc (c ∷ s) = value_from (acc * 10 + (c - b'0')) s

value_from-append :
    (acc : ℕ) (s t : Text) → value_from acc (s ++ t) ≡ value_from (value_from acc s) t
unfolding value_from
value_from-append acc [] t = refl
value_from-append acc (c ∷ s) t = value_from-append (acc * 10 + (c - b'0')) s t

value_from-decimal_fuel : (f n : ℕ) → n < f → value_from 0 (decimal_fuel f n) ≡ n
unfolding decimal_fuel value_from
value_from-decimal_fuel zero n h = elim h [ ]
value_from-decimal_fuel (suc f) n h = elim (Bool-cases (ltb n 10)) [
  | inl small ↦ rw small (omega arith)
  | inr large ↦ rw large (
      value_from-append 0 (decimal_fuel f (n / 10)) _
      ∙ omega (arith, ltb-false n 10 large, value_from-decimal_fuel f (n / 10)))
]

pub value_from-decimal : (n : ℕ) → value_from 0 (decimal n) ≡ n
unfolding decimal
value_from-decimal n = value_from-decimal_fuel (suc n) n (omega arith)

-- Different numbers print differently.
pub decimal-injective : (m n : ℕ) → decimal m ≡ decimal n → m ≡ n
decimal-injective m n e = sym (value_from-decimal m) ∙ (ap (value_from 0) e ∙ value_from-decimal n)

decimal_example : decimal 4070 ≡ b'4' ∷ b'0' ∷ b'7' ∷ b'0' ∷ []
unfolding decimal
decimal_example = refl

is_digit : ℕ → Bool
is_digit c = leb b'0' c && leb c b'9'

all_digits : Text → Bool
unfolding is_digit
all_digits [] = true
all_digits (c ∷ s) = is_digit c && all_digits s

abbrev pub max_int : ℕ
max_int = 2 ^ 63 - 1

-- The digits of a number that has at least one and does not pass the limit.
digits_value : ℕ → Text → Option ℕ
unfolding all_digits value_from
digits_value limit [] = none
digits_value limit (c ∷ s) =
    let n = value_from 0 (c ∷ s) in if all_digits (c ∷ s) && leb n limit then some n else none

-- strconv.Atoi on a 64-bit int: an optional sign and digits, or an error, which is `none`.
unfoldable pub atoi : Text → Option ℤ
unfolding digits_value
atoi [] = none
atoi (c ∷ s) =
    if c == b'-'
    then Option.map negate (digits_value (max_int + 1) s)
    else if c == b'+'
    then Option.map pos (digits_value max_int s)
    else Option.map pos (digits_value max_int (c ∷ s))

atoi_examples :
    (atoi (b'1' ∷ b'2' ∷ []) ≡ some (pos 12))
    × (atoi (b'-' ∷ b'8' ∷ []) ≡ some (negsuc 7))
    × (atoi (b'-' ∷ []) ≡ none)
    × (atoi (b'7' ∷ b'x' ∷ []) ≡ none)
unfolding atoi
atoi_examples = (refl, refl, refl, refl)
