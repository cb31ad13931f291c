-- ===== src/Hashcash.antt =====
-- internal/copilot/hashcash.go: the proof-of-work challenge. SHA-256 is a parameter, a function from
-- a text to the bytes of its hash.
pub mod Bits
pub mod Solve
use copilot_openai_proxy.Base.{
  ℕ, zero, suc, ◌+◌, ◌-◌, ◌*◌, ◌/◌, ◌%◌, ◌^◌, ◌<◌, ◌≡◌, refl, Bool, true, false, ◌&&◌, Option, none,
  some, List, [], ◌∷◌, ◌++◌, ltb, ◌==◌, if◌then◌else◌,
}
use Prim.Native.Nat.{bit_and}
use copilot_openai_proxy.Base.Int.{ℤ, pos, negsuc}
use copilot_openai_proxy.Base.Text.{Text}
use copilot_openai_proxy.Base.Decimal.{decimal, atoi}

abbrev pub get_elem? {ℓ} : {A : Type ℓ} → List A → ℕ → Option A
get_elem? [] i = none
get_elem? (x ∷ xs) zero = some x
get_elem? (x ∷ xs) (suc i) = get_elem? xs i

-- `for i := 0; i < fullBytes && i < len(hash); i++`
unfoldable pub zero_bytes : ℕ → List ℕ → Bool
zero_bytes zero hash = true
zero_bytes (suc full_bytes) [] = true
zero_bytes (suc full_bytes) (b ∷ hash) =
    let rest = zero_bytes full_bytes hash in if b == 0 then rest else false

-- `byte(0xFF << (8 - remainingBits))`
abbrev pub mask : ℕ → ℕ
mask remaining_bits = (0xFF * 2 ^ (8 - remaining_bits)) % 256

-- The test of the byte after the full ones.
unfoldable pub zero_rest : ℕ → Option ℕ → Bool
zero_rest remaining_bits none = true
zero_rest remaining_bits (some b) =
    if ltb 0 remaining_bits then bit_and b (mask remaining_bits) == 0 else true

-- hasLeadingZeroBits. Go's quotient and remainder of a negative n are not positive: no byte is tested.
unfoldable pub has_leading_zero_bits : List ℕ → ℤ → Bool
unfolding zero_bytes zero_rest
has_leading_zero_bits hash (negsuc n) = true
has_leading_zero_bits hash (pos n) =
    let full_bytes = n / 8 in
    let remaining_bits = n % 8 in
    if zero_bytes full_bytes hash
    then zero_rest remaining_bits (get_elem? hash full_bytes)
    else false

-- strings.SplitN(param, ":", 2): the parts before and after the first colon, if there is one
unfoldable pub split_colon : Text → Option (Text × Text)
split_colon [] = none
split_colon (c ∷ s) =
    let rest = split_colon s in
    if c == b':'
    then some ([], s)
    else elim rest [ none ↦ none | some (before, after) ↦ some (c ∷ before, after) ]

-- `difficulty, err := strconv.Atoi(parts[1]); if err != nil { difficulty = 1 }`
unfoldable pub difficulty_of : Text → ℤ
difficulty_of s = elim (atoi s) [ none ↦ pos 1 | some n ↦ n ]

module _ (sha256 : Text → List ℕ) where
  -- The nonce passes the test.
  unfoldable pub solves : Text → ℤ → ℕ → Bool
  unfolding has_leading_zero_bits
  solves prefix difficulty nonce =
      has_leading_zero_bits (sha256 (prefix ++ decimal nonce)) difficulty

  -- `for nonce := 0; ; nonce++`, with fuel: `none` means that it ran out.
  unfoldable pub search_nonce : ℕ → Text → ℤ → ℕ → Option ℕ
  unfolding solves
  search_nonce zero prefix difficulty nonce = none
  search_nonce (suc fuel) prefix difficulty nonce =
      let rest = search_nonce fuel prefix difficulty (nonce + 1) in
      if solves prefix difficulty nonce then some nonce else rest

  -- The answer to a challenge; a parameter without a colon has the empty answer.
  unfoldable pub solve_hashcash : ℕ → Text → Option Text
  unfolding search_nonce split_colon difficulty_of
  solve_hashcash fuel param = elim (split_colon param) [
    | none ↦ some []
    | some (prefix, bits) ↦ elim (search_nonce fuel prefix (difficulty_of bits) 0) [
      | none ↦ none
      | some nonce ↦ some (decimal nonce)
    ]
  ]
