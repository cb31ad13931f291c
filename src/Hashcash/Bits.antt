-- ===== src/Hashcash/Bits.antt =====
-- hasLeadingZeroBits of internal/copilot/hashcash.go against the bits of a hash.
use copilot_openai_proxy.Base.{
  ℕ, zero, suc, ◌+◌, ◌*◌, ◌/◌, ◌%◌, ◌≤◌, ◌<◌, ◌≡◌, refl, sym, ap, ◌∙◌, Bool, true, false, ◌&&◌,
  some, List, [], ◌∷◌, ◌++◌, arith, All, all, length, ◌==◌, if◌then◌else◌,
}
use copilot_openai_proxy.Base.Int.{pos}
use copilot_openai_proxy.Hashcash.{zero_bytes, zero_rest, get_elem?, has_leading_zero_bits}

-- The bits of a byte and of a hash, the highest first.
abbrev pub byte_bits : ℕ → List ℕ
byte_bits b =
    (b / 128) % 2
    ∷ (b / 64) % 2
    ∷ (b / 32) % 2
    ∷ (b / 16) % 2
    ∷ (b / 8) % 2
    ∷ (b / 4) % 2
    ∷ (b / 2) % 2
    ∷ b % 2
    ∷ []

abbrev pub bits : List ℕ → List ℕ
bits [] = []
bits (b ∷ hash) = byte_bits b ++ bits hash

abbrev pub take {ℓ} : {A : Type ℓ} → ℕ → List A → List A
take zero xs = []
take (suc n) [] = []
take (suc n) (x ∷ xs) = x ∷ take n xs

abbrev pub zeros : List ℕ → Bool
zeros = all (λ b. b == 0)

-- A test of all bytes runs on each of them.
countdown : ℕ → List ℕ
countdown zero = []
countdown (suc bound) = bound ∷ countdown bound

checked_below :
    (p : ℕ → Bool) (bound c : ℕ) → c < bound → all p (countdown bound) ≡ true → p c ≡ true
unfolding countdown
checked_below p zero c less ok = elim less [ ]
checked_below p (suc bound) c less ok = ground (arith, ok, less, checked_below p bound c)

abbrev same : Bool → Bool → Bool
same true b = b
same false true = false
same false false = true

same_eq : (a b : Bool) → same a b ≡ true → a ≡ b
same_eq a b h = ground arith

abbrev rest_agrees : ℕ → ℕ → Bool
rest_agrees r b = same (zero_rest r (some b)) (zeros (take r (byte_bits b)))

rests_agree : all (λ r. all (rest_agrees r) (countdown 256)) (countdown 8) ≡ true
unfolding countdown zero_rest
rests_agree = refl

abbrev byte_agrees : ℕ → Bool
byte_agrees b = same (b == 0) (zeros (byte_bits b))

bytes_agree : all byte_agrees (countdown 256) ≡ true
unfolding countdown
bytes_agree = refl

zero_rest_lem : (r b : ℕ) → r < 8 → b < 256 → zero_rest r (some b) ≡ zeros (take r (byte_bits b))
zero_rest_lem r b hr hb = same_eq _ _ (
    checked_below (rest_agrees r) 256 b hb
      (checked_below (λ r. all (rest_agrees r) (countdown 256)) 8 r hr rests_agree))

zero_byte : (b : ℕ) → b < 256 → (b == 0) ≡ zeros (byte_bits b)
zero_byte b h = same_eq _ _ (checked_below byte_agrees 256 b h bytes_agree)

take_short : (r : ℕ) (xs ys : List ℕ) → r ≤ length xs → take r (xs ++ ys) ≡ take r xs
take_short zero xs ys h = refl
take_short (suc r) [] ys h = absurd (omega arith)
take_short (suc r) (x ∷ xs) ys h = ap (◌∷◌ x) (take_short r xs ys (omega arith))

take_nil : (n : ℕ) → take {A = ℕ} n [] ≡ []
take_nil zero = refl
take_nil (suc n) = refl

zeros_from_suc :
    (n x : ℕ) (xs ys : List ℕ)
    → zeros (take (length xs + n) (xs ++ ys)) ≡ (zeros xs && zeros (take n ys))
    → zeros (take (suc (length xs) + n) (x ∷ xs ++ ys))
      ≡ ((x == 0 && zeros xs) && zeros (take n ys))
zeros_from_suc n x xs ys h =
    let next : suc (length xs) + n ≡ suc (length xs + n) = omega arith in
    rw next (ground (arith, h))

-- Whether the bits of a row are zero up to a place is decided row by row.
zeros_from :
    (n : ℕ) (xs ys : List ℕ)
    → zeros (take (length xs + n) (xs ++ ys)) ≡ (zeros xs && zeros (take n ys))
zeros_from n [] ys = ap (λ k. zeros (take k ys)) (omega arith)
zeros_from n (x ∷ xs) ys = zeros_from_suc n x xs ys (zeros_from n xs ys)

check_bits :
    (full r : ℕ) (hash : List ℕ)
    → r < 8
    → All (λ b. b < 256) hash
    → (if zero_bytes full hash then zero_rest r (get_elem? hash full) else false)
      ≡ zeros (take (full * 8 + r) (bits hash))
unfolding zero_bytes zero_rest
check_bits zero r [] hr h = rw (take_nil (0 * 8 + r))
check_bits zero r (b ∷ hash) hr h =
    let whole : 0 * 8 + r ≡ r = omega arith in
    rw whole (
      zero_rest_lem r b hr h.0
      ∙ ap zeros (sym (take_short r (byte_bits b) (bits hash) (omega arith))))
check_bits (suc full) r [] hr h = rw (take_nil (suc full * 8 + r))
check_bits (suc full) r (b ∷ hash) hr h =
    let whole : suc full * 8 + r ≡ 8 + (full * 8 + r) = omega arith in
    rw (whole, zeros_from (full * 8 + r) (byte_bits b) (bits hash), ← zero_byte b h.0)
      (ground (arith, check_bits full r hash hr h.1))

-- On a row of bytes the test of a difficulty that is not negative holds exactly when the first bits of
-- the hash, as many as the difficulty says or as there are, are all zero.
pub has_leading_zero_bits-bits :
    (hash : List ℕ) (n : ℕ)
    → All (λ b. b < 256) hash
    → has_leading_zero_bits hash (pos n) ≡ zeros (take n (bits hash))
unfolding has_leading_zero_bits
has_leading_zero_bits-bits hash n h =
    check_bits (n / 8) (n % 8) hash (omega arith) h
    ∙ ap (λ k. zeros (take k (bits hash))) (omega arith)
