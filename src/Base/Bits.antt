-- ===== src/Base/Bits.antt =====
-- The bit operations of the program as arithmetic: the low byte of a number, and a field put behind
-- the bits that it does not overlap.
use Prim.Native.Nat.{
  ℕ, zero, suc, ◌+◌, ◌*◌, ◌/◌, ◌%◌, ◌^◌, ◌≤◌, ◌<◌, min, max, bit_and, bit_or, digits,
}
use Prim.Native.Nat.{bit_and-bitwise, bit_or-bitwise}
use mathlib.Core.Path.{◌≡◌, refl, ap}
use native.Mathlib.Omega.{arith}
use native.Mathlib.Nat.{pow-suc}

-- `mask` selects from every number what `part` says, however many rounds the digits are given.
abbrev Selects : ℕ → (ℕ → ℕ) → Type 0
Selects mask part = (rounds n : ℕ) → n ≤ rounds → digits (λ _. 0) min rounds n mask ≡ part n

Selects-nothing : Selects 0 (λ n. 0)
Selects-nothing zero n h = refl
Selects-nothing (suc rounds) zero h = refl
Selects-nothing (suc rounds) (suc n) h =
    omega (arith, Selects-nothing rounds (suc n / 2) (omega arith))

-- A mask with one more digit, a one at its end.
Selects-more :
    {mask : ℕ} {part : ℕ → ℕ}
    → Selects mask part
    → Selects (mask * 2 + 1) (λ n. part (n / 2) * 2 + n % 2)
Selects-more {part = part} sel zero n h =
    let nothing : ◌≡◌ {A = ℕ} 0 (part 0) = sel 0 0 (omega arith) in
    let none_left : n ≡ 0 = omega arith in rw none_left (omega (arith, nothing))
Selects-more sel (suc rounds) zero h = omega (arith, sel 0 0 (omega arith))
Selects-more {mask} sel (suc rounds) (suc n) h =
    let half : (mask * 2 + 1) / 2 ≡ mask = omega arith in
    rw half (omega (arith, sel rounds (suc n / 2) (omega arith)))

-- `a & 0xFF`
pub bit_and_byte : (a : ℕ) → bit_and a 0xff ≡ a % 256
bit_and_byte a =
    let four = Selects-more (Selects-more (Selects-more (Selects-more Selects-nothing))) in
    let eight = Selects-more (Selects-more (Selects-more (Selects-more four))) in
    omega (arith, bit_and-bitwise a 0xff, eight a a (omega arith))

-- The digits of a number below `2 ^ k`, joined with those of a multiple of `2 ^ k`.
joined :
    (k rounds r q : ℕ)
    → r ≤ rounds
    → r < 2 ^ k
    → digits (λ b. b) max rounds r (q * 2 ^ k) ≡ r + q * 2 ^ k
joined k zero r q enough low = omega arith
joined k (suc rounds) zero q enough low = omega arith
joined zero (suc rounds) (suc r) q enough low = absurd (omega arith)
joined (suc k) (suc rounds) (suc r) q enough low =
    let double : q * 2 ^ suc k ≡ q * 2 ^ k * 2 =
      ground (arith, ap (λ (t : ℕ). q * t) (pow-suc 2 k)) in
    let half : q * 2 ^ k * 2 / 2 ≡ q * 2 ^ k = omega arith in
    rw (double, half)
      (omega (arith, joined k rounds (suc r / 2) q (omega arith) (omega (arith, pow-suc 2 k))))

-- `r | (q << k)` is a sum where `r` fits `k` bits.
pub bit_or_shifted : (k r q : ℕ) → r < 2 ^ k → bit_or r (q * 2 ^ k) ≡ r + q * 2 ^ k
bit_or_shifted k r q low =
    omega (arith, bit_or-bitwise r (q * 2 ^ k), joined k r r q (omega arith) low)
