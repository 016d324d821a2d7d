-- ===== src/Base/Bits.antt =====
-- `|` of two numbers that share no bit is their sum.
use Prim.Native.Nat.{
  ℕ, zero, suc, ◌+◌, ◌*◌, ◌/◌, ◌%◌, ◌^◌, ◌≤◌, ◌<◌, max, bit_or, digits, bit_or-bitwise,
}
use mathlib.Core.Path.{◌≡◌, refl, ap}
use native.Mathlib.Nat.{pow-suc}
use native.Mathlib.Omega.{arith}

abbrev or_digits : ℕ → ℕ → ℕ → ℕ
or_digits n a b = digits (λ b. b) max n a b

-- Fuel that reaches down to zero makes no difference.
or_digits-fuel : (a b k l : ℕ) → a ≤ k → a ≤ l → or_digits k a b ≡ or_digits l a b
or_digits-fuel zero b zero zero below low = refl
or_digits-fuel zero b zero (suc l) below low = refl
or_digits-fuel zero b (suc k) zero below low = refl
or_digits-fuel zero b (suc k) (suc l) below low = refl
or_digits-fuel (suc a) b zero l below low = absurd (omega arith)
or_digits-fuel (suc a) b (suc k) zero below low = absurd (omega arith)
or_digits-fuel (suc a) b (suc k) (suc l) below low =
    let half : suc a / 2 ≤ k = omega arith in
    omega (arith, or_digits-fuel (suc a / 2) (b / 2) k l half (omega arith))

zero-bit_or : (b : ℕ) → bit_or 0 b ≡ b
zero-bit_or b = bit_or-bitwise 0 b

bit_or-step : (a b : ℕ) → bit_or a b ≡ bit_or (a / 2) (b / 2) * 2 + max (a % 2) (b % 2)
bit_or-step zero b = omega (arith, zero-bit_or b, zero-bit_or (b / 2))
bit_or-step (suc a) b = omega (
  arith,
  bit_or-bitwise (suc a) b,
  bit_or-bitwise (suc a / 2) (b / 2),
  or_digits-fuel (suc a / 2) (b / 2) a (suc a / 2) (omega arith) (omega arith),
)

bit_or-zero_below : (n a : ℕ) → a ≤ n → bit_or a 0 ≡ a
bit_or-zero_below n zero h = refl
bit_or-zero_below zero (suc a) h = absurd (omega arith)
bit_or-zero_below (suc n) (suc a) h =
    omega (arith, bit_or-step (suc a) 0, bit_or-zero_below n (suc a / 2) (omega arith))

bit_or-multiple : (k a b c : ℕ) → b < 2 ^ k → c ≡ a * 2 ^ k → bit_or c b ≡ c + b
bit_or-multiple zero a zero c h e = omega (arith, bit_or-zero_below c c (omega arith))
bit_or-multiple zero a (suc b) c h e = absurd (omega arith)
bit_or-multiple (suc k) a b c h e =
    let double : c ≡ a * 2 ^ k * 2 = omega (arith, ap (λ (t : ℕ). a * t) (pow-suc 2 k)) in
    omega (
      arith,
      bit_or-step c b,
      bit_or-multiple k a (b / 2) (c / 2) (omega (arith, pow-suc 2 k)) (omega arith),
    )

pub bit_or-disjoint : (k a b : ℕ) → b < 2 ^ k → bit_or (a * 2 ^ k) b ≡ a * 2 ^ k + b
bit_or-disjoint k a b h = bit_or-multiple k a b (a * 2 ^ k) h refl
