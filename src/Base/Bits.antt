-- ===== src/Base/Bits.antt =====
-- `|` of a low field and a field shifted above it is their sum, at every width. The native
-- operation stands for a recursion on binary digits with fuel; the fuel is dropped first.
use Prim.Native.Nat.{
  ℕ, zero, suc, ◌+◌, ◌*◌, ◌/◌, ◌%◌, ◌^◌, ◌≤◌, ◌<◌, max, bit_and, bit_or, digits, bit_or-bitwise,
}
use mathlib.Core.Path.{◌≡◌, refl, ap}
use mathlib.Core.Bool.{Bool, true, ◌&&◌}
use remoc.Base.Tests.{◌==◌}
use native.Mathlib.Nat.{pow-suc}
use native.Mathlib.Omega.{arith}

abbrev or_digits : ℕ → ℕ → ℕ → ℕ
or_digits n a b = digits (λ y. y) max n a b

or_digits-fuel : (n m a b : ℕ) → a ≤ n → a ≤ m → or_digits n a b ≡ or_digits m a b
or_digits-fuel zero zero a b p q = refl
or_digits-fuel zero (suc m) zero b p q = refl
or_digits-fuel zero (suc m) (suc a) b p q = absurd (omega arith)
or_digits-fuel (suc n) zero zero b p q = refl
or_digits-fuel (suc n) zero (suc a) b p q = absurd (omega arith)
or_digits-fuel (suc n) (suc m) zero b p q = refl
or_digits-fuel (suc n) (suc m) (suc a) b p q =
    omega (arith, or_digits-fuel n m (suc a / 2) (b / 2) (omega arith) (omega arith))

zero-bit_or : (b : ℕ) → bit_or 0 b ≡ b
zero-bit_or b = bit_or-bitwise 0 b

bit_or-halves : (a b : ℕ) → bit_or a b ≡ bit_or (a / 2) (b / 2) * 2 + max (a % 2) (b % 2)
bit_or-halves zero b = omega (arith, zero-bit_or b, zero-bit_or (b / 2))
bit_or-halves (suc a) b = omega (
  arith,
  bit_or-bitwise (suc a) b,
  bit_or-bitwise (suc a / 2) (b / 2),
  or_digits-fuel a (suc a / 2) (suc a / 2) (b / 2) (omega arith) (omega arith),
)

mul-two_pow-suc : (q k : ℕ) → q * 2 ^ suc k ≡ 2 * (q * 2 ^ k)
mul-two_pow-suc q k = omega (arith, ap (λ (t : ℕ). q * t) (pow-suc 2 k))

-- A low field below `2 ^ k` and a value shifted left by `k`.
pub bit_or-shifted : (k q r : ℕ) → r < 2 ^ k → bit_or r (q * 2 ^ k) ≡ r + q * 2 ^ k
bit_or-shifted zero q zero h = omega (arith, zero-bit_or (q * 1))
bit_or-shifted zero q (suc r) h = absurd (omega arith)
bit_or-shifted (suc k) q r h = step (bit_or-shifted k q (r / 2) (omega (arith, pow-suc 2 k)))
  where
    half : q * 2 ^ suc k / 2 ≡ q * 2 ^ k
    half = omega (arith, mul-two_pow-suc q k)

    joined : bit_or (r / 2) (q * 2 ^ suc k / 2) ≡ bit_or (r / 2) (q * 2 ^ k)
    joined = ap (bit_or (r / 2)) half

    step :
        bit_or (r / 2) (q * 2 ^ k) ≡ r / 2 + q * 2 ^ k
        → bit_or r (q * 2 ^ suc k) ≡ r + q * 2 ^ suc k
    step e = omega (arith, bit_or-halves r (q * 2 ^ suc k), mul-two_pow-suc q k, joined, e)

-- Over one byte a law is checked at every value.
every_below : ℕ → (ℕ → Bool) → Bool
every_below zero p = true
every_below (suc n) p = p n && every_below n p

every_below-apply : (p : ℕ → Bool) (n : ℕ) → every_below n p ≡ true → (x : ℕ) → x < n → p x ≡ true
unfolding every_below
every_below-apply p zero e x h = absurd (omega arith)
every_below-apply p (suc n) e x h = ground (arith, every_below-apply p n (ground arith) x)

pub byte_low : (b : ℕ) → b < 256 → bit_and b 0x7f ≡ b % 128
unfolding every_below
byte_low b h = ground (arith, every_below-apply (λ x. bit_and x 0x7f == x % 128) 256 refl b h)

pub byte_top : (b : ℕ) → b < 256 → bit_and b 0x80 ≡ b / 128 * 128
unfolding every_below
byte_top b h = ground (arith, every_below-apply (λ x. bit_and x 0x80 == x / 128 * 128) 256 refl b h)

pub byte_set_top : (b : ℕ) → b < 256 → bit_or b 0x80 ≡ b % 128 + 128
unfolding every_below
byte_set_top b h =
    ground (arith, every_below-apply (λ x. bit_or x 0x80 == x % 128 + 128) 256 refl b h)
