-- ===== src/Base/Bits.antt =====
-- `(x << 8) | b` at a byte `b`, from the digits that the native operation stands for.
use Prim.Native.Nat.{
  ℕ, zero, suc, ◌+◌, ◌*◌, ◌/◌, ◌%◌, ◌^◌, ◌≤◌, ◌<◌, max, bit_or, digits, bit_or-bitwise,
}
use mathlib.Core.Path.{◌≡◌, refl, ap}
use native.Mathlib.Omega.{arith}
use native.Mathlib.Nat.{pow-suc}

abbrev or_digits : ℕ → ℕ → ℕ → ℕ
or_digits fuel a b = digits (λ c. c) max fuel a b

-- Any fuel that is no smaller than the left number gives the same digits.
or_digits_enough : (f g a b : ℕ) → a ≤ f → a ≤ g → or_digits f a b ≡ or_digits g a b
or_digits_enough zero zero a b p q = refl
or_digits_enough zero (suc g) zero b p q = refl
or_digits_enough zero (suc g) (suc a) b p q = absurd (omega arith)
or_digits_enough (suc f) zero zero b p q = refl
or_digits_enough (suc f) zero (suc a) b p q = absurd (omega arith)
or_digits_enough (suc f) (suc g) zero b p q = refl
or_digits_enough (suc f) (suc g) (suc a) b p q =
    omega (arith, or_digits_enough f g (suc a / 2) (b / 2) (omega arith) (omega arith))

bit_or_halves : (a b : ℕ) → bit_or a b ≡ max (a % 2) (b % 2) + bit_or (a / 2) (b / 2) * 2
bit_or_halves zero b = omega (arith, bit_or-bitwise 0 b, bit_or-bitwise 0 (b / 2))
bit_or_halves (suc a) b = omega (
  arith,
  bit_or-bitwise (suc a) b,
  bit_or-bitwise (suc a / 2) (b / 2),
  or_digits_enough a (suc a / 2) (suc a / 2) (b / 2) (omega arith) (omega arith),
)

bit_or-zero_fuel : (fuel a : ℕ) → a ≤ fuel → bit_or a 0 ≡ a
bit_or-zero_fuel fuel zero h = bit_or-bitwise 0 0
bit_or-zero_fuel zero (suc a) h = absurd (omega arith)
bit_or-zero_fuel (suc fuel) (suc a) h =
    omega (arith, bit_or_halves (suc a) 0, bit_or-zero_fuel fuel (suc a / 2) (omega arith))

-- One bit: an even number `x * 2` and `b` join without a carry.
bit_or_double : (x y b s : ℕ) → bit_or x (b / 2) ≡ s → y ≡ x * 2 → bit_or y b ≡ s * 2 + b % 2
bit_or_double x y b s h e = ground (arith, bit_or_halves y b)

pub bit_or_shifted : (k x b : ℕ) → b < 2 ^ k → bit_or (x * 2 ^ k) b ≡ x * 2 ^ k + b
bit_or_shifted zero x b h = ground (arith, bit_or-zero_fuel x x)
bit_or_shifted (suc k) x b h =
    let doubled : x * 2 ^ suc k ≡ x * 2 ^ k * 2 =
      omega (arith, ap (λ (t : ℕ). x * t) (pow-suc 2 k)) in
    let low : b / 2 < 2 ^ k = omega (arith, pow-suc 2 k) in
    omega (
      arith,
      doubled,
      bit_or_double (x * 2 ^ k) (x * 2 ^ suc k) b (x * 2 ^ k + b / 2)
          (bit_or_shifted k x (b / 2) low) doubled,
    )

pub bit_or_byte : (x b : ℕ) → b < 256 → bit_or (x * 256) b ≡ x * 256 + b
bit_or_byte = bit_or_shifted 8
