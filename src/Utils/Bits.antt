-- ===== src/Utils/Bits.antt =====
-- `bit_or` of a shifted number and a number below the shift is their sum.
use Prim.Native.Nat.{bit_or, bit_or-bitwise, digits, max}
use native.Mathlib.Nat.{pow-suc}
use up_transport_vsomeip_rus.Prelude.{
  ℕ, zero, suc, ◌+◌, ◌*◌, ◌/◌, ◌%◌, ◌^◌, ◌≤◌, ◌<◌, ◌≡◌, refl, ap, arith,
}

abbrev or_digits : ℕ → ℕ → ℕ → ℕ
or_digits n a b = digits (λ b. b) max n a b

or_digits_fuel : (n m a b : ℕ) → a ≤ n → a ≤ m → or_digits n a b ≡ or_digits m a b
or_digits_fuel zero zero a b p q = refl
or_digits_fuel zero (suc m) zero b p q = refl
or_digits_fuel zero (suc m) (suc a) b p q = absurd (omega arith)
or_digits_fuel (suc n) zero zero b p q = refl
or_digits_fuel (suc n) zero (suc a) b p q = absurd (omega arith)
or_digits_fuel (suc n) (suc m) zero b p q = refl
or_digits_fuel (suc n) (suc m) (suc a) b p q =
    omega (arith, or_digits_fuel n m (suc a / 2) (b / 2) (omega arith) (omega arith))

zero-bit_or : (b : ℕ) → bit_or 0 b ≡ b
zero-bit_or b = bit_or-bitwise 0 b

-- the law for the lowest digit
bit_or_step : (a b : ℕ) → bit_or a b ≡ bit_or (a / 2) (b / 2) * 2 + max (a % 2) (b % 2)
bit_or_step zero b = omega (arith, zero-bit_or b, zero-bit_or (b / 2))
bit_or_step (suc a) b = omega (
  arith,
  bit_or-bitwise (suc a) b,
  bit_or-bitwise (suc a / 2) (b / 2),
  or_digits_fuel a (suc a / 2) (suc a / 2) (b / 2) (omega arith) (omega arith),
)

bit_or_step_even : (a b : ℕ) → bit_or (a * 2) b ≡ bit_or a (b / 2) * 2 + b % 2
bit_or_step_even a b =
    let half : a * 2 / 2 ≡ a = omega arith in
    omega (arith, bit_or_step (a * 2) b, ap (λ (t : ℕ). bit_or t (b / 2)) half)

bit_or-zero_fuel : (n a : ℕ) → a ≤ n → bit_or a 0 ≡ a
bit_or-zero_fuel n zero h = refl
bit_or-zero_fuel zero (suc a) h = absurd (omega arith)
bit_or-zero_fuel (suc n) (suc a) h =
    omega (arith, bit_or_step (suc a) 0, bit_or-zero_fuel n (suc a / 2) (omega arith))

shift_step : (k c s : ℕ) → s < 2 ^ suc k → (s / 2 < 2 ^ k) × (c * 2 ^ suc k ≡ c * 2 ^ k * 2)
shift_step k c s h =
    (omega (arith, pow-suc 2 k), omega (arith, ap (λ (p : ℕ). c * p) (pow-suc 2 k)))

-- The digits of `c` lie above those of `s`.
pub bit_or_shifted : (k c s : ℕ) → s < 2 ^ k → bit_or (c * 2 ^ k) s ≡ c * 2 ^ k + s
bit_or_shifted zero c s h =
    let none_left : s ≡ 0 = omega arith in
    rw none_left (omega (arith, bit_or-zero_fuel (c * 2 ^ 0) (c * 2 ^ 0) (omega arith)))
bit_or_shifted (suc k) c s h =
    let (small, shift) = shift_step k c s h in
    rw shift (omega (arith, bit_or_step_even (c * 2 ^ k) s, bit_or_shifted k c (s / 2) small))
