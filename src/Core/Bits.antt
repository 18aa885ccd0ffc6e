-- ===== src/Core/Bits.antt =====
-- Laws of the bitwise operators that the byte cursors and the token comparison use.
use Prim.Native.Nat.{digits, bit_or, bit_or-bitwise}
use native.Mathlib.Nat.{pow-suc}
use jam_n.Prelude.{
  ℕ, zero, suc, ◌+◌, ◌*◌, ◌/◌, ◌%◌, ◌^◌, ◌≤◌, ◌<◌, max, ◌≡◌, refl, sym, ap, ◌∙◌, arith,
}

abbrev or_digits : ℕ → ℕ → ℕ → ℕ
or_digits n a b = digits (λ b. b) max n a b

or_digits_fuel : (n m a b : ℕ) → a ≤ n → a ≤ m → or_digits n a b ≡ or_digits m a b
or_digits_fuel zero zero a b p q = refl
or_digits_fuel zero (suc m) zero b p q = refl
or_digits_fuel zero (suc m) (suc a) b p q = absurd (omega arith)
or_digits_fuel (suc n) zero zero b p q = refl
or_digits_fuel (suc n) zero (suc a) b p q = absurd (omega arith)
or_digits_fuel (suc n) (suc m) zero b p q = refl
or_digits_fuel (suc n) (suc m) (suc a) b p q =
    omega (arith, or_digits_fuel n m (suc a / 2) (b / 2) (omega arith) (omega arith))

pub zero-bit_or : (b : ℕ) → bit_or 0 b ≡ b
zero-bit_or b = bit_or-bitwise 0 b

pub bit_or_step : (a b : ℕ) → bit_or a b ≡ bit_or (a / 2) (b / 2) * 2 + max (a % 2) (b % 2)
bit_or_step zero b = omega (arith, zero-bit_or b, zero-bit_or (b / 2))
bit_or_step (suc a) b = omega (
  arith,
  bit_or-bitwise (suc a) b,
  bit_or-bitwise (suc a / 2) (b / 2),
  or_digits_fuel a (suc a / 2) (suc a / 2) (b / 2) (omega arith) (omega arith),
)

half_shift : (b t u : ℕ) → u ≡ t * 2 → (b * u / 2 ≡ b * t) × (b * u % 2 ≡ 0)
half_shift b t u e = rw e (omega arith)

-- Disjoint bits are joined by addition.
pub bit_or_shift : (k a b : ℕ) → a < 2 ^ k → bit_or a (b * 2 ^ k) ≡ a + b * 2 ^ k
bit_or_shift zero a b h =
    omega (arith, ap (λ (x : ℕ). bit_or x (b * 1)) zero_of, zero-bit_or (b * 1))
  where
    zero_of : a ≡ 0
    zero_of = omega arith
bit_or_shift (suc k) a b h = grind (
  arith,
  bit_or_step a (b * 2 ^ suc k),
  bit_or_shift k (a / 2) b (omega (arith, pow-suc 2 k)),
  half_shift b (2 ^ k) (2 ^ suc k) (pow-suc 2 k),
  pow-suc 2 k,
)

bit_or_zero_fuel : (n a b : ℕ) → a ≤ n → bit_or a b ≡ 0 → (a ≡ 0) × (b ≡ 0)
bit_or_zero_fuel n zero b p h = (refl, sym (zero-bit_or b) ∙ h)
bit_or_zero_fuel zero (suc a) b p h = absurd (omega arith)
bit_or_zero_fuel (suc n) (suc a) b p h = omega (
  arith,
  bit_or_step (suc a) b,
  bit_or_zero_fuel n (suc a / 2) (b / 2) (omega arith) (omega (arith, bit_or_step (suc a) b)),
)

-- Nothing is set in the union exactly if nothing is set in either part.
pub bit_or_zero : (a b : ℕ) → bit_or a b ≡ 0 → (a ≡ 0) × (b ≡ 0)
bit_or_zero a b h = bit_or_zero_fuel a a b (omega arith) h
