-- ===== src/Core/Xor.antt =====
-- Laws of exclusive or, and the bounds of the bitwise operators on a word.
use Prim.Native.Nat.{digits, differ, bit_or, bit_xor, bit_xor-bitwise}
use native.Mathlib.Nat.{pow-suc}
use jam_n.Prelude.{
  ℕ, zero, suc, ◌+◌, ◌*◌, ◌/◌, ◌%◌, ◌^◌, ◌≤◌, ◌<◌, ◌≡◌, ◌⊎◌, inl, inr, refl, sym, ap, ◌∙◌, arith,
}
use jam_n.Core.Bits.{bit_or_step, zero-bit_or}

abbrev xor_digits : ℕ → ℕ → ℕ → ℕ
xor_digits n a b = digits (λ b. b) differ n a b

xor_digits_fuel : (n m a b : ℕ) → a ≤ n → a ≤ m → xor_digits n a b ≡ xor_digits m a b
xor_digits_fuel zero zero a b p q = refl
xor_digits_fuel zero (suc m) zero b p q = refl
xor_digits_fuel zero (suc m) (suc a) b p q = absurd (omega arith)
xor_digits_fuel (suc n) zero zero b p q = refl
xor_digits_fuel (suc n) zero (suc a) b p q = absurd (omega arith)
xor_digits_fuel (suc n) (suc m) zero b p q = refl
xor_digits_fuel (suc n) (suc m) (suc a) b p q =
    ap (λ t. t * 2 + differ (suc a % 2) (b % 2))
      (xor_digits_fuel n m (suc a / 2) (b / 2) (omega arith) (omega arith))

zero-bit_xor : (b : ℕ) → bit_xor 0 b ≡ b
zero-bit_xor b = bit_xor-bitwise 0 b

bit_of : (a : ℕ) → (a % 2 ≡ 0) ⊎ (a % 2 ≡ 1)
bit_of a = omega arith

differ_zero : (b : ℕ) → differ 0 (b % 2) ≡ b % 2
differ_zero b = elim (bit_of b) [ inl e ↦ rw e | inr e ↦ rw e ]

differ_bits :
    (a b : ℕ) → (differ (a % 2) (b % 2) < 2) × (differ (a % 2) (b % 2) ≡ 0 → a % 2 ≡ b % 2)
differ_bits a b = elim (bit_of a) [
  | inl e ↦ rw (e, differ_zero b) (omega arith)
  | inr e ↦ elim (bit_of b) [ inl f ↦ rw (e, f) (omega arith) | inr f ↦ rw (e, f) (omega arith) ]
]

xor_step : (a b : ℕ) → bit_xor a b ≡ bit_xor (a / 2) (b / 2) * 2 + differ (a % 2) (b % 2)
xor_step zero b = omega (arith, zero-bit_xor b, zero-bit_xor (b / 2), differ_zero b)
xor_step (suc a) b =
    bit_xor-bitwise (suc a) b
    ∙ ap (λ t. t * 2 + differ (suc a % 2) (b % 2))
        (xor_digits_fuel a (suc a / 2) (suc a / 2) (b / 2) (omega arith) (omega arith)
          ∙ sym (bit_xor-bitwise (suc a / 2) (b / 2)))

xor_zero_fuel : (n a b : ℕ) → a ≤ n → bit_xor a b ≡ 0 → a ≡ b
xor_zero_fuel n zero b p h = sym h ∙ zero-bit_xor b
xor_zero_fuel zero (suc a) b p h = absurd (omega arith)
xor_zero_fuel (suc n) (suc a) b p h = omega (
  arith,
  (differ_bits (suc a) b).1 (omega (arith, xor_step (suc a) b)),
  xor_zero_fuel n (suc a / 2) (b / 2) (omega arith) (omega (arith, xor_step (suc a) b)),
)

pub bit_xor_zero : (a b : ℕ) → bit_xor a b ≡ 0 → a ≡ b
bit_xor_zero a b h = xor_zero_fuel a a b (omega arith) h

xor_self_fuel : (n a : ℕ) → a ≤ n → bit_xor a a ≡ 0
xor_self_fuel n zero p = zero-bit_xor 0
xor_self_fuel zero (suc a) p = absurd (omega arith)
xor_self_fuel (suc n) (suc a) p =
    omega (arith, xor_step (suc a) (suc a), same, xor_self_fuel n (suc a / 2) (omega arith))
  where
    same : differ (suc a % 2) (suc a % 2) ≡ 0
    same = elim (bit_of (suc a)) [ inl e ↦ rw e | inr e ↦ rw e ]

pub bit_xor_self : (a : ℕ) → bit_xor a a ≡ 0
bit_xor_self a = xor_self_fuel a a (omega arith)

pub bit_xor-lt : (k a b : ℕ) → a < 2 ^ k → b < 2 ^ k → bit_xor a b < 2 ^ k
bit_xor-lt zero a b h g =
    omega (arith, ap (λ x. bit_xor x b) {x = a} {y = 0} (omega arith), zero-bit_xor b)
bit_xor-lt (suc k) a b h g = omega (
  arith,
  xor_step a b,
  differ_bits a b,
  pow-suc 2 k,
  bit_xor-lt k (a / 2) (b / 2) (omega (arith, pow-suc 2 k)) (omega (arith, pow-suc 2 k)),
)

pub bit_or-lt : (k a b : ℕ) → a < 2 ^ k → b < 2 ^ k → bit_or a b < 2 ^ k
bit_or-lt zero a b h g =
    omega (arith, ap (λ x. bit_or x b) {x = a} {y = 0} (omega arith), zero-bit_or b)
bit_or-lt (suc k) a b h g = omega (
  arith,
  bit_or_step a b,
  pow-suc 2 k,
  bit_or-lt k (a / 2) (b / 2) (omega (arith, pow-suc 2 k)) (omega (arith, pow-suc 2 k)),
)
