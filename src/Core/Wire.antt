-- ===== src/Core/Wire.antt =====
-- The fixed widths of the wire format, and the integers behind their bit patterns
-- (modules/jamn_core/include/jamn_core/byte_reader.h and byte_writer.h).
use Prim.Native.Nat.{bit_or}
use native.Mathlib.Nat.{mod-eq_of_lt}
use jam_n.Prelude.{
  ℕ, zero, suc, ◌+◌, ◌-◌, ◌*◌, ◌/◌, ◌%◌, ◌^◌, ◌<◌, ◌≡◌, refl, List, [], ◌∷◌, ltb, if◌then◌else◌,
  length, arith,
}
use jam_n.Prelude.Int.{ℤ, pos, negsuc, ◌≤ℤ◌}
use jam_n.Core.Bits.{bit_or_shift}

-- The types that the readers and writers are instantiated at: std::uint8_t to std::uint64_t.
pub data Width : Type 0 where
  w8 w16 w32 w64 : Width

-- sizeof(T)
abbrev pub size_of : Width → ℕ
size_of w8 = 1
size_of w16 = 2
size_of w32 = 4
size_of w64 = 8

-- 2 ^ (8 * sizeof(T)): an unsigned value of the type lies below it.
abbrev pub modulus : Width → ℕ
modulus w = 2 ^ (8 * size_of w)

-- The bytes that the loop of `ByteWriter::WriteLE` stores, `n` of them from index `i`:
-- static_cast<std::uint8_t>(v >> (8 * i)).
abbrev pub le_from : ℕ → ℕ → ℕ → List ℕ
le_from i zero v = []
le_from i (suc n) v = (v / 2 ^ (8 * i)) % 2 ^ 8 ∷ le_from (i + 1) n v

abbrev pub le_bytes : Width → ℕ → List ℕ
le_bytes w v = le_from 0 (size_of w) v

-- The loop of `ByteReader::ReadLE` over the bytes it reads: value |= T(T(byte) << (8 * i)).
abbrev pub or_from : Width → ℕ → ℕ → List ℕ → ℕ
or_from w i value [] = value
or_from w i value (b ∷ bs) = or_from w (i + 1) (bit_or value ((b * 2 ^ (8 * i)) % modulus w)) bs

-- static_cast between an unsigned value and the signed type of its width.
abbrev pub half : Width → ℕ
half w = 2 ^ (8 * size_of w - 1)

abbrev pub to_signed : Width → ℕ → ℤ
to_signed w u = if ltb u (half w) then pos u else negsuc (modulus w - u - 1)

abbrev pub to_unsigned : Width → ℤ → ℕ
to_unsigned w (pos n) = n % modulus w
to_unsigned w (negsuc n) = modulus w - 1 - n % modulus w

-- The values that the signed type holds.
abbrev pub InRange : Width → ℤ → Type 0
InRange w z = (negsuc (half w - 1) ≤ℤ z) × (z ≤ℤ pos (half w - 1))

pub length-le_bytes : (w : Width) (v : ℕ) → length (le_bytes w v) ≡ size_of w
length-le_bytes w8 v = refl
length-le_bytes w16 v = refl
length-le_bytes w32 v = refl
length-le_bytes w64 v = refl

pub to_signed-to_unsigned : (w : Width) (z : ℤ) → InRange w z → to_signed w (to_unsigned w z) ≡ z
to_signed-to_unsigned w8 z h = ground arith
to_signed-to_unsigned w16 z h = ground arith
to_signed-to_unsigned w32 z h = ground arith
to_signed-to_unsigned w64 z h = ground arith

pub to_unsigned-lt : (w : Width) (z : ℤ) → to_unsigned w z < modulus w
to_unsigned-lt w8 z = ground arith
to_unsigned-lt w16 z = ground arith
to_unsigned-lt w32 z = ground arith
to_unsigned-lt w64 z = ground arith

-- One round of the reading loop, in numbers: the byte goes above the bits read so far.
or_step :
    (k m a b c : ℕ) → a < 2 ^ k → b * 2 ^ k < m → c ≡ a + b * 2 ^ k → bit_or a ((b * 2 ^ k) % m) ≡ c
or_step k m a b c p q e = rw (mod-eq_of_lt q, bit_or_shift k a b p, e)

-- Reading back the bytes that the writer stores gives the value.
pub or_from-le_bytes : (w : Width) (v : ℕ) → v < modulus w → or_from w 0 0 (le_bytes w v) ≡ v
or_from-le_bytes w8 v h =
    rw
      (or_step 0 (2 ^ 8) 0 (v / 2 ^ 0 % 2 ^ 8) (v % 2 ^ 8) (omega arith) (omega arith)
        (omega arith))
      (omega arith)
or_from-le_bytes w16 v h =
    rw
      (
        or_step 0 (2 ^ 16) 0 (v / 2 ^ 0 % 2 ^ 8) (v % 2 ^ 8) (omega arith) (omega arith)
            (omega arith),
        or_step 8 (2 ^ 16) (v % 2 ^ 8) (v / 2 ^ 8 % 2 ^ 8) (v % 2 ^ 16) (omega arith) (omega arith)
            (omega arith),
      )
      (omega arith)
or_from-le_bytes w32 v h =
    rw
      (
        or_step 0 (2 ^ 32) 0 (v / 2 ^ 0 % 2 ^ 8) (v % 2 ^ 8) (omega arith) (omega arith)
            (omega arith),
        or_step 8 (2 ^ 32) (v % 2 ^ 8) (v / 2 ^ 8 % 2 ^ 8) (v % 2 ^ 16) (omega arith) (omega arith)
            (omega arith),
        or_step 16 (2 ^ 32) (v % 2 ^ 16) (v / 2 ^ 16 % 2 ^ 8) (v % 2 ^ 24) (omega arith)
            (omega arith) (omega arith),
        or_step 24 (2 ^ 32) (v % 2 ^ 24) (v / 2 ^ 24 % 2 ^ 8) (v % 2 ^ 32) (omega arith)
            (omega arith) (omega arith),
      )
      (omega arith)
or_from-le_bytes w64 v h =
    rw
      (
        or_step 0 (2 ^ 64) 0 (v / 2 ^ 0 % 2 ^ 8) (v % 2 ^ 8) (omega arith) (omega arith)
            (omega arith),
        or_step 8 (2 ^ 64) (v % 2 ^ 8) (v / 2 ^ 8 % 2 ^ 8) (v % 2 ^ 16) (omega arith) (omega arith)
            (omega arith),
        or_step 16 (2 ^ 64) (v % 2 ^ 16) (v / 2 ^ 16 % 2 ^ 8) (v % 2 ^ 24) (omega arith)
            (omega arith) (omega arith),
        or_step 24 (2 ^ 64) (v % 2 ^ 24) (v / 2 ^ 24 % 2 ^ 8) (v % 2 ^ 32) (omega arith)
            (omega arith) (omega arith),
        or_step 32 (2 ^ 64) (v % 2 ^ 32) (v / 2 ^ 32 % 2 ^ 8) (v % 2 ^ 40) (omega arith)
            (omega arith) (omega arith),
        or_step 40 (2 ^ 64) (v % 2 ^ 40) (v / 2 ^ 40 % 2 ^ 8) (v % 2 ^ 48) (omega arith)
            (omega arith) (omega arith),
        or_step 48 (2 ^ 64) (v % 2 ^ 48) (v / 2 ^ 48 % 2 ^ 8) (v % 2 ^ 56) (omega arith)
            (omega arith) (omega arith),
        or_step 56 (2 ^ 64) (v % 2 ^ 56) (v / 2 ^ 56 % 2 ^ 8) (v % 2 ^ 64) (omega arith)
            (omega arith) (omega arith),
      )
      (omega arith)
