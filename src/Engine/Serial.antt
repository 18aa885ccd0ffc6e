-- ===== src/Engine/Serial.antt =====
-- modules/jamn_engine/include/jamn_engine/serial_compare.h: ordering numbers that wrap.
use jam_n.Prelude.{ℕ, ◌+◌, ◌-◌, ◌%◌, ◌^◌, ◌<◌, ◌≡◌, ◌↔◌, Bool, true, arith}
use jam_n.Prelude.Int.{ℤ, pos, ltb_ℤ}
use jam_n.Core.Wire.{w16, to_signed}

-- static_cast<std::int16_t>(a - b)
abbrev pub distance16 : ℕ → ℕ → ℤ
distance16 a b = to_signed w16 ((a + 2 ^ 16 - b) % 2 ^ 16)

abbrev pub is_newer_serial : ℕ → ℕ → Bool
is_newer_serial a b = ltb_ℤ (pos 0) (distance16 a b)

-- For two counts less than half the number space apart, their wrapped numbers compare as the counts
-- do, on both sides of a wrap.
pub is_newer_serial_iff :
    (m n : ℕ)
    → m < n + 2 ^ 15
    → n < m + 2 ^ 15
    → (is_newer_serial (m % 2 ^ 16) (n % 2 ^ 16) ≡ true) ↔ (n < m)
is_newer_serial_iff m n h k = (λ e. ground arith, λ lt. ground arith)
