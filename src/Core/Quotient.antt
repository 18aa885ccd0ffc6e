-- ===== src/Core/Quotient.antt =====
-- `/` and `%` on signed integers, by a positive number: C++ rounds towards zero.
use jam_n.Prelude.{ℕ, ◌+◌, ◌/◌, ◌%◌}
use jam_n.Prelude.Int.{ℤ, pos, negsuc, sub_ℕ}

abbrev pub quot : ℤ → ℕ → ℤ
quot (pos n) d = pos (n / d)
quot (negsuc n) d = sub_ℕ 0 ((n + 1) / d)

abbrev pub rem : ℤ → ℕ → ℤ
rem (pos n) d = pos (n % d)
rem (negsuc n) d = sub_ℕ 0 ((n + 1) % d)
