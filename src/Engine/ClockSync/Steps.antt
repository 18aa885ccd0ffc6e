-- ===== src/Engine/ClockSync/Steps.antt =====
-- How far one slewing step of ClockSync::AddSample moves an estimate, and where it lands.
use jam_n.Prelude.{ℕ, ◌+◌, ◌⊎◌, ◌*◌, ◌/◌, ◌≤◌, ◌<◌, ◌≡◌, false, Bool-cases, inl, inr, arith}
use jam_n.Prelude.Int.{ℤ, pos, negsuc, ◌+ℤ◌, ◌-ℤ◌, ◌*ℤ◌, ◌≤ℤ◌, leb_ℤ, ◌<ℤ◌, ltb_ℤ, int_laws}
use jam_n.Core.Quotient.{quot}
use jam_n.Engine.ClockSync.{bounded_step, max_step}

bounded_step-bounds :
    (error : ℤ) (n : ℕ)
    → (bounded_step error (pos n) ≤ℤ pos n) × (pos 0 -ℤ pos n ≤ℤ bounded_step error (pos n))
unfolding bounded_step ◌-ℤ◌
bounded_step-bounds error n = (ground arith, ground arith)

max_step_lem :
    (k : ℕ)
    → (n : ℕ) × (max_step (pos k) ≡ pos n)
      × (1000000 * n ≤ 500 * k)
      × (500 * k < 1000000 * n + 1000000)
unfolding max_step ◌*ℤ◌
max_step_lem k = ((500 * k) / 1000000, ground arith, omega arith, omega arith)

-- The estimate is the best offset, or it falls short of it, on either side, after a full step.
abbrev pub Lands : ℤ → ℤ → ℤ → ℤ → Type 0
Lands at best step elapsed =
    (at ≡ best)
    ⊎ (((at <ℤ best) × (pos 500 *ℤ elapsed <ℤ pos 1000000 *ℤ step +ℤ pos 1000000))
        ⊎ ((best <ℤ at) × (pos 1000000 *ℤ step +ℤ pos 500 *ℤ elapsed <ℤ pos 1000000)))

bounded_step_cases :
    (error : ℤ) (n : ℕ)
    → (bounded_step error (pos n) ≡ error)
      ⊎ (((bounded_step error (pos n) ≡ pos n) × (pos n <ℤ error))
          ⊎ ((bounded_step error (pos n) ≡ pos 0 -ℤ pos n) × (error <ℤ pos 0 -ℤ pos n)))
unfolding bounded_step ◌-ℤ◌
bounded_step_cases error n = elim (Bool-cases (ltb_ℤ (pos n) error)) [
  | inl above ↦ inr (inl (ground arith, ground arith))
  | inr within ↦ elim (Bool-cases (ltb_ℤ error (pos 0 -ℤ pos n))) [
    | inl below ↦ inr (inr (ground arith, ground arith))
    | inr inside ↦ inl (ground arith)
  ]
]

full_up :
    (n k : ℕ)
    → 500 * k < 1000000 * n + 1000000
    → pos 500 *ℤ pos k <ℤ pos 1000000 *ℤ pos n +ℤ pos 1000000
unfolding ◌*ℤ◌ ◌+ℤ◌
full_up n k h = ground arith

full_down :
    (n k : ℕ)
    → 500 * k < 1000000 * n + 1000000
    → pos 1000000 *ℤ (pos 0 -ℤ pos n) +ℤ pos 500 *ℤ pos k <ℤ pos 1000000
unfolding ◌*ℤ◌ ◌+ℤ◌ ◌-ℤ◌
full_down n k h = ground arith

reaches : (a drift target : ℤ) → a +ℤ (drift +ℤ (target -ℤ (a +ℤ drift))) ≡ target
reaches a drift target = omega int_laws

short_of :
    (a drift target step : ℤ) → step <ℤ target -ℤ (a +ℤ drift) → a +ℤ (drift +ℤ step) <ℤ target
short_of a drift target step h = omega int_laws

past : (a drift target step : ℤ) → target -ℤ (a +ℤ drift) <ℤ step → target <ℤ a +ℤ (drift +ℤ step)
past a drift target step h = omega int_laws

pub millionth :
    (a : ℤ)
    → (pos 1000000 *ℤ quot a 1000000 ≤ℤ a +ℤ pos 999999)
      × (a ≤ℤ pos 1000000 *ℤ quot a 1000000 +ℤ pos 999999)
unfolding ◌*ℤ◌ ◌+ℤ◌
millionth a = (ground arith, ground arith)

scaled :
    (x : ℤ) (n k : ℕ)
    → 1000000 * n ≤ 500 * k
    → x ≤ℤ pos n
    → pos 0 -ℤ pos n ≤ℤ x
    → (pos 1000000 *ℤ x ≤ℤ pos 500 *ℤ pos k) × (pos 0 -ℤ pos 500 *ℤ pos k ≤ℤ pos 1000000 *ℤ x)
unfolding ◌*ℤ◌ ◌-ℤ◌
scaled (pos x) n k h high low = (ground arith, ground arith)
scaled (negsuc x) n k h high low = (ground arith, ground arith)

pub bounded_step-scaled :
    (error elapsed : ℤ)
    → leb_ℤ elapsed (pos 0) ≡ false
    → (pos 1000000 *ℤ bounded_step error (max_step elapsed) ≤ℤ pos 500 *ℤ elapsed)
      × (pos 0 -ℤ pos 500 *ℤ elapsed ≤ℤ pos 1000000 *ℤ bounded_step error (max_step elapsed))
bounded_step-scaled error (negsuc n) h = absurd (ground arith)
bounded_step-scaled error (pos k) h =
    let (n, e, small, big) = max_step_lem k in
    let (high, low) = bounded_step-bounds error n in
    rw e (scaled (bounded_step error (pos n)) n k small high low)

pub bounded_step-Lands :
    (a drift target elapsed : ℤ)
    → leb_ℤ elapsed (pos 0) ≡ false
    → let step = bounded_step (target -ℤ (a +ℤ drift)) (max_step elapsed) in
      Lands (a +ℤ (drift +ℤ step)) target step elapsed
bounded_step-Lands a drift target (negsuc n) h = absurd (ground arith)
bounded_step-Lands a drift target (pos k) h =
    let (n, e, small, big) = max_step_lem k in
    let error = target -ℤ (a +ℤ drift) in
    rw e (elim (bounded_step_cases error n) [
      | inl lands ↦ rw lands (inl (reaches a drift target))
      | inr (inl (high, above)) ↦
          rw high (inr (inl (short_of a drift target (pos n) above, full_up n k big)))
      | inr (inr (low, below)) ↦
          rw low (inr (inr (past a drift target (pos 0 -ℤ pos n) below, full_down n k big)))
    ])
