-- ===== src/Engine/AudioClock/Inert.antt =====
-- A clock that was prepared with values that no device can have.
use jam_n.Prelude.{◌≡◌, refl, true}
use jam_n.Prelude.Int.{ℤ}
use jam_n.Core.Double.{Double}
use jam_n.Engine.AudioClock.{unusable, prepare, prepare_on, update}

-- `0.0 == 0.0`, as IEEE 754 has it.
module _ (D : Double) (zero_equal : D.equal (D.decimal 0 0) (D.decimal 0 0) ≡ true) where
  -- Prepared with an unusable rate, block or bandwidth, the clock stays as it is through an update.
  pub prepare-update :
      (rate : D.carrier) (frames : ℤ) (bandwidth : D.carrier) (cumulative steady_ns : ℤ)
      → unusable D rate frames bandwidth ≡ true
      → update D (prepare D rate frames bandwidth) cumulative steady_ns
        ≡ prepare D rate frames bandwidth
  unfolding prepare_on update
  prepare-update rate frames bandwidth cumulative steady_ns h = rw (h, zero_equal) refl
