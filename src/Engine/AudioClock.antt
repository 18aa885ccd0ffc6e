-- ===== src/Engine/AudioClock.antt =====
-- modules/jamn_engine: audio_clock.h and audio_clock.cpp: which sample is at which time.
-- `double` is a parameter; int and int64_t are unbounded integers.
pub mod Inert
use jam_n.Prelude.{ℕ, ◌+◌, ◌%◌, ◌^◌, Bool, true, false, not, ◌&&◌, ◌||◌, if◌then◌else◌}
use jam_n.Prelude.Int.{ℤ, pos, ◌+ℤ◌, ◌-ℤ◌, ◌*ℤ◌, leb_ℤ}
use jam_n.Core.Double.{Double}
use jam_n.Core.Quotient.{quot}

module _ (D : Double) where
  pub record AudioClock : Type 0 where
    pub nominal_sample_rate : D.carrier
    pub block_frames : ℤ
    pub b : D.carrier
    pub c : D.carrier
    pub lock_after_seconds : D.carrier
    pub have_first : Bool
    pub update_count : ℕ
    pub base_ns : ℤ
    pub t0 : D.carrier
    pub t1 : D.carrier
    pub e2 : D.carrier
    pub samples : ℤ
    pub estimated_sample_rate : D.carrier

  abbrev zero_point : D.carrier
  zero_point = D.decimal 0 0

  abbrev two_pi : D.carrier
  two_pi = D.mul (D.decimal 2 0) (D.decimal 314159265358979323846 20)

  abbrev ns_per_second : D.carrier
  ns_per_second = D.decimal 1000000000 0

  abbrev pub initial : AudioClock
  initial = record {
    nominal_sample_rate = zero_point;
    block_frames = pos 0;
    b = zero_point;
    c = zero_point;
    lock_after_seconds = zero_point;
    have_first = false;
    update_count = 0;
    base_ns = pos 0;
    t0 = zero_point;
    t1 = zero_point;
    e2 = zero_point;
    samples = pos 0;
    estimated_sample_rate = zero_point;
  }

  -- nominalSampleRate <= 0.0 || blockFrames <= 0 || bandwidthHz <= 0.0
  unfoldable pub unusable : D.carrier → ℤ → D.carrier → Bool
  unusable rate frames bandwidth =
      D.less_equal rate zero_point || (leb_ℤ frames (pos 0) || D.less_equal bandwidth zero_point)

  -- Prepare on the clock `s`.
  unfoldable pub prepare_on : AudioClock → D.carrier → ℤ → D.carrier → AudioClock
  prepare_on s rate frames bandwidth =
      let omega = D.mul (D.mul two_pi bandwidth) (D.div (D.of_int frames) rate) in
      if unusable rate frames bandwidth
      then record s {
        nominal_sample_rate = rate;
        block_frames = frames;
        b = zero_point;
        c = zero_point;
        lock_after_seconds = zero_point;
        have_first = false;
        update_count = 0;
        estimated_sample_rate = zero_point;
      }
      else record s {
        nominal_sample_rate = rate;
        block_frames = frames;
        b = D.mul (D.sqrt (D.decimal 2 0)) omega;
        c = D.mul omega omega;
        lock_after_seconds = D.div (D.decimal 4 0) (D.mul two_pi bandwidth);
        have_first = false;
        update_count = 0;
        base_ns = pos 0;
        t0 = zero_point;
        t1 = zero_point;
        e2 = zero_point;
        samples = pos 0;
        estimated_sample_rate = rate;
      }

  abbrev pub prepare : D.carrier → ℤ → D.carrier → AudioClock
  prepare rate frames bandwidth = prepare_on initial rate frames bandwidth

  unfoldable pub update : AudioClock → ℤ → ℤ → AudioClock
  update s cumulative steady_ns =
      let frames = D.of_int s.block_frames in
      let period = D.div frames s.nominal_sample_rate in
      let t = D.div (D.of_int (steady_ns -ℤ s.base_ns)) ns_per_second in
      let e = D.sub t s.t1 in
      let e2 = D.add s.e2 (D.mul s.c e) in
      if D.equal s.b zero_point
      then s
      else if not s.have_first
      then record s {
        base_ns = steady_ns;
        t0 = zero_point;
        t1 = period;
        e2 = period;
        samples = cumulative;
        have_first = true;
        update_count = 1;
        estimated_sample_rate = D.div frames period;
      }
      else record s {
        t0 = s.t1;
        t1 = D.add s.t1 (D.add (D.mul s.b e) s.e2);
        e2 = e2;
        samples = cumulative;
        update_count = (s.update_count + 1) % 2 ^ 64;
        estimated_sample_rate = D.div frames e2;
      }

  pub is_locked : AudioClock → Bool
  is_locked s = s.have_first && D.less_equal s.lock_after_seconds s.t0

  pub drift_ppm : AudioClock → D.carrier
  drift_ppm s =
      if not s.have_first || D.less_equal s.nominal_sample_rate zero_point
      then zero_point
      else D.mul (D.sub (D.div s.estimated_sample_rate s.nominal_sample_rate) (D.decimal 1 0))
          (D.decimal 1000000 0)

  pub sample_position_at : AudioClock → ℤ → ℤ
  sample_position_at s local_us =
      let t = D.div (D.of_int (local_us *ℤ pos 1000 -ℤ s.base_ns)) ns_per_second in
      if not s.have_first
      then pos 0
      else s.samples +ℤ D.round (D.mul (D.sub t s.t0) s.estimated_sample_rate)

  pub local_us_at : AudioClock → ℤ → ℤ
  local_us_at s position =
      let ahead = D.div (D.of_int (position -ℤ s.samples)) s.estimated_sample_rate in
      let ns = s.base_ns +ℤ D.round (D.mul (D.add s.t0 ahead) ns_per_second) in
      if not s.have_first
      then pos 0
      else if leb_ℤ (pos 0) ns
      then quot (ns +ℤ pos 500) 1000
      else quot (ns -ℤ pos 500) 1000
