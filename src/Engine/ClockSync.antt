-- ===== src/Engine/ClockSync.antt =====
-- modules/jamn_engine: clock_sync.h and clock_sync.cpp: one peer's clock offset.
-- Times are unbounded integers. The re-lock callback's call is the Bool that `add_sample` returns.
pub mod Offset
pub mod Steps
pub mod Slew
use jam_n.Prelude.{
  ℕ, zero, suc, ◌+◌, ◌-◌, ◌%◌, ◌^◌, Bool, true, false, not, ◌&&◌, ◌||◌, List, [], ◌∷◌, ◌==◌, leb,
  ltb, if◌then◌else◌, get_or, set, replicate, take,
}
use jam_n.Prelude.Int.{ℤ, pos, negsuc, ◌+ℤ◌, ◌-ℤ◌, ◌*ℤ◌, ltb_ℤ, leb_ℤ, ◌==ℤ◌}
use jam_n.Core.Double.{Double}
use jam_n.Core.Quotient.{quot}

pub record ClockSyncSample : Type 0 where
  pub t1 : ℤ
  pub t2 : ℤ
  pub t3 : ℤ
  pub t4 : ℤ

unfoldable pub rtt : ClockSyncSample → ℤ
rtt s = (s.t4 -ℤ s.t1) -ℤ (s.t3 -ℤ s.t2)

unfoldable pub offset : ClockSyncSample → ℤ
offset s = quot ((s.t2 -ℤ s.t1) +ℤ (s.t3 -ℤ s.t4)) 2

abbrev pub window_size : ℕ
window_size = 64

abbrev pub lock_threshold : ℕ
lock_threshold = 8

abbrev pub relock_threshold_us : ℤ
relock_threshold_us = pos 250000

pub record WindowEntry : Type 0 where
  pub sample : ClockSyncSample
  pub local_time_us : ℤ
  pub seq : ℕ

pub record ClockSync : Type 0 where
  pub window : List WindowEntry
  pub window_next : ℕ
  pub sample_count : ℕ
  pub next_seq : ℕ
  pub slewed_offset_us : ℤ
  pub skew_ppm : ℤ
  pub manual_offset_us : ℤ
  pub last_update_us : ℤ
  pub have_last_update : Bool

abbrev pub blank : WindowEntry
blank = record {
  sample = record { t1 = pos 0; t2 = pos 0; t3 = pos 0; t4 = pos 0 };
  local_time_us = pos 0;
  seq = 0;
}

abbrev pub initial : ClockSync
initial = record {
  window = replicate window_size blank;
  window_next = 0;
  sample_count = 0;
  next_seq = 0;
  slewed_offset_us = pos 0;
  skew_ppm = pos 0;
  manual_offset_us = pos 0;
  last_update_us = pos 0;
  have_last_update = false;
}

-- elapsedSinceStart < kFastPhaseDurationUs ? kFastPeriodUs : kSlowPeriodUs
pub should_ping : ℤ → ℤ → ℤ → Bool
should_ping now session_start last_ping =
    let period = if ltb_ℤ (now -ℤ session_start) (pos 5000000) then pos 250000 else pos 1000000 in
    leb_ℤ period (now -ℤ last_ping)

abbrev pub is_locked : ClockSync → Bool
is_locked s = leb lock_threshold s.sample_count

abbrev pub estimated_offset_us : ClockSync → ℤ
estimated_offset_us s = s.slewed_offset_us +ℤ s.manual_offset_us

-- The test of MinRttOffsetUs's loop.
unfoldable pub better : WindowEntry → WindowEntry → Bool
better e best =
    ltb_ℤ (rtt e.sample) (rtt best.sample)
    || (rtt e.sample ==ℤ rtt best.sample && ltb best.seq e.seq)

-- The loop, over the entries after the first: bestRtt, bestOffset and bestSeq are those of `best`.
unfoldable pub best_of : WindowEntry → List WindowEntry → WindowEntry
best_of best [] = best
best_of best (e ∷ es) = best_of (if better e best then e else best) es

unfoldable pub min_rtt_offset_us : List WindowEntry → ℕ → ℤ
min_rtt_offset_us [] count = offset blank.sample
min_rtt_offset_us (e ∷ es) count = offset (best_of e (take (count - 1) es)).sample

reset_window : ClockSync → ClockSync
reset_window s = record s {
  window_next = 0;
  sample_count = 0;
  slewed_offset_us = pos 0;
  skew_ppm = pos 0;
}

-- error > kReLockThresholdUs || error < -kReLockThresholdUs
unfoldable pub jumps : ClockSync → ClockSyncSample → Bool
jumps s sample =
    let error = offset sample -ℤ s.slewed_offset_us in
    is_locked s && (ltb_ℤ relock_threshold_us error || ltb_ℤ error (pos 0 -ℤ relock_threshold_us))

-- The first block of AddSample.
unfoldable pub relocked : ClockSync → ClockSyncSample → ClockSync
unfolding reset_window
relocked s sample =
    if jumps s sample then record (reset_window s) { have_last_update = false } else s

-- The entry's insertion.
unfoldable pub inserted : ClockSync → ClockSyncSample → ℤ → ClockSync
inserted s sample now = record s {
  window =
      set s.window s.window_next
        (record { sample = sample; local_time_us = now; seq = s.next_seq });
  window_next = (s.window_next + 1) % window_size;
  sample_count = if ltb s.sample_count window_size then s.sample_count + 1 else s.sample_count;
  next_seq = (s.next_seq + 1) % 2 ^ 64;
}

-- The step's two tests: at most kMaxSlewPpm of the elapsed time, up or down.
unfoldable pub bounded_step : ℤ → ℤ → ℤ
bounded_step error max_step =
    let step = if ltb_ℤ max_step error then max_step else error in
    if ltb_ℤ step (pos 0 -ℤ max_step) then pos 0 -ℤ max_step else step

unfoldable pub predicted_drift : ClockSync → ℤ → ℤ
predicted_drift s elapsed = quot (s.skew_ppm *ℤ elapsed) 1000000

-- (kMaxSlewPpm * elapsedUs) / 1'000'000
unfoldable pub max_step : ℤ → ℤ
max_step elapsed = quot (pos 500 *ℤ elapsed) 1000000

-- The rest of AddSample, from the window's estimates on.
unfoldable pub tracked : ClockSync → ℤ → ℤ → ClockSync
tracked s target now =
    if not (is_locked s) || not s.have_last_update
    then record s { slewed_offset_us = target; last_update_us = now; have_last_update = true }
    else (let elapsed = now -ℤ s.last_update_us in
        let drift = predicted_drift s elapsed in
        let step = bounded_step (target -ℤ (s.slewed_offset_us +ℤ drift)) (max_step elapsed) in
        if leb_ℤ elapsed (pos 0) then record s { last_update_us = now } else record s {
          last_update_us = now;
          slewed_offset_us = s.slewed_offset_us +ℤ (drift +ℤ step);
        })

pub set_manual_offset_us : ClockSync → ℤ → ClockSync
set_manual_offset_us s given =
    let high = if ltb_ℤ (pos 50000) given then pos 50000 else given in
    let low = if ltb_ℤ high (negsuc 49999) then negsuc 49999 else high in
    record s { manual_offset_us = low }

module _ (D : Double) where
  record Sums : Type 0 where
    x : D.carrier
    y : D.carrier
    xy : D.carrier
    xx : D.carrier

  add_up : ℤ → List WindowEntry → Sums → Sums
  add_up x0 [] sums = sums
  add_up x0 (e ∷ es) sums =
      let x = D.of_int (e.local_time_us -ℤ x0) in
      let y = D.of_int (offset e.sample) in
      add_up x0 es (record {
        x = D.add sums.x x;
        y = D.add sums.y y;
        xy = D.add sums.xy (D.mul x y);
        xx = D.add sums.xx (D.mul x x);
      })

  pub fit_skew_ppm : List WindowEntry → ℕ → ℤ
  fit_skew_ppm window count =
      let zero = D.decimal 0 0 in
      let start : Sums = record { x = zero; y = zero; xy = zero; xx = zero } in
      let sums = add_up (get_or window 0 blank).local_time_us (take count window) start in
      let n = D.of_int (pos count) in
      let denom = D.sub (D.mul n sums.xx) (D.mul sums.x sums.x) in
      let slope = D.div (D.sub (D.mul n sums.xy) (D.mul sums.x sums.y)) denom in
      if ltb count 2
      then pos 0
      else if D.equal denom zero
      then pos 0
      else D.to_int (D.mul slope (D.decimal 1000000 0))

  -- The entry in the window, and the new skew.
  unfoldable pub folded : ClockSync → ClockSyncSample → ℤ → ClockSync
  unfolding inserted
  folded s sample now =
      let s' = inserted s sample now in
      record s' { skew_ppm = fit_skew_ppm s'.window s'.sample_count }

  -- AddSample, and whether it called the re-lock callback.
  unfoldable pub add_sample : ClockSync → ClockSyncSample → ℤ → Bool × ClockSync
  add_sample s sample now =
      let s' = folded (relocked s sample) sample now in
      (jumps s sample, tracked s' (min_rtt_offset_us s'.window s'.sample_count) now)
