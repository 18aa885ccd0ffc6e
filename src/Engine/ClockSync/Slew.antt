-- ===== src/Engine/ClockSync/Slew.antt =====
-- How AddSample moves the estimate: at once until it is locked, then slowly, and anew after a jump.
use jam_n.Prelude.{
  ◌≤◌, ◌<◌, ◌≡◌, refl, sym, ◌∙◌, true, false, not, ◌||◌, List, [], ◌∷◌, Bool-cases, inl, inr,
  length, set, length-set, length-replicate, arith,
}
use mathlib.Core.Path.{subst}
use jam_n.Prelude.Int.{ℤ, pos, ◌+ℤ◌, ◌-ℤ◌, ◌*ℤ◌, ◌≤ℤ◌, leb_ℤ}
use jam_n.Core.Double.{Double}
use jam_n.Engine.ClockSync.{
  ClockSync, ClockSyncSample, WindowEntry, initial, blank, offset, is_locked, jumps, relocked,
  inserted, bounded_step, best_of, predicted_drift, max_step, tracked, min_rtt_offset_us, folded,
  add_sample,
}
use jam_n.Engine.ClockSync.Steps.{Lands, millionth, bounded_step-scaled, bounded_step-Lands}

pub record IsValid (s : ClockSync) : Type 0 where
  pub storage : length s.window ≡ 64
  pub count_in : s.sample_count ≤ 64
  pub next_in : s.window_next < 64

initial-IsValid : IsValid initial
initial-IsValid = record {
  storage = length-replicate 64 blank;
  count_in = omega arith;
  next_in = omega arith;
}

relocked-IsValid :
    (s : ClockSync) (sample : ClockSyncSample) → IsValid s → IsValid (relocked s sample)
unfolding relocked
relocked-IsValid s sample v = elim (Bool-cases (jumps s sample)) [
  | inl does ↦
      rw does (record { storage = v.storage; count_in = omega arith; next_in = omega arith })
  | inr stays ↦ rw stays v
]

inserted-IsValid :
    (s : ClockSync) (sample : ClockSyncSample) (now : ℤ)
    → IsValid s
    → IsValid (inserted s sample now)
unfolding inserted
inserted-IsValid s sample now v = record {
  storage = length-set s.window s.window_next _ ∙ v.storage;
  count_in = let h = v.count_in in ground arith;
  next_in = omega arith;
}

tracked-IsValid : (s : ClockSync) (target now : ℤ) → IsValid s → IsValid (tracked s target now)
unfolding tracked
tracked-IsValid s target now v = elim (Bool-cases (not (is_locked s) || not s.have_last_update)) [
  | inl does ↦ rw does (record { storage = v.storage; count_in = v.count_in; next_in = v.next_in })
  | inr runs ↦ elim (Bool-cases (leb_ℤ (now -ℤ s.last_update_us) (pos 0))) [
    | inl still ↦
        rw (runs, still)
          (record { storage = v.storage; count_in = v.count_in; next_in = v.next_in })
    | inr moved ↦
        rw (runs, moved)
          (record { storage = v.storage; count_in = v.count_in; next_in = v.next_in })
  ]
]

-- The estimate moves by the drift of so many parts in a million, to the microsecond, and by a step of 500
-- parts in a million of the elapsed time at most, towards the window's best offset.
abbrev pub Slewed : ClockSync → ClockSync → ℤ → Type 0
Slewed s s' elapsed =
    (drift : ℤ) × (step : ℤ) × (s'.slewed_offset_us ≡ s.slewed_offset_us +ℤ (drift +ℤ step))
    × (pos 1000000 *ℤ drift ≤ℤ s'.skew_ppm *ℤ elapsed +ℤ pos 999999)
    × (s'.skew_ppm *ℤ elapsed ≤ℤ pos 1000000 *ℤ drift +ℤ pos 999999)
    × (pos 1000000 *ℤ step ≤ℤ pos 500 *ℤ elapsed)
    × (pos 0 -ℤ pos 500 *ℤ elapsed ≤ℤ pos 1000000 *ℤ step)
    × Lands s'.slewed_offset_us (min_rtt_offset_us s'.window s'.sample_count) step elapsed

step_of : ClockSync → ℤ → ℤ → ℤ
step_of s target elapsed =
    bounded_step (target -ℤ (s.slewed_offset_us +ℤ predicted_drift s elapsed)) (max_step elapsed)

tracked_moves :
    (s : ClockSync) (target now : ℤ)
    → is_locked s ≡ true
    → s.have_last_update ≡ true
    → leb_ℤ (now -ℤ s.last_update_us) (pos 0) ≡ false
    → tracked s target now ≡ record s {
      last_update_us = now;
      slewed_offset_us =
          s.slewed_offset_us
          +ℤ (predicted_drift s (now -ℤ s.last_update_us)
              +ℤ step_of s target (now -ℤ s.last_update_us));
    }
unfolding tracked step_of
tracked_moves s target now locked have moved = rw (locked, have, moved)

step_of-bounds :
    (s : ClockSync) (target elapsed : ℤ)
    → leb_ℤ elapsed (pos 0) ≡ false
    → (pos 1000000 *ℤ step_of s target elapsed ≤ℤ pos 500 *ℤ elapsed)
      × (pos 0 -ℤ pos 500 *ℤ elapsed ≤ℤ pos 1000000 *ℤ step_of s target elapsed)
unfolding step_of
step_of-bounds s target elapsed moved =
    bounded_step-scaled (target -ℤ (s.slewed_offset_us +ℤ predicted_drift s elapsed)) elapsed moved

tracked_slews :
    (s : ClockSync) (target now : ℤ)
    → is_locked s ≡ true
    → s.have_last_update ≡ true
    → leb_ℤ (now -ℤ s.last_update_us) (pos 0) ≡ false
    → target ≡ min_rtt_offset_us s.window s.sample_count
    → Slewed s (tracked s target now) (now -ℤ s.last_update_us)
unfolding predicted_drift step_of
tracked_slews s target now locked have moved best =
    let elapsed = now -ℤ s.last_update_us in
    let (high, low) = step_of-bounds s target elapsed moved in
    let (above, below) = millionth (s.skew_ppm *ℤ elapsed) in
    subst (λ s'. Slewed s s' elapsed) (sym (tracked_moves s target now locked have moved))
      (
        predicted_drift s elapsed,
        step_of s target elapsed,
        refl,
        above,
        below,
        high,
        low,
        subst
            (λ b.
              Lands (s.slewed_offset_us +ℤ (predicted_drift s elapsed +ℤ step_of s target elapsed))
                b (step_of s target elapsed) elapsed)
            best
            (bounded_step-Lands s.slewed_offset_us (predicted_drift s elapsed) target elapsed
              moved),
      )

relocked_without :
    (s : ClockSync) (sample : ClockSyncSample) → jumps s sample ≡ false → relocked s sample ≡ s
unfolding relocked
relocked_without s sample h = rw h

forgotten : ClockSync → ClockSync
forgotten s = record s {
  window_next = 0;
  sample_count = 0;
  slewed_offset_us = pos 0;
  skew_ppm = pos 0;
  have_last_update = false;
}

relocked-jumps :
    (s : ClockSync) (sample : ClockSyncSample)
    → jumps s sample ≡ true
    → relocked s sample ≡ forgotten s
unfolding relocked forgotten
relocked-jumps s sample h = rw h

first_offset :
    (window : List WindowEntry) (entry : WindowEntry)
    → length window ≡ 64
    → min_rtt_offset_us (set window 0 entry) 1 ≡ offset entry.sample
unfolding min_rtt_offset_us best_of
first_offset [] entry h = absurd (omega arith)
first_offset (e ∷ es) entry h = refl

-- Started over, with the one sample.
abbrev pub Anew : ClockSyncSample → ClockSync → Type 0
Anew sample s = (s.sample_count ≡ 1) × (s.slewed_offset_us ≡ offset sample)

module _ (D : Double) where
  folded-IsValid :
      (s : ClockSync) (sample : ClockSyncSample) (now : ℤ)
      → IsValid s
      → IsValid (folded D s sample now)
  unfolding folded
  folded-IsValid s sample now v =
      let w = inserted-IsValid s sample now v in
      record { storage = w.storage; count_in = w.count_in; next_in = w.next_in }

  add_sample-IsValid :
      (s : ClockSync) (sample : ClockSyncSample) (now : ℤ)
      → IsValid s
      → IsValid ((add_sample D s sample now).1)
  unfolding add_sample
  add_sample-IsValid s sample now v =
      tracked-IsValid (folded D (relocked s sample) sample now) _ now
        (folded-IsValid (relocked s sample) sample now (relocked-IsValid s sample v))

  abbrev pub run : ClockSync → List (ClockSyncSample × ℤ) → ClockSync
  run s [] = s
  run s (x ∷ xs) = run ((add_sample D s x.0 x.1).1) xs

  run_from : (s : ClockSync) (xs : List (ClockSyncSample × ℤ)) → IsValid s → IsValid (run s xs)
  run_from s [] v = v
  run_from s (x ∷ xs) v = run_from ((add_sample D s x.0 x.1).1) xs (add_sample-IsValid s x.0 x.1 v)

  -- Whatever samples arrive: the window's indices stay inside it.
  pub run-IsValid : (xs : List (ClockSyncSample × ℤ)) → IsValid (run initial xs)
  run-IsValid xs = run_from initial xs initial-IsValid

  folded_locked :
      (s : ClockSync) (sample : ClockSyncSample) (now : ℤ)
      → is_locked s ≡ true
      → is_locked (folded D s sample now) ≡ true
  unfolding folded inserted
  folded_locked s sample now h = ground arith

  folded_slews :
      (s : ClockSync) (sample : ClockSyncSample) (now : ℤ)
      → is_locked s ≡ true
      → s.have_last_update ≡ true
      → leb_ℤ (now -ℤ s.last_update_us) (pos 0) ≡ false
      → let t = folded D s sample now in
        Slewed s
          (tracked t (min_rtt_offset_us t.window t.sample_count) now)
          (now -ℤ s.last_update_us)
  unfolding folded inserted
  folded_slews s sample now locked have moved =
      let t = folded D s sample now in
      tracked_slews t (min_rtt_offset_us t.window t.sample_count) now
        (folded_locked s sample now locked) have moved refl

  -- An established estimate moves, when the sample does not jump and time has passed, by a drift that is
  -- the new skew times the elapsed time over a million, to less than a microsecond, and by a step of at
  -- most 500 parts in a million of the elapsed time, up or down. It is then the window's best offset, or,
  -- to the microsecond, the step was a full one towards it and did not reach it.
  pub add_sample-Slewed :
      (s : ClockSync) (sample : ClockSyncSample) (now : ℤ)
      → is_locked s ≡ true
      → s.have_last_update ≡ true
      → jumps s sample ≡ false
      → leb_ℤ (now -ℤ s.last_update_us) (pos 0) ≡ false
      → Slewed s ((add_sample D s sample now).1) (now -ℤ s.last_update_us)
  unfolding add_sample
  add_sample-Slewed s sample now locked have stays moved =
      subst
        (λ r. Slewed s (tracked (folded D r sample now) (target r) now) (now -ℤ s.last_update_us))
        (sym (relocked_without s sample stays)) (folded_slews s sample now locked have moved)
    where
      target : ClockSync → ℤ
      target r =
          min_rtt_offset_us (folded D r sample now).window (folded D r sample now).sample_count

  starts-Anew :
      (s : ClockSync) (sample : ClockSyncSample) (now : ℤ)
      → IsValid s
      → Anew sample (
          tracked
            (folded D (forgotten s) sample now)
            (min_rtt_offset_us (folded D (forgotten s) sample now).window 1)
            now)
  unfolding forgotten folded inserted tracked
  starts-Anew s sample now v = (refl, first_offset s.window _ v.storage)

  -- A jump of a locked estimate calls the callback and starts over: one sample, whose offset is the
  -- estimate.
  pub add_sample-Anew :
      (s : ClockSync) (sample : ClockSyncSample) (now : ℤ)
      → IsValid s
      → jumps s sample ≡ true
      → ((add_sample D s sample now).0 ≡ true) × Anew sample ((add_sample D s sample now).1)
  unfolding add_sample folded forgotten
  add_sample-Anew s sample now v jump = (
    jump,
    subst (λ r. Anew sample (tracked (folded D r sample now) (target r) now))
        (sym (relocked-jumps s sample jump)) (starts-Anew s sample now v),
  )
    where
      target : ClockSync → ℤ
      target r =
          min_rtt_offset_us (folded D r sample now).window (folded D r sample now).sample_count
