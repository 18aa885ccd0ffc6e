-- ===== src/Engine/Jitter/Target.antt =====
-- How the playout target moves: within its bounds, up at once, down slowly.
use jam_n.Prelude.{◌≡◌, Bool-cases, inl, inr, ◌⊎◌, true, false, List, [], ◌∷◌, arith}
use jam_n.Prelude.Int.{ℤ, pos, ◌+ℤ◌, ◌-ℤ◌, ◌≤ℤ◌, ltb_ℤ}
use jam_n.Core.Double.{Double}
use jam_n.Core.Histogram.{p99}
use jam_n.Engine.Jitter.{
  JitterBuffer, initial, max_ℤ, set_min_target_us, clamped, grown, evaluate, record_transit,
  computed_target, report_late_event, playout_target,
}

-- The calls of a jitter buffer's owner.
pub data Call : Type 0 where
  transit : ℤ → ℤ → Call
  late : ℤ → Call
  playout : ℤ → Call
  floor : ℤ → Call

abbrev pub InBounds : ℤ → Type 0
InBounds t = (pos 0 ≤ℤ t) × (t ≤ℤ pos 200000)

clamped-InBounds : (p floor_us : ℤ) → InBounds (clamped p floor_us)
unfolding clamped ◌+ℤ◌
clamped-InBounds p floor_us = (ground arith, ground arith)

grown-InBounds :
    (c : ℤ) (j : JitterBuffer) → InBounds c → InBounds j.target_us → InBounds (grown c j).target_us
unfolding grown
grown-InBounds c j (a, b) (d, e) = (ground arith, ground arith)

evaluate-InBounds :
    (c now : ℤ) (j : JitterBuffer)
    → InBounds c
    → InBounds j.target_us
    → InBounds (evaluate c now j).target_us
unfolding evaluate ◌-ℤ◌
evaluate-InBounds c now j (a, b) (d, e) = (ground arith, ground arith)

-- A whole interval since the last evaluation, and no grace owed.
abbrev pub MayShrink : JitterBuffer → ℤ → Type 0
MayShrink j now =
    (j.have_last_eval ≡ true)
    × (ltb_ℤ (now -ℤ j.last_eval_us) (pos 2000000) ≡ false)
    × (ltb_ℤ (pos 0) j.late_event_grace_owed ≡ false)

evaluate_cases :
    (c now : ℤ) (j : JitterBuffer)
    → ((evaluate c now j).target_us ≡ j.target_us)
      ⊎ (MayShrink j now × ((evaluate c now j).target_us ≡ max_ℤ c (j.target_us -ℤ pos 1000)))
unfolding evaluate
evaluate_cases c now j = elim (Bool-cases j.have_last_eval) [
  | inr new ↦ inl (rw new)
  | inl have ↦ elim (Bool-cases (ltb_ℤ (now -ℤ j.last_eval_us) (pos 2000000))) [
    | inl soon ↦ inl (rw (have, soon))
    | inr due ↦ elim (Bool-cases (ltb_ℤ (pos 0) j.late_event_grace_owed)) [
      | inl owed ↦ inl (rw (have, due, owed))
      | inr none_owed ↦ inr ((have, due, none_owed), rw (have, due, none_owed))
    ]
  ]
]

max_ℤ-ge : (a b : ℤ) → (a ≤ℤ max_ℤ a b) × (b ≤ℤ max_ℤ a b)
max_ℤ-ge a b = (ground arith, ground arith)

sub_back : (t t' : ℤ) → t -ℤ pos 1000 ≤ℤ t' → t ≤ℤ t' +ℤ pos 1000
unfolding ◌+ℤ◌ ◌-ℤ◌
sub_back t t' h = ground arith

grown-ge :
    (c : ℤ) (j : JitterBuffer)
    → (c ≤ℤ (grown c j).target_us) × (j.target_us ≤ℤ (grown c j).target_us)
unfolding grown
grown-ge c j = (ground arith, ground arith)

one_step : (t g t' c : ℤ) → t ≤ℤ g → t' ≡ max_ℤ c (g -ℤ pos 1000) → t ≤ℤ t' +ℤ pos 1000
one_step t g t' c h e =
    let low : g ≤ℤ t' +ℤ pos 1000 = rw e (sub_back g _ ((max_ℤ-ge c (g -ℤ pos 1000)).1)) in
    omega arith

not_lower : (t g t' : ℤ) → t ≤ℤ g → t' ≡ g → ltb_ℤ t' t ≡ true → ⊥
not_lower t g t' h same e = ground arith

evaluate-ge : (c now : ℤ) (j : JitterBuffer) → c ≤ℤ j.target_us → c ≤ℤ (evaluate c now j).target_us
evaluate-ge c now j h = elim (evaluate_cases c now j) [
  | inl e ↦ rw e h
  | inr (_, e) ↦ rw e ((max_ℤ-ge c (j.target_us -ℤ pos 1000)).0)
]

module _ (D : Double) where
  abbrev pub call : JitterBuffer → Call → JitterBuffer
  call j (transit t now) = record_transit D j t now
  call j (late now) = report_late_event D j now
  call j (playout now) = playout_target D j now
  call j (floor t) = set_min_target_us j t

  abbrev pub run : JitterBuffer → List Call → JitterBuffer
  run j [] = j
  run j (c ∷ cs) = run (call j c) cs

  call-InBounds :
      (j : JitterBuffer) (c : Call) → InBounds j.target_us → InBounds (call j c).target_us
  unfolding record_transit report_late_event playout_target computed_target set_min_target_us
  call-InBounds j (transit t now) h = h
  call-InBounds j (late now) h =
      grown-InBounds (computed_target D j now)
        (record j { late_event_grace_owed = j.late_event_grace_owed +ℤ pos 1 })
        (clamped-InBounds (p99 D j.histogram now) j.min_target_us) h
  call-InBounds j (playout now) h =
      let c = clamped-InBounds (p99 D j.histogram now) j.min_target_us in
      evaluate-InBounds (computed_target D j now) now (grown (computed_target D j now) j) c
        (grown-InBounds (computed_target D j now) j c h)
  call-InBounds j (floor t) h = h

  run_from :
      (j : JitterBuffer) (cs : List Call) → InBounds j.target_us → InBounds (run j cs).target_us
  run_from j [] h = h
  run_from j (c ∷ cs) h = run_from (call j c) cs (call-InBounds j c h)

  -- Whatever is called, in whatever order: the target stays between 0 and kMaxPlayoutUs.
  pub run-InBounds : (cs : List Call) → InBounds (run initial cs).target_us
  run-InBounds cs = run_from initial cs (omega arith, omega arith)

  -- After a poll, and after a late event, the target is no less than the percentile with its margin,
  -- clamped.
  pub computed_target-grows :
      (j : JitterBuffer) (now : ℤ)
      → (computed_target D j now ≤ℤ (playout_target D j now).target_us)
        × (computed_target D j now ≤ℤ (report_late_event D j now).target_us)
  unfolding playout_target report_late_event
  computed_target-grows j now =
      let c = computed_target D j now in
      let owing : JitterBuffer = record j {
        late_event_grace_owed = j.late_event_grace_owed +ℤ pos 1;
      } in
      (evaluate-ge c now (grown c j) ((grown-ge c j).0), (grown-ge c owing).0)

  -- A poll that lowers the target comes a whole kShrinkIntervalUs after the last evaluation, with no
  -- grace owed, and lowers it by kShrinkStepUs at most.
  pub playout_target-shrinks :
      (j : JitterBuffer) (now : ℤ)
      → ltb_ℤ (playout_target D j now).target_us j.target_us ≡ true
      → MayShrink j now × (j.target_us ≤ℤ (playout_target D j now).target_us +ℤ pos 1000)
  unfolding playout_target grown
  playout_target-shrinks j now e = elim (evaluate_cases c now (grown c j)) [
    | inl same ↦ absurd (not_lower j.target_us (grown c j).target_us _ ((grown-ge c j).1) same e)
    | inr (may, low) ↦ (may, one_step j.target_us (grown c j).target_us _ c ((grown-ge c j).1) low)
  ]
    where
      c : ℤ
      c = computed_target D j now
