-- ===== src/Engine/Crossing/Lanes.antt =====
-- A peer's lane is touched by that peer's calls only.
use jam_n.Prelude.{
  ℕ, ◌≡◌, ◌≢◌, refl, ap, sym, ◌∙◌, none, Option, leb, if◌then◌else◌, Bool-cases, inl, inr,
  get_or-set_ne,
}
use jam_n.Core.SpscRing.{pop, size_approx}
use jam_n.Engine.Crossing.{
  RemoteNote, Lane, NoteCrossing, new_lane, no_note, lane_at, publish, consume, dropped_count,
  depth_approx,
}

pub publish-lane_at :
    (s : NoteCrossing) (slot other : ℕ) (note : RemoteNote)
    → slot ≢ other
    → lane_at (publish s slot note).1 other ≡ lane_at s other
unfolding publish
publish-lane_at s slot other note h = elim (Bool-cases (leb 8 slot)) [
  | inl outside ↦ rw outside refl
  | inr inside ↦ rw inside (get_or-set_ne s.lanes slot other _ new_lane h)
]

consume-lane_at :
    (s : NoteCrossing) (slot other : ℕ)
    → slot ≢ other
    → lane_at (consume s slot).1 other ≡ lane_at s other
unfolding consume
consume-lane_at s slot other h = elim (Bool-cases (leb 8 slot)) [
  | inl outside ↦ rw outside refl
  | inr inside ↦ rw inside (get_or-set_ne s.lanes slot other _ new_lane h)
]

-- What the calls on a slot answer is a function of its lane.
consumed : ℕ → Lane → Option RemoteNote
consumed slot lane = if leb 8 slot then none else (pop no_note lane.ring).0

consume-consumed :
    (s : NoteCrossing) (slot : ℕ) → (consume s slot).0 ≡ consumed slot (lane_at s slot)
unfolding consume consumed
consume-consumed s slot = elim (Bool-cases (leb 8 slot)) [
  | inl outside ↦ rw outside refl
  | inr inside ↦ rw inside refl
]

-- Whatever is published or consumed on one slot, what the next call on another takes out, and the
-- other's count of refused notes and its depth, are the same.
pub lanes_apart :
    (s : NoteCrossing) (slot other : ℕ) (note : RemoteNote)
    → slot ≢ other
    → ((consume (publish s slot note).1 other).0 ≡ (consume s other).0)
      × (dropped_count (publish s slot note).1 other ≡ dropped_count s other)
      × (depth_approx (publish s slot note).1 other ≡ depth_approx s other)
      × ((consume (consume s slot).1 other).0 ≡ (consume s other).0)
      × (dropped_count (consume s slot).1 other ≡ dropped_count s other)
      × (depth_approx (consume s slot).1 other ≡ depth_approx s other)
unfolding dropped_count depth_approx
lanes_apart s slot other note h =
    let p = publish-lane_at s slot other note h in
    let c = consume-lane_at s slot other h in
    (
      consume-consumed (publish s slot note).1 other
          ∙ ap (consumed other) p
          ∙ sym (consume-consumed s other),
      ap (λ lane. if leb 8 other then 0 else lane.dropped) p,
      ap (λ lane. if leb 8 other then 0 else size_approx lane.ring) p,
      consume-consumed (consume s slot).1 other
          ∙ ap (consumed other) c
          ∙ sym (consume-consumed s other),
      ap (λ lane. if leb 8 other then 0 else lane.dropped) c,
      ap (λ lane. if leb 8 other then 0 else size_approx lane.ring) c,
    )
