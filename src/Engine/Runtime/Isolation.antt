-- ===== src/Engine/Runtime/Isolation.antt =====
-- What a peer sends reaches its own slot and lane only.
use jam_n.Prelude.{
  ℕ, ◌≡◌, ◌≢◌, refl, ap, ◌∙◌, Bool, true, false, List, some, leb, if◌then◌else◌, get_or, set,
  get_or-set_ne,
}
use jam_n.Prelude.Int.{pos}
use jam_n.Core.Double.{Double}
use jam_n.Core.ByteReader.{Reader}
use jam_n.Net.{Channel}
use jam_n.Engine.Crossing.{lane_at}
use jam_n.Engine.Crossing.Lanes.{publish-lane_at}
use jam_n.Engine.Runtime.{
  PeerRuntime, Action, slot_at, free_slot, no_peer, find_slot, peer_at, published_offset_us,
  offset_is_locked, relock_generation,
}
use jam_n.Engine.Runtime.Receiving.{on_receive}
use jam_n.Engine.Runtime.Steps.{
  Change, stay, both, counted, owned, buffered, sent, passed_on, told, offered, skipped, pinged,
  timed, claimed, released,
}
use jam_n.Engine.Runtime.Steps.Receive.{Found, on_receive-Change}

-- The slot, its published entries and its lane are the same.
abbrev Same : ℕ → PeerRuntime → PeerRuntime → Type 0
Same j s t =
    (slot_at t j ≡ slot_at s j)
    × (get_or t.slot_peer j no_peer ≡ get_or s.slot_peer j no_peer)
    × (get_or t.slot_offset_us j (pos 0) ≡ get_or s.slot_offset_us j (pos 0))
    × (get_or t.slot_offset_locked j false ≡ get_or s.slot_offset_locked j false)
    × (get_or t.slot_relock_gen j 0 ≡ get_or s.slot_relock_gen j 0)
    × (lane_at t.crossing j ≡ lane_at s.crossing j)

then_too : (j : ℕ) (s t u : PeerRuntime) → Same j s t → Same j t u → Same j s u
then_too j s t u (a, b, c, d, e, f) (a', b', c', d', e', f') =
    (a' ∙ a, b' ∙ b, c' ∙ c, d' ∙ d, e' ∙ e, f' ∙ f)

relocked_other :
    (gens : List ℕ) (i j n : ℕ) (relocks : Bool)
    → i ≢ j
    → get_or (if relocks then set gens i n else gens) j 0 ≡ get_or gens j 0
relocked_other gens i j n true ne = get_or-set_ne gens i j n 0 ne
relocked_other gens i j n false ne = refl

module _ (j : ℕ) (T : ℕ → Type 0) (others : (i : ℕ) → T i → i ≢ j) where
  Change-Same : {s t : PeerRuntime} → Change T s t → Same j s t
  Change-Same stay = (refl, refl, refl, refl, refl, refl)
  Change-Same {s} {t} (both {t = u} c d) = then_too j s u t (Change-Same c) (Change-Same d)
  Change-Same (counted stats) = (refl, refl, refl, refl, refl, refl)
  Change-Same (owned own) = (refl, refl, refl, refl, refl, refl)
  Change-Same (buffered p q) = (refl, refl, refl, refl, refl, refl)
  Change-Same (sent peer channel size fits) = (refl, refl, refl, refl, refl, refl)
  Change-Same (passed_on from r) = (refl, refl, refl, refl, refl, refl)
  Change-Same (told peer event) = (refl, refl, refl, refl, refl, refl)
  Change-Same {s} (offered i note dedupe touch) =
      (refl, refl, refl, refl, refl, publish-lane_at s.crossing i j note (others i touch))
  Change-Same (skipped dedupe) = (refl, refl, refl, refl, refl, refl)
  Change-Same {s} (pinged i at touch) =
      (get_or-set_ne s.slots i j _ free_slot (others i touch), refl, refl, refl, refl, refl)
  Change-Same {s} (timed i clock relocks touch) = (
    get_or-set_ne s.slots i j _ free_slot (others i touch),
    refl,
    get_or-set_ne s.slot_offset_us i j _ (pos 0) (others i touch),
    get_or-set_ne s.slot_offset_locked i j _ false (others i touch),
    relocked_other s.slot_relock_gen i j _ relocks (others i touch),
    refl,
  )
  Change-Same {s} (claimed i peer touch named new e) = (
    get_or-set_ne s.slots i j _ free_slot (others i touch),
    get_or-set_ne s.slot_peer i j _ no_peer (others i touch),
    get_or-set_ne s.slot_offset_us i j _ (pos 0) (others i touch),
    get_or-set_ne s.slot_offset_locked i j _ false (others i touch),
    refl,
    refl,
  )
  Change-Same {s} (released i touch) = (
    get_or-set_ne s.slots i j _ free_slot (others i touch),
    get_or-set_ne s.slot_peer i j _ no_peer (others i touch),
    get_or-set_ne s.slot_offset_us i j _ (pos 0) (others i touch),
    get_or-set_ne s.slot_offset_locked i j _ false (others i touch),
    refl,
    refl,
  )

some-injective : (i j : ℕ) → some i ≡ some j → i ≡ j
some-injective i j e = cc

-- A packet from a link leaves every slot but the one that FindSlot finds for it as it is: its clock, all
-- that is published of it, and its lane. From a link without a slot it leaves them all.
pub on_receive_others :
    (D : Double) (sends : List Action → Bool) (s : PeerRuntime) (from : ℕ) (channel : Channel)
    (packet : Reader) (j : ℕ)
    → find_slot s from ≢ some j
    → let t = on_receive D sends s from channel packet in
      (slot_at t j ≡ slot_at s j)
      × (peer_at t j ≡ peer_at s j)
      × (published_offset_us t j ≡ published_offset_us s j)
      × (offset_is_locked t j ≡ offset_is_locked s j)
      × (relock_generation t j ≡ relock_generation s j)
      × (lane_at t.crossing j ≡ lane_at s.crossing j)
unfolding peer_at published_offset_us offset_is_locked relock_generation
on_receive_others D sends s from channel packet j other =
    let (slot, peer, offset, locked, gen, lane) =
      Change-Same j (Found s from) (λ i here e. other (here ∙ ap some e))
        (on_receive-Change D sends s from channel packet) in
    (
      slot,
      ap (λ x. if leb 8 j then no_peer else x) peer,
      ap (λ x. if leb 8 j then pos 0 else x) offset,
      ap (λ x. if leb 8 j then false else x) locked,
      ap (λ x. if leb 8 j then 0 else x) gen,
      lane,
    )
