-- ===== src/Engine/Dedupe.antt =====
-- modules/jamn_engine: dedupe_ring.h and dedupe_ring.cpp.
-- The array of slots is a function of the index, which is always below kRingSize: a remainder.
pub mod History
use jam_n.Prelude.{
  ℕ, ◌+◌, ◌-◌, ◌%◌, ◌^◌, Bool, true, false, not, ◌&&◌, ◌||◌, List, [], ◌∷◌, ◌++◌, Option, none,
  some, ◌==◌, ltb, if◌then◌else◌, length, get_or, set,
}
use jam_n.Prelude.Int.{ℤ, negsuc, leb_ℤ}
use jam_n.Engine.Serial.{distance16, is_newer_serial}

abbrev pub ring_size : ℕ
ring_size = 1024

abbrev pub max_peers : ℕ
max_peers = 8

pub record Slot : Type 0 where
  pub seq : ℕ
  pub valid : Bool

pub record PeerRing : Type 0 where
  pub peer : ℕ
  pub have_highest : Bool
  pub highest_seq : ℕ
  pub slots : ℕ → Slot

-- PeerRing{} with its peer set. (`inUse` is true of every claimed ring.)
abbrev pub new_ring : ℕ → PeerRing
new_ring peer = record {
  peer = peer;
  have_highest = false;
  highest_seq = 0;
  slots = λ _. record { seq = 0; valid = false };
}

abbrev pub store : (ℕ → Slot) → ℕ → Slot → ℕ → Slot
store slots i s j = if i == j then s else slots j

-- distance <= -static_cast<std::int32_t>(kRingSize)
abbrev too_old : PeerRing → ℕ → Bool
too_old ring seq =
    ring.have_highest && leb_ℤ (distance16 seq ring.highest_seq) (negsuc (ring_size - 1))

abbrev repeated : PeerRing → ℕ → Bool
repeated ring seq =
    (ring.slots (seq % ring_size)).valid && (ring.slots (seq % ring_size)).seq == seq

abbrev moves_on : PeerRing → ℕ → Bool
moves_on ring seq = not ring.have_highest || is_newer_serial seq ring.highest_seq

abbrev pub recorded : PeerRing → ℕ → PeerRing
recorded ring seq = record ring {
  slots = store ring.slots (seq % ring_size) (record { seq = seq; valid = true });
  highest_seq = if moves_on ring seq then seq else ring.highest_seq;
  have_highest = if moves_on ring seq then true else ring.have_highest;
}

-- `IsDuplicate` on the ring that was found for the peer.
unfoldable pub check : PeerRing → ℕ → Bool × PeerRing
check ring seq =
    if too_old ring seq
    then (true, ring)
    else if repeated ring seq
    then (true, ring)
    else (false, recorded ring seq)

-- The claimed rings, in the order of the array: peerCount_ is their number.
pub record DedupeRing : Type 0 where
  pub rings : List PeerRing

pub find_ring : ℕ → List PeerRing → Option ℕ
find_ring peer [] = none
find_ring peer (ring ∷ rings) =
    if ring.peer == peer
    then some 0
    else elim (find_ring peer rings) [ none ↦ none | some i ↦ some (i + 1) ]

-- The index of the peer's ring, and the rings with that one claimed.
pub ring_for : DedupeRing → ℕ → ℕ × DedupeRing
ring_for d peer = elim (find_ring peer d.rings) [
  | some i ↦ (i, d)
  | none ↦
      if ltb (length d.rings) max_peers
      then (length d.rings, record { rings = d.rings ++ new_ring peer ∷ [] })
      else (
        max_peers - 1,
        record {
          rings =
              set d.rings (max_peers - 1)
                (record (get_or d.rings (max_peers - 1) (new_ring peer)) { peer = peer });
        },
      )
]

pub is_duplicate : DedupeRing → ℕ → ℕ → Bool × DedupeRing
is_duplicate d peer seq =
    let (i, d') = ring_for d peer in
    let (duplicate, ring) = check (get_or d'.rings i (new_ring peer)) seq in
    (duplicate, record { rings = set d'.rings i ring })
