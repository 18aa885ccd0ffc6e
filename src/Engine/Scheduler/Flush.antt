-- ===== src/Engine/Scheduler/Flush.antt =====
-- What FlushPeer takes away, and what it leaves.
use jam_n.Prelude.{
  ℕ, ◌≡◌, ◌≢◌, refl, ap, false, not, ◌||◌, ◌&&◌, List, [], ◌∷◌, inl, inr, Bool-cases, ◌==◌,
  if◌then◌else◌, arith,
}
use jam_n.Engine.Scheduler.{EventScheduler, HeapEntry, HeldEntry, flush_peer, flush_held, without}

-- Nothing is queued for the peer.
abbrev pub NoneQueued : ℕ → List HeapEntry → Type 0
NoneQueued peer [] = Unit {0}
NoneQueued peer (e ∷ es) = (e.peer ≢ peer) × NoneQueued peer es

-- Nothing is held for the peer.
abbrev pub NoneHeld : ℕ → List HeldEntry → Type 0
NoneHeld peer [] = Unit {0}
NoneHeld peer (h ∷ hs) = (h.in_use && h.peer == peer ≡ false) × NoneHeld peer hs

-- What is queued for one peer, in order.
abbrev pub queued_for : ℕ → List HeapEntry → List HeapEntry
queued_for peer [] = []
queued_for peer (e ∷ es) =
    let rest = queued_for peer es in if e.peer == peer then e ∷ rest else rest

without-NoneQueued : (peer : ℕ) (es : List HeapEntry) → NoneQueued peer (without peer es)
unfolding without
without-NoneQueued peer [] = tt
without-NoneQueued peer (e ∷ es) = elim (Bool-cases (e.peer == peer)) [
  | inl same ↦ rw same (without-NoneQueued peer es)
  | inr other ↦ rw other (ground arith, without-NoneQueued peer es)
]

queued_for-without :
    (peer other : ℕ) (es : List HeapEntry)
    → other ≢ peer
    → queued_for other (without peer es) ≡ queued_for other es
unfolding without
queued_for-without peer other [] h = refl
queued_for-without peer other (e ∷ es) h = elim (Bool-cases (e.peer == peer)) [
  | inl same ↦
      let skips : (e.peer == other) ≡ false = ground arith in
      rw (same, skips) (queued_for-without peer other es h)
  | inr differs ↦
      rw differs (
        ap (λ rest. if e.peer == other then e ∷ rest else rest)
          (queued_for-without peer other es h))
]

flush_held-NoneHeld : (peer : ℕ) (hs : List HeldEntry) → NoneHeld peer (flush_held peer hs).1
unfolding flush_held
flush_held-NoneHeld peer [] = tt
flush_held-NoneHeld peer (h ∷ hs) = elim (Bool-cases (not h.in_use || not (h.peer == peer))) [
  | inl keep ↦ rw keep (ground arith, flush_held-NoneHeld peer hs)
  | inr drop ↦ rw drop (refl, flush_held-NoneHeld peer hs)
]

-- Afterwards nothing is queued or held for the peer, and what is queued for every other one is what was.
pub flush_peer_lem :
    (s : EventScheduler) (peer : ℕ)
    → NoneQueued peer (flush_peer s peer).1.heap
      × NoneHeld peer (flush_peer s peer).1.held
      × ((other : ℕ)
          → other ≢ peer
          → queued_for other (flush_peer s peer).1.heap ≡ queued_for other s.heap)
unfolding flush_peer
flush_peer_lem s peer = (
  without-NoneQueued peer s.heap,
  flush_held-NoneHeld peer s.held,
  λ other h. queued_for-without peer other s.heap h,
)
