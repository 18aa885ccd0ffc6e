-- ===== src/Engine/AudioRuntime/Output.antt =====
-- audio_runtime.cpp: the notes that a block hands out: the silences, then what is due.
use jam_n.Prelude.{
  ℕ, zero, suc, ◌+◌, Bool, true, false, not, List, [], ◌∷◌, Option, none, some, ◌==◌, if◌then◌else◌,
}
use jam_n.Prelude.Int.{ℤ, pos}
use jam_n.Core.SpscRing.{Ring, pop}
use jam_n.Proto.Note.{NoteEvent, all_notes_off}
use jam_n.Engine.Scheduler.{EventScheduler, HeapEntry, no_event, local_peer_id, pop_ready}
use jam_n.Engine.Runtime.{PeerRuntime, no_peer, peer_at}
use jam_n.Engine.AudioRuntime.{max_peers, Note}

-- runtime != nullptr ? runtime->PeerAt(slot) : kNoPeer
unfoldable pub peer_of : Option PeerRuntime → ℕ → ℕ
peer_of none slot = no_peer
peer_of (some session) slot = peer_at session slot

unfoldable pub silence_from : ℕ → ℕ → Option PeerRuntime → List (Option ℕ)
silence_from zero slot session = []
silence_from (suc n) slot session = some (peer_of session slot) ∷ silence_from n (slot + 1) session

-- while (localMonitor_.Pop(stale)): the ring holds no more than its capacity.
unfoldable pub discard : ℕ → Ring NoteEvent → Ring NoteEvent
discard zero ring = ring
discard (suc n) ring =
    let (o, ring') = pop no_event ring in elim o [ none ↦ ring' | some event ↦ discard n ring' ]

abbrev pub off_event : NoteEvent
off_event = record no_event { kind = all_notes_off }

-- The notes of the silences, for the slots from `slot` on, while there is room for `room` more.
unfoldable pub emit_silences : ℕ → ℕ → List (Option ℕ) → List Note
emit_silences room slot [] = []
emit_silences zero slot (o ∷ os) = []
emit_silences (suc room) slot (none ∷ os) = emit_silences (suc room) (slot + 1) os
emit_silences (suc room) slot (some peer ∷ os) =
    record { peer = peer; slot = slot; event = off_event; sample_offset = pos 0 }
    ∷ emit_silences room (slot + 1) os

-- The local monitor's own silence.
unfoldable pub emit_local_silence : ℕ → Bool → List Note
emit_local_silence zero panic = []
emit_local_silence (suc room) false = []
emit_local_silence (suc room) true =
    record { peer = local_peer_id; slot = max_peers; event = off_event; sample_offset = pos 0 } ∷ []

-- The scan for a delivery's slot.
unfoldable pub scan_from : ℕ → ℕ → PeerRuntime → ℕ → ℕ
scan_from zero slot session peer = max_peers
scan_from (suc n) slot session peer =
    if peer_at session slot == peer then slot else scan_from n (slot + 1) session peer

unfoldable pub slot_of : Option PeerRuntime → ℕ → ℕ
slot_of none peer = max_peers
slot_of (some session) peer =
    if not (peer == local_peer_id) then scan_from max_peers 0 session peer else max_peers

abbrev pub delivered : Option PeerRuntime → HeapEntry → Note
delivered session delivery = record {
  peer = delivery.peer;
  slot = slot_of session delivery.peer;
  event = delivery.event;
  sample_offset = pos 0;
}

-- The loop over PopReady, while there is room for `room` more.
unfoldable pub deliver : ℕ → Option PeerRuntime → ℤ → EventScheduler → List Note × EventScheduler
deliver zero session now scheduler = ([], scheduler)
deliver (suc room) session now scheduler =
    let (o, scheduler') = pop_ready scheduler now in
    elim o [
      | none ↦ ([], scheduler')
      | some delivery ↦
          (let (notes, scheduler'') = deliver room session now scheduler' in
            (delivered session delivery ∷ notes, scheduler''))
    ]
