-- ===== src/Engine/Runtime/Steps.antt =====
-- What one call can change, as elementary changes: invariants of the runtime follow by induction on
-- them. `Touched` are the slots that the call may change for a peer, with their lanes.
pub mod Receive
pub mod Serve
use jam_n.Prelude.{
  ℕ, zero, suc, ◌||◌, ◌+◌, ◌%◌, ◌^◌, ◌≤◌, ◌≡◌, ◌≢◌, refl, ap, List, [], ◌∷◌, Bool, true, false, not,
  ◌&&◌, Option, none, some, ◌==◌, ltb, if◌then◌else◌, get_or, set, take, Bool-cases, inl, inr,
  Option-cases, arith, length,
}
use jam_n.Prelude.Int.{ℤ}
use jam_n.Core.Double.{Double}
use jam_n.Core.ByteReader.{Reader, read_slice}
use jam_n.Core.ByteWriter.{Write, Writer}
use jam_n.Core.SpscRing.{Ring}
use jam_n.Net.{Channel, realtime, is_realtime, PeerEvent}
use jam_n.Proto.Header.{PacketHeader, decode_packet_header, magic_jm, current_proto_major}
use jam_n.Proto.Note.{NoteEvent, NoteBurst, decode_note_burst}
use jam_n.Proto.Clock.{
  ClockPing, ClockPong, encode_clock_pong, decode_clock_ping, decode_clock_pong,
}
use jam_n.Proto.Tlv.{type_note_burst, type_clock_ping, type_clock_pong, for_each_tlv}
use jam_n.Proto.Tlv.Keeps.{Left, for_each_tlv-Left}
use jam_n.Engine.Burst.{BurstAssembler}
use jam_n.Engine.ClockSync.{ClockSync, estimated_offset_us, is_locked, add_sample}
use jam_n.Engine.Crossing.{RemoteNote, NoteCrossing, publish}
use jam_n.Engine.Dedupe.{DedupeRing, is_duplicate}
use jam_n.Engine.Runtime.{
  PeerRuntime, PeerSlot, LocalEvent, Action, Stats, send, control_packet, peer_event, slot_at,
  find_slot, first_free, settle, free_slot, no_peer, max_peers,
}
use jam_n.Engine.Runtime.Sending.{
  frame_packet, framed_by, one_tlv, encoded, hand_over, send_framed, broadcast_from,
  broadcast_framed,
}
use jam_n.Engine.Runtime.Receiving.{
  crossed, judged, handle_events, burst_decoded, handle_note_burst, pong_framed, pong_encoded,
  pong_for, ping_decoded, handle_clock_ping, folded_in, pong_decoded, handle_clock_pong, visit,
  well_framed, body_sliced, header_decoded, handle_realtime_packet, slot_found, received,
  remote_note,
}

-- The fields that no peer's packets reach: those of the sender of this node.
pub record Own : Type 0 where
  pub service_now_us : ℤ
  pub local_peer_id : ℕ
  pub burst_period_us : ℤ
  pub last_burst_us : ℤ
  pub have_sent_burst : Bool
  pub next_burst_seq : ℕ
  pub next_event_seq : ℕ
  pub next_ping_seq : ℕ
  pub assembler : BurstAssembler
  pub local_events : Ring LocalEvent

abbrev pub with_own : PeerRuntime → Own → PeerRuntime
with_own s own = record s {
  service_now_us = own.service_now_us;
  local_peer_id = own.local_peer_id;
  burst_period_us = own.burst_period_us;
  last_burst_us = own.last_burst_us;
  have_sent_burst = own.have_sent_burst;
  next_burst_seq = own.next_burst_seq;
  next_event_seq = own.next_event_seq;
  next_ping_seq = own.next_ping_seq;
  assembler = own.assembler;
  local_events = own.local_events;
}

module _ (Touched : ℕ → Type 0) where
  pub data Change : PeerRuntime → PeerRuntime → Type 0 where
    stay : {s : PeerRuntime} → Change s s
    both : {s t u : PeerRuntime} → Change s t → Change t u → Change s u
    counted : {s : PeerRuntime} (stats : Stats) → Change s (record s { stats = stats })
    owned : {s : PeerRuntime} (own : Own) → Change s (with_own s own)
    buffered :
        {s : PeerRuntime} (packet value : List ℕ)
        → Change s (record s { packet_buffer = packet; value_buffer = value })
    sent :
        {s : PeerRuntime} (peer : ℕ) (channel : Channel) (size : ℕ)
        → (is_realtime channel && ltb s.max_realtime_payload size) ≡ false
        → Change s (record s { log = send peer channel (take size s.packet_buffer) ∷ s.log })
    passed_on :
        {s : PeerRuntime} (from : ℕ) (r : Reader)
        → Change s (record s { log = control_packet from r ∷ s.log })
    told :
        {s : PeerRuntime} (peer : ℕ) (event : PeerEvent)
        → Change s (record s { log = peer_event peer event ∷ s.log })
    offered :
        {s : PeerRuntime} (slot : ℕ) (note : RemoteNote) (dedupe : DedupeRing)
        → Touched slot
        → Change s (record s { dedupe = dedupe; crossing = (publish s.crossing slot note).1 })
    skipped : {s : PeerRuntime} (dedupe : DedupeRing) → Change s (record s { dedupe = dedupe })
    pinged :
        {s : PeerRuntime} (slot : ℕ) (at : ℤ)
        → Touched slot
        → Change s (record s {
          slots =
              set s.slots slot (record (slot_at s slot) { last_ping_us = at; have_pinged = true });
        })
    timed :
        {s : PeerRuntime} (slot : ℕ) (clock : ClockSync) (relocks : Bool)
        → Touched slot
        → Change s (record s {
          slots = set s.slots slot (record (slot_at s slot) { clock_sync = clock });
          slot_relock_gen =
              if relocks
              then set s.slot_relock_gen slot ((get_or s.slot_relock_gen slot 0 + 1) % 2 ^ 32)
              else s.slot_relock_gen;
          slot_offset_us = set s.slot_offset_us slot (estimated_offset_us clock);
          slot_offset_locked = set s.slot_offset_locked slot (is_locked clock);
        })
    claimed :
        {s : PeerRuntime} (slot peer : ℕ)
        → Touched slot
        → peer ≢ no_peer
        → find_slot s peer ≡ none
        → first_free s.slots ≡ some slot
        → Change s (settle s slot (record free_slot { link = peer; in_use = true }))
    released : {s : PeerRuntime} (slot : ℕ) → Touched slot → Change s (settle s slot free_slot)

  framed_by-Change : (s : PeerRuntime) (x : Bool × Writer) → Change s (framed_by s x).2
  unfolding framed_by
  framed_by-Change s (written, out) = buffered out.buf s.value_buffer

  pub frame_packet-Change :
      (s : PeerRuntime) (type : ℕ) (value : List ℕ) → Change s (frame_packet s type value).2
  unfolding frame_packet
  frame_packet-Change s type value =
      elim (Bool-cases (ltb 0xFFFF (length value) || ltb 0xFFFF (4 + length value))) [
        | inl too_long ↦ rw too_long stay
        | inr fits ↦ rw fits (framed_by-Change s _)
      ]

  pub encoded-Change : (s : PeerRuntime) (encode : Write) → Change s (encoded s encode).2
  unfolding encoded
  encoded-Change s encode = buffered s.packet_buffer _

  module _ (sends : List Action → Bool) where
    hand_over-Change :
        (s : PeerRuntime) (peer : ℕ) (channel : Channel) (size : ℕ)
        → (is_realtime channel && ltb s.max_realtime_payload size) ≡ false
        → Change s (hand_over sends s peer channel (take size s.packet_buffer))
    unfolding hand_over
    hand_over-Change s peer channel size fits =
        elim (Bool-cases (sends (send peer channel (take size s.packet_buffer) ∷ s.log))) [
          | inl ok ↦ rw ok (sent peer channel size fits)
          | inr lost ↦ rw lost (both (sent peer channel size fits) (counted _))
        ]

    pub send_framed-Change :
        (s : PeerRuntime) (peer : ℕ) (channel : Channel) (size : ℕ)
        → Change s (send_framed sends s peer channel size)
    unfolding send_framed
    send_framed-Change s peer channel size =
        elim (Bool-cases (is_realtime channel && ltb s.max_realtime_payload size)) [
          | inl over ↦ rw over (counted _)
          | inr fits ↦ rw fits (hand_over-Change s peer channel size fits)
        ]

    broadcast_from-Change :
        (n i : ℕ) (s : PeerRuntime) (channel : Channel) (size : ℕ)
        → Change s (broadcast_from sends n i s channel size)
    unfolding broadcast_from
    broadcast_from-Change zero i s channel size = stay
    broadcast_from-Change (suc n) i s channel size = elim (Bool-cases (not (slot_at s i).in_use)) [
      | inl free ↦ rw free (broadcast_from-Change n (i + 1) s channel size)
      | inr used ↦ rw used (
          both (send_framed-Change s (slot_at s i).link channel size)
            (broadcast_from-Change n (i + 1) _ channel size))
    ]

    pub broadcast_framed-Change :
        (s : PeerRuntime) (channel : Channel) (size : ℕ)
        → Change s (broadcast_framed sends s channel size)
    unfolding broadcast_framed
    broadcast_framed-Change s channel size = broadcast_from-Change max_peers 0 s channel size
