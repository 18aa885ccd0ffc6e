-- ===== src/Engine/Runtime/Steps/Receive.antt =====
-- A packet that arrives for a slot changes that slot and its lane only.
use jam_n.Prelude.{
  ℕ, ◌||◌, ◌≡◌, ◌≢◌, refl, List, [], ◌∷◌, Bool, true, false, not, Option, none, some, ◌==◌,
  Bool-cases, inl, inr, arith,
}
use jam_n.Prelude.Int.{ℤ}
use jam_n.Core.Double.{Double}
use jam_n.Core.ByteReader.{Reader, read_slice}
use jam_n.Net.{Channel, realtime, is_realtime, PeerEvent, connected, link_lost}
use jam_n.Proto.Header.{PacketHeader, decode_packet_header, magic_jm, current_proto_major}
use jam_n.Proto.Note.{NoteEvent, NoteBurst, decode_note_burst}
use jam_n.Proto.Clock.{
  ClockPing, ClockPong, encode_clock_pong, decode_clock_ping, decode_clock_pong,
}
use jam_n.Proto.Tlv.{type_note_burst, type_clock_ping, type_clock_pong, for_each_tlv}
use jam_n.Proto.Tlv.Keeps.{Left, for_each_tlv-Left}
use jam_n.Engine.ClockSync.{ClockSync, add_sample}
use jam_n.Engine.Crossing.{NoteCrossing, publish}
use jam_n.Engine.Dedupe.{DedupeRing, is_duplicate}
use jam_n.Engine.Runtime.{
  PeerRuntime, Action, find_slot, first_free, claim, add_unless, add_peer, release, remove_peer,
  settled, on_peer_event, no_peer,
}
use jam_n.Engine.Runtime.Sending.{frame_packet, encoded}
use jam_n.Engine.Runtime.Receiving.{
  crossed, judged, handle_events, burst_decoded, handle_note_burst, pong_framed, pong_encoded,
  pong_for, ping_decoded, handle_clock_ping, folded_in, pong_decoded, handle_clock_pong, visit,
  well_framed, body_sliced, header_decoded, handle_realtime_packet, slot_found, on_receive,
  received, remote_note,
}
use jam_n.Engine.Runtime.Steps.{
  Change, stay, both, counted, passed_on, told, offered, skipped, timed, claimed, released,
  frame_packet-Change, encoded-Change, send_framed-Change,
}

module _ (T : ℕ → Type 0) where
  crossed-Change :
      (s : PeerRuntime) (dedupe : DedupeRing) (x : Bool × NoteCrossing)
      → Change T s (record s { dedupe = dedupe; crossing = x.1 })
      → Change T s (crossed (record s { dedupe = dedupe }) x)
  unfolding crossed
  crossed-Change s dedupe (true, crossing) c = both c (counted _)
  crossed-Change s dedupe (false, crossing) c = both c (counted _)

  module _ (sends : List Action → Bool) where
    pong_framed-Change :
        (s : PeerRuntime) (from : ℕ) (x : Bool × ℕ × PeerRuntime)
        → Change T s x.2
        → Change T s (pong_framed sends from x)
    unfolding pong_framed
    pong_framed-Change s from (false, size, s') c = c
    pong_framed-Change s from (true, size, s') c =
        both c (both (send_framed-Change T sends s' from realtime size) (counted _))

    pong_encoded-Change :
        (s : PeerRuntime) (from : ℕ) (x : Bool × List ℕ × PeerRuntime)
        → Change T s x.2
        → Change T s (pong_encoded sends from x)
    unfolding pong_encoded
    pong_encoded-Change s from (false, value, s') c = c
    pong_encoded-Change s from (true, value, s') c =
        pong_framed-Change s from (frame_packet s' type_clock_pong value)
          (both c (frame_packet-Change T s' type_clock_pong value))

    ping_decoded-Change :
        (s : PeerRuntime) (from : ℕ) (o : Option ClockPing)
        → Change T s (ping_decoded sends s from o)
    unfolding ping_decoded
    ping_decoded-Change s from none = counted _
    ping_decoded-Change s from (some ping) =
        pong_encoded-Change s from (encoded s (encode_clock_pong (pong_for s ping)))
          (encoded-Change T s (encode_clock_pong (pong_for s ping)))

module _ (T : ℕ → Type 0) (slot : ℕ) (touch : T slot) where
  judged-Change :
      (s : PeerRuntime) (from : ℕ) (base : ℤ) (event : NoteEvent) (x : Bool × DedupeRing)
      → Change T s (judged s from slot base event x)
  unfolding judged
  judged-Change s from base event (true, dedupe) = both (skipped dedupe) (counted _)
  judged-Change s from base event (false, dedupe) =
      crossed-Change T s dedupe (publish s.crossing slot (remote_note from base event))
        (offered slot (remote_note from base event) dedupe touch)

  handle_events-Change :
      (s : PeerRuntime) (from : ℕ) (base : ℤ) (events : List NoteEvent)
      → Change T s (handle_events s from slot base events)
  unfolding handle_events
  handle_events-Change s from base [] = stay
  handle_events-Change s from base (event ∷ events) =
      both (judged-Change s from base event (is_duplicate s.dedupe from event.event_seq)) (
        handle_events-Change
          (judged s from slot base event (is_duplicate s.dedupe from event.event_seq)) from base
          events)

  burst_decoded-Change :
      (s : PeerRuntime) (from : ℕ) (o : Option NoteBurst) → Change T s (burst_decoded s from slot o)
  unfolding burst_decoded
  burst_decoded-Change s from none = counted _
  burst_decoded-Change s from (some burst) =
      handle_events-Change s from burst.base_t_session_us burst.events

  folded_in-Change : (s : PeerRuntime) (x : Bool × ClockSync) → Change T s (folded_in s slot x)
  unfolding folded_in
  folded_in-Change s (relocks, clock) = both (timed slot clock relocks touch) (counted _)

  module _ (D : Double) (sends : List Action → Bool) where
    pong_decoded-Change :
        (s : PeerRuntime) (o : Option ClockPong) → Change T s (pong_decoded D s slot o)
    unfolding pong_decoded
    pong_decoded-Change s none = counted _
    pong_decoded-Change s (some pong) = folded_in-Change s (add_sample D _ _ _)

    visit-Change :
        (s : PeerRuntime) (from type : ℕ) (value : Reader)
        → Change T s (visit D sends from slot type value s)
    unfolding visit handle_note_burst handle_clock_ping handle_clock_pong
    visit-Change s from type value = elim (Bool-cases (type == type_note_burst)) [
      | inl burst ↦ rw burst (burst_decoded-Change s from (decode_note_burst value).0)
      | inr not_burst ↦ rw not_burst (elim (Bool-cases (type == type_clock_ping)) [
        | inl ping ↦ rw ping (ping_decoded-Change T sends s from (decode_clock_ping value).0)
        | inr not_ping ↦ rw not_ping (elim (Bool-cases (type == type_clock_pong)) [
          | inl pong ↦ rw pong (pong_decoded-Change s (decode_clock_pong value).0)
          | inr other ↦ rw other stay
        ])
      ])
    ]

    well_framed-Change :
        (s : PeerRuntime) (o : Option (Bool × PeerRuntime))
        → Left (Change T s) o
        → Change T s (well_framed D sends s o)
    unfolding well_framed
    well_framed-Change s none c = stay
    well_framed-Change s (some (true, s')) c = c
    well_framed-Change s (some (false, s')) c = both c (counted _)

    body_sliced-Change :
        (s : PeerRuntime) (from : ℕ) (o : Option Reader)
        → Change T s (body_sliced D sends s from slot o)
    unfolding body_sliced
    body_sliced-Change s from none = counted _
    body_sliced-Change s from (some body) =
        well_framed-Change s (for_each_tlv (visit D sends from slot) s body) (
          for_each_tlv-Left (visit D sends from slot) (Change T s)
            (λ t v u c. both c (visit-Change u from t v)) s body stay)

    header_decoded-Change :
        (s : PeerRuntime) (from : ℕ) (r : Reader) (o : Option PacketHeader)
        → Change T s (header_decoded D sends s from slot r o)
    unfolding header_decoded
    header_decoded-Change s from r none = counted _
    header_decoded-Change s from r (some header) =
        elim (Bool-cases
          (not (header.magic == magic_jm) || not (header.proto_major == current_proto_major))) [
            | inl foreign ↦ rw foreign (counted _)
            | inr ours ↦ rw ours (body_sliced-Change s from (read_slice header.body_len r).0)
          ]

    handle_realtime_packet-Change :
        (s : PeerRuntime) (from : ℕ) (r : Reader)
        → Change T s (handle_realtime_packet D sends s from slot r)
    unfolding handle_realtime_packet
    handle_realtime_packet-Change s from r =
        header_decoded-Change s from (decode_packet_header r).1 (decode_packet_header r).0

-- The slots that a packet from a link reaches: the one that FindSlot finds for it.
abbrev pub Found : PeerRuntime → ℕ → ℕ → Type 0
Found s from i = find_slot s from ≡ some i

module _ (D : Double) (sends : List Action → Bool) where
  slot_found-Change :
      (T : ℕ → Type 0) (s : PeerRuntime) (from : ℕ) (r : Reader) (o : Option ℕ)
      → ((i : ℕ) → o ≡ some i → T i)
      → Change T s (slot_found D sends s from r o)
  unfolding slot_found
  slot_found-Change T s from r none touch = counted _
  slot_found-Change T s from r (some i) touch =
      handle_realtime_packet-Change T i (touch i refl) D sends s from r

  pub on_receive-Change :
      (s : PeerRuntime) (from : ℕ) (channel : Channel) (r : Reader)
      → Change (Found s from) s (on_receive D sends s from channel r)
  unfolding on_receive find_slot
  on_receive-Change s from channel r = elim (Bool-cases (not (is_realtime channel))) [
    | inl control ↦ rw control (both (counted _) (passed_on from r))
    | inr play ↦ rw play (
        both (counted _)
          (slot_found-Change (Found s from) _ from r (find_slot (received s) from) (λ i e. e)))
  ]

-- A link that comes up or goes down changes one slot.
abbrev pub Any : ℕ → Type 0
Any i = Unit {0}

claim-Change :
    (s : PeerRuntime) (peer : ℕ) (o : Option ℕ)
    → peer ≢ no_peer
    → find_slot s peer ≡ none
    → first_free s.slots ≡ o
    → Change Any s (claim s peer o).1
unfolding claim
claim-Change s peer none named new e = stay
claim-Change s peer (some i) named new e = claimed i peer tt named new e

add_unless-Change :
    (s : PeerRuntime) (peer : ℕ) (o : Option ℕ)
    → peer ≢ no_peer
    → find_slot s peer ≡ o
    → Change Any s (add_unless s peer o).1
unfolding add_unless
add_unless-Change s peer (some i) named e = stay
add_unless-Change s peer none named e = claim-Change s peer (first_free s.slots) named e refl

pub add_peer-Change : (s : PeerRuntime) (peer : ℕ) → Change Any s (add_peer s peer).1
unfolding add_peer
add_peer-Change s peer = elim (Bool-cases (peer == no_peer)) [
  | inl reserved ↦ rw reserved stay
  | inr named ↦ rw named (add_unless-Change s peer (find_slot s peer) (λ e. ground arith) refl)
]

release-Change : (s : PeerRuntime) (o : Option ℕ) → Change Any s (release s o)
unfolding release
release-Change s none = stay
release-Change s (some i) = released i tt

pub remove_peer-Change : (s : PeerRuntime) (peer : ℕ) → Change Any s (remove_peer s peer)
unfolding remove_peer
remove_peer-Change s peer = release-Change s (find_slot s peer)

settled-Change :
    (s : PeerRuntime) (peer : ℕ) (event : PeerEvent) → Change Any s (settled s peer event)
unfolding settled
settled-Change s peer connected = add_peer-Change s peer
settled-Change s peer link_lost = remove_peer-Change s peer

pub on_peer_event-Change :
    (s : PeerRuntime) (peer : ℕ) (event : PeerEvent) → Change Any s (on_peer_event s peer event)
unfolding on_peer_event
on_peer_event-Change s peer event = both (settled-Change s peer event) (told peer event)
