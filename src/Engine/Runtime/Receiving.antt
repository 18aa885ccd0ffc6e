-- ===== src/Engine/Runtime/Receiving.antt =====
-- peer_runtime.cpp: OnReceive and the handlers of realtime packets.
use jam_n.Prelude.{
  ℕ, ◌+◌, ◌%◌, ◌^◌, Bool, true, false, not, ◌||◌, List, [], ◌∷◌, Option, none, some, ◌==◌,
  if◌then◌else◌, get_or, set,
}
use jam_n.Prelude.Int.{ℤ, ◌+ℤ◌}
use jam_n.Core.Double.{Double}
use jam_n.Core.ByteReader.{Reader, read_slice}
use jam_n.Net.{Channel, realtime, is_realtime}
use jam_n.Proto.Header.{PacketHeader, decode_packet_header, magic_jm, current_proto_major}
use jam_n.Proto.Note.{NoteEvent, NoteBurst, decode_note_burst}
use jam_n.Proto.Clock.{
  ClockPing, ClockPong, decode_clock_ping, decode_clock_pong, encode_clock_pong,
}
use jam_n.Proto.Tlv.{type_note_burst, type_clock_ping, type_clock_pong, for_each_tlv}
use jam_n.Engine.Dedupe.{DedupeRing, is_duplicate}
use jam_n.Engine.Crossing.{RemoteNote, NoteCrossing, publish}
use jam_n.Engine.ClockSync.{ClockSync, add_sample, estimated_offset_us, is_locked}
use jam_n.Engine.Runtime.{PeerRuntime, Action, control_packet, slot_at, find_slot, count_up}
use jam_n.Engine.Runtime.Sending.{frame_packet, encoded, send_framed}

abbrev pub rejected : PeerRuntime → PeerRuntime
rejected s = record s {
  stats = record s.stats { packets_rejected = count_up s.stats.packets_rejected };
}

-- Publish's answer, counted.
unfoldable pub crossed : PeerRuntime → Bool × NoteCrossing → PeerRuntime
crossed s (true, crossing) = record s {
  crossing = crossing;
  stats = record s.stats { notes_delivered = count_up s.stats.notes_delivered };
}
crossed s (false, crossing) = record s {
  crossing = crossing;
  stats = record s.stats { notes_dropped_at_crossing = count_up s.stats.notes_dropped_at_crossing };
}

abbrev pub unknown : PeerRuntime → PeerRuntime
unknown s = record s {
  stats = record s.stats { packets_from_unknown_peer = count_up s.stats.packets_from_unknown_peer };
}

abbrev pub received : PeerRuntime → PeerRuntime
received s = record s {
  stats = record s.stats { packets_received = count_up s.stats.packets_received };
}

abbrev pub remote_note : ℕ → ℤ → NoteEvent → RemoteNote
remote_note from base event = record {
  peer = from;
  remote_session_time_us = base +ℤ event.dt_us;
  event = event;
}

-- The loop's body behind IsDuplicate.
unfoldable pub judged : PeerRuntime → ℕ → ℕ → ℤ → NoteEvent → Bool × DedupeRing → PeerRuntime
judged s from slot base event (true, dedupe) = record s {
  dedupe = dedupe;
  stats = record s.stats { notes_deduped = count_up s.stats.notes_deduped };
}
judged s from slot base event (false, dedupe) =
    crossed (record s { dedupe = dedupe }) (publish s.crossing slot (remote_note from base event))

unfoldable pub handle_events : PeerRuntime → ℕ → ℕ → ℤ → List NoteEvent → PeerRuntime
handle_events s from slot base [] = s
handle_events s from slot base (event ∷ events) =
    handle_events (judged s from slot base event (is_duplicate s.dedupe from event.event_seq)) from
      slot base events

unfoldable pub burst_decoded : PeerRuntime → ℕ → ℕ → Option NoteBurst → PeerRuntime
burst_decoded s from slot none = rejected s
burst_decoded s from slot (some burst) =
    handle_events s from slot burst.base_t_session_us burst.events

unfoldable pub handle_note_burst : PeerRuntime → ℕ → ℕ → Reader → PeerRuntime
handle_note_burst s from slot value = burst_decoded s from slot (decode_note_burst value).0

abbrev pub pong_for : PeerRuntime → ClockPing → ClockPong
pong_for s ping = record {
  ping_seq = ping.ping_seq;
  t1 = ping.t1;
  t2 = s.service_now_us;
  t3 = s.service_now_us;
}

module _ (sends : List Action → Bool) where
  unfoldable pub pong_framed : ℕ → Bool × ℕ × PeerRuntime → PeerRuntime
  pong_framed from (false, size, s) = s
  pong_framed from (true, size, s) =
      let s' = send_framed sends s from realtime size in
      record s' { stats = record s'.stats { pongs_sent = count_up s'.stats.pongs_sent } }

  unfoldable pub pong_encoded : ℕ → Bool × List ℕ × PeerRuntime → PeerRuntime
  pong_encoded from (false, value, s) = s
  pong_encoded from (true, value, s) = pong_framed from (frame_packet s type_clock_pong value)

  unfoldable pub ping_decoded : PeerRuntime → ℕ → Option ClockPing → PeerRuntime
  ping_decoded s from none = rejected s
  ping_decoded s from (some ping) =
      pong_encoded from (encoded s (encode_clock_pong (pong_for s ping)))

  unfoldable pub handle_clock_ping : PeerRuntime → ℕ → Reader → PeerRuntime
  handle_clock_ping s from value = ping_decoded s from (decode_clock_ping value).0

-- What AddSample leaves is stored, and published; the re-lock callback bumps the slot's counter.
unfoldable pub folded_in : PeerRuntime → ℕ → Bool × ClockSync → PeerRuntime
folded_in s slot (relocks, clock) = record s {
  slots = set s.slots slot (record (slot_at s slot) { clock_sync = clock });
  slot_relock_gen =
      if relocks
      then set s.slot_relock_gen slot ((get_or s.slot_relock_gen slot 0 + 1) % 2 ^ 32)
      else s.slot_relock_gen;
  stats = record s.stats { clock_samples_folded = count_up s.stats.clock_samples_folded };
  slot_offset_us = set s.slot_offset_us slot (estimated_offset_us clock);
  slot_offset_locked = set s.slot_offset_locked slot (is_locked clock);
}

module _ (D : Double) where
  unfoldable pub pong_decoded : PeerRuntime → ℕ → Option ClockPong → PeerRuntime
  pong_decoded s slot none = rejected s
  pong_decoded s slot (some pong) = folded_in s slot (
      add_sample D (slot_at s slot).clock_sync
        (record { t1 = pong.t1; t2 = pong.t2; t3 = pong.t3; t4 = s.service_now_us })
        s.service_now_us)

  unfoldable pub handle_clock_pong : PeerRuntime → ℕ → Reader → PeerRuntime
  handle_clock_pong s slot value = pong_decoded s slot (decode_clock_pong value).0

  module _ (sends : List Action → Bool) where
    -- The visitor of ForEachTlv.
    unfoldable pub visit : ℕ → ℕ → ℕ → Reader → PeerRuntime → PeerRuntime
    visit from slot type value s =
        if type == type_note_burst
        then handle_note_burst s from slot value
        else if type == type_clock_ping
        then handle_clock_ping sends s from value
        else if type == type_clock_pong
        then handle_clock_pong s slot value
        else s

    -- The fuel of ForEachTlv suffices, so `none` does not occur.
    unfoldable pub well_framed : PeerRuntime → Option (Bool × PeerRuntime) → PeerRuntime
    well_framed s none = s
    well_framed s (some (true, s')) = s'
    well_framed s (some (false, s')) = rejected s'

    unfoldable pub body_sliced : PeerRuntime → ℕ → ℕ → Option Reader → PeerRuntime
    body_sliced s from slot none = rejected s
    body_sliced s from slot (some body) = well_framed s (for_each_tlv (visit from slot) s body)

    unfoldable pub header_decoded : PeerRuntime → ℕ → ℕ → Reader → Option PacketHeader → PeerRuntime
    header_decoded s from slot packet none = rejected s
    header_decoded s from slot packet (some header) =
        if not (header.magic == magic_jm) || not (header.proto_major == current_proto_major)
        then rejected s
        else body_sliced s from slot (read_slice header.body_len packet).0

    unfoldable pub handle_realtime_packet : PeerRuntime → ℕ → ℕ → Reader → PeerRuntime
    handle_realtime_packet s from slot packet =
        let (header, packet') = decode_packet_header packet in
        header_decoded s from slot packet' header

    -- OnReceive behind FindSlot.
    unfoldable pub slot_found : PeerRuntime → ℕ → Reader → Option ℕ → PeerRuntime
    slot_found s from packet none = unknown s
    slot_found s from packet (some slot) = handle_realtime_packet s from slot packet

    unfoldable pub on_receive : PeerRuntime → ℕ → Channel → Reader → PeerRuntime
    on_receive s from channel packet =
        let s' = received s in
        if not (is_realtime channel)
        then record s' { log = control_packet from packet ∷ s'.log }
        else slot_found s' from packet (find_slot s' from)
