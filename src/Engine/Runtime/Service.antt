-- ===== src/Engine/Runtime/Service.antt =====
-- peer_runtime.cpp: Service, and the packets that it sends of its own accord.
use jam_n.Prelude.{
  ℕ, zero, suc, ◌+◌, ◌%◌, ◌^◌, Bool, true, false, not, ◌&&◌, ◌||◌, List, [], ◌∷◌, none, some, ◌==◌,
  if◌then◌else◌, set, length,
}
use jam_n.Prelude.Int.{ℤ, ◌-ℤ◌, ltb_ℤ}
use jam_n.Core.Double.{Double}
use jam_n.Core.ByteReader.{Reader}
use jam_n.Core.SpscRing.{pop}
use jam_n.Net.{Channel, realtime, PeerEvent}
use jam_n.Proto.Note.{NoteBurst, encode_note_burst}
use jam_n.Proto.Clock.{ClockPing, encode_clock_ping}
use jam_n.Proto.Tlv.{type_note_burst, type_clock_ping}
use jam_n.Engine.Burst.{Entry, BurstAssembler, queue_event, build_next_burst}
use jam_n.Engine.ClockSync.{should_ping}
use jam_n.Engine.Runtime.{
  PeerRuntime, PeerSlot, LocalEvent, Action, slot_at, on_peer_event, count_up, max_peers,
  no_local_event, local_event_capacity,
}
use jam_n.Engine.Runtime.Sending.{frame_packet, encoded, send_framed, broadcast_framed, too_large}
use jam_n.Engine.Runtime.Receiving.{on_receive}

-- The loop's body: the event takes the next number, and the assembler's answer is counted.
unfoldable pub queued : PeerRuntime → Bool × BurstAssembler → PeerRuntime
queued s (true, assembler) = record s {
  next_event_seq = (s.next_event_seq + 1) % 2 ^ 16;
  assembler = assembler;
}
queued s (false, assembler) = record s {
  next_event_seq = (s.next_event_seq + 1) % 2 ^ 16;
  assembler = assembler;
  stats = record s.stats { local_events_dropped = count_up s.stats.local_events_dropped };
}

unfoldable pub numbered : ℕ → LocalEvent → Entry
numbered seq local = record { event = record local.event { event_seq = seq }; time = local.time_us }

unfoldable pub drain_popped : PeerRuntime → LocalEvent → PeerRuntime
drain_popped s local = queued s (queue_event s.assembler (numbered s.next_event_seq local))

-- One Pop a round. The ring never holds more than its capacity, which the fuel is one above.
unfoldable pub drain : ℕ → PeerRuntime → PeerRuntime
drain zero s = s
drain (suc fuel) s =
    let (o, ring) = pop no_local_event s.local_events in
    elim o [
      | none ↦ record s { local_events = ring }
      | some local ↦ drain fuel (drain_popped (record s { local_events = ring }) local)
    ]

unfoldable pub drain_local_events : PeerRuntime → PeerRuntime
drain_local_events s = drain (local_event_capacity + 1) s

-- slot.havePinged && !ShouldPing(...): the slot is passed over.
unfoldable pub not_due : PeerRuntime → PeerSlot → Bool
not_due s slot =
    not slot.in_use
    || slot.have_pinged && not (should_ping s.service_now_us s.session_start_us slot.last_ping_us)

abbrev pub next_ping : PeerRuntime → ClockPing
next_ping s = record { ping_seq = s.next_ping_seq; t1 = s.service_now_us }

unfoldable pub burst_not_due : PeerRuntime → Bool
burst_not_due s = s.have_sent_burst && ltb_ℤ (s.service_now_us -ℤ s.last_burst_us) s.burst_period_us

module _ (sends : List Action → Bool) where
  unfoldable pub ping_framed : ℕ → Bool × ℕ × PeerRuntime → PeerRuntime
  ping_framed i (false, size, s) = s
  ping_framed i (true, size, s) =
      let s' = send_framed sends s (slot_at s i).link realtime size in
      record s' {
        slots =
            set s'.slots i
              (record (slot_at s' i) { last_ping_us = s'.service_now_us; have_pinged = true });
        stats = record s'.stats { pings_sent = count_up s'.stats.pings_sent };
      }

  unfoldable pub ping_encoded : ℕ → Bool × List ℕ × PeerRuntime → PeerRuntime
  ping_encoded i (false, value, s) = s
  ping_encoded i (true, value, s) = ping_framed i (frame_packet s type_clock_ping value)

  unfoldable pub send_ping : PeerRuntime → ℕ → PeerRuntime
  send_ping s i =
      let s' = record s { next_ping_seq = (s.next_ping_seq + 1) % 2 ^ 16 } in
      ping_encoded i (encoded s' (encode_clock_ping (next_ping s)))

  -- The `n` slots from `i` on.
  unfoldable pub ping_from : ℕ → ℕ → PeerRuntime → PeerRuntime
  ping_from zero i s = s
  ping_from (suc n) i s = ping_from n (i + 1) (if not_due s (slot_at s i) then s else send_ping s i)

  unfoldable pub send_due_clock_pings : PeerRuntime → PeerRuntime
  send_due_clock_pings s = ping_from max_peers 0 s

  unfoldable pub burst_framed : Bool × ℕ × PeerRuntime → PeerRuntime
  burst_framed (false, size, s) = too_large s
  burst_framed (true, size, s) =
      let s' = broadcast_framed sends s realtime size in
      record s' { stats = record s'.stats { bursts_sent = count_up s'.stats.bursts_sent } }

  unfoldable pub burst_encoded : Bool × List ℕ × PeerRuntime → PeerRuntime
  burst_encoded (false, value, s) = too_large s
  burst_encoded (true, value, s) = burst_framed (frame_packet s type_note_burst value)

  -- SendDueBurst from BuildNextBurst's return on.
  unfoldable pub send_burst : PeerRuntime → NoteBurst × BurstAssembler → PeerRuntime
  send_burst s (burst, assembler) =
      let s' = record s {
        assembler = assembler;
        next_burst_seq = (s.next_burst_seq + 1) % 2 ^ 16;
        last_burst_us = s.service_now_us;
        have_sent_burst = true;
      } in
      if length burst.events == 0 then s' else burst_encoded (encoded s' (encode_note_burst burst))

  unfoldable pub send_due_burst : PeerRuntime → PeerRuntime
  send_due_burst s =
      if burst_not_due s
      then s
      else send_burst s (build_next_burst s.assembler s.service_now_us s.next_burst_seq)

-- What a Poll reports, each by a call of one of the runtime's two callbacks.
pub data Report : Type 0 where
  packet : ℕ → Channel → Reader → Report
  peer_changed : ℕ → PeerEvent → Report

module _ (D : Double) (sends : List Action → Bool) where
  unfoldable pub poll : PeerRuntime → List Report → PeerRuntime
  poll s [] = s
  poll s (packet from channel reader ∷ reports) =
      poll (on_receive D sends s from channel reader) reports
  poll s (peer_changed peer event ∷ reports) = poll (on_peer_event s peer event) reports

  -- Service, where the transport's Poll makes these reports.
  unfoldable pub service : PeerRuntime → List Report → ℤ → PeerRuntime
  service s reports now =
      let polled = poll (record s { service_now_us = now }) reports in
      send_due_burst sends (send_due_clock_pings sends (drain_local_events polled))
