-- ===== src/Engine/Runtime/Sending.antt =====
-- peer_runtime.cpp: how a packet is framed and handed to the transport.
-- Whether a Send succeeds is the transport's: a function of all that was sent up to it.
use jam_n.Prelude.{
  ℕ, zero, suc, ◌+◌, Bool, false, not, ◌&&◌, ◌||◌, List, ◌∷◌, ltb, if◌then◌else◌, length, take,
}
use jam_n.Core.ByteWriter.{Write, Writer, writer, write_bytes, ◌>>◌}
use jam_n.Net.{Channel, is_realtime}
use jam_n.Proto.Header.{header_for, encode_packet_header}
use jam_n.Proto.Tlv.{write_tlv_header}
use jam_n.Engine.Runtime.{
  PeerRuntime, Action, send, slot_at, packet_buffer_bytes, max_peers, count_up,
}

-- One PacketHeader and one TLV.
unfoldable pub one_tlv : ℕ → ℕ → List ℕ → Write
one_tlv peer_id type value = do
  encode_packet_header (header_for peer_id (4 + length value))
  write_tlv_header type (length value)
  write_bytes value

-- What FramePacket returns, the size it stores, and the runtime with the bytes in its buffer.
unfoldable pub framed_by : PeerRuntime → Bool × Writer → Bool × ℕ × PeerRuntime
framed_by s (written, out) = (written, out.pos, record s { packet_buffer = out.buf })

-- The casts to 16 bits come behind the test that makes them exact.
unfoldable pub frame_packet : PeerRuntime → ℕ → List ℕ → Bool × ℕ × PeerRuntime
frame_packet s type value =
    if ltb 0xFFFF (length value) || ltb 0xFFFF (4 + length value)
    then (false, 0, s)
    else framed_by s
        (one_tlv s.local_peer_id type value (writer s.packet_buffer packet_buffer_bytes))

-- The value that an encoder has left in the value buffer, behind its position.
unfoldable pub encoded : PeerRuntime → Write → Bool × List ℕ × PeerRuntime
encoded s encode =
    let (written, out) = encode (writer s.value_buffer packet_buffer_bytes) in
    (written, take out.pos out.buf, record s { value_buffer = out.buf })

abbrev pub too_large : PeerRuntime → PeerRuntime
too_large s = record s {
  stats = record s.stats { packets_too_large = count_up s.stats.packets_too_large };
}

abbrev pub send_failed : PeerRuntime → PeerRuntime
send_failed s = record s { stats = record s.stats { sends_failed = count_up s.stats.sends_failed } }

module _ (sends : List Action → Bool) where
  -- transport_.Send, and the count of its failures.
  unfoldable pub hand_over : PeerRuntime → ℕ → Channel → List ℕ → PeerRuntime
  hand_over s peer channel bytes =
      let s' = record s { log = send peer channel bytes ∷ s.log } in
      if sends s'.log then s' else send_failed s'

  unfoldable pub send_framed : PeerRuntime → ℕ → Channel → ℕ → PeerRuntime
  send_framed s peer channel size =
      if is_realtime channel && ltb s.max_realtime_payload size
      then too_large s
      else hand_over s peer channel (take size s.packet_buffer)

  -- The loop of BroadcastFramed, over the `n` slots from `i` on.
  unfoldable pub broadcast_from : ℕ → ℕ → PeerRuntime → Channel → ℕ → PeerRuntime
  broadcast_from zero i s channel size = s
  broadcast_from (suc n) i s channel size =
      let s' =
        if not (slot_at s i).in_use then s else send_framed s (slot_at s i).link channel size in
      broadcast_from n (i + 1) s' channel size

  unfoldable pub broadcast_framed : PeerRuntime → Channel → ℕ → PeerRuntime
  broadcast_framed s channel size = broadcast_from max_peers 0 s channel size
