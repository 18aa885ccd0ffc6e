-- ===== src/Engine/Runtime/Exchange/RoundTrip.antt =====
-- A clock ping, the pong that answers it, and the sample that the pong gives.
use jam_n.Prelude.{
  ℕ, ◌+◌, ◌%◌, ◌^◌, ◌≤◌, ◌<◌, ◌≡◌, refl, ap, sym, ◌∙◌, List, [], ◌∷◌, Bool, true, false, ◌&&◌, ltb,
  some, ◌==◌, length, take, append-nil, arith, get_or-set_self, Bool-cases, Option-cases, inl, inr,
  take-length,
}
use jam_n.Core.Double.{Double}
use jam_n.Core.Wire.{w64, InRange}
use jam_n.Core.ByteReader.{Reader, reader}
use jam_n.Core.ByteReader.Cursor.{rest}
use jam_n.Core.ByteReader.Cursor
use jam_n.Core.ByteWriter.{Write, writer, emit}
use jam_n.Core.ByteWriter.Encodes.{Encodes, written-emit}
use jam_n.Core.ByteWriter.Encodes as Writing
use jam_n.Net.{realtime}
use jam_n.Proto.Clock.{
  ClockPing, ClockPong, PingFits, PongFits, ping_layout, pong_layout, ping-Codec, pong-Codec,
  encode_clock_ping, encode_clock_pong,
}
use jam_n.Proto.Tlv.{type_clock_ping, type_clock_pong}
use jam_n.Engine.ClockSync.{add_sample}
use jam_n.Engine.Runtime.{
  PeerRuntime, PeerSlot, Action, send, slot_at, free_slot, find_in, find_slot,
}
use jam_n.Engine.Runtime.Sending.{encoded, hand_over, send_framed}
use jam_n.Engine.Runtime.Receiving.{
  pong_for, pong_framed, pong_encoded, ping_decoded, handle_clock_ping, folded_in, pong_decoded,
  handle_clock_pong, visit, slot_found, received, on_receive,
}
use jam_n.Engine.Runtime.Service.{next_ping, ping_framed, ping_encoded, send_ping}
use jam_n.Engine.Runtime.Exchange.{packet_layout, frame_packet_lem, handle_realtime_packet-one}

-- What a runtime needs to send a clock packet: whole buffers, numbers that fit the fields, and room for
-- 38 bytes in a realtime packet.
pub record Ready (s : PeerRuntime) : Type 0 where
  pub packet_sized : length s.packet_buffer ≡ 1500
  pub value_sized : length s.value_buffer ≡ 1500
  pub id_fits : s.local_peer_id < 2 ^ 16
  pub seq_fits : s.next_ping_seq < 2 ^ 16
  pub now_fits : InRange w64 s.service_now_us
  pub payload : 38 ≤ s.max_realtime_payload

encoded_lem :
    (s : PeerRuntime) (encode : Write) (bytes : List ℕ)
    → Encodes encode bytes
    → length s.value_buffer ≡ 1500
    → length bytes ≤ 1500
    → (buffer : List ℕ) × (encoded s encode ≡ (true, bytes, record s { value_buffer = buffer }))
unfolding encoded
encoded_lem s encode bytes enc sized fits =
    let w = writer s.value_buffer 1500 in
    let v : Writing.IsValid w = omega arith in
    (
      (emit bytes w).buf,
      rw (enc.fits w v (omega arith)) (
          ap (λ xs. (true, xs, record s { value_buffer = (emit bytes w).buf }))
            (written-emit bytes w v (omega arith))),
    )

module _ (sends : List Action → Bool) where
  send_framed-log :
      (s : PeerRuntime) (peer size : ℕ)
      → size ≤ s.max_realtime_payload
      → (send_framed sends s peer realtime size).log
        ≡ send peer realtime (take size s.packet_buffer) ∷ s.log
  unfolding send_framed hand_over
  send_framed-log s peer size h =
      let fits : ltb s.max_realtime_payload size ≡ false = ground arith in
      rw fits (elim (Bool-cases (sends (send peer realtime (take size s.packet_buffer) ∷ s.log))) [
        | inl ok ↦ rw ok refl
        | inr lost ↦ rw lost refl
      ])

  ping_sent :
      (s : PeerRuntime) (i : ℕ)
      → Ready s
      → (send_ping sends s i).log
        ≡ send
            (slot_at s i).link
            realtime
            (packet_layout s.local_peer_id type_clock_ping (ping_layout (next_ping s)))
          ∷ s.log
  unfolding send_ping ping_encoded ping_framed
  ping_sent s i ready =
      let s1 : PeerRuntime = record s { next_ping_seq = (s.next_ping_seq + 1) % 2 ^ 16 } in
      let (b1, e1) =
        encoded_lem s1 (encode_clock_ping (next_ping s)) (ping_layout (next_ping s))
          (ping-Codec.encodes (next_ping s)) ready.value_sized (omega arith) in
      let s2 : PeerRuntime = record s1 { value_buffer = b1 } in
      let (b2, e2, e3, _) =
        frame_packet_lem s2 type_clock_ping (ping_layout (next_ping s)) ready.packet_sized
          (omega arith) in
      rw (e1, e2)
        (send_framed-log (record s2 { packet_buffer = b2 }) (slot_at s i).link 22
            (omega (arith, ready.payload))
          ∙ ap (λ bytes. send (slot_at s i).link realtime bytes ∷ s.log) e3)

  pong_sent :
      (s : PeerRuntime) (from : ℕ) (ping : ClockPing)
      → Ready s
      → (ping_decoded sends s from (some ping)).log
        ≡ send from realtime
            (packet_layout s.local_peer_id type_clock_pong (pong_layout (pong_for s ping)))
          ∷ s.log
  unfolding ping_decoded pong_encoded pong_framed
  pong_sent s from ping ready =
      let pong = pong_for s ping in
      let (b1, e1) =
        encoded_lem s (encode_clock_pong pong) (pong_layout pong) (pong-Codec.encodes pong)
          ready.value_sized (omega arith) in
      let s2 : PeerRuntime = record s { value_buffer = b1 } in
      let (b2, e2, e3, _) =
        frame_packet_lem s2 type_clock_pong (pong_layout pong) ready.packet_sized (omega arith) in
      rw (e1, e2)
        (send_framed-log (record s2 { packet_buffer = b2 }) from 38 ready.payload
          ∙ ap (λ bytes. send from realtime bytes ∷ s.log) e3)

find_in-lt :
    (peer : ℕ) (slots : List PeerSlot) (i : ℕ) → find_in peer slots ≡ some i → i < length slots
unfolding find_in
find_in-lt peer [] i e = absurd (cc e)
find_in-lt peer (slot ∷ slots) i e = elim (Bool-cases (slot.in_use && slot.link == peer)) [
  | inl here ↦ ground arith
  | inr later ↦ elim (Option-cases (find_in peer slots)) [
    | inl nowhere ↦ ground arith
    | inr (j, at) ↦ (let below = find_in-lt peer slots j at in ground arith)
  ]
]

module _ (D : Double) (sends : List Action → Bool) where
  -- OnReceive of one TLV, up to the visitor.
  on_receive-one :
      (s : PeerRuntime) (from slot peer_id type : ℕ) (value : List ℕ)
      → find_slot s from ≡ some slot
      → peer_id < 2 ^ 16
      → type < 2 ^ 16
      → length value ≤ 1488
      → let packet = packet_layout peer_id type value in
        (v : Reader) × (on_receive D sends s from realtime (reader packet (length packet))
          ≡ visit D sends from slot type v (received s))
        × (rest v ≡ value)
        × Cursor.IsValid v
  unfolding on_receive slot_found find_slot
  on_receive-one s from slot peer_id type value known hp ht len =
      let packet = packet_layout peer_id type value in
      let (v, e, rv, vv) =
        handle_realtime_packet-one D sends (received s) from slot peer_id type value []
          (reader packet (length packet)) (omega arith) hp ht len
          (ap (λ n. take n packet) {y = length packet} (omega arith)
            ∙ take-length packet
            ∙ sym (append-nil packet)) in
      (v, rw known e, rv, vv)

  ping_answered :
      (s : PeerRuntime) (from slot peer_id : ℕ) (ping : ClockPing)
      → find_slot s from ≡ some slot
      → peer_id < 2 ^ 16
      → PingFits ping
      → Ready s
      → let packet = packet_layout peer_id type_clock_ping (ping_layout ping) in
        (on_receive D sends s from realtime (reader packet (length packet))).log
        ≡ send from realtime
            (packet_layout s.local_peer_id type_clock_pong (pong_layout (pong_for s ping)))
          ∷ s.log
  unfolding visit handle_clock_ping
  ping_answered s from slot peer_id ping known hp fits ready =
      let (v, e, rv, vv) =
        on_receive-one s from slot peer_id type_clock_ping (ping_layout ping) known hp (omega arith)
          (omega arith) in
      ap (λ t. t.log) e
      ∙ ap (λ x. (ping_decoded sends (received s) from x.0).log)
          ((ping-Codec.decodes ping fits).run v [] vv (rv ∙ sym (append-nil (ping_layout ping))))
      ∙ pong_sent sends (received s) from ping (record {
        packet_sized = ready.packet_sized;
        value_sized = ready.value_sized;
        id_fits = ready.id_fits;
        seq_fits = ready.seq_fits;
        now_fits = ready.now_fits;
        payload = ready.payload;
      })

  pong_folded :
      (s : PeerRuntime) (from slot peer_id : ℕ) (pong : ClockPong)
      → find_slot s from ≡ some slot
      → peer_id < 2 ^ 16
      → PongFits pong
      → let packet = packet_layout peer_id type_clock_pong (pong_layout pong) in
        (slot_at
          (on_receive D sends s from realtime (reader packet (length packet)))
          slot).clock_sync
        ≡ (add_sample D
            (slot_at s slot).clock_sync
            (record { t1 = pong.t1; t2 = pong.t2; t3 = pong.t3; t4 = s.service_now_us })
            s.service_now_us).1
  unfolding visit handle_clock_pong pong_decoded folded_in find_slot
  pong_folded s from slot peer_id pong known hp fits =
      let (v, e, rv, vv) =
        on_receive-one s from slot peer_id type_clock_pong (pong_layout pong) known hp (omega arith)
          (omega arith) in
      ap (λ t. (slot_at t slot).clock_sync) e
      ∙ ap (λ x. (slot_at (pong_decoded D (received s) slot x.0) slot).clock_sync)
          ((pong-Codec.decodes pong fits).run v [] vv (rv ∙ sym (append-nil (pong_layout pong))))
      ∙ ap (λ x. x.clock_sync)
          (get_or-set_self s.slots slot _ free_slot (find_in-lt from s.slots slot known))

  -- One runtime pings the link of its slot; the other, which has a slot for the link back, gets the
  -- ping's bytes and answers at once; the first, later, gets the answer's bytes. Then the clock of the
  -- slot has taken in one sample: when the ping was sent, when it was answered, twice, and the time now.
  pub exchange_lem :
      (a b later : PeerRuntime) (i from_a from_b j k : ℕ)
      → Ready a
      → Ready b
      → (slot_at a i).link ≡ from_b
      → find_slot b from_a ≡ some j
      → find_slot later from_b ≡ some k
      → (ping pong : List ℕ) × ((send_ping sends a i).log ≡ send from_b realtime ping ∷ a.log)
        × ((on_receive D sends b from_a realtime (reader ping (length ping))).log
            ≡ send from_a realtime pong ∷ b.log)
        × ((slot_at
              (on_receive D sends later from_b realtime (reader pong (length pong)))
              k).clock_sync
            ≡ (add_sample D
                (slot_at later k).clock_sync
                (record {
                  t1 = a.service_now_us;
                  t2 = b.service_now_us;
                  t3 = b.service_now_us;
                  t4 = later.service_now_us;
                })
                later.service_now_us).1)
  exchange_lem a b later i from_a from_b j k ready_a ready_b linked known known_back =
      let ping = next_ping a in
      let pong = pong_for b ping in
      (
        packet_layout a.local_peer_id type_clock_ping (ping_layout ping),
        packet_layout b.local_peer_id type_clock_pong (pong_layout pong),
        ping_sent sends a i ready_a
            ∙ ap
                (λ l.
                  send l realtime (packet_layout a.local_peer_id type_clock_ping (ping_layout ping))
                  ∷ a.log)
                linked,
        ping_answered b from_a j a.local_peer_id ping known ready_a.id_fits
            (record { seq_fits = ready_a.seq_fits; t1_fits = ready_a.now_fits }) ready_b,
        pong_folded later from_b k b.local_peer_id pong known_back ready_b.id_fits (record {
          seq_fits = ready_a.seq_fits;
          t1_fits = ready_a.now_fits;
          t2_fits = ready_b.now_fits;
          t3_fits = ready_b.now_fits;
        }),
      )
