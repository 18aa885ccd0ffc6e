-- ===== src/Engine/Runtime/Exchange.antt =====
-- A clock ping, its answer, and the sample that the answer gives: from one runtime to the other and back.
pub mod RoundTrip
use jam_n.Prelude.{
  ℕ, ◌+◌, ◌-◌, ◌%◌, ◌^◌, ◌≤◌, ◌<◌, ◌≡◌, refl, ap, sym, ◌∙◌, List, [], ◌∷◌, ◌++◌, Bool, true, false,
  ltb, ◌||◌, Option, none, some, ◌==◌, length, take, drop, append-nil, append_assoc, take-append,
  length-append, arith, set, get_or,
}
use mathlib.Core.Path.{subst}
use jam_n.Prelude.Int.{ℤ}
use jam_n.Core.Double.{Double}
use jam_n.Core.Wire.{w16, w64, le_bytes, InRange}
use jam_n.Core.ByteReader.{Reader, reader, remaining, advance, read_slice}
use jam_n.Core.ByteReader.Cursor.{rest, rest-advance, advance-IsValid, read_slice_lem}
use jam_n.Core.ByteReader.Cursor
use jam_n.Core.ByteReader.Decodes.{ahead}
use jam_n.Core.ByteWriter.{writer, emit}
use jam_n.Core.ByteWriter.Encodes.{
  Encodes, written, written-emit, length-splice, chain-Encodes, write_bytes-Encodes,
}
use jam_n.Core.ByteWriter.Encodes as Writing
use jam_n.Net.{realtime}
use jam_n.Proto.Header.{PacketHeader, header_for, header_layout, HeaderFits, header-Codec}
use jam_n.Proto.Tlv.{type_clock_ping, type_clock_pong, for_each_tlv, write_tlv_header}
use jam_n.Proto.Tlv.Stream.{tlv_layout, for_each_tlv-one}
use jam_n.Engine.Runtime.{PeerRuntime, Action, send}
use jam_n.Engine.Runtime.Sending.{one_tlv, frame_packet, framed_by}
use jam_n.Engine.Runtime.Receiving.{
  visit, well_framed, body_sliced, header_decoded, handle_realtime_packet,
}

-- One header and one TLV, as the source's FramePacket lays them out.
abbrev pub packet_layout : ℕ → ℕ → List ℕ → List ℕ
packet_layout peer_id type value =
    header_layout (header_for peer_id (4 + length value)) ++ tlv_layout type value

one_tlv-Encodes :
    (peer_id type : ℕ) (value : List ℕ)
    → Encodes (one_tlv peer_id type value) (packet_layout peer_id type value)
unfolding one_tlv write_tlv_header
one_tlv-Encodes peer_id type value =
    chain-Encodes _ (header_layout (header_for peer_id (4 + length value))) (tlv_layout type value)
      (header-Codec.encodes (header_for peer_id (4 + length value)))
      (chain-Encodes _ (le_bytes w16 type ++ le_bytes w16 (length value)) value
        (Writing.le_field _ w16 type _ (Writing.write_le-Encodes w16 (length value)))
        (write_bytes-Encodes value))

header_fits :
    (peer_id len : ℕ) → peer_id < 2 ^ 16 → len ≤ 1488 → HeaderFits (header_for peer_id (4 + len))
header_fits peer_id len hp h = record {
  magic_fits = omega arith;
  major_fits = omega arith;
  minor_fits = omega arith;
  peer_fits = hp;
  body_fits = omega arith;
}

-- A value that fits is framed whole, and the size is that of the packet.
pub frame_packet_lem :
    (s : PeerRuntime) (type : ℕ) (value : List ℕ)
    → length s.packet_buffer ≡ 1500
    → length value ≤ 1488
    → (buffer : List ℕ) × (frame_packet s type value
        ≡ (true, 12 + length value, record s { packet_buffer = buffer }))
      × (take (12 + length value) buffer ≡ packet_layout s.local_peer_id type value)
      × (length buffer ≡ 1500)
unfolding frame_packet framed_by
frame_packet_lem s type value sized fits =
    let bytes = packet_layout s.local_peer_id type value in
    let w = writer s.packet_buffer 1500 in
    let v : Writing.IsValid w = omega arith in
    let short : (ltb 0xFFFF (length value) || ltb 0xFFFF (4 + length value)) ≡ false =
      ground arith in
    let size : 0 + length bytes ≡ 12 + length value = omega arith in
    (
      (emit bytes w).buf,
      rw (short, (one_tlv-Encodes s.local_peer_id type value).fits w v (omega arith), size) refl,
      ap (λ n. take n (emit bytes w).buf) (sym size) ∙ written-emit bytes w v (omega arith),
      length-splice bytes 0 s.packet_buffer ∙ sized,
    )

module _ (D : Double) (sends : List Action → Bool) where
  -- A packet of one TLV reaches the visitor as a reader of the value.
  pub handle_realtime_packet-one :
      (s : PeerRuntime) (from slot peer_id type : ℕ) (value tl : List ℕ) (r : Reader)
      → Cursor.IsValid r
      → peer_id < 2 ^ 16
      → type < 2 ^ 16
      → length value ≤ 1488
      → rest r ≡ packet_layout peer_id type value ++ tl
      → (v : Reader) × (handle_realtime_packet D sends s from slot r
          ≡ visit D sends from slot type v s)
        × (rest v ≡ value)
        × Cursor.IsValid v
  unfolding handle_realtime_packet header_decoded body_sliced well_framed
  handle_realtime_packet-one s from slot peer_id type value tl r v hp ht len e =
      let h = header_for peer_id (4 + length value) in
      let tlv = tlv_layout type value in
      let e' : rest r ≡ header_layout h ++ (tlv ++ tl) =
        e ∙ append_assoc (header_layout h) tlv tl in
      let room : 8 ≤ remaining r = omega (arith, ahead (header_layout h) (tlv ++ tl) r v e') in
      let e8 : rest (advance 8 r) ≡ tlv ++ tl = rest-advance 8 r ∙ ap (drop 8) e' in
      let v8 = advance-IsValid 8 v room in
      let (body, eb, er, _, vb) =
        read_slice_lem (4 + length value) (advance 8 r) v8
          (omega (arith, ahead tlv tl (advance 8 r) v8 e8)) in
      let width : 4 + length value ≡ length tlv = omega arith in
      let whole : rest body ≡ tlv ++ [] =
        er
        ∙ ap (take (4 + length value)) e8
        ∙ ap (λ n. take n (tlv ++ tl)) width
        ∙ take-append tlv tl
        ∙ sym (append-nil tlv) in
      let (v', ev, rv, vv) =
        for_each_tlv-one (visit D sends from slot) type value s body vb ht (omega arith) whole in
      (
        v',
        rw
            (
              (header-Codec.decodes h (header_fits peer_id (length value) hp (omega arith))).run r
                  (tlv ++ tl) v e',
              eb,
              ev,
            )
            refl,
        rv,
        vv,
      )
