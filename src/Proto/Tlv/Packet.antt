-- ===== src/Proto/Tlv/Packet.antt =====
-- Whole packets: the header, its body of TLVs, and the gate for unknown peers.
use jam_n.Prelude.{
  ℕ, ◌≤◌, ◌≡◌, ap, sym, ◌∙◌, List, [], ◌++◌, Bool, true, false, none, some, if◌then◌else◌, length,
  take, drop, append-nil, take-append, arith,
}
use native.Mathlib.Decide.{dec_lt}
use jam_n.Core.ByteReader.{Reader, remaining, advance, read_slice}
use jam_n.Core.ByteReader.Cursor.{
  IsValid, rest, rest-advance, advance-IsValid, read_slice_lem, read_slice-short,
}
use jam_n.Core.ByteReader.Decodes.{ahead}
use jam_n.Proto.Header.{
  PacketHeader, HeaderFits, header_layout, decode_packet_header, header-Codec, header-Fixed,
}
use jam_n.Proto.Tlv.{Visitor, for_each_tlv, decode_body, decode_packet, decode_packet_authenticated}
use jam_n.Proto.Tlv.Stream.{stream, AllSized, visit_all, for_each_tlv_lem, for_each_tlv-total}

module _ {S : Type 0} (visit : Visitor S) (s : S) where
  body_read :
      (h : PacketHeader) (r body r' : Reader)
      → read_slice h.body_len r ≡ (some body, r')
      → decode_body visit h s r ≡ for_each_tlv visit s body
  unfolding decode_body
  body_read h r body r' e = ground arith

  body_missing :
      (h : PacketHeader) (r : Reader)
      → (read_slice h.body_len r).0 ≡ none
      → decode_body visit h s r ≡ some (false, s)
  unfolding decode_body
  body_missing h r e = ground arith

  header_read :
      (h : PacketHeader) (r r' : Reader)
      → decode_packet_header r ≡ (some h, r')
      → decode_packet visit s r ≡ decode_body visit h s r'
  unfolding decode_packet
  header_read h r r' e = ground arith

  header_missing :
      (r : Reader) → (decode_packet_header r).0 ≡ none → decode_packet visit s r ≡ some (false, s)
  unfolding decode_packet
  header_missing r e = ground arith

  decode_body-total :
      (h : PacketHeader) (r : Reader)
      → IsValid r
      → (out : Bool × S) × (decode_body visit h s r ≡ some out)
  decode_body-total h r v = elim (dec_lt (remaining r) h.body_len) [
    | yes lt ↦ ((false, s), body_missing h r (ap (λ x. x.0) (read_slice-short h.body_len r lt)))
    | no ge ↦
        (let (body, e, _, _, bv) = read_slice_lem h.body_len r v (omega arith) in
          let (out, eo) = for_each_tlv-total visit s body bv in (out, body_read h r body _ e ∙ eo))
  ]

  -- Every buffer is decoded to an end: no packet makes the loop run out of fuel.
  pub decode_packet-total :
      (r : Reader) → IsValid r → (out : Bool × S) × (decode_packet visit s r ≡ some out)
  decode_packet-total r v = elim (dec_lt (remaining r) 8) [
    | yes lt ↦ ((false, s), header_missing r (header-Fixed.short r v lt))
    | no ge ↦
        (let (h, e) = header-Fixed.enough r v (omega arith) in
          let (out, eo) = decode_body-total h (advance 8 r) (advance-IsValid 8 v (omega arith)) in
          (out, header_read h r (advance 8 r) e ∙ eo))
  ]

  -- The header is decoded before anything else; the body of a peer that is not known is not looked
  -- at, and that of a known one is walked as `DecodePacket` walks it.
  pub decode_packet_authenticated_lem :
      (is_peer_known : ℕ → Bool) (r r' : Reader) (h : PacketHeader)
      → decode_packet_header r ≡ (some h, r')
      → decode_packet_authenticated visit is_peer_known s r
        ≡ (if is_peer_known h.peer_id then decode_packet visit s r else some (false, s))
  unfolding decode_packet_authenticated
  decode_packet_authenticated_lem is_peer_known r r' h e = ground (arith, header_read h r r' e)

module _ {S : Type 0} (visit : Visitor S) (spec : ℕ → List ℕ → S → S)
    (agrees : (t : ℕ) (v : Reader) (s : S)
      → IsValid v
      → v.pos ≡ 0
      → visit t v s ≡ spec t (rest v) s) where
  -- A packet is its header, and a body of as many bytes as the header says: every TLV of the body is
  -- visited once and in order, whatever follows the packet in the buffer.
  pub decode_packet_lem :
      (h : PacketHeader) (ts : List (ℕ × List ℕ)) (tl : List ℕ) (s : S) (r : Reader)
      → IsValid r
      → HeaderFits h
      → h.body_len ≡ length (stream ts)
      → AllSized ts
      → rest r ≡ header_layout h ++ (stream ts ++ tl)
      → decode_packet visit s r ≡ some (true, visit_all spec ts s)
  decode_packet_lem h ts tl s r v fits len sized e =
      let room : 8 ≤ remaining r = omega (arith, ahead (header_layout h) (stream ts ++ tl) r v e) in
      let e8 : rest (advance 8 r) ≡ stream ts ++ tl = rest-advance 8 r ∙ ap (drop 8) e in
      let v8 : IsValid (advance 8 r) = advance-IsValid 8 v room in
      let whole = ahead (stream ts) tl (advance 8 r) v8 e8 in
      let (body, eb, er, _, vb) =
        read_slice_lem h.body_len (advance 8 r) v8 (omega (arith, whole)) in
      let bytes : rest body ≡ stream ts ++ [] =
        er
        ∙ ap (λ n. take n (rest (advance 8 r))) len
        ∙ ap (take (length (stream ts))) e8
        ∙ take-append (stream ts) tl
        ∙ sym (append-nil (stream ts)) in
      header_read visit s h r (advance 8 r)
        ((header-Codec.decodes h fits).run r (stream ts ++ tl) v e)
      ∙ body_read visit s h (advance 8 r) body _ eb
      ∙ for_each_tlv_lem visit spec agrees ts [] s body vb sized (omega arith) bytes
