-- ===== src/Proto/Tlv.antt =====
-- modules/jamn_proto: message_type.h, tlv.h and packet.h.
-- A visitor is a function on the state that the call site closes over. The loop takes fuel; the
-- bytes left and one are enough, since every round takes at least the four of a TLV header.
pub mod Stream
pub mod Keeps
pub mod Packet
use jam_n.Prelude.{ℕ, zero, suc, ◌+◌, Bool, true, false, Option, none, some, ◌==◌, if◌then◌else◌}
use jam_n.Core.Wire.{w16}
use jam_n.Core.ByteReader.{Reader, Read, remaining, read_le, read_slice, accept, ◌>>=◌}
use jam_n.Core.ByteWriter.{Write, write_le, ◌>>◌}
use jam_n.Proto.Header.{PacketHeader, decode_packet_header}

-- The MessageType values that are built today.
abbrev pub type_join : ℕ
type_join = 1

abbrev pub type_leave : ℕ
type_leave = 2

abbrev pub type_session_config : ℕ
type_session_config = 3

abbrev pub type_instrument_assign : ℕ
type_instrument_assign = 7

abbrev pub type_note_burst : ℕ
type_note_burst = 9

abbrev pub type_clock_ping : ℕ
type_clock_ping = 10

abbrev pub type_clock_pong : ℕ
type_clock_pong = 11

pub record TlvHeader : Type 0 where
  pub type : ℕ
  pub len : ℕ

unfoldable pub write_tlv_header : ℕ → ℕ → Write
write_tlv_header type len = write_le w16 type >> write_le w16 len

pub read_tlv_header : Read TlvHeader
read_tlv_header = do
  type ← read_le w16
  len ← read_le w16
  accept (record { type = type; len = len })

-- The header of one TLV and the reader over its value.
pub read_tlv : Read (ℕ × Reader)
read_tlv = do header ← read_tlv_header; value ← read_slice header.len; accept (header.type, value)

abbrev pub Visitor {ℓ} : Type ℓ → Type ℓ
Visitor S = ℕ → Reader → S → S

module _ {ℓ} {S : Type ℓ} (visit : Visitor S) where
  -- `none` if the fuel runs out; else what is returned, and the state the visits leave.
  pub tlv_loop : ℕ → S → Reader → Option (Bool × S)
  tlv_loop zero s r = none
  tlv_loop (suc fuel) s r = elim (remaining r == 0) [
    | true ↦ some (true, s)
    | false ↦
        (let (o, r') = read_tlv r in
          elim o [ none ↦ some (false, s) | some tlv ↦ tlv_loop fuel (visit tlv.0 tlv.1 s) r' ])
  ]

  unfoldable pub for_each_tlv : S → Reader → Option (Bool × S)
  for_each_tlv s r = tlv_loop (remaining r + 1) s r

  -- The body of a packet behind its decoded header.
  pub decode_body : PacketHeader → S → Reader → Option (Bool × S)
  decode_body header s r =
      let (o, r') = read_slice header.body_len r in
      elim o [ none ↦ some (false, s) | some body ↦ for_each_tlv s body ]

  pub decode_packet : S → Reader → Option (Bool × S)
  decode_packet s r =
      let (o, r') = decode_packet_header r in
      elim o [ none ↦ some (false, s) | some header ↦ decode_body header s r' ]

  pub decode_packet_authenticated : (ℕ → Bool) → S → Reader → Option (Bool × S)
  decode_packet_authenticated is_peer_known s r =
      let (o, r') = decode_packet_header r in
      elim o [
        | none ↦ some (false, s)
        | some header ↦
            if is_peer_known header.peer_id then decode_body header s r' else some (false, s)
      ]
