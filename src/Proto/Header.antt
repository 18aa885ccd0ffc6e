-- ===== src/Proto/Header.antt =====
-- modules/jamn_proto/src/packet_header.cpp: the 8 bytes in front of every packet.
use jam_n.Prelude.{ℕ, ◌^◌, ◌<◌, List, ◌++◌}
use jam_n.Core.Wire.{w8, w16, le_bytes}
use jam_n.Core.ByteReader.{Read, read_le, accept, ◌>>=◌}
use jam_n.Core.ByteReader.Decodes.{
  Decodes, Fixed, bind-Fixed, accept-Fixed, read_le-Fixed, accept-Decodes,
}
use jam_n.Core.ByteReader.Decodes as Reading
use jam_n.Core.ByteWriter.{Write, write_le, ◌>>◌}
use jam_n.Core.ByteWriter.Encodes as Writing
use jam_n.Proto.Codec.{Codec}

pub record PacketHeader : Type 0 where
  pub magic : ℕ
  pub proto_major : ℕ
  pub proto_minor : ℕ
  pub peer_id : ℕ
  pub body_len : ℕ

abbrev pub magic_jm : ℕ
magic_jm = 0x4D4A

abbrev pub current_proto_major : ℕ
current_proto_major = 1

abbrev pub current_proto_minor : ℕ
current_proto_minor = 0

-- PacketHeader{} with its peer_id and body_len set.
abbrev pub header_for : ℕ → ℕ → PacketHeader
header_for peer_id body_len = record {
  magic = magic_jm;
  proto_major = current_proto_major;
  proto_minor = current_proto_minor;
  peer_id = peer_id;
  body_len = body_len;
}

pub encode_packet_header : PacketHeader → Write
encode_packet_header h = do
  write_le w16 h.magic
  write_le w8 h.proto_major
  write_le w8 h.proto_minor
  write_le w16 h.peer_id
  write_le w16 h.body_len

pub decode_packet_header : Read PacketHeader
decode_packet_header = do
  magic ← read_le w16
  proto_major ← read_le w8
  proto_minor ← read_le w8
  peer_id ← read_le w16
  body_len ← read_le w16
  accept (record {
    magic = magic;
    proto_major = proto_major;
    proto_minor = proto_minor;
    peer_id = peer_id;
    body_len = body_len;
  })

-- docs/PROTOCOL.md's packet shape.
abbrev pub header_layout : PacketHeader → List ℕ
header_layout h =
    le_bytes w16 h.magic
    ++ (le_bytes w8 h.proto_major
        ++ (le_bytes w8 h.proto_minor ++ (le_bytes w16 h.peer_id ++ le_bytes w16 h.body_len)))

pub record HeaderFits (h : PacketHeader) : Type 0 where
  pub magic_fits : h.magic < 2 ^ 16
  pub major_fits : h.proto_major < 2 ^ 8
  pub minor_fits : h.proto_minor < 2 ^ 8
  pub peer_fits : h.peer_id < 2 ^ 16
  pub body_fits : h.body_len < 2 ^ 16

pub header-Codec : Codec encode_packet_header decode_packet_header header_layout HeaderFits
unfolding encode_packet_header decode_packet_header
header-Codec = record {
  encodes = λ h. Writing.le_field _ w16 h.magic _ (
      Writing.le_field _ w8 h.proto_major _ (
        Writing.le_field _ w8 h.proto_minor _
          (Writing.le_field _ w16 h.peer_id _ (Writing.write_le-Encodes w16 h.body_len))));
  decodes = λ h f. Reading.le_field _ w16 h.magic _ f.magic_fits (
      Reading.le_field _ w8 h.proto_major _ f.major_fits (
        Reading.le_field _ w8 h.proto_minor _ f.minor_fits (
          Reading.le_field _ w16 h.peer_id _ f.peer_fits
            (Reading.le_field _ w16 h.body_len _ f.body_fits (accept-Decodes _)))));
}

pub header-Fixed : Fixed decode_packet_header 8
unfolding decode_packet_header
header-Fixed = bind-Fixed _ 2 6 (read_le-Fixed w16) (λ magic.
    bind-Fixed _ 1 5 (read_le-Fixed w8) (λ major. bind-Fixed _ 1 4 (read_le-Fixed w8) (λ minor.
      bind-Fixed _ 2 2 (read_le-Fixed w16)
        (λ peer. bind-Fixed _ 2 0 (read_le-Fixed w16) (λ len. accept-Fixed _)))))
