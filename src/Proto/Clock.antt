-- ===== src/Proto/Clock.antt =====
-- modules/jamn_proto/src/clock_pingpong.cpp: the two messages of a clock round trip.
use jam_n.Prelude.{ℕ, ◌^◌, ◌<◌, List, ◌++◌}
use jam_n.Prelude.Int.{ℤ}
use jam_n.Core.Wire.{w16, w64, le_bytes, to_unsigned, InRange}
use jam_n.Core.ByteReader.{Read, read_le, read_signed, accept, ◌>>=◌}
use jam_n.Core.ByteReader.Decodes.{
  Decodes, Fixed, bind-Fixed, accept-Fixed, read_le-Fixed, read_signed-Fixed, accept-Decodes,
  signed_field,
}
use jam_n.Core.ByteReader.Decodes as Reading
use jam_n.Core.ByteWriter.{Write, write_le, write_signed, ◌>>◌}
use jam_n.Core.ByteWriter.Encodes as Writing
use jam_n.Proto.Codec.{Codec}

pub record ClockPing : Type 0 where
  pub ping_seq : ℕ
  pub t1 : ℤ

pub record ClockPong : Type 0 where
  pub ping_seq : ℕ
  pub t1 : ℤ
  pub t2 : ℤ
  pub t3 : ℤ

pub encode_clock_ping : ClockPing → Write
encode_clock_ping p = do write_le w16 p.ping_seq; write_signed w64 p.t1

pub decode_clock_ping : Read ClockPing
decode_clock_ping = do
  ping_seq ← read_le w16
  t1 ← read_signed w64
  accept (record { ping_seq = ping_seq; t1 = t1 })

pub encode_clock_pong : ClockPong → Write
encode_clock_pong p = do
  write_le w16 p.ping_seq
  write_signed w64 p.t1
  write_signed w64 p.t2
  write_signed w64 p.t3

pub decode_clock_pong : Read ClockPong
decode_clock_pong = do
  ping_seq ← read_le w16
  t1 ← read_signed w64
  t2 ← read_signed w64
  t3 ← read_signed w64
  accept (record { ping_seq = ping_seq; t1 = t1; t2 = t2; t3 = t3 })

abbrev pub i64_bytes : ℤ → List ℕ
i64_bytes z = le_bytes w64 (to_unsigned w64 z)

abbrev pub ping_layout : ClockPing → List ℕ
ping_layout p = le_bytes w16 p.ping_seq ++ i64_bytes p.t1

abbrev pub pong_layout : ClockPong → List ℕ
pong_layout p = le_bytes w16 p.ping_seq ++ (i64_bytes p.t1 ++ (i64_bytes p.t2 ++ i64_bytes p.t3))

pub record PingFits (p : ClockPing) : Type 0 where
  pub seq_fits : p.ping_seq < 2 ^ 16
  pub t1_fits : InRange w64 p.t1

pub record PongFits (p : ClockPong) : Type 0 where
  pub seq_fits : p.ping_seq < 2 ^ 16
  pub t1_fits : InRange w64 p.t1
  pub t2_fits : InRange w64 p.t2
  pub t3_fits : InRange w64 p.t3

pub ping-Codec : Codec encode_clock_ping decode_clock_ping ping_layout PingFits
unfolding encode_clock_ping decode_clock_ping
ping-Codec = record {
  encodes = λ p. Writing.le_field _ w16 p.ping_seq _ (Writing.write_le-Encodes w64 _);
  decodes = λ p f.
      Reading.le_field _ w16 p.ping_seq _ f.seq_fits
        (signed_field _ w64 p.t1 _ f.t1_fits (accept-Decodes _));
}

pub pong-Codec : Codec encode_clock_pong decode_clock_pong pong_layout PongFits
unfolding encode_clock_pong decode_clock_pong
pong-Codec = record {
  encodes = λ p.
      Writing.le_field _ w16 p.ping_seq _
        (Writing.le_field _ w64 _ _ (Writing.le_field _ w64 _ _ (Writing.write_le-Encodes w64 _)));
  decodes = λ p f. Reading.le_field _ w16 p.ping_seq _ f.seq_fits (
      signed_field _ w64 p.t1 _ f.t1_fits (
        signed_field _ w64 p.t2 _ f.t2_fits
          (signed_field _ w64 p.t3 _ f.t3_fits (accept-Decodes _))));
}

pub pong-Fixed : Fixed decode_clock_pong 26
unfolding decode_clock_pong
pong-Fixed = bind-Fixed _ 2 24 (read_le-Fixed w16) λ seq.
    bind-Fixed _ 8 16 (read_signed-Fixed w64) λ t1.
      bind-Fixed _ 8 8 (read_signed-Fixed w64)
        λ t2. bind-Fixed _ 8 0 (read_signed-Fixed w64) λ t3. accept-Fixed _
