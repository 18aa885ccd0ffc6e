-- ===== src/Proto/Messages.antt =====
-- The messages with one layout each, in one place.
use jam_n.Proto.Codec.{Codec}
use jam_n.Proto.Header.{
  encode_packet_header, decode_packet_header, header_layout, HeaderFits, header-Codec,
}
use jam_n.Proto.Clock.{
  encode_clock_ping, decode_clock_ping, ping_layout, PingFits, ping-Codec, encode_clock_pong,
  decode_clock_pong, pong_layout, PongFits, pong-Codec,
}
use jam_n.Proto.Control.{
  encode_hello, decode_hello, hello_layout, HelloFits, hello-Codec, encode_leave, decode_leave,
  leave_layout, LeaveFits, leave-Codec, encode_instrument_assign, decode_instrument_assign,
  instrument_assign_layout, InstrumentAssignFits, instrument_assign-Codec, encode_session_config,
  decode_session_config, session_config_layout, SessionConfigFits, session_config-Codec,
}

-- For the packet header, the ping, the pong, and the join, leave, instrument and session messages alike:
-- the encoder writes the layout and fails only where that does not fit, and the decoder reads every value
-- whose fields fit their wire types back from the layout and stops right behind it.
pub messages_lem :
    Codec encode_packet_header decode_packet_header header_layout HeaderFits
    × Codec encode_clock_ping decode_clock_ping ping_layout PingFits
    × Codec encode_clock_pong decode_clock_pong pong_layout PongFits
    × Codec encode_hello decode_hello hello_layout HelloFits
    × Codec encode_leave decode_leave leave_layout LeaveFits
    × Codec encode_instrument_assign decode_instrument_assign instrument_assign_layout
        InstrumentAssignFits
    × Codec encode_session_config decode_session_config session_config_layout SessionConfigFits
messages_lem = (
  header-Codec, ping-Codec, pong-Codec, hello-Codec, leave-Codec, instrument_assign-Codec,
  session_config-Codec,
)
