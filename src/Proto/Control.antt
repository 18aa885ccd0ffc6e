-- ===== src/Proto/Control.antt =====
-- modules/jamn_proto/src/hello.cpp, leave.cpp, instrument_assign.cpp and session_config.cpp: the
-- messages of the control channel. A fixed array of bytes is the list of them.
use jam_n.Prelude.{ℕ, ◌^◌, ◌<◌, ◌≡◌, refl, List, ◌++◌, ◌==◌, if◌then◌else◌, length, arith}
use jam_n.Core.Wire.{w8, w16, w32, le_bytes}
use jam_n.Core.ByteReader.{Read, read_le, read_bytes, accept, ◌>>=◌}
use jam_n.Core.ByteReader.Decodes.{
  Decodes, Fixed, bind-Fixed, accept-Fixed, read_le-Fixed, read_bytes-Fixed, accept-Decodes,
}
use jam_n.Core.ByteReader.Decodes as Reading
use jam_n.Core.ByteWriter.{Write, write_le, write_bytes, ◌>>◌}
use jam_n.Core.ByteWriter.Encodes as Writing
use jam_n.Proto.Codec.{Codec}

pub record Hello : Type 0 where
  pub session_token : List ℕ
  pub build_hash : List ℕ
  pub instrument_bank_version : ℕ
  pub capabilities : ℕ

abbrev pub session_token_bytes : ℕ
session_token_bytes = 32

abbrev pub build_hash_bytes : ℕ
build_hash_bytes = 32

pub encode_hello : Hello → Write
encode_hello h = do
  write_bytes h.session_token
  write_bytes h.build_hash
  write_le w32 h.instrument_bank_version
  write_le w32 h.capabilities

pub decode_hello : Read Hello
decode_hello = do
  session_token ← read_bytes session_token_bytes
  build_hash ← read_bytes build_hash_bytes
  version ← read_le w32
  capabilities ← read_le w32
  accept (record {
    session_token = session_token;
    build_hash = build_hash;
    instrument_bank_version = version;
    capabilities = capabilities;
  })

abbrev pub hello_layout : Hello → List ℕ
hello_layout h =
    h.session_token
    ++ (h.build_hash ++ (le_bytes w32 h.instrument_bank_version ++ le_bytes w32 h.capabilities))

pub record HelloFits (h : Hello) : Type 0 where
  pub token_fits : length h.session_token ≡ session_token_bytes
  pub hash_fits : length h.build_hash ≡ build_hash_bytes
  pub version_fits : h.instrument_bank_version < 2 ^ 32
  pub capabilities_fit : h.capabilities < 2 ^ 32

pub hello-Codec : Codec encode_hello decode_hello hello_layout HelloFits
unfolding encode_hello decode_hello
hello-Codec = record {
  encodes = λ h. Writing.bytes_field _ h.session_token _ (
      Writing.bytes_field _ h.build_hash _
        (Writing.le_field _ w32 _ _ (Writing.write_le-Encodes w32 _)));
  decodes = λ h f. Reading.bytes_field _ session_token_bytes h.session_token _ f.token_fits (
      Reading.bytes_field _ build_hash_bytes h.build_hash _ f.hash_fits (
        Reading.le_field _ w32 _ _ f.version_fits
          (Reading.le_field _ w32 _ _ f.capabilities_fit (accept-Decodes _))));
}

pub hello-Fixed : Fixed decode_hello 72
unfolding decode_hello
hello-Fixed = bind-Fixed _ 32 40 (read_bytes-Fixed 32) λ token.
    bind-Fixed _ 32 8 (read_bytes-Fixed 32) λ hash.
      bind-Fixed _ 4 4 (read_le-Fixed w32)
        λ version. bind-Fixed _ 4 0 (read_le-Fixed w32) λ capabilities. accept-Fixed _

pub data LeaveReason : Type 0 where
  voluntary kicked timed_out : LeaveReason

pub record Leave : Type 0 where
  pub peer_id : ℕ
  pub reason : LeaveReason

abbrev pub reason_code : LeaveReason → ℕ
reason_code voluntary = 0
reason_code kicked = 1
reason_code timed_out = 2

-- The switch of `DecodeLeave`: a value of no known reason reads as voluntary.
pub reason_of : ℕ → LeaveReason
reason_of c =
    if c == 0 then voluntary else if c == 1 then kicked else if c == 2 then timed_out else voluntary

pub encode_leave : Leave → Write
encode_leave l = do write_le w16 l.peer_id; write_le w8 (reason_code l.reason)

pub decode_leave : Read Leave
decode_leave = do
  peer_id ← read_le w16
  reason ← read_le w8
  accept (record { peer_id = peer_id; reason = reason_of reason })

abbrev pub leave_layout : Leave → List ℕ
leave_layout l = le_bytes w16 l.peer_id ++ le_bytes w8 (reason_code l.reason)

pub record LeaveFits (l : Leave) : Type 0 where
  pub peer_fits : l.peer_id < 2 ^ 16

reason_code-lt : (c : LeaveReason) → reason_code c < 2 ^ 8
reason_code-lt voluntary = omega arith
reason_code-lt kicked = omega arith
reason_code-lt timed_out = omega arith

reason_of-reason_code : (c : LeaveReason) → reason_of (reason_code c) ≡ c
unfolding reason_of
reason_of-reason_code voluntary = refl
reason_of-reason_code kicked = refl
reason_of-reason_code timed_out = refl

read_leave :
    (l : Leave)
    → LeaveFits l
    → Decodes decode_leave
        (leave_layout l)
        (record { peer_id = l.peer_id; reason = reason_of (reason_code l.reason) })
unfolding decode_leave
read_leave l f =
    Reading.le_field _ w16 l.peer_id _ f.peer_fits
      (Reading.le_field _ w8 _ _ (reason_code-lt l.reason) (accept-Decodes _))

pub leave-Codec : Codec encode_leave decode_leave leave_layout LeaveFits
unfolding encode_leave
leave-Codec = record {
  encodes = λ l. Writing.le_field _ w16 l.peer_id _ (Writing.write_le-Encodes w8 _);
  decodes = λ l f. rw (reason_of-reason_code l.reason) at (read_leave l f);
}

-- Whatever the reason byte holds, a Leave of three bytes is accepted.
pub leave-Fixed : Fixed decode_leave 3
unfolding decode_leave
leave-Fixed =
    bind-Fixed _ 2 1 (read_le-Fixed w16)
      λ peer. bind-Fixed _ 1 0 (read_le-Fixed w8) λ reason. accept-Fixed _

pub record InstrumentAssign : Type 0 where
  pub bank_name : List ℕ
  pub sha256 : List ℕ
  pub preset : ℕ

abbrev pub bank_name_bytes : ℕ
bank_name_bytes = 64

abbrev pub sha256_bytes : ℕ
sha256_bytes = 32

pub encode_instrument_assign : InstrumentAssign → Write
encode_instrument_assign a = do write_bytes a.bank_name; write_bytes a.sha256; write_le w32 a.preset

pub decode_instrument_assign : Read InstrumentAssign
decode_instrument_assign = do
  bank_name ← read_bytes bank_name_bytes
  sha256 ← read_bytes sha256_bytes
  preset ← read_le w32
  accept (record { bank_name = bank_name; sha256 = sha256; preset = preset })

abbrev pub instrument_assign_layout : InstrumentAssign → List ℕ
instrument_assign_layout a = a.bank_name ++ (a.sha256 ++ le_bytes w32 a.preset)

pub record InstrumentAssignFits (a : InstrumentAssign) : Type 0 where
  pub name_fits : length a.bank_name ≡ bank_name_bytes
  pub sha256_fits : length a.sha256 ≡ sha256_bytes
  pub preset_fits : a.preset < 2 ^ 32

pub instrument_assign-Codec :
    Codec encode_instrument_assign decode_instrument_assign instrument_assign_layout
      InstrumentAssignFits
unfolding encode_instrument_assign decode_instrument_assign
instrument_assign-Codec = record {
  encodes = λ a.
      Writing.bytes_field _ a.bank_name _
        (Writing.bytes_field _ a.sha256 _ (Writing.write_le-Encodes w32 _));
  decodes = λ a f. Reading.bytes_field _ bank_name_bytes a.bank_name _ f.name_fits (
      Reading.bytes_field _ sha256_bytes a.sha256 _ f.sha256_fits
        (Reading.le_field _ w32 _ _ f.preset_fits (accept-Decodes _)));
}

pub record SessionConfig : Type 0 where
  pub sync_mode : ℕ

pub encode_session_config : SessionConfig → Write
encode_session_config c = write_le w8 c.sync_mode

pub decode_session_config : Read SessionConfig
decode_session_config = do sync_mode ← read_le w8; accept (record { sync_mode = sync_mode })

abbrev pub session_config_layout : SessionConfig → List ℕ
session_config_layout c = le_bytes w8 c.sync_mode

pub record SessionConfigFits (c : SessionConfig) : Type 0 where
  pub mode_fits : c.sync_mode < 2 ^ 8

pub session_config-Codec :
    Codec encode_session_config decode_session_config session_config_layout SessionConfigFits
unfolding encode_session_config decode_session_config
session_config-Codec = record {
  encodes = λ c. Writing.write_le-Encodes w8 _;
  decodes = λ c f. Reading.le_field _ w8 _ _ f.mode_fits (accept-Decodes _);
}
