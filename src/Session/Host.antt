-- ===== src/Session/Host.antt =====
-- modules/jamn_session: session_host.h and session_host.cpp.
-- What the host does to its transport and its callbacks is a list of actions, in order. A refusal's
-- text is the case it comes from. `none` is a packet whose TLVs outlast the fuel, which does not occur.
pub mod Joins
pub mod Invariant
use jam_n.Prelude.{
  ℕ, ◌+◌, Bool, true, false, not, ◌&&◌, List, [], ◌∷◌, ◌++◌, Option, none, some, ◌==◌,
  if◌then◌else◌, replicate, take, length,
}
use jam_n.Core.Wire.{w16}
use jam_n.Core.ByteReader.{Reader, read_slice}
use jam_n.Core.ByteWriter.{Write, Writer, writer, write_bytes, ◌>>◌}
use jam_n.Net.{PeerEvent, connected, link_lost}
use jam_n.Proto.Header.{
  PacketHeader, magic_jm, header_for, encode_packet_header, decode_packet_header,
}
use jam_n.Proto.Control.{
  Hello, Leave, LeaveReason, kicked, decode_hello, decode_leave, encode_leave,
}
use jam_n.Proto.Tlv.{type_join, type_leave, write_tlv_header, for_each_tlv}
use jam_n.Proto.JoinAuth.{
  Refusal, wrong_passphrase, malformed_join, session_full, Negotiation, accepted, refused,
  negotiate_version, constant_time_equals,
}
use jam_n.Session.Roster.{
  RosterEntry, Roster, is_handshaking, has_identity, find, on_link_up, on_link_down, mark_joined,
  mark_leaving,
}

pub data Action : Type 0 where
  report_refusal : ℕ → Refusal → Action
  report_join : ℕ → ℕ → Action
  send_control : ℕ → List ℕ → Action
  disconnect : ℕ → Action

pub record SessionHost : Type 0 where
  pub roster : Roster
  pub session_token : List ℕ
  pub next_peer_id : ℕ

-- The id that is assigned, and the host behind it.
unfoldable pub next_peer_id_of : SessionHost → ℕ × SessionHost
next_peer_id_of s =
    let next = if s.next_peer_id == 0xFFFF then 1 else s.next_peer_id + 1 in
    (s.next_peer_id, record s { next_peer_id = next })

-- WriteOneTlvPacket
pub write_one_tlv_packet : ℕ → ℕ → List ℕ → Write
write_one_tlv_packet peer_id type value = do
  encode_packet_header (header_for peer_id (4 + length value))
  write_tlv_header type (length value)
  write_bytes value

-- What a writer that was handed an empty buffer has written, if the write succeeded.
abbrev pub output : Bool × Writer → Option (List ℕ)
output (true, w) = some (take w.pos w.buf)
output (false, w) = none

abbrev pub empty_buffer : ℕ → Writer
empty_buffer n = writer (replicate n 0) n

-- SendLeave: a value that does not fit is not sent.
pub send_leave : ℕ → ℕ → LeaveReason → List Action
send_leave link peer_id reason =
    elim (output (encode_leave (record { peer_id = peer_id; reason = reason }) (empty_buffer 3))) [
      | none ↦ []
      | some value ↦
          elim (output (write_one_tlv_packet peer_id type_leave value (empty_buffer 128))) [
            | none ↦ []
            | some packet ↦ send_control link packet ∷ []
          ]
    ]

abbrev pub id_of : Option RosterEntry → ℕ
id_of none = 0
id_of (some e) = e.peer_id

unfoldable pub refuse : SessionHost → ℕ → Refusal → List Action × SessionHost
refuse s link reason = (
  report_refusal link reason ∷ send_leave link (id_of (find s.roster link)) kicked
      ++ disconnect link ∷ [],
  record s { roster = on_link_down s.roster link },
)

-- A link that comes up, from OnLinkUp's answer on.
unfoldable pub link_answered : SessionHost → ℕ → Bool → List Action × SessionHost
link_answered s link true = ([], s)
link_answered s link false = refuse s link session_full

unfoldable pub handle_peer_event : SessionHost → ℕ → PeerEvent → List Action × SessionHost
handle_peer_event s link connected =
    let (up, roster) = on_link_up s.roster link in
    link_answered (record s { roster = roster }) link up
handle_peer_event s link link_lost = ([], record s { roster = on_link_down s.roster link })

-- EvaluateJoin behind the negotiation.
unfoldable pub check_token : SessionHost → Hello → Negotiation → Negotiation
check_token s hello (refused reason) = refused reason
check_token s hello (accepted minor) =
    if not (constant_time_equals hello.session_token s.session_token)
    then refused wrong_passphrase
    else accepted minor

unfoldable pub evaluate_join : SessionHost → PacketHeader → Hello → Negotiation
evaluate_join s header hello =
    check_token s hello (negotiate_version header.proto_major header.proto_minor)

-- The variables that the visitor shares with HandleControlPacket.
pub record Visit : Type 0 where
  pub host : SessionHost
  pub refusal : Option Refusal
  pub joining : Option (ℕ × ℕ)

unfoldable pub decide : Visit → Negotiation → Visit
decide v (refused reason) = record v { refusal = some reason }
decide v (accepted minor) =
    let (id, host) = next_peer_id_of v.host in record v { host = host; joining = some (id, minor) }

abbrev pub handshakes : Option RosterEntry → Bool
handshakes none = false
handshakes (some e) = is_handshaking e.state

-- case MessageType::kJoin, behind the decoder.
unfoldable pub join_decoded : PacketHeader → Visit → Option Hello → Visit
join_decoded header v none = record v { refusal = some malformed_join }
join_decoded header v (some hello) = decide v (evaluate_join v.host header hello)

-- case MessageType::kJoin
unfoldable pub visit_join : ℕ → PacketHeader → Reader → Visit → Visit
visit_join link header value v =
    if not (handshakes (find v.host.roster link))
    then v
    else join_decoded header v ((decode_hello value).0)

-- case MessageType::kLeave, behind the decoder.
unfoldable pub leave_decoded : ℕ → Visit → Option Leave → Visit
leave_decoded link v none = v
leave_decoded link v (some leave) = record v {
  host = record v.host { roster = (mark_leaving v.host.roster link).1 };
}

-- case MessageType::kLeave
unfoldable pub visit_leave : ℕ → Bool → Reader → Visit → Visit
visit_leave link joined value v =
    if not joined then v else leave_decoded link v ((decode_leave value).0)

unfoldable pub visit_control : ℕ → PacketHeader → Bool → ℕ → Reader → Visit → Visit
visit_control link header joined type value v =
    if type == type_join
    then visit_join link header value v
    else if type == type_leave
    then visit_leave link joined value v
    else v

unfoldable pub conclude_join :
    ℕ → Bool → SessionHost → Option (ℕ × ℕ) → Bool × List Action × SessionHost
conclude_join link well_formed s none = (well_formed, [], s)
conclude_join link well_formed s (some (id, minor)) = (
  well_formed,
  report_join link id ∷ [],
  record s { roster = (mark_joined s.roster link id minor).1 },
)

unfoldable pub conclude_visit :
    ℕ → Bool → SessionHost → Option Refusal → Option (ℕ × ℕ) → Bool × List Action × SessionHost
conclude_visit link well_formed s (some reason) joining =
    let (actions, host) = refuse s link reason in (true, actions, host)
conclude_visit link well_formed s none joining = conclude_join link well_formed s joining

-- HandleControlPacket behind the loop: what it returns, does and leaves.
unfoldable pub conclude : ℕ → Bool → Visit → Bool × List Action × SessionHost
conclude link well_formed v = conclude_visit link well_formed v.host v.refusal v.joining

unfoldable pub concluded : ℕ → Option (Bool × Visit) → Option (Bool × List Action × SessionHost)
concluded link none = none
concluded link (some out) = some (conclude link out.0 out.1)

-- From the roster's entry on.
unfoldable pub handle_body :
    SessionHost
    → ℕ
    → PacketHeader
    → Reader
    → Option RosterEntry
    → Option (Bool × List Action × SessionHost)
handle_body s link header body none = some (false, [], s)
handle_body s link header body (some e) =
    let joined = has_identity e.state in
    let start : Visit = record { host = s; refusal = none; joining = none } in
    if joined && not (header.peer_id == e.peer_id)
    then some (false, [], s)
    else concluded link (for_each_tlv (visit_control link header joined) start body)

-- From the slice of the body on.
unfoldable pub handle_sliced :
    SessionHost → ℕ → PacketHeader → Option Reader → Option (Bool × List Action × SessionHost)
handle_sliced s link header none = some (false, [], s)
handle_sliced s link header (some body) = handle_body s link header body (find s.roster link)

-- From the decoded header on.
unfoldable pub handle_packet :
    SessionHost → ℕ → Option PacketHeader × Reader → Option (Bool × List Action × SessionHost)
handle_packet s link (none, r) = some (false, [], s)
handle_packet s link (some header, r) =
    if not (header.magic == magic_jm)
    then some (false, [], s)
    else handle_sliced s link header ((read_slice header.body_len r).0)

unfoldable pub handle_control_packet :
    SessionHost → ℕ → Reader → Option (Bool × List Action × SessionHost)
handle_control_packet s link packet = handle_packet s link (decode_packet_header packet)
