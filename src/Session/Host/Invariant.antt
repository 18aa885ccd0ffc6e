-- ===== src/Session/Host/Invariant.antt =====
-- The host through every sequence of events and packets.
use jam_n.Prelude.{
  ℕ, ◌≤◌, Bool, true, false, not, ◌&&◌, List, [], ◌∷◌, Option, none, some, ◌==◌, Bool-cases, inl,
  inr, arith,
}
use jam_n.Core.ByteReader.{Reader, read_slice}
use jam_n.Net.{PeerEvent, connected, link_lost}
use jam_n.Proto.Header.{PacketHeader, decode_packet_header, magic_jm}
use jam_n.Proto.Control.{Hello, Leave, decode_hello, decode_leave}
use jam_n.Proto.Tlv.{type_join, type_leave}
use jam_n.Proto.Tlv.Keeps.{Left, for_each_tlv-Left}
use jam_n.Proto.JoinAuth.{Refusal, session_full, Negotiation, accepted, refused}
use jam_n.Session.Roster.{RosterEntry, initial, find, on_link_up, has_identity}
use jam_n.Session.Roster.Links.{Unique}
use jam_n.Session.Roster.Calls.{link_comes_up, link_goes_down, join, leave, call-Unique, run-Unique}
use jam_n.Session.Host.{
  SessionHost, Action, Visit, next_peer_id_of, refuse, link_answered, handle_peer_event, decide,
  handshakes, evaluate_join, join_decoded, visit_join, leave_decoded, visit_leave, visit_control,
  conclude_join, conclude_visit, conclude, concluded, handle_body, handle_sliced, handle_packet,
  handle_control_packet,
}

-- One entry at most for a link; the next id is one that a header can carry, and not the default 0.
pub record IsValid (s : SessionHost) : Type 0 where
  pub links : Unique s.roster.entries
  pub id_above : 1 ≤ s.next_peer_id
  pub id_below : s.next_peer_id ≤ 0xFFFF

refuse-IsValid :
    (s : SessionHost) (link : ℕ) (reason : Refusal) → IsValid s → IsValid (refuse s link reason).1
unfolding refuse
refuse-IsValid s link reason v = record {
  links = call-Unique s.roster (link_goes_down link) v.links;
  id_above = v.id_above;
  id_below = v.id_below;
}

decide-IsValid :
    (v : Visit) (answer : Negotiation) → IsValid v.host → IsValid (decide v answer).host
unfolding decide next_peer_id_of
decide-IsValid v (refused reason) i = i
decide-IsValid v (accepted minor) i = record {
  links = i.links;
  id_above = let h = i.id_above in ground arith;
  id_below = let h = i.id_below in ground arith;
}

join_decoded-IsValid :
    (header : PacketHeader) (v : Visit) (o : Option Hello)
    → IsValid v.host
    → IsValid (join_decoded header v o).host
unfolding join_decoded
join_decoded-IsValid header v none i = i
join_decoded-IsValid header v (some hello) i =
    decide-IsValid v (evaluate_join v.host header hello) i

leave_decoded-IsValid :
    (link : ℕ) (v : Visit) (o : Option Leave)
    → IsValid v.host
    → IsValid (leave_decoded link v o).host
unfolding leave_decoded
leave_decoded-IsValid link v none i = i
leave_decoded-IsValid link v (some l) i = record {
  links = call-Unique v.host.roster (leave link) i.links;
  id_above = i.id_above;
  id_below = i.id_below;
}

visit_join-IsValid :
    (link : ℕ) (header : PacketHeader) (value : Reader) (v : Visit)
    → IsValid v.host
    → IsValid (visit_join link header value v).host
unfolding visit_join
visit_join-IsValid link header value v i =
    elim (Bool-cases (handshakes (find v.host.roster link))) [
      | inl does ↦ rw does (join_decoded-IsValid header v ((decode_hello value).0) i)
      | inr stays ↦ rw stays i
    ]

visit_leave-IsValid :
    (link : ℕ) (joined : Bool) (value : Reader) (v : Visit)
    → IsValid v.host
    → IsValid (visit_leave link joined value v).host
unfolding visit_leave
visit_leave-IsValid link true value v i = leave_decoded-IsValid link v ((decode_leave value).0) i
visit_leave-IsValid link false value v i = i

visit_control-IsValid :
    (link : ℕ) (header : PacketHeader) (joined : Bool) (type : ℕ) (value : Reader) (v : Visit)
    → IsValid v.host
    → IsValid (visit_control link header joined type value v).host
unfolding visit_control
visit_control-IsValid link header joined type value v i = elim (Bool-cases (type == type_join)) [
  | inl joins ↦ rw joins (visit_join-IsValid link header value v i)
  | inr no_join ↦ elim (Bool-cases (type == type_leave)) [
    | inl leaves ↦ rw (no_join, leaves) (visit_leave-IsValid link joined value v i)
    | inr unknown ↦ rw (no_join, unknown) i
  ]
]

-- The host that an answer leaves, if there is one.
abbrev pub Leaves : Option (Bool × List Action × SessionHost) → Type 0
Leaves none = Unit {0}
Leaves (some out) = IsValid out.2

conclude_visit-IsValid :
    (link : ℕ) (b : Bool) (s : SessionHost) (r : Option Refusal) (j : Option (ℕ × ℕ))
    → IsValid s
    → IsValid (conclude_visit link b s r j).2
unfolding conclude_visit conclude_join
conclude_visit-IsValid link b s (some reason) j i = refuse-IsValid s link reason i
conclude_visit-IsValid link b s none none i = i
conclude_visit-IsValid link b s none (some (id, minor)) i = record {
  links = call-Unique s.roster (join link id minor) i.links;
  id_above = i.id_above;
  id_below = i.id_below;
}

concluded-Leaves :
    (link : ℕ) (o : Option (Bool × Visit))
    → Left (λ v. IsValid v.host) o
    → Leaves (concluded link o)
unfolding concluded conclude
concluded-Leaves link none i = tt
concluded-Leaves link (some (b, v)) i = conclude_visit-IsValid link b v.host v.refusal v.joining i

handle_body-Leaves :
    (s : SessionHost) (link : ℕ) (header : PacketHeader) (body : Reader) (o : Option RosterEntry)
    → IsValid s
    → Leaves (handle_body s link header body o)
unfolding handle_body
handle_body-Leaves s link header body none i = i
handle_body-Leaves s link header body (some e) i =
    elim (Bool-cases (has_identity e.state && not (header.peer_id == e.peer_id))) [
      | inl wrong ↦ rw wrong i
      | inr fits ↦ rw fits (
          concluded-Leaves link _ (
            for_each_tlv-Left (visit_control link header (has_identity e.state))
              (λ v. IsValid v.host) (visit_control-IsValid link header (has_identity e.state))
              (record { host = s; refusal = none; joining = none }) body i))
    ]

handle_sliced-Leaves :
    (s : SessionHost) (link : ℕ) (header : PacketHeader) (o : Option Reader)
    → IsValid s
    → Leaves (handle_sliced s link header o)
unfolding handle_sliced
handle_sliced-Leaves s link header none i = i
handle_sliced-Leaves s link header (some body) i =
    handle_body-Leaves s link header body (find s.roster link) i

handle_packet-Leaves :
    (s : SessionHost) (link : ℕ) (p : Option PacketHeader × Reader)
    → IsValid s
    → Leaves (handle_packet s link p)
unfolding handle_packet
handle_packet-Leaves s link (none, r) i = i
handle_packet-Leaves s link (some header, r) i = elim (Bool-cases (header.magic == magic_jm)) [
  | inl ours ↦ rw ours (handle_sliced-Leaves s link header ((read_slice header.body_len r).0) i)
  | inr alien ↦ rw alien i
]

link_answered-IsValid :
    (s : SessionHost) (link : ℕ) (up : Bool) → IsValid s → IsValid (link_answered s link up).1
unfolding link_answered
link_answered-IsValid s link true i = i
link_answered-IsValid s link false i = refuse-IsValid s link session_full i

handle_peer_event-IsValid :
    (s : SessionHost) (link : ℕ) (event : PeerEvent)
    → IsValid s
    → IsValid (handle_peer_event s link event).1
unfolding handle_peer_event
handle_peer_event-IsValid s link connected i =
    link_answered-IsValid (record s { roster = (on_link_up s.roster link).1 }) link
      ((on_link_up s.roster link).0)
      (record {
        links = call-Unique s.roster (link_comes_up link) i.links;
        id_above = i.id_above;
        id_below = i.id_below;
      })
handle_peer_event-IsValid s link link_lost i = record {
  links = call-Unique s.roster (link_goes_down link) i.links;
  id_above = i.id_above;
  id_below = i.id_below;
}

-- What reaches the host from its transport.
pub data Input : Type 0 where
  event : ℕ → PeerEvent → Input
  control : ℕ → Reader → Input

abbrev after : SessionHost → Option (Bool × List Action × SessionHost) → SessionHost
after s none = s
after s (some out) = out.2

abbrev pub take_in : SessionHost → Input → SessionHost
take_in s (event link e) = (handle_peer_event s link e).1
take_in s (control link packet) = after s (handle_control_packet s link packet)

abbrev pub run : SessionHost → List Input → SessionHost
run s [] = s
run s (x ∷ xs) = run (take_in s x) xs

after-IsValid :
    (s : SessionHost) (o : Option (Bool × List Action × SessionHost))
    → IsValid s
    → Leaves o
    → IsValid (after s o)
after-IsValid s none i l = i
after-IsValid s (some out) i l = l

take_in-IsValid : (s : SessionHost) (x : Input) → IsValid s → IsValid (take_in s x)
unfolding handle_control_packet
take_in-IsValid s (event link e) i = handle_peer_event-IsValid s link e i
take_in-IsValid s (control link packet) i =
    after-IsValid s _ i (handle_packet-Leaves s link (decode_packet_header packet) i)

run_from : (s : SessionHost) (xs : List Input) → IsValid s → IsValid (run s xs)
run_from s [] i = i
run_from s (x ∷ xs) i = run_from (take_in s x) xs (take_in-IsValid s x i)

-- The host as it is constructed.
abbrev pub fresh : List ℕ → SessionHost
fresh token = record { roster = initial; session_token = token; next_peer_id = 1 }

-- Whatever events and packets reach a host, in whatever order: no two entries of its roster have one
-- link, and the next id is between 1 and 0xFFFF.
pub fresh-IsValid : (token : List ℕ) (xs : List Input) → IsValid (run (fresh token) xs)
fresh-IsValid token xs =
    run_from (fresh token) xs
      (record { links = run-Unique []; id_above = omega arith; id_below = omega arith })
