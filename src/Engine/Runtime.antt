-- ===== src/Engine/Runtime.antt =====
-- modules/jamn_engine: peer_runtime.h and peer_runtime.cpp: what the net thread does for every peer.
-- One call at a time. What the runtime does to its transport and its callbacks is the list `log`, the
-- latest first; an unset callback is one that nobody listens to. Times are unbounded integers.
pub mod Sending
pub mod Receiving
pub mod Service
pub mod Steps
pub mod Table
pub mod Budget
pub mod Isolation
pub mod Account
pub mod Fates
pub mod Exchange
use jam_n.Prelude.{
  ℕ, zero, suc, ◌+◌, ◌%◌, ◌^◌, Bool, true, false, not, ◌&&◌, List, [], ◌∷◌, Option, none, some,
  ◌==◌, leb, if◌then◌else◌, get_or, set, replicate,
}
use jam_n.Prelude.Int.{ℤ, pos}
use jam_n.Core.ByteReader.{Reader}
use jam_n.Core.SpscRing.{Ring, push}
use jam_n.Core.SpscRing
use jam_n.Net.{Channel, PeerEvent, connected, link_lost}
use jam_n.Proto.Note.{NoteEvent}
use jam_n.Engine.Burst.{BurstAssembler}
use jam_n.Engine.Burst
use jam_n.Engine.ClockSync.{ClockSync}
use jam_n.Engine.ClockSync
use jam_n.Engine.Crossing.{NoteCrossing, no_note}
use jam_n.Engine.Crossing
use jam_n.Engine.Dedupe.{DedupeRing}

abbrev pub max_peers : ℕ
max_peers = 8

abbrev pub default_burst_period_us : ℤ
default_burst_period_us = pos 3000

abbrev pub local_event_capacity : ℕ
local_event_capacity = 128

abbrev pub packet_buffer_bytes : ℕ
packet_buffer_bytes = 1500

abbrev pub default_max_realtime_payload : ℕ
default_max_realtime_payload = 1364

abbrev pub no_peer : ℕ
no_peer = 0xFFFF

pub record Stats : Type 0 where
  pub bursts_sent : ℕ
  pub packets_too_large : ℕ
  pub sends_failed : ℕ
  pub packets_received : ℕ
  pub packets_rejected : ℕ
  pub packets_from_unknown_peer : ℕ
  pub notes_delivered : ℕ
  pub notes_deduped : ℕ
  pub notes_dropped_at_crossing : ℕ
  pub local_events_dropped : ℕ
  pub pings_sent : ℕ
  pub pongs_sent : ℕ
  pub clock_samples_folded : ℕ

-- ++ on a std::uint64_t
abbrev pub count_up : ℕ → ℕ
count_up n = (n + 1) % 2 ^ 64

pub record PeerSlot : Type 0 where
  pub link : ℕ
  pub in_use : Bool
  pub clock_sync : ClockSync
  pub last_ping_us : ℤ
  pub have_pinged : Bool

-- PeerSlot{}
abbrev pub free_slot : PeerSlot
free_slot = record {
  link = no_peer;
  in_use = false;
  clock_sync = ClockSync.initial;
  last_ping_us = pos 0;
  have_pinged = false;
}

pub record LocalEvent : Type 0 where
  pub event : NoteEvent
  pub time_us : ℤ

abbrev pub no_local_event : LocalEvent
no_local_event = record { event = no_note.event; time_us = pos 0 }

-- Each with the link it concerns: a Send and its bytes, and the calls of the two callbacks.
pub data Action : Type 0 where
  send : ℕ → Channel → List ℕ → Action
  control_packet : ℕ → Reader → Action
  peer_event : ℕ → PeerEvent → Action

pub record PeerRuntime : Type 0 where
  pub log : List Action
  pub session_start_us : ℤ
  pub service_now_us : ℤ
  pub local_peer_id : ℕ
  pub burst_period_us : ℤ
  pub max_realtime_payload : ℕ
  pub last_burst_us : ℤ
  pub have_sent_burst : Bool
  pub next_burst_seq : ℕ
  pub next_event_seq : ℕ
  pub next_ping_seq : ℕ
  pub assembler : BurstAssembler
  pub dedupe : DedupeRing
  pub crossing : NoteCrossing
  pub local_events : Ring LocalEvent
  pub slots : List PeerSlot
  pub slot_peer : List ℕ
  pub slot_offset_us : List ℤ
  pub slot_offset_locked : List Bool
  pub slot_relock_gen : List ℕ
  pub packet_buffer : List ℕ
  pub value_buffer : List ℕ
  pub stats : Stats

abbrev pub no_stats : Stats
no_stats = record {
  bursts_sent = 0;
  packets_too_large = 0;
  sends_failed = 0;
  packets_received = 0;
  packets_rejected = 0;
  packets_from_unknown_peer = 0;
  notes_delivered = 0;
  notes_deduped = 0;
  notes_dropped_at_crossing = 0;
  local_events_dropped = 0;
  pings_sent = 0;
  pongs_sent = 0;
  clock_samples_folded = 0;
}

-- PeerRuntime(transport, sessionStartUs)
abbrev pub initial : ℤ → PeerRuntime
initial session_start = record {
  log = [];
  session_start_us = session_start;
  service_now_us = session_start;
  local_peer_id = 0;
  burst_period_us = default_burst_period_us;
  max_realtime_payload = default_max_realtime_payload;
  last_burst_us = pos 0;
  have_sent_burst = false;
  next_burst_seq = 0;
  next_event_seq = 0;
  next_ping_seq = 0;
  assembler = Burst.empty;
  dedupe = record { rings = [] };
  crossing = Crossing.initial;
  local_events = SpscRing.empty no_local_event local_event_capacity;
  slots = replicate max_peers free_slot;
  slot_peer = replicate max_peers no_peer;
  slot_offset_us = replicate max_peers (pos 0);
  slot_offset_locked = replicate max_peers false;
  slot_relock_gen = replicate max_peers 0;
  packet_buffer = replicate packet_buffer_bytes 0;
  value_buffer = replicate packet_buffer_bytes 0;
  stats = no_stats;
}

abbrev pub slot_at : PeerRuntime → ℕ → PeerSlot
slot_at s i = get_or s.slots i free_slot

-- The loop of FindSlot. `none` is kNoSlot.
unfoldable pub find_in : ℕ → List PeerSlot → Option ℕ
find_in peer [] = none
find_in peer (slot ∷ slots) =
    if slot.in_use && slot.link == peer
    then some 0
    else elim (find_in peer slots) [ none ↦ none | some i ↦ some (i + 1) ]

unfoldable pub find_slot : PeerRuntime → ℕ → Option ℕ
find_slot s peer = find_in peer s.slots

-- The search of AddPeer's loop: the first slot that is not in use.
unfoldable pub first_free : List PeerSlot → Option ℕ
first_free [] = none
first_free (slot ∷ slots) =
    if slot.in_use then elim (first_free slots) [ none ↦ none | some i ↦ some (i + 1) ] else some 0

-- The slot's four writes, whether a peer claims it or leaves it.
abbrev pub settle : PeerRuntime → ℕ → PeerSlot → PeerRuntime
settle s i slot = record s {
  slots = set s.slots i slot;
  slot_offset_us = set s.slot_offset_us i (pos 0);
  slot_offset_locked = set s.slot_offset_locked i false;
  slot_peer = set s.slot_peer i slot.link;
}

-- The body of AddPeer's loop at the slot it found.
unfoldable pub claim : PeerRuntime → ℕ → Option ℕ → Bool × PeerRuntime
claim s peer none = (false, s)
claim s peer (some i) = (true, settle s i (record free_slot { link = peer; in_use = true }))

-- AddPeer behind FindSlot.
unfoldable pub add_unless : PeerRuntime → ℕ → Option ℕ → Bool × PeerRuntime
add_unless s peer (some i) = (true, s)
add_unless s peer none = claim s peer (first_free s.slots)

unfoldable pub add_peer : PeerRuntime → ℕ → Bool × PeerRuntime
add_peer s peer = if peer == no_peer then (false, s) else add_unless s peer (find_slot s peer)

-- RemovePeer behind FindSlot.
unfoldable pub release : PeerRuntime → Option ℕ → PeerRuntime
release s none = s
release s (some i) = settle s i free_slot

unfoldable pub remove_peer : PeerRuntime → ℕ → PeerRuntime
remove_peer s peer = release s (find_slot s peer)

unfoldable pub in_use_of : List PeerSlot → ℕ
in_use_of [] = 0
in_use_of (slot ∷ slots) = if slot.in_use then suc (in_use_of slots) else in_use_of slots

unfoldable pub peer_count : PeerRuntime → ℕ
peer_count s = in_use_of s.slots

unfoldable pub clock_sync_at : PeerRuntime → Option ℕ → Option ClockSync
clock_sync_at s none = none
clock_sync_at s (some i) = some (slot_at s i).clock_sync

unfoldable pub clock_sync_for : PeerRuntime → ℕ → Option ClockSync
clock_sync_for s peer = clock_sync_at s (find_slot s peer)

unfoldable pub peer_at : PeerRuntime → ℕ → ℕ
peer_at s slot = if leb max_peers slot then no_peer else get_or s.slot_peer slot no_peer

unfoldable pub published_offset_us : PeerRuntime → ℕ → ℤ
published_offset_us s slot =
    if leb max_peers slot then pos 0 else get_or s.slot_offset_us slot (pos 0)

unfoldable pub offset_is_locked : PeerRuntime → ℕ → Bool
offset_is_locked s slot =
    if leb max_peers slot then false else get_or s.slot_offset_locked slot false

unfoldable pub relock_generation : PeerRuntime → ℕ → ℕ
relock_generation s slot = if leb max_peers slot then 0 else get_or s.slot_relock_gen slot 0

unfoldable pub set_local_peer_id : PeerRuntime → ℕ → PeerRuntime
set_local_peer_id s id = record s { local_peer_id = id }

unfoldable pub set_burst_period_us : PeerRuntime → ℤ → PeerRuntime
set_burst_period_us s period = record s { burst_period_us = period }

unfoldable pub set_max_realtime_payload : PeerRuntime → ℕ → PeerRuntime
set_max_realtime_payload s bytes = record s { max_realtime_payload = bytes }

unfoldable pub submit_local_event : PeerRuntime → NoteEvent → ℤ → Bool × PeerRuntime
submit_local_event s event time =
    let (queued, ring) = push s.local_events (record { event = event; time_us = time }) in
    (queued, record s { local_events = ring })

unfoldable pub settled : PeerRuntime → ℕ → PeerEvent → PeerRuntime
settled s peer connected = (add_peer s peer).1
settled s peer link_lost = remove_peer s peer

unfoldable pub on_peer_event : PeerRuntime → ℕ → PeerEvent → PeerRuntime
on_peer_event s peer event =
    let s' = settled s peer event in record s' { log = peer_event peer event ∷ s'.log }
