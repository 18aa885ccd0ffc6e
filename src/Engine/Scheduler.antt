-- ===== src/Engine/Scheduler.antt =====
-- modules/jamn_engine: event_scheduler.h, event_scheduler.cpp and deadline_resolver.h.
-- The heap is the list of its entries in the order in which std::pop_heap hands them out: HeapCompare
-- is a strict order of entries with different numbers, so the first is the one at heap_[0].
pub mod Keeps
pub mod Order
pub mod Calls
pub mod Arrival
pub mod Policy
pub mod Flush
use jam_n.Prelude.{
  ℕ, zero, suc, ◌+◌, ◌-◌, ◌%◌, ◌^◌, Bool, true, false, not, ◌&&◌, ◌||◌, List, [], ◌∷◌, ◌++◌, map,
  Option, none, some, ◌==◌, ltb, leb, if◌then◌else◌, length, get_or, set, replicate,
}
use jam_n.Prelude.Int.{ℤ, pos, ◌+ℤ◌, ◌-ℤ◌, ltb_ℤ, leb_ℤ}
use jam_n.Core.Double.{Double}
use jam_n.Proto.Note.{NoteEvent, note_off, all_notes_off}
use jam_n.Engine.Jitter.{
  JitterBuffer, set_min_target_us, record_transit, report_late_event, playout_target,
}
use jam_n.Engine.Jitter

-- IDeadlineResolver
pub record Resolver : Type 0 where
  pub implemented : Bool
  pub compute_deadline : ℤ → ℤ → ℤ

abbrev pub live_resolver : Resolver
live_resolver = record { implemented = true; compute_deadline = λ time delay. time +ℤ delay }

abbrev pub musical_resolver : Resolver
musical_resolver = record { implemented = false; compute_deadline = λ _ _. pos 0 }

abbrev pub max_scheduled_events : ℕ
max_scheduled_events = 256

abbrev pub max_held_events : ℕ
max_held_events = 32

abbrev pub max_peers : ℕ
max_peers = 8

abbrev pub late_drop_threshold_us : ℤ
late_drop_threshold_us = pos 5000

abbrev pub state_rev_hold_us : ℤ
state_rev_hold_us = pos 100000

abbrev pub local_peer_id : ℕ
local_peer_id = 0xFFFF

pub record HeapEntry : Type 0 where
  pub deadline_us : ℤ
  pub sequence : ℕ
  pub peer : ℕ
  pub event : NoteEvent

pub record HeldEntry : Type 0 where
  pub peer : ℕ
  pub event : NoteEvent
  pub event_session_time_us : ℤ
  pub hold_until_us : ℤ
  pub in_use : Bool

pub record PeerState : Type 0 where
  pub peer : ℕ
  pub jitter_buffer : JitterBuffer
  pub local_rev : ℕ

-- `peers` are the claimed slots, in the order of the array: peerCount_ is their number.
pub record EventScheduler : Type 0 where
  pub resolver : Resolver
  pub heap : List HeapEntry
  pub next_sequence : ℕ
  pub held : List HeldEntry
  pub held_count : ℕ
  pub peers : List PeerState
  pub block_period_us : ℤ

abbrev pub no_event : NoteEvent
no_event = record {
  dt_us = pos 0;
  event_seq = 0;
  slot = 0;
  kind = 0;
  a = 0;
  b = 0;
  c = 0;
  state_rev = 0;
  flags = 0;
  t_absolute_ppq = pos 0;
}

abbrev pub free_held : HeldEntry
free_held = record {
  peer = 0;
  event = no_event;
  event_session_time_us = pos 0;
  hold_until_us = pos 0;
  in_use = false;
}

abbrev pub initial : EventScheduler
initial = record {
  resolver = live_resolver;
  heap = [];
  next_sequence = 0;
  held = replicate max_held_events free_held;
  held_count = 0;
  peers = [];
  block_period_us = pos 0;
}

-- HeapCompare a b: `a` comes out after `b`.
unfoldable pub heap_compare : HeapEntry → HeapEntry → Bool
heap_compare a b =
    if ltb_ℤ a.deadline_us b.deadline_us || ltb_ℤ b.deadline_us a.deadline_us
    then ltb_ℤ b.deadline_us a.deadline_us
    else ltb b.sequence a.sequence

-- std::push_heap
unfoldable pub insert : HeapEntry → List HeapEntry → List HeapEntry
insert entry [] = entry ∷ []
insert entry (e ∷ es) =
    let rest = insert entry es in if heap_compare entry e then e ∷ rest else entry ∷ e ∷ es

unfoldable pub push_heap : EventScheduler → ℤ → ℕ → NoteEvent → Bool × EventScheduler
push_heap s deadline peer event = if leb max_scheduled_events (length s.heap) then (false, s) else (
  true,
  record s {
    heap =
        insert
          (record {
            deadline_us = deadline;
            sequence = s.next_sequence;
            peer = peer;
            event = event;
          })
          s.heap;
    next_sequence = (s.next_sequence + 1) % 2 ^ 64;
  },
)

pub find_peer : ℕ → List PeerState → Option ℕ
find_peer peer [] = none
find_peer peer (p ∷ ps) =
    if p.peer == peer
    then some 0
    else elim (find_peer peer ps) [ none ↦ none | some i ↦ some (i + 1) ]

abbrev pub new_peer : EventScheduler → ℕ → PeerState
new_peer s peer = record {
  peer = peer;
  jitter_buffer = set_min_target_us Jitter.initial s.block_period_us;
  local_rev = 0;
}

-- PeerSlot's result, from what its loop found.
unfoldable pub claim : EventScheduler → ℕ → Option ℕ → ℕ × EventScheduler
claim s peer (some i) = (i, s)
claim s peer none =
    if ltb (length s.peers) max_peers
    then (length s.peers, record s { peers = s.peers ++ new_peer s peer ∷ [] })
    else (
      max_peers - 1,
      record s {
        peers =
            set s.peers (max_peers - 1)
              (record (get_or s.peers (max_peers - 1) (new_peer s peer)) { peer = peer });
      },
    )

-- PeerSlot: the index of the peer's slot, and the scheduler with that slot claimed.
unfoldable pub peer_slot : EventScheduler → ℕ → ℕ × EventScheduler
peer_slot s peer = claim s peer (find_peer peer s.peers)

abbrev pub slot_at : EventScheduler → ℕ → ℕ → PeerState
slot_at s peer i = get_or s.peers i (new_peer s peer)

abbrev pub with_jitter : EventScheduler → ℕ → ℕ → JitterBuffer → EventScheduler
with_jitter s peer i jitter = record s {
  peers = set s.peers i (record (slot_at s peer i) { jitter_buffer = jitter });
}

pub set_block_period_us : EventScheduler → ℤ → EventScheduler
set_block_period_us s period = record s {
  block_period_us = period;
  peers =
      map {A = PeerState}
        (λ p. record p { jitter_buffer = set_min_target_us p.jitter_buffer period }) s.peers;
}

pub set_resolver : EventScheduler → Option Resolver → Bool × EventScheduler
set_resolver s none = (false, s)
set_resolver s (some r) = if r.implemented then (true, record s { resolver = r }) else (false, s)

pub set_local_rev : EventScheduler → ℕ → ℕ → EventScheduler
set_local_rev s peer rev =
    let (i, s') = peer_slot s peer in
    record s' { peers = set s'.peers i (record (slot_at s' peer i) { local_rev = rev }) }

unfoldable pub schedule_local_event : EventScheduler → NoteEvent → ℤ → Bool × EventScheduler
schedule_local_event s event now = push_heap s now local_peer_id event

unfoldable pub protected_from_drop : NoteEvent → Bool
protected_from_drop event = event.kind == note_off || event.kind == all_notes_off

-- The first free slot of the held list.
pub free_slot : List HeldEntry → Option ℕ
free_slot [] = none
free_slot (h ∷ hs) =
    if not h.in_use then some 0 else elim (free_slot hs) [ none ↦ none | some i ↦ some (i + 1) ]

-- The tail of ResolveAndPush: what becomes of an event that is `late` by so much.
unfoldable pub admit : EventScheduler → ℕ → NoteEvent → ℤ → ℤ → Bool × EventScheduler
admit s peer event deadline now =
    let late = now -ℤ deadline in
    if leb_ℤ late_drop_threshold_us late
    then (if not (protected_from_drop event) then (false, s) else push_heap s now peer event)
    else if ltb_ℤ (pos 0) late
    then push_heap s now peer event
    else push_heap s deadline peer event

-- The held list's part of ScheduleRemoteEvent: the free slot takes the event, if there is one.
unfoldable pub hold :
    EventScheduler → HeldEntry → Bool × EventScheduler → Option ℕ → Bool × EventScheduler
hold s h resolved none = resolved
hold s h resolved (some j) =
    (true, record s { held = set s.held j h; held_count = s.held_count + 1 })

module _ (D : Double) where
  -- What ResolveAndPush does to the peer's jitter buffer, and the deadline it computes.
  unfoldable pub heard : EventScheduler → ℕ → ℤ → ℤ → ℤ × EventScheduler
  heard s peer time now =
      let (i, s') = peer_slot s peer in
      let polled = playout_target D (slot_at s' peer i).jitter_buffer now in
      let deadline = s.resolver.compute_deadline time polled.target_us in
      let transit = record_transit D polled (now -ℤ time) now in
      let jitter =
        if leb_ℤ late_drop_threshold_us (now -ℤ deadline)
        then report_late_event D transit now
        else transit in
      (deadline, with_jitter s' peer i jitter)

  unfoldable pub resolve_and_push : EventScheduler → ℕ → NoteEvent → ℤ → ℤ → Bool × EventScheduler
  resolve_and_push s peer event time now =
      let (deadline, s') = heard s peer time now in admit s' peer event deadline now

  -- ScheduleRemoteEvent behind PeerSlot.
  unfoldable pub schedule_at : ℕ × EventScheduler → ℕ → NoteEvent → ℤ → ℤ → Bool × EventScheduler
  schedule_at (i, s) peer event time now =
      let resolved = resolve_and_push s peer event time now in
      let h : HeldEntry = record {
        peer = peer;
        event = event;
        event_session_time_us = time;
        hold_until_us = now +ℤ state_rev_hold_us;
        in_use = true;
      } in
      if ltb (slot_at s peer i).local_rev event.state_rev
      then hold s h resolved (free_slot s.held)
      else resolved

  unfoldable pub schedule_remote_event :
      EventScheduler → ℕ → NoteEvent → ℤ → ℤ → Bool × EventScheduler
  schedule_remote_event s peer event time now = schedule_at (peer_slot s peer) peer event time now

-- The loop's body behind PeerSlot: the entry waits on, or it is played now.
unfoldable pub release_held : ℤ → ℕ → HeldEntry → ℕ × EventScheduler → EventScheduler
release_held now j h (i, s) =
    let ready = leb h.event.state_rev (slot_at s h.peer i).local_rev in
    let timed_out = leb_ℤ h.hold_until_us now in
    let freed = record s {
      held = set s.held j (record h { in_use = false });
      held_count = s.held_count - 1;
    } in
    if not ready && not timed_out then s else (push_heap freed now h.peer h.event).1

-- One round of ReleaseDueHeldEvents's loop.
unfoldable pub release_one : ℤ → ℕ → EventScheduler → EventScheduler
release_one now j s =
    let h = get_or s.held j free_held in
    if not h.in_use then s else release_held now j h (peer_slot s h.peer)

unfoldable pub release_from : ℤ → ℕ → ℕ → EventScheduler → EventScheduler
release_from now zero j s = s
release_from now (suc n) j s = release_from now n (j + 1) (release_one now j s)

unfoldable pub release_due_held_events : EventScheduler → ℤ → EventScheduler
release_due_held_events s now = release_from now max_held_events 0 s

-- The Delivery, if the first entry is due.
unfoldable pub pop_entry : List HeapEntry → EventScheduler → ℤ → Option HeapEntry × EventScheduler
pop_entry [] s now = (none, s)
pop_entry (e ∷ es) s now =
    if ltb_ℤ now e.deadline_us then (none, s) else (some e, record s { heap = es })

-- PopReady behind its first statement.
unfoldable pub pop_heap : EventScheduler → ℤ → Option HeapEntry × EventScheduler
pop_heap s now = pop_entry s.heap s now

unfoldable pub pop_ready : EventScheduler → ℤ → Option HeapEntry × EventScheduler
pop_ready s now = pop_heap (release_due_held_events s now) now

unfoldable pub flush_all : EventScheduler → ℕ × EventScheduler
flush_all s = (
  length s.heap + s.held_count,
  record s {
    heap = [];
    held = map {A = HeldEntry} (λ h. record h { in_use = false }) s.held;
    held_count = 0;
  },
)

-- The entries that FlushPeer keeps.
unfoldable pub without : ℕ → List HeapEntry → List HeapEntry
without peer [] = []
without peer (e ∷ es) = let rest = without peer es in if e.peer == peer then rest else e ∷ rest

-- The held list without the peer's, and how many those were.
unfoldable pub flush_held : ℕ → List HeldEntry → ℕ × List HeldEntry
flush_held peer [] = (0, [])
flush_held peer (h ∷ hs) =
    let (n, rest) = flush_held peer hs in
    if not h.in_use || not (h.peer == peer)
    then (n, h ∷ rest)
    else (n + 1, record h { in_use = false } ∷ rest)

unfoldable pub flush_peer : EventScheduler → ℕ → ℕ × EventScheduler
flush_peer s peer =
    let kept = without peer s.heap in
    let (n, held) = flush_held peer s.held in
    (
      length s.heap - length kept + n,
      record s { heap = kept; held = held; held_count = s.held_count - n },
    )
