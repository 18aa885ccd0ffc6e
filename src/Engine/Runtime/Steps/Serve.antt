-- ===== src/Engine/Runtime/Steps/Serve.antt =====
-- The changes of a service cycle, and of every call that the runtime takes.
use jam_n.Prelude.{
  ℕ, zero, suc, ◌+◌, ◌%◌, ◌^◌, List, [], ◌∷◌, Bool, true, false, Option, none, some, ◌==◌,
  Bool-cases, inl, inr, length,
}
use jam_n.Prelude.Int.{ℤ}
use jam_n.Core.Double.{Double}
use jam_n.Core.SpscRing.{Ring, pop, push}
use jam_n.Net.{realtime}
use jam_n.Proto.Note.{NoteEvent, NoteBurst, encode_note_burst}
use jam_n.Proto.Clock.{encode_clock_ping}
use jam_n.Proto.Tlv.{type_note_burst, type_clock_ping}
use jam_n.Engine.Burst.{BurstAssembler, queue_event, build_next_burst}
use jam_n.Engine.Runtime.{
  PeerRuntime, LocalEvent, Action, slot_at, max_peers, no_local_event, add_peer, remove_peer,
  submit_local_event, set_local_peer_id, set_burst_period_us, local_event_capacity, on_peer_event,
}
use jam_n.Engine.Runtime.Sending.{frame_packet, encoded}
use jam_n.Engine.Runtime.Receiving.{on_receive}
use jam_n.Engine.Runtime.Service.{
  queued, numbered, drain_popped, drain, drain_local_events, not_due, ping_framed, ping_encoded,
  next_ping, send_ping, ping_from, send_due_clock_pings, burst_framed, burst_encoded, send_burst,
  burst_not_due, send_due_burst, Report, packet, peer_changed, poll, service,
}
use jam_n.Engine.Runtime.Steps.{
  Own, with_own, Change, stay, both, counted, owned, buffered, sent, passed_on, told, offered,
  skipped, pinged, timed, claimed, released, frame_packet-Change, encoded-Change,
  send_framed-Change, broadcast_framed-Change,
}
use jam_n.Engine.Runtime.Steps.Receive.{
  Any, on_receive-Change, on_peer_event-Change, add_peer-Change, remove_peer-Change,
}

-- A change that may touch a few slots may touch more.
pub widen :
    {T U : ℕ → Type 0} {s t : PeerRuntime} → ((i : ℕ) → T i → U i) → Change T s t → Change U s t
widen f stay = stay
widen f (both c d) = both (widen f c) (widen f d)
widen f (counted stats) = counted stats
widen f (owned own) = owned own
widen f (buffered p v) = buffered p v
widen f (sent peer channel size h) = sent peer channel size h
widen f (passed_on from r) = passed_on from r
widen f (told peer event) = told peer event
widen f (offered slot note dedupe h) = offered slot note dedupe (f slot h)
widen f (skipped dedupe) = skipped dedupe
widen f (pinged slot at h) = pinged slot at (f slot h)
widen f (timed slot clock relocks h) = timed slot clock relocks (f slot h)
widen f (claimed slot peer h named new e) = claimed slot peer (f slot h) named new e
widen f (released slot h) = released slot (f slot h)

abbrev own_of : PeerRuntime → Own
own_of s = record {
  service_now_us = s.service_now_us;
  local_peer_id = s.local_peer_id;
  burst_period_us = s.burst_period_us;
  last_burst_us = s.last_burst_us;
  have_sent_burst = s.have_sent_burst;
  next_burst_seq = s.next_burst_seq;
  next_event_seq = s.next_event_seq;
  next_ping_seq = s.next_ping_seq;
  assembler = s.assembler;
  local_events = s.local_events;
}

queued-Change : (s : PeerRuntime) (x : Bool × BurstAssembler) → Change Any s (queued s x)
unfolding queued
queued-Change s (true, assembler) =
    owned (record (own_of s) {
      next_event_seq = (s.next_event_seq + 1) % 2 ^ 16;
      assembler = assembler;
    })
queued-Change s (false, assembler) =
    both
      (owned (record (own_of s) {
        next_event_seq = (s.next_event_seq + 1) % 2 ^ 16;
        assembler = assembler;
      }))
      (counted _)

drain-Change : (fuel : ℕ) (s : PeerRuntime) → Change Any s (drain fuel s)
unfolding drain drain_popped
drain-Change zero s = stay
drain-Change (suc fuel) s = round (pop no_local_event s.local_events) (drain-Change fuel)
  where
    round :
        (x : Option LocalEvent × Ring LocalEvent)
        → ((t : PeerRuntime) → Change Any t (drain fuel t))
        → Change Any s (elim x.0 [
          | none ↦ record s { local_events = x.1 }
          | some local ↦ drain fuel (drain_popped (record s { local_events = x.1 }) local)
        ])
    round (none, ring) ih = owned (record (own_of s) { local_events = ring })
    round (some local, ring) ih = both (owned (record (own_of s) { local_events = ring })) (
        both
          (queued-Change (record s { local_events = ring })
            (queue_event s.assembler (numbered s.next_event_seq local)))
          (ih _))

module _ (sends : List Action → Bool) where
  ping_framed-Change :
      (s : PeerRuntime) (i : ℕ) (x : Bool × ℕ × PeerRuntime)
      → Change Any s x.2
      → Change Any s (ping_framed sends i x)
  unfolding ping_framed
  ping_framed-Change s i (false, size, s') c = c
  ping_framed-Change s i (true, size, s') c = both c (
      both (send_framed-Change Any sends s' (slot_at s' i).link realtime size)
        (both (pinged i _ tt) (counted _)))

  ping_encoded-Change :
      (s : PeerRuntime) (i : ℕ) (x : Bool × List ℕ × PeerRuntime)
      → Change Any s x.2
      → Change Any s (ping_encoded sends i x)
  unfolding ping_encoded
  ping_encoded-Change s i (false, value, s') c = c
  ping_encoded-Change s i (true, value, s') c =
      ping_framed-Change s i (frame_packet s' type_clock_ping value)
        (both c (frame_packet-Change Any s' type_clock_ping value))

  send_ping-Change : (s : PeerRuntime) (i : ℕ) → Change Any s (send_ping sends s i)
  unfolding send_ping
  send_ping-Change s i =
      let s' : PeerRuntime = record s { next_ping_seq = (s.next_ping_seq + 1) % 2 ^ 16 } in
      let encode = encode_clock_ping (next_ping s) in
      ping_encoded-Change s i (encoded s' encode) (
        both (owned (record (own_of s) { next_ping_seq = (s.next_ping_seq + 1) % 2 ^ 16 }))
          (encoded-Change Any s' encode))

  ping_from-Change : (n i : ℕ) (s : PeerRuntime) → Change Any s (ping_from sends n i s)
  unfolding ping_from
  ping_from-Change zero i s = stay
  ping_from-Change (suc n) i s = elim (Bool-cases (not_due s (slot_at s i))) [
    | inl waits ↦ rw waits (ping_from-Change n (i + 1) s)
    | inr due ↦ rw due (both (send_ping-Change s i) (ping_from-Change n (i + 1) _))
  ]

  burst_framed-Change :
      (s : PeerRuntime) (x : Bool × ℕ × PeerRuntime)
      → Change Any s x.2
      → Change Any s (burst_framed sends x)
  unfolding burst_framed
  burst_framed-Change s (false, size, s') c = both c (counted _)
  burst_framed-Change s (true, size, s') c =
      both c (both (broadcast_framed-Change Any sends s' realtime size) (counted _))

  burst_encoded-Change :
      (s : PeerRuntime) (x : Bool × List ℕ × PeerRuntime)
      → Change Any s x.2
      → Change Any s (burst_encoded sends x)
  unfolding burst_encoded
  burst_encoded-Change s (false, value, s') c = both c (counted _)
  burst_encoded-Change s (true, value, s') c =
      burst_framed-Change s (frame_packet s' type_note_burst value)
        (both c (frame_packet-Change Any s' type_note_burst value))

  send_burst-Change :
      (s : PeerRuntime) (x : NoteBurst × BurstAssembler) → Change Any s (send_burst sends s x)
  unfolding send_burst
  send_burst-Change s (burst, assembler) =
      let own : Own = record (own_of s) {
        assembler = assembler;
        next_burst_seq = (s.next_burst_seq + 1) % 2 ^ 16;
        last_burst_us = s.service_now_us;
        have_sent_burst = true;
      } in
      let s' : PeerRuntime = with_own s own in
      elim (Bool-cases (length burst.events == 0)) [
        | inl nothing ↦ rw nothing (owned own)
        | inr some_events ↦ rw some_events (
            burst_encoded-Change s (encoded s' (encode_note_burst burst))
              (both (owned own) (encoded-Change Any s' (encode_note_burst burst))))
      ]

  send_due_burst-Change : (s : PeerRuntime) → Change Any s (send_due_burst sends s)
  unfolding send_due_burst
  send_due_burst-Change s = elim (Bool-cases (burst_not_due s)) [
    | inl waits ↦ rw waits stay
    | inr due ↦
        rw due
          (send_burst-Change s (build_next_burst s.assembler s.service_now_us s.next_burst_seq))
  ]

module _ (D : Double) (sends : List Action → Bool) where
  poll-Change : (s : PeerRuntime) (reports : List Report) → Change Any s (poll D sends s reports)
  unfolding poll
  poll-Change s [] = stay
  poll-Change s (packet from channel r ∷ reports) =
      both (widen (λ i h. tt) (on_receive-Change D sends s from channel r))
        (poll-Change (on_receive D sends s from channel r) reports)
  poll-Change s (peer_changed peer event ∷ reports) =
      both (on_peer_event-Change s peer event) (poll-Change (on_peer_event s peer event) reports)

  service-Change :
      (s : PeerRuntime) (reports : List Report) (now : ℤ)
      → Change Any s (service D sends s reports now)
  unfolding service drain_local_events send_due_clock_pings
  service-Change s reports now = both (owned (record (own_of s) { service_now_us = now })) (
      both (poll-Change _ reports) (
        both (drain-Change (local_event_capacity + 1) _)
          (both (ping_from-Change sends max_peers 0 _) (send_due_burst-Change sends _))))

-- The calls of the runtime's owner, and of its transport through `serve`.
pub data Call : Type 0 where
  add : ℕ → Call
  remove : ℕ → Call
  submit : NoteEvent → ℤ → Call
  peer_id : ℕ → Call
  burst_period : ℤ → Call
  serve : List Report → ℤ → Call

module _ (D : Double) (sends : List Action → Bool) where
  abbrev pub call : PeerRuntime → Call → PeerRuntime
  call s (add peer) = (add_peer s peer).1
  call s (remove peer) = remove_peer s peer
  call s (submit event time) = (submit_local_event s event time).1
  call s (peer_id id) = set_local_peer_id s id
  call s (burst_period period) = set_burst_period_us s period
  call s (serve reports now) = service D sends s reports now

  abbrev pub run : PeerRuntime → List Call → PeerRuntime
  run s [] = s
  run s (c ∷ cs) = run (call s c) cs

  call-Change : (s : PeerRuntime) (c : Call) → Change Any s (call s c)
  unfolding submit_local_event set_local_peer_id set_burst_period_us
  call-Change s (add peer) = add_peer-Change s peer
  call-Change s (remove peer) = remove_peer-Change s peer
  call-Change s (submit event time) = owned (record (own_of s) {
    local_events = (push s.local_events (record { event = event; time_us = time })).1;
  })
  call-Change s (peer_id id) = owned (record (own_of s) { local_peer_id = id })
  call-Change s (burst_period period) = owned (record (own_of s) { burst_period_us = period })
  call-Change s (serve reports now) = service-Change D sends s reports now

  pub run-Change : (s : PeerRuntime) (cs : List Call) → Change Any s (run s cs)
  run-Change s [] = stay
  run-Change s (c ∷ cs) = both (call-Change s c) (run-Change (call s c) cs)
