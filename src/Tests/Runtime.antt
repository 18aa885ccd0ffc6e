-- ===== src/Tests/Runtime.antt =====
-- The theorems on the peer runtime and the audio runtime, on concrete inputs.
use jam_n.Prelude.{
  ℕ, ◌≤◌, ◌≡◌, ◌≢◌, refl, Bool, true, false, List, [], ◌∷◌, ◌++◌, some, none, min, length,
  length-replicate, arith,
}
use jam_n.Prelude.Int.{pos}
use jam_n.Core.ByteReader.{reader}
use jam_n.Core.SpscRing.{empty, push}
use jam_n.Core.SpscRing.Queue.{IsValid, contents, empty-IsValid}
use jam_n.Net.{realtime, connected, link_lost}
use jam_n.Engine.ClockSync.{add_sample}
use jam_n.Engine.Crossing.{lane_at, no_note}
use jam_n.Proto.Note.{NoteEvent}
use jam_n.Engine.Scheduler.{local_peer_id}
use jam_n.Engine.Runtime.{
  PeerRuntime, Action, send, initial, add_peer, slot_at, find_slot, find_in, submit_local_event,
  add_unless, claim, first_free, no_local_event, set_max_realtime_payload, peer_at,
  published_offset_us, offset_is_locked, relock_generation,
}
use jam_n.Engine.Runtime.Receiving.{on_receive, handle_events}
use jam_n.Engine.Runtime.Service.{packet, peer_changed, send_ping, drain_local_events}
use jam_n.Engine.Runtime.Steps.Serve.{Call, add, remove, submit, serve, run}
use jam_n.Engine.Runtime.Table.{TableHolds, run-TableHolds}
use jam_n.Engine.Runtime.Budget.{Within, run-Within}
use jam_n.Engine.Runtime.Isolation.{on_receive_others}
use jam_n.Engine.Runtime.Account.{Drained, drain_local_events-Drained}
use jam_n.Engine.Runtime.Fates.{LaneFits, Handled, fresh, handle_events_lem}
use jam_n.Engine.Runtime.Exchange.RoundTrip.{Ready, exchange_lem}
use jam_n.Engine.AudioRuntime.{AudioRuntime, request_panic}
use jam_n.Engine.AudioRuntime
use jam_n.Engine.AudioRuntime.Service.{service}
use jam_n.Engine.AudioRuntime.Panic.{Silent, off_from, off_note, service-Silent}
use jam_n.Engine.AudioRuntime.Blocks.{service-bounded}
use jam_n.Engine.AudioRuntime.Works.{Monitor}
use jam_n.Engine.Scheduler.Arrival.{InOrder}
use jam_n.Engine.AudioRuntime.Calls.{played, panicked, serviced, run-InOrder}
use jam_n.Engine.AudioRuntime.Calls as AudioCalls
use jam_n.Tests.{whole, note}

-- Every other Send fails.
abbrev flaky : List Action → Bool
flaky [] = true
flaky (a ∷ []) = false
flaky (a ∷ b ∷ log) = flaky log

abbrev busy : List Call
busy =
    add 4
    ∷ submit (note 0 0) (pos 10)
    ∷ serve (peer_changed 7 connected ∷ packet 7 realtime (reader (1 ∷ 2 ∷ []) 2) ∷ []) (pos 2000)
    ∷ remove 4
    ∷ serve (peer_changed 7 link_lost ∷ []) (pos 6000)
    ∷ []

run-TableHolds_example : TableHolds (run whole flaky (initial (pos 0)) busy)
run-TableHolds_example = run-TableHolds whole flaky (pos 0) busy

run-Within_example :
    Within 100 (run whole flaky (set_max_realtime_payload (initial (pos 0)) 100) busy).log
run-Within_example = run-Within whole flaky (pos 0) 100 busy

-- A runtime with one peer, in its first slot.
abbrev with_peer : ℕ → PeerRuntime
with_peer peer = (add_peer (initial (pos 0)) peer).1

not_second : find_slot (with_peer 4) 4 ≢ some 1
unfolding add_peer find_slot find_in add_unless claim first_free
not_second e = ground arith

on_receive_others_example :
    let t = on_receive whole flaky (with_peer 4) 4 realtime (reader (7 ∷ []) 1) in
    (slot_at t 1 ≡ slot_at (with_peer 4) 1)
    × (peer_at t 1 ≡ peer_at (with_peer 4) 1)
    × (published_offset_us t 1 ≡ published_offset_us (with_peer 4) 1)
    × (offset_is_locked t 1 ≡ offset_is_locked (with_peer 4) 1)
    × (relock_generation t 1 ≡ relock_generation (with_peer 4) 1)
    × (lane_at t.crossing 1 ≡ lane_at (with_peer 4).crossing 1)
on_receive_others_example =
    on_receive_others whole flaky (with_peer 4) 4 realtime (reader (7 ∷ []) 1) 1 not_second

with_peer-Ready : Ready (with_peer 4)
unfolding add_peer find_slot find_in add_unless claim first_free
with_peer-Ready = record {
  packet_sized = length-replicate {A = ℕ} 1500 0;
  value_sized = length-replicate {A = ℕ} 1500 0;
  id_fits = omega arith;
  seq_fits = omega arith;
  now_fits = omega arith;
  payload = omega arith;
}

linked : (slot_at (with_peer 4) 0).link ≡ 4
unfolding add_peer find_slot find_in add_unless claim first_free
linked = refl

known : find_slot (with_peer 4) 4 ≡ some 0
unfolding add_peer find_slot find_in add_unless claim first_free
known = refl

exchange_lem_example :
    (ping pong : List ℕ) × ((send_ping flaky (with_peer 4) 0).log
      ≡ send 4 realtime ping ∷ (with_peer 4).log)
    × ((on_receive whole flaky (with_peer 4) 4 realtime (reader ping (length ping))).log
        ≡ send 4 realtime pong ∷ (with_peer 4).log)
    × ((slot_at
          (on_receive whole flaky (with_peer 4) 4 realtime (reader pong (length pong)))
          0).clock_sync
        ≡ (add_sample whole
            (slot_at (with_peer 4) 0).clock_sync
            (record {
              t1 = (with_peer 4).service_now_us;
              t2 = (with_peer 4).service_now_us;
              t3 = (with_peer 4).service_now_us;
              t4 = (with_peer 4).service_now_us;
            })
            (with_peer 4).service_now_us).1)
exchange_lem_example =
    exchange_lem whole flaky (with_peer 4) (with_peer 4) (with_peer 4) 0 4 4 0 0 with_peer-Ready
      with_peer-Ready linked known known

-- One event of the player waits.
abbrev one_waits : PeerRuntime
one_waits = (submit_local_event (initial (pos 0)) (note 0 0) (pos 10)).1

one_waits-IsValid : IsValid one_waits.local_events
unfolding submit_local_event push empty
one_waits-IsValid = record { storage = refl; head_in = omega arith; tail_in = omega arith }

waiting_room : one_waits.local_events.capacity ≡ 128
unfolding submit_local_event push empty
waiting_room = refl

drain_local_events-Drained_example :
    Drained one_waits
      (contents no_local_event one_waits.local_events)
      (drain_local_events one_waits)
drain_local_events-Drained_example =
    drain_local_events-Drained one_waits one_waits-IsValid waiting_room

abbrev three_notes : List NoteEvent
three_notes = note 3 0 ∷ note 3 0 ∷ note 4 1 ∷ []

first_lane-LaneFits : LaneFits (initial (pos 0)).crossing 0
unfolding empty
first_lane-LaneFits = record {
  lanes = refl;
  slot_in = omega arith;
  valid = empty-IsValid no_note 128;
  capacity = refl;
}

handle_events_lem_example :
    Handled
      (initial (pos 0))
      4
      0
      (pos 100)
      three_notes
      (fresh (initial (pos 0)).dedupe 4 three_notes)
      (handle_events (initial (pos 0)) 4 0 (pos 100) three_notes)
handle_events_lem_example =
    handle_events_lem (initial (pos 0)) 4 0 (pos 100) three_notes first_lane-LaneFits (omega arith)

-- An audio runtime whose player has just asked for silence.
abbrev panicking : AudioRuntime whole
panicking = record (AudioRuntime.initial whole) { panic_requested = true }

service-Silent_example :
    let (out, t, session) = service whole panicking (some (with_peer 4)) (pos 0) (pos 5000) 20 in
    (out ≡ off_from 8 0 session ++ off_note local_peer_id 8 ∷ []) × Silent whole t
unfolding empty
service-Silent_example =
    service-Silent whole panicking (some (with_peer 4)) (pos 0) (pos 5000) 20 refl
      (record { valid = empty-IsValid _ 128; capacity = refl }) (omega arith)

service-bounded_example : length (service whole panicking none (pos 0) (pos 5000) 3).0 ≤ min 3 64
service-bounded_example = service-bounded whole panicking none (pos 0) (pos 5000) 3

abbrev calls : List (AudioCalls.Call whole)
calls =
    played (note 1 0)
    ∷ serviced (some (with_peer 4)) (pos 64) (pos 3000000) 8
    ∷ panicked
    ∷ serviced none (pos 128) (pos 6000000) 8
    ∷ []

run-InOrder_example :
    let s = AudioCalls.run whole (AudioRuntime.initial whole) calls in
    InOrder s.scheduler.heap × Monitor s.local_monitor
run-InOrder_example = run-InOrder whole calls
