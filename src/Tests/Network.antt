-- ===== src/Tests/Network.antt =====
-- The theorems on the simulated network and on the ring between two threads, on concrete inputs.
use mathlib.Core.List.{Perm}
use jam_n.Prelude.{ℕ, ◌+◌, ◌<◌, ◌≡◌, ◌≢◌, refl, List, [], ◌∷◌, ◌++◌, length, arith}
use jam_n.Prelude.Int.{ℤ, pos}
use jam_n.Core.SpscRing.{advance, empty}
use jam_n.Core.SpscRing.Queue.{contents}
use jam_n.Core.SpscRing.Threads as Ring
use jam_n.Core.SpscRing.Threads.{
  State, Reach, has_room, has_value, here, next, load_head, find_room, store_value, store_head,
  load_tail, find_value, copy_value, store_tail,
}
use jam_n.Core.SpscRing.Threads.Order.{Reach-fifo, Reach-apart}
use jam_n.Net.{realtime, control}
use jam_n.Net.Sim.{
  Random, SimNetwork, InFlightPacket, packet, initial, has_node, ready_of, create_node, connect,
  enqueue,
}
use jam_n.Net.Sim as Sim
use jam_n.Net.Sim.Delivery.{InTurn, AllDue, NoneDue, advance_lem}
use jam_n.Net.Sim.Severed.{sent, advanced, polled, new_node, severed_from}
use jam_n.Net.Sim.Handout.{reports}
use jam_n.Net.Sim.Severed as Severed
use jam_n.Tests.{whole}

-- Draws that count up.
abbrev counting : Random whole
counting = record { state = ℕ; unit = λ n. (pos n, n + 1); between = λ low high n. (high, n + 1) }

abbrev in_air : ℕ → ℤ → InFlightPacket
in_air seq time = record {
  arrival_time = time;
  send_seq = seq;
  from = 1;
  to = 2;
  channel = realtime;
  payload = seq ∷ [];
}

-- Two nodes, and three packets on their way, of which two are due at 20.
abbrev busy : SimNetwork counting
busy = record (initial counting 1) {
  nodes = record { id = 1; ready = [] } ∷ record { id = 2; ready = [] } ∷ [];
  in_flight = in_air 0 (pos 20) ∷ in_air 1 (pos 10) ∷ in_air 2 (pos 30) ∷ [];
  next_send_seq = 3;
}

advance_lem_example :
    let t = Sim.advance counting busy (pos 20) in
    (arrived : List InFlightPacket) × Perm (arrived ++ t.in_flight) busy.in_flight
    × InTurn arrived
    × AllDue t.now arrived
    × NoneDue t.now t.in_flight
    × ((id : ℕ) → ready_of id t.nodes ≡ reports busy.nodes busy.severed_links id arrived)
advance_lem_example = advance_lem counting busy (pos 20)

-- The same with a packet that waits for the second node.
abbrev waiting : SimNetwork counting
waiting = record busy {
  nodes =
      record { id = 1; ready = [] }
      ∷ record { id = 2; ready = packet 1 control (9 ∷ []) ∷ [] }
      ∷ [];
}

abbrev behind : List (Severed.Call counting 1 2)
behind = sent 1 2 control (7 ∷ []) ∷ advanced (pos 50) ∷ polled 2 ∷ new_node 2 ∷ []

-- One value pushed, the next about to be, and the first about to be popped.
abbrev meeting : State ℕ
meeting = record {
  ring = record { capacity = 2; buffer = 7 ∷ 0 ∷ 0 ∷ []; head = 1; tail = 0 };
  producer = has_room 8 1;
  consumer = has_value 0;
  pushed = 7 ∷ [];
  popped = [];
}

meeting-Reach : Reach 0 (Ring.initial 0 2) meeting
unfolding empty advance
meeting-Reach =
    next
      (next
        (next
          (next
            (next
              (next (next (next here (load_head 7 refl)) (find_room 7 0 refl (omega arith)))
                (store_value 7 0 refl))
              (store_head 7 0 refl))
            (load_tail refl))
          (load_head 8 refl))
        (find_value 0 refl (omega arith)))
      (find_room 8 1 refl (omega arith))

Reach-apart_example :
    (1 < length meeting.ring.buffer) × (0 < length meeting.ring.buffer) × ◌≢◌ {A = ℕ} 1 0
Reach-apart_example = Reach-apart 0 2 meeting 8 1 0 meeting-Reach refl refl

-- The first value popped.
abbrev parted : State ℕ
parted = record meeting {
  ring = record meeting.ring { tail = 1 };
  consumer = Ring.Consumer.idle;
  popped = 7 ∷ [];
}

parted-Reach : Reach 0 (Ring.initial 0 2) parted
unfolding advance
parted-Reach = next (next meeting-Reach (copy_value 0 refl)) (store_tail 0 7 refl)

Reach-fifo_example : parted.pushed ≡ parted.popped ++ contents 0 parted.ring
Reach-fifo_example = Reach-fifo 0 2 parted parted-Reach
