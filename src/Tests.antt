-- ===== src/Tests.antt =====
-- The theorems on concrete inputs: one witness each, with the test data they share.
pub mod Wire
pub mod Runtime
pub mod Network
pub mod Keys
pub mod Pace
use jam_n.Prelude.{
  ℕ, zero, suc, ◌+◌, ◌-◌, ◌%◌, ◌^◌, ◌<◌, ◌≤◌, ◌≡◌, ◌≢◌, ◌↔◌, ◌⊎◌, refl, inl, inr, Bool, true, false,
  List, [], ◌∷◌, ◌++◌, Option, some, none, min, leb, length, take, replicate, arith,
}
use mathlib.Core.List.{Memᴰ}
use jam_n.Prelude.Int.{ℤ, pos, negsuc, ◌+ℤ◌, ◌-ℤ◌, ◌*ℤ◌, ◌≤ℤ◌, ltb_ℤ, leb_ℤ, ◌==ℤ◌}
use jam_n.Core.Double.{Double}
use jam_n.Core.Histogram.{p99, percentile, collect}
use jam_n.Core.Quotient.{quot}
use jam_n.Proto.Note.{NoteEvent, note_on}
use jam_n.Engine.Serial.{is_newer_serial, is_newer_serial_iff}
use jam_n.Engine.Dedupe.{PeerRing, new_ring, check, recorded}
use jam_n.Engine.Dedupe.History.{History, start, let_through, discarded, Distinct, History-Distinct}
use jam_n.Engine.Burst.{BurstAssembler, Entry}
use jam_n.Engine.Burst
use jam_n.Engine.Burst.Redundancy.{Round, bursts_of, run-bursts_of}
use jam_n.Engine.Burst.Redundancy
use jam_n.Engine.Jitter.{
  JitterBuffer, playout_target, report_late_event, computed_target, grown, evaluate, clamped,
}
use jam_n.Engine.Jitter
use jam_n.Engine.Jitter.Target.{
  InBounds, MayShrink, run-InBounds, computed_target-grows, playout_target-shrinks, transit, late,
  playout, floor,
}
use jam_n.Engine.Jitter.Target
use jam_n.Engine.ClockSync.{
  ClockSync, ClockSyncSample, WindowEntry, blank, offset, rtt, jumps, add_sample, is_locked,
  min_rtt_offset_us,
}
use jam_n.Engine.ClockSync
use jam_n.Engine.ClockSync.Offset.{
  exchange, offset-exchange, exchange-near, Least, min_rtt_offset_us_lem,
}
use jam_n.Engine.ClockSync.Slew.{
  IsValid, Slewed, Anew, add_sample-Slewed, add_sample-Anew, run-IsValid,
}
use jam_n.Engine.ClockSync.Slew
use jam_n.Engine.Scheduler.{EventScheduler, flush_peer, pop_ready, release_due_held_events}
use jam_n.Engine.Scheduler
use jam_n.Engine.Scheduler.Order.{Sorted, Pops, pop_ready-Pops}
use jam_n.Engine.Scheduler.Calls.{local, remote, pop, flush_one}
use jam_n.Engine.Scheduler.Arrival.{InTurn, Numbered, run-InTurn}
use jam_n.Engine.Scheduler.Calls as SchedulerCalls
use jam_n.Engine.Scheduler.Policy as Admission
use jam_n.Engine.Scheduler.Flush.{NoneQueued, NoneHeld, queued_for, flush_peer_lem}
use jam_n.Core.ByteReader.{reader}
use jam_n.Proto.Header.{header_for, header_layout}
use jam_n.Proto.Control.{Hello}
use jam_n.Engine.Crossing.{no_note, publish, consume, dropped_count, depth_approx}
use jam_n.Engine.Crossing
use jam_n.Engine.Crossing.Lanes.{lanes_apart}
use jam_n.Engine.AudioClock.{prepare, unusable, update}
use jam_n.Engine.AudioClock.Inert.{prepare-update}
use jam_n.Net.{connected, link_lost}
use jam_n.Session.Host.{SessionHost, evaluate_join}
use jam_n.Session.Host.Joins.{Verdict, evaluate_join_lem}
use jam_n.Session.Host.Invariant.{fresh, event, control, fresh-IsValid}
use jam_n.Session.Host.Invariant
use jam_n.Session.Roster.{find, on_link_down}
use jam_n.Session.Roster
use jam_n.Session.Roster.Links.{Unique}
use jam_n.Session.Roster.Calls.{
  link_comes_up, link_goes_down, join, leave, run-Unique, on_link_down-find,
}
use jam_n.Session.Roster.Calls as RosterCalls

-- Whole numbers in the place of `double`: a percentile of theirs is some number of microseconds.
abbrev whole : Double
whole = record {
  carrier = ℤ;
  decimal = λ n _. pos n;
  of_int = λ z. z;
  to_int = λ z. z;
  add = λ a b. a +ℤ b;
  sub = λ a b. a -ℤ b;
  mul = λ a b. a *ℤ b;
  div = λ a _. quot a 64;
  less = λ a b. ltb_ℤ a b;
  less_equal = λ a b. leb_ℤ a b;
  equal = λ a b. a ==ℤ b;
  log = λ a. a;
  exp = λ a. a;
  ceil = λ a. a;
  sqrt = λ a. a;
  round = λ a. a;
}

abbrev note : ℕ → ℕ → NoteEvent
note seq kind = record {
  dt_us = pos 0;
  event_seq = seq;
  slot = 0;
  kind = kind;
  a = 60;
  b = 100;
  c = 0;
  state_rev = 0;
  flags = 0;
  t_absolute_ppq = pos 0;
}

is_newer_serial_iff_example :
    (is_newer_serial (65537 % 2 ^ 16) (65535 % 2 ^ 16) ≡ true) ↔ (65535 < 65537)
is_newer_serial_iff_example = is_newer_serial_iff 65537 65535 (omega arith) (omega arith)

abbrev ring_after : List ℕ → PeerRing
ring_after [] = new_ring 7
ring_after (n ∷ ns) = recorded (ring_after ns) (n % 2 ^ 16)

repeated-History : History 7 (4 ∷ 5 ∷ []) (ring_after (4 ∷ 5 ∷ []))
unfolding check
repeated-History =
    discarded 5
      (let_through 4 (let_through 5 start (inl refl) refl) (inr (omega arith, omega arith)) refl)
      (inr (omega arith, omega arith)) refl

History-Distinct_example : Distinct (4 ∷ 5 ∷ [])
History-Distinct_example = History-Distinct repeated-History

abbrev two_rounds : List Round
two_rounds =
    record {
      arrivals = record { event = note 0 note_on; time = pos 1000 } ∷ [];
      base = pos 900;
      burst_seq = 0;
    }
    ∷ record { arrivals = []; base = pos 5900; burst_seq = 1 }
    ∷ []

run-bursts_of_example : Redundancy.run Burst.empty two_rounds ≡ bursts_of [] two_rounds
run-bursts_of_example = run-bursts_of two_rounds

run-InBounds_example :
    InBounds
      (Target.run whole Jitter.initial (
        floor (pos 12000)
        ∷ transit (pos 40) (pos 1)
        ∷ playout (pos 2)
        ∷ late (pos 3)
        ∷ [])).target_us
run-InBounds_example =
    run-InBounds whole
      (floor (pos 12000) ∷ transit (pos 40) (pos 1) ∷ playout (pos 2) ∷ late (pos 3) ∷ [])

abbrev wide : JitterBuffer
wide = record Jitter.initial {
  target_us = pos 50000;
  have_last_eval = true;
  histogram = record { slots = [] };
}

playout_target-shrinks_example :
    MayShrink wide (pos 3000000)
    × (pos 50000 ≤ℤ (playout_target whole wide (pos 3000000)).target_us +ℤ pos 1000)
unfolding playout_target computed_target grown evaluate clamped p99 percentile collect ◌+ℤ◌ ◌-ℤ◌
playout_target-shrinks_example = playout_target-shrinks whole wide (pos 3000000) refl

abbrev sampled : ℕ → ClockSyncSample
sampled ahead = record { t1 = pos 0; t2 = pos (10 + ahead); t3 = pos (12 + ahead); t4 = pos 22 }

abbrev entry : ℕ → WindowEntry
entry n = record { sample = sampled n; local_time_us = pos n; seq = n }

min_rtt_offset_us_lem_example :
    (best : WindowEntry) × (min_rtt_offset_us (entry 1 ∷ entry 2 ∷ entry 3 ∷ []) 3
      ≡ offset best.sample)
    × Memᴰ best (entry 1 ∷ entry 2 ∷ entry 3 ∷ [])
    × Least best (entry 1 ∷ entry 2 ∷ entry 3 ∷ [])
min_rtt_offset_us_lem_example = min_rtt_offset_us_lem (entry 1) (entry 2 ∷ entry 3 ∷ []) 2

-- A peer's clock that is locked at an offset of 1000.
abbrev locked : ClockSync
locked = record ClockSync.initial {
  sample_count = 8;
  slewed_offset_us = pos 1000;
  have_last_update = true;
}

add_sample-Slewed_example :
    Slewed locked ((add_sample whole locked (sampled 2000) (pos 50000)).1) (pos 50000)
unfolding jumps offset ◌-ℤ◌ ◌+ℤ◌
add_sample-Slewed_example =
    add_sample-Slewed whole locked (sampled 2000) (pos 50000) refl refl refl refl

add_sample-Anew_example :
    ((add_sample whole locked (sampled 900000) (pos 50000)).0 ≡ true)
    × Anew (sampled 900000) ((add_sample whole locked (sampled 900000) (pos 50000)).1)
unfolding jumps offset ◌-ℤ◌ ◌+ℤ◌
add_sample-Anew_example =
    add_sample-Anew whole locked (sampled 900000) (pos 50000)
      (record { storage = refl; count_in = omega arith; next_in = omega arith }) refl

abbrev queued : EventScheduler
queued =
    SchedulerCalls.run whole Scheduler.initial
      (local (note 1 note_on) (pos 10) ∷ remote 3 (note 2 note_on) (pos 5) (pos 10) ∷ [])

run-InTurn_example : InTurn queued.heap × Numbered queued.next_sequence queued.heap
run-InTurn_example =
    run-InTurn whole
      (local (note 1 note_on) (pos 10) ∷ remote 3 (note 2 note_on) (pos 5) (pos 10) ∷ [])
      (omega arith)

abbrev one_queued : EventScheduler
one_queued = record Scheduler.initial {
  heap = record { deadline_us = pos 10; sequence = 0; peer = 3; event = note 1 note_on } ∷ [];
  next_sequence = 1;
}

pop_ready-Pops_example :
    Pops (pos 20) (release_due_held_events one_queued (pos 20)).heap (pop_ready one_queued (pos 20))
pop_ready-Pops_example = pop_ready-Pops one_queued (pos 20) (tt, tt)

flush_peer_lem_example :
    NoneQueued 3 (flush_peer queued 3).1.heap
    × NoneHeld 3 (flush_peer queued 3).1.held
    × ((other : ℕ)
        → other ≢ 3
        → queued_for other (flush_peer queued 3).1.heap ≡ queued_for other queued.heap)
flush_peer_lem_example = flush_peer_lem queued 3

run-Unique_example :
    Unique
      (RosterCalls.run Roster.initial
        (link_comes_up 4 ∷ join 4 1 0 ∷ link_comes_up 4 ∷ link_comes_up 5 ∷ [])).entries
run-Unique_example =
    run-Unique (link_comes_up 4 ∷ join 4 1 0 ∷ link_comes_up 4 ∷ link_comes_up 5 ∷ [])

lanes_apart_example :
    ((consume ((publish Crossing.initial 0 no_note).1) 3).0 ≡ (consume Crossing.initial 3).0)
    × (dropped_count ((publish Crossing.initial 0 no_note).1) 3 ≡ dropped_count Crossing.initial 3)
    × (depth_approx ((publish Crossing.initial 0 no_note).1) 3 ≡ depth_approx Crossing.initial 3)
    × ((consume ((consume Crossing.initial 0).1) 3).0 ≡ (consume Crossing.initial 3).0)
    × (dropped_count ((consume Crossing.initial 0).1) 3 ≡ dropped_count Crossing.initial 3)
    × (depth_approx ((consume Crossing.initial 0).1) 3 ≡ depth_approx Crossing.initial 3)
lanes_apart_example = lanes_apart Crossing.initial 0 3 no_note (omega arith)

abbrev hosted : SessionHost
hosted = fresh (1 ∷ 2 ∷ [])

abbrev greeting : Hello
greeting = record {
  session_token = 1 ∷ 3 ∷ [];
  build_hash = [];
  instrument_bank_version = 0;
  capabilities = 0;
}

evaluate_join_lem_example :
    Verdict hosted (header_for 0 8) greeting (evaluate_join hosted (header_for 0 8) greeting)
evaluate_join_lem_example =
    evaluate_join_lem hosted (header_for 0 8) greeting (omega arith, (omega arith, tt))
      (omega arith, (omega arith, tt)) refl

fresh-IsValid_example : Invariant.IsValid (
    Invariant.run (fresh (1 ∷ 2 ∷ [])) (
      event 4 connected
      ∷ control 4 (reader (header_layout (header_for 0 0)) 8)
      ∷ event 4 link_lost
      ∷ []))
fresh-IsValid_example = fresh-IsValid (1 ∷ 2 ∷ []) (
    event 4 connected
    ∷ control 4 (reader (header_layout (header_for 0 0)) 8)
    ∷ event 4 link_lost
    ∷ [])
