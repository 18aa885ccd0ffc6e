-- ===== src/Engine/Crossing.antt =====
-- modules/jamn_engine: note_crossing.h and note_crossing.cpp: a lane for each peer's notes.
-- One call at a time: each lane is a ring of the core's.
pub mod Lanes
use jam_n.Prelude.{
  ℕ, ◌+◌, ◌%◌, ◌^◌, Bool, true, false, List, Option, none, some, leb, if◌then◌else◌, get_or, set,
  replicate,
}
use jam_n.Prelude.Int.{ℤ, pos}
use jam_n.Core.SpscRing.{Ring, empty, push, pop, size_approx}
use jam_n.Proto.Note.{NoteEvent}

pub record RemoteNote : Type 0 where
  pub peer : ℕ
  pub remote_session_time_us : ℤ
  pub event : NoteEvent

abbrev pub max_peers : ℕ
max_peers = 8

abbrev pub capacity_per_peer : ℕ
capacity_per_peer = 128

pub record Lane : Type 0 where
  pub ring : Ring RemoteNote
  pub dropped : ℕ

pub record NoteCrossing : Type 0 where
  pub lanes : List Lane

-- RemoteNote{}
abbrev pub no_note : RemoteNote
no_note = record {
  peer = 0;
  remote_session_time_us = pos 0;
  event = record {
    dt_us = pos 0;
    event_seq = 0;
    slot = 0;
    kind = 0;
    a = 0;
    b = 0;
    c = 0;
    state_rev = 0;
    flags = 0;
    t_absolute_ppq = pos 0;
  };
}

abbrev pub new_lane : Lane
new_lane = record { ring = empty no_note capacity_per_peer; dropped = 0 }

abbrev pub initial : NoteCrossing
initial = record { lanes = replicate max_peers new_lane }

abbrev pub lane_at : NoteCrossing → ℕ → Lane
lane_at s slot = get_or s.lanes slot new_lane

-- A refused push is counted.
unfoldable pub pushed : Lane → Bool × Ring RemoteNote → Lane
pushed lane (true, ring) = record lane { ring = ring }
pushed lane (false, ring) = record { ring = ring; dropped = (lane.dropped + 1) % 2 ^ 64 }

unfoldable pub publish : NoteCrossing → ℕ → RemoteNote → Bool × NoteCrossing
publish s slot note =
    let answer = push (lane_at s slot).ring note in
    if leb max_peers slot
    then (false, s)
    else (answer.0, record { lanes = set s.lanes slot (pushed (lane_at s slot) answer) })

unfoldable pub consume : NoteCrossing → ℕ → Option RemoteNote × NoteCrossing
consume s slot =
    let (out, ring) = pop no_note (lane_at s slot).ring in
    if leb max_peers slot
    then (none, s)
    else (out, record { lanes = set s.lanes slot (record (lane_at s slot) { ring = ring }) })

unfoldable pub dropped_count : NoteCrossing → ℕ → ℕ
dropped_count s slot = if leb max_peers slot then 0 else (lane_at s slot).dropped

unfoldable pub depth_approx : NoteCrossing → ℕ → ℕ
depth_approx s slot = if leb max_peers slot then 0 else size_approx (lane_at s slot).ring
