-- ===== src/Engine/Burst.antt =====
-- modules/jamn_engine: burst_assembler.h and burst_assembler.cpp.
-- A generation is its first `count` entries, event and time side by side. Times are unbounded
-- integers: only the cast of `dtUs` to 32 bits is written out.
pub mod Redundancy
use jam_n.Prelude.{
  ℕ, ◌+◌, ◌-◌, ◌%◌, Bool, true, false, List, [], ◌∷◌, ◌++◌, ltb, if◌then◌else◌, length,
}
use jam_n.Prelude.Int.{ℤ, ◌-ℤ◌}
use jam_n.Core.Wire.{w32, to_signed, to_unsigned}
use jam_n.Proto.Note.{NoteEvent, NoteBurst, max_events_per_burst}

pub record Entry : Type 0 where
  pub event : NoteEvent
  pub time : ℤ

-- kGenerations of them: `queued` is generations_[0], `sent1` to `sent3` the last kRedundancy bursts'.
pub record BurstAssembler : Type 0 where
  pub queued : List Entry
  pub sent1 : List Entry
  pub sent2 : List Entry
  pub sent3 : List Entry

abbrev pub empty : BurstAssembler
empty = record { queued = []; sent1 = []; sent2 = []; sent3 = [] }

unfoldable pub queue_event : BurstAssembler → Entry → Bool × BurstAssembler
queue_event s entry =
    if ltb (length s.queued) max_events_per_burst
    then (true, record s { queued = s.queued ++ entry ∷ [] })
    else (false, s)

-- static_cast<std::int32_t>(time - base)
pub stamp : ℤ → Entry → NoteEvent
stamp base entry = record entry.event {
  dt_us = to_signed w32 (to_unsigned w32 (entry.time -ℤ base));
}

-- The inner loop: a generation's entries, until the burst is full.
pub copy_generation : ℤ → List Entry → List NoteEvent → List NoteEvent
copy_generation base [] events = events
copy_generation base (entry ∷ entries) events =
    if ltb (length events) max_events_per_burst
    then copy_generation base entries (events ++ stamp base entry ∷ [])
    else events

pub build_next_burst : BurstAssembler → ℤ → ℕ → NoteBurst × BurstAssembler
build_next_burst s base burst_seq =
    let events1 = copy_generation base s.queued [] in
    let events2 = copy_generation base s.sent1 events1 in
    let events3 = copy_generation base s.sent2 events2 in
    let events4 = copy_generation base s.sent3 events3 in
    (
      record { base_t_session_us = base; burst_seq = burst_seq; reserved = 0; events = events4 },
      record { queued = []; sent1 = s.queued; sent2 = s.sent1; sent3 = s.sent2 },
    )
