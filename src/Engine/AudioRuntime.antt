-- ===== src/Engine/AudioRuntime.antt =====
-- modules/jamn_engine: audio_runtime.h and audio_runtime.cpp: what the audio thread does in a block.
-- The session is the peer runtime, if there is one; it stays as it is during a block, but for the
-- lanes that the block drains. `silence[slot]` with `needsSilence[slot]` is an Option of the peer. The
-- notes written to `out` are the list of them, in order.
pub mod Intake
pub mod Output
pub mod Service
pub mod Works
pub mod Panic
pub mod Blocks
pub mod Calls
use jam_n.Prelude.{
  ℕ, zero, suc, ◌+◌, ◌-◌, ◌%◌, ◌^◌, Bool, true, false, not, ◌&&◌, ◌||◌, List, [], ◌∷◌, ◌++◌, Option,
  none, some, ◌==◌, ltb, leb, if◌then◌else◌, get_or, set, replicate, length, min,
}
use jam_n.Prelude.Int.{ℤ, pos, ◌-ℤ◌, ltb_ℤ}
use jam_n.Core.Double.{Double}
use jam_n.Core.Quotient.{quot}
use jam_n.Core.SpscRing.{Ring, push, pop}
use jam_n.Core.SpscRing
use jam_n.Proto.Note.{NoteEvent, all_notes_off}
use jam_n.Engine.AudioClock.{AudioClock, prepare_on, update}
use jam_n.Engine.AudioClock
use jam_n.Engine.Crossing.{RemoteNote, NoteCrossing, consume}
use jam_n.Engine.Scheduler.{
  EventScheduler, HeapEntry, no_event, local_peer_id, set_block_period_us, schedule_local_event,
  schedule_remote_event, flush_peer, flush_all, pop_ready,
}
use jam_n.Engine.Scheduler
use jam_n.Engine.Runtime.{
  PeerRuntime, no_peer, peer_at, published_offset_us, offset_is_locked, relock_generation, count_up,
}

abbrev pub max_peers : ℕ
max_peers = 8

abbrev pub max_notes_per_block : ℕ
max_notes_per_block = 64

abbrev pub max_drain_per_peer_per_block : ℕ
max_drain_per_peer_per_block = 32

abbrev pub local_monitor_capacity : ℕ
local_monitor_capacity = 128

abbrev pub max_local_drain_per_block : ℕ
max_local_drain_per_block = 32

pub record Note : Type 0 where
  pub peer : ℕ
  pub slot : ℕ
  pub event : NoteEvent
  pub sample_offset : ℤ

pub record Stats : Type 0 where
  pub notes_scheduled : ℕ
  pub notes_delivered : ℕ
  pub notes_from_stale_slot : ℕ
  pub notes_before_clock_lock : ℕ
  pub notes_rejected_by_scheduler : ℕ
  pub local_notes_scheduled : ℕ
  pub local_notes_rejected_by_scheduler : ℕ
  pub panics_serviced : ℕ
  pub notes_flushed_on_panic : ℕ
  pub notes_flushed_on_relock : ℕ
  pub relocks_seen : ℕ
  pub notes_flushed_on_peer_loss : ℕ
  pub peers_departed : ℕ
  pub blocks_at_note_capacity : ℕ

-- += on a std::uint64_t
abbrev pub add_up : ℕ → ℕ → ℕ
add_up n more = (n + more) % 2 ^ 64

abbrev pub no_stats : Stats
no_stats = record {
  notes_scheduled = 0;
  notes_delivered = 0;
  notes_from_stale_slot = 0;
  notes_before_clock_lock = 0;
  notes_rejected_by_scheduler = 0;
  local_notes_scheduled = 0;
  local_notes_rejected_by_scheduler = 0;
  panics_serviced = 0;
  notes_flushed_on_panic = 0;
  notes_flushed_on_relock = 0;
  relocks_seen = 0;
  notes_flushed_on_peer_loss = 0;
  peers_departed = 0;
  blocks_at_note_capacity = 0;
}

module _ (D : Double) where
  pub record AudioRuntime : Type 0 where
    pub clock : AudioClock D
    pub scheduler : EventScheduler
    pub stats : Stats
    pub local_monitor : Ring NoteEvent
    pub local_notes_dropped : ℕ
    pub panic_requested : Bool
    pub last_relock_gen : List ℕ
    pub have_relock_gen : List Bool
    pub last_peer : List ℕ

  abbrev pub initial : AudioRuntime
  initial = record {
    clock = AudioClock.initial D;
    scheduler = Scheduler.initial;
    stats = no_stats;
    local_monitor = SpscRing.empty no_event local_monitor_capacity;
    local_notes_dropped = 0;
    panic_requested = false;
    last_relock_gen = replicate max_peers 0;
    have_relock_gen = replicate max_peers false;
    last_peer = replicate max_peers no_peer;
  }

  -- Prepare. The clock's bandwidth is its default argument.
  unfoldable pub prepare : AudioRuntime → D.carrier → ℤ → AudioRuntime
  prepare s rate frames =
      let s' = record s { clock = prepare_on D s.clock rate frames (D.decimal 1 1) } in
      if D.less (D.decimal 0 0) rate && ltb_ℤ (pos 0) frames
      then record s' {
        scheduler =
            set_block_period_us s.scheduler
              (D.to_int (D.div (D.mul (D.decimal 1000000 0) (D.of_int frames)) rate));
      }
      else s'

  -- Push's answer: a refused event is counted.
  unfoldable pub monitored : AudioRuntime → Bool × Ring NoteEvent → Bool × AudioRuntime
  monitored s (true, ring) = (true, record s { local_monitor = ring })
  monitored s (false, ring) =
      (false, record s { local_notes_dropped = count_up s.local_notes_dropped })

  unfoldable pub submit_local_note : AudioRuntime → NoteEvent → Bool × AudioRuntime
  submit_local_note s event = monitored s (push s.local_monitor event)

  unfoldable pub request_panic : AudioRuntime → AudioRuntime
  request_panic s = record s { panic_requested = true }
