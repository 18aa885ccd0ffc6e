-- ===== src/Engine/AudioRuntime/Service.antt =====
-- audio_runtime.cpp: Service from the panic on, and as a whole.
use jam_n.Prelude.{
  ℕ, ◌+◌, ◌-◌, Bool, true, false, ◌&&◌, List, ◌++◌, Option, ◌==◌, ltb, if◌then◌else◌, length, min,
}
use jam_n.Prelude.Int.{ℤ}
use jam_n.Core.Double.{Double}
use jam_n.Core.Quotient.{quot}
use jam_n.Engine.AudioClock.{update}
use jam_n.Engine.Scheduler.{EventScheduler, flush_all}
use jam_n.Engine.Runtime.{PeerRuntime, count_up}
use jam_n.Engine.AudioRuntime.{
  max_peers, max_notes_per_block, local_monitor_capacity, max_local_drain_per_block, Note,
  AudioRuntime, add_up,
}
use jam_n.Engine.AudioRuntime.Intake.{visit_slots, drain_local}
use jam_n.Engine.AudioRuntime.Output.{
  silence_from, discard, emit_silences, emit_local_silence, deliver,
}

module _ (D : Double) where
  unfoldable pub panic_flushed : AudioRuntime D → ℕ × EventScheduler → AudioRuntime D
  panic_flushed s (n, scheduler) = record s {
    scheduler = scheduler;
    local_monitor = discard (local_monitor_capacity + 1) s.local_monitor;
    stats = record s.stats {
      panics_serviced = count_up s.stats.panics_serviced;
      notes_flushed_on_panic = add_up s.stats.notes_flushed_on_panic n;
    };
  }

  -- The counters at the end of Service.
  unfoldable pub closed : AudioRuntime D → ℕ → ℕ → AudioRuntime D
  closed s limit count = record s {
    stats = record s.stats {
      blocks_at_note_capacity =
          if count == limit && ltb 0 limit
          then count_up s.stats.blocks_at_note_capacity
          else s.stats.blocks_at_note_capacity;
      notes_delivered = add_up s.stats.notes_delivered count;
    };
  }

  -- From `limit` on: the notes, and the runtime behind them.
  unfoldable pub emit :
      AudioRuntime D
      → Option PeerRuntime
      → List (Option ℕ)
      → Bool
      → ℤ
      → ℕ
      → List Note × AudioRuntime D
  emit s session silences panic now capacity =
      let limit = min capacity max_notes_per_block in
      let silenced = emit_silences limit 0 silences in
      let quiet = silenced ++ emit_local_silence (limit - length silenced) panic in
      let (played, scheduler) = deliver (limit - length quiet) session now s.scheduler in
      let out = quiet ++ played in
      (out, closed (record s { scheduler = scheduler }) limit (length out))

  -- From the panic's test on.
  unfoldable pub panic_or_not :
      ℤ
      → ℕ
      → AudioRuntime D × Option PeerRuntime × List (Option ℕ)
      → List Note × AudioRuntime D × Option PeerRuntime
  panic_or_not now capacity (s, session, silences) =
      let calm = record s { panic_requested = false } in
      let (out, s') =
        if s.panic_requested
        then emit (panic_flushed calm (flush_all calm.scheduler)) session
            (silence_from max_peers 0 session) true now capacity
        else emit calm session silences false now capacity in
      (out, s', session)

  unfoldable pub service :
      AudioRuntime D
      → Option PeerRuntime
      → ℤ
      → ℤ
      → ℕ
      → List Note × AudioRuntime D × Option PeerRuntime
  service s session cumulative_samples steady_ns capacity =
      let now = quot steady_ns 1000 in
      let clocked = record s { clock = update D s.clock cumulative_samples steady_ns } in
      let drained = drain_local D max_local_drain_per_block now clocked in
      panic_or_not now capacity (visit_slots D drained session now)
