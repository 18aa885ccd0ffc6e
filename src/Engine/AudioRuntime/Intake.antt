-- ===== src/Engine/AudioRuntime/Intake.antt =====
-- audio_runtime.cpp: the first half of Service, which drains the local monitor and the lanes.
use jam_n.Prelude.{
  ℕ, zero, suc, ◌+◌, Bool, true, false, not, ◌||◌, List, Option, none, some, ◌==◌, if◌then◌else◌,
  get_or, set, replicate,
}
use jam_n.Prelude.Int.{ℤ, ◌-ℤ◌}
use jam_n.Core.Double.{Double}
use jam_n.Core.SpscRing.{pop}
use jam_n.Engine.Crossing.{RemoteNote, consume}
use jam_n.Engine.Scheduler.{
  EventScheduler, no_event, schedule_local_event, schedule_remote_event, flush_peer,
}
use jam_n.Engine.Runtime.{
  PeerRuntime, no_peer, peer_at, published_offset_us, offset_is_locked, relock_generation, count_up,
}
use jam_n.Engine.AudioRuntime.{max_peers, max_drain_per_peer_per_block, AudioRuntime, add_up}

abbrev pub no_silences : List (Option ℕ)
no_silences = replicate max_peers none

module _ (D : Double) where
  -- ScheduleLocalEvent's answer, counted.
  unfoldable pub local_scheduled : AudioRuntime D → Bool × EventScheduler → AudioRuntime D
  local_scheduled s (true, scheduler) = record s {
    scheduler = scheduler;
    stats = record s.stats { local_notes_scheduled = count_up s.stats.local_notes_scheduled };
  }
  local_scheduled s (false, scheduler) = record s {
    scheduler = scheduler;
    stats = record s.stats {
      local_notes_rejected_by_scheduler = count_up s.stats.local_notes_rejected_by_scheduler;
    };
  }

  -- The loop over the local monitor, at most `n` rounds.
  unfoldable pub drain_local : ℕ → ℤ → AudioRuntime D → AudioRuntime D
  drain_local zero now s = s
  drain_local (suc n) now s =
      let (o, ring) = pop no_event s.local_monitor in
      elim o [
        | none ↦ record s { local_monitor = ring }
        | some event ↦ drain_local n now (
            local_scheduled (record s { local_monitor = ring })
              (schedule_local_event s.scheduler event now))
      ]

  -- The variables that the loop over the slots shares.
  pub record Block : Type 0 where
    pub audio : AudioRuntime D
    pub session : PeerRuntime
    pub silences : List (Option ℕ)

  -- FlushPeer's count, where the slot's last peer was one.
  unfoldable pub departed : Block → ℕ → ℕ → ℕ × EventScheduler → Block
  departed b slot last (n, scheduler) = record b {
    audio = record b.audio {
      scheduler = scheduler;
      stats = record b.audio.stats {
        notes_flushed_on_peer_loss = add_up b.audio.stats.notes_flushed_on_peer_loss n;
        peers_departed = count_up b.audio.stats.peers_departed;
      };
    };
    silences = set b.silences slot (some last);
  }

  abbrev pub last_peer_at : Block → ℕ → ℕ
  last_peer_at b slot = get_or b.audio.last_peer slot no_peer

  -- The test of lastPeer_[slot].
  unfoldable pub notice_peer : Block → ℕ → ℕ → Block
  notice_peer b slot peer =
      let last = last_peer_at b slot in
      let b' =
        if not (last == no_peer)
        then departed b slot last (flush_peer b.audio.scheduler last)
        else b in
      if not (last == peer)
      then record b' { audio = record b'.audio { last_peer = set b'.audio.last_peer slot peer } }
      else b

  unfoldable pub relock_flushed : Block → ℕ → ℕ → ℕ × EventScheduler → Block
  relock_flushed b slot peer (n, scheduler) = record b {
    audio = record b.audio {
      scheduler = scheduler;
      stats = record b.audio.stats {
        notes_flushed_on_relock = add_up b.audio.stats.notes_flushed_on_relock n;
      };
    };
    silences = set b.silences slot (some peer);
  }

  abbrev pub relock_seen : Block → ℕ → ℕ → Block
  relock_seen b slot generation = record b {
    audio = record b.audio {
      last_relock_gen = set b.audio.last_relock_gen slot generation;
      stats = record b.audio.stats { relocks_seen = count_up b.audio.stats.relocks_seen };
    };
  }

  -- The test of haveReLockGen_[slot] and lastReLockGen_[slot].
  unfoldable pub notice_relock : Block → ℕ → ℕ → ℕ → Block
  notice_relock b slot peer generation =
      if not (get_or b.audio.have_relock_gen slot false)
      then record b {
        audio = record b.audio {
          last_relock_gen = set b.audio.last_relock_gen slot generation;
          have_relock_gen = set b.audio.have_relock_gen slot true;
        };
      }
      else if not (generation == get_or b.audio.last_relock_gen slot 0)
      then (if not (peer == no_peer)
          then relock_flushed (relock_seen b slot generation) slot peer
              (flush_peer b.audio.scheduler peer)
          else relock_seen b slot generation)
      else b

  abbrev pub stale : AudioRuntime D → AudioRuntime D
  stale s = record s {
    stats = record s.stats { notes_from_stale_slot = count_up s.stats.notes_from_stale_slot };
  }

  abbrev pub unlocked : AudioRuntime D → AudioRuntime D
  unlocked s = record s {
    stats = record s.stats { notes_before_clock_lock = count_up s.stats.notes_before_clock_lock };
  }

  -- ScheduleRemoteEvent's answer, counted.
  unfoldable pub remote_scheduled : AudioRuntime D → Bool × EventScheduler → AudioRuntime D
  remote_scheduled s (true, scheduler) = record s {
    scheduler = scheduler;
    stats = record s.stats { notes_scheduled = count_up s.stats.notes_scheduled };
  }
  remote_scheduled s (false, scheduler) = record s {
    scheduler = scheduler;
    stats = record s.stats {
      notes_rejected_by_scheduler = count_up s.stats.notes_rejected_by_scheduler;
    };
  }

  -- The body of the loop over a lane, at a note of it.
  unfoldable pub take_note : AudioRuntime D → ℕ → ℤ → Bool → ℤ → RemoteNote → AudioRuntime D
  take_note s peer offset locked now note =
      let s' = if not locked then unlocked s else s in
      if peer == no_peer || not (note.peer == peer)
      then stale s
      else remote_scheduled s' (
          schedule_remote_event D s.scheduler peer note.event
            (note.remote_session_time_us -ℤ offset) now)

  unfoldable pub drain_lane : ℕ → Block → ℕ → ℕ → ℤ → Bool → ℤ → Block
  drain_lane zero b slot peer offset locked now = b
  drain_lane (suc n) b slot peer offset locked now =
      let (o, crossing) = consume b.session.crossing slot in
      let session : PeerRuntime = record b.session { crossing = crossing } in
      elim o [
        | none ↦ record b { session = session }
        | some note ↦
            drain_lane n
              (record b {
                session = session;
                audio = take_note b.audio peer offset locked now note;
              })
              slot peer offset locked now
      ]

  -- The body of the loop over the slots.
  unfoldable pub visit_slot : Block → ℕ → ℤ → Block
  visit_slot b slot now =
      let peer = peer_at b.session slot in
      let generation = relock_generation b.session slot in
      drain_lane max_drain_per_peer_per_block
        (notice_relock (notice_peer b slot peer) slot peer generation) slot peer
        (published_offset_us b.session slot) (offset_is_locked b.session slot) now

  -- The `n` slots from `slot` on.
  unfoldable pub visit_from : ℕ → ℕ → Block → ℤ → Block
  visit_from zero slot b now = b
  visit_from (suc n) slot b now = visit_from n (slot + 1) (visit_slot b slot now) now

  -- The loop over the slots; with no session there is none. What it leaves: the runtime, the session
  -- and the silences.
  unfoldable pub visit_slots :
      AudioRuntime D
      → Option PeerRuntime
      → ℤ
      → AudioRuntime D × Option PeerRuntime × List (Option ℕ)
  visit_slots s none now = (s, none, no_silences)
  visit_slots s (some session) now =
      let b =
        visit_from max_peers 0 (record { audio = s; session = session; silences = no_silences })
          now in
      (b.audio, some b.session, b.silences)
