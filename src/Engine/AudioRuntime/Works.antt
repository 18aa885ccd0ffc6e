-- ===== src/Engine/AudioRuntime/Works.antt =====
-- What the drains of a block keep: the queue's order, the local monitor's ring, and the panic's flag.
use jam_n.Prelude.{
  ℕ, zero, suc, ◌+◌, ◌≡◌, refl, ◌∙◌, Bool, true, false, not, Option, none, some, ◌==◌, ◌||◌,
  Bool-cases, inl, inr, get_or,
}
use jam_n.Prelude.Int.{ℤ, ◌-ℤ◌}
use jam_n.Core.Double.{Double}
use jam_n.Core.SpscRing.{Ring}
use jam_n.Core.SpscRing as Spsc
use jam_n.Core.SpscRing.Queue.{IsValid, pop_cases}
use jam_n.Proto.Note.{NoteEvent}
use jam_n.Engine.Crossing.{RemoteNote, NoteCrossing, consume}
use jam_n.Engine.Scheduler.{EventScheduler, no_event, schedule_local_event, flush_peer}
use jam_n.Engine.Scheduler.Order.{Sorted}
use jam_n.Engine.Scheduler.Calls.{local, remote, flush_one, call-Sorted}
use jam_n.Engine.Runtime.{
  PeerRuntime, no_peer, peer_at, relock_generation, published_offset_us, offset_is_locked,
}
use jam_n.Engine.AudioRuntime.{AudioRuntime}
use jam_n.Engine.AudioRuntime.Intake.{
  Block, local_scheduled, drain_local, departed, notice_peer, relock_flushed, notice_relock,
  relock_seen, remote_scheduled, take_note, drain_lane, visit_slot, visit_from, visit_slots,
  last_peer_at, no_silences,
}

-- The ring of the local monitor: kLocalMonitorCapacity events at most.
pub record Monitor (ring : Ring NoteEvent) : Type 0 where
  pub valid : IsValid ring
  pub capacity : ring.capacity ≡ 128

pub pop-Monitor : (ring : Ring NoteEvent) → Monitor ring → Monitor (Spsc.pop no_event ring).1
pop-Monitor ring m = elim (pop_cases no_event ring m.valid) [
  | inl (_, e) ↦ rw e m
  | inr (x, ring', e, valid, same, _) ↦
      rw e (record { valid = valid; capacity = same ∙ m.capacity })
]

module _ (D : Double) where
  abbrev pub Works : AudioRuntime D → AudioRuntime D → Type 0
  Works s t =
      (t.panic_requested ≡ s.panic_requested)
      × (Monitor s.local_monitor → Monitor t.local_monitor)
      × (Sorted s.scheduler.heap → Sorted t.scheduler.heap)

  same_work : (s : AudioRuntime D) → Works s s
  same_work s = (refl, λ v. v, λ v. v)

  and_then : (s t u : AudioRuntime D) → Works s t → Works t u → Works s u
  and_then s t u (p, v, q) (p', v', q') = (p' ∙ p, λ x. v' (v x), λ x. q' (q x))

  local_scheduled-Works :
      (s : AudioRuntime D) (x : Bool × EventScheduler)
      → (Sorted s.scheduler.heap → Sorted x.1.heap)
      → Works s (local_scheduled D s x)
  unfolding local_scheduled
  local_scheduled-Works s (true, scheduler) h = (refl, λ v. v, h)
  local_scheduled-Works s (false, scheduler) h = (refl, λ v. v, h)

  pub drain_local-Works : (n : ℕ) (now : ℤ) (s : AudioRuntime D) → Works s (drain_local D n now s)
  unfolding drain_local
  drain_local-Works zero now s = same_work s
  drain_local-Works (suc n) now s =
      round (Spsc.pop no_event s.local_monitor) (pop-Monitor s.local_monitor)
        (drain_local-Works n now)
    where
      round :
          (x : Option NoteEvent × Ring NoteEvent)
          → (Monitor s.local_monitor → Monitor x.1)
          → ((t : AudioRuntime D) → Works t (drain_local D n now t))
          → Works s (elim x.0 [
            | none ↦ record s { local_monitor = x.1 }
            | some event ↦ drain_local D n now (
                local_scheduled D
                  (record s { local_monitor = x.1 })
                  (schedule_local_event s.scheduler event now))
          ])
      round (none, ring) keeps ih = (refl, keeps, λ v. v)
      round (some event, ring) keeps ih =
          let popped : AudioRuntime D = record s { local_monitor = ring } in
          let taken = local_scheduled D popped (schedule_local_event s.scheduler event now) in
          and_then s popped (drain_local D n now taken) (refl, keeps, λ v. v)
            (and_then popped taken (drain_local D n now taken)
              (local_scheduled-Works popped (schedule_local_event s.scheduler event now)
                (call-Sorted D s.scheduler (local event now)))
              (ih taken))

  departed-Works :
      (b : Block D) (slot last : ℕ) (x : ℕ × EventScheduler)
      → (Sorted b.audio.scheduler.heap → Sorted x.1.heap)
      → Works b.audio (departed D b slot last x).audio
  unfolding departed
  departed-Works b slot last (n, scheduler) h = (refl, λ v. v, h)

  notice_peer-Works :
      (b : Block D) (slot peer : ℕ) → Works b.audio (notice_peer D b slot peer).audio
  unfolding notice_peer
  notice_peer-Works b slot peer = elim (Bool-cases (not (last_peer_at D b slot == peer))) [
    | inr same ↦ rw same (same_work b.audio)
    | inl changed ↦ rw changed (elim (Bool-cases (not (last_peer_at D b slot == no_peer))) [
      | inr empty ↦ rw empty (refl, λ v. v, λ v. v)
      | inl left ↦ rw left (
          departed-Works b slot (last_peer_at D b slot)
            (flush_peer b.audio.scheduler (last_peer_at D b slot))
            (call-Sorted D b.audio.scheduler (flush_one (last_peer_at D b slot))))
    ])
  ]

  relock_flushed-Works :
      (b : Block D) (slot peer : ℕ) (x : ℕ × EventScheduler)
      → (Sorted b.audio.scheduler.heap → Sorted x.1.heap)
      → Works b.audio (relock_flushed D b slot peer x).audio
  unfolding relock_flushed
  relock_flushed-Works b slot peer (n, scheduler) h = (refl, λ v. v, h)

  notice_relock-Works :
      (b : Block D) (slot peer generation : ℕ)
      → Works b.audio (notice_relock D b slot peer generation).audio
  unfolding notice_relock
  notice_relock-Works b slot peer generation =
      elim (Bool-cases (not (get_or b.audio.have_relock_gen slot false))) [
        | inl first ↦ rw first (refl, λ v. v, λ v. v)
        | inr known ↦
            rw known
              (elim (Bool-cases (not (generation == get_or b.audio.last_relock_gen slot 0))) [
                | inr same ↦ rw same (same_work b.audio)
                | inl bumped ↦ rw bumped (elim (Bool-cases (not (peer == no_peer))) [
                  | inr nobody ↦ rw nobody (refl, λ v. v, λ v. v)
                  | inl somebody ↦ rw somebody (
                      relock_flushed-Works (relock_seen D b slot generation) slot peer
                        (flush_peer b.audio.scheduler peer)
                        (call-Sorted D b.audio.scheduler (flush_one peer)))
                ])
              ])
      ]

  remote_scheduled-Works :
      (s : AudioRuntime D) (x : Bool × EventScheduler)
      → (Sorted s.scheduler.heap → Sorted x.1.heap)
      → Works s (remote_scheduled D s x)
  unfolding remote_scheduled
  remote_scheduled-Works s (true, scheduler) h = (refl, λ v. v, h)
  remote_scheduled-Works s (false, scheduler) h = (refl, λ v. v, h)

  take_note-Works :
      (s : AudioRuntime D) (peer : ℕ) (offset : ℤ) (locked : Bool) (now : ℤ) (note : RemoteNote)
      → Works s (take_note D s peer offset locked now note)
  unfolding take_note
  take_note-Works s peer offset locked now note =
      let time = note.remote_session_time_us -ℤ offset in
      let keeps = call-Sorted D s.scheduler (remote peer note.event time now) in
      elim (Bool-cases (peer == no_peer || not (note.peer == peer))) [
        | inl old ↦ rw old (refl, λ v. v, λ v. v)
        | inr ours ↦ elim (Bool-cases (not locked)) [
          | inl early ↦ rw (ours, early) (remote_scheduled-Works _ _ keeps)
          | inr settled ↦ rw (ours, settled) (remote_scheduled-Works _ _ keeps)
        ]
      ]

  drain_lane-Works :
      (n : ℕ) (b : Block D) (slot peer : ℕ) (offset : ℤ) (locked : Bool) (now : ℤ)
      → Works b.audio (drain_lane D n b slot peer offset locked now).audio
  unfolding drain_lane
  drain_lane-Works zero b slot peer offset locked now = same_work b.audio
  drain_lane-Works (suc n) b slot peer offset locked now =
      round (consume b.session.crossing slot)
        (λ c. drain_lane-Works n c slot peer offset locked now)
    where
      round :
          (x : Option RemoteNote × NoteCrossing)
          → ((c : Block D) → Works c.audio (drain_lane D n c slot peer offset locked now).audio)
          → let session : PeerRuntime = record b.session { crossing = x.1 } in
            let out : Block D = elim x.0 [
              | none ↦ record b { session = session }
              | some note ↦
                  drain_lane D n
                    (record b {
                      session = session;
                      audio = take_note D b.audio peer offset locked now note;
                    })
                    slot
                    peer
                    offset
                    locked
                    now
            ] in
            Works b.audio out.audio
      round (none, crossing) ih = same_work b.audio
      round (some note, crossing) ih =
          let session : PeerRuntime = record b.session { crossing = crossing } in
          let audio = take_note D b.audio peer offset locked now note in
          let c : Block D = record b { session = session; audio = audio } in
          and_then b.audio audio (drain_lane D n c slot peer offset locked now).audio
            (take_note-Works b.audio peer offset locked now note) (ih c)

  visit_slot-Works :
      (b : Block D) (slot : ℕ) (now : ℤ) → Works b.audio (visit_slot D b slot now).audio
  unfolding visit_slot
  visit_slot-Works b slot now =
      let peer = peer_at b.session slot in
      let noticed = notice_peer D b slot peer in
      let relocked = notice_relock D noticed slot peer (relock_generation b.session slot) in
      let offset = published_offset_us b.session slot in
      let locked = offset_is_locked b.session slot in
      let emptied = drain_lane D 32 relocked slot peer offset locked now in
      and_then b.audio noticed.audio emptied.audio (notice_peer-Works b slot peer) (
        and_then noticed.audio relocked.audio emptied.audio
          (notice_relock-Works noticed slot peer (relock_generation b.session slot))
          (drain_lane-Works 32 relocked slot peer offset locked now))

  visit_from-Works :
      (n slot : ℕ) (b : Block D) (now : ℤ) → Works b.audio (visit_from D n slot b now).audio
  unfolding visit_from
  visit_from-Works zero slot b now = same_work b.audio
  visit_from-Works (suc n) slot b now =
      let visited = visit_slot D b slot now in
      and_then b.audio visited.audio (visit_from D n (slot + 1) visited now).audio
        (visit_slot-Works b slot now) (visit_from-Works n (slot + 1) visited now)

  pub visit_slots-Works :
      (s : AudioRuntime D) (session : Option PeerRuntime) (now : ℤ)
      → Works s (visit_slots D s session now).0
  unfolding visit_slots
  visit_slots-Works s none now = same_work s
  visit_slots-Works s (some session) now =
      visit_from-Works 8 0 (record { audio = s; session = session; silences = no_silences }) now
