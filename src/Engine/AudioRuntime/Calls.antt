-- ===== src/Engine/AudioRuntime/Calls.antt =====
-- The audio runtime through every call of its owner.
use jam_n.Prelude.{
  ℕ, zero, suc, refl, ◌∙◌, Bool, true, false, ◌&&◌, List, [], ◌∷◌, Option, none, some, Bool-cases,
  inl, inr,
}
use jam_n.Prelude.Int.{ℤ, pos, ltb_ℤ}
use jam_n.Core.Double.{Double}
use jam_n.Core.Quotient.{quot}
use jam_n.Core.SpscRing.{Ring, push}
use jam_n.Core.SpscRing as Spsc
use jam_n.Core.SpscRing.Queue.{empty-IsValid, push_cases}
use jam_n.Proto.Note.{NoteEvent}
use jam_n.Engine.AudioClock.{update}
use jam_n.Engine.Scheduler.{EventScheduler, HeapEntry, no_event, flush_all, pop_ready}
use jam_n.Engine.Scheduler.Order.{Sorted}
use jam_n.Engine.Scheduler.Arrival.{InOrder, Sorted-InOrder}
use jam_n.Engine.Scheduler.Calls.{block_period, flush_every, call-Sorted}
use jam_n.Engine.Scheduler.Calls as Queue
use jam_n.Engine.Runtime.{PeerRuntime}
use jam_n.Engine.AudioRuntime.{
  Note, AudioRuntime, initial, prepare, submit_local_note, request_panic, monitored,
}
use jam_n.Engine.AudioRuntime.Intake.{drain_local, visit_slots}
use jam_n.Engine.AudioRuntime.Output.{discard, silence_from, deliver, delivered}
use jam_n.Engine.AudioRuntime.Service.{panic_flushed, closed, emit, panic_or_not, service}
use jam_n.Engine.AudioRuntime.Works.{Monitor, pop-Monitor, drain_local-Works, visit_slots-Works}

-- The comparison finds the queue in order, and the local monitor is a ring of its capacity.
record IsSound (D : Double) (s : AudioRuntime D) : Type 0 where
  queue : Sorted s.scheduler.heap
  monitor : Monitor s.local_monitor

push-Monitor :
    (ring : Ring NoteEvent) (event : NoteEvent) → Monitor ring → Monitor (push ring event).1
push-Monitor ring event m = elim (push_cases no_event ring event m.valid) [
  | inl (_, e) ↦ rw e m
  | inr (_, ring', e, valid, same, _) ↦
      rw e (record { valid = valid; capacity = same ∙ m.capacity })
]

discard-Monitor : (fuel : ℕ) (ring : Ring NoteEvent) → Monitor ring → Monitor (discard fuel ring)
unfolding discard
discard-Monitor zero ring m = m
discard-Monitor (suc fuel) ring m =
    round (Spsc.pop no_event ring) (pop-Monitor ring m) (discard-Monitor fuel)
  where
    round :
        (x : Option NoteEvent × Ring NoteEvent)
        → Monitor x.1
        → ((r : Ring NoteEvent) → Monitor r → Monitor (discard fuel r))
        → let out : Ring NoteEvent = elim x.0 [ none ↦ x.1 | some event ↦ discard fuel x.1 ] in
          Monitor out
    round (none, r) m' ih = m'
    round (some event, r) m' ih = ih r m'

deliver-Sorted :
    (D : Double) (room : ℕ) (session : Option PeerRuntime) (now : ℤ) (s : EventScheduler)
    → Sorted s.heap
    → Sorted (deliver room session now s).1.heap
unfolding deliver
deliver-Sorted D zero session now s v = v
deliver-Sorted D (suc room) session now s v =
    round (pop_ready s now) (call-Sorted D s (Queue.pop now) v) (deliver-Sorted D room session now)
  where
    round :
        (x : Option HeapEntry × EventScheduler)
        → Sorted x.1.heap
        → ((t : EventScheduler) → Sorted t.heap → Sorted (deliver room session now t).1.heap)
        → let out : List Note × EventScheduler = elim x.0 [
          | none ↦ ([], x.1)
          | some delivery ↦
              (let (notes, t) = deliver room session now x.1 in
                (delivered session delivery ∷ notes, t))
        ] in
          Sorted out.1.heap
    round (none, t) w ih = w
    round (some delivery, t) w ih = ih t w

-- A call of the owner: a block is serviced for some session, or for none.
pub data Call (D : Double) : Type 0 where
  prepared : D.carrier → ℤ → Call D
  played : NoteEvent → Call D
  panicked : Call D
  serviced : Option PeerRuntime → ℤ → ℤ → ℕ → Call D

module _ (D : Double) where
  emit-IsSound :
      (s : AudioRuntime D) (session : Option PeerRuntime) (silences : List (Option ℕ))
      (panic : Bool) (now : ℤ) (capacity : ℕ)
      → IsSound D s
      → IsSound D (emit D s session silences panic now capacity).1
  unfolding emit closed
  emit-IsSound s session silences panic now capacity i = record {
    queue = deliver-Sorted D _ session now s.scheduler i.queue;
    monitor = i.monitor;
  }

  panic_or_not-IsSound :
      (now : ℤ) (capacity : ℕ) (s : AudioRuntime D) (session : Option PeerRuntime)
      (silences : List (Option ℕ))
      → IsSound D s
      → IsSound D (panic_or_not D now capacity (s, session, silences)).1
  unfolding panic_or_not panic_flushed flush_all
  panic_or_not-IsSound now capacity s session silences i = elim (Bool-cases s.panic_requested) [
    | inl panic ↦ rw panic (
        emit-IsSound _ session (silence_from 8 0 session) true now capacity
          (record { queue = tt; monitor = discard-Monitor 129 s.local_monitor i.monitor }))
    | inr calm ↦ rw calm (
        emit-IsSound (record s { panic_requested = false }) session silences false now capacity
          (record { queue = i.queue; monitor = i.monitor }))
  ]

  service-IsSound :
      (s : AudioRuntime D) (session : Option PeerRuntime) (samples steady : ℤ) (capacity : ℕ)
      → IsSound D s
      → IsSound D (service D s session samples steady capacity).1
  unfolding service
  service-IsSound s session samples steady capacity i =
      let now = quot steady 1000 in
      let clocked : AudioRuntime D = record s { clock = update D s.clock samples steady } in
      let drained = drain_local D 32 now clocked in
      let (_, m, q) = drain_local-Works D 32 now clocked in
      let (_, m', q') = visit_slots-Works D drained session now in
      panic_or_not-IsSound now capacity (visit_slots D drained session now).0
        (visit_slots D drained session now).1 (visit_slots D drained session now).2
        (record { queue = q' (q i.queue); monitor = m' (m i.monitor) })

  abbrev pub call : AudioRuntime D → Call D → AudioRuntime D
  call s (prepared rate frames) = prepare D s rate frames
  call s (played event) = (submit_local_note D s event).1
  call s panicked = request_panic D s
  call s (serviced session samples steady capacity) =
      (service D s session samples steady capacity).1

  abbrev pub run : AudioRuntime D → List (Call D) → AudioRuntime D
  run s [] = s
  run s (c ∷ cs) = run (call s c) cs

  monitored-IsSound :
      (s : AudioRuntime D) (x : Bool × Ring NoteEvent)
      → Monitor x.1
      → IsSound D s
      → IsSound D (monitored D s x).1
  unfolding monitored
  monitored-IsSound s (true, ring) m i = record { queue = i.queue; monitor = m }
  monitored-IsSound s (false, ring) m i = record { queue = i.queue; monitor = i.monitor }

  call-IsSound : (s : AudioRuntime D) (c : Call D) → IsSound D s → IsSound D (call s c)
  unfolding prepare submit_local_note request_panic
  call-IsSound s (prepared rate frames) i =
      elim (Bool-cases (D.less (D.decimal 0 0) rate && ltb_ℤ (pos 0) frames)) [
        | inl usable ↦ rw usable (record {
          queue = call-Sorted D s.scheduler (block_period _) i.queue;
          monitor = i.monitor;
        })
        | inr unusable ↦ rw unusable (record { queue = i.queue; monitor = i.monitor })
      ]
  call-IsSound s (played event) i =
      monitored-IsSound s (push s.local_monitor event)
        (push-Monitor s.local_monitor event i.monitor) i
  call-IsSound s panicked i = record { queue = i.queue; monitor = i.monitor }
  call-IsSound s (serviced session samples steady capacity) i =
      service-IsSound s session samples steady capacity i

  run_from : (s : AudioRuntime D) (cs : List (Call D)) → IsSound D s → IsSound D (run s cs)
  run_from s [] i = i
  run_from s (c ∷ cs) i = run_from (call s c) cs (call-IsSound s c i)

  -- Through all calls, with any sessions coming and going, the scheduler's queue stays in the order of
  -- the deadlines and, where these agree, of the entries' numbers, and the local monitor a ring of 128
  -- events.
  pub run-InOrder :
      (cs : List (Call D))
      → let s = run (initial D) cs in InOrder s.scheduler.heap × Monitor s.local_monitor
  unfolding Spsc.empty
  run-InOrder cs =
      let i = run_from (initial D) cs (record {
        queue = tt;
        monitor = record { valid = empty-IsValid no_event 128; capacity = refl };
      }) in
      (Sorted-InOrder (run (initial D) cs).scheduler.heap i.queue, i.monitor)
