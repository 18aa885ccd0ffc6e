-- ===== src/Engine/AudioRuntime/Blocks.antt =====
-- What a block hands out, whatever it has to do: how many notes, and the queue that stays.
use jam_n.Prelude.{
  ℕ, zero, suc, ◌+◌, ◌-◌, ◌≤◌, Bool, true, false, List, [], ◌∷◌, ◌++◌, Option, none, some,
  Bool-cases, inl, inr, length, length-append, min, arith,
}
use jam_n.Prelude.Int.{ℤ}
use jam_n.Core.Double.{Double}
use jam_n.Core.Quotient.{quot}
use jam_n.Engine.Scheduler.{EventScheduler, HeapEntry, pop_ready}
use jam_n.Engine.Runtime.{PeerRuntime}
use jam_n.Engine.AudioRuntime.{Note, AudioRuntime}
use jam_n.Engine.AudioRuntime.Intake.{visit_slots}
use jam_n.Engine.AudioRuntime.Output.{emit_silences, emit_local_silence, deliver, delivered}
use jam_n.Engine.AudioRuntime.Service.{emit, panic_or_not, service}

length-emit_silences :
    (room slot : ℕ) (os : List (Option ℕ)) → length (emit_silences room slot os) ≤ room
unfolding emit_silences
length-emit_silences room slot [] = omega arith
length-emit_silences zero slot (o ∷ os) = omega arith
length-emit_silences (suc room) slot (none ∷ os) = length-emit_silences (suc room) (slot + 1) os
length-emit_silences (suc room) slot (some peer ∷ os) =
    omega (arith, length-emit_silences room (slot + 1) os)

length-emit_local_silence :
    (room : ℕ) (panic : Bool) → length (emit_local_silence room panic) ≤ room
unfolding emit_local_silence
length-emit_local_silence zero panic = omega arith
length-emit_local_silence (suc room) false = omega arith
length-emit_local_silence (suc room) true = omega arith

length-deliver :
    (room : ℕ) (session : Option PeerRuntime) (now : ℤ) (s : EventScheduler)
    → length (deliver room session now s).0 ≤ room
unfolding deliver
length-deliver zero session now s = omega arith
length-deliver (suc room) session now s = round (pop_ready s now) (length-deliver room session now)
  where
    round :
        (x : Option HeapEntry × EventScheduler)
        → ((s' : EventScheduler) → length (deliver room session now s').0 ≤ room)
        → let out : List Note × EventScheduler = elim x.0 [
          | none ↦ ([], x.1)
          | some delivery ↦
              (let (notes, s'') = deliver room session now x.1 in
                (delivered session delivery ∷ notes, s''))
        ] in
          length out.0 ≤ suc room
    round (none, s') ih = omega arith
    round (some delivery, s') ih = omega (arith, ih s')

module _ (D : Double) where
  emit-bounded :
      (s : AudioRuntime D) (session : Option PeerRuntime) (silences : List (Option ℕ))
      (panic : Bool) (now : ℤ) (capacity : ℕ)
      → length (emit D s session silences panic now capacity).0 ≤ min capacity 64
  unfolding emit
  emit-bounded s session silences panic now capacity =
      let limit = min capacity 64 in
      let silenced = emit_silences limit 0 silences in
      let local_one = emit_local_silence (limit - length silenced) panic in
      let played = (deliver (limit - length (silenced ++ local_one)) session now s.scheduler).0 in
      omega (
        arith,
        length-append (silenced ++ local_one) played,
        length-append silenced local_one,
        length-emit_silences limit 0 silences,
        length-emit_local_silence (limit - length silenced) panic,
        length-deliver (limit - length (silenced ++ local_one)) session now s.scheduler,
      )

  -- A block hands out no more notes than the caller has room for, and no more than 64.
  pub service-bounded :
      (s : AudioRuntime D) (session : Option PeerRuntime) (samples steady : ℤ) (capacity : ℕ)
      → length (service D s session samples steady capacity).0 ≤ min capacity 64
  unfolding service panic_or_not
  service-bounded s session samples steady capacity =
      bounded (visit_slots D _ session (quot steady 1000))
    where
      bounded :
          (x : AudioRuntime D × Option PeerRuntime × List (Option ℕ))
          → length (panic_or_not D (quot steady 1000) capacity x).0 ≤ min capacity 64
      bounded (t, session', silences) = elim (Bool-cases t.panic_requested) [
        | inl panics ↦ rw panics (emit-bounded _ session' _ true (quot steady 1000) capacity)
        | inr calm ↦ rw calm (emit-bounded _ session' silences false (quot steady 1000) capacity)
      ]
