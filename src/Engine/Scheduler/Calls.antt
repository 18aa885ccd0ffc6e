-- ===== src/Engine/Scheduler/Calls.antt =====
-- The calls of the scheduler's owner, and what the queue keeps through them.
use jam_n.Prelude.{ℕ, ◌+◌, ◌*◌, ◌≡◌, List, [], ◌∷◌, Option, length, arith}
use mathlib.Core.Path.{subst}
use jam_n.Prelude.Int.{ℤ}
use jam_n.Core.Double.{Double}
use jam_n.Proto.Note.{NoteEvent}
use jam_n.Engine.Scheduler.{
  EventScheduler, HeapEntry, Resolver, schedule_remote_event, schedule_local_event, set_resolver,
  set_local_rev, set_block_period_us, flush_peer, flush_all, pop_ready,
}
use jam_n.Engine.Scheduler.Keeps.{
  Keeps, Holds, Holds-more, push_heap-Holds, peer_slot-Holds, set_resolver-Holds,
  schedule_remote_event-Holds, pop_ready-Holds,
}
use jam_n.Engine.Scheduler.Order.{Sorted, AnySorted, AnySorted-Keeps}

-- The calls of the scheduler's owner.
pub data Call : Type 0 where
  block_period : ℤ → Call
  resolver : Option Resolver → Call
  rev : ℕ → ℕ → Call
  local : NoteEvent → ℤ → Call
  remote : ℕ → NoteEvent → ℤ → ℤ → Call
  pop : ℤ → Call
  flush_one : ℕ → Call
  flush_every : Call

module _ (D : Double) where
  abbrev pub call : EventScheduler → Call → EventScheduler
  call s (block_period t) = set_block_period_us s t
  call s (resolver r) = (set_resolver s r).1
  call s (rev peer n) = set_local_rev s peer n
  call s (local event now) = (schedule_local_event s event now).1
  call s (remote peer event time now) = (schedule_remote_event D s peer event time now).1
  call s (pop now) = (pop_ready s now).1
  call s (flush_one peer) = (flush_peer s peer).1
  call s flush_every = (flush_all s).1

  abbrev pub run : EventScheduler → List Call → EventScheduler
  run s [] = s
  run s (c ∷ cs) = run (call s c) cs

module _ (P : ℕ → ℕ → List HeapEntry → Type 0) (keeps : Keeps P) (D : Double) where
  one_more : (k : ℕ) (s : EventScheduler) → Holds P keeps (k + 1) s → Holds P keeps (k + 32) s
  one_more k s v =
      subst (λ j. Holds P keeps j s) (let e : k + 1 + 31 ≡ k + 32 = omega arith in e)
        (Holds-more P keeps (k + 1) 31 s v)

  -- No call pushes more than 32 events.
  call-Holds :
      (k : ℕ) (s : EventScheduler) (c : Call)
      → Holds P keeps k s
      → Holds P keeps (k + 32) (call D s c)
  unfolding set_block_period_us set_local_rev schedule_local_event flush_peer flush_all
  call-Holds k s (block_period t) v = Holds-more P keeps k 32 s v
  call-Holds k s (resolver r) v =
      Holds-more P keeps k 32 (set_resolver s r).1 (set_resolver-Holds P keeps k s r v)
  call-Holds k s (rev peer n) v = keeps.more k 32 _ _ (peer_slot-Holds P keeps k s peer v)
  call-Holds k s (local event now) v =
      one_more k (schedule_local_event s event now).1
        (push_heap-Holds P keeps k s now 0xFFFF event v)
  call-Holds k s (remote peer event time now) v =
      one_more k (schedule_remote_event D s peer event time now).1
        (schedule_remote_event-Holds P keeps D k s peer event time now v)
  call-Holds k s (pop now) v = pop_ready-Holds P keeps k s now v
  call-Holds k s (flush_one peer) v =
      keeps.more k 32 s.next_sequence _ (keeps.kept k s.next_sequence peer s.heap v)
  call-Holds k s flush_every v =
      keeps.more k 32 s.next_sequence [] (keeps.none_left k s.next_sequence s.heap v)

  pub run-Holds :
      (k : ℕ) (s : EventScheduler) (cs : List Call)
      → Holds P keeps k s
      → Holds P keeps (k + 32 * length cs) (run D s cs)
  run-Holds k s [] v = keeps.more k (32 * 0) s.next_sequence s.heap v
  run-Holds k s (c ∷ cs) v =
      subst (λ j. Holds P keeps j (run D s (c ∷ cs)))
        (let e : k + 32 + 32 * length cs ≡ k + 32 * length (c ∷ cs) = omega arith in e)
        (run-Holds (k + 32) (call D s c) cs (call-Holds k s c v))

-- The order of the queue is kept.
pub call-Sorted :
    (D : Double) (s : EventScheduler) (c : Call) → Sorted s.heap → Sorted (call D s c).heap
call-Sorted D s c v = call-Holds AnySorted AnySorted-Keeps D 0 s c v
