-- ===== src/Engine/Scheduler/Keeps.antt =====
-- What the queue keeps through the scheduler's operations: a property that each change of the queue
-- keeps, with a bound on the events pushed so far.
use jam_n.Prelude.{
  ℕ, zero, suc, ◌+◌, ◌-◌, ◌%◌, ◌^◌, ◌≡◌, Bool, false, not, ◌&&◌, List, [], ◌∷◌, inl, inr,
  Bool-cases, ltb, leb, Option, none, some, length, arith, get_or, set,
}
use mathlib.Core.Path.{subst}
use jam_n.Prelude.Int.{ℤ, pos, ◌-ℤ◌, ltb_ℤ, leb_ℤ}
use jam_n.Core.Double.{Double}
use jam_n.Proto.Note.{NoteEvent}
use jam_n.Engine.Scheduler.{
  EventScheduler, HeapEntry, HeldEntry, Resolver, insert, push_heap, claim, peer_slot, find_peer,
  slot_at, max_peers, free_held, release_held, release_one, release_from, release_due_held_events,
  pop_heap, pop_entry, pop_ready, hold, free_slot, schedule_at, heard, admit, resolve_and_push,
  protected_from_drop, schedule_remote_event, set_resolver, without,
}

-- The property of the number of pushes, the next entry's number, and the queue.
pub record Keeps (P : ℕ → ℕ → List HeapEntry → Type 0) : Type 0 where
  pub push :
      (k n : ℕ) (es : List HeapEntry) (deadline : ℤ) (peer : ℕ) (event : NoteEvent)
      → P k n es
      → P
          (k + 1)
          ((n + 1) % 2 ^ 64)
          (insert (record { deadline_us = deadline; sequence = n; peer = peer; event = event }) es)
  pub more : (k j n : ℕ) (es : List HeapEntry) → P k n es → P (k + j) n es
  pub rest : (k n : ℕ) (e : HeapEntry) (es : List HeapEntry) → P k n (e ∷ es) → P k n es
  pub kept : (k n peer : ℕ) (es : List HeapEntry) → P k n es → P k n (without peer es)
  pub none_left : (k n : ℕ) (es : List HeapEntry) → P k n es → P k n []

module _ (P : ℕ → ℕ → List HeapEntry → Type 0) (keeps : Keeps P) where
  abbrev pub Holds : ℕ → EventScheduler → Type 0
  Holds k s = P k s.next_sequence s.heap

  pub Holds-more : (k j : ℕ) (s : EventScheduler) → Holds k s → Holds (k + j) s
  Holds-more k j s v = keeps.more k j s.next_sequence s.heap v

  Holds-at : (k j : ℕ) (s : EventScheduler) → k ≡ j → Holds k s → Holds j s
  Holds-at k j s e v = subst (λ i. Holds i s) e v

  pub push_heap-Holds :
      (k : ℕ) (s : EventScheduler) (deadline : ℤ) (peer : ℕ) (event : NoteEvent)
      → Holds k s
      → Holds (k + 1) (push_heap s deadline peer event).1
  unfolding push_heap
  push_heap-Holds k s deadline peer event v = elim (Bool-cases (leb 256 (length s.heap))) [
    | inl full ↦ rw full (Holds-more k 1 s v)
    | inr room ↦ rw room (keeps.push k s.next_sequence s.heap deadline peer event v)
  ]

  claim-Holds :
      (k : ℕ) (s : EventScheduler) (peer : ℕ) (o : Option ℕ)
      → Holds k s
      → Holds k (claim s peer o).1
  unfolding claim
  claim-Holds k s peer (some i) v = v
  claim-Holds k s peer none v = elim (Bool-cases (ltb (length s.peers) max_peers)) [
    | inl room ↦ rw room v
    | inr full ↦ rw full v
  ]

  pub peer_slot-Holds :
      (k : ℕ) (s : EventScheduler) (peer : ℕ) → Holds k s → Holds k (peer_slot s peer).1
  unfolding peer_slot
  peer_slot-Holds k s peer v = claim-Holds k s peer (find_peer peer s.peers) v

  release_held-Holds :
      (k : ℕ) (now : ℤ) (j : ℕ) (h : HeldEntry) (i : ℕ) (s : EventScheduler)
      → Holds k s
      → Holds (k + 1) (release_held now j h (i, s))
  unfolding release_held
  release_held-Holds k now j h i s v =
      elim (Bool-cases (
        not (leb h.event.state_rev (slot_at s h.peer i).local_rev)
        && not (leb_ℤ h.hold_until_us now))) [
          | inl waits ↦ rw waits (Holds-more k 1 s v)
          | inr plays ↦ rw plays (
              push_heap-Holds k
                (record s {
                  held = set s.held j (record h { in_use = false });
                  held_count = s.held_count - 1;
                })
                now h.peer h.event v)
        ]

  release_one-Holds :
      (k : ℕ) (now : ℤ) (j : ℕ) (s : EventScheduler)
      → Holds k s
      → Holds (k + 1) (release_one now j s)
  unfolding release_one
  release_one-Holds k now j s v = elim (Bool-cases (not h.in_use)) [
    | inl free ↦ rw free (Holds-more k 1 s v)
    | inr used ↦ rw used (
        release_held-Holds k now j h ((peer_slot s h.peer).0) ((peer_slot s h.peer).1)
          (peer_slot-Holds k s h.peer v))
  ]
    where
      h : HeldEntry
      h = get_or s.held j free_held

  release_from-Holds :
      (k : ℕ) (now : ℤ) (n j : ℕ) (s : EventScheduler)
      → Holds k s
      → Holds (k + n) (release_from now n j s)
  unfolding release_from
  release_from-Holds k now zero j s v = Holds-at k (k + 0) s (omega arith) v
  release_from-Holds k now (suc n) j s v =
      let t = release_one now j s in
      Holds-at (k + 1 + n) (k + suc n) (release_from now n (j + 1) t) (omega arith)
        (release_from-Holds (k + 1) now n (j + 1) t (release_one-Holds k now j s v))

  pub released-Holds :
      (k : ℕ) (s : EventScheduler) (now : ℤ)
      → Holds k s
      → Holds (k + 32) (release_due_held_events s now)
  unfolding release_due_held_events
  released-Holds k s now v = release_from-Holds k now 32 0 s v

  pop_entry-Holds :
      (k : ℕ) (now : ℤ) (es : List HeapEntry) (s : EventScheduler)
      → P k s.next_sequence es
      → Holds k s
      → Holds k (pop_entry es s now).1
  unfolding pop_entry
  pop_entry-Holds k now [] s v w = w
  pop_entry-Holds k now (e ∷ es) s v w = elim (Bool-cases (ltb_ℤ now e.deadline_us)) [
    | inl early ↦ rw early w
    | inr due ↦ rw due (keeps.rest k s.next_sequence e es v)
  ]

  pub pop_ready-Holds :
      (k : ℕ) (s : EventScheduler) (now : ℤ) → Holds k s → Holds (k + 32) (pop_ready s now).1
  unfolding pop_ready pop_heap
  pop_ready-Holds k s now v =
      let r = release_due_held_events s now in
      let w = released-Holds k s now v in pop_entry-Holds (k + 32) now r.heap r w w

  admit-Holds :
      (k : ℕ) (s : EventScheduler) (peer : ℕ) (event : NoteEvent) (deadline now : ℤ)
      → Holds k s
      → Holds (k + 1) (admit s peer event deadline now).1
  unfolding admit
  admit-Holds k s peer event deadline now v =
      elim (Bool-cases (leb_ℤ (pos 5000) (now -ℤ deadline))) [
        | inl very ↦ elim (Bool-cases (not (protected_from_drop event))) [
          | inl drop ↦ rw (very, drop) (Holds-more k 1 s v)
          | inr keep ↦ rw (very, keep) (push_heap-Holds k s now peer event v)
        ]
        | inr fair ↦ elim (Bool-cases (ltb_ℤ (pos 0) (now -ℤ deadline))) [
          | inl late ↦ rw (fair, late) (push_heap-Holds k s now peer event v)
          | inr early ↦ rw (fair, early) (push_heap-Holds k s deadline peer event v)
        ]
      ]

  hold-Holds :
      (k : ℕ) (s : EventScheduler) (h : HeldEntry) (r : Bool × EventScheduler) (o : Option ℕ)
      → Holds k s
      → Holds k r.1
      → Holds k (hold s h r o).1
  unfolding hold
  hold-Holds k s h r none v w = w
  hold-Holds k s h r (some j) v w = v

  pub set_resolver-Holds :
      (k : ℕ) (s : EventScheduler) (r : Option Resolver) → Holds k s → Holds k (set_resolver s r).1
  unfolding set_resolver
  set_resolver-Holds k s none v = v
  set_resolver-Holds k s (some r) v = elim (Bool-cases r.implemented) [
    | inl installs ↦ rw installs v
    | inr refuses ↦ rw refuses v
  ]

  module _ (D : Double) where
    resolve_and_push-Holds :
        (k : ℕ) (s : EventScheduler) (peer : ℕ) (event : NoteEvent) (time now : ℤ)
        → Holds k s
        → Holds (k + 1) (resolve_and_push D s peer event time now).1
    unfolding resolve_and_push heard
    resolve_and_push-Holds k s peer event time now v =
        let (deadline, s') = heard D s peer time now in
        admit-Holds k s' peer event deadline now (peer_slot-Holds k s peer v)

    schedule_at-Holds :
        (k i : ℕ) (s : EventScheduler) (peer : ℕ) (event : NoteEvent) (time now : ℤ)
        → Holds k s
        → Holds (k + 1) (schedule_at D (i, s) peer event time now).1
    unfolding schedule_at
    schedule_at-Holds k i s peer event time now v =
        let w = resolve_and_push-Holds k s peer event time now v in
        elim (Bool-cases (ltb (slot_at s peer i).local_rev event.state_rev)) [
          | inl ahead ↦ rw ahead (
              hold-Holds (k + 1) s _ (resolve_and_push D s peer event time now) (free_slot s.held)
                (Holds-more k 1 s v) w)
          | inr current ↦ rw current w
        ]

    pub schedule_remote_event-Holds :
        (k : ℕ) (s : EventScheduler) (peer : ℕ) (event : NoteEvent) (time now : ℤ)
        → Holds k s
        → Holds (k + 1) (schedule_remote_event D s peer event time now).1
    unfolding schedule_remote_event
    schedule_remote_event-Holds k s peer event time now v =
        let (i, s') = peer_slot s peer in
        schedule_at-Holds k i s' peer event time now (peer_slot-Holds k s peer v)
