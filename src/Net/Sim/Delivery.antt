-- ===== src/Net/Sim/Delivery.antt =====
-- What arrives when the virtual time moves on, and in which order.
use mathlib.Core.List.{Perm, perm_middle}
use mathlib.Core.List.Perm
use jam_n.Prelude.{
  ℕ, ◌≤◌, ◌≡◌, refl, ◌⊎◌, true, false, List, [], ◌∷◌, ◌++◌, Bool-cases, inl, inr, arith,
}
use jam_n.Prelude.Int.{ℤ, leb_ℤ, ◌<ℤ◌}
use jam_n.Core.Double.{Double}
use jam_n.Net.Sim.{
  ready_of, InFlightPacket, before, insert, sort, due, waiting, Random, SimNetwork, clock_advance,
  advance,
}
use jam_n.Net.Sim.Handout.{reports, ready_of-reports}

-- None of these comes before `p`.
abbrev First : InFlightPacket → List InFlightPacket → Type 0
First p [] = Unit {0}
First p (q ∷ qs) = (before q p ≡ false) × First p qs

abbrev Ordered : List InFlightPacket → Type 0
Ordered [] = Unit {0}
Ordered (p ∷ ps) = First p ps × Ordered ps

abbrev pub AllDue : ℤ → List InFlightPacket → Type 0
AllDue now [] = Unit {0}
AllDue now (p ∷ ps) = (leb_ℤ p.arrival_time now ≡ true) × AllDue now ps

abbrev pub NoneDue : ℤ → List InFlightPacket → Type 0
NoneDue now [] = Unit {0}
NoneDue now (p ∷ ps) = (leb_ℤ p.arrival_time now ≡ false) × NoneDue now ps

before_asym : (p q : InFlightPacket) → before q p ≡ true → before p q ≡ false
unfolding before
before_asym p q h = ground arith

before_through :
    (p q r : InFlightPacket) → before q p ≡ false → before r q ≡ false → before r p ≡ false
unfolding before
before_through p q r h k = ground arith

First-through :
    (p q : InFlightPacket) (rs : List InFlightPacket) → before q p ≡ false → First q rs → First p rs
First-through p q [] h f = tt
First-through p q (r ∷ rs) h (k, f) = (before_through p q r h k, First-through p q rs h f)

insert_front :
    (p q : InFlightPacket) (qs : List InFlightPacket)
    → before q p ≡ false
    → insert p (q ∷ qs) ≡ p ∷ q ∷ qs
unfolding insert
insert_front p q qs h = rw h refl

insert_behind :
    (p q : InFlightPacket) (qs : List InFlightPacket)
    → before q p ≡ true
    → insert p (q ∷ qs) ≡ q ∷ insert p qs
unfolding insert
insert_behind p q qs h = rw h refl

insert-First :
    (p q : InFlightPacket) (qs : List InFlightPacket)
    → before p q ≡ false
    → First q qs
    → First q (insert p qs)
unfolding insert
insert-First p q [] h f = (h, tt)
insert-First p q (r ∷ rs) h (k, f) = elim (Bool-cases (before r p)) [
  | inl after ↦ rw after (k, insert-First p q rs h f)
  | inr here ↦ rw here (h, (k, f))
]

insert-Ordered :
    (p : InFlightPacket) (qs : List InFlightPacket) → Ordered qs → Ordered (insert p qs)
unfolding insert
insert-Ordered p [] o = (tt, tt)
insert-Ordered p (q ∷ qs) (f, o) = elim (Bool-cases (before q p)) [
  | inl after ↦ rw after (insert-First p q qs (before_asym p q after) f, insert-Ordered p qs o)
  | inr here ↦ rw here ((here, First-through p q qs here f), (f, o))
]

insert-perm : (p : InFlightPacket) (qs : List InFlightPacket) → Perm (insert p qs) (p ∷ qs)
unfolding insert
insert-perm p [] = Perm.refl (p ∷ [])
insert-perm p (q ∷ qs) = elim (Bool-cases (before q p)) [
  | inl after ↦ rw after (Perm.trans (Perm.cons q (insert-perm p qs)) (Perm.swap p q qs))
  | inr here ↦ rw here (Perm.refl (p ∷ q ∷ qs))
]

sort-Ordered : (ps : List InFlightPacket) → Ordered (sort ps)
unfolding sort
sort-Ordered [] = tt
sort-Ordered (p ∷ ps) = insert-Ordered p (sort ps) (sort-Ordered ps)

sort-perm : (ps : List InFlightPacket) → Perm (sort ps) ps
unfolding sort
sort-perm [] = Perm.refl []
sort-perm (p ∷ ps) = Perm.trans (insert-perm p (sort ps)) (Perm.cons p (sort-perm ps))

-- Every packet either is due or waits.
parted : (now : ℤ) (ps : List InFlightPacket) → Perm (due now ps ++ waiting now ps) ps
unfolding due waiting
parted now [] = Perm.refl []
parted now (p ∷ ps) = elim (Bool-cases (leb_ℤ p.arrival_time now)) [
  | inl here ↦ rw here (Perm.cons p (parted now ps))
  | inr later ↦
      rw later
        (Perm.trans (perm_middle (due now ps) (waiting now ps)) (Perm.cons p (parted now ps)))
]

waiting-NoneDue : (now : ℤ) (ps : List InFlightPacket) → NoneDue now (waiting now ps)
unfolding waiting
waiting-NoneDue now [] = tt
waiting-NoneDue now (p ∷ ps) = elim (Bool-cases (leb_ℤ p.arrival_time now)) [
  | inl here ↦ rw here (waiting-NoneDue now ps)
  | inr later ↦ rw later (later, waiting-NoneDue now ps)
]

due-AllDue : (now : ℤ) (ps : List InFlightPacket) → AllDue now (due now ps)
unfolding due
due-AllDue now [] = tt
due-AllDue now (p ∷ ps) = elim (Bool-cases (leb_ℤ p.arrival_time now)) [
  | inl here ↦ rw here (here, due-AllDue now ps)
  | inr later ↦ rw later (due-AllDue now ps)
]

insert-AllDue :
    (now : ℤ) (p : InFlightPacket) (qs : List InFlightPacket)
    → leb_ℤ p.arrival_time now ≡ true
    → AllDue now qs
    → AllDue now (insert p qs)
unfolding insert
insert-AllDue now p [] h a = (h, tt)
insert-AllDue now p (q ∷ qs) h (k, a) = elim (Bool-cases (before q p)) [
  | inl after ↦ rw after (k, insert-AllDue now p qs h a)
  | inr here ↦ rw here (h, (k, a))
]

sort-AllDue : (now : ℤ) (ps : List InFlightPacket) → AllDue now ps → AllDue now (sort ps)
unfolding sort
sort-AllDue now [] a = tt
sort-AllDue now (p ∷ ps) (h, a) = insert-AllDue now p (sort ps) h (sort-AllDue now ps a)

-- Each of these arrives later than `p`, or at the same time with no smaller number.
abbrev pub Ahead : InFlightPacket → List InFlightPacket → Type 0
Ahead p [] = Unit {0}
Ahead p (q ∷ qs) =
    ((p.arrival_time <ℤ q.arrival_time)
      ⊎ ((p.arrival_time ≡ q.arrival_time) × (p.send_seq ≤ q.send_seq)))
    × Ahead p qs

abbrev pub InTurn : List InFlightPacket → Type 0
InTurn [] = Unit {0}
InTurn (p ∷ ps) = Ahead p ps × InTurn ps

not_before :
    (p q : InFlightPacket)
    → before q p ≡ false
    → (p.arrival_time <ℤ q.arrival_time)
      ⊎ ((p.arrival_time ≡ q.arrival_time) × (p.send_seq ≤ q.send_seq))
unfolding before
not_before p q h = ground arith

First-Ahead : (p : InFlightPacket) (qs : List InFlightPacket) → First p qs → Ahead p qs
First-Ahead p [] f = tt
First-Ahead p (q ∷ qs) (h, f) = (not_before p q h, First-Ahead p qs f)

Ordered-InTurn : (ps : List InFlightPacket) → Ordered ps → InTurn ps
Ordered-InTurn [] o = tt
Ordered-InTurn (p ∷ ps) (f, o) = (First-Ahead p ps f, Ordered-InTurn ps o)

-- When the time moves on, the packets in flight part into those that arrive and those that wait: the
-- first are all due, and of the others none is. Those that arrive are taken by their time of arrival and,
-- where that is the same, by their numbers; behind what waited for it, every node gets those of them
-- that are for it and whose link stands, in that order.
pub advance_lem :
    {D : Double} (R : Random D) (s : SimNetwork R) (delta : ℤ)
    → let t = advance R s delta in
      (arrived : List InFlightPacket) × Perm (arrived ++ t.in_flight) s.in_flight
      × InTurn arrived
      × AllDue t.now arrived
      × NoneDue t.now t.in_flight
      × ((id : ℕ) → ready_of id t.nodes ≡ reports s.nodes s.severed_links id arrived)
unfolding advance
advance_lem R s delta =
    let now = clock_advance s.now delta in
    let here = due now s.in_flight in
    (
      sort here,
      Perm.trans (Perm.append_right (waiting now s.in_flight) (sort-perm here))
          (parted now s.in_flight),
      Ordered-InTurn (sort here) (sort-Ordered here),
      sort-AllDue now here (due-AllDue now s.in_flight),
      waiting-NoneDue now s.in_flight,
      λ id. ready_of-reports s.severed_links id (sort here) s.nodes,
    )
