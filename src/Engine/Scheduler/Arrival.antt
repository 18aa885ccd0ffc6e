-- ===== src/Engine/Scheduler/Arrival.antt =====
-- The order of the queue: by the deadlines and, where these agree, by arrival.
use jam_n.Prelude.{
  ℕ, ◌+◌, ◌%◌, ◌^◌, ◌≤◌, ◌<◌, ◌≡◌, ◌⊎◌, true, false, List, [], ◌∷◌, inl, inr, Bool-cases, length,
  ◌==◌, arith,
}
use jam_n.Prelude.Int.{ℤ, ◌<ℤ◌}
use jam_n.Core.Double.{Double}
use jam_n.Proto.Note.{NoteEvent}
use jam_n.Engine.Scheduler.{HeapEntry, heap_compare, insert, without, initial}
use jam_n.Engine.Scheduler.Keeps.{Keeps}
use jam_n.Engine.Scheduler.Order.{First, Sorted}
use jam_n.Engine.Scheduler.Calls.{Call, run, run-Holds}

-- An earlier deadline, or the same and a smaller number.
abbrev pub Before : HeapEntry → HeapEntry → Type 0
Before a b =
    (a.deadline_us <ℤ b.deadline_us) ⊎ ((a.deadline_us ≡ b.deadline_us) × (a.sequence < b.sequence))

abbrev pub BeforeAll : HeapEntry → List HeapEntry → Type 0
BeforeAll e [] = Unit {0}
BeforeAll e (x ∷ xs) = Before e x × BeforeAll e xs

abbrev pub InTurn : List HeapEntry → Type 0
InTurn [] = Unit {0}
InTurn (e ∷ es) = BeforeAll e es × InTurn es

-- The numbers of the entries are below `n`.
abbrev pub Numbered : ℕ → List HeapEntry → Type 0
Numbered n [] = Unit {0}
Numbered n (e ∷ es) = (e.sequence < n) × Numbered n es

Before-trans : (a b c : HeapEntry) → Before a b → Before b c → Before a c
Before-trans a b c h k = ground arith

after-Before : (x e : HeapEntry) → heap_compare x e ≡ true → Before e x
unfolding heap_compare
after-Before x e h = ground arith

-- A later arrival that does not come out after an entry has an earlier deadline.
newer-Before : (x e : HeapEntry) → heap_compare x e ≡ false → e.sequence < x.sequence → Before x e
unfolding heap_compare
newer-Before x e h k = ground arith

BeforeAll-trans :
    (a b : HeapEntry) (es : List HeapEntry) → Before a b → BeforeAll b es → BeforeAll a es
BeforeAll-trans a b [] h f = tt
BeforeAll-trans a b (e ∷ es) h (k, f) = (Before-trans a b e h k, BeforeAll-trans a b es h f)

insert-BeforeAll :
    (a x : HeapEntry) (es : List HeapEntry)
    → Before a x
    → BeforeAll a es
    → BeforeAll a (insert x es)
unfolding insert
insert-BeforeAll a x [] h f = (h, tt)
insert-BeforeAll a x (e ∷ es) h (k, f) = elim (Bool-cases (heap_compare x e)) [
  | inl after ↦ rw after (k, insert-BeforeAll a x es h f)
  | inr before ↦ rw before (h, (k, f))
]

insert-InTurn :
    (x : HeapEntry) (es : List HeapEntry)
    → Numbered x.sequence es
    → InTurn es
    → InTurn (insert x es)
unfolding insert
insert-InTurn x [] n v = (tt, tt)
insert-InTurn x (e ∷ es) (k, n) (f, v) = elim (Bool-cases (heap_compare x e)) [
  | inl after ↦
      rw after (insert-BeforeAll e x es (after-Before x e after) f, insert-InTurn x es n v)
  | inr before ↦
      (let h = newer-Before x e before k in rw before ((h, BeforeAll-trans x e es h f), (f, v)))
]

Numbered-more : (m n : ℕ) (es : List HeapEntry) → m ≤ n → Numbered m es → Numbered n es
Numbered-more m n [] h f = tt
Numbered-more m n (e ∷ es) h (k, f) = (omega arith, Numbered-more m n es h f)

insert-Numbered :
    (n : ℕ) (x : HeapEntry) (es : List HeapEntry)
    → x.sequence < n
    → Numbered n es
    → Numbered n (insert x es)
unfolding insert
insert-Numbered n x [] h f = (h, tt)
insert-Numbered n x (e ∷ es) h (k, f) = elim (Bool-cases (heap_compare x e)) [
  | inl after ↦ rw after (k, insert-Numbered n x es h f)
  | inr before ↦ rw before (h, (k, f))
]

without-BeforeAll :
    (peer : ℕ) (x : HeapEntry) (es : List HeapEntry)
    → BeforeAll x es
    → BeforeAll x (without peer es)
unfolding without
without-BeforeAll peer x [] f = tt
without-BeforeAll peer x (e ∷ es) (k, f) = elim (Bool-cases (e.peer == peer)) [
  | inl skip ↦ rw skip (without-BeforeAll peer x es f)
  | inr keep ↦ rw keep (k, without-BeforeAll peer x es f)
]

without-InTurn : (peer : ℕ) (es : List HeapEntry) → InTurn es → InTurn (without peer es)
unfolding without
without-InTurn peer [] v = tt
without-InTurn peer (e ∷ es) (f, v) = elim (Bool-cases (e.peer == peer)) [
  | inl skip ↦ rw skip (without-InTurn peer es v)
  | inr keep ↦ rw keep (without-BeforeAll peer e es f, without-InTurn peer es v)
]

without-Numbered : (peer n : ℕ) (es : List HeapEntry) → Numbered n es → Numbered n (without peer es)
unfolding without
without-Numbered peer n [] f = tt
without-Numbered peer n (e ∷ es) (k, f) = elim (Bool-cases (e.peer == peer)) [
  | inl skip ↦ rw skip (without-Numbered peer n es f)
  | inr keep ↦ rw keep (k, without-Numbered peer n es f)
]

-- With fewer than 2^64 pushes no number comes twice.
abbrev Arrived : ℕ → ℕ → List HeapEntry → Type 0
Arrived k n es = k < 2 ^ 64 → (n ≤ k) × InTurn es × Numbered n es

push-Arrived :
    (k n : ℕ) (es : List HeapEntry) (deadline : ℤ) (peer : ℕ) (event : NoteEvent)
    → Arrived k n es
    → Arrived
        (k + 1)
        ((n + 1) % 2 ^ 64)
        (insert (record { deadline_us = deadline; sequence = n; peer = peer; event = event }) es)
push-Arrived k n es deadline peer event v small =
    let (few, turn, numbered) = v (omega arith) in
    let x : HeapEntry = record {
      deadline_us = deadline;
      sequence = n;
      peer = peer;
      event = event;
    } in
    let e : n + 1 ≡ (n + 1) % 2 ^ 64 = omega arith in
    (
      omega arith,
      insert-InTurn x es numbered turn,
      insert-Numbered ((n + 1) % 2 ^ 64) x es (omega arith)
          (Numbered-more n ((n + 1) % 2 ^ 64) es (omega arith) numbered),
    )

Arrived-Keeps : Keeps Arrived
Arrived-Keeps = record {
  push = push-Arrived;
  more = λ k j n es v small.
      let (few, turn, numbered) = v (omega arith) in (omega arith, turn, numbered);
  rest = λ k n e es v small. let (few, turn, numbered) = v small in (few, turn.1, numbered.1);
  kept = λ k n peer es v small.
      let (few, turn, numbered) = v small in
      (few, without-InTurn peer es turn, without-Numbered peer n es numbered);
  none_left = λ k n es v small. let (few, turn, numbered) = v small in (few, tt, tt);
}

-- After any calls, fewer than 2^59 of them, the queue is in the order of the deadlines and, where these
-- agree, of the entries' numbers, which are all below the number of the next entry: of two with one
-- deadline, the later arrival comes out later.
pub run-InTurn :
    (D : Double) (cs : List Call)
    → length cs < 2 ^ 59
    → let s = run D initial cs in InTurn s.heap × Numbered s.next_sequence s.heap
run-InTurn D cs few =
    let (bound, turn, numbered) =
      run-Holds Arrived Arrived-Keeps D 0 initial cs (λ small. (omega arith, tt, tt))
        (omega arith) in
    (turn, numbered)

-- The same order without the numbers' bounds, of a queue that the comparison finds in order.
abbrev pub NotAfter : HeapEntry → List HeapEntry → Type 0
NotAfter e [] = Unit {0}
NotAfter e (x ∷ xs) =
    ((e.deadline_us <ℤ x.deadline_us)
      ⊎ ((e.deadline_us ≡ x.deadline_us) × (e.sequence ≤ x.sequence)))
    × NotAfter e xs

abbrev pub InOrder : List HeapEntry → Type 0
InOrder [] = Unit {0}
InOrder (e ∷ es) = NotAfter e es × InOrder es

not_after :
    (e x : HeapEntry)
    → heap_compare e x ≡ false
    → (e.deadline_us <ℤ x.deadline_us)
      ⊎ ((e.deadline_us ≡ x.deadline_us) × (e.sequence ≤ x.sequence))
unfolding heap_compare
not_after e x h = ground arith

First-NotAfter : (e : HeapEntry) (es : List HeapEntry) → First e es → NotAfter e es
First-NotAfter e [] f = tt
First-NotAfter e (x ∷ xs) (h, f) = (not_after e x h, First-NotAfter e xs f)

pub Sorted-InOrder : (es : List HeapEntry) → Sorted es → InOrder es
Sorted-InOrder [] v = tt
Sorted-InOrder (e ∷ es) (f, v) = (First-NotAfter e es f, Sorted-InOrder es v)
