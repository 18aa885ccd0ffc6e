-- ===== src/Engine/Scheduler/Order.antt =====
-- The order in which the queue hands events out.
use jam_n.Prelude.{
  ℕ, ◌≡◌, refl, sym, true, false, List, [], ◌∷◌, inl, inr, Bool-cases, ◌≢◌, ◌==◌, ◌⊎◌, Option, none,
  some, arith,
}
use mathlib.Core.Path.{subst}
use jam_n.Prelude.Int.{ℤ, ltb_ℤ}
use jam_n.Engine.Scheduler.Keeps.{Keeps, released-Holds}
use jam_n.Engine.Scheduler.{
  without, EventScheduler, HeapEntry, heap_compare, insert, release_due_held_events, pop_heap,
  pop_entry, pop_ready,
}

-- No entry of the list comes out before `e`.
abbrev pub First : HeapEntry → List HeapEntry → Type 0
First e [] = Unit {0}
First e (x ∷ xs) = (heap_compare e x ≡ false) × First e xs

abbrev pub Sorted : List HeapEntry → Type 0
Sorted [] = Unit {0}
Sorted (e ∷ es) = First e es × Sorted es

-- No entry is due.
abbrev pub NoneDue : ℤ → List HeapEntry → Type 0
NoneDue now [] = Unit {0}
NoneDue now (e ∷ es) = (ltb_ℤ now e.deadline_us ≡ true) × NoneDue now es

compare_asym : (a b : HeapEntry) → heap_compare a b ≡ true → heap_compare b a ≡ false
unfolding heap_compare
compare_asym a b h = ground arith

compare_trans :
    (a b c : HeapEntry)
    → heap_compare a b ≡ false
    → heap_compare b c ≡ false
    → heap_compare a c ≡ false
unfolding heap_compare
compare_trans a b c h k = ground arith

compare-deadline :
    (now : ℤ) (a b : HeapEntry)
    → heap_compare a b ≡ false
    → ltb_ℤ now a.deadline_us ≡ true
    → ltb_ℤ now b.deadline_us ≡ true
unfolding heap_compare
compare-deadline now a b h k = ground arith

First-trans :
    (a b : HeapEntry) (es : List HeapEntry) → heap_compare a b ≡ false → First b es → First a es
First-trans a b [] h f = tt
First-trans a b (e ∷ es) h (k, f) = (compare_trans a b e h k, First-trans a b es h f)

insert_after :
    (x e : HeapEntry) (es : List HeapEntry)
    → heap_compare x e ≡ true
    → insert x (e ∷ es) ≡ e ∷ insert x es
unfolding insert
insert_after x e es h = rw h

insert_before :
    (x e : HeapEntry) (es : List HeapEntry)
    → heap_compare x e ≡ false
    → insert x (e ∷ es) ≡ x ∷ e ∷ es
unfolding insert
insert_before x e es h = rw h

insert-First :
    (a x : HeapEntry) (es : List HeapEntry)
    → heap_compare a x ≡ false
    → First a es
    → First a (insert x es)
unfolding insert
insert-First a x [] h f = (h, tt)
insert-First a x (e ∷ es) h (k, f) = elim (Bool-cases (heap_compare x e)) [
  | inl after ↦ subst (First a) (sym (insert_after x e es after)) (k, insert-First a x es h f)
  | inr before ↦ subst (First a) (sym (insert_before x e es before)) (h, (k, f))
]

insert-Sorted : (x : HeapEntry) (es : List HeapEntry) → Sorted es → Sorted (insert x es)
unfolding insert
insert-Sorted x [] s = (tt, tt)
insert-Sorted x (e ∷ es) (f, s) = elim (Bool-cases (heap_compare x e)) [
  | inl after ↦
      subst Sorted (sym (insert_after x e es after))
        (insert-First e x es (compare_asym x e after) f, insert-Sorted x es s)
  | inr before ↦
      subst Sorted (sym (insert_before x e es before))
        ((before, First-trans x e es before f), (f, s))
]

without_step :
    (peer : ℕ) (e : HeapEntry) (es : List HeapEntry)
    → (e.peer ≡ peer) × (without peer (e ∷ es) ≡ without peer es)
      ⊎ (e.peer ≢ peer) × (without peer (e ∷ es) ≡ e ∷ without peer es)
unfolding without
without_step peer e es = elim (Bool-cases (e.peer == peer)) [
  | inl same ↦ inl (ground arith, rw same)
  | inr other ↦ inr (ground arith, rw other)
]

without-First :
    (peer : ℕ) (x : HeapEntry) (es : List HeapEntry) → First x es → First x (without peer es)
unfolding without
without-First peer x [] f = tt
without-First peer x (e ∷ es) (k, f) = elim (without_step peer e es) [
  | inl (_, skip) ↦ subst (First x) (sym skip) (without-First peer x es f)
  | inr (_, keep) ↦ subst (First x) (sym keep) (k, without-First peer x es f)
]

without-Sorted : (peer : ℕ) (es : List HeapEntry) → Sorted es → Sorted (without peer es)
unfolding without
without-Sorted peer [] v = tt
without-Sorted peer (e ∷ es) (f, v) = elim (without_step peer e es) [
  | inl (_, skip) ↦ subst Sorted (sym skip) (without-Sorted peer es v)
  | inr (_, keep) ↦ subst Sorted (sym keep) (without-First peer e es f, without-Sorted peer es v)
]

-- Whatever was pushed, and however often.
abbrev pub AnySorted : ℕ → ℕ → List HeapEntry → Type 0
AnySorted k n es = Sorted es

pub AnySorted-Keeps : Keeps AnySorted
AnySorted-Keeps = record {
  push = λ k n es deadline peer event v. insert-Sorted _ es v;
  more = λ k j n es v. v;
  rest = λ k n e es v. v.1;
  kept = λ k n peer es v. without-Sorted peer es v;
  none_left = λ k n es v. tt;
}

released-Sorted :
    (s : EventScheduler) (now : ℤ) → Sorted s.heap → Sorted (release_due_held_events s now).heap
released-Sorted s now v = released-Holds AnySorted AnySorted-Keeps 0 s now v

NoneDue-from :
    (now : ℤ) (e : HeapEntry) (es : List HeapEntry)
    → ltb_ℤ now e.deadline_us ≡ true
    → First e es
    → NoneDue now es
NoneDue-from now e [] h f = tt
NoneDue-from now e (x ∷ xs) h (k, f) = (compare-deadline now e x k h, NoneDue-from now e xs h f)

-- What a pop from `before` may answer.
pub Pops : ℤ → List HeapEntry → Option HeapEntry × EventScheduler → Type 0
Pops now before (none, s) = (s.heap ≡ before) × NoneDue now before
Pops now before (some e, s) =
    (before ≡ e ∷ s.heap) × (ltb_ℤ now e.deadline_us ≡ false) × First e s.heap × Sorted s.heap

pop_from :
    (now : ℤ) (es : List HeapEntry) (s : EventScheduler)
    → s.heap ≡ es
    → Sorted es
    → Pops now es (pop_entry es s now)
unfolding Pops pop_entry
pop_from now [] s e v = (e, tt)
pop_from now (x ∷ xs) s e (f, v) = elim (Bool-cases (ltb_ℤ now x.deadline_us)) [
  | inl early ↦ rw early (e, (early, NoneDue-from now x xs early f))
  | inr due ↦ rw due (refl, due, f, v)
]

-- With the queue in order: after the held events that are due have joined it, PopReady hands out its
-- first entry, which is due and which none of the rest comes before, or else no entry is due.
pub pop_ready-Pops :
    (s : EventScheduler) (now : ℤ)
    → Sorted s.heap
    → Pops now (release_due_held_events s now).heap (pop_ready s now)
unfolding pop_ready pop_heap
pop_ready-Pops s now v =
    let r = release_due_held_events s now in pop_from now r.heap r refl (released-Sorted s now v)
