-- ===== src/Engine/Runtime/Table.antt =====
-- The table of peers through every call, and what of it the audio thread reads.
use jam_n.Prelude.{
  ℕ, zero, suc, ◌≡◌, ◌≢◌, refl, ap, sym, ◌∙◌, ◌⊎◌, inl, inr, List, [], ◌∷◌, map, Bool, true, false,
  not, ◌&&◌, none, ◌==◌, get_or, set, length, replicate, length-set, Bool-cases, Option-cases,
  arith,
}
use mathlib.Core.Path.{subst}
use jam_n.Prelude.Int.{ℤ, pos, ◌+ℤ◌}
use jam_n.Core.Double.{Double}
use jam_n.Engine.ClockSync.{ClockSync, estimated_offset_us, is_locked}
use jam_n.Engine.ClockSync
use jam_n.Engine.Runtime.{
  PeerRuntime, PeerSlot, Action, free_slot, no_peer, slot_at, find_in, find_slot, settle, initial,
}
use jam_n.Engine.Runtime.Steps.{
  Change, stay, both, counted, owned, buffered, sent, passed_on, told, offered, skipped, pinged,
  timed, claimed, released,
}
use jam_n.Engine.Runtime.Steps.Receive.{Any}
use jam_n.Engine.Runtime.Steps.Serve.{Call, run, run-Change}

-- No entry is `p`.
abbrev Absent : ℕ → List ℕ → Type 0
Absent p [] = Unit {0}
Absent p (q ∷ qs) = (p ≢ q) × Absent p qs

-- No two entries are the same link; any number may be kNoPeer.
abbrev pub Distinct : List ℕ → Type 0
Distinct [] = Unit {0}
Distinct (p ∷ ps) = ((p ≡ no_peer) ⊎ Absent p ps) × Distinct ps

-- A slot is in use exactly if it has a link.
abbrev pub HasLink : PeerSlot → Type 0
HasLink slot = slot.in_use ≡ not (slot.link == no_peer)

abbrev pub Named : List PeerSlot → Type 0
Named [] = Unit {0}
Named (slot ∷ slots) = HasLink slot × Named slots

-- kMaxPeers slots; what is published is what they hold; the slots in use are those with a link, and
-- no two have the same one.
pub record Agrees (slots : List PeerSlot) (peers : List ℕ) (offsets : List ℤ) (locked : List Bool)
    : Type 0 where
  pub sized : length slots ≡ 8
  pub links : peers ≡ map {A = PeerSlot} (λ slot. slot.link) slots
  pub times : offsets ≡ map {A = PeerSlot} (λ slot. estimated_offset_us slot.clock_sync) slots
  pub locks : locked ≡ map {A = PeerSlot} (λ slot. is_locked slot.clock_sync) slots
  pub used : Named slots
  pub distinct : Distinct peers

abbrev pub TableHolds : PeerRuntime → Type 0
TableHolds s = Agrees s.slots s.slot_peer s.slot_offset_us s.slot_offset_locked

map-set {ℓ κ} :
    {A : Type ℓ} {B : Type κ} (f : A → B) (xs : List A) (i : ℕ) (v : A)
    → map f (set xs i v) ≡ set (map f xs) i (f v)
map-set f [] i v = refl
map-set f (x ∷ xs) zero v = refl
map-set f (x ∷ xs) (suc i) v = ap (λ ys. f x ∷ ys) (map-set f xs i v)

map-set_same {ℓ κ} :
    {A : Type ℓ} {B : Type κ} (f : A → B) (xs : List A) (i : ℕ) (v d : A)
    → f v ≡ f (get_or xs i d)
    → map f (set xs i v) ≡ map f xs
map-set_same f [] i v d e = refl
map-set_same f (x ∷ xs) zero v d e = ap (λ y. y ∷ map f xs) e
map-set_same f (x ∷ xs) (suc i) v d e = ap (λ ys. f x ∷ ys) (map-set_same f xs i v d e)

Absent-set : (q p : ℕ) (ps : List ℕ) (i : ℕ) → q ≢ p → Absent q ps → Absent q (set ps i p)
Absent-set q p [] i ne a = tt
Absent-set q p (x ∷ ps) zero ne (_, a) = (ne, a)
Absent-set q p (x ∷ ps) (suc i) ne (h, a) = (h, Absent-set q p ps i ne a)

-- A link that is not in the table yet, or kNoPeer, is written anywhere.
Distinct-set :
    (p : ℕ) (ps : List ℕ) (i : ℕ)
    → (p ≡ no_peer) ⊎ Absent p ps
    → Distinct ps
    → Distinct (set ps i p)
Distinct-set p [] i a d = tt
Distinct-set p (q ∷ ps) zero (inl e) (_, d) = (inl e, d)
Distinct-set p (q ∷ ps) zero (inr (_, a)) (_, d) = (inr a, d)
Distinct-set p (q ∷ ps) (suc i) (inl e) (h, d) = (kept h, Distinct-set p ps i (inl e) d)
  where
    kept : (q ≡ no_peer) ⊎ Absent q ps → (q ≡ no_peer) ⊎ Absent q (set ps i p)
    kept (inl free) = inl free
    kept (inr a) = elim (Bool-cases (q == no_peer)) [
      | inl free ↦ inl (ground arith)
      | inr other ↦ inr (Absent-set q p ps i (λ same. ground arith) a)
    ]
Distinct-set p (q ∷ ps) (suc i) (inr (ne, a)) (h, d) = (kept h, Distinct-set p ps i (inr a) d)
  where
    kept : (q ≡ no_peer) ⊎ Absent q ps → (q ≡ no_peer) ⊎ Absent q (set ps i p)
    kept (inl free) = inl free
    kept (inr b) = inr (Absent-set q p ps i (λ same. ne (sym same)) b)

Named-set :
    (slots : List PeerSlot) (i : ℕ) (v : PeerSlot) → HasLink v → Named slots → Named (set slots i v)
Named-set [] i v h n = tt
Named-set (slot ∷ slots) zero v h (_, n) = (h, n)
Named-set (slot ∷ slots) (suc i) v h (k, n) = (k, Named-set slots i v h n)

Named-get : (slots : List PeerSlot) (i : ℕ) → Named slots → HasLink (get_or slots i free_slot)
Named-get [] i n = refl
Named-get (slot ∷ slots) zero (h, _) = h
Named-get (slot ∷ slots) (suc i) (_, n) = Named-get slots i n

find_in_step :
    (peer : ℕ) (slot : PeerSlot) (slots : List PeerSlot)
    → find_in peer (slot ∷ slots) ≡ none
    → ((slot.in_use && slot.link == peer) ≡ false) × (find_in peer slots ≡ none)
unfolding find_in
find_in_step peer slot slots e = elim (Bool-cases (slot.in_use && slot.link == peer)) [
  | inl here ↦ absurd (cc (e, here))
  | inr not_here ↦ (
    not_here,
    elim (Option-cases (find_in peer slots)) [
      | inl nowhere ↦ nowhere
      | inr (i, later) ↦ ground arith
    ],
  )
]

-- What FindSlot does not find is not in the table.
find_in-none :
    (peer : ℕ) (slots : List PeerSlot)
    → peer ≢ no_peer
    → find_in peer slots ≡ none
    → Named slots
    → Absent peer (map {A = PeerSlot} (λ slot. slot.link) slots)
find_in-none peer [] named e used = tt
find_in-none peer (slot ∷ slots) named e (h, used) =
    let (not_here, nowhere) = find_in_step peer slot slots e in
    (λ same. ground arith, find_in-none peer slots named nowhere used)

start_offset : pos 0 ≡ estimated_offset_us ClockSync.initial
unfolding ◌+ℤ◌
start_offset = refl

Named-none : (n : ℕ) → Named (replicate n free_slot)
Named-none zero = tt
Named-none (suc n) = (refl, Named-none n)

Distinct-none : (n : ℕ) → Distinct (replicate n no_peer)
Distinct-none zero = tt
Distinct-none (suc n) = (inl refl, Distinct-none n)

initial-TableHolds : (start : ℤ) → TableHolds (initial start)
initial-TableHolds start = record {
  sized = refl;
  links = refl;
  times = ap (λ z. z ∷ z ∷ z ∷ z ∷ z ∷ z ∷ z ∷ z ∷ []) start_offset;
  locks = refl;
  used = Named-none 8;
  distinct = Distinct-none 8;
}

-- A slot that starts anew, for a new link or for none.
settle-TableHolds :
    (s : PeerRuntime) (i : ℕ) (slot : PeerSlot)
    → slot.clock_sync ≡ ClockSync.initial
    → HasLink slot
    → (slot.link ≡ no_peer) ⊎ Absent slot.link s.slot_peer
    → TableHolds s
    → TableHolds (settle s i slot)
settle-TableHolds s i slot fresh named new v = record {
  sized = length-set s.slots i slot ∙ v.sized;
  links = ap (λ xs. set xs i slot.link) v.links ∙ sym (map-set (λ x. x.link) s.slots i slot);
  times =
      ap (λ z. set s.slot_offset_us i z) (start_offset ∙ ap estimated_offset_us (sym fresh))
      ∙ ap (λ xs. set xs i (estimated_offset_us slot.clock_sync)) v.times
      ∙ sym (map-set (λ x. estimated_offset_us x.clock_sync) s.slots i slot);
  locks =
      ap (λ c. set s.slot_offset_locked i (is_locked c)) {x = ClockSync.initial} (sym fresh)
      ∙ ap (λ xs. set xs i (is_locked slot.clock_sync)) v.locks
      ∙ sym (map-set (λ x. is_locked x.clock_sync) s.slots i slot);
  used = Named-set s.slots i slot named v.used;
  distinct = Distinct-set slot.link s.slot_peer i new v.distinct;
}

Change-TableHolds : {s t : PeerRuntime} → Change Any s t → TableHolds s → TableHolds t
unfolding find_slot
Change-TableHolds stay v = v
Change-TableHolds (both c d) v = Change-TableHolds d (Change-TableHolds c v)
Change-TableHolds (counted stats) v = v
Change-TableHolds (owned own) v = v
Change-TableHolds (buffered p q) v = v
Change-TableHolds (sent peer channel size h) v = v
Change-TableHolds (passed_on from r) v = v
Change-TableHolds (told peer event) v = v
Change-TableHolds (offered slot note dedupe h) v = v
Change-TableHolds (skipped dedupe) v = v
Change-TableHolds {s} (pinged i at h) v =
    let slot : PeerSlot = record (slot_at s i) { last_ping_us = at; have_pinged = true } in
    record {
      sized = length-set s.slots i slot ∙ v.sized;
      links = v.links ∙ sym (map-set_same (λ x. x.link) s.slots i slot free_slot refl);
      times =
          v.times
          ∙ sym
              (map-set_same (λ x. estimated_offset_us x.clock_sync) s.slots i slot free_slot refl);
      locks =
          v.locks ∙ sym (map-set_same (λ x. is_locked x.clock_sync) s.slots i slot free_slot refl);
      used = Named-set s.slots i slot (Named-get s.slots i v.used) v.used;
      distinct = v.distinct;
    }
Change-TableHolds {s} (timed i clock relocks h) v =
    let slot : PeerSlot = record (slot_at s i) { clock_sync = clock } in
    record {
      sized = length-set s.slots i slot ∙ v.sized;
      links = v.links ∙ sym (map-set_same (λ x. x.link) s.slots i slot free_slot refl);
      times =
          ap (λ xs. set xs i (estimated_offset_us clock)) v.times
          ∙ sym (map-set (λ x. estimated_offset_us x.clock_sync) s.slots i slot);
      locks =
          ap (λ xs. set xs i (is_locked clock)) v.locks
          ∙ sym (map-set (λ x. is_locked x.clock_sync) s.slots i slot);
      used = Named-set s.slots i slot (Named-get s.slots i v.used) v.used;
      distinct = v.distinct;
    }
Change-TableHolds {s} (claimed i peer h named new e) v =
    settle-TableHolds s i (record free_slot { link = peer; in_use = true }) refl (ground arith)
      (inr (subst (Absent peer) (sym v.links) (find_in-none peer s.slots named (found new) v.used)))
      v
  where
    found : find_slot s peer ≡ none → find_in peer s.slots ≡ none
    found f = f
Change-TableHolds {s} (released i h) v = settle-TableHolds s i free_slot refl refl (inl refl) v

-- Whatever is called, on whatever packets: there are 8 slots, no two of them are in use for one link,
-- and what the audio thread reads of a slot are the link, the offset and the lock that it holds.
pub run-TableHolds :
    (D : Double) (sends : List Action → Bool) (start : ℤ) (calls : List Call)
    → TableHolds (run D sends (initial start) calls)
run-TableHolds D sends start calls =
    Change-TableHolds (run-Change D sends (initial start) calls) (initial-TableHolds start)
