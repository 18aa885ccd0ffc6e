-- ===== src/Engine/Runtime/Account.antt =====
-- What becomes of the events that this node's player makes.
use jam_n.Prelude.{
  ℕ, zero, suc, ◌+◌, ◌-◌, ◌%◌, ◌^◌, ◌≤◌, ◌<◌, ◌≡◌, refl, ap, sym, ◌∙◌, List, [], ◌∷◌, ◌++◌, none,
  some, length, take, append-nil, take-nil, append_assoc, length-append, ltb, Bool-cases, ◌⊎◌, inl,
  inr, arith,
}
use mathlib.Core.Path.{subst}
use jam_n.Core.SpscRing.{Ring, pop, size_approx}
use jam_n.Core.SpscRing.Queue.{IsValid, contents, pop_cases, size_cases, length-contents}
use jam_n.Engine.Burst.{Entry, queue_event}
use jam_n.Engine.Runtime.{PeerRuntime, LocalEvent, no_local_event, local_event_capacity}
use jam_n.Engine.Runtime.Service.{numbered, queued, drain_popped, drain, drain_local_events}

-- The events with the numbers from `seq` on.
abbrev pub numbered_from : ℕ → List LocalEvent → List Entry
numbered_from seq [] = []
numbered_from seq (local ∷ locals) = numbered seq local ∷ numbered_from ((seq + 1) % 2 ^ 16) locals

-- The assembler takes these, as many as a burst has room for.
pub record Drained (s : PeerRuntime) (locals : List LocalEvent) (t : PeerRuntime) : Type 0 where
  pub nothing_left : contents no_local_event t.local_events ≡ []
  pub next_seq : t.next_event_seq % 2 ^ 16 ≡ (s.next_event_seq + length locals) % 2 ^ 16
  pub queue :
      t.assembler.queued
      ≡ s.assembler.queued
        ++ take (64 - length s.assembler.queued) (numbered_from s.next_event_seq locals)

-- The event is queued behind the others, or dropped because 64 are queued already.
queued_cases :
    (s : PeerRuntime) (local : LocalEvent)
    → let t = drain_popped s local in
      (t.local_events ≡ s.local_events)
      × (t.next_event_seq ≡ (s.next_event_seq + 1) % 2 ^ 16)
      × (((length s.assembler.queued < 64)
            × (t.assembler.queued ≡ s.assembler.queued ++ numbered s.next_event_seq local ∷ []))
          ⊎ ((64 ≤ length s.assembler.queued) × (t.assembler.queued ≡ s.assembler.queued)))
unfolding drain_popped queued queue_event
queued_cases s local = elim (Bool-cases (ltb (length s.assembler.queued) 64)) [
  | inl room ↦ rw room (refl, refl, inl (ground arith, refl))
  | inr full ↦ rw full (refl, refl, inr (ground arith, refl))
]

take_room :
    (n : ℕ) (xs ys : List Entry) (x : Entry)
    → length xs < 64
    → n ≡ length xs
    → (xs ++ x ∷ []) ++ take (64 - length (xs ++ x ∷ [])) ys ≡ xs ++ take (64 - n) (x ∷ ys)
take_room n xs ys x h e =
    append_assoc xs (x ∷ []) _
    ∙ ap (λ k. xs ++ x ∷ take k ys) {y = 63 - length xs} (omega (arith, length-append xs (x ∷ [])))
    ∙ ap (λ k. xs ++ take k (x ∷ ys)) {x = suc (63 - length xs)} (omega arith)

take_full :
    (xs ys zs : List Entry)
    → 64 ≤ length xs
    → xs ++ take (64 - length xs) ys ≡ xs ++ take (64 - length xs) zs
take_full xs ys zs h = let none_left : 64 - length xs ≡ 0 = omega arith in rw none_left refl

drain_end :
    (fuel : ℕ) (s : PeerRuntime) (ring : Ring LocalEvent)
    → pop no_local_event s.local_events ≡ (none, ring)
    → drain (suc fuel) s ≡ record s { local_events = ring }
unfolding drain
drain_end fuel s ring e = ground arith

drain_step :
    (fuel : ℕ) (s : PeerRuntime) (local : LocalEvent) (ring : Ring LocalEvent)
    → pop no_local_event s.local_events ≡ (some local, ring)
    → drain (suc fuel) s ≡ drain fuel (drain_popped (record s { local_events = ring }) local)
unfolding drain
drain_step fuel s local ring e = ground arith

wraps : (a b n : ℕ) → b ≡ (a + 1) % 2 ^ 16 → (b + n) % 2 ^ 16 ≡ (a + suc n) % 2 ^ 16
wraps a b n e = omega arith

abbrev tail_of : List Entry → ℕ → List LocalEvent → List Entry
tail_of queue seq locals = queue ++ take (64 - length queue) (numbered_from seq locals)

queue_step :
    (s : PeerRuntime) (local : LocalEvent) (queue ys : List Entry)
    → ((length s.assembler.queued < 64)
        × (queue ≡ s.assembler.queued ++ numbered s.next_event_seq local ∷ []))
      ⊎ ((64 ≤ length s.assembler.queued) × (queue ≡ s.assembler.queued))
    → queue ++ take (64 - length queue) ys
      ≡ s.assembler.queued
        ++ take (64 - length s.assembler.queued) (numbered s.next_event_seq local ∷ ys)
queue_step s local queue ys (inl (room, e)) =
    ap (λ q. q ++ take (64 - length q) ys) e
    ∙ take_room (length s.assembler.queued) s.assembler.queued ys (numbered s.next_event_seq local)
        room refl
queue_step s local queue ys (inr (full, e)) =
    ap (λ q. q ++ take (64 - length q) ys) e ∙ take_full s.assembler.queued ys _ full

drained :
    (fuel : ℕ) (s : PeerRuntime)
    → IsValid s.local_events
    → size_approx s.local_events < fuel
    → Drained s (contents no_local_event s.local_events) (drain fuel s)
drained zero s v h = absurd (omega arith)
drained (suc fuel) s v h = elim (pop_cases no_local_event s.local_events v) [
  | inl (none_left, e) ↦
      rw (drain_end fuel s s.local_events e, none_left)
        (record {
          nothing_left = none_left;
          next_seq = ap (λ n. n % 2 ^ 16) {x = s.next_event_seq} (omega arith);
          queue =
              sym (append-nil s.assembler.queued)
              ∙ ap (λ xs. s.assembler.queued ++ xs)
                  (sym (take-nil Entry (64 - length s.assembler.queued)));
        })
  | inr (local, ring, e, valid, same, c) ↦
      rw (drain_step fuel s local ring e, c)
        (let s' : PeerRuntime = record s { local_events = ring } in
          let (kept, seq, cases) = queued_cases s' local in
          let t = drain_popped s' local in
          let smaller : size_approx t.local_events < fuel = omega (
            arith,
            ap size_approx kept,
            sym (length-contents no_local_event s.local_events) ∙ ap length c,
            length-contents no_local_event ring,
          ) in
          let ih = drained fuel t (subst IsValid (sym kept) valid) smaller in
          let left = ap (contents no_local_event) kept in
          record {
            nothing_left = ih.nothing_left;
            next_seq =
                ih.next_seq
                ∙ ap (λ l. (t.next_event_seq + length l) % 2 ^ 16) left
                ∙ wraps s.next_event_seq t.next_event_seq (length (contents no_local_event ring))
                    seq;
            queue =
                ih.queue
                ∙ ap (λ l. tail_of t.assembler.queued t.next_event_seq l) left
                ∙ ap (λ n. tail_of t.assembler.queued n (contents no_local_event ring)) seq
                ∙ queue_step s' local t.assembler.queued
                    (numbered_from ((s.next_event_seq + 1) % 2 ^ 16) (contents no_local_event ring))
                    cases;
          })
]

-- A valid ring is drained to its end: its events take the numbers that follow, in order, and those for
-- which the burst being collected has room, 64 in all, are queued in that order.
pub drain_local_events-Drained :
    (s : PeerRuntime)
    → IsValid s.local_events
    → s.local_events.capacity ≡ 128
    → Drained s (contents no_local_event s.local_events) (drain_local_events s)
unfolding drain_local_events
drain_local_events-Drained s v cap =
    drained (local_event_capacity + 1) s v (omega (arith, size_cases s.local_events v))
