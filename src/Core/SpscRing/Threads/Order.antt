-- ===== src/Core/SpscRing/Threads/Order.antt =====
-- The ring shared by its two threads loses, repeats and reorders no value, whatever the interleaving.
use jam_n.Prelude.{
  ℕ, ◌+◌, ◌<◌, ◌≡◌, ◌≢◌, refl, ap, sym, ◌∙◌, [], ◌∷◌, ◌++◌, get_or, set, length, replicate,
  append_assoc, get_or-set_self, get_or-set_ne, arith,
}
use mathlib.Core.Path.{subst}
use jam_n.Core.SpscRing.{Ring, slots, advance, empty}
use jam_n.Core.SpscRing.Queue.{IsValid, size_cases, window, contents, empty-IsValid}
use jam_n.Core.SpscRing.Threads.Stores.{published, released, written, moved_on}
use jam_n.Core.SpscRing.Threads.{
  Producer, Consumer, State, Step, Reach, initial, idle, loaded_head, has_room, stored, loaded_tail,
  has_value, copied, load_head, find_full, find_room, store_value, store_head, load_tail,
  find_empty, find_value, copy_value, store_tail, here, next,
}

module _ {A : Type 0} (blank : A) where
  abbrev ProducerHolds : Ring A → Producer A → Type 0
  ProducerHolds r idle = Unit {0}
  ProducerHolds r (loaded_head x h) = h ≡ r.head
  ProducerHolds r (has_room x h) = (h ≡ r.head) × (advance (slots r) h ≢ r.tail)
  ProducerHolds r (stored x h) =
      (h ≡ r.head) × (advance (slots r) h ≢ r.tail) × (get_or r.buffer h blank ≡ x)

  abbrev ConsumerHolds : Ring A → Consumer A → Type 0
  ConsumerHolds r idle = Unit {0}
  ConsumerHolds r (loaded_tail t) = t ≡ r.tail
  ConsumerHolds r (has_value t) = (t ≡ r.tail) × (t ≢ r.head)
  ConsumerHolds r (copied t x) = (t ≡ r.tail) × (t ≢ r.head) × (get_or r.buffer t blank ≡ x)

  record Holds (s : State A) : Type 0 where
    valid : IsValid s.ring
    producer_holds : ProducerHolds s.ring s.producer
    consumer_holds : ConsumerHolds s.ring s.consumer
    log : s.pushed ≡ s.popped ++ contents blank s.ring

  -- The other thread's steps leave what a thread knows.
  producer_after_pop :
      (r : Ring A) (p : Producer A)
      → IsValid r
      → r.tail ≢ r.head
      → ProducerHolds r p
      → ProducerHolds (record r { tail = advance (slots r) r.tail }) p
  producer_after_pop r idle v ne k = tt
  producer_after_pop r (loaded_head x h) v ne k = k
  producer_after_pop r (has_room x h) v ne (k, room) = (k, moved_on blank r h v ne k)
  producer_after_pop r (stored x h) v ne (k, room, e) = (k, moved_on blank r h v ne k, e)

  consumer_after_store :
      (r : Ring A) (c : Consumer A) (x : A)
      → ConsumerHolds r c
      → ConsumerHolds (record r { buffer = set r.buffer r.head x }) c
  consumer_after_store r idle x k = tt
  consumer_after_store r (loaded_tail t) x k = k
  consumer_after_store r (has_value t) x k = k
  consumer_after_store r (copied t y) x (k, ne, e) =
      (k, ne, get_or-set_ne r.buffer r.head t x blank (λ same. ne (sym same)) ∙ e)

  consumer_after_push :
      (r : Ring A) (c : Consumer A)
      → advance (slots r) r.head ≢ r.tail
      → ConsumerHolds r c
      → ConsumerHolds (record r { head = advance (slots r) r.head }) c
  consumer_after_push r idle room k = tt
  consumer_after_push r (loaded_tail t) room k = k
  consumer_after_push r (has_value t) room (k, ne) = (k, λ same. room (sym same ∙ k))
  consumer_after_push r (copied t y) room (k, ne, e) = (k, (λ same. room (sym same ∙ k)), e)

  store_value-Holds :
      (s : State A) (x : A) (h : ℕ)
      → h ≡ s.ring.head
      → advance (slots s.ring) h ≢ s.ring.tail
      → Holds s
      → Holds (record s {
        ring = record s.ring { buffer = set s.ring.buffer h x };
        producer = stored x h;
      })
  store_value-Holds s x h k room i =
      subst
        (λ j. Holds (record s {
          ring = record s.ring { buffer = set s.ring.buffer j x };
          producer = stored x j;
        }))
        (sym k)
        (let room' : advance (slots s.ring) s.ring.head ≢ s.ring.tail =
            (λ e. room (ap (advance (slots s.ring)) k ∙ e)) in
          let (valid, same) = written blank s.ring x i.valid room' in
          record {
            valid = valid;
            producer_holds = (
              refl,
              room',
              get_or-set_self s.ring.buffer s.ring.head x blank
                  (omega (arith, i.valid.storage, i.valid.head_in)),
            );
            consumer_holds = consumer_after_store s.ring s.consumer x i.consumer_holds;
            log = i.log ∙ ap (λ c. s.popped ++ c) (sym same);
          })

  store_head-Holds :
      (s : State A) (x : A) (h : ℕ)
      → ProducerHolds s.ring (stored x h)
      → Holds s
      → Holds (record s {
        ring = record s.ring { head = advance (slots s.ring) h };
        producer = idle;
        pushed = s.pushed ++ x ∷ [];
      })
  store_head-Holds s x h (k, room, e) i =
      subst
        (λ j. Holds (record s {
          ring = record s.ring { head = advance (slots s.ring) j };
          producer = idle;
          pushed = s.pushed ++ x ∷ [];
        }))
        (sym k)
        (let room' : advance (slots s.ring) s.ring.head ≢ s.ring.tail =
            (λ f. room (ap (advance (slots s.ring)) k ∙ f)) in
          let (valid, grown) =
            published blank s.ring x i.valid room'
              (ap (λ j. get_or s.ring.buffer j blank) (sym k) ∙ e) in
          record {
            valid = valid;
            producer_holds = tt;
            consumer_holds = consumer_after_push s.ring s.consumer room' i.consumer_holds;
            log =
                ap (λ l. l ++ x ∷ []) i.log
                ∙ append_assoc s.popped (contents blank s.ring) (x ∷ [])
                ∙ ap (λ c. s.popped ++ c) (sym grown);
          })

  store_tail-Holds :
      (s : State A) (t : ℕ) (x : A)
      → ConsumerHolds s.ring (copied t x)
      → Holds s
      → Holds (record s {
        ring = record s.ring { tail = advance (slots s.ring) t };
        consumer = idle;
        popped = s.popped ++ x ∷ [];
      })
  store_tail-Holds s t x (k, some_left, e) i =
      subst
        (λ j. Holds (record s {
          ring = record s.ring { tail = advance (slots s.ring) j };
          consumer = idle;
          popped = s.popped ++ x ∷ [];
        }))
        (sym k)
        (let left : s.ring.tail ≢ s.ring.head = (λ f. some_left (k ∙ f)) in
          let (valid, shrunk) =
            released blank s.ring x i.valid left
              (ap (λ j. get_or s.ring.buffer j blank) (sym k) ∙ e) in
          record {
            valid = valid;
            producer_holds = producer_after_pop s.ring s.producer i.valid left i.producer_holds;
            consumer_holds = tt;
            log =
                i.log
                ∙ ap (λ c. s.popped ++ c) shrunk
                ∙ sym (
                    append_assoc s.popped (x ∷ []) (
                      contents blank
                        (record s.ring { tail = advance (slots s.ring) s.ring.tail })));
          })

  Step-Holds : {s t : State A} → Step blank s t → Holds s → Holds t
  Step-Holds {s} (load_head x at) i = record {
    valid = i.valid;
    producer_holds = refl;
    consumer_holds = i.consumer_holds;
    log = i.log;
  }
  Step-Holds {s} (find_full x h at full) i = record {
    valid = i.valid;
    producer_holds = tt;
    consumer_holds = i.consumer_holds;
    log = i.log;
  }
  Step-Holds {s} (find_room x h at room) i = record {
    valid = i.valid;
    producer_holds = (subst (ProducerHolds s.ring) at i.producer_holds, room);
    consumer_holds = i.consumer_holds;
    log = i.log;
  }
  Step-Holds {s} (store_value x h at) i =
      let (k, room) = subst (ProducerHolds s.ring) at i.producer_holds in
      store_value-Holds s x h k room i
  Step-Holds {s} (store_head x h at) i =
      store_head-Holds s x h (subst (ProducerHolds s.ring) at i.producer_holds) i
  Step-Holds {s} (load_tail at) i = record {
    valid = i.valid;
    producer_holds = i.producer_holds;
    consumer_holds = refl;
    log = i.log;
  }
  Step-Holds {s} (find_empty t at none_left) i = record {
    valid = i.valid;
    producer_holds = i.producer_holds;
    consumer_holds = tt;
    log = i.log;
  }
  Step-Holds {s} (find_value t at some_left) i = record {
    valid = i.valid;
    producer_holds = i.producer_holds;
    consumer_holds = (subst (ConsumerHolds s.ring) at i.consumer_holds, some_left);
    log = i.log;
  }
  Step-Holds {s} (copy_value t at) i =
      let (k, ne) = subst (ConsumerHolds s.ring) at i.consumer_holds in
      record {
        valid = i.valid;
        producer_holds = i.producer_holds;
        consumer_holds = (k, ne, refl);
        log = i.log;
      }
  Step-Holds {s} (store_tail t x at) i =
      store_tail-Holds s t x (subst (ConsumerHolds s.ring) at i.consumer_holds) i

  no_values : (capacity : ℕ) → contents blank (empty blank capacity) ≡ []
  unfolding empty
  no_values capacity =
      ap (window blank (capacity + 1) (replicate (capacity + 1) blank) 0) {y = 0}
        (omega (arith, size_cases (empty blank capacity) (empty-IsValid blank capacity)))

  Reach-Holds : (capacity : ℕ) {s : State A} → Reach blank (initial blank capacity) s → Holds s
  Reach-Holds capacity here = record {
    valid = empty-IsValid blank capacity;
    producer_holds = tt;
    consumer_holds = tt;
    log = sym (no_values capacity);
  }
  Reach-Holds capacity (next before step) = Step-Holds step (Reach-Holds capacity before)

  -- Whatever steps the two threads have taken in whatever order since a new ring, the values the
  -- finished pushes put in are the values the finished pops took out, in order, followed by the
  -- contents of the ring.
  pub Reach-fifo :
      (capacity : ℕ) (s : State A)
      → Reach blank (initial blank capacity) s
      → s.pushed ≡ s.popped ++ contents blank s.ring
  Reach-fifo capacity s before = (Reach-Holds capacity before).log

  -- Whatever steps the two threads have taken since a new ring, when the producer is about to write
  -- slot `h` and the consumer is about to read slot `t`, both are slots of the buffer and they are not
  -- the same slot.
  pub Reach-apart :
      (capacity : ℕ) (s : State A) (x : A) (h t : ℕ)
      → Reach blank (initial blank capacity) s
      → s.producer ≡ has_room x h
      → s.consumer ≡ has_value t
      → (h < length s.ring.buffer) × (t < length s.ring.buffer) × (h ≢ t)
  Reach-apart capacity s x h t before p c =
      let i = Reach-Holds capacity before in
      let (kh, room) = subst (ProducerHolds s.ring) p i.producer_holds in
      let (kt, left) = subst (ConsumerHolds s.ring) c i.consumer_holds in
      (
        omega (arith, i.valid.storage, i.valid.head_in),
        omega (arith, i.valid.storage, i.valid.tail_in),
        λ e. left (sym e ∙ kh),
      )
