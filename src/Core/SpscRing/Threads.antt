-- ===== src/Core/SpscRing/Threads.antt =====
-- The ring between its two threads: each atomic access of `Push` and `Pop`, and each access of the
-- buffer, is a step of its own, in any interleaving. A release store and the acquire load that sees it
-- order what is around them, so the steps are taken one after the other.
pub mod Order
pub mod Stores
use jam_n.Prelude.{ℕ, ◌≡◌, ◌≢◌, List, [], ◌∷◌, ◌++◌, get_or, set}
use jam_n.Core.SpscRing.{Ring, slots, advance, empty}

-- Where the producer stands in `Push`, with the value, the index it loaded, and the index behind it.
pub data Producer (A : Type 0) : Type 0 where
  idle : Producer A
  loaded_head : A → ℕ → Producer A
  has_room : A → ℕ → Producer A
  stored : A → ℕ → Producer A

-- Where the consumer stands in `Pop`, with the index it loaded, and the value it copied.
pub data Consumer (A : Type 0) : Type 0 where
  idle : Consumer A
  loaded_tail : ℕ → Consumer A
  has_value : ℕ → Consumer A
  copied : ℕ → A → Consumer A

-- The ring, the threads, and the values that the finished calls have pushed and popped.
pub record State (A : Type 0) : Type 0 where
  pub ring : Ring A
  pub producer : Producer A
  pub consumer : Consumer A
  pub pushed : List A
  pub popped : List A

module _ {A : Type 0} (blank : A) where
  pub data Step : State A → State A → Type 0 where
    -- head_.load
    load_head :
        {s : State A} (x : A)
        → s.producer ≡ idle
        → Step s (record s { producer = loaded_head x s.ring.head })
    -- tail_.load, and the test
    find_full :
        {s : State A} (x : A) (h : ℕ)
        → s.producer ≡ loaded_head x h
        → advance (slots s.ring) h ≡ s.ring.tail
        → Step s (record s { producer = idle })
    find_room :
        {s : State A} (x : A) (h : ℕ)
        → s.producer ≡ loaded_head x h
        → advance (slots s.ring) h ≢ s.ring.tail
        → Step s (record s { producer = has_room x h })
    -- buffer_[head] = value
    store_value :
        {s : State A} (x : A) (h : ℕ)
        → s.producer ≡ has_room x h
        → Step s (record s {
          ring = record s.ring { buffer = set s.ring.buffer h x };
          producer = stored x h;
        })
    -- head_.store
    store_head :
        {s : State A} (x : A) (h : ℕ)
        → s.producer ≡ stored x h
        → Step s (record s {
          ring = record s.ring { head = advance (slots s.ring) h };
          producer = idle;
          pushed = s.pushed ++ x ∷ [];
        })
    -- tail_.load
    load_tail :
        {s : State A} → s.consumer ≡ idle → Step s (record s { consumer = loaded_tail s.ring.tail })
    -- head_.load, and the test
    find_empty :
        {s : State A} (t : ℕ)
        → s.consumer ≡ loaded_tail t
        → t ≡ s.ring.head
        → Step s (record s { consumer = idle })
    find_value :
        {s : State A} (t : ℕ)
        → s.consumer ≡ loaded_tail t
        → t ≢ s.ring.head
        → Step s (record s { consumer = has_value t })
    -- out = buffer_[tail]
    copy_value :
        {s : State A} (t : ℕ)
        → s.consumer ≡ has_value t
        → Step s (record s { consumer = copied t (get_or s.ring.buffer t blank) })
    -- tail_.store
    store_tail :
        {s : State A} (t : ℕ) (x : A)
        → s.consumer ≡ copied t x
        → Step s (record s {
          ring = record s.ring { tail = advance (slots s.ring) t };
          consumer = idle;
          popped = s.popped ++ x ∷ [];
        })

  pub data Reach (s : State A) : State A → Type 0 where
    here : Reach s s
    next : {t u : State A} → Reach s t → Step t u → Reach s u

-- A new ring, with both threads outside their calls.
abbrev pub initial : {A : Type 0} → A → ℕ → State A
initial blank capacity = record {
  ring = empty blank capacity;
  producer = idle;
  consumer = idle;
  pushed = [];
  popped = [];
}
