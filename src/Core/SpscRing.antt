-- ===== src/Core/SpscRing.antt =====
-- modules/jamn_core/include/jamn_core/spsc_ring.h: the single-producer, single-consumer ring.
pub mod Queue
pub mod Threads
use jam_n.Prelude.{
  ℕ, ◌+◌, ◌-◌, ◌%◌, Bool, true, false, List, Option, none, some, ◌==◌, if◌then◌else◌, get_or, set,
  replicate,
}

-- `Capacity` is a template parameter of the class: the ring carries it.
pub record Ring {ℓ} (A : Type ℓ) : Type ℓ where
  pub capacity : ℕ
  pub buffer : List A
  pub head : ℕ
  pub tail : ℕ

-- Advance
unfoldable pub advance : ℕ → ℕ → ℕ
advance n index = (index + 1) % n

module _ {ℓ} {A : Type ℓ} where
  -- kSlots
  abbrev pub slots : Ring A → ℕ
  slots r = r.capacity + 1

  unfoldable pub empty : A → ℕ → Ring A
  empty blank capacity = record {
    capacity = capacity;
    buffer = replicate (capacity + 1) blank;
    head = 0;
    tail = 0;
  }

  unfoldable pub push : Ring A → A → Bool × Ring A
  unfolding advance
  push r value =
      let next = advance (slots r) r.head in
      if next == r.tail
      then (false, r)
      else (true, record r { buffer = set r.buffer r.head value; head = next })

  unfoldable pub pop : A → Ring A → Option A × Ring A
  unfolding advance
  pop blank r =
      if r.tail == r.head
      then (none, r)
      else (some (get_or r.buffer r.tail blank), record r { tail = advance (slots r) r.tail })

  unfoldable pub size_approx : Ring A → ℕ
  size_approx r = (r.head + slots r - r.tail) % slots r
