-- ===== src/Core/ByteWriter.antt =====
-- modules/jamn_core/include/jamn_core/byte_writer.h: the bounds-checked writer.
-- The buffer is the whole array that the caller supplied, written in place. A call returns its
-- result and the writer after it; an encoder is a chain of calls that stops at the first false.
pub mod Encodes
use jam_n.Prelude.{
  ℕ, zero, suc, ◌+◌, ◌-◌, List, [], ◌∷◌, Bool, true, false, ltb, if◌then◌else◌, set, length,
}
use jam_n.Prelude.Int.{ℤ}
use jam_n.Core.Wire.{Width, size_of, le_bytes, to_unsigned}

pub record Writer : Type 0 where
  pub buf : List ℕ
  pub capacity : ℕ
  pub pos : ℕ

abbrev pub Write : Type 0
Write = Writer → Bool × Writer

-- ByteWriter(data, capacity)
abbrev pub writer : List ℕ → ℕ → Writer
writer data_ capacity = record { buf = data_; capacity = capacity; pos = 0 }

abbrev pub remaining : Writer → ℕ
remaining w = w.capacity - w.pos

-- The loops that store data_[pos_ + i], byte after byte.
abbrev pub splice : List ℕ → ℕ → List ℕ → List ℕ
splice buf at [] = buf
splice buf at (b ∷ bs) = splice (set buf at b) (at + 1) bs

-- The stores of a write that fits, and `pos_ += n`.
abbrev pub emit : List ℕ → Writer → Writer
emit bs w = record w { buf = splice w.buf w.pos bs; pos = w.pos + length bs }

pub write_le : Width → ℕ → Write
write_le t v w = if ltb (remaining w) (size_of t) then (false, w) else (true, emit (le_bytes t v) w)

-- WriteI8 to WriteI64: a cast, and the unsigned write.
abbrev pub write_signed : Width → ℤ → Write
write_signed t z = write_le t (to_unsigned t z)

-- `src` points at `len` bytes: the list is those.
pub write_bytes : List ℕ → Write
write_bytes src w = if ltb (remaining w) (length src) then (false, w) else (true, emit src w)

-- `a && b`, and `if (!a) return false;` before b.
infixr 5 ◌>>◌
abbrev pub after : Bool × Writer → Write → Bool × Writer
after (false, w) k = (false, w)
after (true, w) k = k w

abbrev pub ◌>>◌ : Write → Write → Write
◌>>◌ m k w = after (m w) k

-- `return true;` and `return false;`
abbrev pub done : Write
done w = (true, w)

abbrev pub refuse : Write
refuse w = (false, w)
