-- ===== src/Core/ByteReader.antt =====
-- modules/jamn_core/include/jamn_core/byte_reader.h: the bounds-checked reader.
-- The buffer is the list of the bytes from `data_` on; `size_` says how many of them are the
-- reader's own. A call returns what it stores through `out` (`none` for a false return) and the
-- reader after it. A decoder is a chain of such calls, each under `if (!...) return false`: the
-- chain stops at the first false return, with the cursor where that call left it.
pub mod Cursor
pub mod Decodes
use Prim.Native.Nat.{bit_or}
use jam_n.Prelude.{
  ℕ, zero, suc, ◌+◌, ◌-◌, List, [], ◌∷◌, Bool, true, false, Option, none, some, ltb, if◌then◌else◌,
  get_or, drop,
}
use jam_n.Prelude.Int.{ℤ}
use jam_n.Core.Wire.{Width, size_of, or_from, to_signed}

pub record Reader : Type 0 where
  pub buf : List ℕ
  pub size : ℕ
  pub pos : ℕ

abbrev pub Read {ℓ} : Type ℓ → Type ℓ
Read A = Reader → Option A × Reader

-- ByteReader(data, size)
abbrev pub reader : List ℕ → ℕ → Reader
reader data_ size = record { buf = data_; size = size; pos = 0 }

-- The subtraction wraps in the source; `Cursor.remaining_lem` shows that it never has to.
abbrev pub remaining : Reader → ℕ
remaining r = r.size - r.pos

-- pos_ += len
abbrev pub advance : ℕ → Reader → Reader
advance len r = record r { pos = r.pos + len }

-- The loops over data_[pos_ + i], for i from 0 to n.
abbrev pub bytes_at : List ℕ → ℕ → ℕ → List ℕ
bytes_at buf at zero = []
bytes_at buf at (suc n) = get_or buf at 0 ∷ bytes_at buf (at + 1) n

pub read_le : Width → Read ℕ
read_le w r =
    if ltb (remaining r) (size_of w)
    then (none, r)
    else (some (or_from w 0 0 (bytes_at r.buf r.pos (size_of w))), advance (size_of w) r)

-- ReadI8 to ReadI64: the unsigned read, and a cast.
pub read_signed : Width → Read ℤ
read_signed w r =
    let (o, r') = read_le w r in elim o [ none ↦ (none, r') | some u ↦ (some (to_signed w u), r') ]

pub read_bytes : ℕ → Read (List ℕ)
read_bytes len r =
    if ltb (remaining r) len then (none, r) else (some (bytes_at r.buf r.pos len), advance len r)

pub skip : ℕ → Reader → Bool × Reader
skip len r = if ltb (remaining r) len then (false, r) else (true, advance len r)

-- The slice points into the same buffer: `data_ + pos_` with `len` bytes.
pub read_slice : ℕ → Read Reader
read_slice len r =
    if ltb (remaining r) len
    then (none, r)
    else (some (reader (drop r.pos r.buf) len), advance len r)

-- `if (!read(x)) return false;` and what follows it.
infixl 5 ◌>>=◌
abbrev pub after {ℓ κ} :
    {A : Type ℓ} {B : Type κ} → Option A × Reader → (A → Read B) → Option B × Reader
after (none, r) f = (none, r)
after (some a, r) f = f a r

abbrev pub ◌>>=◌ {ℓ κ} : {A : Type ℓ} {B : Type κ} → Read A → (A → Read B) → Read B
◌>>=◌ m f r = after (m r) f

-- `out = value; return true;` and `return false;`
abbrev pub accept {ℓ} : {A : Type ℓ} → A → Read A
accept a r = (some a, r)

abbrev pub refuse {ℓ} : {A : Type ℓ} → Read A
refuse r = (none, r)
