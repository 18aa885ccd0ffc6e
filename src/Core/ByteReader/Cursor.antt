-- ===== src/Core/ByteReader/Cursor.antt =====
-- The cursor's invariant, and the bytes ahead of it: all that a decoder can depend on.
use jam_n.Prelude.{
  ℕ, zero, suc, ◌+◌, ◌-◌, ◌≤◌, ◌<◌, ◌≡◌, refl, ap, sym, ◌∙◌, List, ◌∷◌, true, false, none, some,
  length, take, drop, get_or, length-take, length-drop, drop-cons, drop-drop, drop-take, take-take,
  arith,
}
use jam_n.Core.Wire.{Width, size_of, or_from, to_signed}
use jam_n.Core.ByteReader.{
  Reader, Read, reader, remaining, advance, bytes_at, read_le, read_signed, read_bytes, skip,
  read_slice,
}

-- The cursor lies within the reader's own bytes, and those within the buffer.
pub record IsValid (r : Reader) : Type 0 where
  pub pos_in : r.pos ≤ r.size
  pub size_in : r.size ≤ length r.buf

-- The bytes not read yet.
abbrev pub rest : Reader → List ℕ
rest r = take (r.size - r.pos) (drop r.pos r.buf)

pub length-rest : (r : Reader) → IsValid r → length (rest r) ≡ remaining r
length-rest r v =
    omega (arith, length-take (r.size - r.pos) (drop r.pos r.buf), length-drop r.pos r.buf)

bytes_at-take :
    (n at : ℕ) (buf : List ℕ) → at + n ≤ length buf → bytes_at buf at n ≡ take n (drop at buf)
bytes_at-take zero at buf h = refl
bytes_at-take (suc n) at buf h = rw (drop-cons at buf 0 (omega arith)) (
    ap (λ ys. get_or buf at 0 ∷ ys)
      (bytes_at-take n (at + 1) buf (omega arith)
        ∙ ap (λ k. take n (drop k buf)) {y = suc at} (omega arith)))

-- What a read within bounds fetches.
pub bytes_at-rest :
    (n : ℕ) (r : Reader) → IsValid r → n ≤ remaining r → bytes_at r.buf r.pos n ≡ take n (rest r)
bytes_at-rest n r v h =
    bytes_at-take n r.pos r.buf (omega arith)
    ∙ sym (take-take n (r.size - r.pos) (drop r.pos r.buf) h)

pub rest-advance : (n : ℕ) (r : Reader) → rest (advance n r) ≡ drop n (rest r)
rest-advance n r =
    ap (λ k. take k (drop (r.pos + n) r.buf)) (omega arith)
    ∙ ap (take (r.size - r.pos - n)) (sym (drop-drop n r.pos r.buf))
    ∙ sym (drop-take n (r.size - r.pos) (drop r.pos r.buf))

pub advance-IsValid : (n : ℕ) {r : Reader} → IsValid r → n ≤ remaining r → IsValid (advance n r)
advance-IsValid n v h = omega arith

pub rest-reader :
    (len : ℕ) (r : Reader)
    → len ≤ remaining r
    → rest (reader (drop r.pos r.buf) len) ≡ take len (rest r)
rest-reader len r h =
    ap (λ k. take k (drop r.pos r.buf)) (omega arith)
    ∙ sym (take-take len (r.size - r.pos) (drop r.pos r.buf) h)

pub reader-IsValid :
    (len : ℕ) {r : Reader} → IsValid r → len ≤ remaining r → IsValid (reader (drop r.pos r.buf) len)
reader-IsValid len {r} v h = omega (arith, length-drop r.pos r.buf)

-- How one call of a reader behaves: it takes exactly `n` bytes and depends on nothing else, or it
-- fails and leaves the cursor where it was.
pub record Takes {A : Type 0} (n : ℕ) (value : List ℕ → A) (m : Read A) : Type 0 where
  pub enough :
      (r : Reader)
      → IsValid r
      → n ≤ remaining r
      → m r ≡ (some (value (take n (rest r))), advance n r)
  pub short : (r : Reader) → remaining r < n → m r ≡ (none, r)

pub read_le-Takes : (w : Width) → Takes (size_of w) (or_from w 0 0) (read_le w)
unfolding read_le
read_le-Takes w = record {
  enough = λ r v h. ground (arith, bytes_at-rest (size_of w) r v h);
  short = λ r h. ground arith;
}

pub read_bytes-Takes : (n : ℕ) → Takes n (λ bs. bs) (read_bytes n)
unfolding read_bytes
read_bytes-Takes n = record {
  enough = λ r v h. ground (arith, bytes_at-rest n r v h);
  short = λ r h. ground arith;
}

pub read_signed-Takes :
    (w : Width) → Takes (size_of w) (λ bs. to_signed w (or_from w 0 0 bs)) (read_signed w)
unfolding read_signed read_le
read_signed-Takes w = record {
  enough = λ r v h. ground (arith, bytes_at-rest (size_of w) r v h);
  short = λ r h. ground arith;
}

-- A slice sees exactly the next `len` bytes, and is a valid reader of its own.
pub read_slice_lem :
    (len : ℕ) (r : Reader)
    → IsValid r
    → len ≤ remaining r
    → (s : Reader) × (read_slice len r ≡ (some s, advance len r))
      × (rest s ≡ take len (rest r))
      × (s.pos ≡ 0)
      × IsValid s
unfolding read_slice
read_slice_lem len r v h =
    (reader (drop r.pos r.buf) len, ground arith, rest-reader len r h, refl, reader-IsValid len v h)

pub read_slice-short : (len : ℕ) (r : Reader) → remaining r < len → read_slice len r ≡ (none, r)
unfolding read_slice
read_slice-short len r h = ground arith

pub skip_lem :
    (len : ℕ) (r : Reader)
    → (len ≤ remaining r → skip len r ≡ (true, advance len r))
      × (remaining r < len → skip len r ≡ (false, r))
unfolding skip
skip_lem len r = (λ h. ground arith, λ h. ground arith)
