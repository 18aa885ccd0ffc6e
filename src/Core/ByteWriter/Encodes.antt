-- ===== src/Core/ByteWriter/Encodes.antt =====
-- What a chain of writes stores, its rules, and the bytes that the caller finds in the buffer.
use jam_n.Prelude.{
  ℕ, zero, suc, ◌+◌, ◌≤◌, ◌<◌, ◌≡◌, refl, ap, sym, ◌∙◌, List, [], ◌∷◌, ◌++◌, Bool, true, false,
  length, take, set, length-set, length-append, append_assoc, append-nil, arith,
}
use native.Mathlib.Decide.{dec_lt}
use jam_n.Core.Wire.{Width, le_bytes, length-le_bytes}
use jam_n.Core.ByteWriter.{
  Writer, Write, remaining, splice, emit, write_le, write_bytes, after, done, ◌>>◌,
}

-- The cursor lies within the capacity, and that within the array.
pub record IsValid (w : Writer) : Type 0 where
  pub pos_in : w.pos ≤ w.capacity
  pub capacity_in : w.capacity ≤ length w.buf

-- The bytes in front of the cursor: what the caller sends.
abbrev pub written : Writer → List ℕ
written w = take w.pos w.buf

-- The chain stores exactly these bytes if they fit, and returns false if they do not.
pub record Encodes (m : Write) (bs : List ℕ) : Type 0 where
  pub fits : (w : Writer) → IsValid w → length bs ≤ remaining w → m w ≡ (true, emit bs w)
  pub full : (w : Writer) → IsValid w → remaining w < length bs → (m w).0 ≡ false

pub length-splice : (bs : List ℕ) (at : ℕ) (buf : List ℕ) → length (splice buf at bs) ≡ length buf
length-splice [] at buf = refl
length-splice (b ∷ bs) at buf = length-splice bs (at + 1) (set buf at b) ∙ length-set buf at b

splice-append :
    (cs bs : List ℕ) (at : ℕ) (buf : List ℕ)
    → splice (splice buf at cs) (at + length cs) bs ≡ splice buf at (cs ++ bs)
splice-append [] bs at buf = ap (λ k. splice buf k bs) (omega arith)
splice-append (c ∷ cs) bs at buf =
    ap (λ k. splice (splice (set buf at c) (at + 1) cs) k bs) (omega arith)
    ∙ splice-append cs bs (at + 1) (set buf at c)

take-set :
    (buf : List ℕ) (at b : ℕ)
    → at < length buf
    → take (suc at) (set buf at b) ≡ take at buf ++ b ∷ []
take-set [] at b h = absurd (omega arith)
take-set (x ∷ xs) zero b h = refl
take-set (x ∷ xs) (suc at) b h = ap (λ ys. x ∷ ys) (take-set xs at b (omega arith))

take-splice :
    (bs : List ℕ) (at : ℕ) (buf : List ℕ)
    → at + length bs ≤ length buf
    → take (at + length bs) (splice buf at bs) ≡ take at buf ++ bs
take-splice [] at buf h = ap (λ k. take k buf) (omega arith) ∙ sym (append-nil (take at buf))
take-splice (b ∷ bs) at buf h =
    ap (λ k. take k (splice (set buf at b) (at + 1) bs)) (omega arith)
    ∙ take-splice bs (at + 1) (set buf at b) (omega (arith, length-set buf at b))
    ∙ ap (λ k. take k (set buf at b) ++ bs) {y = suc at} (omega arith)
    ∙ ap (λ ys. ys ++ bs) (take-set buf at b (omega arith))
    ∙ append_assoc (take at buf) (b ∷ []) bs

pub emit-emit : (cs bs : List ℕ) (w : Writer) → emit bs (emit cs w) ≡ emit (cs ++ bs) w
emit-emit cs bs w = ground (arith, splice-append cs bs w.pos w.buf, length-append cs bs)

pub emit-IsValid :
    (bs : List ℕ) {w : Writer} → IsValid w → length bs ≤ remaining w → IsValid (emit bs w)
emit-IsValid bs {w} v h = omega (arith, length-splice bs w.pos w.buf)

-- Behind what was written before, the caller finds the bytes of the message.
pub written-emit :
    (bs : List ℕ) (w : Writer)
    → IsValid w
    → length bs ≤ remaining w
    → written (emit bs w) ≡ written w ++ bs
written-emit bs w v h = take-splice bs w.pos w.buf (omega arith)

pub done-Encodes : Encodes done []
done-Encodes = record {
  fits = λ w v h. ap (λ x. (true, x)) (ground arith);
  full = λ w v h. absurd (omega arith);
}

pub write_bytes-Encodes : (bs : List ℕ) → Encodes (write_bytes bs) bs
unfolding write_bytes
write_bytes-Encodes bs = record { fits = λ w v h. ground arith; full = λ w v h. ground arith }

pub write_le-Encodes : (t : Width) (v : ℕ) → Encodes (write_le t v) (le_bytes t v)
unfolding write_le
write_le-Encodes t v = record {
  fits = λ w u h. ground (arith, length-le_bytes t v);
  full = λ w u h. ground (arith, length-le_bytes t v);
}

after-false : (x : Bool × Writer) (k : Write) → x.0 ≡ false → (after x k).0 ≡ false
after-false (false, w) k e = refl
after-false (true, w) k e = cc

pub chain-Encodes :
    {m : Write} (k : Write) (cs bs : List ℕ)
    → Encodes m cs
    → Encodes k bs
    → Encodes (m >> k) (cs ++ bs)
chain-Encodes {m} k cs bs p q = record {
  fits = λ w v h.
      let room : length cs + length bs ≤ remaining w = omega (arith, length-append cs bs) in
      ap (λ x. after x k) (p.fits w v (omega arith))
      ∙ q.fits (emit cs w) (emit-IsValid cs v (omega arith)) (omega arith)
      ∙ ap (λ x. (true, x)) (emit-emit cs bs w);
  full = λ w v h. elim (dec_lt (remaining w) (length cs)) [
    | yes lt ↦ after-false (m w) k (p.full w v lt)
    | no ge ↦
        ap (λ x. (after x k).0) (p.fits w v (omega arith))
        ∙ q.full (emit cs w) (emit-IsValid cs v (omega arith)) (omega (arith, length-append cs bs))
  ];
}

-- One field, and the fields behind it.
pub le_field :
    (bs : List ℕ) (t : Width) (v : ℕ) (k : Write)
    → Encodes k bs
    → Encodes (write_le t v >> k) (le_bytes t v ++ bs)
le_field bs t v k e = chain-Encodes k (le_bytes t v) bs (write_le-Encodes t v) e

pub bytes_field :
    (bs xs : List ℕ) (k : Write) → Encodes k bs → Encodes (write_bytes xs >> k) (xs ++ bs)
bytes_field bs xs k e = chain-Encodes k xs bs (write_bytes-Encodes xs) e
