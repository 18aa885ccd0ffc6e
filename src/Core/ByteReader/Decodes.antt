-- ===== src/Core/ByteReader/Decodes.antt =====
-- Two ways to say what a chain of reads does, each with its rules, so that the proof for a message
-- is a search through them.
use jam_n.Prelude.{
  ℕ, ◌+◌, ◌≤◌, ◌<◌, ◌≡◌, refl, ap, sym, ◌∙◌, List, [], ◌++◌, Option, none, some, length, take, drop,
  length-append, append_assoc, append-nil, take-append, drop-append, arith,
}
use mathlib.Core.Path.{subst}
use mathlib.Core.Option.{some-injective}
use native.Mathlib.Decide.{dec_lt}
use jam_n.Prelude.Int.{ℤ}
use jam_n.Core.Wire.{
  or_from, Width, size_of, modulus, le_bytes, to_unsigned, InRange, length-le_bytes, to_signed,
  or_from-le_bytes, to_signed-to_unsigned, to_unsigned-lt,
}
use jam_n.Core.ByteReader.{
  Reader, Read, remaining, advance, read_le, read_signed, read_bytes, after, accept, refuse, ◌>>=◌,
}
use jam_n.Core.ByteReader.Cursor.{
  IsValid, rest, length-rest, rest-advance, advance-IsValid, Takes, read_le-Takes,
  read_signed-Takes, read_bytes-Takes,
}

-- Before these bytes the decoder returns this value, and stops right behind them.
pub record Decodes {A : Type 0} (m : Read A) (bs : List ℕ) (a : A) : Type 0 where
  pub run :
      (r : Reader) (tl : List ℕ)
      → IsValid r
      → rest r ≡ bs ++ tl
      → m r ≡ (some a, advance (length bs) r)

-- The decoder accepts if and only if `n` bytes are left, whatever they are, and then takes them.
pub record Fixed {A : Type 0} (m : Read A) (n : ℕ) : Type 0 where
  pub enough : (r : Reader) → IsValid r → n ≤ remaining r → (a : A) × (m r ≡ (some a, advance n r))
  pub short : (r : Reader) → IsValid r → remaining r < n → (m r).0 ≡ none

advance-zero : (r : Reader) → r ≡ advance 0 r
advance-zero r = ground arith

advance-advance : (n k : ℕ) (r : Reader) → advance k (advance n r) ≡ advance (n + k) r
advance-advance n k r = ground arith

pub ahead : (bs tl : List ℕ) (r : Reader) → IsValid r → rest r ≡ bs ++ tl → length bs ≤ remaining r
ahead bs tl r v e = omega (arith, length-rest r v, ap length e, length-append bs tl)

pub Takes-Decodes :
    {A : Type 0} {value : List ℕ → A} {m : Read A} (bs : List ℕ) {a : A}
    → Takes (length bs) value m
    → value bs ≡ a
    → Decodes m bs a
Takes-Decodes {value = value} {m = m} bs {a} t e = record {
  run = λ r tl v h.
      t.enough r v (ahead bs tl r v h)
      ∙ ap (λ xs. (some (value xs), advance (length bs) r))
          (ap (take (length bs)) h ∙ take-append bs tl)
      ∙ ap (λ x. (some x, advance (length bs) r)) e;
}

pub Takes-Fixed :
    {A : Type 0} {n : ℕ} {value : List ℕ → A} {m : Read A} → Takes n value m → Fixed m n
Takes-Fixed {n = n} {value = value} t = record {
  enough = λ r v h. (value (take n (rest r)), t.enough r v h);
  short = λ r v h. ap (λ p. p.0) (t.short r h);
}

pub accept-Decodes : {A : Type 0} (a : A) → Decodes (accept a) [] a
accept-Decodes a = record { run = λ r tl v h. ap (λ s. (some a, s)) (advance-zero r) }

pub accept-Fixed : {A : Type 0} (a : A) → Fixed (accept a) 0
accept-Fixed a = record {
  enough = λ r v h. (a, ap (λ s. (some a, s)) (advance-zero r));
  short = λ r v h. absurd (omega arith);
}

pub bind-Decodes :
    {A B : Type 0} {m : Read A} {a : A} {b : B} (f : A → Read B) (cs bs : List ℕ)
    → Decodes m cs a
    → Decodes (f a) bs b
    → Decodes (m >>= f) (cs ++ bs) b
bind-Decodes {m = m} {b = b} f cs bs p q = record {
  run = λ r tl v h.
      let e : rest r ≡ cs ++ (bs ++ tl) = h ∙ append_assoc cs bs tl in
      let room : length cs ≤ remaining r = ahead cs (bs ++ tl) r v e in
      let next : rest (advance (length cs) r) ≡ bs ++ tl =
        rest-advance (length cs) r ∙ ap (drop (length cs)) e ∙ drop-append cs (bs ++ tl) in
      ap (λ x. after x f) (p.run r (bs ++ tl) v e)
      ∙ q.run (advance (length cs) r) tl (advance-IsValid (length cs) v room) next
      ∙ ap (λ s. (some b, s))
          (advance-advance (length cs) (length bs) r
            ∙ ap (λ n. advance n r) (sym (length-append cs bs)));
}

-- The last read of a decoder, and what it returns from it.
pub last-Decodes :
    {A B : Type 0} {m : Read A} {a : A} (g : A → B) (bs : List ℕ)
    → Decodes m bs a
    → Decodes (m >>= λ x. accept (g x)) bs (g a)
last-Decodes {a = a} g bs p =
    rw append-nil at (bind-Decodes (λ x. accept (g x)) bs [] p (accept-Decodes (g a)))

pub after-none :
    {A B : Type 0} (x : Option A × Reader) (f : A → Read B) → x.0 ≡ none → (after x f).0 ≡ none
after-none (none, r) f e = refl
after-none (some a, r) f e = cc

pub bind-Fixed :
    {A B : Type 0} {m : Read A} (f : A → Read B) (n k : ℕ)
    → Fixed m n
    → ((a : A) → Fixed (f a) k)
    → Fixed (m >>= f) (n + k)
bind-Fixed {m = m} f n k p q = record {
  enough = λ r v h.
      let (a, e) = p.enough r v (omega arith) in
      let (b, e') = (q a).enough (advance n r) (advance-IsValid n v (omega arith)) (omega arith) in
      (b, ap (λ x. after x f) e ∙ e' ∙ ap (λ s. (some b, s)) (advance-advance n k r));
  short = λ r v h. elim (dec_lt (remaining r) n) [
    | yes lt ↦ after-none (m r) f (p.short r v lt)
    | no ge ↦
        (let (a, e) = p.enough r v (omega arith) in
          ap (λ x. (after x f).0) e
          ∙ (q a).short (advance n r) (advance-IsValid n v (omega arith)) (omega arith))
  ];
}

pub read_le-Decodes : (w : Width) (v : ℕ) → v < modulus w → Decodes (read_le w) (le_bytes w v) v
read_le-Decodes w v h =
    Takes-Decodes {value = or_from w 0 0} (le_bytes w v)
      (rw (length-le_bytes w v) (read_le-Takes w)) (or_from-le_bytes w v h)

pub read_signed-Decodes :
    (w : Width) (z : ℤ) → InRange w z → Decodes (read_signed w) (le_bytes w (to_unsigned w z)) z
read_signed-Decodes w z h =
    Takes-Decodes {value = λ bs. to_signed w (or_from w 0 0 bs)} (le_bytes w (to_unsigned w z))
      (rw (length-le_bytes w (to_unsigned w z)) (read_signed-Takes w))
      (ap (to_signed w) (or_from-le_bytes w (to_unsigned w z) (to_unsigned-lt w z))
        ∙ to_signed-to_unsigned w z h)

pub read_bytes-Decodes : (n : ℕ) (bs : List ℕ) → length bs ≡ n → Decodes (read_bytes n) bs bs
read_bytes-Decodes n bs e = Takes-Decodes {value = λ xs. xs} bs (rw e (read_bytes-Takes n)) refl

pub read_le-Fixed : (w : Width) → Fixed (read_le w) (size_of w)
read_le-Fixed w = Takes-Fixed (read_le-Takes w)

pub read_signed-Fixed : (w : Width) → Fixed (read_signed w) (size_of w)
read_signed-Fixed w = Takes-Fixed (read_signed-Takes w)

pub read_bytes-Fixed : (n : ℕ) → Fixed (read_bytes n) n
read_bytes-Fixed n = Takes-Fixed (read_bytes-Takes n)

-- One field of a message, and the fields behind it.
module _ {B : Type 0} (bs : List ℕ) {b : B} where
  pub le_field :
      (w : Width) (v : ℕ) (f : ℕ → Read B)
      → v < modulus w
      → Decodes (f v) bs b
      → Decodes (read_le w >>= f) (le_bytes w v ++ bs) b
  le_field w v f h d = bind-Decodes f (le_bytes w v) bs (read_le-Decodes w v h) d

  pub signed_field :
      (w : Width) (z : ℤ) (f : ℤ → Read B)
      → InRange w z
      → Decodes (f z) bs b
      → Decodes (read_signed w >>= f) (le_bytes w (to_unsigned w z) ++ bs) b
  signed_field w z f h d =
      bind-Decodes f (le_bytes w (to_unsigned w z)) bs (read_signed-Decodes w z h) d

  pub bytes_field :
      (n : ℕ) (xs : List ℕ) (f : List ℕ → Read B)
      → length xs ≡ n
      → Decodes (f xs) bs b
      → Decodes (read_bytes n >>= f) (xs ++ bs) b
  bytes_field n xs f h d = bind-Decodes f xs bs (read_bytes-Decodes n xs h) d

-- Whatever the bytes are, a value that the decoder returns has the property.
pub record Yields {A : Type 0} (m : Read A) (P : A → Type 0) : Type 0 where
  pub holds : (r : Reader) (a : A) → (m r).0 ≡ some a → P a

after-Yields :
    {A B : Type 0} {Q : A → Type 0} {P : B → Type 0} (f : A → Read B) (x : Option A × Reader)
    (b : B)
    → ((a : A) → x.0 ≡ some a → Q a)
    → ((a : A) → Q a → Yields (f a) P)
    → (after x f).0 ≡ some b
    → P b
after-Yields f (none, r) b q y e = cc
after-Yields f (some a, r) b q y e = (y a (q a refl)).holds r b e

pub bind-Yields :
    {A B : Type 0} {Q : A → Type 0} {P : B → Type 0} {m : Read A} (f : A → Read B)
    → Yields m Q
    → ((a : A) → Q a → Yields (f a) P)
    → Yields (m >>= f) P
bind-Yields {m = m} f q y = record { holds = λ r b e. after-Yields f (m r) b (q.holds r) y e }

-- Nothing is known of a value where nothing is asked of it.
pub any-Yields : {A : Type 0} (m : Read A) → Yields m (λ _. Unit {0})
any-Yields m = record { holds = λ r a e. tt }

pub accept-Yields : {A : Type 0} (P : A → Type 0) (a : A) → P a → Yields (accept a) P
accept-Yields P a p = record { holds = λ r b e. subst P (some-injective a b e) p }

pub refuse-Yields : {A : Type 0} (P : A → Type 0) → Yields (refuse {A = A}) P
refuse-Yields P = record { holds = λ r b e. cc }
