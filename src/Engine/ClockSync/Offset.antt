-- ===== src/Engine/ClockSync/Offset.antt =====
-- What one exchange, and the best exchange of the window, say about the clocks' offset.
use jam_n.Prelude.{
  ℕ, ◌+◌, ◌≤◌, ◌≡◌, ◌⊎◌, refl, ap, sym, ◌∙◌, Bool, true, false, List, [], ◌∷◌, inl, inr, Bool-cases,
  take, arith,
}
use mathlib.Core.Path.{subst}
use mathlib.Core.List.{Memᴰ}
use mathlib.Core.List.Memᴰ.{head, tail, cases_cons}
use jam_n.Prelude.Int.{ℤ, pos, ◌+ℤ◌, ◌-ℤ◌, ◌≤ℤ◌, ◌<ℤ◌, int_laws}
use jam_n.Core.Quotient.{quot}
use jam_n.Engine.ClockSync.{
  ClockSyncSample, WindowEntry, rtt, offset, better, best_of, min_rtt_offset_us,
}

-- An exchange with a peer whose clock is `ahead`: `out` and `back` are the two paths' delays.
pub exchange : ℤ → ℤ → ℕ → ℕ → ℕ → ClockSyncSample
exchange t1 ahead out think back = record {
  t1 = t1;
  t2 = t1 +ℤ pos out +ℤ ahead;
  t3 = t1 +ℤ pos out +ℤ ahead +ℤ pos think;
  t4 = t1 +ℤ pos out +ℤ pos think +ℤ pos back;
}

half_exact : (a b : ℤ) → a ≡ b +ℤ b → quot a 2 ≡ b
unfolding ◌+ℤ◌
half_exact a b e = ground arith

quot-near : (a : ℤ) → (quot a 2 +ℤ quot a 2 ≤ℤ a +ℤ pos 1) × (a ≤ℤ quot a 2 +ℤ quot a 2 +ℤ pos 1)
unfolding ◌+ℤ◌
quot-near a = (ground arith, ground arith)

half_near :
    (a b : ℤ) (d : ℕ)
    → a ≤ℤ b +ℤ b +ℤ pos d
    → b +ℤ b ≤ℤ a +ℤ pos d
    → (quot a 2 +ℤ quot a 2 ≤ℤ b +ℤ b +ℤ pos d +ℤ pos 1)
      × (b +ℤ b ≤ℤ quot a 2 +ℤ quot a 2 +ℤ pos d +ℤ pos 1)
half_near a b d h k = let (low, high) = quot-near a in (omega int_laws, omega int_laws)

pub exchange-rtt :
    (t1 ahead : ℤ) (out think back : ℕ) → rtt (exchange t1 ahead out think back) ≡ pos (out + back)
unfolding exchange rtt
exchange-rtt t1 ahead out think back = omega int_laws

twice :
    (t1 ahead : ℤ) (out think : ℕ)
    → (t1 +ℤ pos out +ℤ ahead -ℤ t1)
        +ℤ (t1 +ℤ pos out +ℤ ahead +ℤ pos think -ℤ (t1 +ℤ pos out +ℤ pos think +ℤ pos out))
      ≡ ahead +ℤ ahead
twice t1 ahead out think = omega int_laws

twice_near :
    (t1 ahead : ℤ) (out think back : ℕ)
    → ((t1 +ℤ pos out +ℤ ahead -ℤ t1)
          +ℤ (t1 +ℤ pos out +ℤ ahead +ℤ pos think -ℤ (t1 +ℤ pos out +ℤ pos think +ℤ pos back))
        ≤ℤ ahead +ℤ ahead +ℤ pos (out + back))
      × (ahead +ℤ ahead
          ≤ℤ (t1 +ℤ pos out +ℤ ahead -ℤ t1)
            +ℤ (t1 +ℤ pos out +ℤ ahead +ℤ pos think -ℤ (t1 +ℤ pos out +ℤ pos think +ℤ pos back))
            +ℤ pos (out + back))
twice_near t1 ahead out think back = (omega int_laws, omega int_laws)

-- When both ways take the same time, Offset() is exactly how far the peer's clock is ahead.
pub offset-exchange :
    (t1 ahead : ℤ) (out think : ℕ) → offset (exchange t1 ahead out think out) ≡ ahead
unfolding exchange offset
offset-exchange t1 ahead out think = half_exact _ ahead (twice t1 ahead out think)

-- Whatever the two ways take: Rtt() is the two together, and Offset() is off by at most half of it
-- (and half a microsecond, by the rounding).
pub exchange-near :
    (t1 ahead : ℤ) (out think back : ℕ)
    → (rtt (exchange t1 ahead out think back) ≡ pos (out + back))
      × (offset (exchange t1 ahead out think back) +ℤ offset (exchange t1 ahead out think back)
          ≤ℤ ahead +ℤ ahead +ℤ pos (out + back) +ℤ pos 1)
      × (ahead +ℤ ahead
          ≤ℤ offset (exchange t1 ahead out think back)
            +ℤ offset (exchange t1 ahead out think back)
            +ℤ pos (out + back)
            +ℤ pos 1)
unfolding exchange offset
exchange-near t1 ahead out think back =
    let (high, low) = twice_near t1 ahead out think back in
    let (upper, lower) = half_near _ ahead (out + back) high low in
    (exchange-rtt t1 ahead out think back, upper, lower)

better_trans : (a b c : WindowEntry) → better a b ≡ true → better b c ≡ true → better a c ≡ true
unfolding better
better_trans a b c h k = ground arith

not_better_trans :
    (a b c : WindowEntry) → better a b ≡ false → better b c ≡ false → better a c ≡ false
unfolding better
not_better_trans a b c h k = ground arith

not_better_self : (a : WindowEntry) → better a a ≡ false
unfolding better
not_better_self a = ground arith

-- The test finds no entry of the list better.
abbrev NoneBetter : WindowEntry → List WindowEntry → Type 0
NoneBetter best [] = Unit {0}
NoneBetter best (e ∷ es) = (better e best ≡ false) × NoneBetter best es

-- Each entry's round trip is longer, or the same with no later number.
abbrev pub Least : WindowEntry → List WindowEntry → Type 0
Least best [] = Unit {0}
Least best (e ∷ es) =
    ((rtt best.sample <ℤ rtt e.sample) ⊎ ((rtt best.sample ≡ rtt e.sample) × (e.seq ≤ best.seq)))
    × Least best es

not_better :
    (e best : WindowEntry)
    → better e best ≡ false
    → (rtt best.sample <ℤ rtt e.sample) ⊎ ((rtt best.sample ≡ rtt e.sample) × (e.seq ≤ best.seq))
unfolding better
not_better e best h = ground arith

NoneBetter-Least : (best : WindowEntry) (es : List WindowEntry) → NoneBetter best es → Least best es
NoneBetter-Least best [] n = tt
NoneBetter-Least best (e ∷ es) (h, n) = (not_better e best h, NoneBetter-Least best es n)

not_true : (b : Bool) → (b ≡ true → false ≡ true) → b ≡ false
not_true true h = sym (h refl)
not_true false h = refl

-- The choice `best_of` makes at an entry.
best_of_wins :
    (e y : WindowEntry) (es : List WindowEntry)
    → better y e ≡ true
    → best_of e (y ∷ es) ≡ best_of y es
unfolding best_of
best_of_wins e y es h = rw h

best_of_stays :
    (e y : WindowEntry) (es : List WindowEntry)
    → better y e ≡ false
    → best_of e (y ∷ es) ≡ best_of e es
unfolding best_of
best_of_stays e y es h = rw h

choose :
    (e : WindowEntry) (es : List WindowEntry)
    → Memᴰ (best_of e es) (e ∷ es) × NoneBetter (best_of e es) (e ∷ es)
unfolding best_of
choose e [] = (head refl, (not_better_self e, tt))
choose e (y ∷ es) = elim (Bool-cases (better y e)) [
  | inl wins ↦
      let (found, (than_y, others)) = choose y es in
      subst (λ best. Memᴰ best (e ∷ y ∷ es) × NoneBetter best (e ∷ y ∷ es))
        (sym (best_of_wins e y es wins))
        (
          tail found,
          (not_true _ (λ t. sym than_y ∙ better_trans y e (best_of y es) wins t), (than_y, others)),
        )
  | inr stays ↦
      let (found, (than_e, others)) = choose e es in
      subst (λ best. Memᴰ best (e ∷ y ∷ es) × NoneBetter best (e ∷ y ∷ es))
        (sym (best_of_stays e y es stays))
        (
          elim (cases_cons found) [ inl same ↦ head same | inr later ↦ tail (tail later) ],
          (than_e, (not_better_trans y e (best_of e es) stays than_e, others)),
        )
]

-- Of a window, the offset of its first `count + 1` entries is that of one of them, and each of them has a
-- longer round trip than this one, or the same round trip and no later number.
pub min_rtt_offset_us_lem :
    (e : WindowEntry) (es : List WindowEntry) (count : ℕ)
    → (best : WindowEntry) × (min_rtt_offset_us (e ∷ es) (count + 1) ≡ offset best.sample)
      × Memᴰ best (e ∷ take count es)
      × Least best (e ∷ take count es)
unfolding min_rtt_offset_us
min_rtt_offset_us_lem e es count =
    let (found, least) = choose e (take count es) in
    (
      best_of e (take count es),
      ap (λ n. offset (best_of e (take n es)).sample) (omega arith),
      found,
      NoneBetter-Least (best_of e (take count es)) (e ∷ take count es) least,
    )
