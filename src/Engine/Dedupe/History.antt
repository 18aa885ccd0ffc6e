-- ===== src/Engine/Dedupe/History.antt =====
-- Against the counts behind the wrapped sequence numbers: what one peer's ring lets through.
use jam_n.Prelude.{
  ℕ, ◌+◌, ◌%◌, ◌^◌, ◌≤◌, ◌<◌, max, ◌≡◌, ◌≢◌, refl, ap, ◌⊎◌, inl, inr, Bool, true, false, ◌&&◌, List,
  [], ◌∷◌, if◌then◌else◌, ◌==◌, arith,
}
use mathlib.Core.Path.{subst}
use jam_n.Prelude.Int.{negsuc, leb_ℤ}
use jam_n.Engine.Serial.{distance16, is_newer_serial}
use jam_n.Engine.Dedupe.{PeerRing, Slot, new_ring, store, too_old, repeated, recorded, check}

-- A sender's `count`-th event travels under the number that is left of it.
abbrev pub wrap : ℕ → ℕ
wrap count = count % 2 ^ 16

-- The greatest count let through so far.
abbrev pub highest : List ℕ → ℕ
highest [] = 0
highest (m ∷ ms) = max m (highest ms)

-- Less than half the number space from the greatest, as IsNewerSerial asks.
abbrev pub Near : ℕ → List ℕ → Type 0
Near n seen = (seen ≡ []) ⊎ ((n < highest seen + 2 ^ 15) × (highest seen < n + 2 ^ 15))

-- The ring after some arrivals, and the counts let through, latest first.
pub data History (peer : ℕ) : List ℕ → PeerRing → Type 0 where
  start : History peer [] (new_ring peer)
  let_through :
      {seen : List ℕ} {ring ring' : PeerRing} (n : ℕ)
      → History peer seen ring
      → Near n seen
      → check ring (wrap n) ≡ (false, ring')
      → History peer (n ∷ seen) ring'
  discarded :
      {seen : List ℕ} {ring ring' : PeerRing} (n : ℕ)
      → History peer seen ring
      → Near n seen
      → check ring (wrap n) ≡ (true, ring')
      → History peer seen ring'

abbrev pub Fresh : ℕ → List ℕ → Type 0
Fresh n [] = Unit {0}
Fresh n (m ∷ ms) = (n ≢ m) × Fresh n ms

abbrev pub Distinct : List ℕ → Type 0
Distinct [] = Unit {0}
Distinct (m ∷ ms) = Fresh m ms × Distinct ms

-- The counts of the last window are in their slots.
abbrev Stored : ℕ → (ℕ → Slot) → List ℕ → Type 0
Stored top slots [] = Unit {0}
Stored top slots (m ∷ ms) =
    (m ≤ top)
    × (top < m + 1024
        → ((slots (wrap m % 1024)).valid ≡ true) × ((slots (wrap m % 1024)).seq ≡ wrap m))
    × Stored top slots ms

record Inv (seen : List ℕ) (ring : PeerRing) : Type 0 where
  state :
      ((seen ≡ []) × (ring.have_highest ≡ false))
      ⊎ ((seen ≢ []) × (ring.have_highest ≡ true) × (ring.highest_seq ≡ wrap (highest seen)))
  stored : Stored (highest seen) ring.slots seen
  distinct : Distinct seen

passed_false :
    (a b : Bool) (r s t : PeerRing)
    → ◌≡◌ {A = Bool × PeerRing}
        (if a then (true, r) else if b then (true, r) else (false, s))
        (false, t)
    → (a ≡ false) × (b ≡ false) × (s ≡ t)
passed_false true b r s t e = absurd (cc)
passed_false false true r s t e = absurd (cc)
passed_false false false r s t e = (refl, refl, ap (λ x. x.1) e)

passed_true :
    (a b : Bool) (r s t : PeerRing)
    → ◌≡◌ {A = Bool × PeerRing}
        (if a then (true, r) else if b then (true, r) else (false, s))
        (true, t)
    → r ≡ t
passed_true true b r s t e = ap (λ x. x.1) e
passed_true false true r s t e = ap (λ x. x.1) e
passed_true false false r s t e = absurd (cc)

check-false :
    (ring ring' : PeerRing) (q : ℕ)
    → check ring q ≡ (false, ring')
    → (too_old ring q ≡ false) × (repeated ring q ≡ false) × (recorded ring q ≡ ring')
unfolding check
check-false ring ring' q e =
    passed_false (too_old ring q) (repeated ring q) ring (recorded ring q) ring' e

check-true : (ring ring' : PeerRing) (q : ℕ) → check ring q ≡ (true, ring') → ring ≡ ring'
unfolding check
check-true ring ring' q e =
    passed_true (too_old ring q) (repeated ring q) ring (recorded ring q) ring' e

leb_distance :
    (n top : ℕ)
    → n < top + 2 ^ 15
    → top < n + 2 ^ 15
    → leb_ℤ (distance16 (wrap n) (wrap top)) (negsuc 1023) ≡ false
    → top < n + 1024
leb_distance n top h k e = ground arith

Fresh-from :
    (top n : ℕ) (slots : ℕ → Slot) (ms : List ℕ)
    → Stored top slots ms
    → top < n + 1024
    → (slots (wrap n % 1024)).valid && (slots (wrap n % 1024)).seq == wrap n ≡ false
    → Fresh n ms
Fresh-from top n slots [] st h e = tt
Fresh-from top n slots (m ∷ ms) (le, kept, st) h e =
    (λ same. ground (arith, kept (omega arith)), Fresh-from top n slots ms st h e)

Stored-on :
    (top n : ℕ) (slots : ℕ → Slot) (ms : List ℕ)
    → Stored top slots ms
    → Fresh n ms
    → top < n + 1024
    → Stored (max n top) (store slots (wrap n % 1024) (record { seq = wrap n; valid = true })) ms
Stored-on top n slots [] st f h = tt
Stored-on top n slots (m ∷ ms) (le, kept, st) (ne, f) h = (
  omega arith,
  λ near. ground (arith, kept (omega arith), apart near),
  Stored-on top n slots ms st f h,
)
  where
    apart : max n top < m + 1024 → wrap n % 1024 ≢ wrap m % 1024
    apart near = omega arith

not_old :
    (ring : PeerRing) (q top : ℕ)
    → ring.have_highest ≡ true
    → ring.highest_seq ≡ top
    → too_old ring q ≡ false
    → leb_ℤ (distance16 q top) (negsuc 1023) ≡ false
not_old ring q top h e old = rw (h, e) at old

window :
    {seen : List ℕ} {ring : PeerRing} (n : ℕ)
    → Inv seen ring
    → Near n seen
    → too_old ring (wrap n) ≡ false
    → highest seen < n + 1024
window {seen} {ring} n v (inl e) old = rw e (omega arith)
window {seen} {ring} n v (inr (a, b)) old = elim v.state [
  | inl (e, _) ↦ rw e (omega arith)
  | inr (_, have, top) ↦
      leb_distance n (highest seen) a b (not_old ring (wrap n) (wrap (highest seen)) have top old)
]

ite_same : (b : Bool) → (if b then true else true) ≡ true
ite_same true = refl
ite_same false = refl

moved :
    (n top : ℕ)
    → n < top + 2 ^ 15
    → top < n + 2 ^ 15
    → (if is_newer_serial (wrap n) (wrap top) then wrap n else wrap top) ≡ wrap (max n top)
moved n top h k = ground arith

moves_top :
    {seen : List ℕ} {ring : PeerRing} (n : ℕ)
    → Inv seen ring
    → Near n seen
    → ((recorded ring (wrap n)).have_highest ≡ true)
      × ((recorded ring (wrap n)).highest_seq ≡ wrap (highest (n ∷ seen)))
moves_top {seen} {ring} n v near = elim v.state [
  | inl (e, have) ↦ rw (have, e) (refl, ap wrap (omega arith))
  | inr (some_seen, have, top) ↦ elim near [
    | inl none_seen ↦ absurd (some_seen none_seen)
    | inr (a, b) ↦ rw (have, top) (ite_same _, moved n (highest seen) a b)
  ]
]

arrive :
    {seen : List ℕ} {ring ring' : PeerRing} (n : ℕ)
    → Inv seen ring
    → Near n seen
    → check ring (wrap n) ≡ (false, ring')
    → Inv (n ∷ seen) ring'
arrive {seen} {ring} n v near e =
    let (old, rep, same) = check-false ring _ (wrap n) e in
    let recent = window n v near old in
    let (have, top) = moves_top n v near in
    let fresh = Fresh-from (highest seen) n ring.slots seen v.stored recent rep in
    subst (Inv (n ∷ seen)) same (record {
      state = inr (λ e. absurd (cc), have, top);
      stored = (
        omega arith,
        λ _. ground arith,
        Stored-on (highest seen) n ring.slots seen v.stored fresh recent,
      );
      distinct = (fresh, v.distinct);
    })

History-Inv : {peer : ℕ} {seen : List ℕ} {ring : PeerRing} → History peer seen ring → Inv seen ring
History-Inv start = record { state = inl (refl, refl); stored = tt; distinct = tt }
History-Inv (let_through n h near e) = arrive n (History-Inv h) near e
History-Inv (discarded {seen = seen} {ring = ring} {ring' = ring'} n h near e) =
    subst (Inv seen) (check-true ring ring' (wrap n) e) (History-Inv h)

-- However packets repeat and overtake each other, as long as no count is half the number space away
-- from the greatest one let through: no event is let through twice.
pub History-Distinct :
    {peer : ℕ} {seen : List ℕ} {ring : PeerRing} → History peer seen ring → Distinct seen
History-Distinct h = (History-Inv h).distinct
