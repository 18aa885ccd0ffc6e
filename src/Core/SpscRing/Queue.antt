-- ===== src/Core/SpscRing/Queue.antt =====
-- Called one at a time, `Push` and `Pop` are a bounded first-in first-out queue.
use jam_n.Prelude.{
  ℕ, zero, suc, ◌+◌, ◌-◌, ◌%◌, ◌≤◌, ◌<◌, ◌≡◌, ◌≢◌, refl, ap, ◌∙◌, ◌⊎◌, inl, inr, List, [], ◌∷◌,
  ◌++◌, Bool, true, false, Option, none, some, ltb, get_or, set, get_or-set_self, get_or-set_ne,
  length, replicate, length-set, length-replicate, arith,
}
use native.Mathlib.Nat.{mod-eq_of_lt}
use native.Mathlib.Decide.{dec_lt, ℕ_discrete}
use jam_n.Core.SpscRing.{Ring, slots, empty, advance, push, pop, size_approx}

pub record IsValid {A : Type 0} (r : Ring A) : Type 0 where
  pub storage : length r.buffer ≡ slots r
  pub head_in : r.head < slots r
  pub tail_in : r.tail < slots r

mod_wrap : (k n : ℕ) → k < n → (k + n) % n ≡ k
mod_wrap k n h = grind arith

pub advance_cases :
    (n i : ℕ) → i < n → ((i + 1 < n) × (advance n i ≡ i + 1)) ⊎ ((i + 1 ≡ n) × (advance n i ≡ 0))
unfolding advance
advance_cases n i h = elim (dec_lt (i + 1) n) [
  | yes lt ↦ inl (lt, mod-eq_of_lt lt)
  | no ge ↦
      (let e : i + 1 ≡ 0 + n = omega arith in
        inr (e ∙ omega arith, ap (λ t. t % n) e ∙ mod_wrap 0 n (omega arith)))
]

pub size_cases :
    {A : Type 0} (r : Ring A)
    → IsValid r
    → ((r.tail ≤ r.head) × (size_approx r + r.tail ≡ r.head))
      ⊎ ((r.head < r.tail) × (size_approx r + r.tail ≡ r.head + slots r))
unfolding size_approx
size_cases r v = elim (dec_lt r.head r.tail) [
  | yes lt ↦
      inr (
        lt,
        omega (arith, mod-eq_of_lt {n = r.head + slots r - r.tail} {m = slots r} (omega arith)),
      )
  | no ge ↦ inl (
    omega arith,
    omega (
      arith,
      ap (λ t. t % slots r)
          (let e : r.head + slots r - r.tail ≡ r.head - r.tail + slots r = omega arith in e),
      mod_wrap (r.head - r.tail) (slots r) (omega arith),
    ),
  )
]

module _ {A : Type 0} (blank : A) where
  -- The `n` values from index `i` on, round the end of the array.
  abbrev pub window : ℕ → List A → ℕ → ℕ → List A
  window m buf i zero = []
  window m buf i (suc n) = get_or buf i blank ∷ window m buf (advance m i) n

  length-window : (m : ℕ) (buf : List A) (i n : ℕ) → length (window m buf i n) ≡ n
  length-window m buf i zero = refl
  length-window m buf i (suc n) = ap suc (length-window m buf (advance m i) n)

  -- A value stored just behind a window extends it.
  pub window-set :
      (m : ℕ) (buf : List A) (x : A) (n i j : ℕ)
      → length buf ≡ m
      → i < m
      → j < m
      → suc n < m + 1
      → (i + n ≡ j) ⊎ (i + n ≡ j + m)
      → window m (set buf j x) i (suc n) ≡ window m buf i n ++ x ∷ []
  window-set m buf x zero i j len hi hj hn at =
      ap (λ k. get_or (set buf j x) k blank ∷ []) (let e : i ≡ j = omega arith in e)
      ∙ ap (λ v. v ∷ []) (get_or-set_self buf j x blank (omega arith))
  window-set m buf x (suc n) i j len hi hj hn at =
      ap (λ v. v ∷ window m (set buf j x) (advance m i) (suc n))
        (get_or-set_ne buf j i x blank (λ e. omega arith))
      ∙ ap (λ vs. get_or buf i blank ∷ vs)
          (window-set m buf x n (advance m i) j len (omega (arith, advance_cases m i hi)) hj
            (omega arith) (omega (arith, advance_cases m i hi)))

  -- Oldest first.
  abbrev pub contents : Ring A → List A
  contents r = window (slots r) r.buffer r.tail (size_approx r)

  pub length-contents : (r : Ring A) → length (contents r) ≡ size_approx r
  length-contents r = length-window (slots r) r.buffer r.tail (size_approx r)

  pub empty-IsValid : (capacity : ℕ) → IsValid (empty blank capacity)
  unfolding empty
  empty-IsValid capacity = omega (arith, length-replicate (capacity + 1) blank)

  -- The ring one short of the reader's index is full: the free slot tells it from an empty one.
  pub push_cases :
      (r : Ring A) (x : A)
      → IsValid r
      → ((size_approx r ≡ r.capacity) × (push r x ≡ (false, r)))
        ⊎ ((suc (size_approx r) ≤ r.capacity)
            × (r' : Ring A) × (push r x ≡ (true, r'))
            × IsValid r'
            × (r'.capacity ≡ r.capacity)
            × (contents r' ≡ contents r ++ x ∷ []))
  unfolding push
  push_cases r x v = elim (ℕ_discrete next r.tail) [
    | yes e ↦ inl (omega (arith, size_cases r v, adv), ground arith)
    | no ne ↦ inr (room ne, r', ground arith, valid, refl, extended ne)
  ]
    where
      next : ℕ
      next = advance (slots r) r.head

      adv : ((r.head + 1 < slots r) × (next ≡ r.head + 1)) ⊎ ((r.head + 1 ≡ slots r) × (next ≡ 0))
      adv = advance_cases (slots r) r.head v.head_in

      r' : Ring A
      r' = record r { buffer = set r.buffer r.head x; head = next }

      valid : IsValid r'
      valid = omega (arith, length-set r.buffer r.head x, adv)

      room : next ≢ r.tail → suc (size_approx r) ≤ r.capacity
      room ne = omega (arith, size_cases r v, adv)

      grown : next ≢ r.tail → size_approx r' ≡ suc (size_approx r)
      grown ne = omega (arith, size_cases r v, size_cases r' valid, adv)

      extended : next ≢ r.tail → contents r' ≡ contents r ++ x ∷ []
      extended ne =
          ap (window (slots r) (set r.buffer r.head x) r.tail) (grown ne)
          ∙ window-set (slots r) r.buffer x (size_approx r) r.tail r.head v.storage v.tail_in
              v.head_in (omega (arith, room ne)) (omega (arith, size_cases r v))

  pub pop_cases :
      (r : Ring A)
      → IsValid r
      → ((contents r ≡ []) × (pop blank r ≡ (none, r)))
        ⊎ ((x : A) × (r' : Ring A) × (pop blank r ≡ (some x, r'))
            × IsValid r'
            × (r'.capacity ≡ r.capacity)
            × (contents r ≡ x ∷ contents r'))
  unfolding pop
  pop_cases r v = elim (ℕ_discrete r.tail r.head) [
    | yes e ↦ inl (
      ap (window (slots r) r.buffer r.tail) {y = 0} (omega (arith, size_cases r v)),
      ground arith,
    )
    | no ne ↦ inr (
      get_or r.buffer r.tail blank,
      r',
      ground arith,
      valid,
      refl,
      ap (window (slots r) r.buffer r.tail) (shrunk ne),
    )
  ]
    where
      adv :
          ((r.tail + 1 < slots r) × (advance (slots r) r.tail ≡ r.tail + 1))
          ⊎ ((r.tail + 1 ≡ slots r) × (advance (slots r) r.tail ≡ 0))
      adv = advance_cases (slots r) r.tail v.tail_in

      r' : Ring A
      r' = record r { tail = advance (slots r) r.tail }

      valid : IsValid r'
      valid = omega (arith, adv)

      shrunk : r.tail ≢ r.head → size_approx r ≡ suc (size_approx r')
      shrunk ne = omega (arith, size_cases r v, size_cases r' valid, adv)

-- What a client asks of a ring, and what it sees of it.
pub data Op (A : Type 0) : Type 0 where
  put : A → Op A
  get : Op A

module _ {A : Type 0} (blank : A) where
  -- The calls of `ops` in turn, with what each returns.
  pub run : Ring A → List (Op A) → List (Bool × Option A)
  run r [] = []
  run r (put x ∷ ops) = let (pushed, r') = push r x in (pushed, none) ∷ run r' ops
  run r (get ∷ ops) = let (o, r') = pop blank r in (true, o) ∷ run r' ops

-- A bounded queue, oldest first, and what the same calls return on it.
abbrev pub run_queue : {A : Type 0} → ℕ → List A → List (Op A) → List (Bool × Option A)
run_queue capacity q [] = []
run_queue capacity q (put x ∷ ops) = elim (ltb (length q) capacity) [
  | true ↦ (true, none) ∷ run_queue capacity (q ++ x ∷ []) ops
  | false ↦ (false, none) ∷ run_queue capacity q ops
]
run_queue capacity [] (get ∷ ops) = (true, none) ∷ run_queue capacity [] ops
run_queue capacity (x ∷ q) (get ∷ ops) = (true, some x) ∷ run_queue capacity q ops

module _ {A : Type 0} (blank : A) where
  run_contents :
      (ops : List (Op A)) (r : Ring A)
      → IsValid r
      → run blank r ops ≡ run_queue r.capacity (contents blank r) ops
  unfolding run
  run_contents [] r v = refl
  run_contents (put x ∷ ops) r v = elim (push_cases blank r x v) [
    | inl (full, e) ↦ ground (arith, length-contents blank r, run_contents ops r v)
    | inr (room, r', e, valid, same, c) ↦
        ground (arith, length-contents blank r, run_contents ops r' valid)
  ]
  run_contents (get ∷ ops) r v = elim (pop_cases blank r v) [
    | inl (none_left, e) ↦
        rw (none_left, e)
          (ap (λ l. (true, none) ∷ l)
            (run_contents ops r v ∙ ap (λ q. run_queue r.capacity q ops) none_left))
    | inr (x, r', e, valid, same, c) ↦
        rw (c, e)
          (ap (λ l. (true, some x) ∷ l)
            (run_contents ops r' valid ∙ ap (λ n. run_queue n (contents blank r') ops) same))
  ]

  -- A new ring answers any sequence of calls as a queue of its capacity does.
  pub run-empty :
      (capacity : ℕ) (ops : List (Op A))
      → run blank (empty blank capacity) ops ≡ run_queue capacity [] ops
  unfolding empty
  run-empty capacity ops =
      run_contents ops (empty blank capacity) (empty-IsValid blank capacity)
      ∙ ap (λ q. run_queue capacity q ops) no_values
    where
      no_values : contents blank (empty blank capacity) ≡ []
      no_values =
          ap (window blank (capacity + 1) (replicate (capacity + 1) blank) 0) {y = 0}
            (omega (arith, size_cases (empty blank capacity) (empty-IsValid blank capacity)))
