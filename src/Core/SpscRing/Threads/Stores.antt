-- ===== src/Core/SpscRing/Threads/Stores.antt =====
-- What each store of an index or of a value does to the contents of the ring.
use jam_n.Prelude.{
  ℕ, zero, suc, ◌+◌, ◌<◌, ◌≡◌, ◌≢◌, refl, ap, sym, ◌∙◌, ◌⊎◌, List, [], ◌∷◌, ◌++◌, get_or, set,
  length-set, get_or-set_ne, arith,
}
use jam_n.Core.SpscRing.{Ring, slots, advance, size_approx}
use jam_n.Core.SpscRing.Queue.{IsValid, advance_cases, size_cases, window, window-set, contents}

module _ {A : Type 0} (blank : A) where
  set_same : (xs : List A) (i : ℕ) → set xs i (get_or xs i blank) ≡ xs
  set_same [] i = refl
  set_same (x ∷ xs) zero = refl
  set_same (x ∷ xs) (suc i) = ap (λ ys. x ∷ ys) (set_same xs i)

  -- A store at an index outside a window leaves its values.
  window-set_outside :
      (m : ℕ) (buf : List A) (x : A) (n i j : ℕ)
      → i < m
      → j < m
      → n < m
      → (i + n ≡ j) ⊎ (i + n ≡ j + m)
      → window blank m (set buf j x) i n ≡ window blank m buf i n
  window-set_outside m buf x zero i j hi hj hn at = refl
  window-set_outside m buf x (suc n) i j hi hj hn at =
      ap (λ v. v ∷ window blank m (set buf j x) (advance m i) n)
        (get_or-set_ne buf j i x blank (λ e. omega arith))
      ∙ ap (λ vs. get_or buf i blank ∷ vs)
          (window-set_outside m buf x n (advance m i) j (omega (arith, advance_cases m i hi)) hj
            (omega arith) (omega (arith, advance_cases m i hi)))

  -- What the two stores of an index do to the contents.
  pub published :
      (r : Ring A) (x : A)
      → IsValid r
      → advance (slots r) r.head ≢ r.tail
      → get_or r.buffer r.head blank ≡ x
      → let r' : Ring A = record r { head = advance (slots r) r.head } in
        IsValid r' × (contents blank r' ≡ contents blank r ++ x ∷ [])
  published r x v room e =
      let r' : Ring A = record r { head = advance (slots r) r.head } in
      let adv = advance_cases (slots r) r.head v.head_in in
      let valid : IsValid r' = omega (arith, adv) in
      let grown : size_approx r' ≡ suc (size_approx r) =
        omega (arith, size_cases r v, size_cases r' valid, adv) in
      let n = size_approx r in
      (
        valid,
        ap (window blank (slots r) r.buffer r.tail) grown
            ∙ ap (λ buf. window blank (slots r) buf r.tail (suc n)) (sym (set_same r.buffer r.head))
            ∙ window-set blank (slots r) r.buffer (get_or r.buffer r.head blank) n r.tail r.head
                v.storage v.tail_in v.head_in (omega (arith, size_cases r v))
                (omega (arith, size_cases r v))
            ∙ ap (λ y. contents blank r ++ y ∷ []) e,
      )

  pub released :
      (r : Ring A) (x : A)
      → IsValid r
      → r.tail ≢ r.head
      → get_or r.buffer r.tail blank ≡ x
      → let r' : Ring A = record r { tail = advance (slots r) r.tail } in
        IsValid r' × (contents blank r ≡ x ∷ contents blank r')
  released r x v some_value e =
      let r' : Ring A = record r { tail = advance (slots r) r.tail } in
      let adv = advance_cases (slots r) r.tail v.tail_in in
      let valid : IsValid r' = omega (arith, adv) in
      let shrunk : size_approx r ≡ suc (size_approx r') =
        omega (arith, size_cases r v, size_cases r' valid, adv) in
      (
        valid,
        ap (window blank (slots r) r.buffer r.tail) shrunk ∙ ap (λ y. y ∷ contents blank r') e,
      )

  -- A store into the free slot behind the contents leaves them, and the slot at the tail.
  pub written :
      (r : Ring A) (x : A)
      → IsValid r
      → advance (slots r) r.head ≢ r.tail
      → let r' : Ring A = record r { buffer = set r.buffer r.head x } in
        IsValid r' × (contents blank r' ≡ contents blank r)
  unfolding size_approx
  written r x v room =
      let adv = advance_cases (slots r) r.head v.head_in in
      (
        omega (arith, length-set r.buffer r.head x),
        window-set_outside (slots r) r.buffer x (size_approx r) r.tail r.head v.tail_in v.head_in
            (omega (arith, size_cases r v, adv)) (omega (arith, size_cases r v)),
      )

  pub moved_on :
      (r : Ring A) (h : ℕ)
      → IsValid r
      → r.tail ≢ r.head
      → h ≡ r.head
      → advance (slots r) h ≢ advance (slots r) r.tail
  moved_on r h v ne k same = omega (
    arith,
    advance_cases (slots r) r.head v.head_in,
    advance_cases (slots r) r.tail v.tail_in,
    ap (advance (slots r)) k,
  )
