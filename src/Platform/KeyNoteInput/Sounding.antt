-- ===== src/Platform/KeyNoteInput/Sounding.antt =====
-- What a listener hears of the keyboard: no note is stuck, and none is cut off under a finger.
use jam_n.Prelude.{
  ℕ, zero, suc, ◌+◌, ◌<◌, ◌≡◌, ◌≢◌, refl, ap, sym, ◌∙◌, inl, inr, Bool, true, false, not, ◌&&◌,
  ◌||◌, List, [], ◌∷◌, ◌++◌, some, ◌==◌, length, take, get_or, set, Bool-cases, arith,
}
use jam_n.Platform.KeyNoteInput.{
  HeldKey, Event, note_on, note_off, holds_from, held_from, no_key, swapped_out,
}

-- Whether a pitch sounds behind these events, if it did before: a note-off silences every voice at it.
abbrev pub heard : ℕ → Bool → List Event → Bool
heard p b [] = b
heard p b (note_on q ∷ es) = heard p (q == p || b) es
heard p b (note_off q ∷ es) = heard p (not (q == p) && b) es

-- Whether a key plays the pitch.
abbrev pub plays : ℕ → List HeldKey → Bool
plays p [] = false
plays p (key ∷ keys) = key.pitch == p || plays p keys

pub or_swap : (a b c : Bool) → (a || (b || c)) ≡ (b || (a || c))
or_swap true true c = refl
or_swap true false c = refl
or_swap false b c = refl

or_false : (a : Bool) → (a || false) ≡ a
or_false true = refl
or_false false = refl

pub plays-append :
    (p : ℕ) (keys : List HeldKey) (key : HeldKey)
    → plays p (keys ++ key ∷ []) ≡ (key.pitch == p || plays p keys)
plays-append p [] key = refl
plays-append p (k ∷ keys) key =
    ap (λ b. k.pitch == p || b) (plays-append p keys key)
    ∙ or_swap (k.pitch == p) (key.pitch == p) (plays p keys)

pub heard-append :
    (p : ℕ) (b : Bool) (es fs : List Event) → heard p b (es ++ fs) ≡ heard p (heard p b es) fs
heard-append p b [] fs = refl
heard-append p b (note_on q ∷ es) fs = heard-append p (q == p || b) es fs
heard-append p b (note_off q ∷ es) fs = heard-append p (not (q == p) && b) es fs

other_index : (n m : ℕ) → n ≢ m → (n == m) ≡ false
other_index n m ne = ground arith

same_index : (n : ℕ) → (n == n + 0) ≡ true
same_index n = ground arith

-- Behind the index that is left out, every key counts.
holds_from-past :
    (n e : ℕ) (keys : List HeldKey) (p : ℕ) → e < n → holds_from n keys p e ≡ plays p keys
unfolding holds_from
holds_from-past n e [] p lt = refl
holds_from-past n e (key ∷ keys) p lt =
    rw (other_index n e (λ same. omega arith))
      (ap (λ b. key.pitch == p || b) (holds_from-past (n + 1) e keys p (omega arith)))

-- The key at an index, and the others.
pub plays_at :
    (n i : ℕ) (keys : List HeldKey) (p : ℕ)
    → i < length keys
    → plays p keys ≡ ((get_or keys i no_key).pitch == p || holds_from n keys p (n + i))
unfolding holds_from
plays_at n i [] p lt = ground arith
plays_at n zero (key ∷ keys) p lt =
    rw (same_index n)
      (ap (λ b. key.pitch == p || b) (sym (holds_from-past (n + 1) (n + 0) keys p (omega arith))))
plays_at n (suc i) (key ∷ keys) p lt = rw (other_index n (n + suc i) (λ same. omega arith)) (
    ap (λ b. key.pitch == p || b)
      (plays_at (n + 1) i keys p (omega arith)
        ∙ ap (λ e. (get_or keys i no_key).pitch == p || holds_from (n + 1) keys p e)
            (let e : n + 1 + i ≡ n + suc i = omega arith in e))
    ∙ or_swap (key.pitch == p) ((get_or keys i no_key).pitch == p)
        (holds_from (n + 1) keys p (n + suc i)))

-- The last key moved to the front plays what it did at the end.
last_first :
    (p : ℕ) (key : HeldKey) (keys : List HeldKey)
    → ((get_or (key ∷ keys) (length keys) no_key).pitch == p
        || plays p (take (length keys) (key ∷ keys)))
      ≡ plays p (key ∷ keys)
last_first p key [] = refl
last_first p key (k ∷ keys) =
    or_swap ((get_or (k ∷ keys) (length keys) no_key).pitch == p) (key.pitch == p)
      (plays p (take (length keys) (k ∷ keys)))
    ∙ ap (λ b. key.pitch == p || b) (last_first p k keys)

swapped_cons :
    (key : HeldKey) (keys : List HeldKey) (i : ℕ)
    → swapped_out (key ∷ keys) i
      ≡ take (length keys) (set (key ∷ keys) i (get_or (key ∷ keys) (length keys) no_key))
unfolding swapped_out
swapped_cons key keys i =
    ap (λ m. take m (set (key ∷ keys) i (get_or (key ∷ keys) m no_key))) {y = length keys}
      (omega arith)

-- What is left when a key is swapped out is what the others play.
pub plays-swapped_out :
    (n i : ℕ) (keys : List HeldKey) (p : ℕ)
    → i < length keys
    → plays p (swapped_out keys i) ≡ holds_from n keys p (n + i)
unfolding holds_from swapped_out
plays-swapped_out n i [] p lt = ground arith
plays-swapped_out n zero (key ∷ []) p lt =
    ap (plays p) (swapped_cons key [] zero) ∙ rw (same_index n) refl
plays-swapped_out n zero (key ∷ k ∷ keys) p lt =
    ap (plays p) (swapped_cons key (k ∷ keys) zero)
    ∙ rw (same_index n)
        (last_first p k keys ∙ sym (holds_from-past (n + 1) (n + 0) (k ∷ keys) p (omega arith)))
plays-swapped_out n (suc i) (key ∷ []) p lt = ground arith
plays-swapped_out n (suc i) (key ∷ k ∷ keys) p lt =
    ap (plays p) (swapped_cons key (k ∷ keys) (suc i))
    ∙ rw (other_index n (n + suc i) (λ same. omega arith)) (
        ap (λ b. key.pitch == p || b)
          (ap (plays p) (sym (swapped_cons k keys i))
            ∙ plays-swapped_out (n + 1) i (k ∷ keys) p (omega arith)
            ∙ ap (λ e. holds_from (n + 1) (k ∷ keys) p e)
                (let e : n + 1 + i ≡ n + suc i = omega arith in e)))

pub held_from-bound :
    (n raw_code : ℕ) (keys : List HeldKey) (i : ℕ)
    → held_from n raw_code keys ≡ some i
    → i < n + length keys
unfolding held_from
held_from-bound n raw_code [] i e = ground arith
held_from-bound n raw_code (key ∷ keys) i e = elim (Bool-cases (key.raw_code == raw_code)) [
  | inl here ↦ ground arith
  | inr later ↦ (let rest = held_from-bound (n + 1) raw_code keys i (rw later at e) in omega arith)
]
