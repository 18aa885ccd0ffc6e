-- ===== src/Proto/Tlv/Keeps.antt =====
-- What the visits of a body keep.
use jam_n.Prelude.{ℕ, zero, suc, ◌+◌, Bool, false, Option, none, some, Bool-cases, inl, inr, ◌==◌}
use jam_n.Core.ByteReader.{Reader, remaining}
use jam_n.Proto.Tlv.{Visitor, read_tlv, tlv_loop, for_each_tlv}

-- `P` of the state that a loop leaves, if it ends.
abbrev pub Left : {S : Type 0} → (S → Type 0) → Option (Bool × S) → Type 0
Left P none = Unit {0}
Left P (some out) = P out.1

module _ {S : Type 0} (visit : Visitor S) (P : S → Type 0)
    (step : (t : ℕ) (v : Reader) (s : S) → P s → P (visit t v s)) where
  loop_keeps : (fuel : ℕ) (s : S) (r : Reader) → P s → Left P (tlv_loop visit fuel s r)
  unfolding tlv_loop
  loop_keeps zero s r p = tt
  loop_keeps (suc fuel) s r p = elim (Bool-cases (remaining r == 0)) [
    | inl done ↦ rw (done, tlv_loop) p
    | inr more ↦ rw (more, tlv_loop) (round (read_tlv r) (loop_keeps fuel))
  ]
    where
      round :
          (g : Option (ℕ × Reader) × Reader)
          → ((s : S) (r : Reader) → P s → Left P (tlv_loop visit fuel s r))
          → Left P (
              let (o, r') = g in
              elim o [
                | none ↦ some (false, s)
                | some tlv ↦ tlv_loop visit fuel (visit tlv.0 tlv.1 s) r'
              ])
      round (none, r') ih = p
      round (some tlv, r') ih = ih (visit tlv.0 tlv.1 s) r' (step tlv.0 tlv.1 s p)

  pub for_each_tlv-Left : (s : S) (r : Reader) → P s → Left P (for_each_tlv visit s r)
  unfolding for_each_tlv
  for_each_tlv-Left s r p = loop_keeps (remaining r + 1) s r p
