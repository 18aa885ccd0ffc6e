-- ===== src/Proto/JoinAuth.antt =====
-- modules/jamn_proto/src/join_auth.cpp and negotiation.cpp: who may join, and at which version.
use Prim.Native.Nat.{bit_or, bit_xor}
use jam_n.Prelude.{
  ℕ, ◌%◌, ◌^◌, ◌<◌, ◌≡◌, refl, sym, ap, ◌∙◌, ◌↔◌, ◌≢◌, ◌⊎◌, Bool, true, List, [], ◌∷◌, min, length,
  ◌==◌, ==_iff, if◌then◌else◌, arith,
}
use jam_n.Core.Bits.{bit_or_zero, zero-bit_or}
use jam_n.Core.Xor.{bit_xor_zero, bit_xor_self, bit_xor-lt, bit_or-lt}
use jam_n.Proto.Header.{current_proto_major, current_proto_minor}

-- diff | (a[i] ^ b[i]), cast to a byte.
round : ℕ → ℕ → ℕ → ℕ
round diff x y = bit_or diff (bit_xor x y) % 2 ^ 8

-- The loop: every byte is accumulated, whatever was found before.
diff_from : ℕ → List ℕ → List ℕ → ℕ
diff_from diff [] b = diff
diff_from diff (x ∷ a) [] = diff
diff_from diff (x ∷ a) (y ∷ b) = diff_from (round diff x y) a b

-- `a` and `b` point at the same number of bytes.
pub constant_time_equals : List ℕ → List ℕ → Bool
constant_time_equals a b = diff_from 0 a b == 0

-- The reason's text is made of the two major versions.
pub data Refusal : Type 0 where
  major_mismatch : ℕ → ℕ → Refusal
  wrong_passphrase malformed_join session_full : Refusal

pub data Negotiation : Type 0 where
  accepted : ℕ → Negotiation
  refused : Refusal → Negotiation

pub negotiate_version : ℕ → ℕ → Negotiation
negotiate_version peer_major peer_minor =
    if peer_major == current_proto_major
    then accepted (min current_proto_minor peer_minor)
    else refused (major_mismatch current_proto_major peer_major)

abbrev pub AllBytes : List ℕ → Type 0
AllBytes [] = Unit {0}
AllBytes (x ∷ xs) = (x < 2 ^ 8) × AllBytes xs

round_lem :
    (diff x y : ℕ)
    → diff < 2 ^ 8
    → x < 2 ^ 8
    → y < 2 ^ 8
    → (round diff x y ≡ 0 → (diff ≡ 0) × (x ≡ y)) × (round diff x y < 2 ^ 8)
unfolding round
round_lem diff x y hd hx hy =
    let small = bit_or-lt 8 diff (bit_xor x y) hd (bit_xor-lt 8 x y hx hy) in
    (
      λ e.
          let (d0, x0) = bit_or_zero diff (bit_xor x y) (omega (arith, small)) in
          (d0, bit_xor_zero x y x0),
      omega arith,
    )

diff_from-eq :
    (diff : ℕ) (a b : List ℕ)
    → diff < 2 ^ 8
    → AllBytes a
    → AllBytes b
    → length a ≡ length b
    → diff_from diff a b ≡ 0
    → (diff ≡ 0) × (a ≡ b)
unfolding diff_from
diff_from-eq diff [] [] h p q len e = (e, refl)
diff_from-eq diff [] (y ∷ b) h p q len e = absurd (omega arith)
diff_from-eq diff (x ∷ a) [] h p q len e = absurd (omega arith)
diff_from-eq diff (x ∷ a) (y ∷ b) h (px, p) (qy, q) len e =
    let (zero_round, small) = round_lem diff x y h px qy in
    let (r0, ab) = diff_from-eq (round diff x y) a b small p q (omega arith) e in
    let (d0, xy) = zero_round r0 in (d0, cc)

diff_from_self : (a : List ℕ) → diff_from 0 a a ≡ 0
unfolding diff_from round
diff_from_self [] = refl
diff_from_self (x ∷ a) = rw (bit_xor_self x, zero-bit_or 0) (diff_from_self a)

-- On two runs of bytes of one length the constant-time comparison is true exactly if they are equal.
pub constant_time_equals_iff :
    (a b : List ℕ)
    → AllBytes a
    → AllBytes b
    → length a ≡ length b
    → (constant_time_equals a b ≡ true) ↔ (a ≡ b)
unfolding constant_time_equals
constant_time_equals_iff a b p q len = (
  λ e. (diff_from-eq 0 a b (omega arith) p q len ((==_iff _ _).0 e)).1,
  λ e. (==_iff _ _).1 (ap (λ c. diff_from 0 a c) (sym e) ∙ diff_from_self a),
)

-- Only an equal major version is accepted, and then at the lower of the two minor versions.
pub negotiate_version_lem :
    (peer_major peer_minor : ℕ)
    → ((peer_major ≡ 1)
        × (negotiate_version peer_major peer_minor ≡ accepted (min current_proto_minor peer_minor)))
      ⊎ ((peer_major ≢ 1)
          × (negotiate_version peer_major peer_minor ≡ refused (major_mismatch 1 peer_major)))
unfolding negotiate_version
negotiate_version_lem peer_major peer_minor = ground arith
