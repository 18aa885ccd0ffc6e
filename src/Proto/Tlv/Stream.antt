-- ===== src/Proto/Tlv/Stream.antt =====
-- The TLV loop ends, and walks a well-formed stream from end to end.
use jam_n.Prelude.{
  ℕ, zero, suc, ◌+◌, ◌-◌, ◌^◌, ◌≤◌, ◌<◌, ◌≡◌, refl, ap, sym, ◌∙◌, inl, inr, List, [], ◌∷◌, ◌++◌,
  Bool, true, false, Option, none, some, ◌==◌, length, take, drop, append_assoc, take-append,
  drop-append, Bool-cases, arith,
}
use mathlib.Core.Path.{subst}
use native.Mathlib.Decide.{dec_lt}
use jam_n.Core.Wire.{w16, le_bytes}
use jam_n.Core.ByteReader.{Reader, Read, remaining, advance, read_slice, after, accept}
use jam_n.Core.ByteReader.Cursor.{
  IsValid, rest, rest-advance, advance-IsValid, read_slice_lem, read_slice-short, length-rest,
}
use jam_n.Core.ByteReader.Decodes.{
  after-none, Decodes, Fixed, bind-Fixed, accept-Fixed, read_le-Fixed, accept-Decodes, ahead,
}
use jam_n.Core.ByteReader.Decodes as Reading
use jam_n.Proto.Tlv.{TlvHeader, read_tlv_header, read_tlv, Visitor, tlv_loop, for_each_tlv}

header-Fixed : Fixed read_tlv_header 4
unfolding read_tlv_header
header-Fixed =
    bind-Fixed _ 2 2 (read_le-Fixed w16)
      λ type. bind-Fixed _ 2 0 (read_le-Fixed w16) λ len. accept-Fixed _

header-Decodes :
    (t n : ℕ)
    → t < 2 ^ 16
    → n < 2 ^ 16
    → Decodes read_tlv_header (le_bytes w16 t ++ le_bytes w16 n) (record { type = t; len = n })
unfolding read_tlv_header
header-Decodes t n h k =
    Reading.le_field _ w16 t _ h (Reading.le_field _ w16 n _ k (accept-Decodes _))

-- One round either fails or takes at least four bytes and keeps the cursor valid.
abbrev Shrinks : Reader → Option (ℕ × Reader) × Reader → Type 0
Shrinks r (none, r') = Unit {0}
Shrinks r (some tlv, r') = IsValid r' × (remaining r' < remaining r)

none-Shrinks :
    {A : Type 0} (r : Reader) (f : A → Read (ℕ × Reader)) (x : Option A × Reader)
    → x.0 ≡ none
    → Shrinks r (after x f)
none-Shrinks r f (none, r') e = tt
none-Shrinks r f (some a, r') e = cc

read_tlv-Shrinks : (r : Reader) → IsValid r → Shrinks r (read_tlv r)
unfolding read_tlv
read_tlv-Shrinks r v = elim (dec_lt (remaining r) 4) [
  | yes lt ↦ none-Shrinks r _ (read_tlv_header r) (header-Fixed.short r v lt)
  | no ge ↦ (let (h, e) = header-Fixed.enough r v (omega arith) in rw e (value h (omega arith)))
]
  where
    value :
        (h : TlvHeader)
        → 4 ≤ remaining r
        → Shrinks r (
            after
              (read_slice h.len (advance 4 r))
              (λ value. accept {A = ℕ × Reader} (h.type, value)))
    value h four =
        let valid : IsValid (advance 4 r) = advance-IsValid 4 v (omega arith) in
        elim (dec_lt (remaining (advance 4 r)) h.len) [
          | yes lt ↦ rw (read_slice-short h.len (advance 4 r) lt) tt
          | no ge ↦
              (let (slice, e, _, _, _) = read_slice_lem h.len (advance 4 r) valid (omega arith) in
                rw e (advance-IsValid h.len valid (omega arith), omega arith))
        ]

module _ {S : Type 0} (visit : Visitor S) where
  loop_total :
      (fuel : ℕ) (s : S) (r : Reader)
      → IsValid r
      → remaining r < fuel
      → (out : Bool × S) × (tlv_loop visit fuel s r ≡ some out)
  unfolding tlv_loop
  loop_total zero s r v h = absurd (omega arith)
  loop_total (suc fuel) s r v h = elim (Bool-cases (remaining r == 0)) [
    | inl done ↦ ((true, s), rw (done, tlv_loop))
    | inr more ↦ rw (more, tlv_loop) (round (read_tlv r) (read_tlv-Shrinks r v) (loop_total fuel))
  ]
    where
      round :
          (x : Option (ℕ × Reader) × Reader)
          → Shrinks r x
          → ((s' : S) (r' : Reader)
              → IsValid r'
              → remaining r' < fuel
              → (out : Bool × S) × (tlv_loop visit fuel s' r' ≡ some out))
          → (out : Bool × S) × (elim x.0 [
            | none ↦ some (false, s)
            | some tlv ↦ tlv_loop visit fuel (visit tlv.0 tlv.1 s) x.1
          ]
              ≡ some out)
      round (none, r') g ih = ((false, s), refl)
      round (some tlv, r') g ih = ih (visit tlv.0 tlv.1 s) r' g.0 (omega arith)

  -- However the bytes lie, the loop ends within the fuel that it is given.
  pub for_each_tlv-total :
      (s : S) (r : Reader) → IsValid r → (out : Bool × S) × (for_each_tlv visit s r ≡ some out)
  unfolding for_each_tlv
  for_each_tlv-total s r v = loop_total (remaining r + 1) s r v (omega arith)

read_tlv-short : (r : Reader) → IsValid r → remaining r < 4 → (read_tlv r).0 ≡ none
unfolding read_tlv
read_tlv-short r v lt = after-none (read_tlv_header r) _ (header-Fixed.short r v lt)

-- One TLV on the wire: its header, and as many bytes as the header says.
abbrev pub tlv_layout : ℕ → List ℕ → List ℕ
tlv_layout t bs = (le_bytes w16 t ++ le_bytes w16 (length bs)) ++ bs

abbrev pub stream : List (ℕ × List ℕ) → List ℕ
stream [] = []
stream ((t, bs) ∷ ts) = tlv_layout t bs ++ stream ts

abbrev pub AllSized : List (ℕ × List ℕ) → Type 0
AllSized [] = Unit {0}
AllSized ((t, bs) ∷ ts) = (t < 2 ^ 16) × (length bs < 2 ^ 16) × AllSized ts

read_tlv_lem :
    (t : ℕ) (bs tl : List ℕ) (r : Reader)
    → IsValid r
    → t < 2 ^ 16
    → length bs < 2 ^ 16
    → rest r ≡ tlv_layout t bs ++ tl
    → (value r' : Reader) × (read_tlv r ≡ (some (t, value), r'))
      × (rest value ≡ bs)
      × (rest r' ≡ tl)
      × (value.pos ≡ 0)
      × IsValid value
unfolding read_tlv
read_tlv_lem t bs tl r v ht hn e =
    let e4 : rest (advance 4 r) ≡ bs ++ tl = rest-advance 4 r ∙ ap (drop 4) e in
    let four : 4 ≤ remaining r = omega (arith, ahead (tlv_layout t bs) tl r v e) in
    let v4 : IsValid (advance 4 r) = advance-IsValid 4 v four in
    let room : length bs ≤ remaining (advance 4 r) = ahead bs tl (advance 4 r) v4 e4 in
    let (value, es, er, ep, ev) = read_slice_lem (length bs) (advance 4 r) v4 room in
    (
      value,
      advance (length bs) (advance 4 r),
      rw ((header-Decodes t (length bs) ht hn).run r (bs ++ tl) v e, es),
      er ∙ ap (take (length bs)) e4 ∙ take-append bs tl,
      rest-advance (length bs) (advance 4 r) ∙ ap (drop (length bs)) e4 ∙ drop-append bs tl,
      ep,
      ev,
    )

module _ {S : Type 0} (visit : Visitor S) where
  loop_step :
      (fuel t : ℕ) (s : S) (r value r' : Reader)
      → 0 < remaining r
      → read_tlv r ≡ (some (t, value), r')
      → tlv_loop visit (suc fuel) s r ≡ tlv_loop visit fuel (visit t value s) r'
  unfolding tlv_loop
  loop_step fuel t s r value r' h e = ground arith

  loop_end :
      (fuel : ℕ) (s : S) (r : Reader)
      → IsValid r
      → remaining r < 4
      → tlv_loop visit (suc fuel) s r ≡ some (remaining r == 0, s)
  unfolding tlv_loop
  loop_end fuel s r v h = ground (arith, read_tlv-short r v h)

  -- A body of one TLV: the visitor gets a reader of its value.
  pub for_each_tlv-one :
      (t : ℕ) (bs : List ℕ) (s : S) (r : Reader)
      → IsValid r
      → t < 2 ^ 16
      → length bs < 2 ^ 16
      → rest r ≡ tlv_layout t bs ++ []
      → (value : Reader) × (for_each_tlv visit s r ≡ some (true, visit t value s))
        × (rest value ≡ bs)
        × IsValid value
  unfolding for_each_tlv
  for_each_tlv-one t bs s r v ht hn e =
      let (value, r', er, ev, et, ep, vv) = read_tlv_lem t bs [] r v ht hn e in
      let (v', lt) = subst (Shrinks r) er (read_tlv-Shrinks r v) in
      let left : remaining r' ≡ 0 = sym (length-rest r' v') ∙ ap length et in
      let plus_one : remaining r + 1 ≡ suc (remaining r) = omega arith in
      let some_fuel : remaining r ≡ suc (remaining r - 1) = omega arith in
      (
        value,
        ap (λ n. tlv_loop visit n s r) plus_one
            ∙ loop_step (remaining r) t s r value r' (omega arith) er
            ∙ ap (λ n. tlv_loop visit n (visit t value s) r') some_fuel
            ∙ loop_end (remaining r - 1) (visit t value s) r' v' (omega arith)
            ∙ ap (λ n. some (n == 0, visit t value s)) left,
        ev,
        vv,
      )

-- What a visitor makes of the bytes of a value, and of all TLVs of a stream in turn.
abbrev pub visit_all {ℓ} : {S : Type ℓ} → (ℕ → List ℕ → S → S) → List (ℕ × List ℕ) → S → S
visit_all spec [] s = s
visit_all spec ((t, bs) ∷ ts) s = visit_all spec ts (spec t bs s)

module _ {S : Type 0} (visit : Visitor S) (spec : ℕ → List ℕ → S → S)
    (agrees : (t : ℕ) (v : Reader) (s : S)
      → IsValid v
      → v.pos ≡ 0
      → visit t v s ≡ spec t (rest v) s) where
  walk :
      (ts : List (ℕ × List ℕ)) (junk : List ℕ) (fuel : ℕ) (s : S) (r : Reader)
      → IsValid r
      → AllSized ts
      → length junk < 4
      → rest r ≡ stream ts ++ junk
      → remaining r < fuel
      → tlv_loop visit fuel s r ≡ some (length junk == 0, visit_all spec ts s)
  walk ts junk zero s r v sized short e h = absurd (omega arith)
  walk [] junk (suc fuel) s r v sized short e h =
      let left : remaining r ≡ length junk = sym (length-rest r v) ∙ ap length e in
      loop_end visit fuel s r v (omega arith) ∙ ap (λ n. some (n == 0, s)) left
  walk ((t, bs) ∷ ts) junk (suc fuel) s r v (ht, hn, sized) short e h =
      let tl = stream ts ++ junk in
      let e' : rest r ≡ tlv_layout t bs ++ tl =
        e ∙ append_assoc (tlv_layout t bs) (stream ts) junk in
      let (value, r', er, ev, et, ep, vv) = read_tlv_lem t bs tl r v ht hn e' in
      let (v', lt) = subst (Shrinks r) er (read_tlv-Shrinks r v) in
      let visited : visit t value s ≡ spec t bs s =
        agrees t value s vv ep ∙ ap (λ xs. spec t xs s) ev in
      loop_step visit fuel t s r value r' (omega arith) er
      ∙ ap (λ x. tlv_loop visit fuel x r') visited
      ∙ walk ts junk fuel (spec t bs s) r' v' sized short et (omega arith)

  -- Over a stream of TLVs with fewer than four stray bytes behind it, the loop hands every value to
  -- the visitor once and in order, and returns true exactly if there are no stray bytes.
  pub for_each_tlv_lem :
      (ts : List (ℕ × List ℕ)) (junk : List ℕ) (s : S) (r : Reader)
      → IsValid r
      → AllSized ts
      → length junk < 4
      → rest r ≡ stream ts ++ junk
      → for_each_tlv visit s r ≡ some (length junk == 0, visit_all spec ts s)
  unfolding for_each_tlv
  for_each_tlv_lem ts junk s r v sized short e =
      walk ts junk (remaining r + 1) s r v sized short e (omega arith)
