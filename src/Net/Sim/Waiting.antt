-- ===== src/Net/Sim/Waiting.antt =====
-- What SimNetwork has waiting at one node of the packets from another.
use jam_n.Prelude.{
  ℕ, ◌≡◌, refl, ap, ◌∙◌, true, false, List, [], ◌∷◌, ◌++◌, ◌==◌, Bool-cases, inl, inr, ◌⊎◌,
  if◌then◌else◌, arith,
}
use jam_n.Net.Sim.{
  Pending, peer_event, packet, InFlightPacket, Node, queue, ready_of, emptied, is_severed, hand_out,
  hand_out_all,
}

-- The packets from `a` among these.
abbrev pub packets_from : ℕ → List Pending → List Pending
packets_from a [] = []
packets_from a (peer_event p e ∷ ps) = packets_from a ps
packets_from a (packet p channel bytes ∷ ps) =
    if p == a then packet p channel bytes ∷ packets_from a ps else packets_from a ps

-- What waits at node `b` of the packets from `a`.
abbrev pub waits : ℕ → ℕ → List Node → List Pending
waits a b nodes = packets_from a (ready_of b nodes)

-- None of these is left, or all are and nothing else.
abbrev pub Shrunk : List Pending → List Pending → Type 0
Shrunk before after = (after ≡ []) ⊎ (after ≡ before)

packets_from-none :
    (a : ℕ) (ps qs : List Pending)
    → packets_from a qs ≡ []
    → packets_from a (ps ++ qs) ≡ packets_from a ps
packets_from-none a [] qs e = e
packets_from-none a (peer_event p f ∷ ps) qs e = packets_from-none a ps qs e
packets_from-none a (packet p channel bytes ∷ ps) qs e =
    ap (λ rest. if p == a then packet p channel bytes ∷ rest else rest)
      (packets_from-none a ps qs e)

-- A report that is no packet from `a` for `b` leaves what waits.
pub queue-waits :
    (a b id : ℕ) (pending : Pending) (nodes : List Node)
    → (id ≡ b → packets_from a (pending ∷ []) ≡ [])
    → waits a b (queue id pending nodes) ≡ waits a b nodes
unfolding queue ready_of
queue-waits a b id pending [] other = refl
queue-waits a b id pending (node ∷ nodes) other = elim (Bool-cases (node.id == b)) [
  | inl ours ↦ elim (Bool-cases (node.id == id)) [
    | inl here ↦
        rw (here, ours) (packets_from-none a node.ready (pending ∷ []) (other (ground arith)))
    | inr later ↦ rw (later, ours) refl
  ]
  | inr theirs ↦ elim (Bool-cases (node.id == id)) [
    | inl here ↦ rw (here, theirs) refl
    | inr later ↦ rw (later, theirs) (queue-waits a b id pending nodes other)
  ]
]

pub emptied-waits :
    (a b id : ℕ) (nodes : List Node) → Shrunk (waits a b nodes) (waits a b (emptied id nodes))
unfolding emptied ready_of
emptied-waits a b id [] = inl refl
emptied-waits a b id (node ∷ nodes) = elim (Bool-cases (node.id == b)) [
  | inl ours ↦ elim (Bool-cases (node.id == id)) [
    | inl here ↦ rw (here, ours) (inl refl)
    | inr later ↦ rw (later, ours) (inr refl)
  ]
  | inr theirs ↦ elim (Bool-cases (node.id == id)) [
    | inl here ↦ rw (here, theirs) (inr refl)
    | inr later ↦ rw (later, theirs) (emptied-waits a b id nodes)
  ]
]

pub hand_out_all-waits :
    (a b : ℕ) (severed : List (ℕ × ℕ)) (ps : List InFlightPacket) (nodes : List Node)
    → is_severed a b severed ≡ true
    → waits a b (hand_out_all severed ps nodes) ≡ waits a b nodes
unfolding hand_out_all hand_out
hand_out_all-waits a b severed [] nodes cut = refl
hand_out_all-waits a b severed (p ∷ ps) nodes cut =
    elim (Bool-cases (is_severed p.from p.to severed)) [
      | inl dead ↦ rw dead (hand_out_all-waits a b severed ps nodes cut)
      | inr alive ↦ rw alive (
          hand_out_all-waits a b severed ps (queue p.to (packet p.from p.channel p.payload) nodes)
            cut
          ∙ queue-waits a b p.to (packet p.from p.channel p.payload) nodes (λ e.
            elim (Bool-cases (p.from == a)) [
              | inl f ↦ absurd (not_both a b p severed cut alive e f)
              | inr f ↦ rw f refl
            ]))
    ]
  where
    not_both :
        (a b : ℕ) (p : InFlightPacket) (severed : List (ℕ × ℕ))
        → is_severed a b severed ≡ true
        → is_severed p.from p.to severed ≡ false
        → p.to ≡ b
        → (p.from == a) ≡ true
        → ⊥
    not_both a b p severed cut alive e f =
        let g : p.from ≡ a = ground arith in cc (alive, cut, e, g)
