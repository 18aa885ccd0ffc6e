-- ===== src/Net/Sim/Handout.antt =====
-- What each node of SimNetwork has to report when the packets in flight arrive.
use jam_n.Prelude.{
  ℕ, ◌≡◌, refl, ap, sym, ◌∙◌, true, false, not, ◌&&◌, ◌||◌, if◌then◌else◌, ◌==◌, List, [], ◌∷◌,
  ◌++◌, append-nil, append_assoc, Bool-cases, inl, inr, arith,
}
use jam_n.Net.Sim.{
  Pending, packet, Node, has_node, queue, ready_of, is_severed, hand_out, InFlightPacket,
  hand_out_all,
}

-- What a node gets of these: the packets sent to it over links that stand, in their order.
abbrev pub arrivals : List (ℕ × ℕ) → ℕ → List InFlightPacket → List Pending
arrivals severed id [] = []
arrivals severed id (p ∷ ps) =
    if p.to == id && not (is_severed p.from p.to severed)
    then packet p.from p.channel p.payload ∷ arrivals severed id ps
    else arrivals severed id ps

ready_of-queue :
    (id to : ℕ) (pending : Pending) (nodes : List Node)
    → has_node nodes id ≡ true
    → ready_of id (queue to pending nodes)
      ≡ (if to == id then ready_of id nodes ++ pending ∷ [] else ready_of id nodes)
unfolding ready_of queue has_node
ready_of-queue id to pending [] h = ground arith
ready_of-queue id to pending (node ∷ nodes) h = elim (Bool-cases (node.id == id)) [
  | inl ours ↦ elim (Bool-cases (node.id == to)) [
    | inl here ↦ rw (here, ours, same node.id to id here ours) refl
    | inr later ↦ rw (later, ours, differ node.id to id later ours) refl
  ]
  | inr other ↦ elim (Bool-cases (node.id == to)) [
    | inl here ↦ rw (here, other, differ' node.id to id here other) refl
    | inr later ↦ rw (later, other) (ready_of-queue id to pending nodes (rw other at h))
  ]
]
  where
    same : (n t i : ℕ) → (n == t) ≡ true → (n == i) ≡ true → (t == i) ≡ true
    same n t i h k = ground arith

    differ : (n t i : ℕ) → (n == t) ≡ false → (n == i) ≡ true → (t == i) ≡ false
    differ n t i h k = ground arith

    differ' : (n t i : ℕ) → (n == t) ≡ true → (n == i) ≡ false → (t == i) ≡ false
    differ' n t i h k = ground arith

has_node-queue :
    (id to : ℕ) (pending : Pending) (nodes : List Node)
    → has_node (queue to pending nodes) id ≡ has_node nodes id
unfolding queue has_node
has_node-queue id to pending [] = refl
has_node-queue id to pending (node ∷ nodes) = elim (Bool-cases (node.id == to)) [
  | inl here ↦ rw here refl
  | inr later ↦ rw later (ap (λ b. node.id == id || b) (has_node-queue id to pending nodes))
]

ready_of-hand_out_all :
    (severed : List (ℕ × ℕ)) (id : ℕ) (ps : List InFlightPacket) (nodes : List Node)
    → has_node nodes id ≡ true
    → ready_of id (hand_out_all severed ps nodes) ≡ ready_of id nodes ++ arrivals severed id ps
unfolding hand_out_all hand_out
ready_of-hand_out_all severed id [] nodes h = sym (append-nil (ready_of id nodes))
ready_of-hand_out_all severed id (p ∷ ps) nodes h =
    elim (Bool-cases (is_severed p.from p.to severed)) [
      | inl dead ↦ elim (Bool-cases (p.to == id)) [
        | inl ours ↦ rw (dead, ours) (ready_of-hand_out_all severed id ps nodes h)
        | inr other ↦ rw (dead, other) (ready_of-hand_out_all severed id ps nodes h)
      ]
      | inr alive ↦
          (let pending = packet p.from p.channel p.payload in
            let there = ready_of-queue id p.to pending nodes h in
            let ih =
              ready_of-hand_out_all severed id ps (queue p.to pending nodes)
                (has_node-queue id p.to pending nodes ∙ h) in
            elim (Bool-cases (p.to == id)) [
              | inl ours ↦
                  rw (alive, ours)
                    (ih
                      ∙ ap (λ l. l ++ arrivals severed id ps) (rw ours at there)
                      ∙ append_assoc (ready_of id nodes) (pending ∷ []) (arrivals severed id ps))
              | inr other ↦
                  rw (alive, other) (ih ∙ ap (λ l. l ++ arrivals severed id ps) (rw other at there))
            ])
    ]

ready_of-missing : (id : ℕ) (nodes : List Node) → has_node nodes id ≡ false → ready_of id nodes ≡ []
unfolding ready_of has_node
ready_of-missing id [] h = refl
ready_of-missing id (node ∷ nodes) h = elim (Bool-cases (node.id == id)) [
  | inl ours ↦ absurd (ground arith)
  | inr other ↦ rw other (ready_of-missing id nodes (rw other at h))
]

has_node-hand_out_all :
    (severed : List (ℕ × ℕ)) (id : ℕ) (ps : List InFlightPacket) (nodes : List Node)
    → has_node (hand_out_all severed ps nodes) id ≡ has_node nodes id
unfolding hand_out_all hand_out
has_node-hand_out_all severed id [] nodes = refl
has_node-hand_out_all severed id (p ∷ ps) nodes =
    elim (Bool-cases (is_severed p.from p.to severed)) [
      | inl dead ↦ rw dead (has_node-hand_out_all severed id ps nodes)
      | inr alive ↦ rw alive (
          has_node-hand_out_all severed id ps (queue p.to (packet p.from p.channel p.payload) nodes)
          ∙ has_node-queue id p.to (packet p.from p.channel p.payload) nodes)
    ]

-- What a node has to report when these have arrived; one that is missing has nothing.
abbrev pub reports : List Node → List (ℕ × ℕ) → ℕ → List InFlightPacket → List Pending
reports nodes severed id ps =
    if has_node nodes id then ready_of id nodes ++ arrivals severed id ps else []

pub ready_of-reports :
    (severed : List (ℕ × ℕ)) (id : ℕ) (ps : List InFlightPacket) (nodes : List Node)
    → ready_of id (hand_out_all severed ps nodes) ≡ reports nodes severed id ps
ready_of-reports severed id ps nodes = elim (Bool-cases (has_node nodes id)) [
  | inl there ↦ rw there (ready_of-hand_out_all severed id ps nodes there)
  | inr missing ↦ rw missing (
      ready_of-missing id (hand_out_all severed ps nodes)
        (has_node-hand_out_all severed id ps nodes ∙ missing))
]
