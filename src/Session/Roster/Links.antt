-- ===== src/Session/Roster/Links.antt =====
-- The roster has one entry at most for a link, whatever order events and messages come in.
use jam_n.Prelude.{
  ℕ, ◌≡◌, ◌≢◌, refl, sym, Bool, true, false, not, ◌&&◌, List, [], ◌∷◌, ◌⊎◌, Option, none, some, inl,
  inr, Bool-cases, ◌==◌, arith,
}
use mathlib.Core.Path.{subst}
use jam_n.Session.Roster.{
  handshaking, RosterEntry, blank, on_link, is_disconnected, find_in, update, claim,
}

abbrev pub Absent : ℕ → List RosterEntry → Type 0
Absent link [] = Unit {0}
Absent link (e ∷ es) = (on_link link e ≡ false) × Absent link es

abbrev pub Unique : List RosterEntry → Type 0
Unique [] = Unit {0}
Unique (e ∷ es) = ((is_disconnected e.state ≡ true) ⊎ Absent e.link es) × Unique es

-- What the entry becomes is free, or of the same link.
abbrev pub Keeps : (RosterEntry → RosterEntry) → Type 0
Keeps f = (e : RosterEntry) → (is_disconnected (f e).state ≡ true) ⊎ ((f e).link ≡ e.link)

pub find_in-Absent : (link : ℕ) (es : List RosterEntry) → find_in link es ≡ none → Absent link es
unfolding find_in
find_in-Absent link [] h = tt
find_in-Absent link (e ∷ es) h = elim (Bool-cases (on_link link e)) [
  | inl here ↦ absurd (not_some (rw here at h))
  | inr further ↦ (further, find_in-Absent link es (rw further at h))
]
  where
    not_some : ◌≡◌ {A = Option RosterEntry} (some e) none → ⊥
    not_some t = cc

pub Absent-find_in : (link : ℕ) (es : List RosterEntry) → Absent link es → find_in link es ≡ none
unfolding find_in
Absent-find_in link [] a = refl
Absent-find_in link (e ∷ es) (h, a) = rw h (Absent-find_in link es a)

pub update_here :
    (link : ℕ) (f : RosterEntry → RosterEntry) (e : RosterEntry) (es : List RosterEntry)
    → on_link link e ≡ true
    → update link f (e ∷ es) ≡ f e ∷ es
unfolding update
update_here link f e es h = rw h

pub update_further :
    (link : ℕ) (f : RosterEntry → RosterEntry) (e : RosterEntry) (es : List RosterEntry)
    → on_link link e ≡ false
    → update link f (e ∷ es) ≡ e ∷ update link f es
unfolding update
update_further link f e es h = rw h

still_off :
    (l link : ℕ) (d d' : Bool) (k k' : ℕ)
    → (d' ≡ true) ⊎ (k' ≡ k)
    → not d && k == link ≡ true
    → not d && k == l ≡ false
    → not d' && k' == l ≡ false
still_off l link d d' k k' c here off = ground arith

update-Absent :
    (l link : ℕ) (f : RosterEntry → RosterEntry) (es : List RosterEntry)
    → Keeps f
    → Absent l es
    → Absent l (update link f es)
unfolding update
update-Absent l link f [] keeps a = tt
update-Absent l link f (e ∷ es) keeps (h, a) = elim (Bool-cases (on_link link e)) [
  | inl here ↦ subst (Absent l) (sym (update_here link f e es here)) (
    still_off l link (is_disconnected e.state) (is_disconnected (f e).state) e.link (f e).link
        (keeps e) here h,
    a,
  )
  | inr further ↦
      subst (Absent l) (sym (update_further link f e es further))
        (h, update-Absent l link f es keeps a)
]

not_live : (link k : ℕ) (d : Bool) → d ≡ true → not d && k == link ≡ true → ⊥
not_live link k d e h = ground arith

pub update-Unique :
    (link : ℕ) (f : RosterEntry → RosterEntry) (es : List RosterEntry)
    → Keeps f
    → Unique es
    → Unique (update link f es)
unfolding update
update-Unique link f [] keeps u = tt
update-Unique link f (e ∷ es) keeps (a, u) = elim (Bool-cases (on_link link e)) [
  | inl here ↦ subst Unique (sym (update_here link f e es here)) (alone here a (keeps e), u)
  | inr further ↦
      subst Unique (sym (update_further link f e es further))
        (others a, update-Unique link f es keeps u)
]
  where
    alone :
        on_link link e ≡ true
        → (is_disconnected e.state ≡ true) ⊎ Absent e.link es
        → (is_disconnected (f e).state ≡ true) ⊎ ((f e).link ≡ e.link)
        → (is_disconnected (f e).state ≡ true) ⊎ Absent (f e).link es
    alone here (inl free) k = absurd (not_live link e.link (is_disconnected e.state) free here)
    alone here (inr away) (inl free) = inl free
    alone here (inr away) (inr same) = inr (subst (λ l. Absent l es) (sym same) away)

    others :
        (is_disconnected e.state ≡ true) ⊎ Absent e.link es
        → (is_disconnected e.state ≡ true) ⊎ Absent e.link (update link f es)
    others (inl free) = inl free
    others (inr away) = inr (update-Absent e.link link f es keeps away)

claim_step :
    (link : ℕ) (e : RosterEntry) (es : List RosterEntry)
    → (is_disconnected e.state ≡ false) × ((claim link (e ∷ es)).1 ≡ e ∷ (claim link es).1)
      ⊎ ((claim link (e ∷ es)).1 ≡ record blank { link = link; state = handshaking } ∷ es)
unfolding claim
claim_step link e es = elim (Bool-cases (is_disconnected e.state)) [
  | inl free ↦ inr (rw free refl)
  | inr used ↦ inl (used, rw used refl)
]

claim-Absent :
    (l link : ℕ) (es : List RosterEntry) → link ≢ l → Absent l es → Absent l (claim link es).1
unfolding claim
claim-Absent l link [] ne a = tt
claim-Absent l link (e ∷ es) ne (h, a) = elim (claim_step link e es) [
  | inl (_, keep) ↦ subst (Absent l) (sym keep) (h, claim-Absent l link es ne a)
  | inr here ↦ subst (Absent l) (sym here) (ground arith, a)
]

pub claim-Unique :
    (link : ℕ) (es : List RosterEntry) → Absent link es → Unique es → Unique (claim link es).1
unfolding claim
claim-Unique link [] a u = tt
claim-Unique link (e ∷ es) (h, a) (alone, u) = elim (claim_step link e es) [
  | inl (used, keep) ↦ subst Unique (sym keep) (others used alone, claim-Unique link es a u)
  | inr here ↦ subst Unique (sym here) (inr a, u)
]
  where
    off : (d : Bool) → d ≡ false → not d && e.link == link ≡ false → link ≢ e.link
    off d used h = ground arith

    others :
        is_disconnected e.state ≡ false
        → (is_disconnected e.state ≡ true) ⊎ Absent e.link es
        → (is_disconnected e.state ≡ true) ⊎ Absent e.link (claim link es).1
    others used (inl free) = inl free
    others used (inr away) =
        inr (claim-Absent e.link link es (off (is_disconnected e.state) used h) away)
