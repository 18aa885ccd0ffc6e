-- ===== src/Session/Roster/Calls.antt =====
-- The roster through every sequence of events and messages.
use jam_n.Prelude.{
  ℕ, zero, suc, ◌≡◌, refl, sym, Bool, true, false, not, ◌&&◌, List, [], ◌∷◌, ◌⊎◌, Option, none,
  some, inl, inr, Bool-cases, ◌==◌, replicate, arith,
}
use mathlib.Core.Path.{subst}
use jam_n.Session.Roster.{
  PeerState, RosterEntry, Roster, initial, blank, on_link, is_handshaking, is_joined_state,
  is_disconnected, as_joined, as_leaving, find_in, find, update, link_up, on_link_up, on_link_down,
  mark, mark_joined, mark_leaving,
}
use jam_n.Session.Roster.Links.{
  Absent, Unique, Keeps, find_in-Absent, Absent-find_in, update-Unique, update_here, update_further,
  claim-Unique,
}

pub data Call : Type 0 where
  link_comes_up : ℕ → Call
  link_goes_down : ℕ → Call
  join : ℕ → ℕ → ℕ → Call
  leave : ℕ → Call

abbrev pub call : Roster → Call → Roster
call r (link_comes_up link) = (on_link_up r link).1
call r (link_goes_down link) = on_link_down r link
call r (join link peer_id minor) = (mark_joined r link peer_id minor).1
call r (leave link) = (mark_leaving r link).1

abbrev pub run : Roster → List Call → Roster
run r [] = r
run r (c ∷ cs) = run (call r c) cs

link_up-Unique :
    (r : Roster) (link : ℕ) (o : Option RosterEntry)
    → find_in link r.entries ≡ o
    → Unique r.entries
    → Unique (link_up r link o).1.entries
unfolding link_up
link_up-Unique r link (some e) h u = u
link_up-Unique r link none h u = claim-Unique link r.entries (find_in-Absent link r.entries h) u

mark-Unique :
    (may : PeerState → Bool) (f : RosterEntry → RosterEntry) (r : Roster) (link : ℕ)
    (o : Option RosterEntry)
    → Keeps f
    → Unique r.entries
    → Unique (mark may f r link o).1.entries
unfolding mark
mark-Unique may f r link none k u = u
mark-Unique may f r link (some e) k u = elim (Bool-cases (may e.state)) [
  | inl does ↦ rw does (update-Unique link f r.entries k u)
  | inr stays ↦ rw stays u
]

pub call-Unique : (r : Roster) (c : Call) → Unique r.entries → Unique (call r c).entries
unfolding on_link_up on_link_down mark_joined mark_leaving
call-Unique r (link_comes_up link) u = link_up-Unique r link (find_in link r.entries) refl u
call-Unique r (link_goes_down link) u = update-Unique link (λ _. blank) r.entries (λ e. inl refl) u
call-Unique r (join link peer_id minor) u =
    mark-Unique is_handshaking (as_joined peer_id minor) r link _ (λ e. inr refl) u
call-Unique r (leave link) u = mark-Unique is_joined_state as_leaving r link _ (λ e. inr refl) u

run_from : (r : Roster) (cs : List Call) → Unique r.entries → Unique (run r cs).entries
run_from r [] u = u
run_from r (c ∷ cs) u = run_from (call r c) cs (call-Unique r c u)

initial-Unique : (n : ℕ) → Unique (replicate n blank)
initial-Unique zero = tt
initial-Unique (suc n) = (inl refl, initial-Unique n)

-- After any calls, no two entries in use have one link.
pub run-Unique : (cs : List Call) → Unique (run initial cs).entries
run-Unique cs = run_from initial cs (initial-Unique 8)

down-Absent :
    (link : ℕ) (es : List RosterEntry) → Unique es → Absent link (update link (λ _. blank) es)
unfolding update
down-Absent link [] u = tt
down-Absent link (e ∷ es) (alone, u) = elim (Bool-cases (on_link link e)) [
  | inl here ↦
      subst (Absent link) (sym (update_here link (λ _. blank) e es here)) (refl, others here alone)
  | inr further ↦
      subst (Absent link) (sym (update_further link (λ _. blank) e es further))
        (further, down-Absent link es u)
]
  where
    used : (d : Bool) → not d && e.link == link ≡ true → (d ≡ false) × (e.link ≡ link)
    used d h = (ground arith, ground arith)

    others :
        on_link link e ≡ true → (is_disconnected e.state ≡ true) ⊎ Absent e.link es → Absent link es
    others here (inl free) = absurd (cc (free, (used (is_disconnected e.state) here).0))
    others here (inr away) = subst (λ l. Absent l es) ((used (is_disconnected e.state) here).1) away

-- After any calls, a link that goes down leaves no trace: the roster finds nothing for it.
pub on_link_down-find :
    (cs : List Call) (link : ℕ) → find (on_link_down (run initial cs) link) link ≡ none
unfolding find on_link_down
on_link_down-find cs link =
    Absent-find_in link _ (down-Absent link (run initial cs).entries (run-Unique cs))
