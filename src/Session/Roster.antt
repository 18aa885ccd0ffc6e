-- ===== src/Session/Roster.antt =====
-- modules/jamn_session: roster.h and roster.cpp. The array's entries are a list of kMaxPeers.
pub mod Links
pub mod Calls
use jam_n.Prelude.{
  ℕ, zero, suc, ◌+◌, Bool, true, false, not, ◌&&◌, ◌||◌, List, [], ◌∷◌, Option, none, some, ◌==◌,
  leb, if◌then◌else◌, replicate,
}

pub data PeerState : Type 0 where
  disconnected : PeerState
  handshaking : PeerState
  joined : PeerState
  leaving : PeerState

abbrev pub is_disconnected : PeerState → Bool
is_disconnected disconnected = true
is_disconnected handshaking = false
is_disconnected joined = false
is_disconnected leaving = false

abbrev pub is_handshaking : PeerState → Bool
is_handshaking disconnected = false
is_handshaking handshaking = true
is_handshaking joined = false
is_handshaking leaving = false

abbrev pub is_joined_state : PeerState → Bool
is_joined_state disconnected = false
is_joined_state handshaking = false
is_joined_state joined = true
is_joined_state leaving = false

-- state == kJoined || state == kLeaving
abbrev pub has_identity : PeerState → Bool
has_identity disconnected = false
has_identity handshaking = false
has_identity joined = true
has_identity leaving = true

pub record RosterEntry : Type 0 where
  pub link : ℕ
  pub peer_id : ℕ
  pub negotiated_minor : ℕ
  pub state : PeerState

pub record Roster : Type 0 where
  pub entries : List RosterEntry

abbrev pub max_peers : ℕ
max_peers = 8

-- RosterEntry{}
abbrev pub blank : RosterEntry
blank = record { link = 0; peer_id = 0; negotiated_minor = 0; state = disconnected }

abbrev pub initial : Roster
initial = record { entries = replicate max_peers blank }

-- The test of Find and FindMutable.
abbrev pub on_link : ℕ → RosterEntry → Bool
on_link link e = not (is_disconnected e.state) && e.link == link

unfoldable pub find_in : ℕ → List RosterEntry → Option RosterEntry
find_in link [] = none
find_in link (e ∷ es) = if on_link link e then some e else find_in link es

pub find : Roster → ℕ → Option RosterEntry
find r link = find_in link r.entries

pub find_by_peer_id : ℕ → List RosterEntry → Option RosterEntry
find_by_peer_id peer_id [] = none
find_by_peer_id peer_id (e ∷ es) =
    if has_identity e.state && e.peer_id == peer_id then some e else find_by_peer_id peer_id es

-- A write through FindMutable's pointer: at the entry that it finds, if it finds one.
unfoldable pub update : ℕ → (RosterEntry → RosterEntry) → List RosterEntry → List RosterEntry
update link f [] = []
update link f (e ∷ es) =
    let rest = update link f es in if on_link link e then f e ∷ es else e ∷ rest

-- OnLinkUp's loop: the first free entry, and whether there is one.
unfoldable pub claim : ℕ → List RosterEntry → Bool × List RosterEntry
claim link [] = (false, [])
claim link (e ∷ es) =
    let (found, rest) = claim link es in
    if not (is_disconnected e.state)
    then (found, e ∷ rest)
    else (true, record blank { link = link; state = handshaking } ∷ es)

-- OnLinkUp behind its call of Find.
unfoldable pub link_up : Roster → ℕ → Option RosterEntry → Bool × Roster
link_up r link (some e) = (true, r)
link_up r link none =
    let (found, entries) = claim link r.entries in (found, record { entries = entries })

unfoldable pub on_link_up : Roster → ℕ → Bool × Roster
on_link_up r link = link_up r link (find_in link r.entries)

unfoldable pub on_link_down : Roster → ℕ → Roster
on_link_down r link = record { entries = update link (λ _. blank) r.entries }

abbrev pub as_joined : ℕ → ℕ → RosterEntry → RosterEntry
as_joined peer_id minor e = record e { peer_id = peer_id; negotiated_minor = minor; state = joined }

abbrev pub as_leaving : RosterEntry → RosterEntry
as_leaving e = record e { state = leaving }

-- MarkJoined and MarkLeaving behind their calls of FindMutable: the entry, if it is in the state
-- asked for, is changed.
unfoldable pub mark :
    (PeerState → Bool)
    → (RosterEntry → RosterEntry)
    → Roster
    → ℕ
    → Option RosterEntry
    → Bool × Roster
mark may f r link none = (false, r)
mark may f r link (some e) =
    if not (may e.state) then (false, r) else (true, record { entries = update link f r.entries })

unfoldable pub mark_joined : Roster → ℕ → ℕ → ℕ → Bool × Roster
mark_joined r link peer_id minor =
    mark is_handshaking (as_joined peer_id minor) r link (find_in link r.entries)

unfoldable pub mark_leaving : Roster → ℕ → Bool × Roster
mark_leaving r link = mark is_joined_state as_leaving r link (find_in link r.entries)

pub is_joined : Roster → ℕ → Bool
is_joined r link = elim (find_in link r.entries) [ none ↦ false | some e ↦ is_joined_state e.state ]

pub joined_count : List RosterEntry → ℕ
joined_count [] = 0
joined_count (e ∷ es) = let n = joined_count es in if is_joined_state e.state then n + 1 else n

unfoldable pub occupied_count : List RosterEntry → ℕ
occupied_count [] = 0
occupied_count (e ∷ es) =
    let n = occupied_count es in if not (is_disconnected e.state) then n + 1 else n

pub is_full : Roster → Bool
is_full r = leb max_peers (occupied_count r.entries)
