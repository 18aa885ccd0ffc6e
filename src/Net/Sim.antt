-- ===== src/Net/Sim.antt =====
-- modules/jamn_net: sim_transport.h and sim_transport.cpp: the network in one process, on virtual time
-- (modules/jamn_core: sim_clock.h). The generator and its distributions are <random>'s, a parameter.
-- Maps and sets are lists that are searched from the front; a node is its id and its ready_ queue.
-- The network knows the latest node of an id only. std::sort is an insertion sort: the order that it is
-- given tells packets with different numbers apart.
pub mod Delivery
pub mod Severed
pub mod Waiting
pub mod Handout
use jam_n.Prelude.{
  ℕ, zero, suc, ◌+◌, ◌%◌, ◌^◌, Bool, true, false, not, ◌&&◌, ◌||◌, List, [], ◌∷◌, ◌++◌, Option,
  none, some, ◌==◌, ltb, if◌then◌else◌,
}
use jam_n.Prelude.Int.{ℤ, pos, ◌+ℤ◌, ◌-ℤ◌, ltb_ℤ, leb_ℤ}
use jam_n.Core.Double.{Double}
use jam_n.Net.{Channel, control, realtime, bulk, PeerEvent, connected, link_lost}

pub channel_is_reliable : Channel → Bool
channel_is_reliable control = true
channel_is_reliable realtime = false
channel_is_reliable bulk = true

-- What is reported at a node's next Poll.
pub data Pending : Type 0 where
  peer_event : ℕ → PeerEvent → Pending
  packet : ℕ → Channel → List ℕ → Pending

pub record InFlightPacket : Type 0 where
  pub arrival_time : ℤ
  pub send_seq : ℕ
  pub from : ℕ
  pub to : ℕ
  pub channel : Channel
  pub payload : List ℕ

pub record Node : Type 0 where
  pub id : ℕ
  pub ready : List Pending

-- nodes_.find, as a test.
unfoldable pub has_node : List Node → ℕ → Bool
has_node [] id = false
has_node (node ∷ nodes) id = node.id == id || has_node nodes id

-- QueuePacket and QueuePeerEvent on the node of an id.
unfoldable pub queue : ℕ → Pending → List Node → List Node
queue id pending [] = []
queue id pending (node ∷ nodes) =
    if node.id == id
    then record node { ready = node.ready ++ pending ∷ [] } ∷ nodes
    else node ∷ queue id pending nodes

unfoldable pub ready_of : ℕ → List Node → List Pending
ready_of id [] = []
ready_of id (node ∷ nodes) = if node.id == id then node.ready else ready_of id nodes

unfoldable pub emptied : ℕ → List Node → List Node
emptied id [] = []
emptied id (node ∷ nodes) =
    if node.id == id then record node { ready = [] } ∷ nodes else node ∷ emptied id nodes

-- Whether a pair of ids, in either order, is that of the link.
unfoldable pub same_link : ℕ → ℕ → ℕ × ℕ → Bool
same_link a b (c, d) = a == c && b == d || a == d && b == c

unfoldable pub is_severed : ℕ → ℕ → List (ℕ × ℕ) → Bool
is_severed a b [] = false
is_severed a b (link ∷ links) = same_link a b link || is_severed a b links

-- severedLinks_.erase
unfoldable pub mended : ℕ → ℕ → List (ℕ × ℕ) → List (ℕ × ℕ)
mended a b [] = []
mended a b (link ∷ links) =
    let rest = mended a b links in if same_link a b link then rest else link ∷ rest

-- The comparison of Advance's std::sort.
unfoldable pub before : InFlightPacket → InFlightPacket → Bool
before p q =
    if ltb_ℤ p.arrival_time q.arrival_time || ltb_ℤ q.arrival_time p.arrival_time
    then ltb_ℤ p.arrival_time q.arrival_time
    else ltb p.send_seq q.send_seq

unfoldable pub insert : InFlightPacket → List InFlightPacket → List InFlightPacket
insert p [] = p ∷ []
insert p (q ∷ qs) = let rest = insert p qs in if before q p then q ∷ rest else p ∷ q ∷ qs

unfoldable pub sort : List InFlightPacket → List InFlightPacket
sort [] = []
sort (p ∷ ps) = insert p (sort ps)

-- The partition of Advance: what is due, and what waits on.
unfoldable pub due : ℤ → List InFlightPacket → List InFlightPacket
due now [] = []
due now (p ∷ ps) = let rest = due now ps in if leb_ℤ p.arrival_time now then p ∷ rest else rest

unfoldable pub waiting : ℤ → List InFlightPacket → List InFlightPacket
waiting now [] = []
waiting now (p ∷ ps) =
    let rest = waiting now ps in if leb_ℤ p.arrival_time now then rest else p ∷ rest

-- The body of the delivery loop. (A node that is missing gets nothing.)
unfoldable pub hand_out : List (ℕ × ℕ) → InFlightPacket → List Node → List Node
hand_out severed p nodes =
    if is_severed p.from p.to severed
    then nodes
    else queue p.to (packet p.from p.channel p.payload) nodes

unfoldable pub hand_out_all : List (ℕ × ℕ) → List InFlightPacket → List Node → List Node
hand_out_all severed [] nodes = nodes
hand_out_all severed (p ∷ ps) nodes = hand_out_all severed ps (hand_out severed p nodes)

-- SimClock::Advance
unfoldable pub clock_advance : ℤ → ℤ → ℤ
clock_advance now delta = now +ℤ (if ltb_ℤ delta (pos 0) then pos 0 else delta)

-- A generator's state, and the draws from it: a real number of [0, 1), an integer between two others.
pub record Random (D : Double) : Type 1 where
  pub state : Type 0
  pub unit : state → D.carrier × state
  pub between : ℤ → ℤ → state → ℤ × state

module _ {D : Double} (R : Random D) where
  pub record LinkConfig : Type 0 where
    pub delay_us : ℤ
    pub jitter_us : ℤ
    pub loss_probability : D.carrier
    pub duplicate_probability : D.carrier

  -- LinkConfig{}
  abbrev pub default_config : LinkConfig
  default_config = record {
    delay_us = pos 0;
    jitter_us = pos 0;
    loss_probability = D.decimal 0 0;
    duplicate_probability = D.decimal 0 0;
  }

  pub record SimNetwork : Type 0 where
    pub now : ℤ
    pub rng : R.state
    pub next_send_seq : ℕ
    pub link_configs : List (ℕ × ℕ × LinkConfig)
    pub nodes : List Node
    pub in_flight : List InFlightPacket
    pub severed_links : List (ℕ × ℕ)

  -- SimNetwork(seed), with the seeded generator.
  abbrev pub initial : R.state → SimNetwork
  initial rng = record {
    now = pos 0;
    rng = rng;
    next_send_seq = 0;
    link_configs = [];
    nodes = [];
    in_flight = [];
    severed_links = [];
  }

  unfoldable pub create_node : SimNetwork → ℕ → SimNetwork
  create_node s id = record s { nodes = record { id = id; ready = [] } ∷ s.nodes }

  unfoldable pub set_link_config : SimNetwork → ℕ → ℕ → LinkConfig → SimNetwork
  set_link_config s from to config = record s { link_configs = (from, to, config) ∷ s.link_configs }

  unfoldable pub config_in : ℕ → ℕ → List (ℕ × ℕ × LinkConfig) → LinkConfig
  config_in from to [] = default_config
  config_in from to ((f, t, config) ∷ configs) =
      if f == from && t == to then config else config_in from to configs

  unfoldable pub config_for : SimNetwork → ℕ → ℕ → LinkConfig
  config_for s from to = config_in from to s.link_configs

  unfoldable pub connect : SimNetwork → ℕ → ℕ → SimNetwork
  connect s a b = if not (has_node s.nodes a) || not (has_node s.nodes b) then s else record s {
    severed_links = mended a b s.severed_links;
    nodes = queue b (peer_event a connected) (queue a (peer_event b connected) s.nodes);
  }

  unfoldable pub sever : SimNetwork → ℕ → ℕ → SimNetwork
  sever s a b = if is_severed a b s.severed_links then s else record s {
    severed_links = (a, b) ∷ s.severed_links;
    nodes = queue b (peer_event a link_lost) (queue a (peer_event b link_lost) s.nodes);
  }

  -- Disconnect, called by the node `self`.
  unfoldable pub disconnect : SimNetwork → ℕ → ℕ → SimNetwork
  disconnect s self peer = sever s self peer

  -- Poll of a node: what it reports, in order.
  unfoldable pub poll : SimNetwork → ℕ → List Pending × SimNetwork
  poll s id = (ready_of id s.nodes, record s { nodes = emptied id s.nodes })

  -- The delay of scheduleOne, and the generator behind it.
  unfoldable pub drawn_delay : LinkConfig → Bool → R.state → ℤ × R.state
  drawn_delay config reliable rng =
      let (jitter, rng') = R.between (pos 0 -ℤ config.jitter_us) config.jitter_us rng in
      if not reliable && ltb_ℤ (pos 0) config.jitter_us
      then (config.delay_us +ℤ jitter, rng')
      else (config.delay_us, rng)

  -- scheduleOne, from its delay on.
  unfoldable pub put_in_flight : SimNetwork → ℕ → ℕ → Channel → List ℕ → ℤ × R.state → SimNetwork
  put_in_flight s from to channel bytes (delay, rng) = record s {
    rng = rng;
    next_send_seq = (s.next_send_seq + 1) % 2 ^ 64;
    in_flight =
        s.in_flight
        ++ record {
          arrival_time = s.now +ℤ (if ltb_ℤ delay (pos 0) then pos 0 else delay);
          send_seq = s.next_send_seq;
          from = from;
          to = to;
          channel = channel;
          payload = bytes;
        }
          ∷ [];
  }

  unfoldable pub schedule_one : SimNetwork → LinkConfig → ℕ → ℕ → Channel → List ℕ → SimNetwork
  schedule_one s config from to channel bytes =
      put_in_flight s from to channel bytes (drawn_delay config (channel_is_reliable channel) s.rng)

  -- The draws of Enqueue on an unreliable channel.
  unfoldable pub scheduled_twice : LinkConfig → ℕ → ℕ → Channel → List ℕ → SimNetwork → SimNetwork
  scheduled_twice config from to channel bytes s =
      let (u, rng) = R.unit s.rng in
      let s' = record s { rng = rng } in
      if D.less u config.duplicate_probability
      then schedule_one s' config from to channel bytes
      else s'

  unfoldable pub unreliable : SimNetwork → LinkConfig → ℕ → ℕ → Channel → List ℕ → SimNetwork
  unreliable s config from to channel bytes =
      let (u, rng) = R.unit s.rng in
      let s' = record s { rng = rng } in
      if D.less u config.loss_probability
      then s'
      else scheduled_twice config from to channel bytes
          (schedule_one s' config from to channel bytes)

  unfoldable pub enqueue : SimNetwork → ℕ → ℕ → Channel → List ℕ → Bool × SimNetwork
  enqueue s from to channel bytes =
      let config = config_for s from to in
      if not (has_node s.nodes to)
      then (false, s)
      else if is_severed from to s.severed_links
      then (false, s)
      else (
        true,
        if channel_is_reliable channel
            then schedule_one s config from to channel bytes
            else unreliable s config from to channel bytes,
      )

  -- Send of the node `self`.
  unfoldable pub send : SimNetwork → ℕ → ℕ → Channel → List ℕ → Bool × SimNetwork
  send s self peer channel bytes = enqueue s self peer channel bytes

  unfoldable pub advance : SimNetwork → ℤ → SimNetwork
  advance s delta =
      let now = clock_advance s.now delta in
      record s {
        now = now;
        in_flight = waiting now s.in_flight;
        nodes = hand_out_all s.severed_links (sort (due now s.in_flight)) s.nodes;
      }
