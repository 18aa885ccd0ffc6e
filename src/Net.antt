-- ===== src/Net.antt =====
-- modules/jamn_net: transport.h, what the engine and the session know of a transport.
pub mod Sim
use jam_n.Prelude.{Bool, true, false}

pub data Channel : Type 0 where
  control : Channel
  realtime : Channel
  bulk : Channel

-- channel == Channel::kRealtime
abbrev pub is_realtime : Channel → Bool
is_realtime control = false
is_realtime realtime = true
is_realtime bulk = false

-- kConnected and kDisconnected
pub data PeerEvent : Type 0 where
  connected : PeerEvent
  link_lost : PeerEvent
