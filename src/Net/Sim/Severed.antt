-- ===== src/Net/Sim/Severed.antt =====
-- A severed link stays dead until it is connected again.
use jam_n.Prelude.{ℕ, ◌≡◌, refl, true, false, List, [], ◌∷◌}
use jam_n.Prelude.Int.{ℤ}
use jam_n.Core.Double.{Double}
use jam_n.Net.{Channel}
use jam_n.Net.Sim.{
  Pending, same_link, is_severed, Random, LinkConfig, SimNetwork, create_node, set_link_config,
  connect, sever, poll, schedule_one, put_in_flight, enqueue, advance,
}
use jam_n.Net.Sim.Waiting.{waits, Shrunk}

-- What is called on the network, but for the connection of the link itself.
pub data Call {D : Double} (R : Random D) (a b : ℕ) : Type 1 where
  new_node : ℕ → Call R a b
  configure : ℕ → ℕ → LinkConfig R → Call R a b
  connected_to : (c d : ℕ) → same_link a b (c, d) ≡ false → Call R a b
  severed_from : ℕ → ℕ → Call R a b
  polled : ℕ → Call R a b
  sent : ℕ → ℕ → Channel → List ℕ → Call R a b
  advanced : ℤ → Call R a b

module _ {D : Double} (R : Random D) (a b : ℕ) where
  abbrev pub call : SimNetwork R → Call R a b → SimNetwork R
  call s (new_node id) = create_node R s id
  call s (configure from to config) = set_link_config R s from to config
  call s (connected_to c d other) = connect R s c d
  call s (severed_from c d) = sever R s c d
  call s (polled id) = (poll R s id).1
  call s (sent from to channel bytes) = (enqueue R s from to channel bytes).1
  call s (advanced delta) = advance R s delta

  abbrev pub run : SimNetwork R → List (Call R a b) → SimNetwork R
  run s [] = s
  run s (c ∷ cs) = run (call s c) cs

  -- What Enqueue leaves alone.
  abbrev Links : SimNetwork R → SimNetwork R → Type 0
  Links s t = (t.nodes ≡ s.nodes) × (t.severed_links ≡ s.severed_links)

  schedule_one-Links :
      (s : SimNetwork R) (config : LinkConfig R) (from to : ℕ) (channel : Channel) (bytes : List ℕ)
      → Links s (schedule_one R s config from to channel bytes)
  unfolding schedule_one put_in_flight
  schedule_one-Links s config from to channel bytes = (refl, refl)

  -- The link is severed, and of what waited in the first place all does or nothing.
  record Cut (first : List Pending) (s : SimNetwork R) : Type 0 where
    severed : is_severed a b s.severed_links ≡ true
    shrunk : Shrunk first (waits a b s.nodes)
