-- ===== src/Engine/Runtime/Budget.antt =====
-- No realtime packet exceeds the payload that the transport sends unfragmented.
use jam_n.Prelude.{
  ℕ, ◌≤◌, ◌≡◌, refl, ap, sym, ◌∙◌, List, [], ◌∷◌, Bool, false, ◌&&◌, ltb, length, take, length-take,
  arith,
}
use jam_n.Prelude.Int.{ℤ}
use jam_n.Core.Double.{Double}
use jam_n.Net.{Channel, control, realtime, bulk, is_realtime}
use jam_n.Engine.Runtime.{
  PeerRuntime, Action, send, control_packet, peer_event, initial, set_max_realtime_payload,
}
use jam_n.Engine.Runtime.Steps.{
  Change, stay, both, counted, owned, buffered, sent, passed_on, told, offered, skipped, pinged,
  timed, claimed, released,
}
use jam_n.Engine.Runtime.Steps.Receive.{Any}
use jam_n.Engine.Runtime.Steps.Serve.{Call, run, run-Change}

-- Every Send on the realtime channel is of `most` bytes at most.
abbrev pub Within : ℕ → List Action → Type 0
Within most [] = Unit {0}
Within most (send peer realtime bytes ∷ log) = (length bytes ≤ most) × Within most log
Within most (send peer control bytes ∷ log) = Within most log
Within most (send peer bulk bytes ∷ log) = Within most log
Within most (control_packet from r ∷ log) = Within most log
Within most (peer_event peer event ∷ log) = Within most log

record Holds (most : ℕ) (s : PeerRuntime) : Type 0 where
  limit : s.max_realtime_payload ≡ most
  within : Within most s.log

sent-Within :
    (most peer size : ℕ) (channel : Channel) (buffer : List ℕ) (log : List Action)
    → (is_realtime channel && ltb most size) ≡ false
    → Within most log
    → Within most (send peer channel (take size buffer) ∷ log)
sent-Within most peer size control buffer log fits w = w
sent-Within most peer size realtime buffer log fits w =
    (let short : size ≤ most = ground arith in omega (arith, length-take size buffer), w)
sent-Within most peer size bulk buffer log fits w = w

Change-Holds : {most : ℕ} {s t : PeerRuntime} → Change Any s t → Holds most s → Holds most t
Change-Holds stay h = h
Change-Holds (both c d) h = Change-Holds d (Change-Holds c h)
Change-Holds (counted stats) h = record { limit = h.limit; within = h.within }
Change-Holds (owned own) h = record { limit = h.limit; within = h.within }
Change-Holds (buffered p q) h = record { limit = h.limit; within = h.within }
Change-Holds {most} {s} (sent peer channel size fits) h = record {
  limit = h.limit;
  within =
      sent-Within most peer size channel s.packet_buffer s.log
        (ap (λ n. is_realtime channel && ltb n size) (sym h.limit) ∙ fits) h.within;
}
Change-Holds (passed_on from r) h = record { limit = h.limit; within = h.within }
Change-Holds (told peer event) h = record { limit = h.limit; within = h.within }
Change-Holds (offered slot note dedupe touch) h = record { limit = h.limit; within = h.within }
Change-Holds (skipped dedupe) h = record { limit = h.limit; within = h.within }
Change-Holds (pinged slot at touch) h = record { limit = h.limit; within = h.within }
Change-Holds (timed slot clock relocks touch) h = record { limit = h.limit; within = h.within }
Change-Holds (claimed slot peer touch named new e) h = record { limit = h.limit; within = h.within }
Change-Holds (released slot touch) h = record { limit = h.limit; within = h.within }

-- With a realtime payload set at the start, every packet that any calls make the runtime send on the
-- realtime channel is of that many bytes at most, whatever events and pings it carries.
pub run-Within :
    (D : Double) (sends : List Action → Bool) (start : ℤ) (most : ℕ) (calls : List Call)
    → Within most (run D sends (set_max_realtime_payload (initial start) most) calls).log
unfolding set_max_realtime_payload
run-Within D sends start most calls =
    (Change-Holds (run-Change D sends _ calls) (record { limit = refl; within = tt })).within
