-- ===== src/Tests/Pace.antt =====
-- The theorem on the net thread's loop, on a concrete input.
use jam_n.Prelude.{
  ℕ, suc, ◌%◌, ◌^◌, ◌≡◌, List, [], ◌∷◌, true, none, some, ◌==◌, if◌then◌else◌, length,
}
use jam_n.Prelude.Int.{pos, ◌-ℤ◌}
use jam_n.Core.Quotient.{quot}
use jam_n.Engine.Runtime.{PeerRuntime}
use jam_n.Engine.Runtime as Runtime
use jam_n.Engine.NetThread.{
  Cadence, Round, net_thread, start, stopped, take_cadence, micros, rounds, entered,
}
use jam_n.Engine.NetThread.Pace.{last_us, Between, take_cadence_lem}
use jam_n.Tests.{whole}

abbrev quiet : ℕ → Round
quiet now = record { now = pos now; reports = [] }

-- Two rounds a poll interval apart, and a late one.
abbrev later : List Round
later = quiet 1250000 ∷ quiet 1900000 ∷ []

take_cadence_lem_example :
    let t =
      (rounds whole
        (λ _. true)
        1000
        (entered (start (net_thread (Runtime.initial (pos 0)) (pos 250))) (pos 999000))
        (quiet 1000000 ∷ later)).thread in
    (take_cadence whole t ≡ none)
    × (c : Cadence) × (take_cadence whole (stopped t) ≡ some c)
    × (c.iterations ≡ suc (length later) % 2 ^ 64)
    × Between 1000 c.min_us c.max_us (micros 1000 (quiet 1000000)) later
    × (c.mean_us ≡ (
        if length later == 0
        then pos 0
        else quot
            (last_us 1000 (micros 1000 (quiet 1000000)) later -ℤ micros 1000 (quiet 1000000))
            (length later)))
take_cadence_lem_example =
    take_cadence_lem whole (λ _. true) 1000 (Runtime.initial (pos 0)) (pos 250) (pos 999000)
      (quiet 1000000) later
