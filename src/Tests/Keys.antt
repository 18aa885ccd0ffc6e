-- ===== src/Tests/Keys.antt =====
-- The theorem on the computer keyboard, on a concrete input.
use jam_n.Prelude.{ℕ, ◌≤◌, ◌≡◌, true, false, List, [], ◌∷◌, some, length, arith}
use jam_n.Platform.KeyNoteInput.{initial, max_held_keys}
use jam_n.Platform.KeyNoteInput.Sounding.{heard, plays}
use jam_n.Platform.KeyNoteInput.Calls.{Call, bound_to, transition, all_up, run, run-heard}

-- Two keys play middle C; one of them goes up, then the other, and a third at the end.
abbrev played : List Call
played =
    bound_to (
      some (
        record { raw_code = 51; pitch = 60 }
        ∷ record { raw_code = 16; pitch = 60 }
        ∷ record { raw_code = 17; pitch = 62 }
        ∷ []))
    ∷ transition 51 true
    ∷ transition 16 true
    ∷ transition 17 true
    ∷ transition 17 true
    ∷ transition 51 false
    ∷ transition 16 false
    ∷ all_up 6 (omega arith)
    ∷ []

run-heard_example :
    let (es, k) = run initial played in
    ((p : ℕ) → heard p false es ≡ plays p k.held) × (length k.held ≤ max_held_keys)
run-heard_example = run-heard played
