-- ===== src/Engine/Scheduler/Policy.antt =====
-- Which remote events are admitted, and when they are to play.
use mathlib.Core.List.{Perm}
use mathlib.Core.List.Perm
use jam_n.Prelude.{ℕ, ◌+◌, ◌%◌, ◌^◌, ◌≤◌, ◌<◌, ◌≡◌, ◌≢◌, ◌⊎◌, Bool, true, false, List, ◌∷◌, length}
use jam_n.Prelude.Int.{ℤ, pos, ◌+ℤ◌, ◌≤ℤ◌, ◌<ℤ◌}
use jam_n.Proto.Note.{NoteEvent, note_off, all_notes_off}
use jam_n.Engine.Scheduler.{EventScheduler, HeapEntry}

-- Five milliseconds behind its deadline, or more.
abbrev pub TooLate : ℤ → ℤ → Type 0
TooLate deadline now = deadline +ℤ pos 5000 ≤ℤ now

-- Neither a note-off nor an all-notes-off.
abbrev pub MayDrop : NoteEvent → Type 0
MayDrop event = (event.kind ≢ note_off) × (event.kind ≢ all_notes_off)

-- The entry joins the queue, for its deadline or, where that is past, for now.
abbrev pub Joins : EventScheduler → ℕ → NoteEvent → ℤ → ℤ → Bool × EventScheduler → Type 0
Joins s peer event deadline now (answer, t) =
    (answer ≡ true)
    × (e : HeapEntry) × Perm t.heap (e ∷ s.heap)
    × (e.peer ≡ peer)
    × (e.event ≡ event)
    × (e.sequence ≡ s.next_sequence)
    × (t.next_sequence ≡ (s.next_sequence + 1) % 2 ^ 64)
    × (((deadline <ℤ now) × (e.deadline_us ≡ now))
        ⊎ ((now ≤ℤ deadline) × (e.deadline_us ≡ deadline)))

-- The queue is full, or the event is too late and may be dropped; or neither.
abbrev pub Verdict : EventScheduler → ℕ → NoteEvent → ℤ → ℤ → Bool × EventScheduler → Type 0
Verdict s peer event deadline now out =
    (((256 ≤ length s.heap) ⊎ (TooLate deadline now × MayDrop event)) × (out ≡ (false, s)))
    ⊎ ((length s.heap < 256)
        × ((now <ℤ deadline +ℤ pos 5000) ⊎ ((event.kind ≡ note_off) ⊎ (event.kind ≡ all_notes_off)))
        × Joins s peer event deadline now out)
