-- ===== src/Engine/AudioRuntime/Panic.antt =====
-- A panic silences every slot and the local monitor, and leaves nothing behind that could sound.
use jam_n.Prelude.{
  ℕ, zero, suc, ◌+◌, ◌-◌, ◌≤◌, ◌<◌, ◌≡◌, refl, ap, sym, ◌∙◌, true, false, List, [], ◌∷◌, ◌++◌, map,
  Option, none, some, inl, inr, length, min, append-nil, arith, get_or,
}
use mathlib.Core.Path.{subst}
use jam_n.Prelude.Int.{ℤ, pos}
use jam_n.Core.Double.{Double}
use jam_n.Core.Quotient.{quot}
use jam_n.Core.SpscRing.{Ring, size_approx}
use jam_n.Core.SpscRing as Spsc
use jam_n.Core.SpscRing.Queue.{IsValid, contents, pop_cases, size_cases, length-contents}
use jam_n.Proto.Note.{NoteEvent}
use jam_n.Engine.AudioClock.{update}
use jam_n.Engine.Scheduler.{
  EventScheduler, HeldEntry, no_event, local_peer_id, free_held, flush_all, pop_ready, pop_heap,
  pop_entry, release_due_held_events, release_one, release_from,
}
use jam_n.Engine.Runtime.{PeerRuntime}
use jam_n.Engine.AudioRuntime.{Note, AudioRuntime}
use jam_n.Engine.AudioRuntime.Intake.{drain_local, visit_slots}
use jam_n.Engine.AudioRuntime.Output.{
  peer_of, silence_from, discard, off_event, emit_silences, emit_local_silence, deliver,
}
use jam_n.Engine.AudioRuntime.Service.{panic_flushed, closed, emit, panic_or_not, service}
use jam_n.Engine.AudioRuntime.Works.{Monitor, drain_local-Works, visit_slots-Works}

abbrev pub off_note : ℕ → ℕ → Note
off_note peer slot = record { peer = peer; slot = slot; event = off_event; sample_offset = pos 0 }

-- An all-notes-off for each of the `n` slots from `slot` on, and its peer.
abbrev pub off_from : ℕ → ℕ → Option PeerRuntime → List Note
off_from zero slot session = []
off_from (suc n) slot session = off_note (peer_of session slot) slot ∷ off_from n (slot + 1) session

length-off_from : (n slot : ℕ) (session : Option PeerRuntime) → length (off_from n slot session) ≡ n
length-off_from zero slot session = refl
length-off_from (suc n) slot session = ap suc (length-off_from n (slot + 1) session)

emit-off_from :
    (n room slot : ℕ) (session : Option PeerRuntime)
    → n ≤ room
    → emit_silences room slot (silence_from n slot session) ≡ off_from n slot session
unfolding emit_silences silence_from
emit-off_from zero room slot session h = refl
emit-off_from (suc n) zero slot session h = absurd (omega arith)
emit-off_from (suc n) (suc room) slot session h =
    ap (λ notes. off_note (peer_of session slot) slot ∷ notes)
      (emit-off_from n room (slot + 1) session (omega arith))

emit_local_off :
    (room : ℕ) → 1 ≤ room → emit_local_silence room true ≡ off_note local_peer_id 8 ∷ []
unfolding emit_local_silence
emit_local_off zero h = absurd (omega arith)
emit_local_off (suc room) h = refl

-- Nothing is held.
abbrev AllFree : List HeldEntry → Type 0
AllFree [] = Unit {0}
AllFree (h ∷ hs) = (h.in_use ≡ false) × AllFree hs

AllFree-get : (hs : List HeldEntry) (j : ℕ) → AllFree hs → (get_or hs j free_held).in_use ≡ false
AllFree-get [] j f = refl
AllFree-get (h ∷ hs) zero (e, f) = e
AllFree-get (h ∷ hs) (suc j) (e, f) = AllFree-get hs j f

freed-AllFree :
    (hs : List HeldEntry) → AllFree (map {A = HeldEntry} (λ h. record h { in_use = false }) hs)
freed-AllFree [] = tt
freed-AllFree (h ∷ hs) = (refl, freed-AllFree hs)

release_one-free : (now : ℤ) (j : ℕ) (s : EventScheduler) → AllFree s.held → release_one now j s ≡ s
unfolding release_one
release_one-free now j s f = rw (AllFree-get s.held j f) refl

release_from-free :
    (now : ℤ) (n j : ℕ) (s : EventScheduler) → AllFree s.held → release_from now n j s ≡ s
unfolding release_from
release_from-free now zero j s f = refl
release_from-free now (suc n) j s f =
    ap (release_from now n (j + 1)) (release_one-free now j s f)
    ∙ release_from-free now n (j + 1) s f

flushed-silent :
    (s : EventScheduler) (now : ℤ) → pop_ready (flush_all s).1 now ≡ (none, (flush_all s).1)
unfolding pop_ready pop_heap release_due_held_events flush_all pop_entry
flushed-silent s now =
    ap (λ t. pop_entry t.heap t now) (release_from-free now 32 0 _ (freed-AllFree s.held))

deliver-flushed :
    (room : ℕ) (session : Option PeerRuntime) (now : ℤ) (s : EventScheduler)
    → deliver room session now (flush_all s).1 ≡ ([], (flush_all s).1)
unfolding deliver
deliver-flushed zero session now s = refl
deliver-flushed (suc room) session now s = ground (arith, flushed-silent s now)

discard_end :
    (fuel : ℕ) (ring ring' : Ring NoteEvent)
    → Spsc.pop no_event ring ≡ (none, ring')
    → discard (suc fuel) ring ≡ ring'
unfolding discard
discard_end fuel ring ring' e = ground arith

discard_step :
    (fuel : ℕ) (ring : Ring NoteEvent) (event : NoteEvent) (ring' : Ring NoteEvent)
    → Spsc.pop no_event ring ≡ (some event, ring')
    → discard (suc fuel) ring ≡ discard fuel ring'
unfolding discard
discard_step fuel ring event ring' e = ground arith

discard-empties :
    (fuel : ℕ) (ring : Ring NoteEvent)
    → IsValid ring
    → size_approx ring < fuel
    → contents no_event (discard fuel ring) ≡ []
discard-empties zero ring v h = absurd (omega arith)
discard-empties (suc fuel) ring v h = elim (pop_cases no_event ring v) [
  | inl (none_left, e) ↦ ap (contents no_event) (discard_end fuel ring ring e) ∙ none_left
  | inr (event, ring', e, valid, same, c) ↦
      ap (contents no_event) (discard_step fuel ring event ring' e)
      ∙ discard-empties fuel ring' valid (
          omega (
            arith,
            sym (length-contents no_event ring) ∙ ap length c,
            length-contents no_event ring',
          ))
]

-- What a panic leaves: an empty queue, an empty local monitor, and no panic.
pub record Silent (D : Double) (s : AudioRuntime D) : Type 0 where
  pub nothing_queued : s.scheduler.heap ≡ []
  pub nothing_held : AllFree s.scheduler.held
  pub nothing_monitored : contents no_event s.local_monitor ≡ []
  pub calm : s.panic_requested ≡ false

quiet_lem :
    (limit : ℕ) (session : Option PeerRuntime)
    → 9 ≤ limit
    → let silenced = emit_silences limit 0 (silence_from 8 0 session) in
      silenced ++ emit_local_silence (limit - length silenced) true
      ≡ off_from 8 0 session ++ off_note local_peer_id 8 ∷ []
quiet_lem limit session h =
    ap (λ notes. notes ++ emit_local_silence (limit - length notes) true)
      (emit-off_from 8 limit 0 session (omega arith))
    ∙ ap (λ notes. off_from 8 0 session ++ notes)
        (emit_local_off (limit - length (off_from 8 0 session))
          (omega (arith, length-off_from 8 0 session)))

module _ (D : Double) where
  panics :
      (s : AudioRuntime D) (session : Option PeerRuntime) (silences : List (Option ℕ)) (now : ℤ)
      (capacity : ℕ)
      → s.panic_requested ≡ true
      → IsValid s.local_monitor
      → s.local_monitor.capacity ≡ 128
      → 9 ≤ capacity
      → let (out, t, session') = panic_or_not D now capacity (s, session, silences) in
        (out ≡ off_from 8 0 session' ++ off_note local_peer_id 8 ∷ []) × Silent D t
  unfolding panic_or_not emit panic_flushed closed flush_all
  panics s session silences now capacity panic v cap room =
      let limit = min capacity 64 in
      let silenced = emit_silences limit 0 (silence_from 8 0 session) in
      let quiet = silenced ++ emit_local_silence (limit - length silenced) true in
      let left = limit - length quiet in
      let none_due = deliver-flushed left session now s.scheduler in
      rw panic (
        ap (λ x. quiet ++ x.0) none_due ∙ append-nil quiet ∙ quiet_lem limit session (omega arith),
        record {
          nothing_queued = ap (λ x. x.1.heap) none_due;
          nothing_held =
              subst AllFree (sym (ap (λ x. x.1.held) none_due)) (freed-AllFree s.scheduler.held);
          nothing_monitored =
              discard-empties 129 s.local_monitor v (omega (arith, size_cases s.local_monitor v));
          calm = refl;
        },
      )

  -- A block that finds a panic requested, with room for 9 notes, hands out an all-notes-off for each of
  -- the 8 slots, in order, and one for the local monitor, and nothing else. Behind it nothing is queued,
  -- held or left in the local monitor's ring, and no panic is requested any more.
  pub service-Silent :
      (s : AudioRuntime D) (session : Option PeerRuntime) (samples steady : ℤ) (capacity : ℕ)
      → s.panic_requested ≡ true
      → Monitor s.local_monitor
      → 9 ≤ capacity
      → let (out, t, session') = service D s session samples steady capacity in
        (out ≡ off_from 8 0 session' ++ off_note local_peer_id 8 ∷ []) × Silent D t
  unfolding service
  service-Silent s session samples steady capacity panic m room =
      let now = quot steady 1000 in
      let clocked : AudioRuntime D = record s { clock = update D s.clock samples steady } in
      let drained = drain_local D 32 now clocked in
      let (p, keeps, _) = drain_local-Works D 32 now clocked in
      let (p', keeps', _) = visit_slots-Works D drained session now in
      let kept = keeps' (keeps m) in
      panics (visit_slots D drained session now).0 (visit_slots D drained session now).1
        (visit_slots D drained session now).2 now capacity (p' ∙ p ∙ panic) kept.valid kept.capacity
        room
