-- ===== src/Platform/KeyNoteInput/Calls.antt =====
-- Through any calls, a pitch sounds exactly while a key that plays it is held.
use jam_n.Prelude.{
  ℕ, ◌+◌, ◌-◌, ◌≤◌, ◌<◌, ◌≡◌, refl, ap, sym, ◌∙◌, ◌⊎◌, inl, inr, Bool, true, false, not, ◌&&◌, ◌||◌,
  List, [], ◌∷◌, ◌++◌, Option, none, some, ◌==◌, leb, length, get_or, set, Bool-cases, Option-cases,
  arith, length-append, length-set, length-take,
}
use jam_n.Platform.KeyNoteInput.{
  KeyBinding, HeldKey, Event, note_on, note_off, KeyNoteInput, initial, set_bindings, holds_from,
  held_from, another_key_holds, bound_pitch, press_bound, press, no_key, swapped_out, release,
  on_key, already_written, note_offs, release_all, max_held_keys,
}
use jam_n.Platform.KeyNoteInput.Sounding.{
  heard, plays, plays-append, heard-append, plays_at, plays-swapped_out, held_from-bound,
}

-- ReleaseAll is called with room for every key that can be held.
pub data Call : Type 0 where
  bound_to : Option (List KeyBinding) → Call
  transition : ℕ → Bool → Call
  all_up : (capacity : ℕ) → max_held_keys ≤ capacity → Call

abbrev shown : Option Event × KeyNoteInput → List Event × KeyNoteInput
shown (none, k) = ([], k)
shown (some e, k) = (e ∷ [], k)

abbrev pub call : KeyNoteInput → Call → List Event × KeyNoteInput
call k (bound_to bindings) = ([], set_bindings k bindings)
call k (transition raw_code pressed) = shown (on_key k raw_code pressed)
call k (all_up capacity room) = release_all k (some capacity)

-- The events of the calls in turn, and the keyboard behind them.
abbrev pub run : KeyNoteInput → List Call → List Event × KeyNoteInput
run k [] = ([], k)
run k (c ∷ cs) = let (es, k') = call k c in let (fs, k'') = run k' cs in (es ++ fs, k'')

-- What a call owes: the pitches that sound behind its events are those of the keys held, and there are
-- no more of these than the array holds.
abbrev Kept : KeyNoteInput → List Event × KeyNoteInput → Type 0
Kept k (es, t) =
    ((p : ℕ) → heard p (plays p k.held) es ≡ plays p t.held) × (length t.held ≤ max_held_keys)

abbrev AllOff : List Event → Type 0
AllOff [] = Unit {0}
AllOff (note_on p ∷ es) = ⊥
AllOff (note_off p ∷ es) = AllOff es

AllOff-append : (es : List Event) (q : ℕ) → AllOff es → AllOff (es ++ note_off q ∷ [])
AllOff-append [] q off = tt
AllOff-append (note_on p ∷ es) q off = off
AllOff-append (note_off p ∷ es) q off = AllOff-append es q off

and_false : (a : Bool) → (a && false) ≡ false
and_false true = refl
and_false false = refl

stays_silent : (p : ℕ) (es : List Event) → AllOff es → heard p false es ≡ false
stays_silent p [] off = refl
stays_silent p (note_on q ∷ es) off = elim off [ ]
stays_silent p (note_off q ∷ es) off =
    ap (λ b. heard p b es) (and_false (not (q == p))) ∙ stays_silent p es off

written-silent :
    (p : ℕ) (b : Bool) (es : List Event)
    → AllOff es
    → already_written p es ≡ true
    → heard p b es ≡ false
unfolding already_written
written-silent p b [] off e = ground arith
written-silent p b (note_on q ∷ es) off e = elim off [ ]
written-silent p b (note_off q ∷ es) off e = elim (Bool-cases (q == p)) [
  | inl same ↦ rw same (stays_silent p es off)
  | inr other ↦ rw other (written-silent p b es off (rw other at e))
]

press_bound-Kept :
    (k : KeyNoteInput) (raw_code : ℕ) (bound : Option ℕ)
    → length k.held ≤ max_held_keys
    → Kept k (shown (press_bound k raw_code bound))
unfolding press_bound
press_bound-Kept k raw_code none room = ((λ p. refl), room)
press_bound-Kept k raw_code (some pitch) room =
    elim (Bool-cases (leb max_held_keys (length k.held))) [
      | inl full ↦ rw full ((λ p. refl), room)
      | inr free ↦ rw free (
        (λ p. sym (plays-append p k.held (record { raw_code = raw_code; pitch = pitch }))),
        omega (
          arith,
          length-append k.held (record { raw_code = raw_code; pitch = pitch } ∷ []),
          leb-false max_held_keys (length k.held) free,
        ),
      )
    ]
  where
    leb-false : (a b : ℕ) → leb a b ≡ false → b < a
    leb-false a b e = ground arith

press-Kept :
    (k : KeyNoteInput) (raw_code : ℕ) (found : Option ℕ)
    → length k.held ≤ max_held_keys
    → Kept k (shown (press k raw_code found))
unfolding press
press-Kept k raw_code none room = press_bound-Kept k raw_code (bound_pitch raw_code k.bindings) room
press-Kept k raw_code (some index) room = ((λ p. refl), room)

length-swapped_out : (keys : List HeldKey) (i : ℕ) → length (swapped_out keys i) ≤ length keys
unfolding swapped_out
length-swapped_out keys i = omega (
  arith,
  length-take (length keys - 1) (set keys i (get_or keys (length keys - 1) no_key)),
  length-set keys i (get_or keys (length keys - 1) no_key),
)

-- With a second key on the pitch nothing changes; without one the note-off silences it.
held_on : (q p : ℕ) (others : ℕ → Bool) → others q ≡ true → (q == p || others p) ≡ others p
held_on q p others e = elim (Bool-cases (q == p)) [
  | inl same ↦ rw same (sym e ∙ ap others (let f : q ≡ p = ground arith in f))
  | inr other ↦ rw other refl
]

let_go :
    (q p : ℕ) (others : ℕ → Bool)
    → others q ≡ false
    → (not (q == p) && (q == p || others p)) ≡ others p
let_go q p others e = elim (Bool-cases (q == p)) [
  | inl same ↦ rw same (sym e ∙ ap others (let f : q ≡ p = ground arith in f))
  | inr other ↦ rw other refl
]

release-Kept :
    (k : KeyNoteInput) (raw_code : ℕ)
    → length k.held ≤ max_held_keys
    → Kept k (shown (release k (held_from 0 raw_code k.held)))
unfolding release another_key_holds
release-Kept k raw_code room = elim (Option-cases (held_from 0 raw_code k.held)) [
  | inl nothing ↦ rw nothing ((λ p. refl), room)
  | inr (i, e) ↦
      (let at : i < length k.held = omega (arith, held_from-bound 0 raw_code k.held i e) in
        let others : ℕ → Bool = λ p. holds_from 0 k.held p i in
        let pitch : ℕ = (get_or k.held i no_key).pitch in
        let z : 0 + i ≡ i = omega arith in
        let parts : (p : ℕ) → plays p k.held ≡ (pitch == p || others p) =
          λ p. plays_at 0 i k.held p at ∙ ap (λ e. pitch == p || holds_from 0 k.held p e) z in
        let left : (p : ℕ) → others p ≡ plays p (swapped_out k.held i) = λ p.
          ap (λ e. holds_from 0 k.held p e) (sym z) ∙ sym (plays-swapped_out 0 i k.held p at) in
        let fewer : length (swapped_out k.held i) ≤ max_held_keys =
          omega (arith, length-swapped_out k.held i) in
        elim (Bool-cases (others pitch)) [
          | inl still ↦
              rw (e, still) ((λ p. parts p ∙ held_on pitch p others still ∙ left p), fewer)
          | inr gone ↦
              rw (e, gone)
                (
                  (λ p.
                      ap (λ b. not (pitch == p) && b) (parts p)
                      ∙ let_go pitch p others gone
                      ∙ left p),
                  fewer,
                )
        ])
]

abbrev Due : ℕ → Bool → List HeldKey → List Event → Type 0
Due p b keys written = (heard p b written ≡ false) ⊎ (plays p keys ≡ true)

Due-skipped :
    (p : ℕ) (b : Bool) (key : HeldKey) (keys : List HeldKey) (written : List Event)
    → AllOff written
    → already_written key.pitch written ≡ true
    → Due p b (key ∷ keys) written
    → Due p b keys written
Due-skipped p b key keys written off there (inl quiet) = inl quiet
Due-skipped p b key keys written off there (inr e) = elim (Bool-cases (key.pitch == p)) [
  | inl same ↦ inl (
      written-silent p b written off
        (ap (λ q. already_written q written) (let f : p ≡ key.pitch = ground arith in f) ∙ there))
  | inr other ↦ inr (rw other at e)
]

Due-written :
    (p : ℕ) (b : Bool) (key : HeldKey) (keys : List HeldKey) (written : List Event)
    → Due p b (key ∷ keys) written
    → Due p b keys (written ++ note_off key.pitch ∷ [])
Due-written p b key keys written due = elim (Bool-cases (key.pitch == p)) [
  | inl same ↦ inl (heard-append p b written (note_off key.pitch ∷ []) ∙ rw same refl)
  | inr other ↦ elim due [
    | inl quiet ↦ inl (heard-append p b written (note_off key.pitch ∷ []) ∙ rw (other, quiet) refl)
    | inr e ↦ inr (rw other at e)
  ]
]

-- What ReleaseAll writes silences what sounded, when there is room for all the keys.
note_offs-silent :
    (p : ℕ) (b : Bool) (capacity : ℕ) (keys : List HeldKey) (written : List Event)
    → length written + length keys ≤ capacity
    → AllOff written
    → Due p b keys written
    → heard p b (note_offs capacity keys written) ≡ false
unfolding note_offs
note_offs-silent p b capacity [] written room off (inl quiet) = quiet
note_offs-silent p b capacity [] written room off (inr e) = ground arith
note_offs-silent p b capacity (key ∷ keys) written room off due =
    elim (Bool-cases (already_written key.pitch written)) [
      | inl there ↦ rw there (
          note_offs-silent p b capacity keys written (omega arith) off
            (Due-skipped p b key keys written off there due))
      | inr new ↦
          rw (new, fits)
            (note_offs-silent p b capacity keys (written ++ note_off key.pitch ∷ [])
              (omega (arith, length-append written (note_off key.pitch ∷ [])))
              (AllOff-append written key.pitch off) (Due-written p b key keys written due))
    ]
  where
    fits : leb capacity (length written) ≡ false
    fits = ground arith

call-Kept : (k : KeyNoteInput) (c : Call) → length k.held ≤ max_held_keys → Kept k (call k c)
unfolding set_bindings on_key release_all
call-Kept k (bound_to none) room = ((λ p. refl), room)
call-Kept k (bound_to (some bindings)) room = ((λ p. refl), room)
call-Kept k (transition raw_code true) room =
    press-Kept k raw_code (held_from 0 raw_code k.held) room
call-Kept k (transition raw_code false) room = release-Kept k raw_code room
call-Kept k (all_up capacity many) room = (
  (λ p.
      note_offs-silent p (plays p k.held) capacity k.held [] (omega arith) tt
        (elim (Bool-cases (plays p k.held)) [
          | inl some_key ↦ inr some_key
          | inr no_one ↦ inl no_one
        ])),
  omega arith,
)

run-Kept : (k : KeyNoteInput) (cs : List Call) → length k.held ≤ max_held_keys → Kept k (run k cs)
run-Kept k [] room = ((λ p. refl), room)
run-Kept k (c ∷ cs) room =
    let (sounds, room') = call-Kept k c room in
    let (k_sounds, k_room) = run-Kept (call k c).1 cs room' in
    (
      (λ p.
          heard-append p (plays p k.held) (call k c).0 (run (call k c).1 cs).0
          ∙ ap (λ b. heard p b (run (call k c).1 cs).0) (sounds p)
          ∙ k_sounds p),
      k_room,
    )

-- From a keyboard with no key down, after any transitions of keys, re-bindings, and calls of ReleaseAll
-- with room for 6 events, a pitch sounds exactly if a key that is held plays it, and no more than 6 keys
-- are held.
pub run-heard :
    (cs : List Call)
    → let (es, k) = run initial cs in
      ((p : ℕ) → heard p false es ≡ plays p k.held) × (length k.held ≤ max_held_keys)
run-heard cs = run-Kept initial cs (omega arith)
