-- ===== src/Platform/KeyNoteInput.antt =====
-- modules/jamn_platform: key_note_input.h and key_note_input.cpp, the computer keyboard as an instrument.
-- The arrays with a count are the lists of the entries in use.
pub mod Sounding
pub mod Calls
use jam_n.Prelude.{
  ℕ, zero, suc, ◌+◌, ◌-◌, ◌%◌, ◌^◌, Bool, true, false, not, ◌&&◌, ◌||◌, List, [], ◌∷◌, ◌++◌, Option,
  none, some, ◌==◌, leb, if◌then◌else◌, min, length, take, get_or, set,
}

pub record KeyBinding : Type 0 where
  pub raw_code : ℕ
  pub pitch : ℕ

pub record HeldKey : Type 0 where
  pub raw_code : ℕ
  pub pitch : ℕ

pub data Event : Type 0 where
  note_on : ℕ → Event
  note_off : ℕ → Event

abbrev pub max_held_keys : ℕ
max_held_keys = 6

abbrev pub layout_pitches : List ℕ
layout_pitches =
    48 ∷ 49 ∷ 50 ∷ 51 ∷ 52 ∷ 53 ∷ 54 ∷ 55 ∷ 56 ∷ 57 ∷ 58 ∷ 59 ∷ 60 ∷ 61 ∷ 62 ∷ 63 ∷ 64 ∷ 60 ∷ 61
    ∷ 62 ∷ 63 ∷ 64 ∷ 65 ∷ 66 ∷ 67 ∷ 68 ∷ 69 ∷ 70 ∷ 71 ∷ 72 ∷ 73 ∷ 74 ∷ 75 ∷ 76 ∷ []

abbrev pub key_positions : ℕ
key_positions = 34

abbrev pub max_bindings : ℕ
max_bindings = key_positions

-- The loop of BuildBindings.
unfoldable pub zipped : ℕ → List ℕ → List ℕ → List KeyBinding
zipped zero codes pitches = []
zipped (suc n) [] pitches = []
zipped (suc n) (code ∷ codes) [] = []
zipped (suc n) (code ∷ codes) (pitch ∷ pitches) =
    record { raw_code = code; pitch = pitch } ∷ zipped n codes pitches

-- BuildBindings: what is written to `out`, which holds `capacity`; none for a null pointer to the codes.
unfoldable pub build_bindings : Option (List ℕ) → ℕ → List KeyBinding
build_bindings none capacity = []
build_bindings (some raw_codes) capacity =
    zipped (min (min (length raw_codes) capacity) key_positions) raw_codes layout_pitches

pub record KeyNoteInput : Type 0 where
  pub bindings : List KeyBinding
  pub held : List HeldKey
  pub ignored_over_rollover : ℕ

-- KeyNoteInput{}
abbrev pub initial : KeyNoteInput
initial = record { bindings = []; held = []; ignored_over_rollover = 0 }

-- SetBindings: none for a null pointer.
unfoldable pub set_bindings : KeyNoteInput → Option (List KeyBinding) → KeyNoteInput
set_bindings k none = record k { bindings = [] }
set_bindings k (some bindings) = record k { bindings = take max_bindings bindings }

-- The loop of AnotherKeyHolds, from an index on.
unfoldable pub holds_from : ℕ → List HeldKey → ℕ → ℕ → Bool
holds_from index [] pitch except = false
holds_from index (key ∷ keys) pitch except =
    not (index == except) && key.pitch == pitch || holds_from (index + 1) keys pitch except

unfoldable pub another_key_holds : KeyNoteInput → ℕ → ℕ → Bool
another_key_holds k pitch except = holds_from 0 k.held pitch except

-- heldIndex, from an index on.
unfoldable pub held_from : ℕ → ℕ → List HeldKey → Option ℕ
held_from index raw_code [] = none
held_from index raw_code (key ∷ keys) =
    if key.raw_code == raw_code then some index else held_from (index + 1) raw_code keys

unfoldable pub bound_pitch : ℕ → List KeyBinding → Option ℕ
bound_pitch raw_code [] = none
bound_pitch raw_code (binding ∷ bindings) =
    if binding.raw_code == raw_code then some binding.pitch else bound_pitch raw_code bindings

-- A press of a key that is not held, once its binding is looked up.
unfoldable pub press_bound : KeyNoteInput → ℕ → Option ℕ → Option Event × KeyNoteInput
press_bound k raw_code none = (none, k)
press_bound k raw_code (some pitch) =
    if leb max_held_keys (length k.held)
    then (none, record k { ignored_over_rollover = (k.ignored_over_rollover + 1) % 2 ^ 64 })
    else (
      some (note_on pitch),
      record k { held = k.held ++ record { raw_code = raw_code; pitch = pitch } ∷ [] },
    )

unfoldable pub press : KeyNoteInput → ℕ → Option ℕ → Option Event × KeyNoteInput
press k raw_code none = press_bound k raw_code (bound_pitch raw_code k.bindings)
press k raw_code (some index) = (none, k)

abbrev pub no_key : HeldKey
no_key = record { raw_code = 0; pitch = 0 }

-- The last key takes the place of the one at the index.
unfoldable pub swapped_out : List HeldKey → ℕ → List HeldKey
swapped_out held index =
    take (length held - 1) (set held index (get_or held (length held - 1) no_key))

unfoldable pub release : KeyNoteInput → Option ℕ → Option Event × KeyNoteInput
release k none = (none, k)
release k (some index) =
    let pitch = (get_or k.held index no_key).pitch in
    (
      if another_key_holds k pitch index then none else some (note_off pitch),
      record k { held = swapped_out k.held index },
    )

-- OnKey: the event of `out`, when it is filled.
unfoldable pub on_key : KeyNoteInput → ℕ → Bool → Option Event × KeyNoteInput
on_key k raw_code true = press k raw_code (held_from 0 raw_code k.held)
on_key k raw_code false = release k (held_from 0 raw_code k.held)

unfoldable pub already_written : ℕ → List Event → Bool
already_written pitch [] = false
already_written pitch (note_on p ∷ written) = p == pitch || already_written pitch written
already_written pitch (note_off p ∷ written) = p == pitch || already_written pitch written

-- The loop of ReleaseAll.
unfoldable pub note_offs : ℕ → List HeldKey → List Event → List Event
note_offs capacity [] written = written
note_offs capacity (key ∷ keys) written =
    let skipped = note_offs capacity keys written in
    let more = note_offs capacity keys (written ++ note_off key.pitch ∷ []) in
    if already_written key.pitch written
    then skipped
    else if leb capacity (length written)
    then written
    else more

-- ReleaseAll, for an array of a capacity, or a null pointer.
unfoldable pub release_all : KeyNoteInput → Option ℕ → List Event × KeyNoteInput
release_all k none = ([], k)
release_all k (some capacity) = (note_offs capacity k.held [], record k { held = [] })
