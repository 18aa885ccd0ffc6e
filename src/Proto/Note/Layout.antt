-- ===== src/Proto/Note/Layout.antt =====
-- What goes over the wire for a note and for a burst, and that it comes back.
use jam_n.Prelude.{
  ℕ, ◌^◌, ◌<◌, ◌≤◌, ◌≡◌, inl, inr, true, false, List, [], ◌∷◌, ◌++◌, map, ltb, if◌then◌else◌,
  length, Bool-cases, arith,
}
use jam_n.Prelude.Int.{pos}
use jam_n.Core.Wire.{w8, w16, w32, w64, le_bytes, to_unsigned, InRange}
use jam_n.Core.ByteReader.Decodes.{
  Decodes, bind-Decodes, accept-Decodes, last-Decodes, signed_field, read_signed-Decodes,
}
use jam_n.Core.ByteReader.Decodes as Reading
use jam_n.Core.ByteWriter.Encodes.{Encodes, chain-Encodes, done-Encodes, write_le-Encodes}
use jam_n.Core.ByteWriter.Encodes as Writing
use jam_n.Proto.Clock.{i64_bytes}
use jam_n.Proto.Note.{
  NoteEvent, NoteBurst, musical, event_eq, encode_tail, encode_note_event, decode_tail,
  decode_note_event, max_events_per_burst, event_count, encode_events, encode_note_burst,
  decode_events, decode_counted, decode_note_burst,
}

abbrev pub tail_layout : NoteEvent → List ℕ
tail_layout e = if musical e.flags then i64_bytes e.t_absolute_ppq else []

abbrev pub note_layout : NoteEvent → List ℕ
note_layout e =
    le_bytes w32 (to_unsigned w32 e.dt_us)
    ++ (le_bytes w16 e.event_seq
        ++ (le_bytes w8 e.slot
            ++ (le_bytes w8 e.kind
                ++ (le_bytes w8 e.a
                    ++ (le_bytes w8 e.b
                        ++ (le_bytes w16 e.c
                            ++ (le_bytes w16 e.state_rev
                                ++ (le_bytes w16 e.flags ++ tail_layout e))))))))

-- The event as the receiver has it: a musical time that the flags do not announce is not sent.
abbrev pub received : NoteEvent → NoteEvent
received e = record e { t_absolute_ppq = if musical e.flags then e.t_absolute_ppq else pos 0 }

pub record NoteFits (e : NoteEvent) : Type 0 where
  pub dt_fits : InRange w32 e.dt_us
  pub seq_fits : e.event_seq < 2 ^ 16
  pub slot_fits : e.slot < 2 ^ 8
  pub kind_fits : e.kind < 2 ^ 8
  pub a_fits : e.a < 2 ^ 8
  pub b_fits : e.b < 2 ^ 8
  pub c_fits : e.c < 2 ^ 16
  pub rev_fits : e.state_rev < 2 ^ 16
  pub flags_fit : e.flags < 2 ^ 16
  pub ppq_fits : InRange w64 e.t_absolute_ppq

not_over : (n : ℕ) → n ≤ max_events_per_burst → ltb max_events_per_burst n ≡ false
not_over n h = ground arith

encode_tail-Encodes : (e : NoteEvent) → Encodes (encode_tail e) (tail_layout e)
unfolding encode_tail
encode_tail-Encodes e = elim (Bool-cases (musical e.flags)) [
  | inl h ↦ rw h (write_le-Encodes w64 _)
  | inr h ↦ rw h done-Encodes
]

pub note-Encodes : (e : NoteEvent) → Encodes (encode_note_event e) (note_layout e)
unfolding encode_note_event
note-Encodes e = Writing.le_field _ w32 _ _ (
    Writing.le_field _ w16 _ _ (
      Writing.le_field _ w8 _ _ (
        Writing.le_field _ w8 _ _ (
          Writing.le_field _ w8 _ _ (
            Writing.le_field _ w8 _ _ (
              Writing.le_field _ w16 _ _ (
                Writing.le_field _ w16 _ _
                  (Writing.le_field _ w16 _ _ (encode_tail-Encodes e)))))))))

decode_tail-Decodes :
    (e : NoteEvent)
    → InRange w64 e.t_absolute_ppq
    → Decodes
        (decode_tail e.flags)
        (tail_layout e)
        (if musical e.flags then e.t_absolute_ppq else pos 0)
unfolding decode_tail
decode_tail-Decodes e f = elim (Bool-cases (musical e.flags)) [
  | inl h ↦ rw h (read_signed-Decodes w64 e.t_absolute_ppq f)
  | inr h ↦ rw h (accept-Decodes (pos 0))
]

pub note-Decodes :
    (e : NoteEvent) → NoteFits e → Decodes decode_note_event (note_layout e) (received e)
unfolding decode_note_event
note-Decodes e f = signed_field _ w32 e.dt_us _ f.dt_fits (
    Reading.le_field _ w16 _ _ f.seq_fits (
      Reading.le_field _ w8 _ _ f.slot_fits (
        Reading.le_field _ w8 _ _ f.kind_fits (
          Reading.le_field _ w8 _ _ f.a_fits (
            Reading.le_field _ w8 _ _ f.b_fits (
              Reading.le_field _ w16 _ _ f.c_fits (
                Reading.le_field _ w16 _ _ f.rev_fits (
                  Reading.le_field _ w16 _ _ f.flags_fit
                    (last-Decodes _ _ (decode_tail-Decodes e f.ppq_fits))))))))))

pub event_eq-received : (e : NoteEvent) → event_eq e (received e) ≡ true
unfolding event_eq
event_eq-received e = ground arith

abbrev pub events_layout : List NoteEvent → List ℕ
events_layout [] = []
events_layout (e ∷ es) = note_layout e ++ events_layout es

abbrev pub burst_layout : NoteBurst → List ℕ
burst_layout b =
    i64_bytes b.base_t_session_us
    ++ (le_bytes w16 b.burst_seq
        ++ (le_bytes w8 (event_count b) ++ (le_bytes w8 b.reserved ++ events_layout b.events)))

abbrev pub received_burst : NoteBurst → NoteBurst
received_burst b = record b { events = map received b.events }

abbrev pub AllFit : List NoteEvent → Type 0
AllFit [] = Unit {0}
AllFit (e ∷ es) = NoteFits e × AllFit es

pub record BurstFits (b : NoteBurst) : Type 0 where
  pub base_fits : InRange w64 b.base_t_session_us
  pub seq_fits : b.burst_seq < 2 ^ 16
  pub count_fits : event_count b ≤ max_events_per_burst
  pub reserved_fits : b.reserved < 2 ^ 8
  pub events_fit : AllFit b.events

encode_events-Encodes : (es : List NoteEvent) → Encodes (encode_events es) (events_layout es)
unfolding encode_events
encode_events-Encodes [] = done-Encodes
encode_events-Encodes (e ∷ es) =
    chain-Encodes (encode_events es) (note_layout e) (events_layout es) (note-Encodes e)
      (encode_events-Encodes es)

pub burst-Encodes :
    (b : NoteBurst)
    → event_count b ≤ max_events_per_burst
    → Encodes (encode_note_burst b) (burst_layout b)
unfolding encode_note_burst
burst-Encodes b h = rw (not_over (event_count b) h) (
    Writing.le_field _ w64 _ _ (
      Writing.le_field _ w16 _ _
        (Writing.le_field _ w8 _ _ (Writing.le_field _ w8 _ _ (encode_events-Encodes b.events)))))

decode_events-Decodes :
    (es : List NoteEvent)
    → AllFit es
    → Decodes (decode_events (length es)) (events_layout es) (map received es)
unfolding decode_events
decode_events-Decodes [] f = accept-Decodes []
decode_events-Decodes (e ∷ es) (f, fs) =
    bind-Decodes _ (note_layout e) (events_layout es) (note-Decodes e f)
      (last-Decodes _ _ (decode_events-Decodes es fs))

pub burst-Decodes :
    (b : NoteBurst) → BurstFits b → Decodes decode_note_burst (burst_layout b) (received_burst b)
unfolding decode_note_burst decode_counted
burst-Decodes b f = signed_field _ w64 b.base_t_session_us _ f.base_fits (
    Reading.le_field _ w16 _ _ f.seq_fits (
      Reading.le_field _ w8 (event_count b) _ (let h = f.count_fits in omega arith) (
        Reading.le_field _ w8 _ _ f.reserved_fits (
          rw (not_over (event_count b) f.count_fits)
            (last-Decodes _ _ (decode_events-Decodes b.events f.events_fit))))))
