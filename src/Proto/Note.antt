-- ===== src/Proto/Note.antt =====
-- modules/jamn_proto: note_event.h, note_event.cpp, note_burst.h and note_burst.cpp.
-- A `kind` is any byte: the decoder casts it to the enumeration without a check.
pub mod Layout
pub mod Bounds
use Prim.Native.Nat.{bit_and}
use jam_n.Prelude.{
  ℕ, zero, suc, ◌%◌, ◌^◌, Bool, true, false, not, ◌&&◌, List, [], ◌∷◌, ◌==◌, ltb, if◌then◌else◌,
  length,
}
use jam_n.Prelude.Int.{ℤ, pos, ◌==ℤ◌}
use jam_n.Core.Wire.{w8, w16, w32, w64}
use jam_n.Core.ByteReader.{Read, read_le, read_signed, accept, refuse, ◌>>=◌}
use jam_n.Core.ByteWriter.{Write, write_le, write_signed, done, ◌>>◌}
use jam_n.Core.ByteWriter

abbrev pub note_on : ℕ
note_on = 0

abbrev pub note_off : ℕ
note_off = 1

abbrev pub all_notes_off : ℕ
all_notes_off = 2

abbrev pub musical_time_flag : ℕ
musical_time_flag = 0x1

pub record NoteEvent : Type 0 where
  pub dt_us : ℤ
  pub event_seq : ℕ
  pub slot : ℕ
  pub kind : ℕ
  pub a : ℕ
  pub b : ℕ
  pub c : ℕ
  pub state_rev : ℕ
  pub flags : ℕ
  pub t_absolute_ppq : ℤ

-- (flags & kMusicalTimeFlag) != 0
abbrev pub musical : ℕ → Bool
musical flags = not (bit_and flags musical_time_flag == 0)

-- operator==
pub event_eq : NoteEvent → NoteEvent → Bool
event_eq x y =
    let fixed_equal : Bool =
      x.dt_us ==ℤ y.dt_us
      && (x.event_seq == y.event_seq
          && (x.slot == y.slot
              && (x.kind == y.kind
                  && (x.a == y.a
                      && (x.b == y.b
                          && (x.c == y.c
                              && (x.state_rev == y.state_rev && x.flags == y.flags))))))) in
    if not fixed_equal
    then false
    else if musical x.flags
    then x.t_absolute_ppq ==ℤ y.t_absolute_ppq
    else true

encode_tail : NoteEvent → Write
encode_tail e = if musical e.flags then write_signed w64 e.t_absolute_ppq else done

pub encode_note_event : NoteEvent → Write
encode_note_event e = do
  write_signed w32 e.dt_us
  write_le w16 e.event_seq
  write_le w8 e.slot
  write_le w8 e.kind
  write_le w8 e.a
  write_le w8 e.b
  write_le w16 e.c
  write_le w16 e.state_rev
  write_le w16 e.flags
  encode_tail e

decode_tail : ℕ → Read ℤ
decode_tail flags = if musical flags then read_signed w64 else accept (pos 0)

pub decode_note_event : Read NoteEvent
decode_note_event = do
  dt_us ← read_signed w32
  event_seq ← read_le w16
  slot ← read_le w8
  kind ← read_le w8
  a ← read_le w8
  b ← read_le w8
  c ← read_le w16
  state_rev ← read_le w16
  flags ← read_le w16
  t_absolute_ppq ← decode_tail flags
  accept (record {
    dt_us = dt_us;
    event_seq = event_seq;
    slot = slot;
    kind = kind;
    a = a;
    b = b;
    c = c;
    state_rev = state_rev;
    flags = flags;
    t_absolute_ppq = t_absolute_ppq;
  })

abbrev pub max_events_per_burst : ℕ
max_events_per_burst = 64

-- `events` holds the first `eventCount` entries of the array, the only ones that are ever read.
pub record NoteBurst : Type 0 where
  pub base_t_session_us : ℤ
  pub burst_seq : ℕ
  pub reserved : ℕ
  pub events : List NoteEvent

abbrev pub event_count : NoteBurst → ℕ
event_count burst = length burst.events

encode_events : List NoteEvent → Write
encode_events [] = done
encode_events (e ∷ es) = encode_note_event e >> encode_events es

-- `eventCount` is a byte; the first test makes it the count.
pub encode_note_burst : NoteBurst → Write
encode_note_burst burst =
    if ltb max_events_per_burst (event_count burst) then ByteWriter.refuse else (do
      write_signed w64 burst.base_t_session_us
      write_le w16 burst.burst_seq
      write_le w8 (event_count burst)
      write_le w8 burst.reserved
      encode_events burst.events)

decode_events : ℕ → Read (List NoteEvent)
decode_events zero = accept []
decode_events (suc n) = do e ← decode_note_event; es ← decode_events n; accept (e ∷ es)

-- The test against the array's size, and the loop behind it.
decode_counted : ℕ → Read (List NoteEvent)
decode_counted count = if ltb max_events_per_burst count then refuse else decode_events count

pub decode_note_burst : Read NoteBurst
decode_note_burst = do
  base ← read_signed w64
  burst_seq ← read_le w16
  count ← read_le w8
  reserved ← read_le w8
  events ← decode_counted count
  accept (record {
    base_t_session_us = base;
    burst_seq = burst_seq;
    reserved = reserved;
    events = events;
  })
