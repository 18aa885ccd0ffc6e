-- ===== src/Tests/Wire.antt =====
-- The theorems on packets and on the ring, on concrete inputs.
use jam_n.Prelude.{
  ℕ, ◌+◌, ◌≡◌, ◌↔◌, refl, Bool, true, false, List, [], ◌∷◌, ◌++◌, some, length, arith,
}
use jam_n.Prelude.Int.{pos}
use jam_n.Core.ByteReader.{Reader, reader}
use jam_n.Core.ByteReader.Decodes.{Decodes}
use jam_n.Core.ByteWriter.Encodes.{Encodes}
use jam_n.Core.SpscRing.{empty}
use jam_n.Core.SpscRing.Queue.{put, get, run_queue, run-empty}
use jam_n.Core.SpscRing.Queue
use jam_n.Proto.Header.{header_for, header_layout}
use jam_n.Proto.Note.{NoteEvent, NoteBurst, note_on, encode_note_burst, decode_note_burst}
use jam_n.Proto.Note.Layout.{burst_layout, BurstFits, received_burst, burst-Encodes, burst-Decodes}
use jam_n.Proto.Tlv.{for_each_tlv, decode_packet}
use jam_n.Proto.Tlv.Stream.{stream, visit_all, for_each_tlv_lem}
use jam_n.Proto.Tlv.Packet.{decode_packet-total, decode_packet_lem}
use jam_n.Proto.JoinAuth.{constant_time_equals, constant_time_equals_iff}

run-empty_example :
    Queue.run {A = ℕ} 0 (empty 0 1) (put 5 ∷ put 6 ∷ get ∷ get ∷ [])
    ≡ run_queue {A = ℕ} 1 [] (put 5 ∷ put 6 ∷ get ∷ get ∷ [])
run-empty_example = run-empty {A = ℕ} 0 1 (put 5 ∷ put 6 ∷ get ∷ get ∷ [])

abbrev played : NoteEvent
played = record {
  dt_us = pos 40;
  event_seq = 9;
  slot = 0;
  kind = note_on;
  a = 60;
  b = 100;
  c = 0;
  state_rev = 2;
  flags = 0;
  t_absolute_ppq = pos 0;
}

abbrev one_note : NoteBurst
one_note = record {
  base_t_session_us = pos 1000;
  burst_seq = 3;
  reserved = 0;
  events = played ∷ [];
}

one_note-BurstFits : BurstFits one_note
one_note-BurstFits = record {
  base_fits = (omega arith, omega arith);
  seq_fits = omega arith;
  count_fits = omega arith;
  reserved_fits = omega arith;
  events_fit = (
    record {
      dt_fits = (omega arith, omega arith);
      seq_fits = omega arith;
      slot_fits = omega arith;
      kind_fits = omega arith;
      a_fits = omega arith;
      b_fits = omega arith;
      c_fits = omega arith;
      rev_fits = omega arith;
      flags_fit = omega arith;
      ppq_fits = (omega arith, omega arith);
    },
    tt,
  );
}

burst-Encodes_example : Encodes (encode_note_burst one_note) (burst_layout one_note)
burst-Encodes_example = burst-Encodes one_note (omega arith)

burst-Decodes_example : Decodes decode_note_burst (burst_layout one_note) (received_burst one_note)
burst-Decodes_example = burst-Decodes one_note one_note-BurstFits

-- A visitor that keeps the types it is shown, latest first.
abbrev keep_type : ℕ → Reader → List ℕ → List ℕ
keep_type t value types = t ∷ types

abbrev types_of : ℕ → List ℕ → List ℕ → List ℕ
types_of t bytes types = t ∷ types

abbrev body : List ℕ
body = stream ((9, 77 ∷ []) ∷ (400, []) ∷ [])

for_each_tlv_lem_example :
    for_each_tlv keep_type [] (reader (body ++ 1 ∷ []) (length body + 1))
    ≡ some (false, visit_all types_of ((9, 77 ∷ []) ∷ (400, []) ∷ []) [])
for_each_tlv_lem_example =
    for_each_tlv_lem keep_type types_of (λ t v s _ _. refl) ((9, 77 ∷ []) ∷ (400, []) ∷ []) (1 ∷ [])
      [] (reader (body ++ 1 ∷ []) (length body + 1))
      (record { pos_in = omega arith; size_in = omega arith })
      (omega arith, omega arith, (omega arith, omega arith, tt)) (omega arith) refl

abbrev packet : List ℕ
packet = header_layout (header_for 4 9) ++ (body ++ 5 ∷ [])

decode_packet-total_example :
    (out : Bool × List ℕ) × (decode_packet keep_type [] (reader packet 18) ≡ some out)
decode_packet-total_example =
    decode_packet-total keep_type [] (reader packet 18)
      (record { pos_in = omega arith; size_in = omega arith })

decode_packet_lem_example :
    decode_packet keep_type [] (reader packet 18)
    ≡ some (true, visit_all types_of ((9, 77 ∷ []) ∷ (400, []) ∷ []) [])
decode_packet_lem_example =
    decode_packet_lem keep_type types_of (λ t v s _ _. refl) (header_for 4 9)
      ((9, 77 ∷ []) ∷ (400, []) ∷ []) (5 ∷ []) [] (reader packet 18)
      (record { pos_in = omega arith; size_in = omega arith })
      (record {
        magic_fits = omega arith;
        major_fits = omega arith;
        minor_fits = omega arith;
        peer_fits = omega arith;
        body_fits = omega arith;
      })
      refl (omega arith, omega arith, (omega arith, omega arith, tt)) refl

abbrev right_token : List ℕ
right_token = 1 ∷ 2 ∷ []

abbrev wrong_token : List ℕ
wrong_token = 1 ∷ 3 ∷ []

constant_time_equals_iff_example :
    (constant_time_equals right_token wrong_token ≡ true) ↔ (right_token ≡ wrong_token)
constant_time_equals_iff_example =
    constant_time_equals_iff right_token wrong_token (omega arith, (omega arith, tt))
      (omega arith, (omega arith, tt)) refl
