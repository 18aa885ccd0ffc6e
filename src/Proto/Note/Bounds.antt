-- ===== src/Proto/Note/Bounds.antt =====
-- The count byte of a burst is checked before the array is touched.
use jam_n.Prelude.{
  ℕ, zero, suc, ◌≤◌, ◌<◌, ◌≡◌, refl, ap, inl, inr, [], ◌∷◌, false, some, ltb, length, Bool-cases,
  arith,
}
use jam_n.Core.Wire.{w8, w16, w64}
use jam_n.Core.ByteReader.{Reader, read_le, read_signed}
use jam_n.Core.ByteReader.Decodes.{Yields, any-Yields, bind-Yields, accept-Yields, refuse-Yields}
use jam_n.Core.ByteWriter.{Writer}
use jam_n.Proto.Note.{
  NoteBurst, max_events_per_burst, event_count, decode_note_event, decode_events, decode_counted,
  decode_note_burst, encode_note_burst,
}

decode_events-Yields : (n : ℕ) → Yields (decode_events n) (λ es. length es ≡ n)
unfolding decode_events
decode_events-Yields zero = accept-Yields _ [] refl
decode_events-Yields (suc n) =
    bind-Yields _ (any-Yields decode_note_event)
      λ e _. bind-Yields _ (decode_events-Yields n) λ es h. accept-Yields _ (e ∷ es) (ap suc h)

decode_counted-Yields : (n : ℕ) → Yields (decode_counted n) (λ es. length es ≤ max_events_per_burst)
unfolding decode_counted
decode_counted-Yields n = elim (Bool-cases (ltb max_events_per_burst n)) [
  | inl over ↦ rw over (refuse-Yields _)
  | inr fits ↦
      rw fits
        (record { holds = λ r es e. let h = (decode_events-Yields n).holds r es e in ground arith })
]

burst-Yields : Yields decode_note_burst (λ b. event_count b ≤ max_events_per_burst)
unfolding decode_note_burst
burst-Yields = bind-Yields _ (any-Yields (read_signed w64)) λ base _.
    bind-Yields _ (any-Yields (read_le w16)) λ seq _.
      bind-Yields _ (any-Yields (read_le w8)) λ count _.
        bind-Yields _ (any-Yields (read_le w8))
          λ reserved _. bind-Yields _ (decode_counted-Yields count) λ es h. accept-Yields _ _ h

encode_note_burst-over :
    (b : NoteBurst) (w : Writer)
    → max_events_per_burst < event_count b
    → encode_note_burst b w ≡ (false, w)
unfolding encode_note_burst
encode_note_burst-over b w h = ground arith

-- No packet makes the decoder return more events than the array of a burst holds, and the encoder
-- refuses a burst of more and writes nothing.
pub burst_bounds :
    ((r : Reader) (b : NoteBurst)
      → (decode_note_burst r).0 ≡ some b
      → event_count b ≤ max_events_per_burst)
    × ((b : NoteBurst) (w : Writer)
        → max_events_per_burst < event_count b
        → encode_note_burst b w ≡ (false, w))
burst_bounds = (burst-Yields.holds, encode_note_burst-over)
