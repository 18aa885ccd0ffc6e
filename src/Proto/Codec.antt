-- ===== src/Proto/Codec.antt =====
-- What an encoder and a decoder of one message owe each other, and what a packet in flight gains
-- from it.
use jam_n.Prelude.{
  ℕ, ◌+◌, ◌≤◌, ◌≡◌, refl, ap, ◌∙◌, List, ◌++◌, true, some, length, take, take-length, arith,
}
use jam_n.Core.ByteReader.{Read, reader, advance}
use jam_n.Core.ByteReader.Decodes.{Decodes}
use jam_n.Core.ByteReader.Cursor.{rest}
use jam_n.Core.ByteWriter.{Writer, Write, writer, emit}
use jam_n.Core.ByteWriter.Encodes.{Encodes, written, written-emit}

-- The encoder writes the layout and fails only where that does not fit; the decoder reads every
-- value whose fields fit their wire types back from it, and stops right behind it.
pub record Codec {A : Type 0} (encode : A → Write) (decode : Read A) (layout : A → List ℕ)
    (Fits : A → Type 0) : Type 0 where
  pub encodes : (a : A) → Encodes (encode a) (layout a)
  pub decodes : (a : A) → Fits a → Decodes decode (layout a) a

module _ {A : Type 0} {encode : A → Write} {decode : Read A} {layout : A → List ℕ}
    {Fits : A → Type 0} (c : Codec encode decode layout Fits) where
  -- A value encoded into an empty buffer with room for it is decoded from the bytes written, also
  -- where other bytes follow them.
  pub transmit :
      (a : A) (buf tl : List ℕ) (capacity : ℕ)
      → Fits a
      → capacity ≤ length buf
      → length (layout a) ≤ capacity
      → let (sent, w) = encode a (writer buf capacity) in
        let packet = written w ++ tl in
        (sent ≡ true)
        × (decode (reader packet (length packet))
            ≡ (some a, advance w.pos (reader packet (length packet))))
  transmit a buf tl capacity fits h room =
      rw ((c.encodes a).fits (writer buf capacity) (omega arith) (omega arith)) (refl, received)
    where
      bytes : List ℕ
      bytes = layout a

      sent : Writer
      sent = emit bytes (writer buf capacity)

      front : written sent ≡ bytes
      front = written-emit bytes (writer buf capacity) (omega arith) (omega arith)

      packet : List ℕ
      packet = written sent ++ tl

      whole : rest (reader packet (length packet)) ≡ bytes ++ tl
      whole =
          ap (λ n. take n packet) {y = length packet} (omega arith)
          ∙ take-length packet
          ∙ ap (λ xs. xs ++ tl) front

      received :
          decode (reader packet (length packet))
          ≡ (some a, advance (0 + length bytes) (reader packet (length packet)))
      received =
          (c.decodes a fits).run (reader packet (length packet)) tl (omega arith) whole
          ∙ ap (λ n. (some a, advance n (reader packet (length packet)))) (omega arith)
