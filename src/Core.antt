-- ===== src/Core.antt =====
-- modules/jamn_core: the byte cursors of the wire format and the ring between two threads.
pub mod Bits
pub mod Xor
pub mod Wire
pub mod ByteReader
pub mod ByteWriter
pub mod SpscRing
pub mod Double
pub mod Quotient
pub mod Histogram
