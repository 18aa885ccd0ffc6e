-- ===== src/Proto.antt =====
-- modules/jamn_proto: the wire format, version 1.0 (docs/PROTOCOL.md).
pub mod Codec
pub mod Header
pub mod Clock
pub mod Control
pub mod Note
pub mod Tlv
pub mod JoinAuth
pub mod Messages
