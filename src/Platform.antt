-- ===== src/Platform.antt =====
-- modules/jamn_platform: what it has of its own beside the calls of a window toolkit.
pub mod KeyNoteInput
