-- ===== src/Session.antt =====
-- modules/jamn_session: who is in the session.
pub mod Roster
pub mod Host
