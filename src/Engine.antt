-- ===== src/Engine.antt =====
-- modules/jamn_engine: from the notes of one player to the events of everyone's audio block.
pub mod Serial
pub mod Dedupe
pub mod Burst
pub mod Jitter
pub mod ClockSync
pub mod Scheduler
pub mod Crossing
pub mod AudioClock
pub mod Runtime
pub mod AudioRuntime
pub mod NetThread
