-- ===== src/Lib.antt =====
-- JamN lets a few players jam over a network: each peer sends its notes in redundant bursts, and every
-- receiver turns them back into one stream of events at its own audio clock. This library models the
-- parts that decide which notes arrive, when they play, and who is in the session.
--
-- Prelude: shared names, Boolean tests, list functions, signed integers over the native numbers.
-- Core: modules/jamn_core. Wire (the widths of integers), ByteReader and ByteWriter (byte_reader.h,
--   byte_writer.h), SpscRing (spsc_ring.h; SpscRing.Threads has the accesses of Push and Pop as the steps
--   of two threads), Histogram (histogram64.h). Double is the record of the
--   operations of `double` that the sources use, which are the compiler's and <cmath>'s: a parameter.
--   Quotient is the division of signed integers, which rounds towards zero.
-- Proto: modules/jamn_proto. Header, Clock, Control and Note (one encoder and one decoder for a
--   message, over Core.ByteReader and Core.ByteWriter), Tlv (tlv.h, packet.h), JoinAuth (join_auth.cpp,
--   negotiation.cpp). Proto.Codec says what an encoder and a decoder owe each other.
-- Engine: modules/jamn_engine. Burst (burst_assembler.cpp) makes the bursts of a sender; Serial and
--   Dedupe (serial_compare.h, dedupe_ring.cpp) discard what a receiver has already; ClockSync
--   (clock_sync.cpp) estimates a peer's clock; Jitter (jitter_buffer.cpp) chooses the playout delay
--   from the Histogram; Scheduler (event_scheduler.cpp) queues events over Jitter and hands them out;
--   Crossing (note_crossing.cpp) carries notes from the net thread to the audio thread in SpscRings;
--   AudioClock (audio_clock.cpp) filters the times of the audio callbacks.
-- Session: modules/jamn_session. Roster (roster.cpp), and Host (session_host.cpp), which acts on the
--   packets of Proto over the Roster: what it sends and reports is a list of actions.
-- Net: modules/jamn_net. The channels and peer events of transport.h, and Net.Sim (sim_transport.h and
--   sim_transport.cpp), a network on virtual time whose random draws are a parameter.
-- Engine.Runtime: modules/jamn_engine, peer_runtime.cpp: the net thread's side. It drives Burst, Dedupe,
--   ClockSync, Proto and Crossing for 8 slots. Sending frames packets, Receiving acts on those that
--   arrive, Service is one round. The transport is a log of what is sent, a parameter for whether a Send
--   succeeds, and the list of what a Poll reports.
-- Engine.AudioRuntime: modules/jamn_engine, audio_runtime.cpp: the audio thread's side. Intake drains the
--   local ring and the lanes of Crossing into the Scheduler, Output hands notes out, Service is one block.
-- Engine.NetThread: modules/jamn_engine, net_thread.cpp: the loop that calls Service, and what it keeps of
--   its pace. The readings of the steady clock and its ticks to the microsecond are parameters.
-- Platform: modules/jamn_platform. KeyNoteInput (key_note_input.cpp), the computer keyboard.
-- Tests: the theorems on concrete inputs.
--
-- A method is a function from the object's state and its arguments to its result and the new state;
-- a bool result stays a Bool, a pointer that may be null is an Option. Arrays with a count are lists of
-- the entries in use, where nothing else is read. Times are unbounded integers: the sources' sums of
-- microseconds are far from 2^63. Casts to narrower types and unsigned counters wrap as written.
-- ForEachTlv runs on fuel, one more than the bytes that remain, and every round takes at least four.
-- The loops that empty a ring of the runtimes run on fuel too, one more than the ring's capacity.
-- The scheduler's heap is the list of its entries in the order in which they come out.
--
-- Not modelled: the ENet transport (calls of the ENet library), audio devices, sample arithmetic, windows,
-- the bench tool and the application's main function, which are input and output or glue.
pub mod Prelude
pub mod Core
pub mod Net
pub mod Proto
pub mod Engine
pub mod Session
pub mod Platform
pub mod Tests
