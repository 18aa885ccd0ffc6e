-- ===== src/Engine/NetThread.antt =====
-- modules/jamn_engine: net_thread.h and net_thread.cpp, the loop that calls the peer runtime. The steady
-- clock is read once a round: its reading, in its own ticks, comes with the round, and so does what the
-- runtime's poll reports. The rounds of a run are those before `stop_` is seen.
pub mod Pace
use jam_n.Prelude.{
  ℕ, ◌+◌, ◌%◌, ◌^◌, Bool, true, false, List, [], ◌∷◌, Option, none, some, ◌==◌, if◌then◌else◌,
}
use jam_n.Prelude.Int.{ℤ, pos, pos_part, ◌+ℤ◌, ◌-ℤ◌, ◌*ℤ◌, ltb_ℤ}
use jam_n.Core.Double.{Double}
use jam_n.Core.Quotient.{quot}
use jam_n.Core.Histogram.{Histogram64, record_at, percentile, p99}
use jam_n.Core.Histogram as Histogram
use jam_n.Engine.Runtime.{PeerRuntime, Action}
use jam_n.Engine.Runtime.Service.{Report, service}

abbrev pub default_poll_interval_us : ℤ
default_poll_interval_us = pos 250

pub record Cadence : Type 0 where
  pub iterations : ℕ
  pub requested_us : ℤ
  pub min_us : ℤ
  pub max_us : ℤ
  pub mean_us : ℤ
  pub p50_us : ℤ
  pub p99_us : ℤ

pub record NetThread : Type 0 where
  pub runtime : PeerRuntime
  pub poll_interval_us : ℤ
  pub stop : Bool
  pub running : Bool
  pub started : Bool
  pub iterations : ℕ
  pub interval_count : ℕ
  pub interval_sum_us : ℤ
  pub interval_min_us : ℤ
  pub interval_max_us : ℤ
  pub last_record_us : ℤ
  pub intervals : Histogram64

-- NetThread::NetThread
abbrev pub net_thread : PeerRuntime → ℤ → NetThread
net_thread runtime poll_interval = record {
  runtime = runtime;
  poll_interval_us = if ltb_ℤ poll_interval (pos 1) then pos 1 else poll_interval;
  stop = false;
  running = false;
  started = false;
  iterations = 0;
  interval_count = 0;
  interval_sum_us = pos 0;
  interval_min_us = pos 0;
  interval_max_us = pos 0;
  last_record_us = pos 0;
  intervals = Histogram.empty;
}

-- The local variables of Run, with the thread's state.
pub record Loop : Type 0 where
  pub thread : NetThread
  pub next : ℤ
  pub previous_us : ℤ
  pub have_previous : Bool

-- A round: the clock's reading, and what the poll reports.
pub record Round : Type 0 where
  pub now : ℤ
  pub reports : List Report

-- Start, but for the thread, which runs `run`.
unfoldable pub start : NetThread → NetThread
start t = if t.started then t else record t { started = true; running = true }

-- Stop, behind the join.
unfoldable pub stopped : NetThread → NetThread
stopped t = record t { stop = true; running = false }

abbrev pub least : ℤ → ℤ → ℤ
least a b = if ltb_ℤ b a then b else a

abbrev pub greatest : ℤ → ℤ → ℤ
greatest a b = if ltb_ℤ a b then b else a

module _ (D : Double) where
  unfoldable pub record_interval : NetThread → ℤ → ℤ → NetThread
  record_interval t interval now_us =
      let first = t.interval_count == 0 in
      record t {
        interval_min_us = if first then interval else least t.interval_min_us interval;
        interval_max_us = if first then interval else greatest t.interval_max_us interval;
        interval_count = t.interval_count + 1;
        interval_sum_us = t.interval_sum_us +ℤ interval;
        intervals = record_at D t.intervals interval now_us;
        last_record_us = now_us;
      }

  -- What TakeCadence writes.
  unfoldable pub cadence_of : NetThread → Cadence
  cadence_of t = record {
    iterations = t.iterations;
    requested_us = t.poll_interval_us;
    min_us = t.interval_min_us;
    max_us = t.interval_max_us;
    mean_us = if t.interval_count == 0 then pos 0 else quot t.interval_sum_us t.interval_count;
    p50_us = percentile D t.intervals t.last_record_us (D.decimal 50 2);
    p99_us = p99 D t.intervals t.last_record_us;
  }

  -- TakeCadence: none where it returns false.
  unfoldable pub take_cadence : NetThread → Option Cadence
  take_cadence t = if t.running then none else some (cadence_of t)

-- A reading in microseconds.
abbrev pub micros : ℕ → Round → ℤ
micros ticks_per_us r = quot r.now ticks_per_us

module _ (D : Double) (sends : List Action → Bool) (ticks_per_us : ℕ) where
  -- RecordInterval, from the second round on.
  unfoldable pub measured : Loop → ℤ → NetThread
  measured l now_us =
      if l.have_previous
      then record_interval D l.thread (now_us -ℤ l.previous_us) now_us
      else l.thread

  -- The time of the next round.
  unfoldable pub deadline : Loop → ℤ → ℤ
  deadline l now =
      let interval = l.thread.poll_interval_us *ℤ pos ticks_per_us in
      let next = l.next +ℤ interval in if ltb_ℤ next now then now +ℤ interval else next

  unfoldable pub served : NetThread → Round → NetThread
  served t r = record t {
    iterations = (t.iterations + 1) % 2 ^ 64;
    runtime = service D sends t.runtime r.reports (micros ticks_per_us r);
  }

  -- The body of Run's loop, up to the sleep.
  unfoldable pub round : Loop → Round → Loop
  round l r = record {
    thread = served (measured l (micros ticks_per_us r)) r;
    next = deadline l r.now;
    previous_us = micros ticks_per_us r;
    have_previous = true;
  }

  unfoldable pub rounds : Loop → List Round → Loop
  rounds l [] = l
  rounds l (r ∷ rs) = rounds (round l r) rs

-- The start of Run, at a reading of the clock.
abbrev pub entered : NetThread → ℤ → Loop
entered t now = record { thread = t; next = now; previous_us = pos 0; have_previous = false }
