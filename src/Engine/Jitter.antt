-- ===== src/Engine/Jitter.antt =====
-- modules/jamn_engine: jitter_buffer.h and jitter_buffer.cpp. Times are unbounded integers.
pub mod Target
use jam_n.Prelude.{ℕ, Bool, true, false, not, if◌then◌else◌}
use jam_n.Prelude.Int.{ℤ, pos, ◌+ℤ◌, ◌-ℤ◌, ltb_ℤ}
use jam_n.Core.Double.{Double}
use jam_n.Core.Histogram.{Histogram64, record_at, p99}
use jam_n.Core.Histogram

abbrev pub safety_margin_us : ℤ
safety_margin_us = pos 3000

abbrev pub max_playout_us : ℤ
max_playout_us = pos 200000

abbrev pub shrink_step_us : ℤ
shrink_step_us = pos 1000

abbrev pub shrink_interval_us : ℤ
shrink_interval_us = pos 2000000

pub record JitterBuffer : Type 0 where
  pub histogram : Histogram64
  pub target_us : ℤ
  pub min_target_us : ℤ
  pub late_event_grace_owed : ℤ
  pub last_eval_us : ℤ
  pub have_last_eval : Bool

abbrev pub initial : JitterBuffer
initial = record {
  histogram = Histogram.empty;
  target_us = pos 0;
  min_target_us = pos 0;
  late_event_grace_owed = pos 0;
  last_eval_us = pos 0;
  have_last_eval = false;
}

-- std::max and std::min
abbrev pub max_ℤ : ℤ → ℤ → ℤ
max_ℤ a b = if ltb_ℤ a b then b else a

abbrev pub min_ℤ : ℤ → ℤ → ℤ
min_ℤ a b = if ltb_ℤ b a then b else a

pub set_min_target_us : JitterBuffer → ℤ → JitterBuffer
set_min_target_us j t = record j { min_target_us = t }

-- From the percentile on.
unfoldable pub clamped : ℤ → ℤ → ℤ
clamped p99_us floor_us =
    min_ℤ (max_ℤ (max_ℤ (p99_us +ℤ safety_margin_us) floor_us) (pos 0)) max_playout_us

-- computed > target ? computed : target
unfoldable pub grown : ℤ → JitterBuffer → JitterBuffer
grown computed j = record j {
  target_us = if ltb_ℤ j.target_us computed then computed else j.target_us;
}

-- PlayoutTargetUs behind its first statement, on a target that has grown.
unfoldable pub evaluate : ℤ → ℤ → JitterBuffer → JitterBuffer
evaluate computed now j =
    if not j.have_last_eval
    then record j { last_eval_us = now; have_last_eval = true }
    else if ltb_ℤ (now -ℤ j.last_eval_us) shrink_interval_us
    then j
    else if ltb_ℤ (pos 0) j.late_event_grace_owed
    then record j { last_eval_us = now; late_event_grace_owed = j.late_event_grace_owed -ℤ pos 1 }
    else record j { last_eval_us = now; target_us = max_ℤ computed (j.target_us -ℤ shrink_step_us) }

module _ (D : Double) where
  unfoldable pub record_transit : JitterBuffer → ℤ → ℤ → JitterBuffer
  record_transit j transit now = record j { histogram = record_at D j.histogram transit now }

  unfoldable pub computed_target : JitterBuffer → ℤ → ℤ
  computed_target j now = clamped (p99 D j.histogram now) j.min_target_us

  unfoldable pub report_late_event : JitterBuffer → ℤ → JitterBuffer
  report_late_event j now =
      grown (computed_target j now)
        (record j { late_event_grace_owed = j.late_event_grace_owed +ℤ pos 1 })

  unfoldable pub playout_target : JitterBuffer → ℤ → JitterBuffer
  playout_target j now =
      let computed = computed_target j now in evaluate computed now (grown computed j)
