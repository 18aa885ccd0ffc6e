-- ===== src/Engine/NetThread/Pace.antt =====
-- What the loop reports of its pace is what the clock's readings make of it.
use jam_n.Prelude.{
  ℕ, suc, ◌+◌, ◌<◌, ◌%◌, ◌^◌, ◌≡◌, refl, ap, ◌∙◌, ◌⊎◌, inl, inr, Bool, true, false, List, [], ◌∷◌,
  none, some, ◌==◌, if◌then◌else◌, length, Bool-cases, arith,
}
use jam_n.Prelude.Int.{ℤ, pos, pos_part, neg_part, ◌+ℤ◌, ◌-ℤ◌, ◌*ℤ◌, ◌≤ℤ◌, ltb_ℤ, +ℤ_mono, int_laws}
use jam_n.Core.Double.{Double}
use jam_n.Core.Quotient.{quot}
use jam_n.Engine.Runtime.{PeerRuntime, Action}
use jam_n.Engine.NetThread.{
  Cadence, NetThread, Loop, Round, net_thread, start, stopped, least, greatest, record_interval,
  cadence_of, take_cadence, micros, measured, deadline, served, round, rounds, entered,
}

least_lem : (a b : ℤ) → (least a b ≤ℤ a) × (least a b ≤ℤ b)
least_lem a b = ground arith

greatest_lem : (a b : ℤ) → (a ≤ℤ greatest a b) × (b ≤ℤ greatest a b)
greatest_lem a b = ground arith

not_below : (a b : ℤ) → ltb_ℤ a b ≡ false → b ≤ℤ a
not_below a b h = ground arith

sums_meet : (L m s p t s1 : ℤ) → L +ℤ m ≡ s1 +ℤ t → s1 ≡ s +ℤ (m -ℤ p) → L +ℤ p ≡ s +ℤ t
sums_meet L m s p t s1 h k =
    omega (int_laws, ap pos_part h, ap neg_part h, ap pos_part k, ap neg_part k)

module _ (D : Double) where
  -- What an interval does to what is kept of the intervals.
  record Recorded (t : NetThread) (interval : ℤ) (t' : NetThread) : Type 0 where
    count : t'.interval_count ≡ t.interval_count + 1
    sum : t'.interval_sum_us ≡ t.interval_sum_us +ℤ interval
    low : t'.interval_min_us ≤ℤ interval
    high : interval ≤ℤ t'.interval_max_us
    wider :
        (t.interval_count ≡ 0)
        ⊎ ((t'.interval_min_us ≤ℤ t.interval_min_us) × (t.interval_max_us ≤ℤ t'.interval_max_us))

  record_interval-Recorded :
      (t : NetThread) (interval now_us : ℤ)
      → Recorded t interval (record_interval D t interval now_us)
  unfolding record_interval
  record_interval-Recorded t interval now_us = elim (Bool-cases (t.interval_count == 0)) [
    | inl first ↦ rw first (record {
      count = refl;
      sum = refl;
      low = omega arith;
      high = omega arith;
      wider = inl (let e : t.interval_count ≡ 0 = ground arith in e);
    })
    | inr again ↦ rw again (record {
      count = refl;
      sum = refl;
      low = (least_lem t.interval_min_us interval).1;
      high = (greatest_lem t.interval_max_us interval).1;
      wider =
          inr
            ((least_lem t.interval_min_us interval).0, (greatest_lem t.interval_max_us interval).0);
    })
  ]

module _ (ticks_per_us : ℕ) where
  -- The last reading, of these behind one.
  abbrev pub last_us : ℤ → List Round → ℤ
  last_us previous [] = previous
  last_us previous (r ∷ rs) = last_us (micros ticks_per_us r) rs

  -- Every interval from one reading to the next lies between these.
  abbrev pub Between : ℤ → ℤ → ℤ → List Round → Type 0
  Between low high previous [] = Unit {0}
  Between low high previous (r ∷ rs) =
      let now = micros ticks_per_us r in
      (low ≤ℤ now -ℤ previous) × (now -ℤ previous ≤ℤ high) × Between low high now rs

module _ (D : Double) (sends : List Action → Bool) (ticks_per_us : ℕ) where
  abbrev Wider : Loop → Loop → Type 0
  Wider l l' =
      (l'.thread.interval_min_us ≤ℤ l.thread.interval_min_us)
      × (l.thread.interval_max_us ≤ℤ l'.thread.interval_max_us)

  -- What rounds behind the first do to what is kept.
  record Ran (l : Loop) (rs : List Round) (l' : Loop) : Type 0 where
    count : l'.thread.interval_count ≡ l.thread.interval_count + length rs
    sum :
        l'.thread.interval_sum_us +ℤ l.previous_us
        ≡ l.thread.interval_sum_us +ℤ last_us ticks_per_us l.previous_us rs
    iterations : l'.thread.iterations ≡ (l.thread.iterations + length rs) % 2 ^ 64
    running : l'.thread.running ≡ l.thread.running
    requested : l'.thread.poll_interval_us ≡ l.thread.poll_interval_us
    wider : (l.thread.interval_count ≡ 0) ⊎ Wider l l'
    between :
        Between ticks_per_us l'.thread.interval_min_us l'.thread.interval_max_us l.previous_us rs

  round-again :
      (l : Loop) (r : Round)
      → l.have_previous ≡ true
      → (Recorded D l.thread
          (micros ticks_per_us r -ℤ l.previous_us)
          (round D sends ticks_per_us l r).thread)
        × ((round D sends ticks_per_us l r).thread.running ≡ l.thread.running)
        × ((round D sends ticks_per_us l r).thread.poll_interval_us ≡ l.thread.poll_interval_us)
        × ((round D sends ticks_per_us l r).thread.iterations ≡ (l.thread.iterations + 1) % 2 ^ 64)
  unfolding round served measured record_interval
  round-again l r h =
      let i =
        record_interval-Recorded D l.thread (micros ticks_per_us r -ℤ l.previous_us)
          (micros ticks_per_us r) in
      rw h (
        (record { count = i.count; sum = i.sum; low = i.low; high = i.high; wider = i.wider }),
        refl,
        refl,
        refl,
      )

  rounds-Ran :
      (l : Loop) (rs : List Round)
      → l.have_previous ≡ true
      → l.thread.iterations < 2 ^ 64
      → Ran l rs (rounds D sends ticks_per_us l rs)
  unfolding rounds round
  rounds-Ran l [] h small = record {
    count = omega arith;
    sum = refl;
    iterations = omega arith;
    running = refl;
    requested = refl;
    wider = inr (omega arith, omega arith);
    between = tt;
  }
  rounds-Ran l (r ∷ rs) h small =
      let l1 = round D sends ticks_per_us l r in
      let (i, same_running, same_interval, one_more) = round-again l r h in
      let j = rounds-Ran l1 rs refl (omega (arith, one_more)) in
      let narrow : Wider l1 (rounds D sends ticks_per_us l1 rs) = omega (arith, i.count, j.wider) in
      record {
        count = omega (arith, i.count, j.count);
        sum = sums_meet _ _ _ _ _ _ j.sum i.sum;
        iterations = omega (arith, one_more, j.iterations);
        running = j.running ∙ same_running;
        requested = j.requested ∙ same_interval;
        wider = elim i.wider [
          | inl none_yet ↦ inl none_yet
          | inr w ↦ inr (omega (arith, w, narrow))
        ];
        between = (omega (arith, i.low, narrow), omega (arith, i.high, narrow), j.between);
      }

  difference : (a b c : ℤ) → a +ℤ b ≡ pos 0 +ℤ c → a ≡ c -ℤ b
  difference a b c h = omega (int_laws, ap pos_part h, ap neg_part h)

  -- A thread that is started and runs one round and then others refuses to report while it runs. Once it
  -- is stopped it reports the number of rounds, with a least and a greatest interval between which every
  -- interval from one round's reading to the next lies, and as their mean the time from the first reading
  -- to the last over their number, or 0 where there was one round only.
  pub take_cadence_lem :
      (runtime : PeerRuntime) (poll_interval begin : ℤ) (r : Round) (rs : List Round)
      → let t =
          (rounds D sends ticks_per_us
            (entered (start (net_thread runtime poll_interval)) begin)
            (r ∷ rs)).thread in
        (take_cadence D t ≡ none)
        × (c : Cadence) × (take_cadence D (stopped t) ≡ some c)
        × (c.iterations ≡ suc (length rs) % 2 ^ 64)
        × Between ticks_per_us c.min_us c.max_us (micros ticks_per_us r) rs
        × (c.mean_us ≡ (
            if length rs == 0
            then pos 0
            else quot
                (last_us ticks_per_us (micros ticks_per_us r) rs -ℤ micros ticks_per_us r)
                (length rs)))
  unfolding rounds round served measured start take_cadence cadence_of stopped
  take_cadence_lem runtime poll_interval begin r rs =
      let l1 =
        round D sends ticks_per_us (entered (start (net_thread runtime poll_interval)) begin) r in
      let i = rounds-Ran l1 rs refl (omega arith) in
      let t = (rounds D sends ticks_per_us l1 rs).thread in
      (
        rw i.running refl,
        cadence_of D (stopped t),
        refl,
        omega (arith, i.iterations),
        i.between,
        ap (λ n. if n == 0 then pos 0 else quot t.interval_sum_us n) {y = length rs}
              (omega (arith, i.count))
            ∙ ap (λ s. if length rs == 0 then pos 0 else quot s (length rs))
                (difference _ _ _ i.sum),
      )

  -- With a round that starts when its deadline is past, the next deadline is at or behind its start, and
  -- at most one interval behind: a late loop resumes its pace and does not catch up.
  deadline-ahead :
      (l : Loop) (now : ℤ)
      → l.next ≤ℤ now
      → pos 0 ≤ℤ l.thread.poll_interval_us *ℤ pos ticks_per_us
      → (now ≤ℤ deadline D sends ticks_per_us l now)
        × (deadline D sends ticks_per_us l now
            ≤ℤ now +ℤ l.thread.poll_interval_us *ℤ pos ticks_per_us)
  unfolding deadline
  deadline-ahead l now woken forward =
      let interval : ℤ = l.thread.poll_interval_us *ℤ pos ticks_per_us in
      elim (Bool-cases (ltb_ℤ (l.next +ℤ interval) now)) [
        | inl late ↦ rw late (omega int_laws, omega int_laws)
        | inr on_time ↦
            rw on_time
              (not_below (l.next +ℤ interval) now on_time, +ℤ_mono _ _ _ _ woken (omega arith))
      ]
