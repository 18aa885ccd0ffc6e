-- ===== src/Core/Histogram.antt =====
-- modules/jamn_core/include/jamn_core/histogram64.h.
-- The 64 counts of a slot are a list, `counts_[slot]` and `slotStartUs_[slot]` stand side by side.
use jam_n.Prelude.{
  ℕ, ◌+◌, ◌-◌, ◌%◌, ◌^◌, min, Bool, false, not, ◌&&◌, List, [], ◌∷◌, ◌==◌, leb, if◌then◌else◌,
  get_or, set, replicate,
}
use jam_n.Prelude.Int.{ℤ, pos, negsuc, pos_part, ◌+ℤ◌, ◌-ℤ◌, ◌*ℤ◌, ltb_ℤ, leb_ℤ, ◌==ℤ◌}
use jam_n.Core.Double.{Double}
use jam_n.Core.Quotient.{quot, rem}

abbrev pub num_buckets : ℕ
num_buckets = 64

abbrev pub num_slots : ℕ
num_slots = 5

abbrev pub window_us : ℕ
window_us = 5000000

abbrev pub slot_duration_us : ℕ
slot_duration_us = 1000000

abbrev pub no_slot : ℤ
no_slot = negsuc 0

pub record Slot : Type 0 where
  pub counts : List ℕ
  pub start : ℤ

pub record Histogram64 : Type 0 where
  pub slots : List Slot

abbrev blank : Slot
blank = record { counts = replicate num_buckets 0; start = no_slot }

abbrev pub empty : Histogram64
empty = record { slots = replicate num_slots blank }

-- For a positive divisor, the only one that is used.
pub floor_div : ℤ → ℕ → ℤ
floor_div a b =
    if not (rem a b ==ℤ pos 0) && ltb_ℤ (rem a b) (pos 0) then quot a b -ℤ pos 1 else quot a b

pub slot_index : ℤ → ℕ
slot_index now =
    let period = floor_div now slot_duration_us in
    pos_part (rem (rem period num_slots +ℤ pos num_slots) num_slots)

pub slot_start : ℤ → ℤ
slot_start now = floor_div now slot_duration_us *ℤ pos slot_duration_us

pub slot_in_window : Slot → ℤ → Bool
slot_in_window slot now =
    if slot.start ==ℤ no_slot
    then false
    else leb_ℤ slot.start now && ltb_ℤ (now -ℤ slot.start) (pos window_us)

-- The counts of the slots in the window, bucket by bucket, and their sum.
pub add_counts : List ℕ → List ℕ → List ℕ
add_counts [] counts = []
add_counts (t ∷ totals) [] = t ∷ totals
add_counts (t ∷ totals) (c ∷ counts) = (t + c) % 2 ^ 32 ∷ add_counts totals counts

pub sum : List ℕ → ℕ
sum [] = 0
sum (c ∷ counts) = (c + sum counts) % 2 ^ 64

unfoldable pub collect : List Slot → ℤ → List ℕ × ℕ → List ℕ × ℕ
collect [] now acc = acc
collect (slot ∷ slots) now (total, s) =
    if slot_in_window slot now
    then collect slots now (add_counts total slot.counts, (s + sum slot.counts) % 2 ^ 64)
    else collect slots now (total, s)

module _ (D : Double) where
  abbrev min_value : D.carrier
  min_value = D.decimal 1 0

  abbrev max_value : D.carrier
  max_value = D.decimal 2000000 0

  abbrev log_range : D.carrier
  log_range = D.sub (D.log max_value) (D.log min_value)

  pub bucket_for : ℤ → ℕ
  bucket_for value =
      let given = D.of_int value in
      let v = if D.less given min_value then min_value else given in
      if D.less_equal max_value v
      then num_buckets - 1
      else (let t = D.div (D.sub (D.log v) (D.log min_value)) log_range in
          min (pos_part (D.to_int (D.mul t (D.of_int (pos num_buckets))))) (num_buckets - 1))

  pub bucket_upper_bound : ℕ → ℤ
  bucket_upper_bound bucket =
      let t = D.div (D.of_int (pos (bucket + 1))) (D.of_int (pos num_buckets)) in
      D.to_int (D.exp (D.add (D.log min_value) (D.mul t log_range)))

  pub record_at : Histogram64 → ℤ → ℤ → Histogram64
  record_at h value now =
      let i = slot_index now in
      let slot = get_or h.slots i blank in
      let kept =
        if slot.start ==ℤ slot_start now
        then slot
        else record { counts = replicate num_buckets 0; start = slot_start now } in
      let b = bucket_for value in
      record {
        slots =
            set h.slots i
              (record kept { counts = set kept.counts b ((get_or kept.counts b 0 + 1) % 2 ^ 32) });
      }

  -- The loop behind the test of `sum`, from bucket `b` on.
  unfoldable pub first_reaching : ℕ → List ℕ → ℕ → ℕ → ℤ
  first_reaching target [] b cumulative = bucket_upper_bound (num_buckets - 1)
  first_reaching target (c ∷ counts) b cumulative =
      let rest = first_reaching target counts (b + 1) (cumulative + c) in
      if leb target (cumulative + c) then bucket_upper_bound b else rest

  unfoldable pub percentile : Histogram64 → ℤ → D.carrier → ℤ
  percentile h now fraction =
      let (total, s) = collect h.slots now (replicate num_buckets 0, 0) in
      let target = pos_part (D.to_int (D.ceil (D.mul fraction (D.of_int (pos s))))) in
      if s == 0 then pos 0 else first_reaching target total 0 0

  unfoldable pub p99 : Histogram64 → ℤ → ℤ
  p99 h now = percentile h now (D.decimal 99 2)
