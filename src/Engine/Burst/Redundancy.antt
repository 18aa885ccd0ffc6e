-- ===== src/Engine/Burst/Redundancy.antt =====
-- What the bursts of a session carry: each round's events, and those of the three rounds before it.
use jam_n.Prelude.{
  ℕ, zero, suc, ◌≤◌, ◌<◌, ◌≡◌, refl, sym, ap, ◌∙◌, List, [], ◌∷◌, ◌++◌, map, length, take, get_or,
  append_assoc, append-nil, length-append, length-take, inl, inr, ◌⊎◌, arith, lt→ltb,
}
use native.Mathlib.Decide.{dec_lt}
use jam_n.Prelude.Int.{ℤ}
use jam_n.Proto.Note.{NoteEvent, NoteBurst, max_events_per_burst}
use jam_n.Engine.Burst.{
  Entry, BurstAssembler, empty, queue_event, stamp, copy_generation, build_next_burst,
}

-- The events that are queued before a burst, and the burst's base and number.
pub record Round : Type 0 where
  pub arrivals : List Entry
  pub base : ℤ
  pub burst_seq : ℕ

pub queue_all : BurstAssembler → List Entry → BurstAssembler
queue_all s [] = s
queue_all s (entry ∷ entries) = queue_all ((queue_event s entry).1) entries

pub run : BurstAssembler → List Round → List NoteBurst
run s [] = []
run s (r ∷ rs) =
    let (burst, s') = build_next_burst (queue_all s r.arrivals) r.base r.burst_seq in
    burst ∷ run s' rs

-- What was accepted `n` rounds ago: `history` holds the earlier rounds, latest first.
abbrev pub ago : List (List Entry) → ℕ → List Entry
ago history n = get_or history n []

pub burst_of : List (List Entry) → Round → NoteBurst
burst_of history r = record {
  base_t_session_us = r.base;
  burst_seq = r.burst_seq;
  reserved = 0;
  events = take max_events_per_burst (
      map (stamp r.base)
        (take max_events_per_burst r.arrivals ++ ago history 0 ++ ago history 1 ++ ago history 2));
}

pub bursts_of : List (List Entry) → List Round → List NoteBurst
bursts_of history [] = []
bursts_of history (r ∷ rs) =
    burst_of history r ∷ bursts_of (take max_events_per_burst r.arrivals ∷ history) rs

take_full : {A : Type 0} (n : ℕ) (xs ys : List A) → n ≤ length xs → take n (xs ++ ys) ≡ take n xs
take_full zero xs ys h = refl
take_full (suc n) [] ys h = absurd (omega arith)
take_full (suc n) (x ∷ xs) ys h = ap (λ t. x ∷ t) (take_full n xs ys (omega arith))

take_all : {A : Type 0} (n : ℕ) (xs : List A) → length xs ≤ n → take n xs ≡ xs
take_all zero [] h = refl
take_all (suc n) [] h = refl
take_all zero (x ∷ xs) h = absurd (omega arith)
take_all (suc n) (x ∷ xs) h = ap (λ t. x ∷ t) (take_all n xs (omega arith))

map_append : {A B : Type 0} (f : A → B) (xs ys : List A) → map f (xs ++ ys) ≡ map f xs ++ map f ys
map_append f [] ys = refl
map_append f (x ∷ xs) ys = ap (λ t. f x ∷ t) (map_append f xs ys)

-- One more element, as long as there is room.
copy_step :
    (base : ℤ) (entry : Entry) (entries : List Entry) (before : List NoteEvent)
    → (length before < 64)
        × (copy_generation base (entry ∷ entries) (take 64 before)
            ≡ copy_generation base entries (take 64 (before ++ stamp base entry ∷ [])))
      ⊎ (64 ≤ length before)
        × (copy_generation base (entry ∷ entries) (take 64 before) ≡ take 64 before)
unfolding copy_generation
copy_step base entry entries before = elim (dec_lt (length before) 64) [
  | yes lt ↦ inl (
    lt,
    rw (
      take_all 64 before (omega arith),
      take_all 64 (before ++ stamp base entry ∷ [])
          (omega (arith, length-append before (stamp base entry ∷ []))),
      lt→ltb (length before) 64 lt,
    ),
  )
  | no ge ↦ inr (omega arith, ground (arith, length-take 64 before))
]

copy_generation_lem :
    (base : ℤ) (entries : List Entry) (before : List NoteEvent)
    → copy_generation base entries (take 64 before) ≡ take 64 (before ++ map (stamp base) entries)
unfolding copy_generation
copy_generation_lem base [] before = ap (take 64) (sym (append-nil before))
copy_generation_lem base (entry ∷ entries) before = elim (copy_step base entry entries before) [
  | inl (lt, e) ↦
      e
      ∙ copy_generation_lem base entries (before ++ stamp base entry ∷ [])
      ∙ ap (take 64) (append_assoc before (stamp base entry ∷ []) (map (stamp base) entries))
  | inr (ge, e) ↦ e ∙ sym (take_full 64 before _ ge)
]

queue_step :
    (n1 n2 n3 : List Entry) (entry : Entry) (before : List Entry)
    → (queue_event (record { queued = take 64 before; sent1 = n1; sent2 = n2; sent3 = n3 }) entry).1
      ≡ record { queued = take 64 (before ++ entry ∷ []); sent1 = n1; sent2 = n2; sent3 = n3 }
unfolding queue_event
queue_step n1 n2 n3 entry before = elim (dec_lt (length before) 64) [
  | yes lt ↦ rw (
    take_all 64 before (omega arith),
    take_all 64 (before ++ entry ∷ []) (omega (arith, length-append before (entry ∷ []))),
    lt→ltb (length before) 64 lt,
  )
  | no ge ↦
      rw (take_full 64 before (entry ∷ []) (omega arith)) (ground (arith, length-take 64 before))
]

queue_all_lem :
    (s : BurstAssembler) (before entries : List Entry)
    → queue_all (record s { queued = take 64 before }) entries
      ≡ record s { queued = take 64 (before ++ entries) }
unfolding queue_all
queue_all_lem s before [] = rw (append-nil before)
queue_all_lem s before (entry ∷ entries) =
    ap (λ t. queue_all t entries) (queue_step s.sent1 s.sent2 s.sent3 entry before)
    ∙ queue_all_lem s (before ++ entry ∷ []) entries
    ∙ rw (append_assoc before (entry ∷ []) entries)

-- The assembler, when `history` is what was sent.
abbrev after_rounds : List (List Entry) → BurstAssembler
after_rounds history = record {
  queued = [];
  sent1 = ago history 0;
  sent2 = ago history 1;
  sent3 = ago history 2;
}

build_lem :
    (history : List (List Entry)) (r : Round)
    → build_next_burst
        (record (after_rounds history) { queued = take 64 r.arrivals })
        r.base
        r.burst_seq
      ≡ (burst_of history r, after_rounds (take 64 r.arrivals ∷ history))
unfolding build_next_burst burst_of
build_lem history r =
    ap
      (λ events. (
        record {
          base_t_session_us = r.base;
          burst_seq = r.burst_seq;
          reserved = 0;
          events = events;
        },
        after_rounds (take 64 r.arrivals ∷ history),
      ))
      chain
  where
    q : List Entry
    q = take 64 r.arrivals

    a0 : List Entry
    a0 = ago history 0

    a1 : List Entry
    a1 = ago history 1

    a2 : List Entry
    a2 = ago history 2

    copy : List Entry → List NoteEvent → List NoteEvent
    copy entries events = copy_generation r.base entries events

    step :
        (xs ys : List Entry)
        → copy ys (take 64 (map (stamp r.base) xs)) ≡ take 64 (map (stamp r.base) (xs ++ ys))
    step xs ys =
        copy_generation_lem r.base ys (map (stamp r.base) xs)
        ∙ ap (take 64) (sym (map_append (stamp r.base) xs ys))

    chain :
        copy a2 (copy a1 (copy a0 (copy q []))) ≡ take 64 (map (stamp r.base) (q ++ a0 ++ a1 ++ a2))
    chain =
        ap (λ t. copy a2 (copy a1 (copy a0 t))) (step [] q)
        ∙ ap (λ t. copy a2 (copy a1 t)) (step q a0)
        ∙ ap (copy a2) (step (q ++ a0) a1)
        ∙ step (q ++ a0 ++ a1) a2

run_lem :
    (history : List (List Entry)) (rs : List Round)
    → run (after_rounds history) rs ≡ bursts_of history rs
unfolding run bursts_of
run_lem history [] = refl
run_lem history (r ∷ rs) =
    ap (λ s. run_from (build_next_burst s r.base r.burst_seq) rs)
      (queue_all_lem (after_rounds history) [] r.arrivals)
    ∙ ap (λ b. run_from b rs) (build_lem history r)
    ∙ ap (λ t. burst_of history r ∷ t) (run_lem (take 64 r.arrivals ∷ history) rs)
  where
    run_from : NoteBurst × BurstAssembler → List Round → List NoteBurst
    run_from (burst, s') rs = burst ∷ run s' rs

-- Whatever is queued before each burst, and whatever the bases are: every burst carries the first 64
-- of what was queued since the last burst and in the three rounds before it, newest first, each
-- event's time taken from this burst's base.
pub run-bursts_of : (rs : List Round) → run empty rs ≡ bursts_of [] rs
run-bursts_of rs = run_lem [] rs
