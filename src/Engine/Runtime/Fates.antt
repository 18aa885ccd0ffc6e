-- ===== src/Engine/Runtime/Fates.antt =====
-- What becomes of each event of a burst that arrives.
use jam_n.Prelude.{
  ℕ, suc, ◌+◌, ◌-◌, ◌^◌, ◌≤◌, ◌<◌, ◌≡◌, refl, ap, sym, ◌∙◌, List, [], ◌∷◌, ◌++◌, map, Bool, true,
  false, length, take, append-nil, take-nil, append_assoc, length-append, min, leb, set, length-set,
  get_or-set_self, if◌then◌else◌, Bool-cases, ◌⊎◌, inl, inr, arith,
}
use jam_n.Prelude.Int.{ℤ}
use jam_n.Core.SpscRing.Queue.{IsValid, contents, push_cases, length-contents}
use jam_n.Proto.Note.{NoteEvent}
use jam_n.Engine.Crossing.{
  RemoteNote, Lane, NoteCrossing, no_note, new_lane, lane_at, pushed, publish,
}
use jam_n.Engine.Dedupe.{DedupeRing, is_duplicate}
use jam_n.Engine.Runtime.{PeerRuntime}
use jam_n.Engine.Runtime.Receiving.{remote_note, crossed, judged, handle_events}

-- The events that the dedupe ring has not seen, one asked behind the other.
abbrev pub fresh : DedupeRing → ℕ → List NoteEvent → List NoteEvent
fresh dedupe from [] = []
fresh dedupe from (event ∷ events) =
    let x = is_duplicate dedupe from event.event_seq in
    if x.0 then fresh x.1 from events else event ∷ fresh x.1 from events

abbrev pub waiting : NoteCrossing → ℕ → List RemoteNote
waiting c slot = contents no_note (lane_at c slot).ring

-- How many more notes the lane of a slot holds, of 128.
abbrev pub room : NoteCrossing → ℕ → ℕ
room c slot = 128 - length (waiting c slot)

pub record LaneFits (c : NoteCrossing) (slot : ℕ) : Type 0 where
  pub lanes : length c.lanes ≡ 8
  pub slot_in : slot < 8
  pub valid : IsValid (lane_at c slot).ring
  pub capacity : (lane_at c slot).ring.capacity ≡ 128

abbrev pub counted : PeerRuntime → ℕ
counted s = s.stats.notes_delivered + s.stats.notes_deduped + s.stats.notes_dropped_at_crossing

pub record Handled (s : PeerRuntime) (from slot : ℕ) (base : ℤ) (events new : List NoteEvent)
    (t : PeerRuntime) : Type 0 where
  pub deduped : t.stats.notes_deduped ≡ s.stats.notes_deduped + (length events - length new)
  pub delivered :
      t.stats.notes_delivered ≡ s.stats.notes_delivered + min (room s.crossing slot) (length new)
  pub dropped :
      t.stats.notes_dropped_at_crossing
      ≡ s.stats.notes_dropped_at_crossing + (length new - room s.crossing slot)
  pub lane :
      waiting t.crossing slot
      ≡ waiting s.crossing slot ++ take (room s.crossing slot) (map (remote_note from base) new)

length-fresh :
    (dedupe : DedupeRing) (from : ℕ) (events : List NoteEvent)
    → length (fresh dedupe from events) ≤ length events
length-fresh dedupe from [] = omega arith
length-fresh dedupe from (event ∷ events) =
    let x = is_duplicate dedupe from event.event_seq in
    let rest = length-fresh x.1 from events in
    elim (Bool-cases x.0) [ inl seen ↦ rw seen (omega arith) | inr new ↦ rw new (omega arith) ]

-- A note published to a lane joins it, or finds it full.
publish_cases :
    (c : NoteCrossing) (slot : ℕ) (note : RemoteNote)
    → LaneFits c slot
    → (c' : NoteCrossing) × LaneFits c' slot
      × (((room c slot ≡ 0)
            × (publish c slot note ≡ (false, c'))
            × (waiting c' slot ≡ waiting c slot))
          ⊎ ((1 ≤ room c slot)
              × (publish c slot note ≡ (true, c'))
              × (waiting c' slot ≡ waiting c slot ++ note ∷ [])))
unfolding publish pushed
publish_cases c slot note f =
    let lane = lane_at c slot in
    let there : leb 8 slot ≡ false = let h = f.slot_in in ground arith in
    let within : slot < length c.lanes = omega (arith, f.lanes, f.slot_in) in
    let count = length-contents no_note lane.ring in
    elim (push_cases no_note lane.ring note f.valid) [
      | inl (full, e) ↦
          (let after : Lane = pushed lane (false, lane.ring) in
            let at = get_or-set_self c.lanes slot after new_lane within in
            (
              record { lanes = set c.lanes slot after },
              record {
                lanes = length-set c.lanes slot after ∙ f.lanes;
                slot_in = f.slot_in;
                valid = rw at f.valid;
                capacity = rw at f.capacity;
              },
              inl (
                omega (arith, f.capacity, full, count),
                rw (there, e) refl,
                ap (λ l. contents no_note l.ring) at,
              ),
            ))
      | inr (free, ring, e, valid, same, more) ↦
          (let after : Lane = pushed lane (true, ring) in
            let at = get_or-set_self c.lanes slot after new_lane within in
            (
              record { lanes = set c.lanes slot after },
              record {
                lanes = length-set c.lanes slot after ∙ f.lanes;
                slot_in = f.slot_in;
                valid = rw at valid;
                capacity = rw at (same ∙ f.capacity);
              },
              inr (
                omega (arith, f.capacity, free, count),
                rw (there, e) refl,
                ap (λ l. contents no_note l.ring) at ∙ more,
              ),
            ))
    ]

-- The lane's part, when a note has joined it.
lane_step :
    (r r' : ℕ) (before after : List RemoteNote) (note : RemoteNote) (rest : List RemoteNote)
    → 1 ≤ r
    → r ≡ suc r'
    → after ≡ before ++ note ∷ []
    → after ++ take r' rest ≡ before ++ take r (note ∷ rest)
lane_step r r' before after note rest some_room e joined =
    ap (λ l. l ++ take r' rest) joined
    ∙ append_assoc before (note ∷ []) (take r' rest)
    ∙ ap (λ n. before ++ take n (note ∷ rest)) (sym e)

lane_full : (r : ℕ) (ns ms : List RemoteNote) → r ≡ 0 → take r ns ≡ take r ms
lane_full r ns ms e = rw e refl

judged-Handled :
    (s : PeerRuntime) (from slot : ℕ) (base : ℤ) (event : NoteEvent) (events : List NoteEvent)
    (x : Bool × DedupeRing)
    → LaneFits s.crossing slot
    → counted s + suc (length events) < 2 ^ 64
    → length (fresh x.1 from events) ≤ length events
    → ((t : PeerRuntime)
        → LaneFits t.crossing slot
        → counted t + length events < 2 ^ 64
        → Handled t from slot base events
            (fresh t.dedupe from events)
            (handle_events t from slot base events))
    → Handled s from slot base
        (event ∷ events)
        (if x.0 then fresh x.1 from events else event ∷ fresh x.1 from events)
        (handle_events (judged s from slot base event x) from slot base events)
unfolding judged crossed
judged-Handled s from slot base event events (true, dedupe) fits small few ih =
    let t : PeerRuntime = judged s from slot base event (true, dedupe) in
    let i = ih t fits (omega arith) in
    record {
      deduped = omega (arith, i.deduped);
      delivered = i.delivered;
      dropped = i.dropped;
      lane = i.lane;
    }
judged-Handled s from slot base event events (false, dedupe) fits small few ih =
    let note = remote_note from base event in
    let (c', fits', cases) = publish_cases s.crossing slot note fits in
    let s' : PeerRuntime = record s { dedupe = dedupe } in
    let new = fresh dedupe from events in
    elim cases [
      | inl (full, e, same) ↦
          (let t : PeerRuntime = crossed s' (false, c') in
            let i = ih t fits' (omega arith) in
            let still : room c' slot ≡ room s.crossing slot = ap (λ l. 128 - length l) same in
            rw e (record {
              deduped = omega (arith, i.deduped);
              delivered = omega (arith, i.delivered, still, full);
              dropped = omega (arith, i.dropped, still, full);
              lane =
                  i.lane
                  ∙ ap (λ l. l ++ take (room c' slot) (map (remote_note from base) new)) same
                  ∙ ap (λ n. waiting s.crossing slot ++ n)
                      (ap (λ n. take n (map (remote_note from base) new)) still
                        ∙ lane_full (room s.crossing slot) _ _ full);
            }))
      | inr (free, e, joined) ↦
          (let t : PeerRuntime = crossed s' (true, c') in
            let i = ih t fits' (omega arith) in
            let less : room s.crossing slot ≡ suc (room c' slot) = omega (
              arith,
              free,
              ap length joined,
              length-append (waiting s.crossing slot) (note ∷ []),
            ) in
            rw e (record {
              deduped = omega (arith, i.deduped);
              delivered = omega (arith, i.delivered, less);
              dropped = omega (arith, i.dropped, less);
              lane =
                  i.lane
                  ∙ lane_step (room s.crossing slot) (room c' slot) _ _ note _ free less joined;
            }))
    ]

-- While the counters do not wrap, and for a slot with a lane of 128: of the events of a burst, those
-- that the dedupe ring has seen are counted as duplicates; of the others, as many as the lane has room
-- for join it as notes, in order, and are counted as delivered, and the rest as dropped.
pub handle_events_lem :
    (s : PeerRuntime) (from slot : ℕ) (base : ℤ) (events : List NoteEvent)
    → LaneFits s.crossing slot
    → counted s + length events < 2 ^ 64
    → Handled s from slot base events
        (fresh s.dedupe from events)
        (handle_events s from slot base events)
unfolding handle_events
handle_events_lem s from slot base [] fits small = record {
  deduped = omega arith;
  delivered = omega arith;
  dropped = omega arith;
  lane =
      sym (append-nil (waiting s.crossing slot))
      ∙ ap (λ l. waiting s.crossing slot ++ l) (sym (take-nil RemoteNote (room s.crossing slot)));
}
handle_events_lem s from slot base (event ∷ events) fits small =
    let x = is_duplicate s.dedupe from event.event_seq in
    judged-Handled s from slot base event events x fits small (length-fresh x.1 from events)
      (λ t fits' small'. handle_events_lem t from slot base events fits' small')
