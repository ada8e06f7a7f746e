-- ===== src/Recorder/Index/Query.antt =====
-- `rsdk_index_query` and `rsdk_index_earliest` against the list of all slots.
use mathlib.Core.List.{Perm}
use nt.Prelude.{
  ◌⊎◌, sym, ℕ, zero, suc, ◌+◌, ◌-◌, ◌≤◌, ◌≡◌, refl, ap, arith, List, [], ◌∷◌, Bool, true, false,
  Bool-cases, inl, inr, ltb, ◌&&◌, if◌then◌else◌, take, All, length, none, some,
}
use nt.Prelude.Int.{ℤ}
use nt.Recorder.Types.{ok, notfound, Slot}
use nt.Recorder.Device.{Dev}
use nt.Recorder.Index.{
  rd_slot, is_valid, selects, collect, index_query, last_time, no_time, earliest_loop,
  index_earliest,
}
use nt.Recorder.Index.Sort.{IsSorted, sort_by_start-sorts, length-sort_by_start}

-- The slots from `i` on.
pub slots_from : Dev → ℕ → ℕ → List Slot
slots_from d zero i = []
slots_from d (suc n) i = rd_slot d i ∷ slots_from d n (i + 1)

abbrev pub all_slots : Dev → List Slot
all_slots d = slots_from d d.st.index_slot_count 0

pub select : (Slot → Bool) → List Slot → List Slot
select p [] = []
select p (s ∷ ss) = if p s then s ∷ select p ss else select p ss

collect-eq-take-select :
    (p : Slot → Bool) (d : Dev) (n i cap : ℕ)
    → collect p d n i cap ≡ take cap (select p (slots_from d n i))
unfolding collect select slots_from
collect-eq-take-select p d zero i zero = refl
collect-eq-take-select p d zero i (suc cap) = refl
collect-eq-take-select p d (suc n) i zero = refl
collect-eq-take-select p d (suc n) i (suc cap) =
    let e : suc cap - 1 ≡ cap = omega arith in
    ground (
      arith,
      e,
      collect-eq-take-select p d n (i + 1) (suc cap - 1),
      collect-eq-take-select p d n (i + 1) cap,
      collect-eq-take-select p d n (i + 1) (suc cap),
    )

-- A query returns, in the order of their start times, the first `cap` slots in index order that pass
-- its tests: valid, with the right checksum, not outside the interval, on the asked channel and of
-- the asked type.
pub index_query_lem :
    (d : Dev) (t0 t1 : ℕ) (chn rectype : ℤ) (cap : ℕ)
    → Perm
        (index_query d t0 t1 chn rectype cap)
        (take cap (select (selects t0 (last_time t1) chn rectype) (all_slots d)))
      × IsSorted (index_query d t0 t1 chn rectype cap)
unfolding index_query
index_query_lem d t0 t1 chn rectype cap =
    rw
      (collect-eq-take-select (selects t0 (last_time t1) chn rectype) d d.st.index_slot_count 0 cap)
      (sort_by_start-sorts _)

pub length-index_query :
    (d : Dev) (t0 t1 : ℕ) (chn rectype : ℤ) (cap : ℕ)
    → length (index_query d t0 t1 chn rectype cap)
      ≡ length (take cap (select (selects t0 (last_time t1) chn rectype) (all_slots d)))
unfolding index_query
length-index_query d t0 t1 chn rectype cap =
    rw
      (collect-eq-take-select (selects t0 (last_time t1) chn rectype) d d.st.index_slot_count 0 cap)
      (length-sort_by_start _ _)

abbrev pub valid_slots : Dev → ℕ → ℕ → List Slot
valid_slots d n i = select is_valid (slots_from d n i)

-- The step of the loop, with the answer of the rest.
earliest_le_step :
    (s : Slot) (ss : List Slot) (best r : ℕ)
    → r ≤ (if is_valid s && ltb s.start_time best then s.start_time else best)
    → All (λ t. r ≤ t.start_time) ss
    → (r ≤ best) × All (λ t. r ≤ t.start_time) (if is_valid s then s ∷ ss else ss)
earliest_le_step s ss best r h all = elim (Bool-cases (is_valid s)) [
  | inl v ↦ rw v (ground (arith, v), (ground (arith, v), all))
  | inr v ↦ rw v (ground (arith, v), all)
]

-- The best start so far after `n` more slots is no later than each valid start among them.
earliest_loop-le :
    (d : Dev) (n i best : ℕ) (any : Bool)
    → ((earliest_loop d n i best any).0 ≤ best)
      × All (λ s. (earliest_loop d n i best any).0 ≤ s.start_time) (valid_slots d n i)
unfolding earliest_loop slots_from select
earliest_loop-le d zero i best any = (omega arith, tt)
earliest_loop-le d (suc n) i best any =
    let hit = is_valid (rd_slot d i) && ltb (rd_slot d i).start_time best in
    let r =
      earliest_loop-le d n (i + 1) (if hit then (rd_slot d i).start_time else best)
        (if hit then true else any) in
    earliest_le_step (rd_slot d i) (valid_slots d n (i + 1)) best _ r.0 r.1

abbrev pub Any : (Slot → Type 0) → List Slot → Type 0
Any P [] = ⊥
Any P (s ∷ ss) = P s ⊎ Any P ss

earliest-Any_step :
    (s : Slot) (ss : List Slot) (best : ℕ) (any : Bool) (r : ℕ × Bool)
    → (r ≡ (
      if is_valid s && ltb s.start_time best then s.start_time else best,
      if is_valid s && ltb s.start_time best then true else any,
    ))
      ⊎ ((r.1 ≡ true) × Any (λ t. t.start_time ≡ r.0) ss)
    → (r ≡ (best, any))
      ⊎ ((r.1 ≡ true) × Any (λ t. t.start_time ≡ r.0) (if is_valid s then s ∷ ss else ss))
earliest-Any_step s ss best any r h = elim (Bool-cases (is_valid s)) [
  | inl v ↦ rw v (elim (Bool-cases (ltb s.start_time best)) [
    | inl l ↦ elim (rw (v, l) at h) [
      | inl e ↦ inr (ap (λ p. p.1) e, inl (ap (λ p. p.0) (sym e)))
      | inr (t, a) ↦ inr (t, inr a)
    ]
    | inr l ↦ elim (rw (v, l) at h) [ inl e ↦ inl e | inr (t, a) ↦ inr (t, inr a) ]
  ])
  | inr v ↦ rw v (rw v at h)
]

-- Either nothing was earlier than the best so far, or the answer is the start of a valid slot.
earliest_loop-Any :
    (d : Dev) (n i best : ℕ) (any : Bool)
    → (earliest_loop d n i best any ≡ (best, any))
      ⊎ (((earliest_loop d n i best any).1 ≡ true)
          × Any (λ s. s.start_time ≡ (earliest_loop d n i best any).0) (valid_slots d n i))
unfolding earliest_loop slots_from select
earliest_loop-Any d zero i best any = inl refl
earliest_loop-Any d (suc n) i best any =
    earliest-Any_step (rd_slot d i) (valid_slots d n (i + 1)) best any _
      (earliest_loop-Any d n (i + 1) _ _)

-- A start time that is returned is that of a valid slot, and no valid slot starts earlier; where
-- nothing is found, no valid slot starts before the largest 32-bit time.
index_earliest_lem :
    (d : Dev)
    → ((e : ℕ) × (index_earliest d ≡ (ok, some e))
        × All (λ s. e ≤ s.start_time) (valid_slots d d.st.index_slot_count 0)
        × Any (λ s. s.start_time ≡ e) (valid_slots d d.st.index_slot_count 0))
      ⊎ ((index_earliest d ≡ (notfound, none))
          × All (λ s. no_time ≤ s.start_time) (valid_slots d d.st.index_slot_count 0))
unfolding index_earliest
index_earliest_lem d = elim (earliest_loop-Any d d.st.index_slot_count 0 no_time false) [
  | inl e ↦ inr (rw e refl, rw e at lower)
  | inr (t, a) ↦ inl (found.0, rw t refl, lower, a)
]
  where
    found : ℕ × Bool
    found = earliest_loop d d.st.index_slot_count 0 no_time false

    lower : All (λ s. found.0 ≤ s.start_time) (valid_slots d d.st.index_slot_count 0)
    lower = (earliest_loop-le d d.st.index_slot_count 0 no_time false).1
