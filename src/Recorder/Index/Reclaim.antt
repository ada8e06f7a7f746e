-- ===== src/Recorder/Index/Reclaim.antt =====
-- `rsdk_index_invalidate_chunk`: what a reused chunk leaves in the index.
use nt.Prelude.{
  subst, sym, ℕ_discrete, ℕ, zero, suc, ◌+◌, ◌<◌, ◌≡◌, refl, ◌∙◌, arith, Bool, true, false, ◌==◌,
  ◌&&◌, ltb, leb, if◌then◌else◌,
}
use nt.Prelude.Bytes.{decode, decode-Fits, pread, pread-All}
use nt.Recorder.Types.{Slot, slot_widths}
use nt.Recorder.Device.{Dev}
use nt.Recorder.Index.{
  rd_slot, wr_slot, clear_slot, slot_off, seal_slot, is_live, invalidate_loop,
  index_invalidate_chunk,
}
use nt.Recorder.Index.Slots.{SlotFits, seal_slot-Fits, rd_slot-wr_slot}

rd_slot-Fits : (d : Dev) (i : ℕ) → ((q : ℕ) → d.disk q < 256) → SlotFits (rd_slot d i)
unfolding rd_slot decode
rd_slot-Fits d i h =
    decode-Fits slot_widths (pread d.disk (slot_off d i) 64) (pread-All d.disk (slot_off d i) 64 h)

abbrev pub on_chunk : ℕ → Slot → Bool
on_chunk chunk s = is_live s && s.start_chunk == chunk

clear_slot-Fits : (s : Slot) → SlotFits s → SlotFits (clear_slot s)
unfolding clear_slot
clear_slot-Fits s f =
    seal_slot-Fits (record s { flags = 0 }) (f.0, (f.1.0, (f.1.1.0, (omega arith, f.1.1.1.1))))

-- One round of the loop, seen through the slots.
round_slot :
    (d : Dev) (chunk i j : ℕ)
    → SlotFits (rd_slot d i)
    → rd_slot (if on_chunk chunk (rd_slot d i) then wr_slot d i (clear_slot (rd_slot d i)) else d) j
      ≡ (if i == j && on_chunk chunk (rd_slot d j) then clear_slot (rd_slot d j) else rd_slot d j)
round_slot d chunk i j f = elim (ℕ_discrete i j) [
  | yes e ↦
      ground
        (arith, rd_slot-wr_slot d i j (clear_slot (rd_slot d i)) (clear_slot-Fits (rd_slot d i) f))
  | no ne ↦
      ground
        (arith, rd_slot-wr_slot d i j (clear_slot (rd_slot d i)) (clear_slot-Fits (rd_slot d i) f))
]

abbrev pub round_dev : Dev → ℕ → ℕ → Dev
round_dev d chunk i =
    if on_chunk chunk (rd_slot d i) then wr_slot d i (clear_slot (rd_slot d i)) else d

round_dev-Fits :
    (d : Dev) (chunk i : ℕ)
    → ((k : ℕ) → SlotFits (rd_slot d k))
    → (k : ℕ) → SlotFits (rd_slot (round_dev d chunk i) k)
round_dev-Fits d chunk i f k =
    subst SlotFits (sym (round_slot d chunk i k (f i)))
      (pick (i == k && on_chunk chunk (rd_slot d k)))
  where
    pick : (b : Bool) → SlotFits (if b then clear_slot (rd_slot d k) else rd_slot d k)
    pick true = clear_slot-Fits (rd_slot d k) (f k)
    pick false = f k

is_live-clear_slot : (s : Slot) → is_live (clear_slot s) ≡ false
unfolding is_live clear_slot seal_slot
is_live-clear_slot s = refl

-- Which slots the rounds from `i` on clear.
loop_slots :
    (d : Dev) (chunk n i cleared j : ℕ)
    → ((k : ℕ) → SlotFits (rd_slot d k))
    → rd_slot (invalidate_loop d chunk n i cleared).1 j ≡ (
        if (leb i j && ltb j (i + n)) && on_chunk chunk (rd_slot d j)
        then clear_slot (rd_slot d j)
        else rd_slot d j)
unfolding invalidate_loop
loop_slots d chunk zero i cleared j f = ground arith
loop_slots d chunk (suc n) i cleared j f =
    loop_slots (round_dev d chunk i) chunk n (i + 1) _ j (round_dev-Fits d chunk i f) ∙ step
  where
    step :
        (if (leb (i + 1) j && ltb j (i + 1 + n)) && on_chunk chunk (rd_slot (round_dev d chunk i) j)
          then clear_slot (rd_slot (round_dev d chunk i) j)
          else rd_slot (round_dev d chunk i) j)
        ≡ (if (leb i j && ltb j (i + suc n)) && on_chunk chunk (rd_slot d j)
            then clear_slot (rd_slot d j)
            else rd_slot d j)
    step = ground (arith, round_slot d chunk i j (f i), is_live-clear_slot (rd_slot d j))

-- When a chunk is reused, exactly the live slots of the index that begin in it are cleared: such a
-- slot loses all its flags and keeps its other fields but for the checksum, and every other slot,
-- of the index or not, is as it was. The bytes of the disk must be bytes.
pub invalidate-slots :
    (d : Dev) (chunk j : ℕ)
    → ((q : ℕ) → d.disk q < 256)
    → rd_slot (index_invalidate_chunk d chunk).1 j ≡ (
        if ltb j d.st.index_slot_count && on_chunk chunk (rd_slot d j)
        then clear_slot (rd_slot d j)
        else rd_slot d j)
unfolding index_invalidate_chunk
invalidate-slots d chunk j h =
    ground (arith, loop_slots d chunk d.st.index_slot_count 0 0 j (λ k. rd_slot-Fits d k h))

-- After a chunk was reclaimed no live slot of the index begins in it.
invalidate-none_left :
    (d : Dev) (chunk j : ℕ)
    → ((q : ℕ) → d.disk q < 256)
    → j < d.st.index_slot_count
    → on_chunk chunk (rd_slot (index_invalidate_chunk d chunk).1 j) ≡ false
invalidate-none_left d chunk j h lt =
    ground (arith, invalidate-slots d chunk j h, is_live-clear_slot (rd_slot d j))
