-- ===== src/Recorder/Index/Upsert.antt =====
-- `rsdk_index_write` against a table of slots.
use nt.Prelude.{
  ℕ, zero, suc, ◌+◌, ◌%◌, ◌≤◌, ◌<◌, ◌≡◌, refl, ◌∙◌, ◌⊎◌, inl, inr, arith, true, none, some,
  Option-cases, ◌==◌, if◌then◌else◌, u32,
}
use nt.Recorder.Types.{ok, Slot}
use nt.Recorder.Layout.{seal_st, seal_sb}
use nt.Recorder.Device.{Dev, flush}
use nt.Recorder.Index.{
  rd_slot, wr_slot, seal_slot, is_live, scan_back, find_back, index_write, append_slot,
}
use nt.Recorder.Index.Slots.{
  SlotFits, seal_slot-Fits, rd_slot-wr_slot, rd_slot-flush, index_end, wr_slot_above, flush_above,
}

-- The slot that a write of segment `seg` goes to.
pub target : Dev → ℕ → ℕ
target d seg = elim (find_back d seg) [ some i ↦ i | none ↦ d.st.index_next ]

-- The write position afterwards.
pub next_after : Dev → ℕ → ℕ
next_after d seg = elim (find_back d seg) [
  | some i ↦ d.st.index_next
  | none ↦ u32 (d.st.index_next + 1) % d.st.index_slot_count
]

-- A hit of the backward scan is a live slot of the segment.
scan_back-hit :
    (d : Dev) (seg rounds k i : ℕ)
    → scan_back d seg rounds k ≡ some i
    → (is_live (rd_slot d i) ≡ true) × ((rd_slot d i).seg_id ≡ seg)
unfolding scan_back
scan_back-hit d seg zero k i e = cc
scan_back-hit d seg (suc rounds) k i e = ground (arith, scan_back-hit d seg rounds (k + 1) i)

-- A write of a slot stores it, with its checksum, in exactly one place and leaves every other slot as
-- it was. The place is a live slot of the same segment, and then the write position stays, or it is
-- the write position, which then moves on round the ring. The index must start behind sector 18.
pub index_write-slots :
    (d : Dev) (s : Slot) (j : ℕ)
    → SlotFits s
    → 19 ≤ d.st.index_start_sec
    → (rd_slot (index_write d s).1 j
        ≡ (if target d s.seg_id == j then seal_slot s else rd_slot d j))
      × ((index_write d s).1.st.index_next ≡ next_after d s.seg_id)
      × (((is_live (rd_slot d (target d s.seg_id)) ≡ true)
            × ((rd_slot d (target d s.seg_id)).seg_id ≡ s.seg_id)
            × (next_after d s.seg_id ≡ d.st.index_next))
          ⊎ ((target d s.seg_id ≡ d.st.index_next)
              × (next_after d s.seg_id ≡ u32 (d.st.index_next + 1) % d.st.index_slot_count)))
unfolding index_write target next_after find_back append_slot flush seal_st rd_slot wr_slot
index_write-slots d s j f start = elim (Option-cases (find_back d s.seg_id)) [
  | inl e ↦ rw (e, index_write, target, next_after) (appended, refl, inr (refl, refl))
  | inr (i, e) ↦
      rw (e, index_write, target, next_after)
        (rd_slot-wr_slot d i j (seal_slot s) fits, refl, inl ((hit i e).0, (hit i e).1, refl))
]
  where
    fits : SlotFits (seal_slot s)
    fits = seal_slot-Fits s f

    hit :
        (i : ℕ)
        → find_back d s.seg_id ≡ some i
        → (is_live (rd_slot d i) ≡ true) × ((rd_slot d i).seg_id ≡ s.seg_id)
    hit i e = scan_back-hit d s.seg_id _ 1 i e

    appended :
        rd_slot (flush (append_slot d (seal_slot s))) j
        ≡ (if d.st.index_next == j then seal_slot s else rd_slot d j)
    appended =
        rd_slot-flush (append_slot d (seal_slot s)) j start
        ∙ rd_slot-wr_slot d d.st.index_next j (seal_slot s) fits

scan_back-lt :
    (d : Dev) (seg rounds k i : ℕ)
    → 0 < d.st.index_slot_count
    → scan_back d seg rounds k ≡ some i
    → i < d.st.index_slot_count
unfolding scan_back
scan_back-lt d seg zero k i n e = cc
scan_back-lt d seg (suc rounds) k i n e = ground (arith, scan_back-lt d seg rounds (k + 1) i n)

-- A write of a slot changes nothing behind the index.
pub index_write_above :
    (d : Dev) (s : Slot) (q : ℕ)
    → 19 ≤ d.st.index_start_sec
    → d.st.index_next < d.st.index_slot_count
    → index_end d ≤ q
    → (index_write d s).1.disk q ≡ d.disk q
unfolding index_write append_slot wr_slot
index_write_above d s q start lt h = elim (Option-cases (find_back d s.seg_id)) [
  | inl e ↦
      rw (e, index_write)
        (flush_above (append_slot d (seal_slot s)) q (omega arith)
          ∙ wr_slot_above d d.st.index_next (seal_slot s) q lt h)
  | inr (i, e) ↦ rw (e, index_write) (wr_slot_above d i (seal_slot s) q (found i e) h)
]
  where
    found : (i : ℕ) → find_back d s.seg_id ≡ some i → i < d.st.index_slot_count
    found i e = unfold find_back in scan_back-lt d s.seg_id _ 1 i (omega arith) e

-- What a write of a slot leaves of the device.
pub record Keeps (d d' : Dev) : Type 0 where
  pub crypto : d'.crypto ≡ d.crypto
  pub chunk_sectors : d'.sb.chunk_sectors ≡ d.sb.chunk_sectors
  pub data_start : d'.sb.data_start_sec ≡ d.sb.data_start_sec
  pub index_start : d'.st.index_start_sec ≡ d.st.index_start_sec
  pub slot_count : d'.st.index_slot_count ≡ d.st.index_slot_count
  pub next_in : d'.st.index_next < d'.st.index_slot_count

pub index_write-Keeps :
    (d : Dev) (s : Slot)
    → d.st.index_next < d.st.index_slot_count
    → ((index_write d s).0 ≡ ok) × Keeps d (index_write d s).1
unfolding index_write append_slot flush seal_st seal_sb wr_slot
index_write-Keeps d s lt = elim (Option-cases (find_back d s.seg_id)) [
  | inl e ↦
      rw (e, index_write)
        (
          refl,
          record {
            crypto = refl;
            chunk_sectors = refl;
            data_start = refl;
            index_start = refl;
            slot_count = refl;
            next_in = omega arith;
          },
        )
  | inr (i, e) ↦
      rw (e, index_write)
        (
          refl,
          record {
            crypto = refl;
            chunk_sectors = refl;
            data_start = refl;
            index_start = refl;
            slot_count = refl;
            next_in = lt;
          },
        )
]
