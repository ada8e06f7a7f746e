-- ===== src/Recorder/Index/Slots.antt =====
-- Reading a slot after writing one, and after the superblock and the table were flushed.
use nt.Prelude.{
  get_or, ℕ_discrete, ℕ, ◌+◌, ◌*◌, ◌≤◌, ◌<◌, ◌≡◌, ◌≢◌, ap, ◌∙◌, ◌⊎◌, inr, arith, List, length, ◌==◌,
  if◌then◌else◌,
}
use nt.Prelude.Bytes.{
  Disk, pread, pwrite, decode, Fits, length-encode, decode-encode, pread-pwrite_same,
  pread-pwrite_disjoint, pwrite_outside,
}
use nt.Recorder.Types.{
  Slot, slot_widths, slot_values, slot_of, sb_widths, sb_values, st_widths, st_values,
}
use nt.Recorder.Util.{crc32-lt}
use nt.Recorder.Layout.{sec, seal_sb, seal_st}
use nt.Recorder.Device.{Dev, flush, sb_bytes, st_bytes}
use nt.Recorder.Index.{slot_off, slot_bytes, rd_slot, wr_slot, seal_slot}

abbrev pub SlotFits : Slot → Type 0
SlotFits s = Fits slot_widths (slot_values s)

pub seal_slot-Fits : (s : Slot) → SlotFits s → SlotFits (seal_slot s)
unfolding seal_slot
seal_slot-Fits s f =
    let (a, (b, (c, (d, (e, (g, (h, (i, (j, (k, (l, (m, (n, (o, (_, r))))))))))))))) = f in
    (a, (b, (c, (d, (e, (g, (h, (i, (j, (k, (l, (m, (n, (o, (crc32-lt _, r)))))))))))))))

pub length-slot_bytes : (s : Slot) → length (slot_bytes s) ≡ 64
length-slot_bytes s = length-encode slot_widths (slot_values s)

pub rd_slot-wr_same : (d : Dev) (i : ℕ) (s : Slot) → SlotFits s → rd_slot (wr_slot d i s) i ≡ s
unfolding rd_slot wr_slot
rd_slot-wr_same d i s f =
    ap (λ b. slot_of (decode slot_widths b)) same
    ∙ ap slot_of (decode-encode slot_widths (slot_values s) f)
  where
    same : pread (pwrite d.disk (slot_off d i) (slot_bytes s)) (slot_off d i) 64 ≡ slot_bytes s
    same = rw (length-slot_bytes s) at (pread-pwrite_same d.disk (slot_off d i) (slot_bytes s))

apart : (b i j : ℕ) → i ≢ j → (b + j * 64 + 64 ≤ b + i * 64) ⊎ (b + i * 64 + 64 ≤ b + j * 64)
apart b i j ne = omega arith

pub rd_slot-wr_ne : (d : Dev) (i j : ℕ) (s : Slot) → i ≢ j → rd_slot (wr_slot d i s) j ≡ rd_slot d j
unfolding rd_slot wr_slot
rd_slot-wr_ne d i j s ne =
    ap (λ b. slot_of (decode slot_widths b))
      (pread-pwrite_disjoint d.disk (slot_off d j) 64 (slot_off d i) (slot_bytes s)
        (rw (length-slot_bytes s) (apart (d.st.index_start_sec * sec) i j ne)))

pub rd_slot-wr_slot :
    (d : Dev) (i j : ℕ) (s : Slot)
    → SlotFits s
    → rd_slot (wr_slot d i s) j ≡ (if i == j then s else rd_slot d j)
rd_slot-wr_slot d i j s f = elim (ℕ_discrete i j) [
  | yes e ↦ ground (arith, rd_slot-wr_same d i s f)
  | no ne ↦ ground (arith, rd_slot-wr_ne d i j s ne)
]

-- A range behind sector 19 is not touched by a flush.
pub pread-flush :
    (d : Dev) (off n : ℕ) → 9728 ≤ off → pread (flush d).disk off n ≡ pread d.disk off n
unfolding flush
pread-flush d off n h =
    behind _ 1536 st (omega (arith, length-st))
    ∙ behind _ 512 sb (omega (arith, length-sb))
    ∙ behind _ 5632 st (omega (arith, length-st))
    ∙ behind _ 1024 sb (omega (arith, length-sb))
  where
    sb : List ℕ
    sb = sb_bytes (seal_sb d.sb)

    st : List ℕ
    st = st_bytes (seal_st d.st)

    length-sb : length sb ≡ 512
    length-sb = length-encode sb_widths (sb_values (seal_sb d.sb))

    length-st : length st ≡ 4096
    length-st = length-encode st_widths (st_values (seal_st d.st))

    behind :
        (e : Disk) (at : ℕ) (bs : List ℕ)
        → at + length bs ≤ off
        → pread (pwrite e at bs) off n ≡ pread e off n
    behind e at bs le = pread-pwrite_disjoint e off n at bs (inr le)

pub rd_slot-flush :
    (d : Dev) (j : ℕ) → 19 ≤ d.st.index_start_sec → rd_slot (flush d) j ≡ rd_slot d j
unfolding rd_slot flush seal_st
rd_slot-flush d j h =
    ap (λ b. slot_of (decode slot_widths b)) (pread-flush d (slot_off d j) 64 (omega arith))

-- Where the index ends.
abbrev pub index_end : Dev → ℕ
index_end d = d.st.index_start_sec * sec + d.st.index_slot_count * 64

-- A slot of the index that is written leaves what lies behind the index alone.
pub wr_slot_above :
    (d : Dev) (i : ℕ) (s : Slot) (q : ℕ)
    → i < d.st.index_slot_count
    → index_end d ≤ q
    → (wr_slot d i s).disk q ≡ d.disk q
unfolding wr_slot
wr_slot_above d i s q lt h =
    pwrite_outside d.disk (slot_off d i) (slot_bytes s) q (inr (omega (arith, length-slot_bytes s)))

pub flush_above : (d : Dev) (q : ℕ) → 9728 ≤ q → (flush d).disk q ≡ d.disk q
unfolding pread
flush_above d q h = ap (λ l. get_or l 0 0) (pread-flush d q 1 h)
