-- ===== src/Recorder/Index.antt =====
-- The index ring of components/recorder/src/rsdk_index.c: 64-byte slots on the raw disk.
pub mod Slots
pub mod Upsert
pub mod Sort
pub mod Query
pub mod Reclaim
use nt.Prelude.{
  ℕ, zero, suc, ◌+◌, ◌-◌, ◌*◌, ◌/◌, ◌%◌, ◌^◌, List, [], ◌∷◌, Bool, true, false, Option, none, some,
  ltb, leb, ◌==◌, ◌&&◌, ◌||◌, not, if◌then◌else◌, u32, has_bit, length,
}
use nt.Prelude.Int.{ℤ, pos, negsuc}
use nt.Prelude.Bytes.{Disk, pread, pwrite, encode, decode}
use nt.Recorder.Types.{Err, ok, notfound, Slot, slot_widths, slot_values, slot_of}
use nt.Recorder.Util.{crc32}
use nt.Recorder.Layout.{sec}
use nt.Recorder.Device.{Dev, flush}

abbrev pub no_time : ℕ
no_time = 0xFFFFFFFF

abbrev pub slot_off : Dev → ℕ → ℕ
slot_off d i = d.st.index_start_sec * sec + i * 64

abbrev pub slot_bytes : Slot → List ℕ
slot_bytes s = encode slot_widths (slot_values s)

unfoldable pub rd_slot : Dev → ℕ → Slot
rd_slot d i = slot_of (decode slot_widths (pread d.disk (slot_off d i) 64))

unfoldable pub wr_slot : Dev → ℕ → Slot → Dev
wr_slot d i s = record d { disk = pwrite d.disk (slot_off d i) (slot_bytes s) }

-- The checksum that a slot should have.
unfoldable pub slot_crc : Slot → ℕ
slot_crc s = crc32 (slot_bytes (record s { crc32 = 0 }))

unfoldable pub seal_slot : Slot → Slot
unfolding slot_crc
seal_slot s = record s { crc32 = slot_crc s }

-- RSDK_SLOT_VALID is bit 0 and RSDK_SLOT_OPEN is bit 2.
unfoldable pub is_valid : Slot → Bool
is_valid s = has_bit s.flags 0

unfoldable pub is_live : Slot → Bool
is_live s = has_bit s.flags 0 || has_bit s.flags 2

-- The slot that the `k`-th step back from the write position looks at.
abbrev pub slot_back : Dev → ℕ → ℕ
slot_back d k = u32 (d.st.index_next + d.st.index_slot_count - k) % d.st.index_slot_count

-- The loop that looks back for a segment, `rounds` steps from step `k` on.
unfoldable pub scan_back : Dev → ℕ → ℕ → ℕ → Option ℕ
scan_back d seg zero k = none
scan_back d seg (suc rounds) k =
    let i = slot_back d k in
    let cur = rd_slot d i in
    let rest = scan_back d seg rounds (k + 1) in
    if is_live cur && cur.seg_id == seg
    then some i
    else if cur.flags == 0 && cur.seg_id == 0
    then none
    else rest

unfoldable pub find_back : Dev → ℕ → Option ℕ
find_back d seg =
    scan_back d seg (if ltb d.st.index_slot_count 8192 then d.st.index_slot_count else 8192) 1

-- A slot at the write position, which moves on round the ring.
unfoldable pub append_slot : Dev → Slot → Dev
append_slot d s = record (wr_slot d d.st.index_next s) {
  st = record d.st { index_next = u32 (d.st.index_next + 1) % d.st.index_slot_count };
}

unfoldable pub index_write : Dev → Slot → Err × Dev
index_write d s = elim (find_back d s.seg_id) [
  | some i ↦ (ok, wr_slot d i (seal_slot s))
  | none ↦ (ok, flush (append_slot d (seal_slot s)))
]

-- A negative filter lets everything through.
abbrev pub passes : ℤ → ℕ → Bool
passes (pos c) x = x == c
passes (negsuc _) x = true

-- The tests of the query's loop; `t1` is the end after 0 was replaced.
unfoldable pub selects : ℕ → ℕ → ℤ → ℤ → Slot → Bool
selects t0 t1 chn rectype s =
    let e = if s.end_time == no_time then t1 else s.end_time in
    is_valid s
    && slot_crc s == s.crc32
    && not (ltb e t0 || ltb t1 s.start_time)
    && passes chn s.chn
    && passes rectype s.rectype

-- `rounds` slots from `i` on, of which at most `cap` are copied.
unfoldable pub collect : (Slot → Bool) → Dev → ℕ → ℕ → ℕ → List Slot
collect p d zero i cap = []
collect p d (suc rounds) i cap =
    let s = rd_slot d i in
    let keep = s ∷ collect p d rounds (i + 1) (cap - 1) in
    let skip = collect p d rounds (i + 1) cap in if cap == 0 then [] else if p s then keep else skip

-- The inner loop of the exchange sort: the first element against each of the others.
unfoldable pub sweep : Slot → List Slot → Slot × List Slot
sweep x [] = (x, [])
sweep x (y ∷ ys) =
    let (m, r) = sweep (if ltb y.start_time x.start_time then y else x) ys in
    (m, (if ltb y.start_time x.start_time then x else y) ∷ r)

-- The outer loop, for `n` elements.
unfoldable pub sort_by_start : ℕ → List Slot → List Slot
sort_by_start zero xs = xs
sort_by_start (suc n) [] = []
sort_by_start (suc n) (x ∷ xs) = let (m, r) = sweep x xs in m ∷ sort_by_start n r

abbrev pub last_time : ℕ → ℕ
last_time t1 = if t1 == 0 then no_time else t1

unfoldable pub index_query : Dev → ℕ → ℕ → ℤ → ℤ → ℕ → List Slot
index_query d t0 t1 chn rectype cap =
    let found = collect (selects t0 (last_time t1) chn rectype) d d.st.index_slot_count 0 cap in
    sort_by_start (length found) found

-- A slot that is cleared: no flags, and the checksum of that.
unfoldable pub clear_slot : Slot → Slot
clear_slot s = seal_slot (record s { flags = 0 })

unfoldable pub invalidate_loop : Dev → ℕ → ℕ → ℕ → ℕ → ℕ × Dev
invalidate_loop d chunk zero i cleared = (cleared, d)
invalidate_loop d chunk (suc rounds) i cleared =
    let s = rd_slot d i in
    let hit = is_live s && s.start_chunk == chunk in
    invalidate_loop (if hit then wr_slot d i (clear_slot s) else d) chunk rounds (i + 1)
      (if hit then cleared + 1 else cleared)

unfoldable pub index_invalidate_chunk : Dev → ℕ → ℕ × Dev
index_invalidate_chunk d chunk = invalidate_loop d chunk d.st.index_slot_count 0 0

-- The earliest start so far, and whether there is one.
unfoldable pub earliest_loop : Dev → ℕ → ℕ → ℕ → Bool → ℕ × Bool
earliest_loop d zero i best any = (best, any)
earliest_loop d (suc rounds) i best any =
    let s = rd_slot d i in
    let hit = is_valid s && ltb s.start_time best in
    earliest_loop d rounds (i + 1) (if hit then s.start_time else best) (if hit then true else any)

unfoldable pub index_earliest : Dev → Err × Option ℕ
index_earliest d =
    let (best, any) = earliest_loop d d.st.index_slot_count 0 no_time false in
    if any then (ok, some best) else (notfound, none)
