-- ===== src/Recorder/Tests.antt =====
-- A small disk, a segment on it and each theorem of the recorder at them.
use nt.Prelude.{
  leb, get_elem?, ℕ, zero, suc, ◌+◌, ◌*◌, ◌/◌, ◌%◌, ◌≤◌, ◌<◌, ◌≡◌, ◌⊎◌, refl, arith, List, [], ◌∷◌,
  true, false, none, some, get_or, take, if◌then◌else◌, ltb, ◌==◌, ◌&&◌, u32, u64,
}
use nt.Prelude.Int.{pos, negsuc}
use nt.Prelude.Bytes.{blank}
use mathlib.Core.List.{Perm}
use nt.Recorder.Types.{ok, SuperBlock, SysTab, Slot, Frame, sb_of, st_of, slot_of}
use nt.Recorder.Layout.{
  sec, sb_magic, st_magic, sub64, seal_sb, seal_st, FormatEnv, FormatOpt, compute_layout,
  layout_round, chunk_bytes_of,
}
use nt.Recorder.Layout.Regions.{Regions, compute_layout-Regions}
use nt.Recorder.Device.{Dev, Cipher, dev_open, flush, alloc_chunk, is_wrapped}
use nt.Recorder.Device.Alloc.{
  alloc_many, ring_from, alloc_many-ring, alloc_many-not_wrapped, alloc_chunk-in_data,
}
use nt.Recorder.Device.Persist.{dev_open-flush}
use nt.Recorder.Index.{
  rd_slot, index_write, index_query, seal_slot, is_live, selects, last_time, clear_slot,
  index_invalidate_chunk,
}
use nt.Recorder.Index.Upsert.{target, next_after, index_write-slots}
use nt.Recorder.Index.Sort.{IsSorted}
use nt.Recorder.Index.Query.{index_query_lem, select, all_slots}
use nt.Recorder.Index.Reclaim.{on_chunk, invalidate-slots}
use nt.Recorder.Group.{Group, Loads, dev_load, best_load, candidates, balance_pick, group_query}
use nt.Recorder.Group.Pick.{NoneBelow, balance_pick-least}
use nt.Recorder.Group.Query.{of_disks, group_query_lem}
use nt.Recorder.Writer.{Writer, fresh, fill_slot, rec_close}
use nt.Recorder.Writer.Frames.{IsReady, write_many}
use nt.Recorder.Player.{play_open}
use nt.Recorder.Player.RoundTrip.{IsFrame, play_all, expected}
use nt.Recorder.Player.Played.{play-rec}

-- Four data chunks of 4 KiB behind sector 64, one chunk of metadata, an index of 8 slots.
abbrev sb0 : SuperBlock
sb0 = record (sb_of []) {
  magic = sb_magic;
  data_start_sec = 64;
  chunk_sectors = 8;
  chunk_count = 5;
  meta_start_chunk = 4;
  meta_chunk_count = 1;
  write_ptr_chunk = 1;
  seq_epoch = 1;
}

abbrev st0 : SysTab
st0 = record (st_of []) {
  magic = st_magic;
  index_start_sec = 20;
  index_slot_count = 8;
  index_next = 2;
  meta_bytes = 4096;
  meta_next_off = 32;
}

abbrev pub aes0 : Cipher
aes0 block = 17 ∷ 200 ∷ 3 ∷ []

abbrev pub dev0 : Dev
dev0 = record {
  disk = blank;
  sb = sb0;
  st = st0;
  crypto = some aes0;
  chunk_bytes = 4096;
  data_chunks = 4;
  meta_base = 49152;
}

abbrev full0 : Dev
full0 = record dev0 { sb = record sb0 { hdd_full = 1 } }

abbrev opt0 : FormatOpt
opt0 = record {
  feature_mask = 0;
  slots_per_chunk = 0;
  chunk_mib = 128;
  hdd_full = 0;
  format_time = 7;
}

abbrev env0 : FormatEnv
env0 = record {
  cfg_mask = 2;
  cfg_slots = 4;
  cfg_hdd_full = 0;
  meta_share = λ cc. cc / 100;
  disk_uuid = 5;
  kdf_salt = 6;
  wrapped_dek = 7;
  dek_kcv = 8;
}

abbrev slot0 : Slot
slot0 = record (slot_of []) {
  seg_id = 9;
  flags = 1;
  start_time = 100;
  end_time = 200;
  start_chunk = 1;
}

abbrev slot1 : Slot
slot1 = record slot0 { seg_id = 10; start_time = 50 }

compute_layout-Regions_example : Regions 262144 (chunk_bytes_of 8) (compute_layout 262144 8 4)
unfolding compute_layout layout_round
compute_layout-Regions_example =
    compute_layout-Regions 262144 8 4 (omega arith) (omega arith) (omega arith) (omega arith)
      (omega arith)

alloc_many-ring_example : (alloc_many 6 dev0).0 ≡ ring_from 4 1 6
alloc_many-ring_example = alloc_many-ring 6 dev0 (omega arith) (omega arith)

alloc_many-not_wrapped_example : is_wrapped (alloc_many 6 full0).1 ≡ false
unfolding is_wrapped
alloc_many-not_wrapped_example = alloc_many-not_wrapped 6 full0 refl refl

-- The sixth chunk from place 1 on is the second of the next round.
alloc_chunk-in_data_example : (2 < 4) × (64 * sec ≤ 40960) × (40960 + 4096 ≤ 49152)
unfolding alloc_many alloc_chunk
alloc_chunk-in_data_example = alloc_chunk-in_data 5 dev0 (omega arith) refl (omega arith) refl

index_write-slots_example :
    (rd_slot (index_write dev0 slot0).1 3
      ≡ (if target dev0 9 == 3 then seal_slot slot0 else rd_slot dev0 3))
    × ((index_write dev0 slot0).1.st.index_next ≡ next_after dev0 9)
    × (((is_live (rd_slot dev0 (target dev0 9)) ≡ true)
          × ((rd_slot dev0 (target dev0 9)).seg_id ≡ 9)
          × (next_after dev0 9 ≡ 2))
        ⊎ ((target dev0 9 ≡ 2) × (next_after dev0 9 ≡ u32 (2 + 1) % 8)))
index_write-slots_example = index_write-slots dev0 slot0 3 (ground arith) (omega arith)

dev_open-flush_example : dev_open (λ sb. some aes0) (flush dev0).disk ≡ (
  ok,
  some (record {
    disk = (flush dev0).disk;
    sb = seal_sb sb0;
    st = seal_st st0;
    crypto = none;
    chunk_bytes = u64 (8 * sec);
    data_chunks = sub64 5 1;
    meta_base = u64 (64 * sec + 4 * u64 (8 * sec));
  }),
)
dev_open-flush_example =
    dev_open-flush (λ sb. some aes0) dev0 (ground arith) (ground arith) refl refl refl

index_query_lem_example :
    Perm
      (index_query dev0 10 300 (pos 0) (negsuc 0) 2)
      (take 2 (select (selects 10 (last_time 300) (pos 0) (negsuc 0)) (all_slots dev0)))
    × IsSorted (index_query dev0 10 300 (pos 0) (negsuc 0) 2)
index_query_lem_example = index_query_lem dev0 10 300 (pos 0) (negsuc 0) 2

invalidate-slots_example : rd_slot (index_invalidate_chunk dev0 1).1 2 ≡ (
    if ltb 2 8 && on_chunk 1 (rd_slot dev0 2) then clear_slot (rd_slot dev0 2) else rd_slot dev0 2)
invalidate-slots_example = invalidate-slots dev0 1 2 (λ q. omega arith)

pub aes0-bytes : (block : List ℕ) (k : ℕ) → get_or (aes0 block) k 0 < 256
aes0-bytes block zero = omega arith
aes0-bytes block (suc zero) = omega arith
aes0-bytes block (suc (suc zero)) = omega arith
aes0-bytes block (suc (suc (suc k))) = omega arith

abbrev pub frame0 : Frame
frame0 = record {
  chn = 1;
  stream = 0;
  codec = 1;
  frame_type = 1;
  pts = 40;
  wall_time = 1000;
  bytes = 1 ∷ 2 ∷ 3 ∷ [];
}

abbrev pub writer0 : Writer
writer0 = record (fresh dev0 1 0) { seg_id = 16777217; chunk = 1; base_off = 36864 }

pub writer0-IsReady : IsReady writer0
writer0-IsReady = record {
  behind = omega arith;
  next_in = omega arith;
  above = omega arith;
  small = omega arith;
  inside = omega arith;
  counted = refl;
  fresh = λ e. refl;
  numbered = omega arith;
}

pub frame0-IsFrame : IsFrame frame0
frame0-IsFrame = record {
  chn = omega arith;
  stream = omega arith;
  codec = omega arith;
  frame_type = omega arith;
  pts = omega arith;
  wall_time = omega arith;
  filled = omega arith;
  bytes = (omega arith, (omega arith, (omega arith, tt)));
}

play-rec_example :
    ((write_many writer0 (frame0 ∷ frame0 ∷ [])).0 ≡ ok)
    × ((rec_close (write_many writer0 (frame0 ∷ frame0 ∷ [])).1).0 ≡ ok)
    × (play_all 3 (
          play_open
            (rec_close (write_many writer0 (frame0 ∷ frame0 ∷ [])).1).1
            (fill_slot (write_many writer0 (frame0 ∷ frame0 ∷ [])).1 true))
        ≡ expected (some aes0) 16777217 0 (frame0 ∷ frame0 ∷ []))
play-rec_example =
    play-rec writer0 (frame0 ∷ frame0 ∷ []) writer0-IsReady refl refl refl refl (omega arith)
      aes0-bytes (frame0-IsFrame, (frame0-IsFrame, tt)) (omega arith) (omega arith)

-- Two disks, of which each has a live slot.
abbrev group0 : Group
group0 = record { devs = (index_write dev0 slot0).1 ∷ (index_write dev0 slot1).1 ∷ []; rr = 0 }

group_query_lem_example :
    Perm
      (group_query group0 0 0 (negsuc 0) (negsuc 0) 8)
      (of_disks 0 0 (negsuc 0) (negsuc 0) group0.devs 0 8)
    × IsSorted (group_query group0 0 0 (negsuc 0) (negsuc 0) 8)
group_query_lem_example = group_query_lem group0 0 0 (negsuc 0) (negsuc 0) 8

-- Loads in thousandths.
abbrev loads0 : Loads ℕ
loads0 = record {
  quotient = λ a b. a * 1000 / b;
  one = 1000;
  two = 2000;
  less = ltb;
  at_most = leb;
  add_eps = λ x. x + 1;
}

more0 : (x : ℕ) → leb x (x + 1) ≡ true
more0 x = ground arith

order0 : (x a b : ℕ) → ltb x b ≡ false → ltb a b ≡ true → ltb x a ≡ false
order0 x a b h k = ground (arith, h, k)

irreflexive0 : (x : ℕ) → ltb x x ≡ false
irreflexive0 x = ground arith

-- A disk that is written all round, and one that is half full.
abbrev busy0 : Group
busy0 = record {
  devs = record dev0 { sb = record sb0 { write_ptr_chunk = 4 } } ∷ dev0 ∷ [];
  rr = 5;
}

balance_pick-least_example :
    (c : ℕ) × (e : Dev) × (m : ℕ) × ((balance_pick loads0 busy0).0 ≡ some c)
    × (get_elem? busy0.devs c ≡ some e)
    × NoneBelow loads0 busy0.devs m
    × (leb (dev_load loads0 e) (m + 1) ≡ true)
unfolding dev_load
balance_pick-least_example =
    balance_pick-least loads0 (record dev0 { sb = record sb0 { write_ptr_chunk = 4 } }) (dev0 ∷ [])
      5 more0 order0 irreflexive0 refl

-- The second disk is picked, and the counter goes on.
balance_pick_test :
    ((balance_pick loads0 busy0).0 ≡ some 1) × ((balance_pick loads0 busy0).1.rr ≡ 6)
unfolding balance_pick best_load candidates dev_load
balance_pick_test = (refl, refl)
