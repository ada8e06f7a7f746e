-- ===== src/Recorder/Layout.antt =====
-- `pick_chunk_mib`, `compute_layout` and `rsdk_format` of components/recorder/src/rsdk_storgedev.c.
-- The floating-point share of the metadata region and the random and key material are parameters.
pub mod Regions
pub mod Oversized
use nt.Prelude.{
  ℕ, zero, suc, ◌+◌, ◌-◌, ◌*◌, ◌/◌, ◌%◌, ◌^◌, List, [], ◌∷◌, Bool, true, false, Option, none, some,
  ltb, leb, ◌==◌, ◌&&◌, if◌then◌else◌, u32, u64, has_bit, replicate,
}
use nt.Prelude.Bytes.{Disk, pwrite, encode}
use nt.Recorder.Types.{
  Err, ok, nospace, SuperBlock, SysTab, ChnState, sb_widths, sb_values, st_widths, st_values,
}
use nt.Recorder.Util.{crc32, align_up64}

abbrev pub sec : ℕ
sec = 512

abbrev pub sb_main_sec : ℕ
sb_main_sec = 1

abbrev pub sb_bak_sec : ℕ
sb_bak_sec = 2

abbrev pub st_main_sec : ℕ
st_main_sec = 3

abbrev pub st_bak_sec : ℕ
st_bak_sec = 11

abbrev pub bitmap_sec : ℕ
bitmap_sec = 19

-- "RSDK01" and two zero bytes, little-endian.
abbrev pub sb_magic : ℕ
sb_magic = 0x000031304B445352

abbrev pub st_magic : ℕ
st_magic = 0x42415453

-- `a - b` in uint64_t.
abbrev pub sub64 : ℕ → ℕ → ℕ
sub64 a b = u64 (a + 18446744073709551616 - u64 b)

unfoldable pub pick_chunk_mib : ℕ → ℕ → ℕ
pick_chunk_mib total_bytes req =
    if req == 0
    then (if leb total_bytes 4398046511104
        then 8
        else if leb total_bytes 17592186044416
        then 16
        else 32)
    else req

pub record Layout : Type 0 where
  pub chunk_count : ℕ
  pub bitmap_sectors : ℕ
  pub index_sectors : ℕ
  pub data_start_sec : ℕ

-- The body of the loop, in uint64_t: from one chunk count to the regions that it needs, and the next
-- count.
unfoldable pub layout_round : ℕ → ℕ → ℕ → ℕ → Layout
layout_round total chunk slots cc =
    let bitmap_bytes = u64 (cc * 2 + 7) / 8 * 2 in
    let index_bytes = u64 (cc * slots * 64) in
    let bm = align_up64 bitmap_bytes sec / sec in
    let ix = align_up64 index_bytes sec / sec in
    let rsv_end = u64 ((bitmap_sec + bm + ix) * sec) in
    let ds = align_up64 rsv_end chunk / sec in
    record {
      chunk_count = sub64 total (ds * sec) / chunk;
      bitmap_sectors = bm;
      index_sectors = ix;
      data_start_sec = ds;
    }

layout_loop : ℕ → ℕ → ℕ → ℕ → Layout → Layout
layout_loop zero total chunk slots l = l
layout_loop (suc n) total chunk slots l =
    layout_loop n total chunk slots (layout_round total chunk slots l.chunk_count)

abbrev pub chunk_bytes_of : ℕ → ℕ
chunk_bytes_of chunk_mib = chunk_mib * 1048576

unfoldable pub compute_layout : ℕ → ℕ → ℕ → Layout
unfolding layout_loop
compute_layout total_sectors chunk_mib slots =
    let total = u64 (total_sectors * sec) in
    let chunk = chunk_bytes_of chunk_mib in
    layout_loop 4 total chunk slots (record {
      chunk_count = total / chunk;
      bitmap_sectors = 0;
      index_sectors = 0;
      data_start_sec = 0;
    })

-- `rsdk_format_opt_t`; a null pointer is `none`.
pub record FormatOpt : Type 0 where
  pub feature_mask : ℕ
  pub slots_per_chunk : ℕ
  pub chunk_mib : ℕ
  pub hdd_full : ℕ
  pub format_time : ℕ

-- The build's configuration, `(uint64_t)(cc * mratio / 100.0)`, and the random and key material.
pub record FormatEnv : Type 0 where
  pub cfg_mask : ℕ
  pub cfg_slots : ℕ
  pub cfg_hdd_full : ℕ
  pub meta_share : ℕ → ℕ
  pub disk_uuid : ℕ
  pub kdf_salt : ℕ
  pub wrapped_dek : ℕ
  pub dek_kcv : ℕ

-- The checksum fields are computed over the struct with the field at 0.
unfoldable pub seal_sb : SuperBlock → SuperBlock
seal_sb s = record s { sb_crc32 = crc32 (encode sb_widths (sb_values (record s { sb_crc32 = 0 }))) }

unfoldable pub seal_st : SysTab → SysTab
seal_st t = record t { crc32 = crc32 (encode st_widths (st_values (record t { crc32 = 0 }))) }

abbrev pub option_or : Option FormatOpt → (FormatOpt → ℕ) → ℕ → ℕ
option_or none field d = d
option_or (some o) field d = if field o == 0 then d else field o

unfoldable pub feature_mask_of : FormatEnv → Option FormatOpt → ℕ
feature_mask_of env opt = option_or opt (λ o. o.feature_mask) env.cfg_mask

unfoldable pub layout_of : FormatEnv → ℕ → Option FormatOpt → Layout
layout_of env sectors opt =
    compute_layout sectors
      (pick_chunk_mib (u64 (sectors * sec)) (option_or opt (λ o. o.chunk_mib) 0))
      (option_or opt (λ o. o.slots_per_chunk) env.cfg_slots)

-- Bit 1 of the mask is RSDK_FEAT_METADATA.
unfoldable pub meta_chunks : FormatEnv → ℕ → ℕ → ℕ
meta_chunks env fmask cc =
    if has_bit fmask 1
    then (let m = env.meta_share cc in if m == 0 && ltb 4 cc then 1 else m)
    else 0

unfoldable pub format_sb : FormatEnv → ℕ → Option FormatOpt → SuperBlock
unfolding feature_mask_of layout_of meta_chunks
format_sb env sectors opt =
    let fmask = feature_mask_of env opt in
    let l = layout_of env sectors opt in
    let meta_cc = meta_chunks env fmask l.chunk_count in
    let enc = has_bit fmask 0 in
    seal_sb (record {
      magic = sb_magic;
      version = 1;
      sb_crc32 = 0;
      disk_uuid = env.disk_uuid;
      group_uuid = 0x31707267;
      group_disk_index = 0;
      group_disk_count = 1;
      total_sectors = sectors;
      rsv_start_sec = 1;
      data_start_sec = l.data_start_sec;
      chunk_sectors =
          chunk_bytes_of (pick_chunk_mib (u64 (sectors * sec)) (option_or opt (λ o. o.chunk_mib) 0))
          / sec;
      chunk_count = l.chunk_count;
      write_ptr_chunk = 0;
      seq_epoch = 1;
      feature_mask = fmask;
      rsvf = 0;
      meta_start_chunk = sub64 l.chunk_count meta_cc;
      meta_chunk_count = meta_cc;
      enc_algo = if enc then 1 else 0;
      enc_flags = 0;
      hdd_full = elim opt [ none ↦ env.cfg_hdd_full | some o ↦ o.hdd_full ];
      rsv0 = 0;
      kdf_salt = if enc then env.kdf_salt else 0;
      wrapped_dek = if enc then env.wrapped_dek else 0;
      dek_kcv = if enc then env.dek_kcv else 0;
      pad = 0;
    })

unfoldable pub format_st : FormatEnv → ℕ → Option FormatOpt → SysTab
format_st env sectors opt =
    let l = layout_of env sectors opt in
    let sb = format_sb env sectors opt in
    seal_st (record {
      magic = st_magic;
      sys_version = 1;
      systab_size = 4096;
      crc32 = 0;
      format_time = elim opt [ none ↦ 0 | some o ↦ o.format_time ];
      bitmap_start_sec = bitmap_sec;
      bitmap_sectors = l.bitmap_sectors;
      index_start_sec = bitmap_sec + l.bitmap_sectors;
      index_sectors = l.index_sectors;
      index_slot_size = 64;
      index_slot_count = u32 (u64 (l.index_sectors * sec) / 64);
      index_next = 0;
      rsvi = 0;
      meta_next_off = 0;
      meta_bytes = u64 (sb.meta_chunk_count * (sb.chunk_sectors * sec));
      chn = replicate 32 (record { cur_chunk = 0; cur_off = 0; seg_seq = 0 });
      rsv = 0;
    })

-- Sectors `s`, `s + 1`, … of zeros.
unfoldable pub zero_sectors : ℕ → ℕ → Disk → Disk
zero_sectors zero s d = d
zero_sectors (suc n) s d = zero_sectors n (s + 1) (pwrite d (s * sec) (replicate 512 0))

unfoldable pub format : FormatEnv → ℕ → Option FormatOpt → Disk → Err × Disk
format env sectors opt d =
    let sb = encode sb_widths (sb_values (format_sb env sectors opt)) in
    let table = format_st env sectors opt in
    let st = encode st_widths (st_values table) in
    let d1 = pwrite d 0 (replicate 512 0) in
    let d2 = pwrite d1 (sb_main_sec * sec) sb in
    let d3 = pwrite d2 (sb_bak_sec * sec) sb in
    let d4 = pwrite d3 (st_main_sec * sec) st in
    let d5 = pwrite d4 (st_bak_sec * sec) st in
    let d6 = zero_sectors (table.bitmap_sectors + table.index_sectors) bitmap_sec d5 in
    if ltb sectors 131072 then (nospace, d) else (ok, d6)
