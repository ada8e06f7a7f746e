-- ===== src/Recorder/Device.antt =====
-- The open disk of components/recorder/src/rsdk_storgedev.c. The functions that change `*d` return
-- the new device. The raw device neither fails nor is cut short.
pub mod Alloc
pub mod Persist
use nt.Prelude.{
  ℕ, zero, suc, ◌+◌, ◌-◌, ◌*◌, ◌/◌, ◌%◌, List, [], ◌∷◌, Bool, true, false, Option, none, some, ltb,
  leb, ◌==◌, ◌&&◌, not, if◌then◌else◌, u64,
}
use nt.Prelude.Bytes.{Disk, pread, pwrite, encode, decode}
use nt.Recorder.Types.{
  Err, ok, param, nospace, crypto, format, corrupt, SuperBlock, SysTab, sb_widths, sb_values, sb_of,
  st_widths, st_values, st_of,
}
use nt.Recorder.Util.{crc32, align_up64}
use nt.Recorder.Layout.{
  sec, sb_main_sec, sb_bak_sec, st_main_sec, st_bak_sec, sb_magic, st_magic, sub64, seal_sb,
  seal_st,
}

-- AES under the device's key: one block of 16 bytes.
abbrev pub Cipher : Type 0
Cipher = List ℕ → List ℕ

pub record Dev : Type 0 where
  pub disk : Disk
  pub sb : SuperBlock
  pub st : SysTab
  pub crypto : Option Cipher
  pub chunk_bytes : ℕ
  pub data_chunks : ℕ
  pub meta_base : ℕ

abbrev pub sb_bytes : SuperBlock → List ℕ
sb_bytes s = encode sb_widths (sb_values s)

abbrev pub st_bytes : SysTab → List ℕ
st_bytes t = encode st_widths (st_values t)

read_sb : Disk → ℕ → SuperBlock
read_sb d s = sb_of (decode sb_widths (pread d (s * sec) 512))

read_st : Disk → ℕ → SysTab
read_st d s = st_of (decode st_widths (pread d (s * sec) 4096))

-- The superblock: the main copy, or the backup where the main has no magic.
unfoldable pub load_sb : Disk → Option SuperBlock
unfolding read_sb
load_sb d =
    let main = read_sb d sb_main_sec in
    let bak = read_sb d sb_bak_sec in
    if main.magic == sb_magic then some main else if bak.magic == sb_magic then some bak else none

unfoldable pub load_st : Disk → SysTab
unfolding read_st
load_st d =
    let main = read_st d st_main_sec in
    if main.magic == st_magic then main else read_st d st_bak_sec

mount : (SuperBlock → Option Cipher) → Disk → SuperBlock → Dev
mount unlock d sb = record {
  disk = d;
  sb = sb;
  st = load_st d;
  crypto = if sb.enc_algo == 1 then unlock sb else none;
  chunk_bytes = u64 (sb.chunk_sectors * sec);
  data_chunks = sub64 sb.chunk_count sb.meta_chunk_count;
  meta_base = u64 (sb.data_start_sec * sec + sb.meta_start_chunk * u64 (sb.chunk_sectors * sec));
}

-- `unlock` derives the key from the salt and unwraps the data key; `none` where it does not fit.
unfoldable pub dev_open : (SuperBlock → Option Cipher) → Disk → Err × Option Dev
unfolding mount
dev_open unlock d = elim (load_sb d) [
  | none ↦ (format, none)
  | some sb ↦
      if (seal_sb sb).sb_crc32 == sb.sb_crc32
      then (ok, some (mount unlock d sb))
      else (corrupt, none)
]

-- The backups are written first, then the main copies.
unfoldable pub flush : Dev → Dev
flush d =
    let sb = seal_sb d.sb in
    let st = seal_st d.st in
    let d1 = pwrite d.disk (sb_bak_sec * sec) (sb_bytes sb) in
    let d2 = pwrite d1 (st_bak_sec * sec) (st_bytes st) in
    let d3 = pwrite d2 (sb_main_sec * sec) (sb_bytes sb) in
    let d4 = pwrite d3 (st_main_sec * sec) (st_bytes st) in record d { disk = d4; sb = sb; st = st }

-- The policy when the disk is full: 0 overwrites the oldest chunk, 1 stops.
abbrev pub stops : Dev → Bool
stops d = d.sb.hdd_full == 1

-- The next chunk of the data ring, and where it starts.
unfoldable pub alloc_chunk : Dev → Err × ℕ × ℕ × Dev
alloc_chunk d =
    let c = d.sb.write_ptr_chunk in
    let next = c + 1 in
    let off = u64 (d.sb.data_start_sec * sec + c * d.chunk_bytes) in
    let on = record d { sb = record d.sb { write_ptr_chunk = next } } in
    let round = record d {
      sb = record d.sb { write_ptr_chunk = 0; seq_epoch = d.sb.seq_epoch + 1 };
    } in
    if d.data_chunks == 0
    then (nospace, 0, 0, d)
    else if stops d && leb d.data_chunks c
    then (nospace, 0, 0, d)
    else (ok, c, off, if leb d.data_chunks next then (if stops d then on else round) else on)

unfoldable pub is_wrapped : Dev → Bool
is_wrapped d = ltb 1 d.sb.seq_epoch

-- `size` bytes of the metadata region, rounded up to 16, as a ring.
unfoldable pub meta_alloc : Dev → ℕ → Err × ℕ × Dev
unfolding flush
meta_alloc d size =
    let n = align_up64 size 16 in
    let at = if ltb d.st.meta_bytes (u64 (d.st.meta_next_off + n)) then 0 else d.st.meta_next_off in
    if d.st.meta_bytes == 0
    then (nospace, 0, d)
    else if ltb d.st.meta_bytes n
    then (nospace, 0, d)
    else (
      ok,
      u64 (d.meta_base + at),
      flush (record d { st = record d.st { meta_next_off = at + n } }),
    )

-- rsdk_dev_info_t.
pub record DevInfo : Type 0 where
  pub total_sectors : ℕ
  pub chunk_count : ℕ
  pub chunk_sectors : ℕ
  pub data_start_sec : ℕ
  pub meta_chunk_count : ℕ
  pub free_chunks : ℕ
  pub feature_mask : ℕ
  pub enc_algo : ℕ
  pub hdd_full : ℕ

unfoldable pub dev_info : Dev → DevInfo
dev_info d = record {
  total_sectors = d.sb.total_sectors;
  chunk_count = d.sb.chunk_count;
  chunk_sectors = d.sb.chunk_sectors;
  data_start_sec = d.sb.data_start_sec;
  meta_chunk_count = d.sb.meta_chunk_count;
  free_chunks = d.data_chunks;
  feature_mask = d.sb.feature_mask;
  enc_algo = d.sb.enc_algo;
  hdd_full = d.sb.hdd_full;
}

-- `rewrap` unwraps the data key and wraps it under a new salt: the wrapped key, its check value and
-- the salt, or none where the old key does not fit.
unfoldable pub rekey : (SuperBlock → Option (ℕ × ℕ × ℕ)) → Dev → Err × Dev
unfolding flush
rekey rewrap d =
    if d.sb.enc_algo == 1
    then (elim (rewrap d.sb) [
      | none ↦ (crypto, d)
      | some (wrapped, kcv, salt) ↦ (
        ok,
        flush (record d {
          sb = record d.sb { wrapped_dek = wrapped; dek_kcv = kcv; kdf_salt = salt };
        }),
      )
    ])
    else (param, d)
