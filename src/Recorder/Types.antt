-- ===== src/Recorder/Types.antt =====
-- The on-disk structs and the return codes of components/recorder/include/rsdk_types.h.
-- A byte array that the code only copies is the number that its bytes make.
use nt.Prelude.{ℕ, zero, suc, List, [], ◌∷◌, get_or, drop}

pub data Err : Type 0 where
  ok io param notfound corrupt nospace db crypto format busy : Err

pub record SuperBlock : Type 0 where
  pub magic : ℕ
  pub version : ℕ
  pub sb_crc32 : ℕ
  pub disk_uuid : ℕ
  pub group_uuid : ℕ
  pub group_disk_index : ℕ
  pub group_disk_count : ℕ
  pub total_sectors : ℕ
  pub rsv_start_sec : ℕ
  pub data_start_sec : ℕ
  pub chunk_sectors : ℕ
  pub chunk_count : ℕ
  pub write_ptr_chunk : ℕ
  pub seq_epoch : ℕ
  pub feature_mask : ℕ
  pub rsvf : ℕ
  pub meta_start_chunk : ℕ
  pub meta_chunk_count : ℕ
  pub enc_algo : ℕ
  pub enc_flags : ℕ
  pub hdd_full : ℕ
  pub rsv0 : ℕ
  pub kdf_salt : ℕ
  pub wrapped_dek : ℕ
  pub dek_kcv : ℕ
  pub pad : ℕ

abbrev pub sb_widths : List ℕ
sb_widths =
    8 ∷ 4 ∷ 4 ∷ 16 ∷ 16 ∷ 2 ∷ 2 ∷ 8 ∷ 8 ∷ 8 ∷ 8 ∷ 8 ∷ 8 ∷ 8 ∷ 4 ∷ 4 ∷ 8 ∷ 8 ∷ 1 ∷ 1 ∷ 1 ∷ 5 ∷ 16
    ∷ 48 ∷ 8 ∷ 300 ∷ []

abbrev pub sb_values : SuperBlock → List ℕ
sb_values s =
    s.magic ∷ s.version ∷ s.sb_crc32 ∷ s.disk_uuid ∷ s.group_uuid ∷ s.group_disk_index
    ∷ s.group_disk_count ∷ s.total_sectors ∷ s.rsv_start_sec ∷ s.data_start_sec ∷ s.chunk_sectors
    ∷ s.chunk_count ∷ s.write_ptr_chunk ∷ s.seq_epoch ∷ s.feature_mask ∷ s.rsvf ∷ s.meta_start_chunk
    ∷ s.meta_chunk_count ∷ s.enc_algo ∷ s.enc_flags ∷ s.hdd_full ∷ s.rsv0 ∷ s.kdf_salt
    ∷ s.wrapped_dek ∷ s.dek_kcv ∷ s.pad ∷ []

abbrev pub sb_of : List ℕ → SuperBlock
sb_of v = record {
  magic = get_or v 0 0;
  version = get_or v 1 0;
  sb_crc32 = get_or v 2 0;
  disk_uuid = get_or v 3 0;
  group_uuid = get_or v 4 0;
  group_disk_index = get_or v 5 0;
  group_disk_count = get_or v 6 0;
  total_sectors = get_or v 7 0;
  rsv_start_sec = get_or v 8 0;
  data_start_sec = get_or v 9 0;
  chunk_sectors = get_or v 10 0;
  chunk_count = get_or v 11 0;
  write_ptr_chunk = get_or v 12 0;
  seq_epoch = get_or v 13 0;
  feature_mask = get_or v 14 0;
  rsvf = get_or v 15 0;
  meta_start_chunk = get_or v 16 0;
  meta_chunk_count = get_or v 17 0;
  enc_algo = get_or v 18 0;
  enc_flags = get_or v 19 0;
  hdd_full = get_or v 20 0;
  rsv0 = get_or v 21 0;
  kdf_salt = get_or v 22 0;
  wrapped_dek = get_or v 23 0;
  dek_kcv = get_or v 24 0;
  pad = get_or v 25 0;
}

-- The entry of one channel in the system table.
pub record ChnState : Type 0 where
  pub cur_chunk : ℕ
  pub cur_off : ℕ
  pub seg_seq : ℕ

pub record SysTab : Type 0 where
  pub magic : ℕ
  pub sys_version : ℕ
  pub systab_size : ℕ
  pub crc32 : ℕ
  pub format_time : ℕ
  pub bitmap_start_sec : ℕ
  pub bitmap_sectors : ℕ
  pub index_start_sec : ℕ
  pub index_sectors : ℕ
  pub index_slot_size : ℕ
  pub index_slot_count : ℕ
  pub index_next : ℕ
  pub rsvi : ℕ
  pub meta_next_off : ℕ
  pub meta_bytes : ℕ
  pub chn : List ChnState
  pub rsv : ℕ

abbrev pub chn_widths : ℕ → List ℕ
chn_widths zero = 3496 ∷ []
chn_widths (suc n) = 8 ∷ 4 ∷ 4 ∷ chn_widths n

abbrev pub st_widths : List ℕ
st_widths = 4 ∷ 4 ∷ 4 ∷ 4 ∷ 8 ∷ 8 ∷ 8 ∷ 8 ∷ 8 ∷ 4 ∷ 4 ∷ 4 ∷ 4 ∷ 8 ∷ 8 ∷ chn_widths 32

abbrev pub chn_values : List ChnState → ℕ → List ℕ
chn_values [] rsv = rsv ∷ []
chn_values (c ∷ cs) rsv = c.cur_chunk ∷ c.cur_off ∷ c.seg_seq ∷ chn_values cs rsv

abbrev pub st_values : SysTab → List ℕ
st_values t =
    t.magic
    ∷ t.sys_version
    ∷ t.systab_size
    ∷ t.crc32
    ∷ t.format_time
    ∷ t.bitmap_start_sec
    ∷ t.bitmap_sectors
    ∷ t.index_start_sec
    ∷ t.index_sectors
    ∷ t.index_slot_size
    ∷ t.index_slot_count
    ∷ t.index_next
    ∷ t.rsvi
    ∷ t.meta_next_off
    ∷ t.meta_bytes
    ∷ chn_values t.chn t.rsv

abbrev pub chns_of : ℕ → List ℕ → List ChnState
chns_of zero v = []
chns_of (suc n) v =
    record { cur_chunk = get_or v 0 0; cur_off = get_or v 1 0; seg_seq = get_or v 2 0 }
    ∷ chns_of n (drop 3 v)

abbrev pub st_of : List ℕ → SysTab
st_of v = record {
  magic = get_or v 0 0;
  sys_version = get_or v 1 0;
  systab_size = get_or v 2 0;
  crc32 = get_or v 3 0;
  format_time = get_or v 4 0;
  bitmap_start_sec = get_or v 5 0;
  bitmap_sectors = get_or v 6 0;
  index_start_sec = get_or v 7 0;
  index_sectors = get_or v 8 0;
  index_slot_size = get_or v 9 0;
  index_slot_count = get_or v 10 0;
  index_next = get_or v 11 0;
  rsvi = get_or v 12 0;
  meta_next_off = get_or v 13 0;
  meta_bytes = get_or v 14 0;
  chn = chns_of 32 (drop 15 v);
  rsv = get_or v 111 0;
}

-- The 64 bytes in front of each frame.
pub record FrameHdr : Type 0 where
  pub magic : ℕ
  pub chn : ℕ
  pub stream : ℕ
  pub codec : ℕ
  pub frame_type : ℕ
  pub enc : ℕ
  pub rsv0 : ℕ
  pub payload_len : ℕ
  pub seg_id : ℕ
  pub frame_seq : ℕ
  pub pts : ℕ
  pub wall_time : ℕ
  pub iv_nonce : ℕ
  pub hdr_crc32 : ℕ
  pub rsvh : ℕ

abbrev pub hdr_widths : List ℕ
hdr_widths = 8 ∷ 2 ∷ 1 ∷ 1 ∷ 1 ∷ 1 ∷ 2 ∷ 4 ∷ 4 ∷ 4 ∷ 8 ∷ 8 ∷ 8 ∷ 4 ∷ 8 ∷ []

abbrev pub hdr_values : FrameHdr → List ℕ
hdr_values h =
    h.magic ∷ h.chn ∷ h.stream ∷ h.codec ∷ h.frame_type ∷ h.enc ∷ h.rsv0 ∷ h.payload_len ∷ h.seg_id
    ∷ h.frame_seq ∷ h.pts ∷ h.wall_time ∷ h.iv_nonce ∷ h.hdr_crc32 ∷ h.rsvh ∷ []

abbrev pub hdr_of : List ℕ → FrameHdr
hdr_of v = record {
  magic = get_or v 0 0;
  chn = get_or v 1 0;
  stream = get_or v 2 0;
  codec = get_or v 3 0;
  frame_type = get_or v 4 0;
  enc = get_or v 5 0;
  rsv0 = get_or v 6 0;
  payload_len = get_or v 7 0;
  seg_id = get_or v 8 0;
  frame_seq = get_or v 9 0;
  pts = get_or v 10 0;
  wall_time = get_or v 11 0;
  iv_nonce = get_or v 12 0;
  hdr_crc32 = get_or v 13 0;
  rsvh = get_or v 14 0;
}

-- A slot of the index ring.
pub record Slot : Type 0 where
  pub seg_id : ℕ
  pub chn : ℕ
  pub rectype : ℕ
  pub flags : ℕ
  pub start_time : ℕ
  pub end_time : ℕ
  pub frame_count : ℕ
  pub total_bytes : ℕ
  pub start_disk : ℕ
  pub end_disk : ℕ
  pub start_chunk : ℕ
  pub start_off : ℕ
  pub end_chunk : ℕ
  pub end_off : ℕ
  pub crc32 : ℕ
  pub pad : ℕ

abbrev pub slot_widths : List ℕ
slot_widths = 4 ∷ 2 ∷ 1 ∷ 1 ∷ 4 ∷ 4 ∷ 4 ∷ 8 ∷ 2 ∷ 2 ∷ 8 ∷ 4 ∷ 8 ∷ 4 ∷ 4 ∷ 4 ∷ []

abbrev pub slot_values : Slot → List ℕ
slot_values s =
    s.seg_id ∷ s.chn ∷ s.rectype ∷ s.flags ∷ s.start_time ∷ s.end_time ∷ s.frame_count
    ∷ s.total_bytes ∷ s.start_disk ∷ s.end_disk ∷ s.start_chunk ∷ s.start_off ∷ s.end_chunk
    ∷ s.end_off ∷ s.crc32 ∷ s.pad ∷ []

abbrev pub slot_of : List ℕ → Slot
slot_of v = record {
  seg_id = get_or v 0 0;
  chn = get_or v 1 0;
  rectype = get_or v 2 0;
  flags = get_or v 3 0;
  start_time = get_or v 4 0;
  end_time = get_or v 5 0;
  frame_count = get_or v 6 0;
  total_bytes = get_or v 7 0;
  start_disk = get_or v 8 0;
  end_disk = get_or v 9 0;
  start_chunk = get_or v 10 0;
  start_off = get_or v 11 0;
  end_chunk = get_or v 12 0;
  end_off = get_or v 13 0;
  crc32 = get_or v 14 0;
  pad = get_or v 15 0;
}

-- A frame as the application hands it over.
pub record Frame : Type 0 where
  pub chn : ℕ
  pub stream : ℕ
  pub codec : ℕ
  pub frame_type : ℕ
  pub pts : ℕ
  pub wall_time : ℕ
  pub bytes : List ℕ
