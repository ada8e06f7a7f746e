-- ===== src/Recorder/Device/Persist.antt =====
-- What `rsdk_dev_flush` writes, `rsdk_dev_open` reads back.
use nt.Prelude.{
  ℕ, zero, suc, ◌+◌, ◌*◌, ◌≡◌, refl, ap, ◌∙◌, inl, arith, List, [], ◌∷◌, Option, none, some, length,
  u64, get_or, ◌==◌, ==_iff, if◌then◌else◌, true,
}
use nt.Prelude.Bytes.{
  Disk, pread, pwrite, decode, Fits, length-encode, decode-encode, pread-pwrite_same,
  pread-pwrite_disjoint,
}
use nt.Recorder.Types.{
  ok, SuperBlock, SysTab, ChnState, sb_widths, sb_values, sb_of, st_widths, st_values, st_of,
  chn_values, chns_of,
}
use nt.Recorder.Util.{crc32-lt}
use nt.Recorder.Layout.{
  sec, sb_main_sec, sb_bak_sec, st_main_sec, st_bak_sec, sb_magic, st_magic, seal_sb, seal_st,
  sub64,
}
use nt.Recorder.Device.{
  Dev, Cipher, sb_bytes, st_bytes, read_sb, read_st, load_sb, load_st, dev_open, flush,
}

length-sb_bytes : (s : SuperBlock) → length (sb_bytes s) ≡ 512
length-sb_bytes s = length-encode sb_widths (sb_values s)

length-st_bytes : (t : SysTab) → length (st_bytes t) ≡ 4096
length-st_bytes t = length-encode st_widths (st_values t)

chns_of-chn_values :
    (n : ℕ) (cs : List ChnState) (rsv : ℕ) → length cs ≡ n → chns_of n (chn_values cs rsv) ≡ cs
chns_of-chn_values zero [] rsv e = refl
chns_of-chn_values zero (c ∷ cs) rsv e = absurd (omega arith)
chns_of-chn_values (suc n) [] rsv e = absurd (omega arith)
chns_of-chn_values (suc n) (c ∷ cs) rsv e =
    ap (λ r. c ∷ r) (chns_of-chn_values n cs rsv (omega arith))

get_or-chn_values :
    (n : ℕ) (cs : List ChnState) (rsv : ℕ)
    → n ≡ 3 * length cs
    → get_or (chn_values cs rsv) n 0 ≡ rsv
get_or-chn_values zero [] rsv e = refl
get_or-chn_values (suc n) [] rsv e = absurd (omega arith)
get_or-chn_values zero (c ∷ cs) rsv e = absurd (omega arith)
get_or-chn_values (suc zero) (c ∷ cs) rsv e = absurd (omega arith)
get_or-chn_values (suc (suc zero)) (c ∷ cs) rsv e = absurd (omega arith)
get_or-chn_values (suc (suc (suc n))) (c ∷ cs) rsv e = get_or-chn_values n cs rsv (omega arith)

st_of-st_values : (t : SysTab) → length t.chn ≡ 32 → st_of (st_values t) ≡ t
st_of-st_values t e = λ i. record t {
  chn = chns_of-chn_values 32 t.chn t.rsv e i;
  rsv = get_or-chn_values 96 t.chn t.rsv (omega arith) i;
}

read_sb-pwrite :
    (d : Disk) (s : ℕ) (sb : SuperBlock)
    → Fits sb_widths (sb_values sb)
    → read_sb (pwrite d (s * sec) (sb_bytes sb)) s ≡ sb
unfolding read_sb
read_sb-pwrite d s sb f = rw (same, decode-encode sb_widths (sb_values sb) f)
  where
    same : pread (pwrite d (s * sec) (sb_bytes sb)) (s * sec) 512 ≡ sb_bytes sb
    same = rw (length-sb_bytes sb) at (pread-pwrite_same d (s * sec) (sb_bytes sb))

read_st-pwrite :
    (d : Disk) (s : ℕ) (t : SysTab)
    → Fits st_widths (st_values t)
    → length t.chn ≡ 32
    → read_st (pwrite d (s * sec) (st_bytes t)) s ≡ t
unfolding read_st
read_st-pwrite d s t f e = rw (same, decode-encode st_widths (st_values t) f) (st_of-st_values t e)
  where
    same : pread (pwrite d (s * sec) (st_bytes t)) (s * sec) 4096 ≡ st_bytes t
    same = rw (length-st_bytes t) at (pread-pwrite_same d (s * sec) (st_bytes t))

seal_sb-Fits :
    (s : SuperBlock) → Fits sb_widths (sb_values s) → Fits sb_widths (sb_values (seal_sb s))
unfolding seal_sb
seal_sb-Fits s f = (f.0, (f.1.0, (crc32-lt _, f.1.1.1)))

seal_st-Fits : (t : SysTab) → Fits st_widths (st_values t) → Fits st_widths (st_values (seal_st t))
unfolding seal_st
seal_st-Fits t f = (f.0, (f.1.0, (f.1.1.0, (crc32-lt _, f.1.1.1.1))))

read_sb-behind :
    (d : Disk) (bs : List ℕ)
    → read_sb (pwrite d (st_main_sec * sec) bs) sb_main_sec ≡ read_sb d sb_main_sec
unfolding read_sb
read_sb-behind d bs =
    ap (λ b. sb_of (decode sb_widths b))
      (pread-pwrite_disjoint d (sb_main_sec * sec) 512 (st_main_sec * sec) bs (inl (omega arith)))

length-chn_seal : (t : SysTab) → length t.chn ≡ 32 → length (seal_st t).chn ≡ 32
unfolding seal_st
length-chn_seal t e = e

marked_sb : (s : SuperBlock) → s.magic ≡ sb_magic → ((seal_sb s).magic == sb_magic) ≡ true
unfolding seal_sb
marked_sb s m = (==_iff s.magic sb_magic).1 m

marked_st : (t : SysTab) → t.magic ≡ st_magic → ((seal_st t).magic == st_magic) ≡ true
unfolding seal_st
marked_st t m = (==_iff t.magic st_magic).1 m

if_main_sb :
    (read wrote : SuperBlock) (other : Option SuperBlock)
    → read ≡ wrote
    → (wrote.magic == sb_magic) ≡ true
    → (if read.magic == sb_magic then some read else other) ≡ some wrote
if_main_sb read wrote other e t = rw (e, t)

if_main_st :
    (read wrote other : SysTab)
    → read ≡ wrote
    → (wrote.magic == st_magic) ≡ true
    → (if read.magic == st_magic then read else other) ≡ wrote
if_main_st read wrote other e t = rw (e, t)

-- What a device's mount sees: the superblock and the table, both sealed.
flush-load_sb :
    (d : Dev)
    → Fits sb_widths (sb_values d.sb)
    → d.sb.magic ≡ sb_magic
    → load_sb (flush d).disk ≡ some (seal_sb d.sb)
unfolding load_sb flush
flush-load_sb d f m = if_main_sb _ _ _ main (marked_sb d.sb m)
  where
    before : Disk
    before =
        pwrite (pwrite d.disk (sb_bak_sec * sec) (sb_bytes (seal_sb d.sb))) (st_bak_sec * sec)
          (st_bytes (seal_st d.st))

    main :
        read_sb
          (pwrite
            (pwrite before (sb_main_sec * sec) (sb_bytes (seal_sb d.sb)))
            (st_main_sec * sec)
            (st_bytes (seal_st d.st)))
          sb_main_sec
        ≡ seal_sb d.sb
    main =
        read_sb-behind _ (st_bytes (seal_st d.st))
        ∙ read_sb-pwrite before sb_main_sec (seal_sb d.sb) (seal_sb-Fits d.sb f)

flush-load_st :
    (d : Dev)
    → Fits st_widths (st_values d.st)
    → length d.st.chn ≡ 32
    → d.st.magic ≡ st_magic
    → load_st (flush d).disk ≡ seal_st d.st
unfolding load_st flush
flush-load_st d f e m = if_main_st _ _ _ main (marked_st d.st m)
  where
    before : Disk
    before =
        pwrite
          (pwrite (pwrite d.disk (sb_bak_sec * sec) (sb_bytes (seal_sb d.sb))) (st_bak_sec * sec)
            (st_bytes (seal_st d.st)))
          (sb_main_sec * sec) (sb_bytes (seal_sb d.sb))

    main :
        read_st (pwrite before (st_main_sec * sec) (st_bytes (seal_st d.st))) st_main_sec
        ≡ seal_st d.st
    main =
        read_st-pwrite before st_main_sec (seal_st d.st) (seal_st-Fits d.st f)
          (length-chn_seal d.st e)

-- Opening a disk right after its device was flushed succeeds: the superblock and the system table
-- are the flushed ones with their checksums filled in, and the data ring and the metadata region are
-- derived from that superblock, modulo 2^64. The fields must fit their widths, the magic numbers must be in
-- place, and the table must hold its 32 channels.
pub dev_open-flush :
    (unlock : SuperBlock → Option Cipher) (d : Dev)
    → Fits sb_widths (sb_values d.sb)
    → Fits st_widths (st_values d.st)
    → length d.st.chn ≡ 32
    → d.sb.magic ≡ sb_magic
    → d.st.magic ≡ st_magic
    → dev_open unlock (flush d).disk ≡ (
      ok,
      some (record {
        disk = (flush d).disk;
        sb = seal_sb d.sb;
        st = seal_st d.st;
        crypto = if d.sb.enc_algo == 1 then unlock (seal_sb d.sb) else none;
        chunk_bytes = u64 (d.sb.chunk_sectors * sec);
        data_chunks = sub64 d.sb.chunk_count d.sb.meta_chunk_count;
        meta_base =
            u64
              (d.sb.data_start_sec * sec + d.sb.meta_start_chunk * u64 (d.sb.chunk_sectors * sec));
      }),
    )
unfolding dev_open seal_sb
dev_open-flush unlock d fs ft e ms mt =
    rw (flush-load_sb d fs ms, dev_open, flush-load_st d ft e mt, (==_iff c c).1 refl)
  where
    c : ℕ
    c = (seal_sb d.sb).sb_crc32
