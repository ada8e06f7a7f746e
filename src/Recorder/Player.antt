-- ===== src/Recorder/Player.antt =====
-- components/recorder/src/rsdk_play.c: playing the frames of one segment.
pub mod RoundTrip
pub mod Played
use nt.Prelude.{
  ℕ, zero, suc, ◌+◌, ◌-◌, ◌*◌, ◌/◌, ◌%◌, List, [], ◌∷◌, Bool, true, false, Option, none, some, ltb,
  leb, ◌==◌, ◌&&◌, if◌then◌else◌, u32, u64,
}
use nt.Prelude.Bytes.{pread, decode}
use nt.Recorder.Types.{Err, ok, notfound, corrupt, crypto, FrameHdr, Slot, hdr_widths, hdr_of}
use nt.Recorder.Util.{align_up}
use nt.Recorder.Layout.{sec}
use nt.Recorder.Crypto.{xcrypt}
use nt.Recorder.Device.{Dev}
use nt.Recorder.Writer.{frame_magic, frame_align, hdr_crc}

pub record Player : Type 0 where
  pub d : Dev
  pub seg : Slot
  pub base_off : ℕ
  pub chunk_bytes : ℕ
  pub cur_off : ℕ
  pub end_off : ℕ

unfoldable pub play_open : Dev → Slot → Player
play_open d seg =
    let size = u64 (d.sb.chunk_sectors * sec) in
    record {
      d = d;
      seg = seg;
      base_off = u64 (d.sb.data_start_sec * sec + seg.start_chunk * size);
      chunk_bytes = size;
      cur_off = seg.start_off;
      end_off = seg.end_off;
    }

unfoldable pub read_hdr : Player → ℕ → Err × FrameHdr
read_hdr p off =
    let h = hdr_of (decode hdr_widths (pread p.d.disk (p.base_off + off) 64)) in
    if h.magic == frame_magic
    then (if hdr_crc h == h.hdr_crc32 then (ok, h) else (corrupt, h))
    else (notfound, h)

-- Where the frame behind `off` starts.
abbrev pub next_off : ℕ → ℕ → ℕ
next_off off len = u32 (align_up (u32 (off + 64 + len)) frame_align)

-- The loop of the seek: `none` where the fuel ran out.
unfoldable pub seek_loop : ℕ → Player → ℕ → ℕ → ℕ → Option ℕ
seek_loop zero p pts off best = none
seek_loop (suc fuel) p pts off best =
    let (e, h) = read_hdr p off in
    let rest = seek_loop fuel p pts (next_off off h.payload_len) off in
    if leb off p.end_off
    then (elim e [ ok ↦ (if leb h.pts pts then rest else some best) | _ ↦ some best ])
    else some best

unfoldable pub seek_pts : ℕ → Player → ℕ → Option Player
seek_pts fuel p pts = elim (seek_loop fuel p pts p.seg.start_off p.seg.start_off) [
  | none ↦ none
  | some best ↦ some (record p { cur_off = best })
]

-- The status, the header, the plaintext and the player; the middle two count where the status is ok.
unfoldable pub next_frame : Player → Err × FrameHdr × List ℕ × Player
next_frame p =
    let (e, h) = read_hdr p p.cur_off in
    let body = pread p.d.disk (p.base_off + p.cur_off + 64) h.payload_len in
    let p' = record p { cur_off = next_off p.cur_off h.payload_len } in
    if ltb p.end_off p.cur_off then (notfound, h, [], p) else (elim e [
      | ok ↦ if h.enc == 0 then (ok, h, body, p') else (elim p.d.crypto [
        | none ↦ (crypto, h, [], p)
        | some aes ↦ (ok, h, xcrypt aes h.seg_id h.frame_seq 0 body, p')
      ])
      | other ↦ (other, h, [], p)
    ])
