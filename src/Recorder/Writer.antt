-- ===== src/Recorder/Writer.antt =====
-- components/recorder/src/rsdk_rec.c on one disk: a segment is a run of frames in one chunk.
pub mod Frames
pub mod Step
pub mod Run
use nt.Prelude.{
  ℕ, zero, suc, ◌+◌, ◌-◌, ◌*◌, ◌/◌, ◌%◌, List, [], ◌∷◌, ◌++◌, Bool, true, false, Option, none, some,
  ltb, leb, ◌==◌, ◌&&◌, not, if◌then◌else◌, u8, u16, u32, u64, bit_or, length, get_or, set,
}
use nt.Prelude.Bytes.{pwrite, encode}
use nt.Recorder.Types.{
  Err, ok, param, nospace, ChnState, FrameHdr, Frame, Slot, hdr_widths, hdr_values,
}
use nt.Recorder.Util.{crc32, align_up}
use nt.Recorder.Layout.{sec}
use nt.Recorder.Crypto.{xcrypt}
use nt.Recorder.Device.{Dev, Cipher, flush, alloc_chunk, is_wrapped}
use nt.Recorder.Index.{index_write, index_invalidate_chunk, no_time}

pub record Writer : Type 0 where
  pub d : Dev
  pub chn : ℕ
  pub rectype : ℕ
  pub seg_id : ℕ
  pub chunk : ℕ
  pub base_off : ℕ
  pub cur_off : ℕ
  pub frame_seq : ℕ
  pub frame_count : ℕ
  pub total_bytes : ℕ
  pub start_time : ℕ
  pub last_time : ℕ
  pub end_off : ℕ
  pub open_written : Bool
  -- the calls of the reclaim callback, newest first: disk and chunk
  pub reclaimed : List (ℕ × ℕ)

abbrev pub no_chn : ChnState
no_chn = record { cur_chunk = 0; cur_off = 0; seg_seq = 0 }

-- The channel in the top byte, the channel's running number in the other three.
unfoldable pub next_seg_id : Dev → ℕ → ℕ × Dev
next_seg_id d chn =
    let i = chn % 32 in
    let c = get_or d.st.chn i no_chn in
    let seq = u32 (c.seg_seq + 1) in
    (
      chn % 256 * 16777216 + seq % 16777216,
      record d { st = record d.st { chn = set d.st.chn i (record c { seg_seq = seq }) } },
    )

-- The device after its chunk was taken: what the chunk held before leaves the index.
unfoldable pub recycle : Dev → ℕ → Dev
recycle d chunk = if is_wrapped d then (index_invalidate_chunk d chunk).1 else d

unfoldable pub start_seg : Writer → Err × Writer
unfolding recycle
start_seg w =
    let (e, chunk, off, d) = alloc_chunk w.d in
    let (seg, d') = next_seg_id (recycle d chunk) w.chn in
    elim e [
      | ok ↦ (
        ok,
        record w {
          d = d';
          chunk = chunk;
          base_off = off;
          cur_off = 0;
          seg_id = seg;
          frame_seq = 0;
          frame_count = 0;
          total_bytes = 0;
          start_time = 0;
          last_time = 0;
          end_off = 0;
          open_written = false;
          reclaimed =
              if is_wrapped d then (d.sb.group_disk_index, chunk) ∷ w.reclaimed else w.reclaimed;
        },
      )
      | other ↦ (other, w)
    ]

-- RSDK_SLOT_VALID, RSDK_SLOT_EVENT and RSDK_SLOT_OPEN are 1, 2 and 4.
unfoldable pub fill_slot : Writer → Bool → Slot
fill_slot w closed =
    let kind = if closed then 1 else 4 in
    record {
      seg_id = w.seg_id;
      chn = u16 w.chn;
      rectype = u8 w.rectype;
      flags = if w.rectype == 0 then kind else kind + 2;
      start_time = w.start_time;
      end_time = if closed then w.last_time else no_time;
      frame_count = w.frame_count;
      total_bytes = w.total_bytes;
      start_disk = w.d.sb.group_disk_index;
      end_disk = w.d.sb.group_disk_index;
      start_chunk = w.chunk;
      start_off = 0;
      end_chunk = w.chunk;
      end_off = w.end_off;
      crc32 = 0;
      pad = 0;
    }

unfoldable pub finalize_seg : Writer → Err × Writer
finalize_seg w =
    let (e, d) = index_write w.d (fill_slot w true) in
    if w.frame_count == 0 then (ok, w) else (e, record w { d = d })

-- The writer that `calloc` and the fields set before `start_seg` make.
abbrev pub fresh : Dev → ℕ → ℕ → Writer
fresh d chn rectype = record {
  d = d;
  chn = chn;
  rectype = rectype;
  seg_id = 0;
  chunk = 0;
  base_off = 0;
  cur_off = 0;
  frame_seq = 0;
  frame_count = 0;
  total_bytes = 0;
  start_time = 0;
  last_time = 0;
  end_off = 0;
  open_written = false;
  reclaimed = [];
}

unfoldable pub rec_open : Dev → ℕ → ℕ → Err × Writer
rec_open d chn rectype = start_seg (fresh d chn rectype)

abbrev pub frame_magic : ℕ
frame_magic = 0x006d72666b647372

abbrev pub frame_align : ℕ
frame_align = 128

-- The room that a frame takes in its chunk.
abbrev pub need : ℕ → ℕ
need len = u32 (align_up (u32 (64 + len)) frame_align)

abbrev pub chunk_size : Dev → ℕ
chunk_size d = u64 (d.sb.chunk_sectors * sec)

-- A frame that does not fit closes the segment and starts the next.
unfoldable pub roll_over : Writer → ℕ → Err × Writer
roll_over w n =
    let (e1, w1) = finalize_seg w in
    let next = start_seg w1 in
    if ltb 0 w.frame_count && ltb (chunk_size w.d) (u32 (w.cur_off + n))
    then (elim e1 [ ok ↦ next | other ↦ (other, w1) ])
    else (ok, w)

-- The first frame of a segment writes an open slot.
unfoldable pub mark_open : Writer → ℕ → Writer
mark_open w wall =
    let timed = record w { start_time = u32 wall } in
    if w.frame_count == 0
    then record timed { d = (index_write w.d (fill_slot timed false)).1; open_written = true }
    else w

unfoldable pub hdr_crc : FrameHdr → ℕ
hdr_crc h = crc32 (encode hdr_widths (hdr_values (record h { hdr_crc32 = 0 })))

abbrev pub is_some : Option Cipher → Bool
is_some none = false
is_some (some c) = true

unfoldable pub frame_hdr : Option Cipher → ℕ → ℕ → Frame → FrameHdr
unfolding hdr_crc
frame_hdr crypto seg seq f =
    let h : FrameHdr = record {
      magic = frame_magic;
      chn = f.chn;
      stream = f.stream;
      codec = f.codec;
      frame_type = f.frame_type;
      enc = if is_some crypto then 1 else 0;
      rsv0 = 0;
      payload_len = length f.bytes;
      seg_id = seg;
      frame_seq = seq;
      pts = f.pts;
      wall_time = f.wall_time;
      iv_nonce = u32 seq * 4294967297;
      hdr_crc32 = 0;
      rsvh = 0;
    } in
    record h { hdr_crc32 = hdr_crc h }

unfoldable pub payload : Option Cipher → ℕ → ℕ → List ℕ → List ℕ
payload none seg seq bs = bs
payload (some aes) seg seq bs = xcrypt aes seg seq 0 bs

-- The header and the payload go to the disk, and the counters move on.
unfoldable pub put_frame : Writer → Frame → Writer
put_frame w f =
    let off = w.base_off + w.cur_off in
    let hdr = encode hdr_widths (hdr_values (frame_hdr w.d.crypto w.seg_id w.frame_seq f)) in
    let body = payload w.d.crypto w.seg_id w.frame_seq f.bytes in
    record w {
      d = record w.d { disk = pwrite (pwrite w.d.disk off hdr) (off + 64) body };
      end_off = w.cur_off;
      cur_off = u32 (w.cur_off + need (length f.bytes));
      last_time = u32 f.wall_time;
      frame_seq = u32 (w.frame_seq + 1);
      frame_count = u32 (w.frame_count + 1);
      total_bytes = u64 (w.total_bytes + length f.bytes);
    }

unfoldable pub write_frame : Writer → Frame → Err × Writer
write_frame w f =
    let len = length f.bytes in
    let (e, w') = roll_over w (need len) in
    if len == 0
    then (param, w)
    else if ltb (chunk_size w.d) (64 + len)
    then (nospace, w)
    else (elim e [ ok ↦ (ok, put_frame (mark_open w' f.wall_time) f) | other ↦ (other, w') ])

unfoldable pub change_type : Writer → ℕ → Err × Writer
change_type w rectype =
    let (e, w') = finalize_seg w in
    elim e [ ok ↦ start_seg (record w' { rectype = rectype }) | other ↦ (other, w') ]

-- What is left of the writer is its device.
unfoldable pub rec_close : Writer → Err × Dev
rec_close w = let (e, w') = finalize_seg w in (e, flush w'.d)
