-- ===== src/Recorder/Writer/Step.antt =====
-- What one frame that fits does to its writer and to the disk.
use nt.Prelude.{u64, ℕ, ◌+◌, ◌*◌, ◌≤◌, ◌<◌, ◌≡◌, refl, sym, ap, ◌∙◌, inl, arith, Option, length}
use nt.Prelude.Bytes.{Disk, pwrite, pwrite_outside}
use nt.Recorder.Types.{Frame}
use nt.Recorder.Layout.{sec}
use nt.Recorder.Device.{Cipher}
use nt.Recorder.Index.Upsert.{Keeps}
use nt.Recorder.Writer.{Writer, chunk_size, mark_open, payload, put_frame}
use nt.Recorder.Writer.Frames.{
  room, IsReady, step, room-bounds, Marked, mark_open-Marked, mark_open_above, hdr_bytes, At,
  written-At,
}

-- What one frame does to a writer that has room for it.
pub record Stepped (w : Writer) (f : Frame) (w' : Writer) : Type 0 where
  pub ready : IsReady w'
  pub keeps : Keeps w.d w'.d
  pub base : w'.base_off ≡ w.base_off
  pub cur : w'.cur_off ≡ w.cur_off + room (length f.bytes)
  pub seg : w'.seg_id ≡ w.seg_id
  pub seq : w'.frame_seq ≡ w.frame_seq + 1
  pub last : w'.end_off ≡ w.cur_off
  pub chunk : w'.chunk ≡ w.chunk
  pub at : At w'.d.disk (w.base_off + w.cur_off) w.d.crypto w.seg_id w.frame_seq f
  pub below : (q : ℕ) → w.base_off ≤ q → q < w.base_off + w.cur_off → w'.d.disk q ≡ w.d.disk q

put_frame_disk :
    (w : Writer) (f : Frame)
    → (put_frame w f).d.disk
      ≡ pwrite
          (pwrite w.d.disk (w.base_off + w.cur_off) (hdr_bytes w.d.crypto w.seg_id w.frame_seq f))
          (w.base_off + w.cur_off + 64)
          (payload w.d.crypto w.seg_id w.frame_seq f.bytes)
unfolding put_frame
put_frame_disk w f = refl

put_frame-At :
    (w : Writer) (f : Frame)
    → At (put_frame w f).d.disk (w.base_off + w.cur_off) w.d.crypto w.seg_id w.frame_seq f
unfolding put_frame
put_frame-At w f = written-At w.d.disk (w.base_off + w.cur_off) w.d.crypto w.seg_id w.frame_seq f

put_frame_below :
    (w : Writer) (f : Frame) (q : ℕ)
    → q < w.base_off + w.cur_off
    → (put_frame w f).d.disk q ≡ w.d.disk q
put_frame_below w f q h = rw (put_frame_disk w f) (
    pwrite_outside _ (w.base_off + w.cur_off + 64) _ q (inl (omega arith))
    ∙ pwrite_outside w.d.disk (w.base_off + w.cur_off) _ q (inl h))

At-cast :
    (d : Disk) (f : Frame) {off off' seg seg' seq seq' : ℕ} {c c' : Option Cipher}
    → off ≡ off'
    → c ≡ c'
    → seg ≡ seg'
    → seq ≡ seq'
    → At d off c seg seq f
    → At d off' c' seg' seq' f
At-cast d f e1 e2 e3 e4 a = rw (← e1, ← e2, ← e3, ← e4) a

-- The counters of a writer that puts a frame into room that it has.
put_frame-cur :
    (w : Writer) (f : Frame)
    → chunk_size w.d ≤ 2147483648
    → w.cur_off + room (length f.bytes) ≤ chunk_size w.d
    → 128 * w.frame_seq ≤ w.cur_off
    → ((put_frame w f).cur_off ≡ w.cur_off + room (length f.bytes))
      × ((put_frame w f).frame_seq ≡ w.frame_seq + 1)
      × (w.frame_count ≡ w.frame_seq → (put_frame w f).frame_count ≡ w.frame_seq + 1)
unfolding put_frame
put_frame-cur w f small fit n = (
  omega arith,
  omega (arith, room-bounds (length f.bytes)),
  λ e. omega (arith, room-bounds (length f.bytes)),
)

put_frame-keeps :
    (w : Writer) (f : Frame)
    → ((put_frame w f).d.sb ≡ w.d.sb)
      × ((put_frame w f).d.st ≡ w.d.st)
      × ((put_frame w f).d.crypto ≡ w.d.crypto)
      × ((put_frame w f).base_off ≡ w.base_off)
      × ((put_frame w f).seg_id ≡ w.seg_id)
      × ((put_frame w f).end_off ≡ w.cur_off)
      × ((put_frame w f).chunk ≡ w.chunk)
unfolding put_frame
put_frame-keeps w f = (refl, refl, refl, refl, refl, refl, refl)

pub step-Stepped :
    (w : Writer) (f : Frame)
    → IsReady w
    → w.cur_off + room (length f.bytes) ≤ chunk_size w.d
    → Stepped w f (step w f)
unfolding step
step-Stepped w f r fit = record {
  ready = record {
    behind = omega (arith, kp, r.behind);
    next_in = kp.next_in;
    above = omega (arith, kp, k.3, m.base, r.above);
    small = omega (arith, size', r.small);
    inside = omega (arith, size', c.0, m.cur, fit);
    counted = c.2 (m.count ∙ r.counted ∙ sym m.seq) ∙ sym c.1;
    fresh = λ e. absurd (omega (arith, e, c.2 (m.count ∙ r.counted ∙ sym m.seq)));
    numbered = omega (arith, c.0, c.1, m.cur, m.seq, r.numbered, room-bounds (length f.bytes));
  };
  keeps = kp;
  base = k.3 ∙ m.base;
  cur = omega (arith, c.0, m.cur);
  seg = k.4 ∙ m.seg;
  seq = omega (arith, c.1, m.seq);
  last = k.5 ∙ m.cur;
  chunk = k.6 ∙ m.chunk;
  at =
      At-cast (step w f).d.disk f (omega (arith, m.base, m.cur)) m.keeps.crypto m.seg m.seq
        (put_frame-At (mark_open w f.wall_time) f);
  below = λ q lo hi.
      put_frame_below (mark_open w f.wall_time) f q (omega (arith, m.base, m.cur))
      ∙ mark_open_above w f.wall_time q r lo;
}
  where
    m : Marked w (mark_open w f.wall_time)
    m = mark_open-Marked w f.wall_time r

    size : chunk_size (mark_open w f.wall_time).d ≡ chunk_size w.d
    size = ap (λ n. u64 (n * sec)) m.keeps.chunk_sectors

    c :
        ((put_frame (mark_open w f.wall_time) f).cur_off
          ≡ (mark_open w f.wall_time).cur_off + room (length f.bytes))
        × ((put_frame (mark_open w f.wall_time) f).frame_seq
            ≡ (mark_open w f.wall_time).frame_seq + 1)
        × ((mark_open w f.wall_time).frame_count ≡ (mark_open w f.wall_time).frame_seq
            → (put_frame (mark_open w f.wall_time) f).frame_count
              ≡ (mark_open w f.wall_time).frame_seq + 1)
    c =
        put_frame-cur (mark_open w f.wall_time) f (omega (arith, size, r.small))
          (omega (arith, size, m.cur)) (omega (arith, m.seq, m.cur, r.numbered))

    k :
        ((step w f).d.sb ≡ (mark_open w f.wall_time).d.sb)
        × ((step w f).d.st ≡ (mark_open w f.wall_time).d.st)
        × ((step w f).d.crypto ≡ (mark_open w f.wall_time).d.crypto)
        × ((step w f).base_off ≡ (mark_open w f.wall_time).base_off)
        × ((step w f).seg_id ≡ (mark_open w f.wall_time).seg_id)
        × ((step w f).end_off ≡ (mark_open w f.wall_time).cur_off)
        × ((step w f).chunk ≡ (mark_open w f.wall_time).chunk)
    k = put_frame-keeps (mark_open w f.wall_time) f

    index_next : (step w f).d.st.index_next ≡ (mark_open w f.wall_time).d.st.index_next
    index_next = ap (λ s. s.index_next) k.1

    slot_count : (step w f).d.st.index_slot_count ≡ (mark_open w f.wall_time).d.st.index_slot_count
    slot_count = ap (λ s. s.index_slot_count) k.1

    kp : Keeps w.d (step w f).d
    kp = record {
      crypto = k.2 ∙ m.keeps.crypto;
      chunk_sectors = ap (λ s. s.chunk_sectors) k.0 ∙ m.keeps.chunk_sectors;
      data_start = ap (λ s. s.data_start_sec) k.0 ∙ m.keeps.data_start;
      index_start = ap (λ s. s.index_start_sec) k.1 ∙ m.keeps.index_start;
      slot_count = slot_count ∙ m.keeps.slot_count;
      next_in = omega (arith, m.keeps, index_next, slot_count);
    }

    size' : chunk_size (step w f).d ≡ chunk_size w.d
    size' = ap (λ n. u64 (n * sec)) kp.chunk_sectors
