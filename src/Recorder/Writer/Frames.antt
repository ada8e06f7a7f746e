-- ===== src/Recorder/Writer/Frames.antt =====
-- What the frames of one segment leave on the disk.
use nt.Prelude.{
  ℕ, ◌+◌, ◌*◌, ◌%◌, ◌≤◌, ◌<◌, ◌≡◌, refl, ◌∙◌, inl, inr, arith, List, [], ◌∷◌, Bool-cases, Option,
  none, some, ◌==◌, length,
}
use nt.Prelude.Bytes.{
  Disk, pread, pwrite, encode, length-encode, pread-agree, pread-pwrite_same, pread-pwrite_disjoint,
}
use nt.Recorder.Types.{Err, ok, Frame, hdr_widths, hdr_values}
use nt.Recorder.Util.{align_up}
use nt.Recorder.Crypto.{length-xcrypt}
use nt.Recorder.Device.{Cipher}
use nt.Recorder.Index.Slots.{index_end}
use nt.Recorder.Index.Upsert.{Keeps, index_write-Keeps, index_write_above}
use nt.Recorder.Writer.{
  Writer, frame_align, chunk_size, mark_open, frame_hdr, payload, put_frame, write_frame,
}

-- The room of a frame of `len` bytes, with no wrap-around.
abbrev pub room : ℕ → ℕ
room len = align_up (64 + len) frame_align

abbrev pub span : List Frame → ℕ
span [] = 0
span (f ∷ fs) = room (length f.bytes) + span fs

-- A writer inside a chunk that lies behind the index.
pub record IsReady (w : Writer) : Type 0 where
  pub behind : 19 ≤ w.d.st.index_start_sec
  pub next_in : w.d.st.index_next < w.d.st.index_slot_count
  pub above : index_end w.d ≤ w.base_off
  pub small : chunk_size w.d ≤ 2147483648
  pub inside : w.cur_off ≤ chunk_size w.d
  pub counted : w.frame_count ≡ w.frame_seq
  pub fresh : w.frame_count ≡ 0 → w.cur_off ≡ 0
  pub numbered : 128 * w.frame_seq ≤ w.cur_off

unfoldable pub step : Writer → Frame → Writer
step w f = put_frame (mark_open w f.wall_time) f

unfoldable pub put_all : Writer → List Frame → Writer
put_all w [] = w
put_all w (f ∷ fs) = put_all (step w f) fs

-- `rsdk_rec_write_frame` for each frame; the first error ends it.
unfoldable pub write_many : Writer → List Frame → Err × Writer
write_many w [] = (ok, w)
write_many w (f ∷ fs) =
    let (e, w') = write_frame w f in
    let rest = write_many w' fs in elim e [ ok ↦ rest | other ↦ (other, w') ]

pub room-bounds : (len : ℕ) → (64 + len ≤ room len) × (128 ≤ room len) × (room len % 128 ≡ 0)
room-bounds len = omega arith

-- What `mark_open` leaves of the writer.
pub record Marked (w w' : Writer) : Type 0 where
  pub keeps : Keeps w.d w'.d
  pub base : w'.base_off ≡ w.base_off
  pub cur : w'.cur_off ≡ w.cur_off
  pub seg : w'.seg_id ≡ w.seg_id
  pub seq : w'.frame_seq ≡ w.frame_seq
  pub count : w'.frame_count ≡ w.frame_count
  pub chunk : w'.chunk ≡ w.chunk

pub mark_open-Marked : (w : Writer) (wall : ℕ) → IsReady w → Marked w (mark_open w wall)
unfolding mark_open
mark_open-Marked w wall r = elim (Bool-cases (w.frame_count == 0)) [
  | inl e ↦
      rw (e, mark_open)
        (record {
          keeps = (index_write-Keeps w.d _ r.next_in).1;
          base = refl;
          cur = refl;
          seg = refl;
          seq = refl;
          count = refl;
          chunk = refl;
        })
  | inr e ↦
      rw (e, mark_open)
        (record {
          keeps = record {
            crypto = refl;
            chunk_sectors = refl;
            data_start = refl;
            index_start = refl;
            slot_count = refl;
            next_in = r.next_in;
          };
          base = refl;
          cur = refl;
          seg = refl;
          seq = refl;
          count = refl;
          chunk = refl;
        })
]

pub mark_open_above :
    (w : Writer) (wall q : ℕ)
    → IsReady w
    → w.base_off ≤ q
    → (mark_open w wall).d.disk q ≡ w.d.disk q
unfolding mark_open
mark_open_above w wall q r h = elim (Bool-cases (w.frame_count == 0)) [
  | inl e ↦
      rw (e, mark_open) (index_write_above w.d _ q r.behind r.next_in (omega (arith, r.above)))
  | inr e ↦ rw (e, mark_open) refl
]

abbrev pub hdr_bytes : Option Cipher → ℕ → ℕ → Frame → List ℕ
hdr_bytes crypto seg seq f = encode hdr_widths (hdr_values (frame_hdr crypto seg seq f))

length-hdr_bytes :
    (crypto : Option Cipher) (seg seq : ℕ) (f : Frame) → length (hdr_bytes crypto seg seq f) ≡ 64
length-hdr_bytes crypto seg seq f =
    length-encode hdr_widths (hdr_values (frame_hdr crypto seg seq f))

length-payload :
    (crypto : Option Cipher) (seg seq : ℕ) (bs : List ℕ)
    → length (payload crypto seg seq bs) ≡ length bs
unfolding payload
length-payload none seg seq bs = refl
length-payload (some aes) seg seq bs = length-xcrypt aes seg seq 0 bs

-- The bytes that a frame puts on the disk at `off`.
pub record At (d : Disk) (off : ℕ) (crypto : Option Cipher) (seg seq : ℕ) (f : Frame) : Type 0 where
  pub header : pread d off 64 ≡ hdr_bytes crypto seg seq f
  pub body : pread d (off + 64) (length f.bytes) ≡ payload crypto seg seq f.bytes

pub written-At :
    (d : Disk) (off : ℕ) (crypto : Option Cipher) (seg seq : ℕ) (f : Frame)
    → At
        (pwrite
          (pwrite d off (hdr_bytes crypto seg seq f))
          (off + 64)
          (payload crypto seg seq f.bytes))
        off
        crypto
        seg
        seq
        f
written-At d off crypto seg seq f = record {
  header =
      pread-pwrite_disjoint _ off 64 (off + 64) (payload crypto seg seq f.bytes) (inl (omega arith))
      ∙ (rw (length-hdr_bytes crypto seg seq f) at
          (pread-pwrite_same d off (hdr_bytes crypto seg seq f)));
  body = rw (length-payload crypto seg seq f.bytes) at (
      pread-pwrite_same (pwrite d off (hdr_bytes crypto seg seq f)) (off + 64)
        (payload crypto seg seq f.bytes));
}

-- A frame stays where it is while its bytes stay.
pub At-agree :
    (d e : Disk) (off : ℕ) (crypto : Option Cipher) (seg seq : ℕ) (f : Frame)
    → ((q : ℕ) → off ≤ q → q < off + room (length f.bytes) → e q ≡ d q)
    → At d off crypto seg seq f
    → At e off crypto seg seq f
At-agree d e off crypto seg seq f h a = record {
  header = pread-agree e d off 64 (λ q lo hi. h q lo (omega arith)) ∙ a.header;
  body =
      pread-agree e d (off + 64) (length f.bytes) (λ q lo hi. h q (omega arith) (omega arith))
      ∙ a.body;
}
